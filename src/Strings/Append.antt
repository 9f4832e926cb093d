-- ===== src/Strings/Append.antt =====
-- `string8_push_back`, `string8_extend` and `string8_pop_back` on text with a terminator.
use cxb.Prelude.{
  length, sym, ap, ℕ, ◌+◌, ◌*◌, ◌%◌, ◌^◌, ◌<◌, ◌≤◌, ◌≡◌, ◌≢◌, ◌⊎◌, inl, inr, refl, ◌∙◌, true, false,
  some, List, [], ◌∷◌, ◌++◌, ◌||◌, ◌==◌, if◌then◌else◌, arith, ==_refl, ==_ne, lt→ltb,
}
use mathlib.Core.Path.{ap₂}
use cxb.Text.{Memory, String8, bytes, view, n_bytes}
use cxb.Text.Bytes.{bytes_split, bytes_agree, length-bytes}
use cxb.Arena.{Arena, arena_push, arena_push_fast, memset, memcpy}
use cxb.Arena.Position.{no_padding, arena_push_bytes_correct}
use cxb.Array.Bytes.{bytes-memcpy}
use cxb.Strings.{
  TextState, write_byte, in_arena, at_end, first_terminator, string8_push_back, string8_extend,
}

-- Text that can grow: it is null, or it is the last thing on its arena, with a zero byte behind it.
pub record IsText (s : TextState) : Type 0 where
  pub not_null : 0 < s.arena.start
  pub low : s.arena.end ≤ 2 ^ 63
  pub room : s.arena.start + s.arena.pos < s.arena.end
  pub has_term : s.str.not_null_term ≡ false
  pub place :
      ((s.str.address ≡ 0) × (s.str.len ≡ 0))
      ⊎ ((s.arena.start ≤ s.str.address)
          × (s.str.address < s.arena.end)
          × (s.str.address + s.str.len + 1 ≡ s.arena.start + s.arena.pos)
          × (s.memory (s.str.address + s.str.len) ≡ 0))

-- Pushing bytes, which have no alignment, to an arena.
pub pushed :
    (m : Memory) (a : Arena) (n : ℕ)
    → a.end ≤ 2 ^ 63
    → 0 < n
    → a.start + a.pos + n < a.end
    → arena_push m a 1 1 n
      ≡ some (memset m (a.start + a.pos) 0 n, record a { pos = a.pos + n }, a.start + a.pos)
unfolding arena_push arena_push_fast
pushed m a n low some' fits =
    let p = no_padding a.pos 0 (omega arith) (omega (arith, low)) (omega arith) in
    let w : (1 * n) % 2 ^ 64 ≡ n = omega (arith, low) in
    let e =
      arena_push_bytes_correct a n 0 (omega arith) (omega arith) low (omega arith) (rw p fits) in
    rw (w, (rw p at (e.0)), lt→ltb 0 n some') refl

-- Where the text stands once it is not null.
abbrev pub base : TextState → ℕ
base s = if s.str.address == 0 then s.arena.start + s.arena.pos else s.str.address

-- What appending leaves: text that can grow, whose bytes are those before and the added ones, and an
-- arena with that much less room.
pub record Appended (s : TextState) (added : List ℕ) (s' : TextState) : Type 0 where
  pub valid : IsText s'
  pub text : view s'.memory s'.str ≡ view s.memory s.str ++ added
  pub start : s'.arena.start ≡ s.arena.start
  pub end : s'.arena.end ≡ s.arena.end
  pub pos :
      s'.arena.pos + first_terminator s'.str ≡ s.arena.pos + first_terminator s.str + length added

module _ (s : TextState) (v : IsText s) where
  pub base_lem :
      (s.arena.start ≤ base s)
      × (base s < s.arena.end)
      × (base s + s.str.len + 1 ≡ s.arena.start + s.arena.pos + first_terminator s.str)
      × (first_terminator s.str ≤ 1)
      × (bytes s.memory (base s) s.str.len ≡ view s.memory s.str)
  unfolding first_terminator
  base_lem = go v.place
    where
      go :
          ((s.str.address ≡ 0) × (s.str.len ≡ 0))
            ⊎ ((s.arena.start ≤ s.str.address)
                × (s.str.address < s.arena.end)
                × (s.str.address + s.str.len + 1 ≡ s.arena.start + s.arena.pos)
                × (s.memory (s.str.address + s.str.len) ≡ 0))
          → (s.arena.start ≤ base s)
            × (base s < s.arena.end)
            × (base s + s.str.len + 1 ≡ s.arena.start + s.arena.pos + first_terminator s.str)
            × (first_terminator s.str ≤ 1)
            × (bytes s.memory (base s) s.str.len ≡ view s.memory s.str)
      go (inl (z, e)) =
          rw (z, e, v.has_term) (omega arith, omega (arith, v.room), omega arith, omega arith, refl)
      go (inr (a, b, c, d)) =
          let ne : s.str.address ≢ 0 = omega (arith, v.not_null) in
          rw (==_ne s.str.address 0 ne) (a, b, omega (arith, c), omega arith, refl)

  pub passes :
      ((s.str.address == 0 || in_arena s.arena s.str) ≡ true)
      × ((s.str.address == 0 || at_end s.arena s.str) ≡ true)
  unfolding in_arena at_end n_bytes
  passes = rw v.has_term (ground (arith, v.place))

  -- The state after `added` was written behind the text, in a memory that has it there with a zero
  -- byte behind it.
  abbrev pub longer : Memory → List ℕ → ℕ → TextState
  longer m added n = record {
    memory = m;
    arena = record s.arena { pos = s.arena.pos + (n + first_terminator s.str) };
    str = record { address = base s; len = s.str.len + n; not_null_term = false };
  }

  pub longer-Appended :
      (m : Memory) (added : List ℕ) (n : ℕ)
      → s.arena.start + s.arena.pos + (n + first_terminator s.str) < s.arena.end
      → ((i : ℕ) → i < base s + s.str.len → m i ≡ s.memory i)
      → bytes m (base s + s.str.len) n ≡ added
      → m (base s + (s.str.len + n)) ≡ 0
      → Appended s added (longer m added n)
  longer-Appended m added n fits below here behind =
      let (lo, hi, ends, one, same) = base_lem in
      record {
        valid = record {
          not_null = v.not_null;
          low = v.low;
          room = omega (arith, fits);
          has_term = refl;
          place = inr (lo, hi, omega (arith, ends), behind);
        };
        text =
            bytes_split m (base s) s.str.len n
            ∙ ap₂ ◌++◌
                (bytes_agree m s.memory (base s) s.str.len (λ i l. below (base s + i) (omega arith))
                  ∙ same)
                here;
        start = refl;
        end = refl;
        pos =
            let made : base s ≢ 0 = omega (arith, lo, v.not_null) in
            let size : length added ≡ n =
              ap length (sym here) ∙ length-bytes m (base s + s.str.len) n in
            unfold first_terminator in rw (==_ne (base s) 0 made, size) (omega arith);
      }

  -- `string8_push_back` on text, where the byte and a terminator fit the arena, returns and appends
  -- the byte.
  pub string8_push_back_correct :
      (ch : ℕ)
      → s.arena.start + s.arena.pos + 2 < s.arena.end
      → (s' : TextState) × (string8_push_back s ch ≡ some s') × Appended s (ch ∷ []) s'
  unfolding string8_push_back
  string8_push_back_correct ch fits =
      let (p, q) = passes in
      let (lo, hi, ends, one, same) = base_lem in
      let n = 1 + first_terminator s.str in
      let m = memset s.memory (s.arena.start + s.arena.pos) 0 n in
      let m' = write_byte m (base s + s.str.len) ch in
      (
        longer m' (ch ∷ []) 1,
        rw (p, q, pushed s.memory s.arena n v.low (omega arith) (omega (arith, fits)), v.has_term)
            refl,
        longer-Appended m' (ch ∷ []) 1 (omega (arith, fits))
            (λ i l. unfold write_byte in unfold memset in ground (arith, ends))
            (unfold write_byte in rw (==_refl (base s + s.str.len)) refl)
            (unfold write_byte in unfold memset in ground (arith, ends)),
      )

  -- `string8_extend` by a string whose bytes end where the text ends or before (its terminator not
  -- included), or start behind all that is pushed, where it and a terminator fit the arena, returns
  -- and appends its bytes.
  pub string8_extend_correct :
      (other : String8)
      → 0 < other.len
      → (other.address + other.len ≤ base s + s.str.len)
        ⊎ (s.arena.start + s.arena.pos + other.len + 1 ≤ other.address)
      → s.arena.start + s.arena.pos + other.len + 1 < s.arena.end
      → (s' : TextState) × (string8_extend s other ≡ some s') × Appended s (view s.memory other) s'
  unfolding string8_extend
  string8_extend_correct other some' apart fits =
      let (p, q) = passes in
      let (lo, hi, ends, one, same) = base_lem in
      let n = other.len + first_terminator s.str in
      let m = memset s.memory (s.arena.start + s.arena.pos) 0 n in
      let m' = memcpy m (base s + s.str.len) other.address other.len in
      (
        longer m' (view s.memory other) other.len,
        rw
            (
              ==_ne other.len 0 (omega arith),
              p,
              q,
              pushed s.memory s.arena n v.low (omega arith) (omega (arith, fits)),
              v.has_term,
            )
            refl,
        longer-Appended m' (view s.memory other) other.len (omega (arith, fits))
            (λ i l. unfold memcpy in unfold memset in ground (arith, ends))
            (bytes-memcpy m (base s + s.str.len) other.address other.len
                (ground (arith, apart, ends, one))
              ∙ bytes_agree m s.memory other.address other.len
                  (λ i l. unfold memset in ground (arith, apart, ends, one)))
            (unfold memcpy in unfold memset in ground (arith, ends)),
      )
