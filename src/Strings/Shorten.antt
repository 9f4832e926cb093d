-- ===== src/Strings/Shorten.antt =====
-- `string8_pop_back`, on text with a terminator and on bytes without one.
use cxb.Prelude.{
  ℕ, ◌+◌, ◌-◌, ◌^◌, ◌<◌, ◌≤◌, ◌≡◌, inl, inr, refl, sym, ap, ◌∙◌, true, false, none, some, [], ◌∷◌,
  ◌++◌, ◌&&◌, ◌||◌, ◌==◌, ltb, leb, sub64, arith, ==_refl, ==_ne, lt→ltb,
}
use cxb.Text.{bytes, view, n_bytes}
use cxb.Text.Bytes.{bytes_split, bytes_agree}
use cxb.Arena.{arena_pop_to}
use cxb.Strings.{TextState, write_byte, in_arena, at_end, string8_push_back, string8_pop_back}
use cxb.Strings.Append.{IsText}

module _ (s : TextState) (low : s.arena.end ≤ 2 ^ 63)
    (room : s.arena.start + s.arena.pos < s.arena.end) (start : 0 < s.arena.start)
    (lo : s.arena.start ≤ s.str.address) (hi : s.str.address < s.arena.end)
    (some' : 0 < s.str.len) where
  abbrev shorter : TextState
  shorter = record {
    memory = write_byte s.memory (s.str.address + (s.str.len - 1)) 0;
    arena = record s.arena { pos = s.arena.pos - 1 };
    str = record { address = s.str.address; len = s.str.len - 1; not_null_term = false };
  }

  pops : at_end s.arena s.str ≡ true → 0 < s.arena.pos → string8_pop_back s ≡ some shorter
  unfolding string8_pop_back in_arena arena_pop_to
  pops e p =
      let w : sub64 s.arena.pos 1 ≡ s.arena.pos - 1 = omega arith in
      let back : (s.arena.pos - 1 == s.arena.pos
            || (ltb (s.arena.pos - 1) s.arena.pos
                && leb (s.arena.pos - 1) (s.arena.end - s.arena.start)))
          ≡ true =
        ground arith in
      let inside : (leb s.arena.start s.str.address && ltb s.str.address s.arena.end) ≡ true =
        ground arith in
      rw (lt→ltb 0 s.str.len some', inside, e, w, back) refl

  stops :
      (ch : ℕ)
      → s.str.address + s.str.len ≡ s.arena.start + s.arena.pos
      → string8_push_back shorter ch ≡ none
  unfolding string8_push_back in_arena at_end n_bytes
  stops ch ends =
      let inside : (leb s.arena.start s.str.address && ltb s.str.address s.arena.end) ≡ true =
        ground arith in
      let off : (s.str.address + (s.str.len - 1 + 1) == s.arena.start + (s.arena.pos - 1)) ≡ false =
        ground (arith, ends) in
      rw (==_ne s.str.address 0 (omega arith), inside, off) refl

  -- Without a terminator the position falls by one byte and the string, which then counts a
  -- terminator, does not: `string8_pop_back` returns, and the next `string8_push_back` stops the
  -- program, since the string does not end at the arena's position.
  pub string8_pop_back_stops :
      s.str.not_null_term ≡ true
      → s.str.address + s.str.len ≡ s.arena.start + s.arena.pos
      → (s' : TextState) × (string8_pop_back s ≡ some s')
        × ((ch : ℕ) → string8_push_back s' ch ≡ none)
  string8_pop_back_stops bare ends = (
    shorter,
    pops (unfold at_end in unfold n_bytes in rw bare (ground (arith, ends))) (omega (arith, ends)),
    λ ch. stops ch ends,
  )

-- `string8_pop_back` on text that is not empty returns, drops the last byte, and leaves text with a
-- terminator.
pub string8_pop_back_correct :
    (s : TextState)
    → IsText s
    → 0 < s.str.len
    → (s' : TextState) × (string8_pop_back s ≡ some s')
      × IsText s'
      × ((last : ℕ) × (view s.memory s.str ≡ view s'.memory s'.str ++ (last ∷ [])))
unfolding n_bytes at_end
string8_pop_back_correct s v some' = elim v.place [
  | inl (z, e) ↦ absurd (omega (arith, e))
  | inr (lo, hi, ends, term) ↦
      let e : at_end s.arena s.str ≡ true = rw v.has_term (ground (arith, ends)) in
      let at' = s.str.address + (s.str.len - 1) in
      (
        shorter s v.low v.room v.not_null lo hi some',
        pops s v.low v.room v.not_null lo hi some' e (omega (arith, ends)),
        record {
          not_null = v.not_null;
          low = v.low;
          room = omega (arith, v.room);
          has_term = refl;
          place = inr (lo, hi, omega (arith, ends), unfold write_byte in rw (==_refl at') refl);
        },
        (
          s.memory at',
          ap (bytes s.memory s.str.address)
                (let q : s.str.len ≡ s.str.len - 1 + 1 = omega arith in q)
              ∙ bytes_split s.memory s.str.address (s.str.len - 1) 1
              ∙ ap (λ t. t ++ (s.memory at' ∷ []))
                  (sym (
                    bytes_agree (write_byte s.memory at' 0) s.memory s.str.address (s.str.len - 1)
                      (λ i l.
                        unfold write_byte in
                        rw (==_ne (s.str.address + i) at' (omega arith)) refl))),
        ),
      )
]
