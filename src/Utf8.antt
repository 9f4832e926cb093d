-- ===== src/Utf8.antt =====
-- The UTF-8 decoder of cxb/cxb.h and cxb/cxb.cpp. `none` stands for a write behind the end of the
-- batch, whose effect the language does not define. A read behind the end of the text is a read of
-- the memory that follows it.
pub mod Encoding
pub mod Decoding
pub mod RoundTrip
mod Tests
use Prim.Native.Nat.{bit_and}
use cxb.Prelude.{
  check, ◌>>=◌, ◌>>◌, ℕ, zero, suc, ◌+◌, ◌-◌, ◌*◌, ◌^◌, Bool, true, false, Option, none, some, List,
  [], ◌∷◌, ◌++◌, ◌==◌, ltb, if◌then◌else◌, length,
}
use cxb.Text.{Memory, String8}

pub record Utf8Iter : Type 0 where
  pub s : String8
  pub pos : ℕ

unfoldable pub make_utf8_iter : String8 → Utf8Iter
make_utf8_iter s = record { s = s; pos = 0 }

-- The length of the array of a `Utf8IterBatch`; the list of what is written to it stands for a batch.
abbrev pub batch_size : ℕ
batch_size = 512

-- `batch->data[batch->len++] = x`
unfoldable pub add_to_batch : List ℕ → ℕ → Option (List ℕ)
add_to_batch batch x = do check (ltb (length batch) batch_size); some (batch ++ x ∷ [])

module _ (m : Memory) (s : String8) where
  -- `iter->s[i]`
  unfoldable pub code_unit : ℕ → ℕ
  code_unit i = m (s.address + i)

  -- A round of the loop: what it writes to the batch, and by how much it moves on.
  unfoldable pub decode_at : ℕ → Option ℕ × ℕ
  unfolding code_unit
  decode_at pos =
      let c1 = code_unit pos in
      let c2 = code_unit (pos + 1) in
      let c3 = code_unit (pos + 2) in
      let c4 = code_unit (pos + 3) in
      if bit_and c1 128 == 0
      then (some c1, 1)
      else if bit_and c1 248 == 240
      then (
        some (
            bit_and c1 7 * 2 ^ 18 + bit_and c2 63 * 2 ^ 12 + bit_and c3 63 * 2 ^ 6 + bit_and c4 63),
        4,
      )
      else if bit_and c1 240 == 224
      then (some (bit_and c1 15 * 2 ^ 12 + bit_and c2 63 * 2 ^ 6 + bit_and c3 63), 3)
      else if bit_and c1 224 == 192
      then (some (bit_and c1 31 * 2 ^ 6 + bit_and c2 63), 2)
      else (none, 1)

  unfoldable pub write : List ℕ → Option ℕ → Option (List ℕ)
  unfolding add_to_batch
  write batch none = some batch
  write batch (some x) = add_to_batch batch x

  -- The loop, for at most `n` rounds: the position and the batch.
  unfoldable pub decode_loop : ℕ → ℕ → List ℕ → Option (ℕ × List ℕ)
  unfolding decode_at write
  decode_loop zero pos batch = some (pos, batch)
  decode_loop (suc n) pos batch = elim (ltb pos s.len) [
    | true ↦ write batch (decode_at pos).0 >>= λ b. decode_loop n (pos + (decode_at pos).1) b
    | false ↦ some (pos, batch)
  ]

-- The iterator, the batch and whether it holds anything.
unfoldable pub utf8_iter_next : Memory → Utf8Iter → Option (Utf8Iter × List ℕ × Bool)
unfolding decode_loop
utf8_iter_next m iter = do
  (pos, batch) ← decode_loop m iter.s (iter.s.len - iter.pos) iter.pos []
  some (record iter { pos = pos }, batch, ltb 0 (length batch))

-- The loop of `decode_string8`, on fuel. The array that it extends is the list of its elements.
unfoldable pub decode_batches : Memory → ℕ → Utf8Iter → List ℕ → Option (List ℕ)
unfolding utf8_iter_next
decode_batches m zero iter codepoints = none
decode_batches m (suc fuel) iter codepoints = do
  (iter', batch, more) ← utf8_iter_next m iter
  elim more [ true ↦ decode_batches m fuel iter' (codepoints ++ batch) | false ↦ some codepoints ]

unfoldable pub decode_string8 : Memory → String8 → Option (List ℕ)
unfolding decode_batches make_utf8_iter
decode_string8 m s = decode_batches m (suc s.len) (make_utf8_iter s) []
