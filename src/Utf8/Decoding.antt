-- ===== src/Utf8/Decoding.antt =====
-- The decoder gives back what the encoding was made of.
use mathlib.Core.Path.{ap₂}
use cxb.Prelude.{
  ℕ, zero, suc, ◌+◌, ◌-◌, ◌*◌, ◌/◌, ◌%◌, ◌^◌, ◌<◌, ◌≤◌, ◌≡◌, refl, sym, ap, ◌∙◌, true, List, ◌∷◌,
  ◌++◌, ◌==◌, ltb, if◌then◌else◌, arith, none, some, ==_ne, ==_iff, lt→ltb, le→ltb_false, dec_lt,
}
use cxb.Text.{Memory, String8, bytes}
use cxb.Utf8.{code_unit, decode_at}
use cxb.Utf8.Encoding.{
  continuation, encode, encode_one, encode_two, encode_three, encode_four, one_byte, four_bytes,
  three_bytes, two_bytes, low_bits,
}

module _ (m : Memory) (s : String8) where
  -- The round of the decoder with remainders in place of masks.
  decode_at_lem :
      (pos : ℕ)
      → code_unit m s pos < 256
      → let c1 = code_unit m s pos in
        let c2 = code_unit m s (pos + 1) in
        let c3 = code_unit m s (pos + 2) in
        let c4 = code_unit m s (pos + 3) in
        decode_at m s pos ≡ (
          if ltb c1 128
          then (some c1, 1)
          else if c1 / 8 == 30
          then (
            some (c1 % 2 ^ 3 * 2 ^ 18 + c2 % 2 ^ 6 * 2 ^ 12 + c3 % 2 ^ 6 * 2 ^ 6 + c4 % 2 ^ 6),
            4,
          )
          else if c1 / 16 == 14
          then (some (c1 % 2 ^ 4 * 2 ^ 12 + c2 % 2 ^ 6 * 2 ^ 6 + c3 % 2 ^ 6), 3)
          else if c1 / 32 == 6
          then (some (c1 % 2 ^ 5 * 2 ^ 6 + c2 % 2 ^ 6), 2)
          else (none, 1))
  unfolding decode_at
  decode_at_lem pos h =
      let c1 = code_unit m s pos in
      let c2 = code_unit m s (pos + 1) in
      let c3 = code_unit m s (pos + 2) in
      let c4 = code_unit m s (pos + 3) in
      rw
        (
          one_byte c1 h,
          four_bytes c1 h,
          three_bytes c1 h,
          two_bytes c1 h,
          low_bits c1 3,
          low_bits c1 4,
          low_bits c1 5,
          low_bits c2 6,
          low_bits c3 6,
          low_bits c4 6,
        )
        refl

  decode_one : (pos c : ℕ) → c < 128 → code_unit m s pos ≡ c → decode_at m s pos ≡ (some c, 1)
  decode_one pos c h e = decode_at_lem pos (omega arith) ∙ rw (e, lt→ltb c 128 h) refl

  holds : (a k : ℕ) → a ≡ k → (a == k) ≡ true
  holds a k e = (==_iff a k).1 e

  decode_two :
      (pos c : ℕ)
      → 128 ≤ c
      → c < 2 ^ 11
      → code_unit m s pos ≡ 192 + c / 64
      → code_unit m s (pos + 1) ≡ continuation c
      → decode_at m s pos ≡ (some c, 2)
  unfolding continuation
  decode_two pos c l h e1 e2 =
      let c1 = code_unit m s pos in
      let c2 = code_unit m s (pos + 1) in
      let joined : c1 % 2 ^ 5 * 2 ^ 6 + c2 % 2 ^ 6 ≡ c = omega (arith, e1, e2) in
      decode_at_lem pos (omega arith)
      ∙ rw
          (
            le→ltb_false c1 128 (omega arith),
            ==_ne (c1 / 8) 30 (omega arith),
            ==_ne (c1 / 16) 14 (omega arith),
            holds (c1 / 32) 6 (omega arith),
          )
          (ap (λ x. (some x, 2)) joined)

  decode_three :
      (pos c : ℕ)
      → 2 ^ 11 ≤ c
      → c < 2 ^ 16
      → code_unit m s pos ≡ 224 + c / 2 ^ 12
      → code_unit m s (pos + 1) ≡ continuation (c / 64)
      → code_unit m s (pos + 2) ≡ continuation c
      → decode_at m s pos ≡ (some c, 3)
  unfolding continuation
  decode_three pos c l h e1 e2 e3 =
      let c1 = code_unit m s pos in
      let c2 = code_unit m s (pos + 1) in
      let c3 = code_unit m s (pos + 2) in
      let joined : c1 % 2 ^ 4 * 2 ^ 12 + c2 % 2 ^ 6 * 2 ^ 6 + c3 % 2 ^ 6 ≡ c =
        omega (arith, e1, e2, e3) in
      decode_at_lem pos (omega arith)
      ∙ rw
          (
            le→ltb_false c1 128 (omega arith),
            ==_ne (c1 / 8) 30 (omega arith),
            holds (c1 / 16) 14 (omega arith),
          )
          (ap (λ x. (some x, 3)) joined)

  decode_four :
      (pos c : ℕ)
      → 2 ^ 16 ≤ c
      → c < 2 ^ 21
      → code_unit m s pos ≡ 240 + c / 2 ^ 18
      → code_unit m s (pos + 1) ≡ continuation (c / 2 ^ 12)
      → code_unit m s (pos + 2) ≡ continuation (c / 64)
      → code_unit m s (pos + 3) ≡ continuation c
      → decode_at m s pos ≡ (some c, 4)
  unfolding continuation
  decode_four pos c l h e1 e2 e3 e4 =
      let c1 = code_unit m s pos in
      let c2 = code_unit m s (pos + 1) in
      let c3 = code_unit m s (pos + 2) in
      let c4 = code_unit m s (pos + 3) in
      let joined : c1 % 2 ^ 3 * 2 ^ 18 + c2 % 2 ^ 6 * 2 ^ 12 + c3 % 2 ^ 6 * 2 ^ 6 + c4 % 2 ^ 6 ≡ c =
        omega (arith, e1, e2, e3, e4) in
      decode_at_lem pos (omega arith)
      ∙ rw (le→ltb_false c1 128 (omega arith), holds (c1 / 8) 30 (omega arith))
          (ap (λ x. (some x, 4)) joined)

  -- What a region that starts with a byte starts with.
  starts_with :
      (n a x : ℕ) (xs : List ℕ)
      → bytes m a n ≡ x ∷ xs
      → (m a ≡ x) × (n' : ℕ) × (n ≡ n' + 1) × (bytes m (a + 1) n' ≡ xs)
  starts_with zero a x xs h = cc
  starts_with (suc n) a x xs h =
      (cc, n, omega arith, ap (λ t. bytes m t n) (let e : a + 1 ≡ suc a = omega arith in e) ∙ cc)

  -- The round at the first byte of a code point, which it steps over.
  pub record Decoded (pos n c : ℕ) (rest : List ℕ) : Type 0 where
    pub size : ℕ
    pub round : decode_at m s pos ≡ (some c, size)
    pub some_bytes : 0 < size
    pub fits : size ≤ n
    pub behind : bytes m (s.address + (pos + size)) (n - size) ≡ rest

  steps_over :
      (pos n c k n' a : ℕ) (rest : List ℕ)
      → decode_at m s pos ≡ (some c, k)
      → 0 < k
      → n ≡ n' + k
      → a ≡ s.address + (pos + k)
      → bytes m a n' ≡ rest
      → Decoded pos n c rest
  steps_over pos n c k n' a rest round some_bytes e e' b = record {
    size = k;
    round = round;
    some_bytes = some_bytes;
    fits = omega arith;
    behind = ap₂ (bytes m) (sym e') (let l : n - k ≡ n' = omega arith in l) ∙ b;
  }

  unit_at : (pos a x : ℕ) → s.address + pos ≡ a → m a ≡ x → code_unit m s pos ≡ x
  unfolding code_unit
  unit_at pos a x e u = ap m e ∙ u

  pub decode_encoded :
      (pos n c : ℕ) (rest : List ℕ)
      → c < 2 ^ 21
      → bytes m (s.address + pos) n ≡ encode c ++ rest
      → Decoded pos n c rest
  decode_encoded pos n c rest h e =
      let a = s.address + pos in
      elim (dec_lt c 128) [
        | yes l1 ↦
            let (u1, n1, e1, b1) = starts_with n a c rest (rw (encode_one c l1) at e) in
            steps_over pos n c 1 n1 (a + 1) rest (decode_one pos c l1 (unit_at pos a c refl u1))
              (omega arith) e1 (omega arith) b1
        | no g1 ↦ elim (dec_lt c (2 ^ 11)) [
          | yes l2 ↦
              let (u1, n1, e1, b1) =
                starts_with n a _ _ (rw (encode_two c (omega arith) l2) at e) in
              let (u2, n2, e2, b2) = starts_with n1 (a + 1) _ _ b1 in
              steps_over pos n c 2 n2 (a + 1 + 1) rest
                (decode_two pos c (omega arith) l2 (unit_at pos a _ refl u1)
                  (unit_at (pos + 1) (a + 1) _ (omega arith) u2))
                (omega arith) (omega arith) (omega arith) b2
          | no g2 ↦ elim (dec_lt c (2 ^ 16)) [
            | yes l3 ↦
                let (u1, n1, e1, b1) =
                  starts_with n a _ _ (rw (encode_three c (omega arith) l3) at e) in
                let (u2, n2, e2, b2) = starts_with n1 (a + 1) _ _ b1 in
                let (u3, n3, e3, b3) = starts_with n2 (a + 1 + 1) _ _ b2 in
                steps_over pos n c 3 n3 (a + 1 + 1 + 1) rest
                  (decode_three pos c (omega arith) l3 (unit_at pos a _ refl u1)
                    (unit_at (pos + 1) (a + 1) _ (omega arith) u2)
                    (unit_at (pos + 2) (a + 1 + 1) _ (omega arith) u3))
                  (omega arith) (omega arith) (omega arith) b3
            | no g3 ↦
                let (u1, n1, e1, b1) =
                  starts_with n a _ _ (rw (encode_four c (omega arith)) at e) in
                let (u2, n2, e2, b2) = starts_with n1 (a + 1) _ _ b1 in
                let (u3, n3, e3, b3) = starts_with n2 (a + 1 + 1) _ _ b2 in
                let (u4, n4, e4, b4) = starts_with n3 (a + 1 + 1 + 1) _ _ b3 in
                steps_over pos n c 4 n4 (a + 1 + 1 + 1 + 1) rest
                  (decode_four pos c (omega arith) h (unit_at pos a _ refl u1)
                    (unit_at (pos + 1) (a + 1) _ (omega arith) u2)
                    (unit_at (pos + 2) (a + 1 + 1) _ (omega arith) u3)
                    (unit_at (pos + 3) (a + 1 + 1 + 1) _ (omega arith) u4))
                  (omega arith) (omega arith) (omega arith) b4
          ]
        ]
      ]
