-- ===== src/Allocator/Resize.antt =====
-- What `arena_alloc_proc` does with a block: it keeps its bytes and the memory around it.
use cxb.Prelude.{
  ℕ, ◌+◌, ◌-◌, ◌%◌, ◌^◌, ◌<◌, ◌≤◌, ◌≡◌, ◌⊎◌, inl, inr, refl, ◌∙◌, Bool, true, false, Bool-cases,
  Option, some, arith, ◌==◌, ltb, sub64, dec_lt, ℕ_discrete, lt→ltb, le→ltb_false, ==_ne, ==_iff,
  if◌then◌else◌,
}
use cxb.Text.{Memory}
use cxb.Arena.{Arena, arena_push_bytes, memset, memcpy}
use cxb.Arena.Position.{aligned_pos, arena_push_bytes_correct}
use cxb.Allocator.{alloc_new, alloc_last, alloc_moved, arena_alloc_proc}
use cxb.Allocator.Writes.{memset_inside, memset_outside, memcpy_inside, memcpy_outside, pop_lem}

-- An arena between its ends, and the block of a call in the part of it that is in use: a call
-- without a block has head 0 and no old bytes.
pub record IsBlock (a : Arena) (head old_n_bytes : ℕ) : Type 0 where
  pub used : a.start + a.pos ≤ a.end
  pub below : a.end ≤ 2 ^ 63
  pub start : 0 < a.start
  pub place :
      ((head ≡ 0) × (old_n_bytes ≡ 0)) ⊎ ((a.start ≤ head) × (head + old_n_bytes ≤ a.start + a.pos))

-- The block after a call: it is in use, holds the old bytes as far as both sizes reach, and zeros
-- behind them if these were asked for; the rest of what was in use is as before.
pub record Resized (m : Memory) (a : Arena) (head old_n_bytes n_bytes : ℕ) (fill_zeros : Bool)
    (m' : Memory) (a' : Arena) (p : ℕ) : Type 0 where
  pub region : (a'.start ≡ a.start) × (a'.end ≡ a.end)
  pub in_use : (a.start ≤ p) × (p + n_bytes ≤ a'.start + a'.pos) × (a'.start + a'.pos ≤ a'.end)
  pub kept : (i : ℕ) → i < old_n_bytes → i < n_bytes → m' (p + i) ≡ m (head + i)
  pub zeros : fill_zeros ≡ true → (i : ℕ) → old_n_bytes ≤ i → i < n_bytes → m' (p + i) ≡ 0
  pub frame : (x : ℕ) → x < a.start + a.pos → m' x ≡ m x
  pub place : ((p ≡ head) × (head + old_n_bytes ≡ a.start + a.pos)) ⊎ (a.start + a.pos ≤ p)

module _ (m : Memory) (a : Arena) (k : ℕ) (small : k ≤ 63) (start : a.start % 2 ^ k ≡ 0)
    (head old_n_bytes n_bytes : ℕ) (fill_zeros : Bool) (block : IsBlock a head old_n_bytes)
    (fits : a.start + aligned_pos a.pos (2 ^ k) + n_bytes < a.end) where
  Outcome : Option (Memory × Arena × ℕ) → Type 0
  Outcome call =
      (m' : Memory) × (a' : Arena) × (p : ℕ) × (call ≡ some (m', a', p))
      × Resized m a head old_n_bytes n_bytes fill_zeros m' a' p

  pushed : Arena
  pushed = record a { pos = aligned_pos a.pos (2 ^ k) + n_bytes }

  address : ℕ
  address = a.start + aligned_pos a.pos (2 ^ k)

  push_lem :
      (arena_push_bytes a n_bytes (2 ^ k) ≡ some (pushed, address))
      × (a.pos ≤ aligned_pos a.pos (2 ^ k))
  unfolding pushed address
  push_lem =
      let (t, x, y, z) =
        arena_push_bytes_correct a n_bytes k small start block.below block.used fits in
      (t, x)

  new_lem : old_n_bytes ≡ 0 → Outcome (alloc_new m a n_bytes (2 ^ k) fill_zeros)
  unfolding Outcome alloc_new pushed address
  new_lem none_old =
      let (t, past) = push_lem in
      let p = a.start + aligned_pos a.pos (2 ^ k) in
      elim (Bool-cases fill_zeros) [
        | inl z ↦ (
          memset m p 0 n_bytes,
          pushed,
          p,
          rw (t, z) refl,
          record {
            region = (refl, refl);
            in_use = (omega arith, omega arith, omega arith);
            kept = λ i l l'. absurd (omega (arith, none_old));
            zeros = λ _ i l l'. memset_inside m p 0 n_bytes (p + i) (omega arith) (omega arith);
            frame = λ x l. memset_outside m p 0 n_bytes x (inl (omega (arith, past)));
            place = inr (omega (arith, past));
          },
        )
        | inr z ↦ (
          m,
          pushed,
          p,
          rw (t, z) refl,
          record {
            region = (refl, refl);
            in_use = (omega arith, omega arith, omega arith);
            kept = λ i l l'. absurd (omega (arith, none_old));
            zeros = λ z'. cc;
            frame = λ x l. refl;
            place = inr (omega (arith, past));
          },
        )
      ]

  module _ (inside : (a.start ≤ head) × (head + old_n_bytes ≤ a.start + a.pos)) where
    -- The block grows where it stands, by bytes that are pushed behind it.
    grown_lem :
        head + old_n_bytes ≡ a.start + a.pos
        → old_n_bytes < n_bytes
        → Outcome (alloc_last m a head n_bytes (2 ^ k) old_n_bytes fill_zeros)
    unfolding Outcome alloc_last
    grown_lem last more =
        let more_bytes : sub64 n_bytes old_n_bytes ≡ n_bytes - old_n_bytes =
          omega (arith, block.below, inside.1) in
        let (t, past, _, _) =
          arena_push_bytes_correct a (n_bytes - old_n_bytes) k small start block.below block.used
            (omega arith) in
        let a' = record a { pos = aligned_pos a.pos (2 ^ k) + (n_bytes - old_n_bytes) } in
        let end = head + old_n_bytes in
        let room : (a.start ≤ head)
            × (head + n_bytes ≤ a'.start + a'.pos)
            × (a'.start + a'.pos ≤ a'.end) =
          (inside.0, omega (arith, past, last), omega arith) in
        elim (Bool-cases fill_zeros) [
          | inl z ↦ (
            memset m end 0 (n_bytes - old_n_bytes),
            a',
            head,
            rw (alloc_last, lt→ltb old_n_bytes n_bytes more, more_bytes, t, z) refl,
            record {
              region = (refl, refl);
              in_use = room;
              kept = λ i l l'.
                  memset_outside m end 0 (n_bytes - old_n_bytes) (head + i) (inl (omega arith));
              zeros = λ _ i l l'.
                  memset_inside m end 0 (n_bytes - old_n_bytes) (head + i) (omega arith)
                    (omega arith);
              frame = λ x l.
                  memset_outside m end 0 (n_bytes - old_n_bytes) x (inl (omega (arith, last)));
              place = inl (refl, last);
            },
          )
          | inr z ↦ (
            m,
            a',
            head,
            rw (alloc_last, lt→ltb old_n_bytes n_bytes more, more_bytes, t, z) refl,
            record {
              region = (refl, refl);
              in_use = room;
              kept = λ i l l'. refl;
              zeros = λ z'. cc;
              frame = λ x l. refl;
              place = inl (refl, last);
            },
          )
        ]

    -- The block gets shorter where it stands.
    shrunk_lem :
        head + old_n_bytes ≡ a.start + a.pos
        → n_bytes ≤ old_n_bytes
        → Outcome (alloc_last m a head n_bytes (2 ^ k) old_n_bytes fill_zeros)
    unfolding Outcome alloc_last
    shrunk_lem last less =
        let pos : sub64 a.pos (sub64 old_n_bytes n_bytes) ≡ a.pos - (old_n_bytes - n_bytes) =
          omega (arith, block.below, block.used, inside.0, last) in
        let pos' = a.pos - (old_n_bytes - n_bytes) in
        (
          m,
          record a { pos = pos' },
          head,
          rw
              (
                alloc_last,
                le→ltb_false old_n_bytes n_bytes less,
                pos,
                pop_lem a pos' (omega arith) block.used,
              )
              refl,
          record {
            region = (refl, refl);
            in_use = (inside.0, omega (arith, last, inside.0), omega (arith, block.used));
            kept = λ i l l'. refl;
            zeros = λ _ i l l'. absurd (omega arith);
            frame = λ x l. refl;
            place = inl (refl, last);
          },
        )

    copied : ℕ → Memory
    copied copy_n = if ltb 0 copy_n then memcpy m address head copy_n else m

    apart : (c : ℕ) → c ≤ old_n_bytes → head + c ≤ address
    unfolding address
    apart c sm = omega (arith, push_lem.1, inside.1)

    copied_kept : (c i : ℕ) → c ≤ old_n_bytes → i < c → copied c (address + i) ≡ m (head + i)
    unfolding copied
    copied_kept c i sm l =
        rw (lt→ltb 0 c (omega arith)) (memcpy_inside m address head c i (inr (apart c sm)) l)

    copied_frame : (c x : ℕ) → x < a.start + a.pos → copied c x ≡ m x
    unfolding copied address
    copied_frame c x l = elim (Bool-cases (ltb 0 c)) [
      | inl t ↦ rw t (
          memcpy_outside m (a.start + aligned_pos a.pos (2 ^ k)) head c x
            (inl (omega (arith, push_lem.1))))
      | inr t ↦ rw t refl
    ]

    address_in_use :
        (a.start ≤ address)
        × (address + n_bytes ≤ pushed.start + pushed.pos)
        × (pushed.start + pushed.pos ≤ pushed.end)
    unfolding address pushed
    address_in_use = (omega arith, omega arith, omega arith)

    pushed_region : (pushed.start ≡ a.start) × (pushed.end ≡ a.end)
    unfolding pushed
    pushed_region = (refl, refl)

    address_past : a.start + a.pos ≤ address
    unfolding address
    address_past = omega (arith, push_lem.1)

    -- A block that is copied, with no zeros to write.
    plain :
        (c : ℕ)
        → c ≤ old_n_bytes
        → ((i : ℕ) → i < old_n_bytes → i < n_bytes → i < c)
        → (fill_zeros ≡ true → n_bytes ≤ old_n_bytes)
        → alloc_moved m a head n_bytes (2 ^ k) old_n_bytes fill_zeros
          ≡ some (copied c, pushed, address)
        → Outcome (alloc_moved m a head n_bytes (2 ^ k) old_n_bytes fill_zeros)
    unfolding Outcome
    plain c within covers less e = (
      copied c,
      pushed,
      address,
      e,
      record {
        region = pushed_region;
        in_use = address_in_use;
        kept = λ i l l'. copied_kept c i within (covers i l l');
        zeros = λ z i l l'. absurd (omega (arith, less z));
        frame = copied_frame c;
        place = inr address_past;
      },
    )

    -- Any other block is copied to the end of the arena.
    moved_lem : Outcome (alloc_moved m a head n_bytes (2 ^ k) old_n_bytes fill_zeros)
    unfolding Outcome alloc_moved copied
    moved_lem =
        let t = push_lem.0 in
        elim (dec_lt old_n_bytes n_bytes) [
          | no ge ↦
              let less = le→ltb_false old_n_bytes n_bytes (omega arith) in
              plain n_bytes (omega arith) (λ i l l'. l') (λ z. omega arith)
                (elim (Bool-cases fill_zeros) [
                  | inl z ↦ rw (alloc_moved, t, less, z) refl
                  | inr z ↦ rw (alloc_moved, t, less, z) refl
                ])
          | yes lt ↦
              let more = lt→ltb old_n_bytes n_bytes lt in
              elim (Bool-cases fill_zeros) [
                | inr z ↦
                    plain old_n_bytes (omega arith) (λ i l l'. l) (λ z'. cc)
                      (rw (alloc_moved, t, more, z) refl)
                | inl z ↦
                    let behind : sub64 n_bytes old_n_bytes ≡ n_bytes - old_n_bytes =
                      omega (arith, block.below) in
                    let m1 = copied old_n_bytes in
                    (
                      memset m1 (address + old_n_bytes) 0 (n_bytes - old_n_bytes),
                      pushed,
                      address,
                      rw (alloc_moved, t, more, z, behind) refl,
                      record {
                        region = pushed_region;
                        in_use = address_in_use;
                        kept = λ i l l'.
                            memset_outside m1 (address + old_n_bytes) 0 (n_bytes - old_n_bytes)
                              (address + i) (inl (omega arith))
                            ∙ copied_kept old_n_bytes i (omega arith) l;
                        zeros = λ _ i l l'.
                            memset_inside m1 (address + old_n_bytes) 0 (n_bytes - old_n_bytes)
                              (address + i) (omega arith) (omega arith);
                        frame = λ x l.
                            memset_outside m1 (address + old_n_bytes) 0 (n_bytes - old_n_bytes) x
                              (inl (omega (arith, address_past)))
                            ∙ copied_frame old_n_bytes x l;
                        place = inr address_past;
                      },
                    )
              ]
        ]

  -- On an arena whose start is a multiple of the alignment `2 ^ k`, with `k` at most 63, and which ends
  -- at 2 ^ 63 or below: where it has room for a new block of the size, a call of `arena_alloc_proc`, on no block or
  -- on one in the part of the arena that is in use, returns a block in use, within the arena: it holds
  -- the old bytes as far as both sizes reach, and zeros behind them if asked for, and all that was
  -- in use keeps its bytes.
  pub arena_alloc_proc_correct :
      (m' : Memory) × (a' : Arena) × (p : ℕ) × (arena_alloc_proc m a head n_bytes
          (2 ^ k)
          old_n_bytes
          fill_zeros
        ≡ some (m', a', p))
      × Resized m a head old_n_bytes n_bytes fill_zeros m' a' p
  unfolding arena_alloc_proc Outcome
  arena_alloc_proc_correct = elim block.place [
    | inl (no_head, none_old) ↦ rw (arena_alloc_proc, no_head) (rw no_head at new_lem none_old)
    | inr inside ↦
        let some_head : (head == 0) ≡ false = ==_ne head 0 (omega (arith, block.start, inside.0)) in
        elim (ℕ_discrete (head + old_n_bytes) (a.start + a.pos)) [
          | no apart ↦ rw (arena_alloc_proc, some_head, ==_ne _ _ apart) (moved_lem inside)
          | yes last ↦
              let at_end : ((head + old_n_bytes) == (a.start + a.pos)) ≡ true =
                (==_iff _ _).1 last in
              rw (arena_alloc_proc, some_head, at_end)
                (elim (dec_lt old_n_bytes n_bytes) [
                  | yes more ↦ grown_lem inside last more
                  | no less ↦ shrunk_lem inside last (omega arith)
                ])
        ]
  ]
