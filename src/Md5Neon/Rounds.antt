-- ===== src/Md5Neon/Rounds.antt =====
-- src/md5_mb_neon.rs: a round of `step!` in each lane beside a round of the reference.
use par2rust.Base.{
  ℕ, zero, suc, ◌+◌, ◌*◌, ◌%◌, ◌^◌, ◌<◌, ◌≤◌, ◌≡◌, refl, ap, ◌∙◌, arith, List, [], ◌∷◌,
}
use native.Mathlib.Nat.{zero-add}
use par2rust.GaloisSimd.Vectors.{byte_at}
use par2rust.Md5Neon.Vectors.{Lane, Uint32x4}
use par2rust.Md5Neon.Block.{
  t, Registers, stepped, StepCall, step_aa, step_dd, step_cc, step_bb, Message, Mix, step, steps,
}
use par2rust.Md5Neon.Reference.{sine_constant, Round, rotated_left, operation, operations}

-- The registers of one lane.
abbrev pub lane : Lane → Registers Uint32x4 → Registers ℕ
lane l r = record { aa = r.aa l; bb = r.bb l; cc = r.cc l; dd = r.dd l }

-- The same, with the words in the places that the reference gives them before each step but the first.
abbrev lane_dd : Lane → Registers Uint32x4 → Registers ℕ
lane_dd l r = record { aa = r.dd l; bb = r.aa l; cc = r.bb l; dd = r.cc l }

abbrev lane_cc : Lane → Registers Uint32x4 → Registers ℕ
lane_cc l r = record { aa = r.cc l; bb = r.dd l; cc = r.aa l; dd = r.bb l }

abbrev lane_bb : Lane → Registers Uint32x4 → Registers ℕ
lane_bb l r = record { aa = r.bb l; bb = r.cc l; cc = r.dd l; dd = r.aa l }

constants : ℕ → ℕ → List ℕ
constants i zero = []
constants i (suc n) = sine_constant i ∷ constants (i + 1) n

-- The constants of the source are those of the sine.
t-constants : t ≡ constants 0 64
unfolding constants sine_constant
t-constants = refl

byte_at-constants : (n i k : ℕ) → k < n → byte_at (constants i n) k ≡ sine_constant (i + k)
unfolding byte_at constants
byte_at-constants zero i k h = absurd (omega arith)
byte_at-constants (suc n) i zero h = let e : i + 0 ≡ i = omega arith in rw e
byte_at-constants (suc n) i (suc k) h =
    let e : i + 1 + k ≡ i + suc k = omega arith in
    byte_at-constants n (i + 1) k (omega arith) ∙ ap sine_constant e

pub t-sine : (i : ℕ) → i < 64 → byte_at t i ≡ sine_constant i
t-sine i h =
    ap (λ (c : List ℕ). byte_at c i) t-constants
    ∙ byte_at-constants 64 0 i h
    ∙ ap sine_constant (zero-add i)

-- The round of the reference in the order in which the source writes its steps, four at a time.
unfoldable pub turns : Round → ℕ → ℕ → List StepCall
turns round i zero = []
turns round i (suc n) =
    step_aa (round.index i) i (byte_at round.shifts 0)
    ∷ step_dd (round.index (i + 1)) (i + 1) (byte_at round.shifts 1)
    ∷ step_cc (round.index (i + 1 + 1)) (i + 1 + 1) (byte_at round.shifts 2)
    ∷ step_bb (round.index (i + 1 + 1 + 1)) (i + 1 + 1 + 1) (byte_at round.shifts 3)
    ∷ turns round (i + 1 + 1 + 1 + 1) n

module _ (l : Lane) (round : Round) (f : Mix) (m : Message) (words : ℕ → ℕ)
    (mixes : (b c d : Uint32x4) → f b c d l ≡ round.function (b l) (c l) (d l))
    (agree : (k : ℕ) → k < 16 → m k l ≡ words k) (small : (i : ℕ) → round.index i < 16) where
  -- The value of the operation with number `i`, whose shift is number `j` of the round.
  stepped-eq :
      (i j : ℕ) (a b c d : Uint32x4)
      → i < 64
      → i % 4 ≡ j
      → (b l
            + rotated_left (byte_at round.shifts (i % 4)) (
                (a l + round.function (b l) (c l) (d l) + words (round.index i) + sine_constant i)
                % 2 ^ 32))
          % 2 ^ 32
        ≡ stepped a b (f b c d) (m (round.index i)) i (byte_at round.shifts j) l
  unfolding stepped rotated_left
  stepped-eq i j a b c d h e =
      let sum : (a l + round.function (b l) (c l) (d l) + words (round.index i) + sine_constant i)
            % 2 ^ 32
          ≡ (((a l + f b c d l) % 2 ^ 32 + m (round.index i) l) % 2 ^ 32 + byte_at t i) % 2 ^ 32 =
        omega (arith, mixes b c d, agree (round.index i) (small i), t-sine i h) in
      rw (e, sum)

  operation-step_aa :
      (i : ℕ) (r : Registers Uint32x4)
      → i < 64
      → i % 4 ≡ 0
      → operation round words i (lane l r)
        ≡ lane_dd l (step f m (step_aa (round.index i) i (byte_at round.shifts 0)) r)
  unfolding operation step
  operation-step_aa i r h e =
      ap (λ (v : ℕ). record { aa = r.dd l; bb = v; cc = r.bb l; dd = r.cc l })
        (stepped-eq i 0 r.aa r.bb r.cc r.dd h e)

  operation-step_dd :
      (i : ℕ) (r : Registers Uint32x4)
      → i < 64
      → i % 4 ≡ 1
      → operation round words i (lane_dd l r)
        ≡ lane_cc l (step f m (step_dd (round.index i) i (byte_at round.shifts 1)) r)
  unfolding operation step
  operation-step_dd i r h e =
      ap (λ (v : ℕ). record { aa = r.cc l; bb = v; cc = r.aa l; dd = r.bb l })
        (stepped-eq i 1 r.dd r.aa r.bb r.cc h e)

  operation-step_cc :
      (i : ℕ) (r : Registers Uint32x4)
      → i < 64
      → i % 4 ≡ 2
      → operation round words i (lane_cc l r)
        ≡ lane_bb l (step f m (step_cc (round.index i) i (byte_at round.shifts 2)) r)
  unfolding operation step
  operation-step_cc i r h e =
      ap (λ (v : ℕ). record { aa = r.bb l; bb = v; cc = r.dd l; dd = r.aa l })
        (stepped-eq i 2 r.cc r.dd r.aa r.bb h e)

  operation-step_bb :
      (i : ℕ) (r : Registers Uint32x4)
      → i < 64
      → i % 4 ≡ 3
      → operation round words i (lane_bb l r)
        ≡ lane l (step f m (step_bb (round.index i) i (byte_at round.shifts 3)) r)
  unfolding operation step
  operation-step_bb i r h e =
      ap (λ (v : ℕ). record { aa = r.aa l; bb = v; cc = r.cc l; dd = r.dd l })
        (stepped-eq i 3 r.bb r.cc r.dd r.aa h e)

  four_times : ℕ → ℕ
  four_times zero = 0
  four_times (suc n) = suc (suc (suc (suc (four_times n))))

  -- The steps of a round act on each lane as the operations of the round do.
  operations-turns :
      (n i : ℕ) (r : Registers Uint32x4)
      → i + 4 * n ≤ 64
      → i % 4 ≡ 0
      → operations round words (four_times n) i (lane l r) ≡ lane l (steps f m (turns round i n) r)
  unfolding operations steps turns four_times
  operations-turns zero i r h e = refl
  operations-turns (suc n) i r h e =
      let r1 = step f m (step_aa (round.index i) i (byte_at round.shifts 0)) r in
      let r2 = step f m (step_dd (round.index (i + 1)) (i + 1) (byte_at round.shifts 1)) r1 in
      let r3 =
        step f m (step_cc (round.index (i + 1 + 1)) (i + 1 + 1) (byte_at round.shifts 2)) r2 in
      let r4 =
        step f m (step_bb (round.index (i + 1 + 1 + 1)) (i + 1 + 1 + 1) (byte_at round.shifts 3))
          r3 in
      let last = operations round words (four_times n) (i + 1 + 1 + 1 + 1) in
      let op = operation round words in
      ap (λ (w : Registers ℕ). last (op (i + 1 + 1 + 1) (op (i + 1 + 1) (op (i + 1) w))))
        (operation-step_aa i r (omega arith) e)
      ∙ ap (λ (w : Registers ℕ). last (op (i + 1 + 1 + 1) (op (i + 1 + 1) w)))
          (operation-step_dd (i + 1) r1 (omega arith) (omega arith))
      ∙ ap (λ (w : Registers ℕ). last (op (i + 1 + 1 + 1) w))
          (operation-step_cc (i + 1 + 1) r2 (omega arith) (omega arith))
      ∙ ap last (operation-step_bb (i + 1 + 1 + 1) r3 (omega arith) (omega arith))
      ∙ operations-turns n (i + 1 + 1 + 1 + 1) r4 (omega arith) (omega arith)

  pub round-lane :
      (i : ℕ) (r : Registers Uint32x4)
      → i + 16 ≤ 64
      → i % 4 ≡ 0
      → operations round words 16 i (lane l r) ≡ lane l (steps f m (turns round i 4) r)
  unfolding four_times
  round-lane i r h e = operations-turns 4 i r (omega arith) e
