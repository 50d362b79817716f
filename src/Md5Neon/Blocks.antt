-- ===== src/Md5Neon/Blocks.antt =====
-- src/md5_mb_neon.rs: `md5_block` lane by lane.
use par2rust.Base.{ℕ, ◌+◌, ◌%◌, ◌^◌, ◌<◌, ◌≡◌, refl, sym, ap, ap₂, ◌∙◌, arith, List, bit_or}
use par2rust.Base.Bits.{xor_assoc, and_comm}
use par2rust.GaloisSimd.Vectors.{byte_at}
use par2rust.Md5Neon.Vectors.{Lane, Uint32x4}
use par2rust.Md5Neon.Block.{
  bsl, Registers, StepCall, Message, steps, mix_f, mix_g, mix_h, mix_i, round1, round2, round3,
  round4, md5_block,
}
use par2rust.Md5Neon.Reference.{
  function_f, function_g, function_h, function_i, complement, operations, first_round, second_round,
  third_round, fourth_round, compress,
}
use par2rust.Md5Neon.Rounds.{lane, turns, round-lane}

round1-turns : round1 ≡ turns first_round 0 4
unfolding turns first_round byte_at
round1-turns = refl

round2-turns : round2 ≡ turns second_round 16 4
unfolding turns second_round byte_at
round2-turns = refl

round3-turns : round3 ≡ turns third_round 32 4
unfolding turns third_round byte_at
round3-turns = refl

round4-turns : round4 ≡ turns fourth_round 48 4
unfolding turns fourth_round byte_at
round4-turns = refl

mix_g-eq : (b c d : Uint32x4) (l : Lane) → mix_g b c d l ≡ function_g (b l) (c l) (d l)
unfolding mix_g function_g bsl complement
mix_g-eq b c d l = ap₂ bit_or (and_comm (d l) (b l)) (and_comm (complement (d l)) (c l))

abbrev added : Registers ℕ → Registers ℕ → Registers ℕ
added r w = record {
  aa = (r.aa + w.aa) % 2 ^ 32;
  bb = (r.bb + w.bb) % 2 ^ 32;
  cc = (r.cc + w.cc) % 2 ^ 32;
  dd = (r.dd + w.dd) % 2 ^ 32;
}

module _ (l : Lane) (m : Message) (words : ℕ → ℕ) (agree : (k : ℕ) → k < 16 → m k l ≡ words k) where
  first_round-lane :
      (r : Registers Uint32x4)
      → operations first_round words 16 0 (lane l r) ≡ lane l (steps mix_f m round1 r)
  unfolding first_round mix_f function_f bsl complement
  first_round-lane r =
      round-lane l first_round mix_f m words (λ b c d. refl) agree (λ i. omega arith) 0 r
        (omega arith) (omega arith)
      ∙ ap (λ (s : List StepCall). lane l (steps mix_f m s r)) (sym round1-turns)

  second_round-lane :
      (r : Registers Uint32x4)
      → operations second_round words 16 16 (lane l r) ≡ lane l (steps mix_g m round2 r)
  unfolding second_round
  second_round-lane r =
      round-lane l second_round mix_g m words (λ b c d. mix_g-eq b c d l) agree (λ i. omega arith)
        16 r (omega arith) (omega arith)
      ∙ ap (λ (s : List StepCall). lane l (steps mix_g m s r)) (sym round2-turns)

  third_round-lane :
      (r : Registers Uint32x4)
      → operations third_round words 16 32 (lane l r) ≡ lane l (steps mix_h m round3 r)
  unfolding third_round mix_h function_h
  third_round-lane r =
      round-lane l third_round mix_h m words (λ b c d. xor_assoc (b l) (c l) (d l)) agree
        (λ i. omega arith) 32 r (omega arith) (omega arith)
      ∙ ap (λ (s : List StepCall). lane l (steps mix_h m s r)) (sym round3-turns)

  fourth_round-lane :
      (r : Registers Uint32x4)
      → operations fourth_round words 16 48 (lane l r) ≡ lane l (steps mix_i m round4 r)
  unfolding fourth_round mix_i function_i complement
  fourth_round-lane r =
      round-lane l fourth_round mix_i m words (λ b c d. refl) agree (λ i. omega arith) 48 r
        (omega arith) (omega arith)
      ∙ ap (λ (s : List StepCall). lane l (steps mix_i m s r)) (sym round4-turns)

-- Each lane of a block is the block of the reference.
pub md5_block-lane :
    (l : Lane) (m : Message) (words : ℕ → ℕ) (r : Registers Uint32x4)
    → ((k : ℕ) → k < 16 → m k l ≡ words k)
    → lane l (md5_block r m) ≡ compress words (lane l r)
unfolding md5_block compress
md5_block-lane l m words r agree =
    let s1 = steps mix_f m round1 r in
    let s2 = steps mix_g m round2 s1 in
    let s3 = steps mix_h m round3 s2 in
    let r2 = operations second_round words 16 16 in
    let r3 = operations third_round words 16 32 in
    let r4 = operations fourth_round words 16 48 in
    ap (added (lane l r)) (
      sym (
        ap (λ (w : Registers ℕ). r4 (r3 (r2 w))) (first_round-lane l m words agree r)
        ∙ ap (λ (w : Registers ℕ). r4 (r3 w)) (second_round-lane l m words agree s1)
        ∙ ap r4 (third_round-lane l m words agree s2)
        ∙ fourth_round-lane l m words agree s3))
