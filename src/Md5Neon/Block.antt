-- ===== src/Md5Neon/Block.antt =====
-- src/md5_mb_neon.rs: `md5_block` and its macro `step!`, on the registers of four lanes.
use par2rust.Base.{ℕ, ◌-◌, List, [], ◌∷◌}
use par2rust.GaloisSimd.Vectors.{byte_at}
use par2rust.Md5Neon.Vectors.{
  Uint32x4, vdupq_n_u32, vaddq_u32, vorrq_u32, veorq_u32, vmvnq_u32, vbslq_u32, vshlq_n_u32,
  vshrq_n_u32,
}

abbrev pub t : List ℕ
t =
    0xd76aa478 ∷ 0xe8c7b756 ∷ 0x242070db ∷ 0xc1bdceee ∷ 0xf57c0faf ∷ 0x4787c62a ∷ 0xa8304613
    ∷ 0xfd469501 ∷ 0x698098d8 ∷ 0x8b44f7af ∷ 0xffff5bb1 ∷ 0x895cd7be ∷ 0x6b901122 ∷ 0xfd987193
    ∷ 0xa679438e ∷ 0x49b40821 ∷ 0xf61e2562 ∷ 0xc040b340 ∷ 0x265e5a51 ∷ 0xe9b6c7aa ∷ 0xd62f105d
    ∷ 0x02441453 ∷ 0xd8a1e681 ∷ 0xe7d3fbc8 ∷ 0x21e1cde6 ∷ 0xc33707d6 ∷ 0xf4d50d87 ∷ 0x455a14ed
    ∷ 0xa9e3e905 ∷ 0xfcefa3f8 ∷ 0x676f02d9 ∷ 0x8d2a4c8a ∷ 0xfffa3942 ∷ 0x8771f681 ∷ 0x6d9d6122
    ∷ 0xfde5380c ∷ 0xa4beea44 ∷ 0x4bdecfa9 ∷ 0xf6bb4b60 ∷ 0xbebfbc70 ∷ 0x289b7ec6 ∷ 0xeaa127fa
    ∷ 0xd4ef3085 ∷ 0x04881d05 ∷ 0xd9d4d039 ∷ 0xe6db99e5 ∷ 0x1fa27cf8 ∷ 0xc4ac5665 ∷ 0xf4292244
    ∷ 0x432aff97 ∷ 0xab9423a7 ∷ 0xfc93a039 ∷ 0x655b59c3 ∷ 0x8f0ccc92 ∷ 0xffeff47d ∷ 0x85845dd1
    ∷ 0x6fa87e4f ∷ 0xfe2ce6e0 ∷ 0xa3014314 ∷ 0x4e0811a1 ∷ 0xf7537e82 ∷ 0xbd3af235 ∷ 0x2ad7d2bb
    ∷ 0xeb86d391 ∷ []

unfoldable pub bsl : Uint32x4 → Uint32x4 → Uint32x4 → Uint32x4
bsl mask x y = vbslq_u32 mask x y

pub record Registers (A : Type 0) : Type 0 where
  pub aa : A
  pub bb : A
  pub cc : A
  pub dd : A

-- The value that `step!` gives to its first register.
unfoldable pub stepped : Uint32x4 → Uint32x4 → Uint32x4 → Uint32x4 → ℕ → ℕ → Uint32x4
unfolding byte_at
stepped a b f m i s =
    let t_const = vdupq_n_u32 (byte_at t i) in
    let sum = vaddq_u32 (vaddq_u32 (vaddq_u32 a f) m) t_const in
    let rotated = vorrq_u32 (vshlq_n_u32 s sum) (vshrq_n_u32 (32 - s) sum) in vaddq_u32 b rotated

-- A use of `step!`, by its first register, with the index of the message word, that of the constant and the
-- shift. The registers that follow it are those after it in the cycle aa, bb, cc, dd.
pub data StepCall : Type 0 where
  step_aa : ℕ → ℕ → ℕ → StepCall
  step_dd : ℕ → ℕ → ℕ → StepCall
  step_cc : ℕ → ℕ → ℕ → StepCall
  step_bb : ℕ → ℕ → ℕ → StepCall

abbrev pub Message : Type 0
Message = ℕ → Uint32x4

abbrev pub Mix : Type 0
Mix = Uint32x4 → Uint32x4 → Uint32x4 → Uint32x4

unfoldable pub step : Mix → Message → StepCall → Registers Uint32x4 → Registers Uint32x4
unfolding stepped
step f m (step_aa k i s) r = record {
  aa = stepped r.aa r.bb (f r.bb r.cc r.dd) (m k) i s;
  bb = r.bb;
  cc = r.cc;
  dd = r.dd;
}
step f m (step_dd k i s) r = record {
  aa = r.aa;
  bb = r.bb;
  cc = r.cc;
  dd = stepped r.dd r.aa (f r.aa r.bb r.cc) (m k) i s;
}
step f m (step_cc k i s) r = record {
  aa = r.aa;
  bb = r.bb;
  cc = stepped r.cc r.dd (f r.dd r.aa r.bb) (m k) i s;
  dd = r.dd;
}
step f m (step_bb k i s) r = record {
  aa = r.aa;
  bb = stepped r.bb r.cc (f r.cc r.dd r.aa) (m k) i s;
  cc = r.cc;
  dd = r.dd;
}

unfoldable pub steps : Mix → Message → List StepCall → Registers Uint32x4 → Registers Uint32x4
unfolding step
steps f m [] r = r
steps f m (s ∷ rest) r = steps f m rest (step f m s r)

unfoldable pub mix_f : Mix
unfolding bsl
mix_f b c d = bsl b c d

unfoldable pub mix_g : Mix
unfolding bsl
mix_g b c d = bsl d b c

unfoldable pub mix_h : Mix
mix_h b c d = veorq_u32 (veorq_u32 b c) d

unfoldable pub mix_i : Mix
mix_i b c d = veorq_u32 c (vorrq_u32 b (vmvnq_u32 d))

abbrev pub round1 : List StepCall
round1 =
    step_aa 0 0 7
    ∷ step_dd 1 1 12
    ∷ step_cc 2 2 17
    ∷ step_bb 3 3 22
    ∷ step_aa 4 4 7
    ∷ step_dd 5 5 12
    ∷ step_cc 6 6 17
    ∷ step_bb 7 7 22
    ∷ step_aa 8 8 7
    ∷ step_dd 9 9 12
    ∷ step_cc 10 10 17
    ∷ step_bb 11 11 22
    ∷ step_aa 12 12 7
    ∷ step_dd 13 13 12
    ∷ step_cc 14 14 17
    ∷ step_bb 15 15 22
    ∷ []

abbrev pub round2 : List StepCall
round2 =
    step_aa 1 16 5
    ∷ step_dd 6 17 9
    ∷ step_cc 11 18 14
    ∷ step_bb 0 19 20
    ∷ step_aa 5 20 5
    ∷ step_dd 10 21 9
    ∷ step_cc 15 22 14
    ∷ step_bb 4 23 20
    ∷ step_aa 9 24 5
    ∷ step_dd 14 25 9
    ∷ step_cc 3 26 14
    ∷ step_bb 8 27 20
    ∷ step_aa 13 28 5
    ∷ step_dd 2 29 9
    ∷ step_cc 7 30 14
    ∷ step_bb 12 31 20
    ∷ []

abbrev pub round3 : List StepCall
round3 =
    step_aa 5 32 4
    ∷ step_dd 8 33 11
    ∷ step_cc 11 34 16
    ∷ step_bb 14 35 23
    ∷ step_aa 1 36 4
    ∷ step_dd 4 37 11
    ∷ step_cc 7 38 16
    ∷ step_bb 10 39 23
    ∷ step_aa 13 40 4
    ∷ step_dd 0 41 11
    ∷ step_cc 3 42 16
    ∷ step_bb 6 43 23
    ∷ step_aa 9 44 4
    ∷ step_dd 12 45 11
    ∷ step_cc 15 46 16
    ∷ step_bb 2 47 23
    ∷ []

abbrev pub round4 : List StepCall
round4 =
    step_aa 0 48 6
    ∷ step_dd 7 49 10
    ∷ step_cc 14 50 15
    ∷ step_bb 5 51 21
    ∷ step_aa 12 52 6
    ∷ step_dd 3 53 10
    ∷ step_cc 10 54 15
    ∷ step_bb 1 55 21
    ∷ step_aa 8 56 6
    ∷ step_dd 15 57 10
    ∷ step_cc 6 58 15
    ∷ step_bb 13 59 21
    ∷ step_aa 4 60 6
    ∷ step_dd 11 61 10
    ∷ step_cc 2 62 15
    ∷ step_bb 9 63 21
    ∷ []

unfoldable pub md5_block : Registers Uint32x4 → Message → Registers Uint32x4
unfolding steps mix_f mix_g mix_h mix_i
md5_block r m =
    let first = steps mix_f m round1 r in
    let second = steps mix_g m round2 first in
    let third = steps mix_h m round3 second in
    let fourth = steps mix_i m round4 third in
    record {
      aa = vaddq_u32 r.aa fourth.aa;
      bb = vaddq_u32 r.bb fourth.bb;
      cc = vaddq_u32 r.cc fourth.cc;
      dd = vaddq_u32 r.dd fourth.dd;
    }
