-- ===== src/GaloisSimd/X86/Steps.antt =====
-- A chunk of the x86 kernels applies the nibble tables to each pair of bytes.
use mathlib.Core.Path.{fun_ext}
use par2rust.Base.{
  ℕ, ◌+◌, ◌-◌, ◌*◌, ◌/◌, ◌%◌, ◌^◌, ◌<◌, ◌≤◌, ◌≡◌, ap, ◌∙◌, arith, List, length, take, bit_and,
  bit_xor, ltb, ◌==◌, true, Bool-cases, inl, inr, ==→eq, ==→ne,
}
use par2rust.Base.Bits.{xor_assoc, and_mask}
use par2rust.Galois.{Table}
use par2rust.Buffer.{IsBytes, xor_pairs}
use par2rust.GaloisSimd.{NibbleTables, nibble_body}
use par2rust.GaloisSimd.Vectors.{
  Vector, byte_at, loadu, stored, stored_from, set1, setr, xor, and, broadcast, shuffle_epi8,
  unpacklo_epi64, unpacklo_epi8, unpackhi_epi8, srli_epi16,
}
use par2rust.GaloisSimd.Wide.{byte_at-lt, take-eq-stored}
use par2rust.GaloisSimd.X86.{load_table, lo_idx, hi_idx, gathered, products, ssse3_step, avx2_step}

-- All bytes of a vector are bytes.
abbrev AreBytes : Vector → Type 0
AreBytes v = (i : ℕ) → v i < 2 ^ 8

mask_nibble : (x : ℕ) → bit_and x 0x0f ≡ x % 16
mask_nibble x = and_mask 4 x

low_nib : (v : Vector) → and v (set1 0x0f) ≡ (λ i. v i % 16)
unfolding and set1
low_nib v = fun_ext λ i. mask_nibble (v i)

high_nib : (v : Vector) → AreBytes v → and (srli_epi16 v 4) (set1 0x0f) ≡ (λ i. v i / 16)
unfolding and set1 srli_epi16
high_nib v h = fun_ext λ i. mask_nibble _ ∙ at i
  where
    at : (i : ℕ) → srli_epi16 v 4 i % 16 ≡ v i / 16
    at i = elim (Bool-cases (i % 2 == 0)) [
      | inl e ↦
          let even = ==→eq (i % 2) 0 e in
          let here : i / 2 * 2 ≡ i = omega arith in let small = h i in rw (e, here) (omega arith)
      | inr e ↦
          let odd = ==→ne (i % 2) 0 e in
          let here : i / 2 * 2 + 1 ≡ i = omega arith in
          let small = h (i / 2 * 2) in rw (e, here) (omega arith)
    ]

looked_up :
    (t : Table) (nib : Vector)
    → ((i : ℕ) → nib i < 16)
    → shuffle_epi8 (load_table t) nib ≡ (λ i. t (nib i))
unfolding shuffle_epi8 load_table
looked_up t nib h = fun_ext λ i.
    let small = h i in
    let e : (i / 16 * 16 + nib i % 16) % 16 ≡ nib i = omega arith in
    let f : ltb (nib i) 128 ≡ true = ground arith in rw (e, f)

-- The body of the tail loop, with remainders for masks.
unfoldable pub by_nibbles : NibbleTables → ℕ → ℕ → ℕ × ℕ
by_nibbles t a b = (
  bit_xor (bit_xor (t.lo_lo (a % 16)) (t.lo_lo_n16 (a / 16)))
      (bit_xor (t.hi_lo (b % 16)) (t.hi_lo_n16 (b / 16))),
  bit_xor (bit_xor (t.lo_hi (a % 16)) (t.lo_hi_n16 (a / 16)))
      (bit_xor (t.hi_hi (b % 16)) (t.hi_hi_n16 (b / 16))),
)

pub nibble_body-by_nibbles : (t : NibbleTables) → nibble_body t ≡ by_nibbles t
unfolding nibble_body by_nibbles
nibble_body-by_nibbles t = fun_ext λ a. fun_ext λ b. rw (
  mask_nibble a,
  mask_nibble b,
  xor_assoc (bit_xor (t.lo_lo (a % 16)) (t.lo_lo_n16 (a / 16))) (t.hi_lo (b % 16))
      (t.hi_lo_n16 (b / 16)),
  xor_assoc (bit_xor (t.lo_hi (a % 16)) (t.lo_hi_n16 (a / 16))) (t.hi_hi (b % 16))
      (t.hi_hi_n16 (b / 16)),
)

products-eq :
    (a b c d : Table) (low high : Vector)
    → AreBytes low
    → AreBytes high
    → products (load_table a) (load_table b) (load_table c) (load_table d) low high ≡ (λ i.
      bit_xor
        (bit_xor (a (low i % 16)) (b (low i / 16)))
        (bit_xor (c (high i % 16)) (d (high i / 16))))
unfolding products xor
products-eq a b c d low high p q = rw (
  low_nib low,
  low_nib high,
  high_nib low p,
  high_nib high q,
  looked_up a (λ i. low i % 16) (λ i. omega arith),
  looked_up b (λ i. low i / 16) (λ i. let small = p i in omega arith),
  looked_up c (λ i. high i % 16) (λ i. omega arith),
  looked_up d (λ i. high i / 16) (λ i. let small = q i in omega arith),
)

broadcast-load_table : (t : Table) → broadcast (load_table t) ≡ load_table t
unfolding broadcast load_table
broadcast-load_table t = fun_ext λ i. ap t (omega arith)

shuffled : (v idx : Vector) → AreBytes v → AreBytes (shuffle_epi8 v idx)
unfolding shuffle_epi8
shuffled v idx h i = let here = h (i / 16 * 16 + idx i % 16) in ground arith

gathered-AreBytes : (idx v0 v1 : Vector) → AreBytes v0 → AreBytes v1 → AreBytes (gathered idx v0 v1)
unfolding gathered unpacklo_epi64
gathered-AreBytes idx v0 v1 p q i =
    let a = shuffled v0 idx p i in let b = shuffled v1 idx q (i - 8) in ground arith

loadu-AreBytes : (bs : List ℕ) (off : ℕ) → IsBytes bs → AreBytes (loadu bs off)
unfolding loadu
loadu-AreBytes bs off h i = byte_at-lt bs (off + i) h

pub ssse3_step-eq :
    (t : NibbleTables) (input output : List ℕ)
    → 32 ≤ length input
    → 32 ≤ length output
    → IsBytes input
    → ssse3_step t input output ≡ xor_pairs (nibble_body t) (take 32 input) (take 32 output)
unfolding ssse3_step xor_pairs by_nibbles stored stored_from xor loadu gathered unpacklo_epi64
    unpacklo_epi8 unpackhi_epi8 shuffle_epi8 broadcast setr byte_at
ssse3_step-eq t input output p q bytes =
    let v0 = loadu-AreBytes input 0 bytes in
    let v1 = loadu-AreBytes input 16 bytes in
    let low = gathered-AreBytes lo_idx (loadu input 0) (loadu input 16) v0 v1 in
    let high = gathered-AreBytes hi_idx (loadu input 0) (loadu input 16) v0 v1 in
    rw (
      nibble_body-by_nibbles t,
      take-eq-stored 32 input p,
      take-eq-stored 32 output q,
      products-eq t.lo_lo t.lo_lo_n16 t.hi_lo t.hi_lo_n16 _ _ low high,
      products-eq t.lo_hi t.lo_hi_n16 t.hi_hi t.hi_hi_n16 _ _ low high,
    )

pub avx2_step-eq :
    (t : NibbleTables) (input output : List ℕ)
    → 64 ≤ length input
    → 64 ≤ length output
    → IsBytes input
    → avx2_step t input output ≡ xor_pairs (nibble_body t) (take 64 input) (take 64 output)
unfolding avx2_step xor_pairs by_nibbles stored stored_from xor loadu gathered unpacklo_epi64
    unpacklo_epi8 unpackhi_epi8 shuffle_epi8 broadcast setr byte_at
avx2_step-eq t input output p q bytes =
    let v0 = loadu-AreBytes input 0 bytes in
    let v1 = loadu-AreBytes input 32 bytes in
    let low = gathered-AreBytes lo_idx (loadu input 0) (loadu input 32) v0 v1 in
    let high = gathered-AreBytes hi_idx (loadu input 0) (loadu input 32) v0 v1 in
    rw (
      nibble_body-by_nibbles t,
      take-eq-stored 64 input p,
      take-eq-stored 64 output q,
      broadcast-load_table t.lo_lo,
      broadcast-load_table t.lo_hi,
      broadcast-load_table t.lo_lo_n16,
      broadcast-load_table t.lo_hi_n16,
      broadcast-load_table t.hi_lo,
      broadcast-load_table t.hi_hi,
      broadcast-load_table t.hi_lo_n16,
      broadcast-load_table t.hi_hi_n16,
      products-eq t.lo_lo t.lo_lo_n16 t.hi_lo t.hi_lo_n16 _ _ low high,
      products-eq t.lo_hi t.lo_hi_n16 t.hi_hi t.hi_hi_n16 _ _ low high,
    )
