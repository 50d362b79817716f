-- ===== src/GaloisSimd/Gfni/Digits.antt =====
-- Numbers by their binary digits, and the parity of the digits that a row selects.
use par2rust.Base.{
  ℕ, zero, suc, ◌+◌, ◌*◌, ◌/◌, ◌%◌, ◌^◌, ◌<◌, ◌≡◌, refl, sym, ap, ap₂, ◌∙◌, arith, bit_and, min,
}
use native.Mathlib.Nat.{pow-suc, pow-succ', one-le-pow, mul_assoc, div-div-eq-div-mul}
use par2rust.Base.Bits.{and_step, or_fields, mod_of_fields, or_comm, two_mul_pow}
use par2rust.GaloisSimd.Gfni.{or_bits, count_ones}

-- The number with the digits `bit`, the lowest first.
unfoldable pub number : (ℕ → ℕ) → ℕ → ℕ
number bit zero = 0
number bit (suc n) = bit 0 + 2 * number (λ i. bit (suc i)) n

pub number_ext : (f g : ℕ → ℕ) (n : ℕ) → ((i : ℕ) → i < n → f i ≡ g i) → number f n ≡ number g n
unfolding number
number_ext f g zero h = refl
number_ext f g (suc n) h = omega (
  arith,
  h 0 (omega arith),
  number_ext (λ i. f (suc i)) (λ i. g (suc i)) n (λ i p. h (suc i) (omega arith)),
)

number-snoc : (bit : ℕ → ℕ) (n : ℕ) → number bit (suc n) ≡ number bit n + bit n * 2 ^ n
unfolding number
number-snoc bit zero = omega arith
number-snoc bit (suc n) =
    let rest = number-snoc (λ i. bit (suc i)) n in
    let double : bit (suc n) * 2 ^ suc n ≡ 2 * (bit (suc n) * 2 ^ n) =
      two_mul_pow (bit (suc n)) n in
    omega arith

pub number-lt : (bit : ℕ → ℕ) (n : ℕ) → ((i : ℕ) → bit i < 2) → number bit n < 2 ^ n
unfolding number
number-lt bit zero h = omega arith
number-lt bit (suc n) h =
    let double : 2 ^ suc n ≡ 2 ^ n * 2 = pow-suc 2 n in
    omega (arith, h 0, number-lt (λ i. bit (suc i)) n (λ i. h (suc i)))

pub or_bits-eq-number : (bit : ℕ → ℕ) (n : ℕ) → ((i : ℕ) → bit i < 2) → or_bits bit n ≡ number bit n
unfolding or_bits number
or_bits-eq-number bit zero h = refl
or_bits-eq-number bit (suc n) h =
    rw
      (
        or_bits-eq-number bit n h,
        or_comm (number bit n) (bit n * 2 ^ n),
        or_fields n (bit n) (number bit n) (number-lt bit n h),
      )
      (omega (arith, number-snoc bit n))

mod_double : (x m : ℕ) → 0 < m → x % (m * 2) ≡ x % 2 + 2 * (x / 2 % m)
mod_double x m h =
    let q = x / 2 / m in
    let r = x / 2 % m in
    let half : x / 2 ≡ q * m + r = grind arith in
    let small : r < m = grind arith in
    let twice : q * (m * 2) ≡ q * m * 2 = sym (mul_assoc q m 2) in
    mod_of_fields (m * 2) q (x % 2 + 2 * r) x (omega arith) (omega arith)

-- The `n` lowest digits of a number are its remainder.
pub number-digits : (n x : ℕ) → number (λ i. x / 2 ^ i % 2) n ≡ x % 2 ^ n
unfolding number
number-digits zero x = omega arith
number-digits (suc n) x =
    let rest = number-digits n (x / 2) in
    let halves =
      λ (i : ℕ). ap (λ (t : ℕ). x / t) (pow-succ' 2 i) ∙ sym (div-div-eq-div-mul x 2 (2 ^ i)) in
    let shifted : number (λ i. x / 2 ^ suc i % 2) n ≡ number (λ i. x / 2 / 2 ^ i % 2) n =
      number_ext _ _ n (λ i p. ap (λ (t : ℕ). t % 2) (halves i)) in
    let double = mod_double x (2 ^ n) (one-le-pow n 2 (omega arith)) in
    rw (pow-suc 2 n) (omega arith)

-- How many of the `n` lowest digits of `x` meet a digit of `bit`.
unfoldable pub meets : (ℕ → ℕ) → ℕ → ℕ → ℕ
meets bit zero x = 0
meets bit (suc n) x = min (bit 0) (x % 2) + meets (λ i. bit (suc i)) n (x / 2)

pub count_ones-and :
    (bit : ℕ → ℕ) (n x : ℕ)
    → ((i : ℕ) → bit i < 2)
    → count_ones n (bit_and (number bit n) x) ≡ meets bit n x
unfolding count_ones meets number
count_ones-and bit zero x h = refl
count_ones-and bit (suc n) x h =
    let small = h 0 in
    let low : number bit (suc n) % 2 ≡ bit 0 = omega arith in
    let high : number bit (suc n) / 2 ≡ number (λ i. bit (suc i)) n = omega arith in
    let rest = count_ones-and (λ i. bit (suc i)) n (x / 2) (λ i. h (suc i)) in
    let step = and_step (number bit (suc n)) x in
    let first : bit_and (number bit (suc n)) x % 2 ≡ min (number bit (suc n) % 2) (x % 2) =
      omega arith in
    let others : bit_and (number bit (suc n)) x / 2 ≡ bit_and (number bit (suc n) / 2) (x / 2) =
      omega arith in
    ap₂ ◌+◌ (first ∙ ap (λ (t : ℕ). min t (x % 2)) low)
      (ap (count_ones n) (others ∙ ap (λ (t : ℕ). bit_and t (x / 2)) high) ∙ rest)
