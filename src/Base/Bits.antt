-- ===== src/Base/Bits.antt =====
-- Laws of the bit operations at variables: `bit_xor` is an exclusive group operation that acts digit
-- by digit, and `&` with a low mask and `|` of disjoint fields are arithmetic.
mod Step
use Prim.Native.Nat.{ℕ, zero, suc, ◌+◌, ◌-◌, ◌*◌, ◌/◌, ◌%◌, ◌^◌, ◌≤◌, ◌<◌, bit_and, bit_or, bit_xor}
use mathlib.Core.Path.{◌≡◌, refl, ap, ap₂, sym, ◌∙◌}
use native.Mathlib.Nat.{pow-suc, one-le-pow}
use native.Mathlib.Omega.{arith}
pub use Step.{xor_step, xor_half, xor_parity, zero-xor, and_step, or_step}

-- Each law goes from the halves to the whole; `n` bounds the numbers.
xor_comm_below : (n a b : ℕ) → a ≤ n → b ≤ n → bit_xor a b ≡ bit_xor b a
xor_comm_below zero a b p q =
    let e : a ≡ 0 = omega arith in let f : b ≡ 0 = omega arith in rw (e, f)
xor_comm_below (suc n) a b p q = omega (
  arith,
  xor_step a b,
  xor_step b a,
  xor_comm_below n (a / 2) (b / 2) (omega arith) (omega arith),
)

pub xor_comm : (a b : ℕ) → bit_xor a b ≡ bit_xor b a
xor_comm a b = xor_comm_below (a + b) a b (omega arith) (omega arith)

xor_self_below : (n a : ℕ) → a ≤ n → bit_xor a a ≡ 0
xor_self_below zero a p = let e : a ≡ 0 = omega arith in rw e
xor_self_below (suc n) a p = omega (arith, xor_step a a, xor_self_below n (a / 2) (omega arith))

pub xor_self : (a : ℕ) → bit_xor a a ≡ 0
xor_self a = xor_self_below a a (omega arith)

pub xor-zero : (a : ℕ) → bit_xor a 0 ≡ a
xor-zero a = xor_comm a 0 ∙ zero-xor a

halves : (x y : ℕ) → x / 2 ≡ y / 2 → x % 2 ≡ y % 2 → x ≡ y
halves x y p q = omega arith

xor_assoc_below :
    (n a b c : ℕ) → a ≤ n → b ≤ n → c ≤ n → bit_xor (bit_xor a b) c ≡ bit_xor a (bit_xor b c)
xor_assoc_below zero a b c p q r =
    let e : a ≡ 0 = omega arith in
    let f : b ≡ 0 = omega arith in let g : c ≡ 0 = omega arith in rw (e, f, g)
xor_assoc_below (suc n) a b c p q r =
    halves _ _
      (rw (xor_half, xor_half, xor_half, xor_half)
        (xor_assoc_below n (a / 2) (b / 2) (c / 2) (omega arith) (omega arith) (omega arith)))
      (omega (
        arith,
        xor_parity (bit_xor a b) c,
        xor_parity a b,
        xor_parity a (bit_xor b c),
        xor_parity b c,
      ))

pub xor_assoc : (a b c : ℕ) → bit_xor (bit_xor a b) c ≡ bit_xor a (bit_xor b c)
xor_assoc a b c = xor_assoc_below (a + b + c) a b c (omega arith) (omega arith) (omega arith)

pub xor_left_comm : (a b c : ℕ) → bit_xor a (bit_xor b c) ≡ bit_xor b (bit_xor a c)
xor_left_comm a b c =
    sym (xor_assoc a b c) ∙ ap (λ (t : ℕ). bit_xor t c) (xor_comm a b) ∙ xor_assoc b a c

pub xor_swap_middle :
    (a b c d : ℕ) → bit_xor (bit_xor a b) (bit_xor c d) ≡ bit_xor (bit_xor a c) (bit_xor b d)
xor_swap_middle a b c d =
    xor_assoc a b (bit_xor c d)
    ∙ ap (bit_xor a) (xor_left_comm b c d)
    ∙ sym (xor_assoc a c (bit_xor b d))

-- Adding the same again takes it away.
pub xor_cancel : (a b : ℕ) → bit_xor (bit_xor a b) b ≡ a
xor_cancel a b = xor_assoc a b b ∙ ap (bit_xor a) (xor_self b) ∙ xor-zero a

pub xor_injective_right : (a b c : ℕ) → bit_xor a c ≡ bit_xor b c → a ≡ b
xor_injective_right a b c h = sym (xor_cancel a c) ∙ ap (λ (t : ℕ). bit_xor t c) h ∙ xor_cancel b c

pub xor-lt : (k a b : ℕ) → a < 2 ^ k → b < 2 ^ k → bit_xor a b < 2 ^ k
xor-lt zero a b p q =
    let e : a ≡ 0 = omega arith in let f : b ≡ 0 = omega arith in rw (e, f) (omega arith)
xor-lt (suc k) a b p q =
    let e : 2 ^ suc k ≡ 2 ^ k * 2 = pow-suc 2 k in
    omega (arith, xor_step a b, xor-lt k (a / 2) (b / 2) (omega arith) (omega arith))

pub two_mul_pow : (q k : ℕ) → q * 2 ^ suc k ≡ 2 * (q * 2 ^ k)
two_mul_pow q k = omega (arith, ap (λ (t : ℕ). q * t) (pow-suc 2 k))

-- High and low fields do not meet.
pub xor_fields :
    (k a b c d : ℕ)
    → c < 2 ^ k
    → d < 2 ^ k
    → bit_xor (a * 2 ^ k + c) (b * 2 ^ k + d) ≡ bit_xor a b * 2 ^ k + bit_xor c d
xor_fields zero a b c d p q =
    let e : c ≡ 0 = omega arith in
    let f : d ≡ 0 = omega arith in
    let x : a * 1 + 0 ≡ a = omega arith in
    let y : b * 1 + 0 ≡ b = omega arith in rw (e, f, x, y) (omega arith)
xor_fields (suc k) a b c d p q = ground (
  arith,
  pow-suc 2 k,
  two_mul_pow a k,
  two_mul_pow b k,
  two_mul_pow (bit_xor a b) k,
  xor_step (a * 2 ^ suc k + c) (b * 2 ^ suc k + d),
  xor_step c d,
  xor_fields k a b (c / 2) (d / 2) (omega arith) (omega arith),
)

and-zero_below : (n a : ℕ) → a ≤ n → bit_and a 0 ≡ 0
and-zero_below zero a h = let e : a ≡ 0 = omega arith in rw e
and-zero_below (suc n) a h = omega (arith, and_step a 0, and-zero_below n (a / 2) (omega arith))

pub and-zero : (a : ℕ) → bit_and a 0 ≡ 0
and-zero a = and-zero_below a a (omega arith)

or-zero_below : (n a : ℕ) → a ≤ n → bit_or a 0 ≡ a
or-zero_below zero a h = let e : a ≡ 0 = omega arith in rw e
or-zero_below (suc n) a h = omega (arith, or_step a 0, or-zero_below n (a / 2) (omega arith))

or-zero : (a : ℕ) → bit_or a 0 ≡ a
or-zero a = or-zero_below a a (omega arith)

and_low_field : (k q r : ℕ) → r < 2 ^ k → bit_and (q * 2 ^ k + r) (2 ^ k - 1) ≡ r
and_low_field zero q r h = omega (arith, and-zero (q * 1 + r))
and_low_field (suc k) q r h = ground (
  arith,
  pow-suc 2 k,
  two_mul_pow q k,
  and_step (q * 2 ^ suc k + r) (2 ^ suc k - 1),
  and_low_field k q (r / 2) (omega (arith, pow-suc 2 k)),
)

-- `a & (2^k - 1)`.
pub and_mask : (k a : ℕ) → bit_and a (2 ^ k - 1) ≡ a % 2 ^ k
and_mask k a = ground (arith, one-le-pow k 2, and_low_field k (a / 2 ^ k) (a % 2 ^ k))

-- `x & 2^k`, for `x` of one digit more than `k`.
pub and_bit : (k q r : ℕ) → q < 2 → r < 2 ^ k → bit_and (q * 2 ^ k + r) (2 ^ k) ≡ q * 2 ^ k
and_bit zero q r p h = omega (arith, and_step (q * 1 + r) 1, and-zero ((q * 1 + r) / 2))
and_bit (suc k) q r p h = ground (
  arith,
  pow-suc 2 k,
  two_mul_pow q k,
  and_step (q * 2 ^ suc k + r) (2 ^ suc k),
  and_bit k q (r / 2) p (omega (arith, pow-suc 2 k)),
)

-- `(q << k) | r`, when `r` fits `k` bits.
pub or_fields : (k q r : ℕ) → r < 2 ^ k → bit_or (q * 2 ^ k) r ≡ q * 2 ^ k + r
or_fields zero q r h = ground (arith, or-zero q)
or_fields (suc k) q r h = ground (
  arith,
  pow-suc 2 k,
  two_mul_pow q k,
  or_step (q * 2 ^ suc k) r,
  or_fields k q (r / 2) (omega (arith, pow-suc 2 k)),
)

-- Both halves of an exclusive or, at any cut.
xor_split :
    (k a b : ℕ)
    → bit_xor a b ≡ bit_xor (a / 2 ^ k) (b / 2 ^ k) * 2 ^ k + bit_xor (a % 2 ^ k) (b % 2 ^ k)
xor_split k a b =
    let p = one-le-pow k 2 in
    let e : a ≡ a / 2 ^ k * 2 ^ k + a % 2 ^ k = grind arith in
    let f : b ≡ b / 2 ^ k * 2 ^ k + b % 2 ^ k = grind arith in
    ap₂ bit_xor e f
    ∙ xor_fields k (a / 2 ^ k) (b / 2 ^ k) (a % 2 ^ k) (b % 2 ^ k) (omega arith) (omega arith)

div_of_fields : (n q r x : ℕ) → r < n → x ≡ q * n + r → x / n ≡ q
div_of_fields n q r x h e = grind arith

pub mod_of_fields : (n q r x : ℕ) → r < n → x ≡ q * n + r → x % n ≡ r
mod_of_fields n q r x h e = grind arith

low_xor-lt : (k a b : ℕ) → bit_xor (a % 2 ^ k) (b % 2 ^ k) < 2 ^ k
low_xor-lt k a b =
    let p = one-le-pow k 2 in xor-lt k (a % 2 ^ k) (b % 2 ^ k) (omega arith) (omega arith)

pub xor-div : (k a b : ℕ) → bit_xor a b / 2 ^ k ≡ bit_xor (a / 2 ^ k) (b / 2 ^ k)
xor-div k a b = div_of_fields (2 ^ k) _ _ _ (low_xor-lt k a b) (xor_split k a b)

pub xor-mod : (k a b : ℕ) → bit_xor a b % 2 ^ k ≡ bit_xor (a % 2 ^ k) (b % 2 ^ k)
xor-mod k a b = mod_of_fields (2 ^ k) _ _ _ (low_xor-lt k a b) (xor_split k a b)

and_comm_below : (n a b : ℕ) → a ≤ n → b ≤ n → bit_and a b ≡ bit_and b a
and_comm_below zero a b p q =
    let e : a ≡ 0 = omega arith in let f : b ≡ 0 = omega arith in rw (e, f)
and_comm_below (suc n) a b p q = omega (
  arith,
  and_step a b,
  and_step b a,
  and_comm_below n (a / 2) (b / 2) (omega arith) (omega arith),
)

pub and_comm : (a b : ℕ) → bit_and a b ≡ bit_and b a
and_comm a b = and_comm_below (a + b) a b (omega arith) (omega arith)

or_comm_below : (n a b : ℕ) → a ≤ n → b ≤ n → bit_or a b ≡ bit_or b a
or_comm_below zero a b p q = let e : a ≡ 0 = omega arith in let f : b ≡ 0 = omega arith in rw (e, f)
or_comm_below (suc n) a b p q =
    omega
      (arith, or_step a b, or_step b a, or_comm_below n (a / 2) (b / 2) (omega arith) (omega arith))

pub or_comm : (a b : ℕ) → bit_or a b ≡ bit_or b a
or_comm a b = or_comm_below (a + b) a b (omega arith) (omega arith)

-- Fields that do not meet are joined by `^` as by `+`.
pub xor_join : (k q r : ℕ) → r < 2 ^ k → bit_xor r (q * 2 ^ k) ≡ q * 2 ^ k + r
xor_join k q r h =
    let e : 0 * 2 ^ k + r ≡ r = omega arith in
    let f : q * 2 ^ k + 0 ≡ q * 2 ^ k = omega arith in
    ap₂ bit_xor (sym e) (sym f)
    ∙ xor_fields k 0 q r 0 h (one-le-pow k 2 (omega arith))
    ∙ ap₂ ◌+◌ (ap (λ (t : ℕ). t * 2 ^ k) (zero-xor q)) (xor-zero r)
