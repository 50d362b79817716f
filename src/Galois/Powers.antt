-- ===== src/Galois/Powers.antt =====
-- The powers of α by repeated doubling: `times_alpha k x` is α^k · x. A walk over all of them shows
-- that α has order `field_limit`.
use par2rust.Base.{
  ℕ, zero, suc, ◌+◌, ◌-◌, ◌*◌, ◌/◌, ◌%◌, ◌^◌, ◌<◌, bit_xor, ◌≡◌, ◌≢◌, refl, sym, ap, ◌∙◌, arith,
  ◌==◌, Bool, true, false, ==_iff, ==→eq, ltb, Bool-cases, ◌⊎◌, inl, inr,
}
use par2rust.Base.Pigeonhole.{surjective_below}
use par2rust.Galois.{double, field_limit}
use par2rust.Galois.Double.{double-lt, double-xor, double_injective}

pub times_alpha : ℕ → ℕ → ℕ
times_alpha zero x = x
times_alpha (suc k) x = double (times_alpha k x)

pub times_alpha-suc : (k x : ℕ) → times_alpha (suc k) x ≡ double (times_alpha k x)
unfolding times_alpha
times_alpha-suc k x = refl

pub times_alpha-nothing : (x : ℕ) → times_alpha 0 x ≡ x
unfolding times_alpha
times_alpha-nothing x = refl

pub times_alpha-lt : (k x : ℕ) → x < 2 ^ 16 → times_alpha k x < 2 ^ 16
unfolding times_alpha
times_alpha-lt zero x h = h
times_alpha-lt (suc k) x h = double-lt _ (times_alpha-lt k x h)

pub times_alpha-add : (j k x : ℕ) → times_alpha (j + k) x ≡ times_alpha j (times_alpha k x)
unfolding times_alpha
times_alpha-add zero k x = ap (λ (t : ℕ). times_alpha t x) (omega arith)
times_alpha-add (suc j) k x =
    let e : suc j + k ≡ suc (j + k) = omega arith in rw e (ap double (times_alpha-add j k x))

pub times_alpha-xor :
    (k x y : ℕ)
    → x < 2 ^ 16
    → y < 2 ^ 16
    → times_alpha k (bit_xor x y) ≡ bit_xor (times_alpha k x) (times_alpha k y)
unfolding times_alpha
times_alpha-xor zero x y p q = refl
times_alpha-xor (suc k) x y p q =
    ap double (times_alpha-xor k x y p q)
    ∙ double-xor _ _ (times_alpha-lt k x p) (times_alpha-lt k y q)

pub times_alpha_injective :
    (k x y : ℕ) → x < 2 ^ 16 → y < 2 ^ 16 → times_alpha k x ≡ times_alpha k y → x ≡ y
unfolding times_alpha
times_alpha_injective zero x y p q e = e
times_alpha_injective (suc k) x y p q e =
    times_alpha_injective k x y p q
      (double_injective _ _ (times_alpha-lt k x p) (times_alpha-lt k y q) e)

double-zero : double 0 ≡ 0
unfolding double
double-zero = refl

pub times_alpha-zero : (k : ℕ) → times_alpha k 0 ≡ 0
unfolding times_alpha
times_alpha-zero zero = refl
times_alpha-zero (suc k) = ap double (times_alpha-zero k) ∙ double-zero

-- α^k
pub alpha_pow : ℕ → ℕ
alpha_pow k = times_alpha k 1

pub alpha_pow-zero : alpha_pow 0 ≡ 1
unfolding alpha_pow times_alpha
alpha_pow-zero = refl

pub alpha_pow-suc : (k : ℕ) → alpha_pow (suc k) ≡ double (alpha_pow k)
unfolding alpha_pow times_alpha
alpha_pow-suc k = refl

pub times_alpha-one : (k : ℕ) → times_alpha k 1 ≡ alpha_pow k
unfolding alpha_pow
times_alpha-one k = refl

-- The next `n` powers from `b` on are not 1, and the one after them is.
first_return : ℕ → ℕ → Bool
first_return zero b = b == 1
first_return (suc n) b = elim (b == 1) [ true ↦ false | false ↦ first_return n (double b) ]

alpha_walk : first_return (field_limit - 1) 2 ≡ true
unfolding first_return double
alpha_walk = refl

pub times_alpha-double : (k b : ℕ) → times_alpha k (double b) ≡ times_alpha (suc k) b
unfolding times_alpha
times_alpha-double zero b = refl
times_alpha-double (suc k) b = ap double (times_alpha-double k b)

first_return_ne : (n b k : ℕ) → first_return n b ≡ true → k < n → times_alpha k b ≢ 1
unfolding first_return
first_return_ne zero b k h lt e = absurd (omega arith)
first_return_ne (suc n) b zero h lt e = unfold times_alpha in ground arith
first_return_ne (suc n) b (suc k) h lt e =
    first_return_ne n (double b) k (ground arith) (omega arith) (times_alpha-double k b ∙ e)

first_return_eq : (n b : ℕ) → first_return n b ≡ true → times_alpha n b ≡ 1
unfolding first_return
first_return_eq zero b h = unfold times_alpha in (==_iff b 1).0 h
first_return_eq (suc n) b h =
    sym (times_alpha-double n b) ∙ first_return_eq n (double b) (ground arith)

double-one : double 1 ≡ 2
unfolding double
double-one = refl

-- α^(k + 1), counted from 2 = α on.
alpha_pow_from_two : (k : ℕ) → alpha_pow (suc k) ≡ times_alpha k 2
unfolding alpha_pow
alpha_pow_from_two k = sym (times_alpha-double k 1) ∙ ap (times_alpha k) double-one

alpha_pow-period : alpha_pow field_limit ≡ 1
alpha_pow-period = alpha_pow_from_two (field_limit - 1) ∙ first_return_eq _ _ alpha_walk

alpha_pow-ne-one : (d : ℕ) → 0 < d → d < field_limit → alpha_pow d ≢ 1
alpha_pow-ne-one zero p q e = absurd (omega arith)
alpha_pow-ne-one (suc d) p q e =
    first_return_ne (field_limit - 1) 2 d alpha_walk (omega arith) (sym (alpha_pow_from_two d) ∙ e)

pub alpha_pow-lt : (k : ℕ) → alpha_pow k < 2 ^ 16
unfolding alpha_pow
alpha_pow-lt k = times_alpha-lt k 1 (omega arith)

pub alpha_pow-ne-zero : (k : ℕ) → alpha_pow k ≢ 0
unfolding alpha_pow
alpha_pow-ne-zero k e =
    omega (
      arith,
      times_alpha_injective k 1 0 (omega arith) (omega arith) (e ∙ sym (times_alpha-zero k)),
    )

pub alpha_pow-add : (j k : ℕ) → alpha_pow (j + k) ≡ times_alpha j (alpha_pow k)
unfolding alpha_pow
alpha_pow-add j k = times_alpha-add j k 1

alpha_pow_apart : (i d : ℕ) → 0 < d → i + d < field_limit → alpha_pow (i + d) ≢ alpha_pow i
alpha_pow_apart i d p q e = alpha_pow-ne-one d p (omega arith) (
    times_alpha_injective i (alpha_pow d) 1 (alpha_pow-lt d) (omega arith)
      (sym (alpha_pow-add i d) ∙ e ∙ unfold alpha_pow in refl))

pub compare_cases :
    (i j : ℕ) → (i ≡ j) ⊎ (((d : ℕ) × (0 < d) × (i + d ≡ j)) ⊎ ((d : ℕ) × (0 < d) × (j + d ≡ i)))
compare_cases i j = elim (Bool-cases (i == j)) [
  | inl e ↦ inl (==→eq i j e)
  | inr ne ↦ elim (Bool-cases (ltb i j)) [
    | inl lt ↦ inr (inl (j - i, ground arith, ground arith))
    | inr ge ↦ inr (inr (i - j, ground arith, ground arith))
  ]
]

-- α has order `field_limit`: its powers below that are distinct.
pub alpha_pow_injective :
    (i j : ℕ) → i < field_limit → j < field_limit → alpha_pow i ≡ alpha_pow j → i ≡ j
alpha_pow_injective i j p q e = elim (compare_cases i j) [
  | inl s ↦ s
  | inr (inl (d, pos, s)) ↦ absurd (alpha_pow_apart i d pos (omega arith) (ap alpha_pow s ∙ sym e))
  | inr (inr (d, pos, s)) ↦ absurd (alpha_pow_apart j d pos (omega arith) (ap alpha_pow s ∙ e))
]

-- A whole turn changes nothing.
pub alpha_pow-turn : (k : ℕ) → alpha_pow (k + field_limit) ≡ alpha_pow k
alpha_pow-turn k =
    alpha_pow-add k field_limit ∙ ap (times_alpha k) alpha_pow-period ∙ unfold alpha_pow in refl

pub alpha_pow-turns : (q r : ℕ) → alpha_pow (r + q * field_limit) ≡ alpha_pow r
alpha_pow-turns zero r = ap alpha_pow (omega arith)
alpha_pow-turns (suc q) r =
    ap alpha_pow (omega arith) ∙ alpha_pow-turn (r + q * field_limit) ∙ alpha_pow-turns q r

pub alpha_pow-mod : (k : ℕ) → alpha_pow (k % field_limit) ≡ alpha_pow k
alpha_pow-mod k =
    sym (alpha_pow-turns (k / field_limit) (k % field_limit)) ∙ ap alpha_pow (omega arith)

-- Every non-zero symbol is a power of α below the order.
pub log_exists : (x : ℕ) → 0 < x → x < 2 ^ 16 → (l : ℕ) × (l < field_limit) × (alpha_pow l ≡ x)
log_exists x p q =
    let (l, below, e) =
      surjective_below field_limit (λ i. alpha_pow i - 1)
        (λ i h. omega (arith, positive i, alpha_pow-lt i))
        (λ i j hi hj e. alpha_pow_injective i j hi hj (omega (arith, positive i, positive j)))
        (x - 1) (omega arith) in
    (l, below, omega (arith, positive l))
  where
    positive : (i : ℕ) → alpha_pow i ≢ 0
    positive = alpha_pow-ne-zero
