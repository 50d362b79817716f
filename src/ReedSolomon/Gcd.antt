-- ===== src/ReedSolomon/Gcd.antt =====
-- `gcd` has fuel enough: it meets the equation of the source, and divides what both numbers' multiples
-- of an exponent have in common.
use par2rust.Base.{
  ℕ, zero, suc, ◌+◌, ◌*◌, ◌/◌, ◌%◌, ◌<◌, ◌≡◌, sym, subst, arith, ◌==◌, ==→ne, Bool-cases,
  if◌then◌else◌, inl, inr,
}
use native.Mathlib.Nat.{mod-add-div'}
use par2rust.ReedSolomon.{gcd, gcd_on}

gcd_on_enough : (f g a b : ℕ) → b < f → b < g → gcd_on f a b ≡ gcd_on g a b
unfolding gcd_on
gcd_on_enough zero g a b p q = absurd (omega arith)
gcd_on_enough (suc f) zero a b p q = absurd (omega arith)
gcd_on_enough (suc f) (suc g) a b p q = elim (Bool-cases (b == 0)) [
  | inl e ↦ rw (e, gcd_on)
  | inr e ↦
      rw (e, gcd_on)
        (let ne = ==→ne b 0 e in gcd_on_enough f g b (a % b) (omega arith) (omega arith))
]

-- `gcd` with no fuel in sight.
pub gcd_lem : (a b : ℕ) → gcd a b ≡ (if b == 0 then a else gcd b (a % b))
unfolding gcd
gcd_lem a b = elim (Bool-cases (b == 0)) [
  | inl e ↦ rw (e, gcd_on)
  | inr e ↦
      rw (e, gcd_on)
        (let ne = ==→ne b 0 e in
          gcd_on_enough b (suc (a % b)) b (a % b) (omega arith) (omega arith))
]

-- A property of exponents that holds at 0 and at a difference of two that have it holds at the
-- greatest common divisor of two that have it.
module _ {ℓ} (P : ℕ → Type ℓ) (less : (i j : ℕ) → P (i + j) → P j → P i) where
  multiple : (q b : ℕ) (r : ℕ) → P (r + q * b) → P b → P r
  multiple zero b r h k = subst P (let e : r + 0 * b ≡ r = omega arith in e) h
  multiple (suc q) b r h k =
      let e : r + suc q * b ≡ r + q * b + b = omega arith in
      multiple q b r (less (r + q * b) b (subst P e h) k) k

  gcd_on_closed : (f a b : ℕ) → P a → P b → P (gcd_on f a b)
  unfolding gcd_on
  gcd_on_closed zero a b p q = p
  gcd_on_closed (suc f) a b p q = elim (Bool-cases (b == 0)) [
    | inl e ↦ rw (e, gcd_on) p
    | inr e ↦
        rw (e, gcd_on)
          (let ne = ==→ne b 0 e in
            gcd_on_closed f b (a % b) q
              (multiple (a / b) b (a % b) (subst P (sym (mod-add-div' a b)) p) q))
  ]

  pub gcd_closed : (a b : ℕ) → P a → P b → P (gcd a b)
  unfolding gcd
  gcd_closed a b p q = gcd_on_closed (suc b) a b p q
