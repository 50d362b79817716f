-- ===== src/Base/Pigeonhole.antt =====
-- A function that is injective from the numbers below `n` into them reaches each of them.
use Prim.Native.Nat.{ℕ, zero, suc, ◌-◌, ◌<◌}
use mathlib.Core.Path.{◌≡◌}
use mathlib.Core.Logic.{◌≢◌, ◌⊎◌, inl, inr}
use native.Mathlib.Omega.{arith}
use native.Mathlib.Nat.{le_refl}
use par2rust.Base.Tests.{ltb, ◌==◌, ==→eq, ==→ne, Bool-cases, if◌then◌else◌}

abbrev InjectiveBelow : ℕ → (ℕ → ℕ) → Type 0
InjectiveBelow n f = (i j : ℕ) → i < n → j < n → f i ≡ f j → i ≡ j

-- The numbers but `y`, moved together.
squeeze : ℕ → ℕ → ℕ
squeeze y x = if ltb x y then x else x - 1

squeeze-lt : (n y x : ℕ) → x < suc n → y < suc n → x ≢ y → squeeze y x < n
unfolding squeeze
squeeze-lt n y x p q ne = ground arith

squeeze_injective : (y a b : ℕ) → a ≢ y → b ≢ y → squeeze y a ≡ squeeze y b → a ≡ b
unfolding squeeze
squeeze_injective y a b p q e = ground arith

no_injection : (n : ℕ) (f : ℕ → ℕ) → ((i : ℕ) → i < suc n → f i < n) → InjectiveBelow (suc n) f → ⊥
no_injection zero f bound inj = omega (arith, bound 0 (omega arith))
no_injection (suc n) f bound inj =
    no_injection n (λ i. squeeze (f (suc n)) (f i))
      (λ i h.
        squeeze-lt n (f (suc n)) (f i) (bound i (omega arith)) (bound (suc n) (le_refl _))
          (apart i h))
      (λ i j p q e.
        inj i j (omega arith) (omega arith)
          (squeeze_injective (f (suc n)) (f i) (f j) (apart i p) (apart j q) e))
  where
    apart : (i : ℕ) → i < suc n → f i ≢ f (suc n)
    apart i h e = omega (arith, inj i (suc n) (omega arith) (le_refl _) e)

find_below : (n y : ℕ) (f : ℕ → ℕ) → ((i : ℕ) × (i < n) × (f i ≡ y)) ⊎ ((i : ℕ) → i < n → f i ≢ y)
find_below zero y f = inr (λ i h. absurd (omega arith))
find_below (suc n) y f = elim (Bool-cases (f n == y)) [
  | inl here ↦ inl (n, le_refl _, ==→eq _ _ here)
  | inr other ↦ elim (find_below n y f) [
    | inl (i, p, e) ↦ inl (i, omega arith, e)
    | inr none_below ↦ inr (λ i h. elim (Bool-cases (i == n)) [
      | inl s ↦ λ e. ==→ne _ _ other (rw (← (==→eq i n s)) e)
      | inr s ↦ none_below i (let ne : i ≢ n = ==→ne i n s in omega arith)
    ])
  ]
]

pub surjective_below :
    (n : ℕ) (f : ℕ → ℕ)
    → ((i : ℕ) → i < n → f i < n)
    → InjectiveBelow n f
    → (y : ℕ) → y < n
    → (i : ℕ) × (i < n) × (f i ≡ y)
surjective_below zero f bound inj y h = absurd (omega arith)
surjective_below (suc n) f bound inj y h = elim (find_below (suc n) y f) [
  | inl found ↦ found
  | inr missed ↦ absurd (
      no_injection n (λ i. squeeze y (f i)) (λ i p. squeeze-lt n y (f i) (bound i p) h (missed i p))
        (λ i j p q e. inj i j p q (squeeze_injective y (f i) (f j) (missed i p) (missed j q) e)))
]
