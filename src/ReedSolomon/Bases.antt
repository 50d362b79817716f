-- ===== src/ReedSolomon/Bases.antt =====
-- `generate_input_bases`: the bases are the powers of α at the logarithms coprime to the limit, in
-- order. There are 32768 such logarithms, so that many bases can be had and no more.
use par2rust.Base.{
  ℕ, zero, suc, ◌+◌, ◌≤◌, ◌<◌, ◌≡◌, refl, sym, ap, ◌∙◌, subst, arith, ◌==◌, ==→eq, Bool-cases, leb,
  leb→le, if◌then◌else◌, false, inl, inr, List, [], ◌∷◌, ◌++◌, map, length, length-append,
  length-map, All, All-append, All-mono, Distinct, Distinct-push, Option, some, none,
}
use mathlib.Core.List.{map-append}
use native.Mathlib.Nat.{le_refl, le_trans}
use par2rust.Galois.{gf16_tables, field_limit}
use par2rust.Galois.Powers.{alpha_pow}
use par2rust.Galois.Tables.{antilog-eq-alpha_pow}
use par2rust.ReedSolomon.{gcd, generate_input_bases, bases_loop}

-- The logarithms below `n` that are coprime to the limit.
pub coprimes : ℕ → List ℕ
coprimes zero = []
coprimes (suc l) = if gcd field_limit l == 1 then coprimes l ++ l ∷ [] else coprimes l

abbrev pub IsCoprime : ℕ → ℕ → Type 0
IsCoprime n l = (l < n) × (gcd field_limit l ≡ 1)

count_coprime : ℕ → ℕ
count_coprime zero = 0
count_coprime (suc l) = (if gcd field_limit l == 1 then 1 else 0) + count_coprime l

totient : count_coprime field_limit ≡ 32768
unfolding count_coprime gcd
totient = refl

length-coprimes : (n : ℕ) → length (coprimes n) ≡ count_coprime n
unfolding coprimes count_coprime
length-coprimes zero = refl
length-coprimes (suc n) = elim (Bool-cases (gcd field_limit n == 1)) [
  | inl e ↦ rw e (omega (arith, length-append (coprimes n) (n ∷ []), length-coprimes n))
  | inr e ↦ rw e (omega (arith, length-coprimes n))
]

abbrev pub bases_below : ℕ → List ℕ
bases_below n = map alpha_pow (coprimes n)

-- One round of the loop takes the bases below `l` to those below `l + 1`.
bases_below-suc :
    (l : ℕ)
    → l < field_limit
    → (if gcd field_limit l == 1
        then bases_below l ++ gf16_tables.antilog l ∷ []
        else bases_below l)
      ≡ bases_below (suc l)
unfolding coprimes
bases_below-suc l h = elim (Bool-cases (gcd field_limit l == 1)) [
  | inl e ↦ rw (e, antilog-eq-alpha_pow l h) (sym (map-append alpha_pow (coprimes l) (l ∷ [])))
  | inr e ↦ rw e
]

abbrev pub Generated : ℕ → Option (List ℕ) → Type 0
Generated count result =
    (n : ℕ) × (n ≤ field_limit) × (length (coprimes n) ≡ count) × (result ≡ some (bases_below n))

-- The test of the loop: with bases enough it stops, else the rest decides.
stop-Generated :
    (count l : ℕ) (rest : Option (List ℕ))
    → l ≤ field_limit
    → length (coprimes l) ≤ count
    → (length (coprimes l) < count → Generated count rest)
    → Generated count (if leb count (length (bases_below l)) then some (bases_below l) else rest)
stop-Generated count l rest below h more = elim (Bool-cases (leb count (length (bases_below l)))) [
  | inl e ↦ (l, below, omega (arith, leb→le _ _ e, length-map (coprimes l) alpha_pow), rw e)
  | inr e ↦ rw e (more (ground (arith, length-map (coprimes l) alpha_pow)))
]

length-coprimes-suc : (n : ℕ) → length (coprimes (suc n)) ≤ suc (length (coprimes n))
unfolding count_coprime
length-coprimes-suc n = ground (arith, length-coprimes (suc n), length-coprimes n)

length-coprimes-le_suc : (n : ℕ) → length (coprimes n) ≤ length (coprimes (suc n))
unfolding count_coprime
length-coprimes-le_suc n = ground (arith, length-coprimes (suc n), length-coprimes n)

bases_loop-Generated :
    (count left l : ℕ)
    → l + left ≡ field_limit
    → count ≤ 32768
    → length (coprimes l) ≤ count
    → Generated count (bases_loop count left l (bases_below l))
unfolding bases_loop
bases_loop-Generated count zero l e few h =
    stop-Generated count l none (omega arith) h λ short. absurd (omega (arith, short, all_there))
  where
    all_there : length (coprimes l) ≡ 32768
    all_there =
        ap (λ (n : ℕ). length (coprimes n)) (let f : l ≡ field_limit = omega arith in f)
        ∙ length-coprimes field_limit
        ∙ totient
bases_loop-Generated count (suc left) l e few h = stop-Generated count l _ (omega arith) h λ short.
    subst (λ (t : List ℕ). Generated count (bases_loop count left (l + 1) t))
      (sym (bases_below-suc l (omega arith)))
      (let s : l + 1 ≡ suc l = omega arith in
        rw s (
          bases_loop-Generated count left (suc l) (omega arith) few
            (omega (arith, short, length-coprimes-suc l))))

pub generate_input_bases-Generated :
    (count : ℕ) → count ≤ 32768 → Generated count (generate_input_bases count)
unfolding generate_input_bases coprimes
generate_input_bases-Generated count h =
    bases_loop-Generated count field_limit 0 (omega arith) h (omega arith)

length-coprimes_mono : (left l : ℕ) → length (coprimes l) ≤ length (coprimes (l + left))
length-coprimes_mono zero l = let e : l + 0 ≡ l = omega arith in rw e (le_refl _)
length-coprimes_mono (suc left) l =
    let e : l + suc left ≡ suc l + left = omega arith in
    rw e (le_trans (length-coprimes-le_suc l) (length-coprimes_mono left (suc l)))

goes_on :
    (count left l : ℕ)
    → l + left ≡ field_limit
    → 32768 < count
    → leb count (length (bases_below l)) ≡ false
goes_on count left l e many = ground (
  arith,
  length-map (coprimes l) alpha_pow,
  length-coprimes_mono left l,
  ap (λ (n : ℕ). length (coprimes n)) e,
  length-coprimes field_limit,
  totient,
)

-- Asked for more, the loop runs out of logarithms.
bases_loop-none :
    (count left l : ℕ)
    → l + left ≡ field_limit
    → 32768 < count
    → bases_loop count left l (bases_below l) ≡ none
unfolding bases_loop
bases_loop-none count zero l e many = rw (goes_on count zero l e many)
bases_loop-none count (suc left) l e many = rw (goes_on count (suc left) l e many) (
    subst (λ (t : List ℕ). bases_loop count left (l + 1) t ≡ none)
      (sym (bases_below-suc l (omega arith)))
      (let s : l + 1 ≡ suc l = omega arith in
        rw s (bases_loop-none count left (suc l) (omega arith) many)))

-- For a count above 32768 `generate_input_bases` does not return: it reaches its assertion.
pub generate_input_bases-none : (count : ℕ) → 32768 < count → generate_input_bases count ≡ none
unfolding generate_input_bases coprimes
generate_input_bases-none count h = bases_loop-none count field_limit 0 (omega arith) h

pub coprimes-IsCoprime : (n : ℕ) → All (IsCoprime n) (coprimes n)
unfolding coprimes
coprimes-IsCoprime zero = tt
coprimes-IsCoprime (suc n) = elim (Bool-cases (gcd field_limit n == 1)) [
  | inl e ↦ rw e (
      All-append (IsCoprime (suc n)) (coprimes n) (n ∷ [])
        (All-mono (IsCoprime n) _ (λ x h. (omega (arith, h.0), h.1)) (coprimes n)
          (coprimes-IsCoprime n))
        ((omega arith, ==→eq _ _ e), tt))
  | inr e ↦ rw e (
      All-mono (IsCoprime n) _ (λ x h. (omega (arith, h.0), h.1)) (coprimes n)
        (coprimes-IsCoprime n))
]

pub coprimes-Distinct : (n : ℕ) → Distinct (coprimes n)
unfolding coprimes
coprimes-Distinct zero = tt
coprimes-Distinct (suc n) = elim (Bool-cases (gcd field_limit n == 1)) [
  | inl e ↦ rw e (
      Distinct-push (coprimes n) n (coprimes-Distinct n) (
        All-mono (IsCoprime n) _ (λ x h. (let l : x < n = h.0 in λ s. omega (arith, l, s)))
          (coprimes n) (coprimes-IsCoprime n)))
  | inr e ↦ rw e (coprimes-Distinct n)
]
