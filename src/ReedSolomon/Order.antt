-- ===== src/ReedSolomon/Order.antt =====
-- Each base has full multiplicative order, so its powers stay distinct over the range of exponents.
use par2rust.Base.{
  ℕ, ◌+◌, ◌*◌, ◌^◌, ◌≤◌, ◌<◌, ◌≡◌, ◌≢◌, sym, ap, ◌∙◌, subst, arith, List, [], ◌∷◌, map, length,
  length-map, All, Distinct, some,
}
use par2rust.Galois.{gf_pow, field_limit}
use par2rust.Galois.Powers.{
  times_alpha, times_alpha-one, alpha_pow, alpha_pow-lt, alpha_pow-zero, alpha_pow-ne-zero,
  alpha_pow-add, alpha_pow-turns, alpha_pow_injective,
}
use par2rust.Galois.Tables.{log-alpha_pow}
use par2rust.Galois.Repeated.{gf_pow-eq-alpha_pow}
use par2rust.ReedSolomon.{gcd, generate_input_bases}
use par2rust.ReedSolomon.Gcd.{gcd_closed}
use par2rust.ReedSolomon.Bases.{
  coprimes, IsCoprime, bases_below, generate_input_bases-Generated, coprimes-IsCoprime,
  coprimes-Distinct,
}

-- α^x, multiplied up `d` times, is 1.
abbrev Returns : ℕ → ℕ → Type 0
Returns d x = alpha_pow (x * d) ≡ 1

Returns-less : (d i j : ℕ) → Returns d (i + j) → Returns d j → Returns d i
Returns-less d i j h k =
    sym (times_alpha-one (i * d))
    ∙ ap (times_alpha (i * d)) (sym k)
    ∙ sym (alpha_pow-add (i * d) (j * d))
    ∙ ap alpha_pow (omega arith)
    ∙ h

Returns-limit : (d : ℕ) → Returns d field_limit
Returns-limit d = ap alpha_pow (omega arith) ∙ alpha_pow-turns d 0 ∙ alpha_pow-zero

-- A coprime logarithm does not return before a whole turn.
coprime-order : (l d : ℕ) → gcd field_limit l ≡ 1 → 0 < d → d < field_limit → alpha_pow (l * d) ≢ 1
coprime-order l d coprime pos below h = omega (arith, pos, d_zero)
  where
    one_returns : Returns d 1
    one_returns =
        subst (Returns d) coprime
          (gcd_closed (Returns d) (Returns-less d) field_limit l (Returns-limit d) h)

    d_zero : d ≡ 0
    d_zero =
        alpha_pow_injective d 0 below (omega arith)
          (ap alpha_pow (omega arith) ∙ one_returns ∙ sym alpha_pow-zero)

pub record HasFullOrder (b : ℕ) : Type 0 where
  pub positive : 0 < b
  pub fits : b < 2 ^ 16
  pub order : (d : ℕ) → 0 < d → d < field_limit → gf_pow b d ≢ 1

gf_pow-power : (l e : ℕ) → l < field_limit → e < 2 ^ 32 → gf_pow (alpha_pow l) e ≡ alpha_pow (l * e)
gf_pow-power l e p q =
    gf_pow-eq-alpha_pow (alpha_pow l) e (omega (arith, alpha_pow-ne-zero l)) (alpha_pow-lt l) q
    ∙ ap (λ (t : ℕ). alpha_pow (t * e)) (log-alpha_pow l p)

IsCoprime-HasFullOrder : (n l : ℕ) → n ≤ field_limit → IsCoprime n l → HasFullOrder (alpha_pow l)
IsCoprime-HasFullOrder n l le h = record {
  positive = omega (arith, alpha_pow-ne-zero l);
  fits = alpha_pow-lt l;
  order = λ d pos below e.
      coprime-order l d h.1 pos below
        (sym (gf_pow-power l d (omega (arith, h.0)) (omega arith)) ∙ e);
}

All-bases :
    (n : ℕ) (ls : List ℕ)
    → n ≤ field_limit
    → All (IsCoprime n) ls
    → All HasFullOrder (map alpha_pow ls)
All-bases n [] le h = tt
All-bases n (l ∷ ls) le h = (IsCoprime-HasFullOrder n l le h.0, All-bases n ls le h.1)

apart_below :
    (n l : ℕ) (ls : List ℕ)
    → n ≤ field_limit
    → l < n
    → All (IsCoprime n) ls
    → All (λ k. l ≢ k) ls
    → All (λ c. alpha_pow l ≢ c) (map alpha_pow ls)
apart_below n l [] le lt h d = tt
apart_below n l (k ∷ ls) le lt h d = (
  (let below : k < n = h.0.0 in λ e. d.0 (alpha_pow_injective l k (omega arith) (omega arith) e)),
  apart_below n l ls le lt h.1 d.1,
)

Distinct-bases :
    (n : ℕ) (ls : List ℕ)
    → n ≤ field_limit
    → All (IsCoprime n) ls
    → Distinct ls
    → Distinct (map alpha_pow ls)
Distinct-bases n [] le h d = tt
Distinct-bases n (l ∷ ls) le h d =
    (apart_below n l ls le h.0.0 h.1 d.0, Distinct-bases n ls le h.1 d.1)

-- For a count of at most 32768 `generate_input_bases` returns that many bases. They are pairwise
-- different, and no positive power of one below the 65535th is 1.
pub generate_input_bases-HasFullOrder :
    (count : ℕ)
    → count ≤ 32768
    → (bases : List ℕ) × (generate_input_bases count ≡ some bases)
      × (length bases ≡ count)
      × Distinct bases
      × All HasFullOrder bases
generate_input_bases-HasFullOrder count h =
    let (n, le, size, e) = generate_input_bases-Generated count h in
    (
      bases_below n,
      e,
      length-map (coprimes n) alpha_pow ∙ size,
      Distinct-bases n (coprimes n) le (coprimes-IsCoprime n) (coprimes-Distinct n),
      All-bases n (coprimes n) le (coprimes-IsCoprime n),
    )
