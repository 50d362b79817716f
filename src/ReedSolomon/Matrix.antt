-- ===== src/ReedSolomon/Matrix.antt =====
-- `RsEncoder::new` and its coefficients: in range no index and no assertion fails, and the entries of
-- one column differ from row to row.
use par2rust.Base.{
  ℕ, zero, suc, ◌+◌, ◌-◌, ◌*◌, ◌%◌, ◌^◌, ◌≤◌, ◌<◌, ◌≡◌, ◌≢◌, refl, sym, ap, ◌∙◌, arith, List, [],
  ◌∷◌, length, get_elem?, All, All-get_elem?, Distinct, some, leb, inl, inr, true,
}
use mathlib.Core.Option.{some-injective}
use par2rust.Galois.{gf16_tables, gf_pow, field_limit}
use par2rust.Galois.Powers.{
  compare_cases, times_alpha_injective, alpha_pow, alpha_pow-lt, alpha_pow-ne-zero, alpha_pow-add,
  times_alpha-one,
}
use par2rust.Galois.Repeated.{gf_pow-eq-alpha_pow}
use par2rust.ReedSolomon.{RsEncoder, exponents_from, new, coefficient}
use par2rust.ReedSolomon.Order.{HasFullOrder, generate_input_bases-HasFullOrder}

-- The exponents from `first + r` on.
abbrev pub count_from : ℕ → ℕ → List ℕ
count_from first zero = []
count_from first (suc n) = first ∷ count_from (first + 1) n

exponents_from-eq :
    (first n r : ℕ)
    → first + (r + n) ≤ 2 ^ 16
    → exponents_from first n r ≡ some (count_from (first + r) n)
unfolding exponents_from
exponents_from-eq first zero r h = refl
exponents_from-eq first (suc n) r h =
    let fits : leb ((first + r) % 2 ^ 32) (2 ^ 16 - 1) ≡ true = ground arith in
    let kept : (first + r) % 2 ^ 32 % 2 ^ 16 ≡ first + r = omega arith in
    let next : first + (r + 1) ≡ first + r + 1 = omega arith in
    rw (fits, exponents_from-eq first n (r + 1) (omega arith), next, kept)

-- What `new` gives for `n` input blocks and `m` recovery blocks from exponent `first` on.
pub record IsEncoder (n first m : ℕ) (rs : RsEncoder) : Type 0 where
  pub size : length rs.input_bases ≡ n
  pub distinct : Distinct rs.input_bases
  pub orders : All HasFullOrder rs.input_bases
  pub exponents : rs.recovery_exponents ≡ count_from first m

-- For at most 32768 input blocks, and recovery exponents that stay below 65536, `new` returns an
-- encoder: as many bases as input blocks, pairwise different and of full order, and the exponents
-- from the first on, one for each recovery block.
pub new-IsEncoder :
    (n first m : ℕ)
    → n ≤ 32768
    → first + m ≤ 2 ^ 16
    → (rs : RsEncoder) × (new n first m ≡ some rs) × IsEncoder n first m rs
unfolding new
new-IsEncoder n first m p q =
    let (bases, e, size, distinct, orders) = generate_input_bases-HasFullOrder n p in
    (
      record { input_bases = bases; recovery_exponents = count_from first m },
      rw (e, exponents_from-eq first m 0 (omega arith))
          (ap
            (λ (k : ℕ). some (record { input_bases = bases; recovery_exponents = count_from k m }))
            (omega arith)),
      record { size = size; distinct = distinct; orders = orders; exponents = refl },
    )

pub get_elem?-count_from :
    (m first r : ℕ) → r < m → get_elem? (count_from first m) r ≡ some (first + r)
get_elem?-count_from zero first r h = absurd (omega arith)
get_elem?-count_from (suc m) first zero h = ap some (omega arith)
get_elem?-count_from (suc m) first (suc r) h =
    get_elem?-count_from m (first + 1) r (omega arith) ∙ ap some (omega arith)

-- In range, an index finds its element.
pub get_elem?-some {ℓ} :
    {A : Type ℓ} (xs : List A) (i : ℕ) → i < length xs → (x : A) × (get_elem? xs i ≡ some x)
get_elem?-some [] i h = absurd (omega arith)
get_elem?-some (x ∷ xs) zero h = (x, refl)
get_elem?-some (x ∷ xs) (suc i) h = get_elem?-some xs i (omega arith)

gf_pow_by_log :
    (b e : ℕ) → HasFullOrder b → e < field_limit → gf_pow b e ≡ alpha_pow (gf16_tables.log b * e)
gf_pow_by_log b e h p = gf_pow-eq-alpha_pow b e h.positive h.fits (omega arith)

power_apart :
    (b e d : ℕ) → HasFullOrder b → 0 < d → e + d < field_limit → gf_pow b (e + d) ≢ gf_pow b e
power_apart b e d h pos below s = h.order d pos (omega arith) (
    gf_pow_by_log b d h (omega arith)
    ∙ times_alpha_injective (l * e) (alpha_pow (l * d)) 1 (alpha_pow-lt (l * d)) (omega arith) (
        sym (alpha_pow-add (l * e) (l * d))
        ∙ ap alpha_pow (omega arith)
        ∙ sym (gf_pow_by_log b (e + d) h (omega arith))
        ∙ s
        ∙ gf_pow_by_log b e h (omega arith)
        ∙ sym (times_alpha-one (l * e))))
  where
    l : ℕ
    l = gf16_tables.log b

pub gf_pow_injective :
    (b e f : ℕ)
    → HasFullOrder b
    → e < field_limit
    → f < field_limit
    → gf_pow b e ≡ gf_pow b f
    → e ≡ f
gf_pow_injective b e f h p q s = elim (compare_cases e f) [
  | inl t ↦ t
  | inr (inl (d, pos, t)) ↦ absurd (power_apart b e d h pos (omega arith) (ap (gf_pow b) t ∙ sym s))
  | inr (inr (d, pos, t)) ↦ absurd (power_apart b f d h pos (omega arith) (ap (gf_pow b) t ∙ s))
]

pub gf_pow-ne-zero : (b e : ℕ) → HasFullOrder b → e < field_limit → gf_pow b e ≢ 0
gf_pow-ne-zero b e h p s = alpha_pow-ne-zero _ (sym (gf_pow_by_log b e h p) ∙ s)

-- In an encoder whose exponents stay below 65535, the coefficient at a row and a column in range is
-- the base of the column, an element of full order, to the power of the first exponent plus the row.
-- It is not 0.
pub coefficient-eq-gf_pow :
    (n first m : ℕ) (rs : RsEncoder)
    → IsEncoder n first m rs
    → first + m ≤ field_limit
    → (r i : ℕ) → r < m
    → i < n
    → (b : ℕ) × (get_elem? rs.input_bases i ≡ some b)
      × HasFullOrder b
      × (coefficient rs r i ≡ some (gf_pow b (first + r)))
      × (gf_pow b (first + r) ≢ 0)
unfolding coefficient
coefficient-eq-gf_pow n first m rs h le r i hr hi =
    let (b, e) = get_elem?-some rs.input_bases i (omega (arith, h.size)) in
    (
      b,
      e,
      All-get_elem? HasFullOrder rs.input_bases i b h.orders e,
      rw (e, h.exponents, get_elem?-count_from m first r hr),
      gf_pow-ne-zero b (first + r) (All-get_elem? HasFullOrder rs.input_bases i b h.orders e)
          (omega arith),
    )

-- In an encoder whose exponents stay below 65535, two rows in range with the same coefficient in one
-- column in range are the same row.
pub coefficient_injective :
    (n first m : ℕ) (rs : RsEncoder)
    → IsEncoder n first m rs
    → first + m ≤ field_limit
    → (r s i : ℕ) → r < m
    → s < m
    → i < n
    → coefficient rs r i ≡ coefficient rs s i
    → r ≡ s
coefficient_injective n first m rs h le r s i hr hs hi e =
    let (b, eb, full, er, _) = coefficient-eq-gf_pow n first m rs h le r i hr hi in
    let (c, ec, other, es, _) = coefficient-eq-gf_pow n first m rs h le s i hs hi in
    let same : b ≡ c = some-injective b c (sym eb ∙ ec) in
    let powers : gf_pow b (first + r) ≡ gf_pow b (first + s) =
      some-injective _ _
        (sym er ∙ e ∙ es ∙ ap (λ (t : ℕ). some (gf_pow t (first + s))) (sym same)) in
    omega
      (arith, gf_pow_injective b (first + r) (first + s) full (omega arith) (omega arith) powers)

pub gf_pow-lt : (b e : ℕ) → HasFullOrder b → e < field_limit → gf_pow b e < 2 ^ 16
gf_pow-lt b e h p = rw (gf_pow_by_log b e h p) (alpha_pow-lt (gf16_tables.log b * e))
