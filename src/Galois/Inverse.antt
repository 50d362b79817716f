-- ===== src/Galois/Inverse.antt =====
-- `gf_inv` is the multiplicative inverse, and is defined on every symbol but 0.
use par2rust.Galois.Field.{
  gf_mul_comm, gf_mul_assoc, gf_mul-xor, gf_mul-eq-zero, gf_mul-zero_right, one-gf_mul,
}
use par2rust.Base.{bit_xor, ◌↔◌, inl, inr}
use par2rust.Base.{ℕ, ◌-◌, ◌+◌, ◌%◌, ◌^◌, ◌<◌, ◌≡◌, sym, ap, ◌∙◌, arith, some}
use par2rust.Galois.{gf_mul, gf_inv, gf16_tables, field_limit}
use par2rust.Galois.Powers.{
  alpha_pow, alpha_pow-lt, alpha_pow-zero, alpha_pow-mod, alpha_pow-add, alpha_pow-turn,
}
use par2rust.Galois.Tables.{antilog-eq-alpha_pow, antilog-log, alpha_pow-log}
use par2rust.Galois.Field.{gf_mul-alpha_pow}

abbrev inverse_log : ℕ → ℕ
inverse_log a = (field_limit - gf16_tables.log a) % field_limit

gf_inv-some : (a : ℕ) → 0 < a → gf_inv a ≡ some (gf16_tables.antilog (inverse_log a))
unfolding gf_inv
gf_inv-some a h = ground arith

-- The two exponents add up to a whole turn.
turn : (l : ℕ) → l < field_limit → alpha_pow (l + (field_limit - l)) ≡ 1
turn l h = ap alpha_pow (omega arith) ∙ alpha_pow-turn 0 ∙ alpha_pow-zero

-- Every non-zero 16-bit symbol has an inverse: `gf_inv` returns a 16-bit symbol whose product with
-- it is 1.
pub gf_mul-gf_inv :
    (a : ℕ) → 0 < a → a < 2 ^ 16 → (b : ℕ) × (gf_inv a ≡ some b) × (b < 2 ^ 16) × (gf_mul a b ≡ 1)
gf_mul-gf_inv a p q = (
  gf16_tables.antilog (inverse_log a),
  gf_inv-some a p,
  rw back (alpha_pow-lt _),
  rw back product,
)
  where
    l : ℕ
    l = gf16_tables.log a

    back : gf16_tables.antilog (inverse_log a) ≡ alpha_pow (field_limit - l)
    back = antilog-eq-alpha_pow (inverse_log a) (omega arith) ∙ alpha_pow-mod (field_limit - l)

    product : gf_mul a (alpha_pow (field_limit - l)) ≡ 1
    product =
        ap (λ (t : ℕ). gf_mul t (alpha_pow (field_limit - l))) (sym (alpha_pow-log a p q))
        ∙ gf_mul-alpha_pow l _ (alpha_pow-lt (field_limit - l))
        ∙ sym (alpha_pow-add l (field_limit - l))
        ∙ turn l (antilog-log a p q).0

-- For 16-bit symbols `a`, `b` and `c` of which `a` is not 0: the product is commutative and associative and
-- distributes over `^`, 1 is neutral, `a` times `b` is 0 exactly when `b` is, and `gf_inv` returns a 16-bit
-- symbol whose product with `a` is 1.
pub gf_mul_field :
    (a b c : ℕ)
    → 0 < a
    → a < 2 ^ 16
    → b < 2 ^ 16
    → c < 2 ^ 16
    → (gf_mul a b ≡ gf_mul b a)
      × (gf_mul (gf_mul a b) c ≡ gf_mul a (gf_mul b c))
      × (gf_mul a (bit_xor b c) ≡ bit_xor (gf_mul a b) (gf_mul a c))
      × (gf_mul 1 b ≡ b)
      × ((gf_mul a b ≡ 0) ↔ (b ≡ 0))
      × ((i : ℕ) × (gf_inv a ≡ some i) × (i < 2 ^ 16) × (gf_mul a i ≡ 1))
gf_mul_field a b c pos p q r = (
  gf_mul_comm a b,
  gf_mul_assoc a b c p q r,
  gf_mul-xor a b c p q r,
  one-gf_mul b q,
  (
    λ e. elim (gf_mul-eq-zero a b p q e) [ inl z ↦ absurd (omega arith) | inr z ↦ z ],
    λ z. ap (gf_mul a) z ∙ gf_mul-zero_right a,
  ),
  gf_mul-gf_inv a pos p,
)
