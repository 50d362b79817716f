-- ===== src/Galois/Field.antt =====
-- `gf_mul`, `gf_pow` and `gf_inv` are the operations of a field on the 16-bit symbols.
use par2rust.Base.{
  ℕ, zero, suc, ◌+◌, ◌-◌, ◌%◌, ◌^◌, ◌≤◌, ◌<◌, ◌≡◌, ◌≢◌, refl, sym, ap, ap₂, ◌∙◌, arith, leb,
  bit_xor, Bool-cases, if◌then◌else◌, ◌⊎◌, inl, inr,
}
use par2rust.Base.Bits.{xor-lt}
use par2rust.Galois.{gf_mul, gf16_tables, field_limit}
use par2rust.Galois.Powers.{
  times_alpha-nothing, times_alpha, times_alpha-lt, times_alpha-xor, times_alpha-zero,
  times_alpha-add, alpha_pow, alpha_pow-lt, alpha_pow-ne-zero, alpha_pow-zero, alpha_pow-turn,
  alpha_pow-mod, alpha_pow-add,
}
use par2rust.Galois.Tables.{antilog-eq-alpha_pow, log-alpha_pow, antilog-log, alpha_pow-log}

pub zero_or_pos : (x : ℕ) → (x ≡ 0) ⊎ (0 < x)
zero_or_pos zero = inl refl
zero_or_pos (suc x) = inr (omega arith)

pub gf_mul-zero_left : (b : ℕ) → gf_mul 0 b ≡ 0
unfolding gf_mul
gf_mul-zero_left b = refl

pub gf_mul-zero_right : (a : ℕ) → gf_mul a 0 ≡ 0
unfolding gf_mul
gf_mul-zero_right a = ground arith

-- The index is the sum of the logarithms, less a turn if it passes the order.
antilog_sum :
    (i j : ℕ)
    → i < field_limit
    → j < field_limit
    → gf16_tables.antilog (if leb field_limit (i + j) then i + j - field_limit else i + j)
      ≡ alpha_pow (i + j)
antilog_sum i j p q = elim (Bool-cases (leb field_limit (i + j))) [
  | inl e ↦ rw e (
      let le : field_limit ≤ i + j = ground arith in
      antilog-eq-alpha_pow (i + j - field_limit) (omega arith)
      ∙ sym (alpha_pow-turn (i + j - field_limit))
      ∙ ap alpha_pow (omega arith))
  | inr e ↦ rw e (antilog-eq-alpha_pow (i + j) (ground arith))
]

-- Multiplication by a non-zero symbol is `log` doublings.
pub gf_mul-eq-times_alpha :
    (a b : ℕ) → 0 < a → a < 2 ^ 16 → b < 2 ^ 16 → gf_mul a b ≡ times_alpha (gf16_tables.log a) b
gf_mul-eq-times_alpha a b p q r = elim (zero_or_pos b) [
  | inl e ↦ rw e (gf_mul-zero_right a ∙ sym (times_alpha-zero _))
  | inr pos ↦ nonzero pos
]
  where
    open_mul :
        0 < b
        → gf_mul a b
          ≡ gf16_tables.antilog (
              if leb field_limit (gf16_tables.log a + gf16_tables.log b)
              then gf16_tables.log a + gf16_tables.log b - field_limit
              else gf16_tables.log a + gf16_tables.log b)
    open_mul pos = unfold gf_mul in ground arith

    nonzero : 0 < b → gf_mul a b ≡ times_alpha (gf16_tables.log a) b
    nonzero pos =
        open_mul pos
        ∙ antilog_sum _ _ (antilog-log a p q).0 (antilog-log b pos r).0
        ∙ alpha_pow-add (gf16_tables.log a) (gf16_tables.log b)
        ∙ ap (times_alpha (gf16_tables.log a)) (alpha_pow-log b pos r)

pub gf_mul_comm : (a b : ℕ) → gf_mul a b ≡ gf_mul b a
unfolding gf_mul
gf_mul_comm a b = ground arith

pub gf_mul-lt : (a b : ℕ) → a < 2 ^ 16 → b < 2 ^ 16 → gf_mul a b < 2 ^ 16
gf_mul-lt a b p q = elim (zero_or_pos a) [
  | inl e ↦ rw (e, gf_mul-zero_left) (omega arith)
  | inr pos ↦ rw (gf_mul-eq-times_alpha a b pos p q) (times_alpha-lt _ b q)
]

-- Exponents count modulo the order.
pub times_alpha-mod : (i x : ℕ) → x < 2 ^ 16 → times_alpha (i % field_limit) x ≡ times_alpha i x
times_alpha-mod i x h = elim (zero_or_pos x) [
  | inl e ↦ rw e (times_alpha-zero _ ∙ sym (times_alpha-zero i))
  | inr pos ↦
      let l = gf16_tables.log x in
      ap (times_alpha (i % field_limit)) (sym (alpha_pow-log x pos h))
      ∙ sym (alpha_pow-add (i % field_limit) l)
      ∙ ap alpha_pow (omega arith)
      ∙ alpha_pow-add l (i % field_limit)
      ∙ ap (times_alpha l) (alpha_pow-mod i)
      ∙ sym (alpha_pow-add l i)
      ∙ ap alpha_pow (omega arith)
      ∙ alpha_pow-add i l
      ∙ ap (times_alpha i) (alpha_pow-log x pos h)
]

pub gf_mul-alpha_pow : (i x : ℕ) → x < 2 ^ 16 → gf_mul (alpha_pow i) x ≡ times_alpha i x
gf_mul-alpha_pow i x h =
    ap (λ (t : ℕ). gf_mul t x) (sym (alpha_pow-mod i))
    ∙ gf_mul-eq-times_alpha (alpha_pow j) x
        (let ne : alpha_pow j ≢ 0 = alpha_pow-ne-zero j in omega arith) (alpha_pow-lt j) h
    ∙ ap (λ (t : ℕ). times_alpha t x) (log-alpha_pow j (omega arith))
    ∙ times_alpha-mod i x h
  where
    j : ℕ
    j = i % field_limit

-- A symbol is 0 or a power of α.
pub symbol_cases : (x : ℕ) → x < 2 ^ 16 → (x ≡ 0) ⊎ ((i : ℕ) × (x ≡ alpha_pow i))
symbol_cases x h = elim (zero_or_pos x) [
  | inl e ↦ inl e
  | inr pos ↦ inr (gf16_tables.log x, sym (alpha_pow-log x pos h))
]

-- Multiplication of 16-bit symbols is associative.
pub gf_mul_assoc :
    (a b c : ℕ)
    → a < 2 ^ 16
    → b < 2 ^ 16
    → c < 2 ^ 16
    → gf_mul (gf_mul a b) c ≡ gf_mul a (gf_mul b c)
gf_mul_assoc a b c p q r = elim (symbol_cases a p) [
  | inl e ↦ rw (e, gf_mul-zero_left, gf_mul-zero_left, gf_mul-zero_left)
  | inr (i, e) ↦ elim (symbol_cases b q) [
    | inl f ↦ rw (f, gf_mul-zero_left, gf_mul-zero_right, gf_mul-zero_left)
    | inr (j, f) ↦
        rw (e, f)
          (ap (λ (t : ℕ). gf_mul t c)
              (gf_mul-alpha_pow i (alpha_pow j) (alpha_pow-lt j) ∙ sym (alpha_pow-add i j))
            ∙ gf_mul-alpha_pow (i + j) c r
            ∙ times_alpha-add i j c
            ∙ sym (gf_mul-alpha_pow i (times_alpha j c) (times_alpha-lt j c r))
            ∙ ap (gf_mul (alpha_pow i)) (sym (gf_mul-alpha_pow j c r)))
  ]
]

-- Multiplication by a 16-bit symbol takes the sum of two 16-bit symbols, their exclusive or, to the
-- sum of the products.
pub gf_mul-xor :
    (c x y : ℕ)
    → c < 2 ^ 16
    → x < 2 ^ 16
    → y < 2 ^ 16
    → gf_mul c (bit_xor x y) ≡ bit_xor (gf_mul c x) (gf_mul c y)
gf_mul-xor c x y p q r = elim (symbol_cases c p) [
  | inl e ↦ rw (e, gf_mul-zero_left, gf_mul-zero_left, gf_mul-zero_left)
  | inr (i, e) ↦
      rw
        (
          e,
          gf_mul-alpha_pow i _ (xor-lt 16 x y q r),
          gf_mul-alpha_pow i x q,
          gf_mul-alpha_pow i y r,
        )
        (times_alpha-xor i x y q r)
]

pub one-gf_mul : (x : ℕ) → x < 2 ^ 16 → gf_mul 1 x ≡ x
one-gf_mul x h =
    ap (λ (t : ℕ). gf_mul t x) (sym alpha_pow-zero) ∙ gf_mul-alpha_pow 0 x h ∙ times_alpha-nothing x

-- A product of 16-bit symbols is 0 only where a factor is 0.
pub gf_mul-eq-zero : (a b : ℕ) → a < 2 ^ 16 → b < 2 ^ 16 → gf_mul a b ≡ 0 → (a ≡ 0) ⊎ (b ≡ 0)
gf_mul-eq-zero a b p q h = elim (symbol_cases a p) [
  | inl e ↦ inl e
  | inr (i, e) ↦ elim (symbol_cases b q) [
    | inl f ↦ inr f
    | inr (j, f) ↦ absurd (
        alpha_pow-ne-zero (i + j) (
          alpha_pow-add i j
          ∙ sym (gf_mul-alpha_pow i (alpha_pow j) (alpha_pow-lt j))
          ∙ ap₂ gf_mul (sym e) (sym f)
          ∙ h))
  ]
]
