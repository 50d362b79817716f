-- ===== src/GaloisSimd/Gfni/Packing.antt =====
-- The rows that a packed matrix holds are its bytes.
use par2rust.Base.{
  ℕ, zero, suc, ◌+◌, ◌-◌, ◌*◌, ◌/◌, ◌^◌, ◌<◌, ◌≡◌, refl, sym, ap, ◌∙◌, arith, bit_and, bit_or,
}
use native.Mathlib.Nat.{pow-suc, mul_assoc, div-div-eq-div-mul}
use par2rust.Base.Bits.{and_mask, or_fields}
use par2rust.GaloisSimd.Gfni.{or_rows}

pub pow_sum : (a k : ℕ) → 2 ^ (a + k) ≡ 2 ^ a * 2 ^ k
pow_sum a zero = let same : a + 0 ≡ a = omega arith in rw same (omega arith)
pow_sum a (suc k) =
    let up : a + suc k ≡ suc (a + k) = omega arith in
    rw (up, pow-suc 2 (a + k), pow-suc 2 k, pow_sum a k) (mul_assoc (2 ^ a) (2 ^ k) 2)

-- The first `n` rows, the first one highest.
packed : (ℕ → ℕ) → ℕ → ℕ
packed row zero = 0
packed row (suc n) = packed row n * 2 ^ 8 + row n

-- One more row below those that are packed.
next_row :
    (m h r acc : ℕ)
    → r < 2 ^ 8
    → r * 2 ^ m < 2 ^ (m + 8)
    → acc ≡ h * 2 ^ (m + 8)
    → bit_or acc (r * 2 ^ m) ≡ h * 2 ^ (m + 8) + r * 2 ^ m
next_row m h r acc s small e =
    ap (λ (t : ℕ). bit_or t (r * 2 ^ m)) e ∙ or_fields (m + 8) h (r * 2 ^ m) small

-- The rows are the bytes of the packed matrix.
module _ (row : ℕ → ℕ) (small : (i : ℕ) → row i < 2 ^ 8) where
  or_rows-eq : or_rows row 8 ≡ packed row 8
  unfolding or_rows packed
  or_rows-eq =
      let at = λ (i : ℕ). small i in
      let e0 : or_rows row 1 ≡ packed row 1 * 2 ^ 56 =
        next_row 56 0 (row 0) 0 (at 0) (let s = at 0 in omega arith) refl ∙ omega arith in
      let e1 : or_rows row 2 ≡ packed row 2 * 2 ^ 48 =
        next_row 48 (packed row 1) (row 1) (or_rows row 1) (at 1) (let s = at 1 in omega arith) e0
        ∙ omega arith in
      let e2 : or_rows row 3 ≡ packed row 3 * 2 ^ 40 =
        next_row 40 (packed row 2) (row 2) (or_rows row 2) (at 2) (let s = at 2 in omega arith) e1
        ∙ omega arith in
      let e3 : or_rows row 4 ≡ packed row 4 * 2 ^ 32 =
        next_row 32 (packed row 3) (row 3) (or_rows row 3) (at 3) (let s = at 3 in omega arith) e2
        ∙ omega arith in
      let e4 : or_rows row 5 ≡ packed row 5 * 2 ^ 24 =
        next_row 24 (packed row 4) (row 4) (or_rows row 4) (at 4) (let s = at 4 in omega arith) e3
        ∙ omega arith in
      let e5 : or_rows row 6 ≡ packed row 6 * 2 ^ 16 =
        next_row 16 (packed row 5) (row 5) (or_rows row 5) (at 5) (let s = at 5 in omega arith) e4
        ∙ omega arith in
      let e6 : or_rows row 7 ≡ packed row 7 * 2 ^ 8 =
        next_row 8 (packed row 6) (row 6) (or_rows row 6) (at 6) (let s = at 6 in omega arith) e5
        ∙ omega arith in
      let e7 : or_rows row 8 ≡ packed row 8 * 2 ^ 0 =
        next_row 0 (packed row 7) (row 7) (or_rows row 7) (at 7) (let s = at 7 in omega arith) e6
        ∙ omega arith in
      omega (arith, e7)

  packed_shift : (i k : ℕ) → packed row (suc (i + k)) / 2 ^ (k * 8) ≡ packed row (suc i)
  unfolding packed
  packed_shift i zero =
      let same : suc (i + 0) ≡ suc i = omega arith in
      ap (λ (t : ℕ). t / 1) (ap (packed row) same) ∙ omega arith
  packed_shift i (suc k) =
      let s = small (suc (i + k)) in
      let dropped : (packed row (suc (i + k)) * 2 ^ 8 + row (suc (i + k))) / 2 ^ 8
          ≡ packed row (suc (i + k)) =
        omega arith in
      let up : i + suc k ≡ suc (i + k) = omega arith in
      let one_more : suc k * 8 ≡ 8 + k * 8 = omega arith in
      let width : 2 ^ (suc k * 8) ≡ 2 ^ 8 * 2 ^ (k * 8) =
        ap (λ (t : ℕ). 2 ^ t) one_more ∙ pow_sum 8 (k * 8) in
      rw
        (up, width, sym (div-div-eq-div-mul (packed row (suc (suc (i + k)))) (2 ^ 8) (2 ^ (k * 8))))
        (ap (λ (t : ℕ). t / 2 ^ (k * 8)) dropped ∙ packed_shift i k)

  pub row_at : (i : ℕ) → i < 8 → bit_and (or_rows row 8 / 2 ^ ((7 - i) * 8)) 0xff ≡ row i
  unfolding packed
  row_at i h =
      let s = small i in
      let whole_index : 8 ≡ suc (i + (7 - i)) = omega arith in
      let whole : packed row 8 ≡ packed row (suc (i + (7 - i))) = ap (packed row) whole_index in
      rw (and_mask 8 (or_rows row 8 / 2 ^ ((7 - i) * 8)), or_rows-eq, whole, packed_shift i (7 - i))
        (omega arith)
