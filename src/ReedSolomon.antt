-- ===== src/ReedSolomon.antt =====
-- src/reedsolomon.rs: the encoding context. A matrix coefficient is a base, one for each input block,
-- to the power of an exponent, one for each recovery block.
pub mod Gcd
pub mod Bases
pub mod Order
pub mod Matrix
pub mod Scalar
use par2rust.Base.{
  ℕ, zero, suc, ◌+◌, ◌-◌, ◌*◌, ◌/◌, ◌%◌, ◌^◌, List, [], ◌∷◌, ◌++◌, Option, none, some, leb, ◌==◌,
  if◌then◌else◌, length, get_elem?, bit_or, true, false,
}
use par2rust.Base.Checked.{Checked, ◌>>=◌, ◌>>◌, assert}
use par2rust.Buffer.{same_shape, xor_pairs, xor_bytes}
use par2rust.Galois.{gf16_tables, gf_pow, field_limit}

-- `gcd(b, a % b)` until `b` is 0, on fuel; `gcd` gives enough of it.
gcd_on : ℕ → ℕ → ℕ → ℕ
gcd_on zero a b = a
gcd_on (suc fuel) a b = elim (b == 0) [ true ↦ a | false ↦ gcd_on fuel b (a % b) ]

unfoldable pub gcd : ℕ → ℕ → ℕ
unfolding gcd_on
gcd a b = gcd_on (suc b) a b

-- The loop of `generate_input_bases` from `logbase` on, which is `left` below the limit.
bases_loop : ℕ → ℕ → ℕ → List ℕ → Checked (List ℕ)
bases_loop count zero logbase bases = if leb count (length bases) then some bases else none
bases_loop count (suc left) logbase bases =
    let bases' =
      if gcd field_limit logbase == 1 then bases ++ gf16_tables.antilog logbase ∷ [] else bases in
    let rest = bases_loop count left (logbase + 1) bases' in
    if leb count (length bases) then some bases else rest

unfoldable pub generate_input_bases : ℕ → Checked (List ℕ)
unfolding bases_loop
generate_input_bases count = bases_loop count field_limit 0 []

pub record RsEncoder : Type 0 where
  pub input_bases : List ℕ
  pub recovery_exponents : List ℕ

-- `first_exponent + r` for the rows from `r` on, as u16
unfoldable pub exponents_from : ℕ → ℕ → ℕ → Checked (List ℕ)
exponents_from first zero r = some []
exponents_from first (suc n) r = do
  let e = (first + r) % 2 ^ 32
  assert (leb e (2 ^ 16 - 1))
  rest ← exponents_from first n (r + 1)
  some (e % 2 ^ 16 ∷ rest)

unfoldable pub new : ℕ → ℕ → ℕ → Checked RsEncoder
unfolding exponents_from
new input_count first_exponent recovery_count = do
  input_bases ← generate_input_bases input_count
  recovery_exponents ← exponents_from first_exponent recovery_count 0
  some (record { input_bases = input_bases; recovery_exponents = recovery_exponents })

-- An index out of range panics.
unfoldable pub coefficient : RsEncoder → ℕ → ℕ → Checked ℕ
coefficient rs recovery_idx input_idx = do
  base ← get_elem? rs.input_bases input_idx
  exp ← get_elem? rs.recovery_exponents recovery_idx
  some (gf_pow base exp)

-- The product of the symbol with bytes `i_lo` and `i_hi`, given the logarithm of the coefficient.
unfoldable pub scalar_product : ℕ → ℕ → ℕ → ℕ
scalar_product log_coeff i_lo i_hi =
    let sym = bit_or i_lo (i_hi * 2 ^ 8) in
    if sym == 0
    then 0
    else let sum = log_coeff + gf16_tables.log sym in
      let idx = if leb field_limit sum then sum - field_limit else sum in gf16_tables.antilog idx

unfoldable pub gf_mul_xor_scalar : ℕ → List ℕ → List ℕ → Checked (List ℕ)
gf_mul_xor_scalar coeff input output = do
  assert (same_shape input output)
  some (
      if coeff == 0
      then output
      else if coeff == 1
      then xor_bytes input output
      else let log_coeff = gf16_tables.log coeff in
        xor_pairs
          (λ i_lo i_hi.
            let product = scalar_product log_coeff i_lo i_hi in
            (product % 2 ^ 8, product / 2 ^ 8 % 2 ^ 8))
          input output)

unfoldable pub accumulate : RsEncoder → ℕ → ℕ → List ℕ → List ℕ → Checked (List ℕ)
accumulate rs recovery_idx input_idx input output = do
  assert (length input == length output)
  assert (length input % 2 == 0)
  coeff ← coefficient rs recovery_idx input_idx
  gf_mul_xor_scalar coeff input output
