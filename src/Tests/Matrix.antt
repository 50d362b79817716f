-- ===== src/Tests/Matrix.antt =====
-- The matrix, the kernels and the pass over the slices at concrete sizes.
use par2rust.Base.{ℕ, ◌≡◌, refl, arith, List, [], ◌∷◌, length, replicate, All, Distinct, none, some}
use par2rust.Buffer.{symbols}
use par2rust.Buffer.Symbols.{IsCall}
use par2rust.ReedSolomon.{RsEncoder, generate_input_bases, new}
use par2rust.ReedSolomon.Bases.{generate_input_bases-none}
use par2rust.ReedSolomon.Order.{HasFullOrder, generate_input_bases-HasFullOrder}
use par2rust.ReedSolomon.Matrix.{IsEncoder, new-IsEncoder, coefficient_injective}
use par2rust.Encode.{encode_all_recovery_blocks}
use par2rust.Encode.Kernels.{table_kernel}
use par2rust.Encode.Recovery.{
  IsBuffer, combination, HoldsRows, encode_all_recovery_blocks-HoldsRows,
}

generate_input_bases-HasFullOrder_example :
    (bases : List ℕ) × (generate_input_bases 100 ≡ some bases)
    × (length bases ≡ 100)
    × Distinct bases
    × All HasFullOrder bases
generate_input_bases-HasFullOrder_example = generate_input_bases-HasFullOrder 100 (omega arith)

generate_input_bases-none_example : generate_input_bases 32769 ≡ none
generate_input_bases-none_example = generate_input_bases-none 32769 (omega arith)

small_matrix : (rs : RsEncoder) × (new 3 7 5 ≡ some rs) × IsEncoder 3 7 5 rs
small_matrix = new-IsEncoder 3 7 5 (omega arith) (omega arith)

abbrev encoder : RsEncoder
encoder = small_matrix.0

coefficient_injective_example : ◌≡◌ {A = ℕ} 4 4
coefficient_injective_example =
    coefficient_injective 3 7 5 encoder small_matrix.2 (omega arith) 4 4 2 (omega arith)
      (omega arith) (omega arith) refl

abbrev pub input : List ℕ
input = 1 ∷ 0x80 ∷ 3 ∷ 4 ∷ []

abbrev pub output : List ℕ
output = 0xff ∷ 6 ∷ 7 ∷ 0 ∷ []

pub call : IsCall 0x1021 input output
call = record {
  symbol = omega arith;
  lengths = refl;
  even = refl;
  input_bytes = (omega arith, (omega arith, (omega arith, (omega arith, tt))));
  output_bytes = (omega arith, (omega arith, (omega arith, (omega arith, tt))));
}

abbrev slices : List (List ℕ)
slices = input ∷ output ∷ []

slices-IsBuffer : All (IsBuffer 4) slices
unfolding IsBuffer
slices-IsBuffer = ((call.input_bytes, refl), ((call.output_bytes, refl), tt))

encode_all_recovery_blocks-HoldsRows_example :
    (rs : RsEncoder) × (out : List (List ℕ)) × IsEncoder 2 0 3 rs
    × (encode_all_recovery_blocks table_kernel slices 4 3 ≡ some out)
    × (length out ≡ 3)
    × HoldsRows (λ r. combination rs.input_bases slices r (symbols (replicate 4 0))) 4 0 out
encode_all_recovery_blocks-HoldsRows_example =
    encode_all_recovery_blocks-HoldsRows table_kernel slices 4 3 slices-IsBuffer refl (omega arith)
      (omega arith)
