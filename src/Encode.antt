-- ===== src/Encode.antt =====
-- src/creator.rs: the pass over the input slices that fills the recovery buffers. Which kernel does the
-- arithmetic is a parameter, `Kernel`; the slices are those that the readers deliver, the last one of a
-- file padded with zeros to the slice size. The rows that the workers share out are disjoint, so they are
-- computed one after the other.
pub mod Recovery
pub mod Kernels
pub mod Fused
pub mod Order
pub mod Tiled
use par2rust.Base.{
  ℕ, zero, suc, ◌+◌, ◌%◌, ◌^◌, List, [], ◌∷◌, length, replicate, Option, none, some,
}
use par2rust.Base.Checked.{Checked, ◌>>=◌, ◌>>◌, assert}
use par2rust.Buffer.Symbols.{IsCall, AddsProduct}
use par2rust.ReedSolomon.{RsEncoder, new, coefficient}

-- A multiply-and-add kernel with its contract.
pub record Kernel : Type 0 where
  pub gf_mul_xor : ℕ → List ℕ → List ℕ → Checked (List ℕ)
  pub adds :
      (coeff : ℕ) (input output : List ℕ)
      → IsCall coeff input output
      → AddsProduct coeff input output (gf_mul_xor coeff input output)

module _ (kernel : Kernel) where
  -- One slice into every buffer, from row `r_idx` on.
  unfoldable pub accumulate_rows :
      RsEncoder → ℕ → List ℕ → ℕ → List (List ℕ) → Checked (List (List ℕ))
  accumulate_rows rs input_idx slice r_idx [] = some []
  accumulate_rows rs input_idx slice r_idx (out ∷ buffers) = do
    coeff ← coefficient rs r_idx input_idx
    out' ← kernel.gf_mul_xor coeff slice out
    rest ← accumulate_rows rs input_idx slice (r_idx + 1) buffers
    some (out' ∷ rest)

  unfoldable pub encode_slices :
      RsEncoder → ℕ → List (List ℕ) → List (List ℕ) → Checked (List (List ℕ))
  encode_slices rs input_idx [] recovery_buffers = some recovery_buffers
  encode_slices rs input_idx (slice ∷ slices) recovery_buffers = do
    buffers ← accumulate_rows rs input_idx slice 0 recovery_buffers
    encode_slices rs (input_idx + 1) slices buffers

  unfoldable pub encode_all_recovery_blocks : List (List ℕ) → ℕ → ℕ → Checked (List (List ℕ))
  encode_all_recovery_blocks slices slice_size total_recovery_count = do
    rs ← new (length slices % 2 ^ 32) 0 total_recovery_count
    encode_slices rs 0 slices (replicate total_recovery_count (replicate slice_size 0))
