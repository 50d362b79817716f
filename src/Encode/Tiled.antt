-- ===== src/Encode/Tiled.antt =====
-- src/creator.rs: the pass with the inner loop cut into blocks of the slice, `l2_block_bytes_opt`. The tables of all
-- rows are made first; each block of the slice then goes into every buffer.
pub mod Rows
pub mod Blocks
pub mod Agreement
use par2rust.Base.{
  ℕ, zero, suc, ◌+◌, ◌-◌, ◌*◌, ◌%◌, ◌^◌, List, [], ◌∷◌, ◌++◌, length, take, drop, replicate, min,
  leb, ltb, ◌==◌, ◌&&◌, if◌then◌else◌, Option, none, some,
}
use par2rust.Base.Checked.{Checked, ◌>>=◌, ◌>>◌, assert}
use par2rust.ReedSolomon.{RsEncoder, new, coefficient}
use par2rust.Cli.{parse_digits, parse_signed, parse}
use par2rust.Encode.{Kernel, accumulate_rows}

-- A number is a size of blocks if it is a positive multiple of 128.
unfoldable pub block_size : Option ℕ → Option ℕ
block_size none = none
block_size (some n) = if leb 128 n && (n % 128 == 0) then some n else none

-- The value of `PAR2RUST_L2_BLOCK_BYTES`, where it is set.
unfoldable pub l2_block_bytes_opt : Option (List ℕ) → Option ℕ
unfolding block_size parse parse_signed parse_digits
l2_block_bytes_opt none = none
l2_block_bytes_opt (some s) = block_size (parse (2 ^ 64 - 1) s)

unfoldable pub coefficients : RsEncoder → ℕ → ℕ → List (List ℕ) → Checked (List ℕ)
coefficients rs input_idx r_idx [] = some []
coefficients rs input_idx r_idx (out ∷ buffers) = do
  coeff ← coefficient rs r_idx input_idx
  rest ← coefficients rs input_idx (r_idx + 1) buffers
  some (coeff ∷ rest)

module _ (kernel : Kernel) where
  -- A block into `out[block_start..block_end]` of every buffer.
  unfoldable pub block_rows : List ℕ → ℕ → ℕ → List ℕ → List (List ℕ) → Checked (List (List ℕ))
  block_rows input_block block_start block_end (coeff ∷ coeffs) (out ∷ buffers) = do
    assert (leb block_end (length out))
    part ←
        kernel.gf_mul_xor coeff input_block (take (block_end - block_start) (drop block_start out))
    rest ← block_rows input_block block_start block_end coeffs buffers
    some ((take block_start out ++ (part ++ drop block_end out)) ∷ rest)
  block_rows input_block block_start block_end _ buffers = some buffers

  -- The loop from `block_start` on. Each round but the last moves it on by at least a byte.
  unfoldable pub blocks_from : ℕ → ℕ → List ℕ → ℕ → List ℕ → List (List ℕ) → Checked (List (List ℕ))
  blocks_from zero block_bytes slice block_start coeffs buffers = some buffers
  blocks_from (suc fuel) block_bytes slice block_start coeffs buffers =
      let block_end = min (block_start + block_bytes) (length slice) in
      let input_block = take (block_end - block_start) (drop block_start slice) in
      let next = block_rows input_block block_start block_end coeffs buffers >>= λ after.
      blocks_from fuel block_bytes slice block_end coeffs after in
      if ltb block_start (length slice) then next else some buffers

  -- One slice into every buffer, from row 0 on.
  unfoldable pub accumulate_tiled :
      Option ℕ → RsEncoder → ℕ → List ℕ → List (List ℕ) → Checked (List (List ℕ))
  accumulate_tiled none rs input_idx slice buffers =
      accumulate_rows kernel rs input_idx slice 0 buffers
  accumulate_tiled (some block_bytes) rs input_idx slice buffers = do
    coeffs ← coefficients rs input_idx 0 buffers
    blocks_from (length slice) block_bytes slice 0 coeffs buffers

  unfoldable pub encode_tiled :
      Option ℕ → RsEncoder → ℕ → List (List ℕ) → List (List ℕ) → Checked (List (List ℕ))
  encode_tiled block_opt rs input_idx [] recovery_buffers = some recovery_buffers
  encode_tiled block_opt rs input_idx (slice ∷ slices) recovery_buffers = do
    buffers ← accumulate_tiled block_opt rs input_idx slice recovery_buffers
    encode_tiled block_opt rs (input_idx + 1) slices buffers

  unfoldable pub encode_all_recovery_blocks_tiled :
      Option ℕ → List (List ℕ) → ℕ → ℕ → Checked (List (List ℕ))
  encode_all_recovery_blocks_tiled block_opt slices slice_size total_recovery_count = do
    rs ← new (length slices % 2 ^ 32) 0 total_recovery_count
    encode_tiled block_opt rs 0 slices (replicate total_recovery_count (replicate slice_size 0))
