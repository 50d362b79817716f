-- ===== src/Encode/Fused.antt =====
-- src/creator.rs: the pass of the fused run over one mapped file, and that it is a part of the single
-- pass. The counter of finished slices is the offset of the file's first slice.
pub mod Slices
use par2rust.Base.{
  ℕ, zero, suc, ◌+◌, ◌-◌, ◌*◌, ◌^◌, List, [], ◌∷◌, ◌++◌, length, take, drop, replicate, min, leb,
  ◌==◌, if◌then◌else◌, Option, none, some,
}
use par2rust.Base.Checked.{Checked, ◌>>=◌, ◌>>◌, assert}
use par2rust.ReedSolomon.{RsEncoder}
use par2rust.Encode.{Kernel, accumulate_rows}

-- The slice with index `slice_idx` of a mapped file, padded with zeros.
unfoldable pub slice_at : List ℕ → ℕ → ℕ → ℕ → Checked (List ℕ)
slice_at mmap file_length slice_size slice_idx = do
  let start = min (slice_idx * slice_size) (2 ^ 64 - 1)
  let end = min (min (start + slice_size) (2 ^ 64 - 1)) file_length
  assert (leb start end)
  assert (leb end (length mmap))
  let bytes = take (end - start) (drop start mmap)
  if end - start == slice_size
      then some bytes
      else some (bytes ++ replicate (slice_size - (end - start)) 0)

module _ (kernel : Kernel) where
  -- The loop over the `left` slices from `slice_idx` on.
  unfoldable pub encode_from :
      RsEncoder → List ℕ → ℕ → ℕ → ℕ → ℕ → ℕ → List (List ℕ) → Checked (List (List ℕ))
  encode_from rs mmap file_length slice_size offset zero slice_idx recovery_buffers =
      some recovery_buffers
  encode_from rs mmap file_length slice_size offset (suc left) slice_idx recovery_buffers = do
    slice ← slice_at mmap file_length slice_size slice_idx
    buffers ← accumulate_rows kernel rs (offset + slice_idx) slice 0 recovery_buffers
    encode_from rs mmap file_length slice_size offset left (slice_idx + 1) buffers

  unfoldable pub encode_file_slices_into_buffers :
      RsEncoder → List ℕ → ℕ → ℕ → ℕ → ℕ → List (List ℕ) → Checked (List (List ℕ))
  encode_file_slices_into_buffers rs mmap file_length slice_size total_slices offset
        recovery_buffers =
      if length recovery_buffers == 0
      then some recovery_buffers
      else encode_from rs mmap file_length slice_size offset total_slices 0 recovery_buffers
