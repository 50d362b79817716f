-- ===== src/Create/Delivery/Slices.antt =====
-- src/creator.rs: the slices that the readers deliver.
use par2rust.Base.{
  ℕ, zero, suc, ◌+◌, ◌*◌, ◌<◌, ◌≡◌, refl, sym, ap, ◌∙◌, arith, List, length, length-map, drop,
  drop-drop,
}
use native.Mathlib.Nat.{add-mul, one-mul}
use par2rust.Format.{Md5}
use par2rust.Error.{gives, and_then}
use par2rust.Encode.{Kernel}
use par2rust.Encode.Fused.Slices.{padded_slice, padded_slices}
use par2rust.Source.{Reader, FileSystem, zero_padded, slice_checksum, par_chunks, source_file}
use par2rust.Source.Reads.{Delivers, read_full_lem}
use par2rust.Create.{div_ceil}
use par2rust.Create.Fused.{Input}
use par2rust.Create.Fused.Counts.{length-par_chunks}
use par2rust.Create.Fused.Passes.{sources_of, scan_of, slices_of}
use par2rust.Create.Fused.Fallback.{IsReadable, AreReadable, no_files, one_more}
use par2rust.Create.Delivery.{read_next_slice, read_slices, slices_of_file, delivered_slices}

read_slices-padded_slices :
    (count size i : ℕ) (bytes : List ℕ) (r : Reader)
    → r.rest ≡ drop (i * size) bytes
    → Delivers r
    → read_slices count size r ≡ gives (padded_slices bytes size count i)
unfolding read_slices read_next_slice zero_padded padded_slices padded_slice and_then
read_slices-padded_slices zero size i bytes r at d = refl
read_slices-padded_slices (suc count) size i bytes r at d =
    let (next, got, behind, d') = read_full_lem r size d in
    let moved : i * size + size ≡ (i + 1) * size = omega (arith, add-mul i 1 size, one-mul size) in
    let at' =
      behind
      ∙ ap (drop size) at
      ∙ drop-drop (i * size) size bytes
      ∙ ap (λ (k : ℕ). drop k bytes) moved in
    let rest = read_slices-padded_slices count size (i + 1) bytes next at' d' in
    rw (got, rest, at) refl

module _ (md5 : Md5) (crc32 : List ℕ → ℕ) (fs : FileSystem) (kernel : Kernel) where
  slices_of_file-padded_slices :
      (count size : ℕ) (input : Input) (bytes : List ℕ)
      → IsReadable fs input bytes
      → slices_of_file fs size input.path count ≡ gives (padded_slices bytes size count 0)
  unfolding slices_of_file padded_slices and_then
  slices_of_file-padded_slices zero size input bytes r = refl
  slices_of_file-padded_slices (suc count) size input bytes r =
      let opened = r.opens in
      let start : 0 * size ≡ 0 = omega arith in
      let at = r.holds ∙ ap (λ (k : ℕ). drop k bytes) (sym start) in
      rw opened (read_slices-padded_slices (suc count) size 0 bytes r.file.reader at r.delivers)

  -- For a positive slice size and files with admissible names and at least a byte each, whose reads report no error
  -- whatever their sizes are: the readers of the pass deliver the slices of all files in order, the last one of
  -- each filled up with zeros.
  pub delivered_slices-slices_of :
      (size : ℕ) {inputs : List Input} {files : List (List ℕ)}
      → 0 < size
      → AreReadable fs inputs files
      → delivered_slices fs size (sources_of md5 crc32 fs kernel size inputs files)
        ≡ gives (slices_of size files)
  unfolding delivered_slices slices_of sources_of source_file scan_of and_then
  delivered_slices-slices_of size pos no_files = refl
  delivered_slices-slices_of size pos (one_more {input} {bytes} {inputs} {files} r rs) =
      let count =
        length-map (par_chunks size bytes) (slice_checksum md5 crc32 size)
        ∙ length-par_chunks size bytes pos in
      let one = slices_of_file-padded_slices (div_ceil (length bytes) size) size input bytes r in
      let rest = delivered_slices-slices_of size pos rs in rw (count, one, rest) refl
