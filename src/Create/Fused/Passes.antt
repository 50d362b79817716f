-- ===== src/Create/Fused/Passes.antt =====
-- The loop over mapped files is the single pass over the slices of all of them.
use par2rust.Base.{
  ℕ, zero, suc, ◌+◌, ◌^◌, ◌<◌, ◌≡◌, ◌≢◌, refl, sym, ap, ◌∙◌, arith, List, [], ◌∷◌, ◌++◌, length,
  length-map, length-append, take, map, min, leb, ◌||◌, ◌==◌, false, true, Option, none, some,
}
use par2rust.Base.Checked.{Checked, ◌>>=◌}
use par2rust.Format.{Md5}
use par2rust.Packet.{SourceFile}
use par2rust.Error.{gives, and_then}
use par2rust.ReedSolomon.{RsEncoder}
use par2rust.Encode.{Kernel, accumulate_rows, encode_slices}
use par2rust.Encode.Fused.Slices.{padded_slices, encode_file_slices-encode_slices}
use par2rust.Source.{
  hash16k_len, FileSystem, OpenFile, contains_nul, ScanOutput, slice_checksum, par_chunks,
  scan_via_mmap, source_file,
}
use par2rust.Create.{div_ceil, total_input_blocks}
use par2rust.Create.Fused.{
  Input, with_length, stat_inputs, total_slices, passed, with_source, over_map, over_file,
  encode_mapped, scan_and_encode,
}
use par2rust.Create.Fused.Counts.{div_ceil_covers, length-par_chunks}

-- The inputs name files that can be mapped, with these bytes.
pub record IsMapped (fs : FileSystem) (size : ℕ) (input : Input) (bytes : List ℕ) : Type 0 where
  pub named : (length input.display_name == 0 || contains_nul input.display_name) ≡ false
  pub measured : fs.metadata input.path ≡ gives (length bytes)
  pub not_empty : 0 < length bytes
  pub file : OpenFile
  pub opens : fs.open_file input.path ≡ gives file
  pub maps : file.mmap ≡ some bytes
  pub fits : length bytes + size < 2 ^ 64

pub data AreMapped (fs : FileSystem) (size : ℕ) : List Input → List (List ℕ) → Type 0 where
  no_files : AreMapped fs size [] []
  one_more :
      {input : Input} {bytes : List ℕ} {inputs : List Input} {files : List (List ℕ)}
      → IsMapped fs size input bytes
      → AreMapped fs size inputs files
      → AreMapped fs size (input ∷ inputs) (bytes ∷ files)

unfoldable pub slices_of : ℕ → List (List ℕ) → List (List ℕ)
slices_of size [] = []
slices_of size (bytes ∷ files) =
    padded_slices bytes size (div_ceil (length bytes) size) 0 ++ slices_of size files

positive_test : (n : ℕ) → 0 < n → (n == 0) ≡ false
positive_test n h = ground arith

min_test : (n k : ℕ) → leb (min n k) n ≡ true
min_test n k = ground arith

none-ne-some : {B : Type 0} (b : B) → ◌≢◌ {A = Option B} none (some b)
none-ne-some b e = cc

length-padded_slices :
    (bytes : List ℕ) (size left i : ℕ) → length (padded_slices bytes size left i) ≡ left
unfolding padded_slices
length-padded_slices bytes size zero i = refl
length-padded_slices bytes size (suc left) i = ap suc (length-padded_slices bytes size left (i + 1))

pub length-slices_of :
    (size : ℕ) (files : List (List ℕ))
    → length (slices_of size files) ≡ total_slices size (map length files)
unfolding slices_of total_slices
length-slices_of size [] = refl
length-slices_of size (bytes ∷ files) = omega (
  arith,
  length-append (padded_slices bytes size (div_ceil (length bytes) size) 0) (slices_of size files),
  length-padded_slices bytes size (div_ceil (length bytes) size) 0,
  length-slices_of size files,
)

bind_bind :
    {A B C : Type 0} (m : Checked A) (f : A → Checked C) (g : A → Checked B) (h : B → Checked C)
    → ((a : A) → f a ≡ (g a >>= h))
    → (m >>= f) ≡ ((m >>= g) >>= h)
bind_bind none f g h same = refl
bind_bind (some a) f g h same = same a

pub bind_returned :
    {A B : Type 0} (m : Checked A) (f : A → Checked B) (b : B)
    → (m >>= f) ≡ some b
    → (a : A) × (m ≡ some a) × (f a ≡ some b)
bind_returned none f b e = absurd (none-ne-some b e)
bind_returned (some a) f b e = (a, refl, e)

encode_slices-append :
    (kernel : Kernel) (rs : RsEncoder) (i : ℕ) (xs ys : List (List ℕ)) (buffers : List (List ℕ))
    → encode_slices kernel rs i (xs ++ ys) buffers
      ≡ (encode_slices kernel rs i xs buffers >>= encode_slices kernel rs (i + length xs) ys)
unfolding encode_slices
encode_slices-append kernel rs i [] ys buffers = let here : i + 0 ≡ i = omega arith in rw here
encode_slices-append kernel rs i (x ∷ xs) ys buffers =
    let on : i + 1 + length xs ≡ i + suc (length xs) = omega arith in
    bind_bind (accumulate_rows kernel rs i x 0 buffers) _ _ _ (λ b.
      encode_slices-append kernel rs (i + 1) xs ys b
      ∙ ap (λ (j : ℕ). encode_slices kernel rs (i + 1) xs b >>= encode_slices kernel rs j ys) on)

module _ (md5 : Md5) (crc32 : List ℕ → ℕ) (fs : FileSystem) (kernel : Kernel) where
  unfoldable pub scan_of : ℕ → List ℕ → ScanOutput
  scan_of size bytes = record {
    slice_checksums = map (slice_checksum md5 crc32 size) (par_chunks size bytes);
    hash_full = md5.digest bytes;
    hash16k = md5.digest (take (min (length bytes) hash16k_len) bytes);
  }

  pub scan_via_mmap-eq :
      (size : ℕ) (bytes : List ℕ)
      → 0 < size
      → scan_via_mmap md5 crc32 (length bytes) size bytes ≡ some (scan_of size bytes)
  unfolding scan_via_mmap scan_of
  scan_via_mmap-eq size bytes pos =
      let not_zero : (size == 0) ≡ false = positive_test size pos in
      let inside : leb (min (length bytes) hash16k_len) (length bytes) ≡ true =
        min_test (length bytes) hash16k_len in
      rw (not_zero, inside)

  unfoldable pub sources_of : ℕ → List Input → List (List ℕ) → List SourceFile
  sources_of size (input ∷ inputs) (bytes ∷ files) =
      source_file md5 input.path input.display_name (length bytes) (scan_of size bytes)
      ∷ sources_of size inputs files
  sources_of size _ _ = []

  counted_length :
      (path bytes : List ℕ)
      → 0 < length bytes
      → (lengths : List ℕ)
      → with_length path (gives (length bytes)) (gives lengths) ≡ gives (length bytes ∷ lengths)
  unfolding with_length and_then
  counted_length path [] pos lengths = absurd (omega arith)
  counted_length path (b ∷ bytes) pos lengths = refl

  pub stat_inputs-eq :
      (size : ℕ) {inputs : List Input} {files : List (List ℕ)}
      → AreMapped fs size inputs files
      → stat_inputs fs inputs ≡ gives (map length files)
  unfolding stat_inputs
  stat_inputs-eq size no_files = refl
  stat_inputs-eq size (one_more {input} {bytes} m ms) =
      rw (m.named, m.measured, stat_inputs-eq size ms)
        (counted_length input.path bytes m.not_empty _)

  pub total_input_blocks-eq :
      (size : ℕ) {inputs : List Input} {files : List (List ℕ)}
      → 0 < size
      → AreMapped fs size inputs files
      → total_input_blocks (sources_of size inputs files) ≡ total_slices size (map length files)
  unfolding total_input_blocks total_slices sources_of source_file scan_of
  total_input_blocks-eq size pos no_files = refl
  total_input_blocks-eq size pos (one_more {input} {bytes} m ms) = omega (
    arith,
    length-map (par_chunks size bytes) (slice_checksum md5 crc32 size),
    length-par_chunks size bytes pos,
    total_input_blocks-eq size pos ms,
  )

  -- With an encoder the loop scans all files and fills the buffers.
  pub scan_and_encode-eq :
      (rs : RsEncoder) (size offset : ℕ) {inputs : List Input} {files : List (List ℕ)}
      (buffers out : List (List ℕ))
      → 0 < size
      → AreMapped fs size inputs files
      → encode_slices kernel rs offset (slices_of size files) buffers ≡ some out
      → scan_and_encode md5 crc32 fs kernel (some rs) size offset inputs (map length files) buffers
        ≡ some (passed (sources_of size inputs files) out)
  unfolding scan_and_encode encode_slices slices_of sources_of over_file over_map encode_mapped
      with_source
  scan_and_encode-eq rs size offset buffers out pos no_files e =
      ap (λ (o : Option (List (List ℕ))). o >>= λ b. some (passed [] b)) e
  scan_and_encode-eq rs size offset buffers out pos (one_more {input} {bytes} {inputs} {files} m ms)
        e =
      let k = div_ceil (length bytes) size in
      let here = padded_slices bytes size k 0 in
      let split = encode_slices-append kernel rs offset here (slices_of size files) buffers in
      let (mid, first, others) =
        bind_returned (encode_slices kernel rs offset here buffers) _ out (sym split ∙ e) in
      let start =
        ap (λ (j : ℕ). encode_slices kernel rs (offset + j) (slices_of size files) mid)
          (length-padded_slices bytes size k 0) in
      let rest = scan_and_encode-eq rs size (offset + k) mid out pos ms (sym start ∙ others) in
      let encoded =
        encode_file_slices-encode_slices kernel rs bytes size k offset buffers
          (div_ceil_covers (length bytes) size pos).1 m.fits in
      rw (m.opens, m.maps, scan_via_mmap-eq size bytes pos, encoded, first, rest)

  pub scan_only-eq :
      (size offset : ℕ) {inputs : List Input} {files : List (List ℕ)} (buffers : List (List ℕ))
      → 0 < size
      → AreMapped fs size inputs files
      → scan_and_encode md5 crc32 fs kernel none size offset inputs (map length files) buffers
        ≡ some (passed (sources_of size inputs files) buffers)
  unfolding scan_and_encode sources_of over_file over_map encode_mapped with_source
  scan_only-eq size offset buffers pos no_files = refl
  scan_only-eq size offset buffers pos (one_more {input} {bytes} m ms) = rw (
    m.opens,
    m.maps,
    scan_via_mmap-eq size bytes pos,
    scan_only-eq size (offset + div_ceil (length bytes) size) buffers pos ms,
  )
