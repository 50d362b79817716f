-- ===== src/Create/Fused/Fallback.antt =====
-- src/creator.rs: the run that `run_create_fused` falls back on, over files that can be mapped or read.
use par2rust.Base.{
  ℕ, ◌%◌, ◌<◌, ◌≡◌, sym, ap, ◌∙◌, arith, List, [], ◌∷◌, ◌++◌, append_assoc, append-nil, length, not,
  ◌||◌, ◌==◌, false, Option, none, some, inl, inr, ◌⊎◌,
}
use par2rust.Format.{Md5}
use par2rust.Packet.{SourceFile}
use par2rust.Error.{gives, and_then}
use par2rust.Encode.{Kernel}
use par2rust.Source.{
  FileSystem, OpenFile, Md5Ctx, Streams, ScanOutput, contains_nul, check_scan, scan_opened,
  scan_of_length, scan_unless, scan_with_progress, scan_via_mmap, source_file,
}
use par2rust.Source.Reads.{Delivers}
use par2rust.Source.Scans.{scan_via_reader-scan_via_mmap}
use par2rust.Create.{CreateOptions, run_create}
use par2rust.Create.Fused.{Input, on_scan, after_scans}
use par2rust.Create.Fused.Passes.{scan_of, sources_of, scan_via_mmap-eq}

-- The input names a file with these bytes, which can be mapped or read.
pub record IsReadable (fs : FileSystem) (input : Input) (bytes : List ℕ) : Type 0 where
  pub named : (length input.display_name == 0 || contains_nul input.display_name) ≡ false
  pub measured : fs.metadata input.path ≡ gives (length bytes)
  pub not_empty : 0 < length bytes
  pub file : OpenFile
  pub opens : fs.open_file input.path ≡ gives file
  pub maps : (file.mmap ≡ none) ⊎ (file.mmap ≡ some bytes)
  pub holds : file.reader.rest ≡ bytes
  pub delivers : Delivers file.reader

pub data AreReadable (fs : FileSystem) : List Input → List (List ℕ) → Type 0 where
  no_files : AreReadable fs [] []
  one_more :
      {input : Input} {bytes : List ℕ} {inputs : List Input} {files : List (List ℕ)}
      → IsReadable fs input bytes
      → AreReadable fs inputs files
      → AreReadable fs (input ∷ inputs) (bytes ∷ files)

size_passes : (size : ℕ) → 0 < size → size % 4 ≡ 0 → (size == 0 || not (size % 4 == 0)) ≡ false
size_passes size pos aligned = ground arith

some_injective : {A : Type 0} (a b : A) → ◌≡◌ {A = Option A} (some a) (some b) → a ≡ b
some_injective a b e = cc

module _ (md5 : Md5) (crc32 : List ℕ → ℕ) (fs : FileSystem) (kernel : Kernel) (c : Md5Ctx)
    (volume_name : List ℕ → ℕ → ℕ → List ℕ) (streams : Streams md5 c) where
  scan_opened-eq :
      (size : ℕ) (file : OpenFile) (bytes : List ℕ)
      → 0 < size
      → (file.mmap ≡ none) ⊎ (file.mmap ≡ some bytes)
      → file.reader.rest ≡ bytes
      → Delivers file.reader
      → scan_opened md5 crc32 c (length bytes) size (gives file)
        ≡ some (gives (scan_of md5 crc32 fs kernel size bytes))
  unfolding scan_opened
  scan_opened-eq size file bytes pos (inr mapped) at d =
      rw (mapped, scan_via_mmap-eq md5 crc32 fs kernel size bytes pos)
  scan_opened-eq size file bytes pos (inl unmapped) at d =
      let (scan, e, f) = scan_via_reader-scan_via_mmap md5 crc32 c size file.reader streams pos d in
      let same = some_injective _ _ (
        sym f
        ∙ ap (λ (bs : List ℕ). scan_via_mmap md5 crc32 (length bs) size bs) at
        ∙ scan_via_mmap-eq md5 crc32 fs kernel size bytes pos) in
      rw (unmapped, e) (ap (λ (s : ScanOutput). some (gives s)) same)

  scan_of_length-eq :
      (size : ℕ) (input : Input) (bytes : List ℕ) (scan : ScanOutput)
      → 0 < length bytes
      → scan_opened md5 crc32 c (length bytes) size (fs.open_file input.path) ≡ some (gives scan)
      → scan_of_length md5 crc32 c fs input.path input.display_name size (gives (length bytes))
        ≡ some (gives (source_file md5 input.path input.display_name (length bytes) scan))
  unfolding scan_of_length and_then
  scan_of_length-eq size input [] scan pos e = absurd (omega arith)
  scan_of_length-eq size input (b ∷ bytes) scan pos e = rw e

  check_scan-eq :
      (path name : List ℕ) (size : ℕ)
      → (length name == 0 || contains_nul name) ≡ false
      → 0 < size
      → size % 4 ≡ 0
      → check_scan path name size ≡ none
  unfolding check_scan
  check_scan-eq path name size named pos aligned =
      let fits = size_passes size pos aligned in rw (named, fits)

  -- The scan of a file that is there, with bytes and an admissible name, gives its metadata.
  pub scan_with_progress-eq :
      (size : ℕ) (input : Input) (bytes : List ℕ)
      → 0 < size
      → size % 4 ≡ 0
      → IsReadable fs input bytes
      → scan_with_progress md5 crc32 c fs input.path input.display_name size
        ≡ some (
            gives (
              source_file md5 input.path input.display_name
                (length bytes)
                (scan_of md5 crc32 fs kernel size bytes)))
  unfolding scan_with_progress scan_unless
  scan_with_progress-eq size input bytes pos aligned r =
      rw (check_scan-eq input.path input.display_name size r.named pos aligned, r.measured)
        (scan_of_length-eq size input bytes (scan_of md5 crc32 fs kernel size bytes) r.not_empty (
          ap (scan_opened md5 crc32 c (length bytes) size) r.opens
          ∙ scan_opened-eq size r.file bytes pos r.maps r.holds r.delivers))

  after_scans-eq :
      (opts : CreateOptions) (delivered : List (List ℕ)) (done : List SourceFile)
      {inputs : List Input} {files : List (List ℕ)}
      → 0 < opts.slice_size
      → opts.slice_size % 4 ≡ 0
      → AreReadable fs inputs files
      → after_scans md5 crc32 fs kernel c volume_name opts delivered done inputs
        ≡ run_create md5 volume_name kernel opts
            (done ++ sources_of md5 crc32 fs kernel opts.slice_size inputs files)
            delivered
  unfolding after_scans sources_of on_scan
  after_scans-eq opts delivered done pos aligned no_files =
      ap (λ (s : List SourceFile). run_create md5 volume_name kernel opts s delivered)
        (sym (append-nil done))
  after_scans-eq opts delivered done pos aligned (one_more {input} {bytes} {inputs} {files} r rs) =
      let src =
        source_file md5 input.path input.display_name (length bytes)
          (scan_of md5 crc32 fs kernel opts.slice_size bytes) in
      rw (scan_with_progress-eq opts.slice_size input bytes pos aligned r) (
        after_scans-eq opts delivered (done ++ src ∷ []) pos aligned rs
        ∙ ap (λ (s : List SourceFile). run_create md5 volume_name kernel opts s delivered)
            (append_assoc done (src ∷ []) _))

  -- For a streaming digest, a positive slice size that is a multiple of 4, and files with admissible names
  -- and at least a byte each, which can be mapped, or else read by reads of any sizes that report no error:
  -- the run that is fallen back on is the run over the same metadata that the fused run makes.
  pub after_scans-run_create :
      (opts : CreateOptions) (delivered : List (List ℕ)) {inputs : List Input}
      {files : List (List ℕ)}
      → 0 < opts.slice_size
      → opts.slice_size % 4 ≡ 0
      → AreReadable fs inputs files
      → after_scans md5 crc32 fs kernel c volume_name opts delivered [] inputs
        ≡ run_create md5 volume_name kernel opts
            (sources_of md5 crc32 fs kernel opts.slice_size inputs files)
            delivered
  after_scans-run_create opts delivered pos aligned rs =
      after_scans-eq opts delivered [] pos aligned rs
