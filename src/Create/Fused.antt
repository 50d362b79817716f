-- ===== src/Create/Fused.antt =====
-- src/creator.rs: the fused run, `run_create_fused`, which scans and encodes each file over one map of it, and
-- falls back on a scan by reads and the run over scanned files where a file cannot be mapped. The slices that
-- the readers of that run deliver are an argument, as they are of the run itself. The two arms of a file share
-- nothing that both write, so they are computed one after the other. A path keeps its form, as it does outside
-- Windows.
pub mod Counts
pub mod Passes
pub mod Agreement
pub mod Fallback
use par2rust.Base.{
  ℕ, zero, suc, ◌+◌, ◌*◌, ◌%◌, ◌^◌, List, [], ◌∷◌, ◌++◌, length, map, replicate, not, ◌||◌, ltb,
  ◌==◌, if◌then◌else◌, Option, none, some,
}
use par2rust.Base.Checked.{Checked, ◌>>=◌}
use par2rust.Format.{Md5}
use par2rust.Packet.{SourceFile, build_main_packet}
use par2rust.Error.{
  Par2Error, invalid_slice_size, invalid_file_name, no_input_files, empty_file, too_many_files,
  too_many_recovery_blocks, too_many_input_blocks, invalid_volume_scheme, Attempt, gives, fails,
  and_then,
}
use par2rust.ReedSolomon.{RsEncoder, new}
use par2rust.Encode.{Kernel}
use par2rust.Encode.Fused.{encode_file_slices_into_buffers}
use par2rust.Volume.{Result, ok, err, resolve_volume_sizes}
use par2rust.Source.{
  FileSystem, OpenFile, Md5Ctx, contains_nul, scan_via_mmap, source_file, scan_with_progress,
}
use par2rust.Create.{
  max_files, max_input_blocks, max_recovery_blocks, CreateOptions, div_ceil, Outcome, done, failed,
  critical_packets_of, volume_ranges, volume_files, run_create,
}

-- A path and the name that the packets show.
pub record Input : Type 0 where
  pub path : List ℕ
  pub display_name : List ℕ

-- The guards before a file is looked at.
unfoldable pub check_counts : CreateOptions → ℕ → Option Par2Error
check_counts opts count =
    if count == 0
    then some no_input_files
    else if ltb max_files count
    then some (too_many_files count)
    else if ltb max_recovery_blocks opts.recovery_block_count
    then some (too_many_recovery_blocks opts.recovery_block_count)
    else if opts.slice_size == 0 || not (opts.slice_size % 4 == 0)
    then some (invalid_slice_size opts.slice_size)
    else none

-- The length of one file before those of the others.
unfoldable pub with_length : List ℕ → Attempt ℕ → Attempt (List ℕ) → Attempt (List ℕ)
with_length path (fails e) rest = fails e
with_length path (gives zero) rest = fails (empty_file path)
with_length path (gives (suc n)) rest = and_then rest λ lengths. gives (suc n ∷ lengths)

unfoldable pub stat_inputs : FileSystem → List Input → Attempt (List ℕ)
stat_inputs fs [] = gives []
stat_inputs fs (input ∷ inputs) =
    let rest = stat_inputs fs inputs in
    if length input.display_name == 0 || contains_nul input.display_name
    then fails (invalid_file_name input.path)
    else with_length input.path (fs.metadata input.path) rest

unfoldable pub total_slices : ℕ → List ℕ → ℕ
total_slices slice_size [] = 0
total_slices slice_size (n ∷ lengths) = div_ceil n slice_size + total_slices slice_size lengths

unfoldable pub total_length : List ℕ → ℕ
total_length [] = 0
total_length (n ∷ lengths) = n + total_length lengths

unfoldable pub check_blocks : CreateOptions → List ℕ → Option Par2Error
check_blocks opts lengths =
    let blocks = total_slices opts.slice_size lengths % 2 ^ 64 in
    let raw = div_ceil (total_length lengths % 2 ^ 64) max_input_blocks in
    if ltb max_input_blocks blocks
    then some (too_many_input_blocks blocks opts.slice_size (div_ceil raw 4 * 4))
    else none

-- How the loop over the files ends.
pub data Pass : Type 0 where
  falls_back : Pass
  stops : Par2Error → Pass
  passed : List SourceFile → List (List ℕ) → Pass

unfoldable pub with_source : SourceFile → Pass → Pass
with_source src falls_back = falls_back
with_source src (stops e) = stops e
with_source src (passed sources buffers) = passed (src ∷ sources) buffers

-- What is done with the bytes of a file, if it opens and can be mapped.
unfoldable pub over_map : Option (List ℕ) → (List ℕ → Checked Pass) → Checked Pass
over_map none body = some falls_back
over_map (some bytes) body = body bytes

unfoldable pub over_file : Attempt OpenFile → (List ℕ → Checked Pass) → Checked Pass
over_file (fails e) body = some (stops e)
over_file (gives file) body = over_map file.mmap body

-- A guard that fails ends the run before anything is written.
unfoldable pub unless : Option Par2Error → Checked Outcome → Checked Outcome
unless (some e) run = some (failed e [])
unless none run = run

unfoldable pub on_scan : Attempt SourceFile → (SourceFile → Checked Outcome) → Checked Outcome
on_scan (fails e) run = some (failed e [])
on_scan (gives src) run = run src

module _ (md5 : Md5) (crc32 : List ℕ → ℕ) (fs : FileSystem) (kernel : Kernel) where
  -- There is an encoder when there are recovery blocks.
  unfoldable pub encode_mapped :
      Option RsEncoder → List ℕ → ℕ → ℕ → ℕ → List (List ℕ) → Checked (List (List ℕ))
  encode_mapped none bytes file_length slice_size offset buffers = some buffers
  encode_mapped (some rs) bytes file_length slice_size offset buffers =
      encode_file_slices_into_buffers kernel rs bytes file_length slice_size
        (div_ceil file_length slice_size) offset buffers

  -- The files with their lengths, from the one on whose first slice is slice number `offset`.
  unfoldable pub scan_and_encode :
      Option RsEncoder → ℕ → ℕ → List Input → List ℕ → List (List ℕ) → Checked Pass
  scan_and_encode rs slice_size offset (input ∷ inputs) (n ∷ lengths) buffers =
      over_file (fs.open_file input.path) λ bytes. do
        scan ← scan_via_mmap md5 crc32 n slice_size bytes
        buffers' ← encode_mapped rs bytes n slice_size offset buffers
        rest ←
            scan_and_encode rs slice_size (offset + div_ceil n slice_size) inputs lengths buffers'
        some (with_source (source_file md5 input.path input.display_name n scan) rest)
  scan_and_encode rs slice_size offset _ _ buffers = some (passed [] buffers)

  module _ (c : Md5Ctx) (volume_name : List ℕ → ℕ → ℕ → List ℕ) where
    -- What follows the write of the index when there are recovery blocks.
    unfoldable pub write_encoded :
        CreateOptions → List ℕ → List ℕ → List (List ℕ) → Result (List ℕ) → Checked Outcome
    write_encoded opts set_id_hash critical buffers (err e) =
        some (failed (invalid_volume_scheme e) ((opts.output, critical) ∷ []))
    write_encoded opts set_id_hash critical buffers (ok sizes) = do
      volumes ← volume_ranges 0 sizes
      files ← volume_files md5 volume_name kernel opts.output set_id_hash critical buffers volumes
      some (done ((opts.output, critical) ∷ files))

    unfoldable pub write_all : CreateOptions → List SourceFile → List (List ℕ) → Checked Outcome
    write_all opts sources buffers = do
      main ← build_main_packet md5 opts.slice_size (map (λ s. s.file_id) sources)
      critical ← critical_packets_of md5 main opts sources
      if opts.recovery_block_count == 0
          then some (done ((opts.output, critical) ∷ []))
          else write_encoded opts main.set_id_hash critical buffers
              (resolve_volume_sizes opts.volume_scheme opts.recovery_block_count)

    -- `run_create_with_progress_fallback`: all files are scanned, and the first error stops the run.
    unfoldable pub after_scans :
        CreateOptions → List (List ℕ) → List SourceFile → List Input → Checked Outcome
    after_scans opts delivered sources [] = run_create md5 volume_name kernel opts sources delivered
    after_scans opts delivered sources (input ∷ inputs) = do
      scan ← scan_with_progress md5 crc32 c fs input.path input.display_name opts.slice_size
      on_scan scan (λ src. after_scans opts delivered (sources ++ src ∷ []) inputs)

    unfoldable pub after_pass : CreateOptions → List Input → List (List ℕ) → Pass → Checked Outcome
    after_pass opts inputs delivered falls_back = after_scans opts delivered [] inputs
    after_pass opts inputs delivered (stops e) = some (failed e [])
    after_pass opts inputs delivered (passed sources buffers) = write_all opts sources buffers

    unfoldable pub start_encoder : CreateOptions → List ℕ → Checked (Option RsEncoder)
    start_encoder opts lengths =
        let encoder =
          new (total_slices opts.slice_size lengths % 2 ^ 32) 0 opts.recovery_block_count in
        if opts.recovery_block_count == 0 then some none else encoder >>= λ rs. some (some rs)

    unfoldable pub run_lengths :
        CreateOptions → List Input → List (List ℕ) → Attempt (List ℕ) → Checked Outcome
    run_lengths opts inputs delivered (fails e) = some (failed e [])
    run_lengths opts inputs delivered (gives lengths) = unless (check_blocks opts lengths) do
      rs ← start_encoder opts lengths
      pass ←
          scan_and_encode rs opts.slice_size 0 inputs lengths
            (replicate opts.recovery_block_count (replicate opts.slice_size 0))
      after_pass opts inputs delivered pass

    unfoldable pub run_create_fused : CreateOptions → List Input → List (List ℕ) → Checked Outcome
    run_create_fused opts inputs delivered =
        unless (check_counts opts (length inputs))
          (run_lengths opts inputs delivered (stat_inputs fs inputs))
