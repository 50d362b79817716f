-- ===== src/Create.antt =====
-- src/creator.rs: the creation pipeline, from checked options and scanned files to the files written.
-- Reading the sources is outside: the slices that the pass reads are an argument. How the name of a
-- volume follows from the path of the index is a parameter. A write succeeds; the files written, in
-- order, are part of the outcome.
pub mod Volumes
pub mod Guards
pub mod Suggestion
pub mod Fused
pub mod Paths
pub mod Delivery
use par2rust.Base.{
  ℕ, zero, suc, ◌+◌, ◌-◌, ◌*◌, ◌/◌, ◌%◌, ◌^◌, List, [], ◌∷◌, ◌++◌, map, length, take, drop, Bool,
  true, false, ◌||◌, not, ltb, leb, ◌==◌, if◌then◌else◌, Option, none, some,
}
use par2rust.Base.Checked.{Checked, ◌>>=◌, ◌>>◌, assert}
use par2rust.Error.{
  Par2Error, invalid_slice_size, no_input_files, too_many_files, too_many_recovery_blocks,
  too_many_input_blocks, invalid_volume_scheme,
}
use par2rust.Format.{Md5}
use par2rust.Packet.{
  SourceFile, MainPacket, build_file_desc_packet, build_file_verify_packet, build_main_packet,
  build_recovery_packet, build_creator_packet, build_comment_packets,
}
use par2rust.Encode.{Kernel, encode_all_recovery_blocks}
use par2rust.Volume.{VolumeScheme, InvalidVolumeScheme, Result, ok, err, resolve_volume_sizes}

abbrev pub max_files : ℕ
max_files = 32768

abbrev pub max_input_blocks : ℕ
max_input_blocks = 32768

abbrev pub max_recovery_blocks : ℕ
max_recovery_blocks = 65535

pub record CreateOptions : Type 0 where
  pub output : List ℕ
  pub slice_size : ℕ
  pub recovery_block_count : ℕ
  pub volume_scheme : VolumeScheme
  pub comments : List (List ℕ)

unfoldable pub total_input_blocks : List SourceFile → ℕ
total_input_blocks [] = 0
total_input_blocks (s ∷ sources) = length s.slice_checksums + total_input_blocks sources

unfoldable pub total_bytes : List SourceFile → ℕ
total_bytes [] = 0
total_bytes (s ∷ sources) = s.length + total_bytes sources

unfoldable pub div_ceil : ℕ → ℕ → ℕ
div_ceil n d = if n % d == 0 then n / d else n / d + 1

-- Sums of 64-bit numbers wrap.
unfoldable pub suggested_slice_size : List SourceFile → ℕ
suggested_slice_size sources =
    let raw = div_ceil (total_bytes sources % 2 ^ 64) max_input_blocks in div_ceil raw 4 * 4

-- The guards of `run_create_with_progress`, in order; `none` lets the run go on.
unfoldable pub check_options : CreateOptions → List SourceFile → Option Par2Error
check_options opts sources =
    let blocks = total_input_blocks sources % 2 ^ 64 in
    if length sources == 0
    then some no_input_files
    else if ltb max_files (length sources)
    then some (too_many_files (length sources))
    else if ltb max_recovery_blocks opts.recovery_block_count
    then some (too_many_recovery_blocks opts.recovery_block_count)
    else if opts.slice_size == 0 || not (opts.slice_size % 4 == 0)
    then some (invalid_slice_size opts.slice_size)
    else if ltb max_input_blocks blocks
    then some (too_many_input_blocks blocks opts.slice_size (suggested_slice_size sources))
    else none

-- The first exponent and the number of blocks of each volume.
unfoldable pub volume_ranges : ℕ → List ℕ → Checked (List (ℕ × ℕ))
volume_ranges first_exp [] = some []
volume_ranges first_exp (count ∷ sizes) = do
  assert (leb first_exp (2 ^ 16 - 1))
  assert (leb (first_exp + count) (2 ^ 32 - 1))
  rest ← volume_ranges (first_exp + count) sizes
  some ((first_exp, count) ∷ rest)

-- `&recovery_buffers[start..start + count]`
unfoldable pub slots_at : List (List ℕ) → ℕ → ℕ → Checked (List (List ℕ))
slots_at buffers start count = do
  assert (leb (start + count) (length buffers))
  some (take count (drop start buffers))

pub data Outcome : Type 0 where
  done : (written : List (List ℕ × List ℕ)) → Outcome
  failed : Par2Error → (written : List (List ℕ × List ℕ)) → Outcome

module _ (md5 : Md5) where
  -- The packets of a volume from slot number `offset` on; the exponent is a u16.
  unfoldable pub recovery_packets : List ℕ → ℕ → ℕ → List (List ℕ) → Checked (List ℕ)
  recovery_packets set_id_hash first_exponent offset [] = some []
  recovery_packets set_id_hash first_exponent offset (buf ∷ slots) = do
    let exp = first_exponent + offset % 2 ^ 16
    assert (leb exp (2 ^ 16 - 1))
    pkt ← build_recovery_packet md5 set_id_hash exp buf
    rest ← recovery_packets set_id_hash first_exponent (offset + 1) slots
    some (pkt ++ rest)

  unfoldable pub build_volume_packet : List ℕ → List ℕ → List (List ℕ) → ℕ → Checked (List ℕ)
  build_volume_packet set_id_hash critical_packets recovery_slots first_exponent = do
    packets ← recovery_packets set_id_hash first_exponent 0 recovery_slots
    some (critical_packets ++ (packets ++ critical_packets))

  unfoldable pub file_packets : List ℕ → List SourceFile → Checked (List ℕ)
  file_packets set_id_hash [] = some []
  file_packets set_id_hash (src ∷ sources) = do
    desc ← build_file_desc_packet md5 set_id_hash src
    verify ← build_file_verify_packet md5 set_id_hash src
    rest ← file_packets set_id_hash sources
    some (desc ++ (verify ++ rest))

  unfoldable pub critical_packets_of :
      MainPacket → CreateOptions → List SourceFile → Checked (List ℕ)
  critical_packets_of main opts sources = do
    files ← file_packets main.set_id_hash sources
    creator ← build_creator_packet md5 main.set_id_hash
    comments ← build_comment_packets md5 main.set_id_hash opts.comments
    some (main.bytes ++ (files ++ (creator ++ comments)))

  module _ (volume_name : List ℕ → ℕ → ℕ → List ℕ) (kernel : Kernel) where
    unfoldable pub volume_files :
        List ℕ → List ℕ → List ℕ → List (List ℕ) → List (ℕ × ℕ) → Checked (List (List ℕ × List ℕ))
    volume_files output set_id_hash critical buffers [] = some []
    volume_files output set_id_hash critical buffers (range ∷ volumes) = do
      slots ← slots_at buffers range.0 range.1
      bytes ← build_volume_packet set_id_hash critical slots range.0
      rest ← volume_files output set_id_hash critical buffers volumes
      some ((volume_name output range.0 range.1, bytes) ∷ rest)

    -- What follows the write of the index when there are recovery blocks.
    unfoldable pub write_volumes :
        CreateOptions → List ℕ → List ℕ → List (List ℕ) → Result (List ℕ) → Checked Outcome
    write_volumes opts set_id_hash critical slices (err e) =
        some (failed (invalid_volume_scheme e) ((opts.output, critical) ∷ []))
    write_volumes opts set_id_hash critical slices (ok sizes) = do
      buffers ← encode_all_recovery_blocks kernel slices opts.slice_size opts.recovery_block_count
      volumes ← volume_ranges 0 sizes
      files ← volume_files opts.output set_id_hash critical buffers volumes
      some (done ((opts.output, critical) ∷ files))

    unfoldable pub run_checked : CreateOptions → List SourceFile → List (List ℕ) → Checked Outcome
    run_checked opts sources slices = do
      main ← build_main_packet md5 opts.slice_size (map (λ s. s.file_id) sources)
      critical ← critical_packets_of main opts sources
      if opts.recovery_block_count == 0
          then some (done ((opts.output, critical) ∷ []))
          else write_volumes opts main.set_id_hash critical slices
              (resolve_volume_sizes opts.volume_scheme opts.recovery_block_count)

    unfoldable pub stop_or_run :
        CreateOptions → List SourceFile → List (List ℕ) → Option Par2Error → Checked Outcome
    stop_or_run opts sources slices (some e) = some (failed e [])
    stop_or_run opts sources slices none = run_checked opts sources slices

    unfoldable pub run_create : CreateOptions → List SourceFile → List (List ℕ) → Checked Outcome
    run_create opts sources slices = stop_or_run opts sources slices (check_options opts sources)
