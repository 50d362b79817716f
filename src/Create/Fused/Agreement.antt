-- ===== src/Create/Fused/Agreement.antt =====
-- On files that can be mapped the fused run writes what the run over scanned files writes.
use par2rust.Base.{
  ℕ, zero, suc, ◌+◌, ◌-◌, ◌*◌, ◌%◌, ◌^◌, ◌<◌, ◌≤◌, ◌≡◌, refl, sym, ap, ◌∙◌, arith, List, [], ◌∷◌,
  length, length-append, length-take, length-replicate, take, drop, map, replicate, ltb, ◌==◌,
  if◌then◌else◌, false, true, Bool-cases, inl, inr, none, some, All, All-append,
}
use par2rust.Base.Checked.{Checked, ◌>>=◌}
use par2rust.Format.{Md5}
use par2rust.Packet.{SourceFile, build_main_packet}
use par2rust.Buffer.{IsBytes}
use par2rust.ReedSolomon.{new}
use par2rust.Encode.{Kernel, encode_all_recovery_blocks}
use par2rust.Encode.Recovery.{IsBuffer, encode_all_recovery_blocks-HoldsRows}
use par2rust.Encode.Fused.Slices.{padded_slice, padded_slices, bind_ext}
use par2rust.Volume.{Result, ok, err, resolve_volume_sizes}
use par2rust.Source.{FileSystem, Md5Ctx}
use par2rust.Create.{
  CreateOptions, div_ceil, max_input_blocks, total_input_blocks, Outcome, run_create, stop_or_run,
  run_checked, write_volumes, critical_packets_of, done,
}
use par2rust.Create.Guards.{Admissible, check_options-Admissible}
use par2rust.Create.Fused.{
  Input, check_counts, check_blocks, total_slices, start_encoder, scan_and_encode, write_encoded,
  write_all, after_pass, unless, run_lengths, run_create_fused,
}
use par2rust.Create.Fused.Passes.{
  AreMapped, no_files, one_more, slices_of, length-slices_of, sources_of, bind_returned,
  stat_inputs-eq, total_input_blocks-eq, scan_and_encode-eq, scan_only-eq,
}

take-IsBytes : (n : ℕ) (bs : List ℕ) → IsBytes bs → IsBytes (take n bs)
take-IsBytes zero bs h = tt
take-IsBytes (suc n) [] h = tt
take-IsBytes (suc n) (b ∷ bs) h = (h.0, take-IsBytes n bs h.1)

drop-IsBytes : (n : ℕ) (bs : List ℕ) → IsBytes bs → IsBytes (drop n bs)
drop-IsBytes zero bs h = h
drop-IsBytes (suc n) [] h = tt
drop-IsBytes (suc n) (b ∷ bs) h = drop-IsBytes n bs h.1

zeros-IsBytes : (n : ℕ) → IsBytes (replicate n 0)
zeros-IsBytes zero = tt
zeros-IsBytes (suc n) = (omega arith, zeros-IsBytes n)

padded_slice-IsBuffer :
    (bytes : List ℕ) (size i : ℕ) → IsBytes bytes → IsBuffer size (padded_slice bytes size i)
unfolding padded_slice IsBuffer
padded_slice-IsBuffer bytes size i h =
    let part = take size (drop (i * size) bytes) in
    (
      All-append (λ b. b < 2 ^ 8) part (replicate (size - length part) 0)
          (take-IsBytes size (drop (i * size) bytes) (drop-IsBytes (i * size) bytes h))
          (zeros-IsBytes (size - length part)),
      omega (
        arith,
        length-append part (replicate (size - length part) 0),
        length-replicate {A = ℕ} (size - length part) 0,
        length-take size (drop (i * size) bytes),
      ),
    )

padded_slices-IsBuffer :
    (bytes : List ℕ) (size left i : ℕ)
    → IsBytes bytes
    → All (IsBuffer size) (padded_slices bytes size left i)
unfolding padded_slices
padded_slices-IsBuffer bytes size zero i h = tt
padded_slices-IsBuffer bytes size (suc left) i h =
    (padded_slice-IsBuffer bytes size i h, padded_slices-IsBuffer bytes size left (i + 1) h)

slices_of-IsBuffer :
    (size : ℕ) (files : List (List ℕ))
    → All IsBytes files
    → All (IsBuffer size) (slices_of size files)
unfolding slices_of
slices_of-IsBuffer size [] h = tt
slices_of-IsBuffer size (bytes ∷ files) h =
    All-append (IsBuffer size) (padded_slices bytes size (div_ceil (length bytes) size) 0)
      (slices_of size files)
      (padded_slices-IsBuffer bytes size (div_ceil (length bytes) size) 0 h.0)
      (slices_of-IsBuffer size files h.1)

not_above : (n : ℕ) → n ≤ 32768 → ltb max_input_blocks n ≡ false
not_above n h = ground arith

module _ (md5 : Md5) (crc32 : List ℕ → ℕ) (fs : FileSystem) (kernel : Kernel) (c : Md5Ctx)
    (volume_name : List ℕ → ℕ → ℕ → List ℕ) where
  write_encoded-eq :
      (opts : CreateOptions) (set_id critical : List ℕ) (slices buffers : List (List ℕ))
      (sizes : Result (List ℕ))
      → encode_all_recovery_blocks kernel slices opts.slice_size opts.recovery_block_count
        ≡ some buffers
      → write_encoded md5 crc32 fs kernel c volume_name opts set_id critical buffers sizes
        ≡ write_volumes md5 volume_name kernel opts set_id critical slices sizes
  unfolding write_encoded write_volumes
  write_encoded-eq opts set_id critical slices buffers (err e) h = refl
  write_encoded-eq opts set_id critical slices buffers (ok sizes) h = rw h

  write_all-eq :
      (opts : CreateOptions) (sources : List SourceFile) (slices buffers : List (List ℕ))
      → encode_all_recovery_blocks kernel slices opts.slice_size opts.recovery_block_count
        ≡ some buffers
      → write_all md5 crc32 fs kernel c volume_name opts sources buffers
        ≡ run_checked md5 volume_name kernel opts sources slices
  unfolding write_all run_checked
  write_all-eq opts sources slices buffers h =
      bind_ext (build_main_packet md5 opts.slice_size (map (λ s. s.file_id) sources)) _ _ (λ main.
        bind_ext (critical_packets_of md5 main opts sources) _ _ (λ critical.
          ap
            (λ (rest : Checked Outcome).
              if opts.recovery_block_count == 0
              then some (done ((opts.output, critical) ∷ []))
              else rest)
            (write_encoded-eq opts main.set_id_hash critical slices buffers
              (resolve_volume_sizes opts.volume_scheme opts.recovery_block_count) h)))

  write_index-eq :
      (opts : CreateOptions) (sources : List SourceFile) (slices buffers : List (List ℕ))
      → (opts.recovery_block_count == 0) ≡ true
      → write_all md5 crc32 fs kernel c volume_name opts sources buffers
        ≡ run_checked md5 volume_name kernel opts sources slices
  unfolding write_all run_checked
  write_index-eq opts sources slices buffers h = rw h

  length-sources_of :
      (size : ℕ) {inputs : List Input} {files : List (List ℕ)}
      → AreMapped fs size inputs files
      → length (sources_of md5 crc32 fs kernel size inputs files) ≡ length inputs
  unfolding sources_of
  length-sources_of size no_files = refl
  length-sources_of size (one_more m ms) = ap suc (length-sources_of size ms)

  counts_pass :
      (opts : CreateOptions) (sources : List SourceFile) (count : ℕ)
      → Admissible opts sources
      → length sources ≡ count
      → check_counts opts count ≡ none
  unfolding check_counts Admissible
  counts_pass opts sources count h e = ground arith

  blocks_pass :
      (opts : CreateOptions) (sources : List SourceFile) (lengths : List ℕ)
      → Admissible opts sources
      → total_input_blocks sources ≡ total_slices opts.slice_size lengths
      → check_blocks opts lengths ≡ none
  unfolding check_blocks Admissible
  blocks_pass opts sources lengths h e =
      let below =
        not_above (total_slices opts.slice_size lengths % 2 ^ 64) (omega (arith, e, h.5)) in
      rw below

  -- What the loop leaves is written as the other run writes it.
  loop_written :
      (opts : CreateOptions) {inputs : List Input} {files : List (List ℕ)}
      (delivered : List (List ℕ))
      → AreMapped fs opts.slice_size inputs files
      → All IsBytes files
      → 0 < opts.slice_size
      → opts.slice_size % 2 ≡ 0
      → opts.recovery_block_count ≤ 65535
      → total_slices opts.slice_size (map length files) ≤ 32768
      → (start_encoder md5 crc32 fs kernel c volume_name opts (map length files) >>= λ rs.
          scan_and_encode md5 crc32 fs kernel rs opts.slice_size 0 inputs
            (map length files)
            (replicate opts.recovery_block_count (replicate opts.slice_size 0))
          >>= λ pass. after_pass md5 crc32 fs kernel c volume_name opts inputs delivered pass)
        ≡ run_checked md5 volume_name kernel opts
            (sources_of md5 crc32 fs kernel opts.slice_size inputs files)
            (slices_of opts.slice_size files)
  unfolding start_encoder after_pass encode_all_recovery_blocks
  loop_written opts {inputs} {files} delivered ms bytes pos even le few =
      elim (Bool-cases (opts.recovery_block_count == 0)) [
        | inl z ↦
            rw
              (
                z,
                scan_only-eq md5 crc32 fs kernel opts.slice_size 0
                    (replicate opts.recovery_block_count (replicate opts.slice_size 0)) pos ms,
              )
              (write_index-eq opts _ (slices_of opts.slice_size files) _ z)
        | inr above ↦
            let size = opts.slice_size in
            let m = opts.recovery_block_count in
            let slices = slices_of size files in
            let count = length-slices_of size files in
            let (rs', out, h, e, size_out, holds) =
              encode_all_recovery_blocks-HoldsRows kernel slices size m
                (slices_of-IsBuffer size files bytes) even (omega arith) le in
            let (rs, made, filled) = bind_returned (new (length slices % 2 ^ 32) 0 m) _ out e in
            let made' = ap (λ (n : ℕ). new (n % 2 ^ 32) 0 m) (sym count) ∙ made in
            rw
              (
                above,
                made',
                scan_and_encode-eq md5 crc32 fs kernel rs size 0 (replicate m (replicate size 0))
                    out pos ms filled,
              )
              (write_all-eq opts _ slices out e)
      ]

  -- For files of bytes that can be mapped, with names that the format allows, at least a byte each and
  -- lengths that leave room for a slice below 2^64, and options that the guards let through for them, with
  -- fewer than 2^64 slices in all: the fused run has the outcome of the run over the scanned files, with
  -- the slices of all files, the last one of each filled up with zeros.
  pub run_create_fused-run_create :
      (opts : CreateOptions) {inputs : List Input} {files : List (List ℕ)}
      (delivered : List (List ℕ))
      → AreMapped fs opts.slice_size inputs files
      → All IsBytes files
      → Admissible opts (sources_of md5 crc32 fs kernel opts.slice_size inputs files)
      → total_slices opts.slice_size (map length files) < 2 ^ 64
      → run_create_fused md5 crc32 fs kernel c volume_name opts inputs delivered
        ≡ run_create md5 volume_name kernel opts
            (sources_of md5 crc32 fs kernel opts.slice_size inputs files)
            (slices_of opts.slice_size files)
  unfolding run_create_fused run_create stop_or_run unless run_lengths Admissible
  run_create_fused-run_create opts {inputs} {files} delivered ms bytes admissible small =
      let sources = sources_of md5 crc32 fs kernel opts.slice_size inputs files in
      let (some_files, file_limit, block_limit, pos, aligned, few) = admissible in
      let total = total_input_blocks-eq md5 crc32 fs kernel opts.slice_size pos ms in
      let counts =
        counts_pass opts sources (length inputs) admissible
          (length-sources_of opts.slice_size ms) in
      let blocks = blocks_pass opts sources (map length files) admissible total in
      let checked = (check_options-Admissible opts sources).1 admissible in
      rw (counts, stat_inputs-eq md5 crc32 fs kernel opts.slice_size ms, blocks, checked)
        (loop_written opts delivered ms bytes pos (omega arith) block_limit (omega arith))
