-- ===== src/Tests/Creation.antt =====
-- The creation pipeline at concrete options.
use par2rust.Base.{
  ℕ, ◌+◌, ◌<◌, ◌%◌, ◌≤◌, ◌≡◌, ◌↔◌, refl, arith, List, [], ◌∷◌, ◌++◌, length, replicate, All, none,
  some,
}
use par2rust.Volume.{uniform, sum}
use par2rust.Create.{
  CreateOptions, check_options, suggested_slice_size, total_bytes, div_ceil, volume_ranges,
  build_volume_packet,
}
use par2rust.Create.Guards.{Admissible, check_options-Admissible}
use par2rust.Create.Suggestion.{
  SlicedAt, no_files, one_more, suggested_slice_size-least, suggested_slice_size-enough,
}
use par2rust.Packet.{SourceFile}
use par2rust.Create.Volumes.{
  all_slots, volume_ranges-all_slots, IsSlot, packets_from, read_packets, read-build_volume_packet,
}
use par2rust.Tests.Packets.{constant_md5, id_of, source}

abbrev pub opts : CreateOptions
opts = record {
  output = b'a' ∷ [];
  slice_size = 8;
  recovery_block_count = 3;
  volume_scheme = uniform 2;
  comments = [];
}

check_options-Admissible_example :
    (check_options opts (source ∷ []) ≡ none) ↔ Admissible opts (source ∷ [])
check_options-Admissible_example = check_options-Admissible opts (source ∷ [])

-- Two files that the suggested slice size cuts into one slice more than the limit.
abbrev two_files : List SourceFile
two_files = record source { length = 65533 } ∷ record source { length = 65539 } ∷ []

two_files-suggested : suggested_slice_size two_files ≡ 4
unfolding suggested_slice_size total_bytes div_ceil
two_files-suggested = refl

two_files-SlicedAt_4 : SlicedAt (suggested_slice_size two_files) two_files 32769
two_files-SlicedAt_4 = rw two_files-suggested (
    one_more 16384 16385 (omega arith) (omega arith)
      (one_more 16385 0 (omega arith) (omega arith) no_files))

two_files-SlicedAt_8 : SlicedAt 8 two_files 16385
two_files-SlicedAt_8 =
    one_more 8192 8193 (omega arith) (omega arith)
      (one_more 8193 0 (omega arith) (omega arith) no_files)

suggested_slice_size-least_example :
    (suggested_slice_size two_files % 4 ≡ 0) × (suggested_slice_size two_files ≤ 8)
unfolding total_bytes
suggested_slice_size-least_example =
    suggested_slice_size-least two_files 8 16385 (omega arith) refl two_files-SlicedAt_8
      (omega arith)

suggested_slice_size-enough_example : 32769 < 32768 + length two_files
unfolding total_bytes
suggested_slice_size-enough_example =
    suggested_slice_size-enough two_files 32769 (omega arith) (omega arith) two_files-SlicedAt_4

abbrev buffers : List (List ℕ)
buffers = replicate 4 1 ∷ replicate 4 2 ∷ replicate 4 3 ∷ []

volume_ranges-all_slots_example :
    (ranges : List (ℕ × ℕ)) × (volume_ranges 0 (1 ∷ 2 ∷ []) ≡ some ranges)
    × (all_slots buffers ranges ≡ some buffers)
unfolding sum
volume_ranges-all_slots_example = volume_ranges-all_slots buffers (1 ∷ 2 ∷ []) refl (omega arith)

buffers-IsSlot : All IsSlot buffers
unfolding IsSlot
buffers-IsSlot = ((refl, omega arith), ((refl, omega arith), ((refl, omega arith), tt)))

read-build_volume_packet_example :
    (bytes : List ℕ) × (build_volume_packet constant_md5 (id_of 8) (1 ∷ 2 ∷ []) buffers 7
      ≡ some ((1 ∷ 2 ∷ []) ++ bytes))
    × (read_packets constant_md5 (length buffers) bytes
        ≡ some (packets_from (id_of 8) 7 buffers, 1 ∷ 2 ∷ []))
read-build_volume_packet_example =
    read-build_volume_packet constant_md5 (id_of 8) (1 ∷ 2 ∷ []) buffers 7 refl buffers-IsSlot
      (omega arith)
