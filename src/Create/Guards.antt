-- ===== src/Create/Guards.antt =====
-- What the guards let through, and that they stop before anything is written.
use par2rust.Base.{◌%◌, ◌^◌, ◌<◌, ◌≤◌, ◌≡◌, arith, List, length, none, ◌↔◌}
use par2rust.Packet.{SourceFile}
use par2rust.Create.{CreateOptions, total_input_blocks, check_options}

-- The limits of the format, and a slice size that it allows.
unfoldable pub Admissible : CreateOptions → List SourceFile → Type 0
Admissible opts sources =
    (0 < length sources)
    × (length sources ≤ 32768)
    × (opts.recovery_block_count ≤ 65535)
    × (0 < opts.slice_size)
    × (opts.slice_size % 4 ≡ 0)
    × (total_input_blocks sources % 2 ^ 64 ≤ 32768)

-- The guards let a run go on exactly when there are from 1 to 32768 files, at most 65535 recovery
-- blocks, at most 32768 input blocks, counted on 64 bits, and a positive slice size that is a multiple of 4.
pub check_options-Admissible :
    (opts : CreateOptions) (sources : List SourceFile)
    → (check_options opts sources ≡ none) ↔ Admissible opts sources
unfolding check_options Admissible
check_options-Admissible opts sources = (λ e. ground arith, λ h. ground arith)
