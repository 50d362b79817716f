-- ===== src/Cli/Choices/Schemes.antt =====
-- src/main.rs: `build_volume_scheme` does what the flags ask for.
use par2rust.Base.{ℕ, ◌≡◌, ◌⊎◌, List, true, false, none, some, ◌==◌, if◌then◌else◌, not}
use par2rust.Base.Checked.{Checked}
use par2rust.Packet.{SourceFile}
use par2rust.Volume.{VolumeScheme, exponential, uniform}
use par2rust.Cli.{
  Parsed, value, error, limit_without_data, CreateArgs, default_uniform_count, unwrap_or,
  largest_length, limited_to,
}

inner_scheme : CreateArgs → ℕ → VolumeScheme
inner_scheme args count =
    if args.uniform_flag
    then uniform (unwrap_or args.volume_count (default_uniform_count count))
    else exponential

-- `-n` goes with `-u` only.
abbrev GoTogether : CreateArgs → Type 0
GoTogether args =
    (args.uniform_flag ≡ true) ⊎ ((args.uniform_flag ≡ false) × (args.volume_count ≡ none))

-- What `-l` does to the scheme under it.
limit_scheme : CreateArgs → List SourceFile → ℕ → Checked (Parsed VolumeScheme)
limit_scheme args sources count =
    if not args.limit_size
    then some (value (inner_scheme args count))
    else if largest_length sources == 0
    then some (error limit_without_data)
    else limited_to (largest_length sources) args.slice_size (inner_scheme args count)
