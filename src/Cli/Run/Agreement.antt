-- ===== src/Cli/Run/Agreement.antt =====
-- src/main.rs: what a run of the command line leads to.
use par2rust.Base.{ℕ, ◌<◌, ◌≤◌, List, some}
use par2rust.Format.{Md5}
use par2rust.Packet.{SourceFile}
use par2rust.Encode.{Kernel}
use par2rust.Volume.{VolumeScheme}
use par2rust.Source.{FileSystem, Md5Ctx}
use par2rust.Create.{run_create}
use par2rust.Create.Fused.{Input}
use par2rust.Create.Fused.Passes.{sources_of}
use par2rust.Cli.{CliError, value, error}
use par2rust.Cli.Choices.{Chosen}
use par2rust.Base.Checked.{Checked, ◌>>=◌}
use par2rust.Error.{too_many_recovery_blocks}
use par2rust.Cli.Run.{CliOutcome, ran, stopped, misused}
use par2rust.Base.{min}
use par2rust.Cli.Inputs.{System}
use par2rust.Cli.Run.{CliArgs}
use par2rust.Cli.Run.Requests.{Counted}

module _ (md5 : Md5) (crc32 : List ℕ → ℕ) (fs : FileSystem) (os : System) (kernel : Kernel)
    (c : Md5Ctx) (volume_name : List ℕ → ℕ → ℕ → List ℕ) (delivered : List (List ℕ))
    (args : CliArgs) (output : List ℕ) where
  -- What the command line leads to once the files are scanned.
  pub data LeadsTo (sources : List SourceFile) : Checked CliOutcome → Type 0 where
    no_count : (e : CliError) → Counted args sources (error e) → LeadsTo sources (some (misused e))
    too_many :
        (n : ℕ)
        → Counted args sources (value n)
        → 65535 < n
        → LeadsTo sources (some (stopped (too_many_recovery_blocks n)))
    no_scheme :
        (n : ℕ) (e : CliError)
        → Counted args sources (value n)
        → n ≤ 65535
        → Chosen args.flags (min n 15) n sources (some (error e))
        → LeadsTo sources (some (misused e))
    runs :
        (n : ℕ) (scheme : VolumeScheme)
        → Counted args sources (value n)
        → n ≤ 65535
        → Chosen args.flags (min n 15) n sources (some (value scheme))
        → LeadsTo sources (
            run_create md5 volume_name kernel
              (record {
                output = output;
                slice_size = args.flags.slice_size;
                recovery_block_count = n;
                volume_scheme = scheme;
                comments = args.comments;
              })
              sources
              delivered
            >>= λ outcome. some (ran outcome))

  -- The metadata of the inputs.
  abbrev pub sources : List Input → List (List ℕ) → List SourceFile
  sources inputs files = sources_of md5 crc32 fs kernel args.flags.slice_size inputs files
