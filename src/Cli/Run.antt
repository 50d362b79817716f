-- ===== src/Cli/Run.antt =====
-- src/main.rs: `run_create_cli` and the exit code. The number of threads and what is printed are outside; the slices
-- that the readers of the pass deliver are an argument, as they are of the run itself.
pub mod Requests
pub mod Agreement
use par2rust.Base.{
  ℕ, List, [], ◌∷◌, ◌++◌, length, Bool, ltb, ◌==◌, if◌then◌else◌, Option, none, some,
}
use par2rust.Base.Checked.{Checked, ◌>>=◌}
use par2rust.Format.{Md5}
use par2rust.Packet.{SourceFile}
use par2rust.Error.{Par2Error, no_input_files, too_many_recovery_blocks, Attempt, gives, fails}
use par2rust.Encode.{Kernel}
use par2rust.Volume.{VolumeScheme}
use par2rust.Source.{FileSystem, Md5Ctx, scan_with_progress}
use par2rust.Create.{max_recovery_blocks, CreateOptions, Outcome, done, failed, run_create}
use par2rust.Cli.{
  CliError, Parsed, value, error, Redundancy, resolve_redundancy, CreateArgs, build_volume_scheme,
}
use par2rust.Cli.Inputs.{
  InputArgs, System, resolve_output_and_inputs, expand_input_paths, display_name_for,
}

pub record CliArgs : Type 0 where
  pub inputs : InputArgs
  pub flags : CreateArgs
  pub recovery_count : ℕ
  pub redundancy : Option Redundancy
  pub comments : List (List ℕ)

pub data CliOutcome : Type 0 where
  ran : Outcome → CliOutcome
  stopped : Par2Error → CliOutcome
  misused : CliError → CliOutcome

-- `?` on the results of the crate and of the flags.
unfoldable pub on_result : {A : Type 0} → Attempt A → (A → Checked CliOutcome) → Checked CliOutcome
on_result (fails e) next = some (stopped e)
on_result (gives a) next = next a

unfoldable pub on_parsed : {A : Type 0} → Parsed A → (A → Checked CliOutcome) → Checked CliOutcome
on_parsed (error e) next = some (misused e)
on_parsed (value a) next = next a

unfoldable pub count_of : CliArgs → List SourceFile → Parsed ℕ
count_of args sources = on args.redundancy
  where
    on : Option Redundancy → Parsed ℕ
    on (some r) = resolve_redundancy r sources args.flags.slice_size
    on none = value args.recovery_count

abbrev pub options : CliArgs → List ℕ → ℕ → VolumeScheme → CreateOptions
options args output recovery_count scheme = record {
  output = output;
  slice_size = args.flags.slice_size;
  recovery_block_count = recovery_count;
  volume_scheme = scheme;
  comments = args.comments;
}

unfoldable pub finished : Checked Outcome → Checked CliOutcome
finished run = run >>= λ outcome. some (ran outcome)

module _ (md5 : Md5) (crc32 : List ℕ → ℕ) (fs : FileSystem) (os : System) (kernel : Kernel)
    (c : Md5Ctx) (volume_name : List ℕ → ℕ → ℕ → List ℕ) (delivered : List (List ℕ)) where
  -- The run with the scheme that the flags give.
  unfoldable pub run_chosen :
      CliArgs → List ℕ → List SourceFile → ℕ → Parsed VolumeScheme → Checked CliOutcome
  unfolding on_parsed finished
  run_chosen args output sources recovery_count parsed = on_parsed parsed λ scheme. finished (
      run_create md5 volume_name kernel (options args output recovery_count scheme) sources
        delivered)

  unfoldable pub run_counted : CliArgs → List ℕ → List SourceFile → ℕ → Checked CliOutcome
  unfolding run_chosen
  run_counted args output sources recovery_count =
      if ltb max_recovery_blocks recovery_count
      then some (stopped (too_many_recovery_blocks recovery_count))
      else (build_volume_scheme args.flags sources recovery_count >>= λ parsed.
          run_chosen args output sources recovery_count parsed)

  -- What follows the scans.
  unfoldable pub run_scanned : CliArgs → List ℕ → List SourceFile → Checked CliOutcome
  unfolding on_parsed count_of run_counted
  run_scanned args output sources =
      on_parsed (count_of args sources)
        λ recovery_count. run_counted args output sources recovery_count

  unfoldable pub scan_inputs :
      CliArgs → List ℕ → List SourceFile → List (List ℕ) → Checked CliOutcome
  unfolding on_result run_scanned
  scan_inputs args output sources [] = run_scanned args output sources
  scan_inputs args output sources (input ∷ inputs) = do
    scan ← scan_with_progress md5 crc32 c fs input (display_name_for input) args.flags.slice_size
    on_result scan (λ src. scan_inputs args output (sources ++ src ∷ []) inputs)

  unfoldable pub run_expanded : CliArgs → List ℕ → List (List ℕ) → Checked CliOutcome
  unfolding scan_inputs
  run_expanded args output inputs =
      if length inputs == 0
      then some (stopped no_input_files)
      else scan_inputs args output [] inputs

  unfoldable pub run_create_cli : CliArgs → Checked CliOutcome
  unfolding on_result run_expanded
  run_create_cli args = on_result (resolve_output_and_inputs os args.inputs) λ found.
      on_result (expand_input_paths os args.inputs.recurse found.1)
        λ inputs. run_expanded args found.0 inputs

-- The exit code of the process.
unfoldable pub exit_code : CliOutcome → ℕ
exit_code (ran (done written)) = 0
exit_code (ran (failed e written)) = 1
exit_code (stopped e) = 1
exit_code (misused e) = 1
