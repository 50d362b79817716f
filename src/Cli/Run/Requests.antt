-- ===== src/Cli/Run/Requests.antt =====
-- src/main.rs: what the command line asks for: the archive, the inputs and the number of recovery blocks.
use par2rust.Base.{
  Bool, ℕ, ◌^◌, ◌<◌, ◌≡◌, refl, sym, arith, List, [], ◌∷◌, map, false, All, none, some,
}
use par2rust.Packet.{SourceFile}
use par2rust.Error.{gives, and_then}
use par2rust.Create.Fused.{Input}
use par2rust.Base.{subst}
use par2rust.Cli.{resolve_redundancy, Parsed, value, Redundancy}
use par2rust.Cli.Choices.Blocks.{
  Asked, by_percent, over_percent, by_bytes, over_bytes, Fits, resolve_redundancy-Asked,
}
use par2rust.Create.{total_input_blocks}
use par2rust.Cli.Inputs.{InputArgs}
use par2rust.Base.{Option, inl, inr, Option-cases}
use par2rust.Cli.Inputs.{System, archive_and_inputs, expanded_one, expand_input_paths}
use par2rust.Cli.Run.{CliArgs, count_of}

pub All-paths :
    (os : System) (inputs : List Input)
    → All (λ (i : Input). os.is_dir i.path ≡ gives false) inputs
    → All (λ p. os.is_dir p ≡ gives false) (map (λ (i : Input). i.path) inputs)
All-paths os [] h = tt
All-paths os (i ∷ inputs) h = (h.0, All-paths os inputs h.1)

-- The path of the archive and of the inputs: with `-o` all arguments are inputs, else the first is the archive.
pub data Names (args : InputArgs) (output : List ℕ) (paths : List (List ℕ)) : Type 0 where
  by_option : args.out ≡ some output → args.positionals ≡ paths → Names args output paths
  by_position : args.out ≡ none → args.positionals ≡ output ∷ paths → Names args output paths

pub Names-found :
    (args : InputArgs) (output : List ℕ) (paths : List (List ℕ))
    → Names args output paths
    → archive_and_inputs args.out args.positionals ≡ gives (output, paths)
unfolding archive_and_inputs
Names-found args output paths (by_option o p) = rw (o, p) refl
Names-found args output paths (by_position o p) = rw (o, p) refl

-- A percentage is a 32-bit number.
unfoldable pub FitsOption : Option Redundancy → Type 0
FitsOption none = Unit
FitsOption (some r) = Fits r

-- The number of recovery blocks: what `-r` asks for, or else the one given.
pub data Counted (args : CliArgs) (sources : List SourceFile) : Parsed ℕ → Type 0 where
  given : args.redundancy ≡ none → Counted args sources (value args.recovery_count)
  asked :
      (r : Redundancy) {parsed : Parsed ℕ}
      → args.redundancy ≡ some r
      → Asked (total_input_blocks sources) args.flags.slice_size r parsed
      → Counted args sources parsed

pub Counted-positive :
    (args : CliArgs) (sources : List SourceFile) (n : ℕ)
    → 0 < args.recovery_count
    → args.recovery_count < 2 ^ 32
    → Counted args sources (value n)
    → (0 < n) × (n < 2 ^ 32)
Counted-positive args sources _ pos small (given e) = (pos, small)
Counted-positive args sources n pos small (asked r e a) = Asked-positive a
  where
    Asked-positive :
        {total size n : ℕ} {r : Redundancy} → Asked total size r (value n) → (0 < n) × (n < 2 ^ 32)
    Asked-positive (by_percent p n pos small reach least) = (pos, small)
    Asked-positive (over_percent p over) = (omega arith, omega arith)
    Asked-positive (by_bytes b n pos small reach least) = (pos, small)
    Asked-positive (over_bytes b over) = (omega arith, omega arith)

pub count_of-Counted :
    (args : CliArgs) (sources : List SourceFile)
    → 0 < args.flags.slice_size
    → total_input_blocks sources < 2 ^ 32
    → FitsOption args.redundancy
    → Counted args sources (count_of args sources)
unfolding count_of FitsOption
count_of-Counted args sources sized few fits = elim (Option-cases args.redundancy) [
  | inl e ↦ subst (Counted args sources) (sym (given_count e)) (given e)
  | inr (r, e) ↦ subst (Counted args sources) (sym (asked_count r e)) (
      asked r e (
        resolve_redundancy-Asked r sources args.flags.slice_size sized few
          (subst FitsOption e fits)))
]
  where
    given_count : args.redundancy ≡ none → count_of args sources ≡ value args.recovery_count
    given_count e = rw e refl

    asked_count :
        (r : Redundancy)
        → args.redundancy ≡ some r
        → count_of args sources ≡ resolve_redundancy r sources args.flags.slice_size
    asked_count r e = rw e refl

-- Files are passed through, whether directories are to be walked or not.
pub expand_input_paths-files :
    (os : System) (recurse : Bool) (paths : List (List ℕ))
    → All (λ p. os.is_dir p ≡ gives false) paths
    → expand_input_paths os recurse paths ≡ gives paths
unfolding expand_input_paths expanded_one and_then
expand_input_paths-files os recurse [] h = refl
expand_input_paths-files os recurse (p ∷ paths) h =
    let file = h.0 in
    let rest = expand_input_paths-files os recurse paths h.1 in rw (file, rest) refl
