-- ===== src/Cli.antt =====
-- src/main.rs: what the command line's numbers and flags mean. A string is a list of bytes. Parsing of
-- the flags themselves is a crate's.
pub mod Numbers
pub mod Choices
pub mod Inputs
pub mod Run
pub mod Reporter
use par2rust.Base.{
  ℕ, zero, suc, ◌+◌, ◌-◌, ◌*◌, ◌/◌, ◌%◌, ◌^◌, List, [], ◌∷◌, length, take, min, max, Bool, true,
  false, ◌||◌, ◌&&◌, not, ltb, leb, ◌==◌, if◌then◌else◌, Option, none, some,
}
use par2rust.Base.Checked.{Checked, ◌>>=◌, ◌>>◌, assert}
use par2rust.Packet.{SourceFile}
use par2rust.Volume.{VolumeScheme, single, exponential, uniform, limited}
use par2rust.Create.{total_input_blocks, div_ceil}

-- The value or the text of an error, as a constructor.
pub data CliError : Type 0 where
  empty_value : CliError
  missing_number : CliError
  invalid_number : CliError
  overflows : CliError
  no_blocks : CliError
  single_with_others : CliError
  count_without_uniform : CliError
  limit_without_data : CliError

pub data Parsed (A : Type 0) : Type 0 where
  value : A → Parsed A
  error : CliError → Parsed A

-- `str::parse` for an unsigned number up to `limit`: an optional plus sign and decimal digits.
unfoldable pub parse_digits : ℕ → ℕ → List ℕ → Option ℕ
parse_digits limit acc [] = some acc
parse_digits limit acc (d ∷ ds) =
    let next = acc * 10 + (d - b'0') in
    let rest = parse_digits limit next ds in
    if leb b'0' d && leb d b'9' && leb next limit then rest else none

unfoldable pub parse_signed : ℕ → ℕ → List ℕ → Option ℕ
parse_signed limit c [] = if c == b'+' then none else parse_digits limit 0 (c ∷ [])
parse_signed limit c (d ∷ ds) =
    if c == b'+' then parse_digits limit 0 (d ∷ ds) else parse_digits limit 0 (c ∷ d ∷ ds)

unfoldable pub parse : ℕ → List ℕ → Option ℕ
parse limit [] = none
parse limit (c ∷ cs) = parse_signed limit c cs

unfoldable pub is_either : ℕ → ℕ → ℕ → Bool
is_either a b c = c == a || c == b

unfoldable pub last_of : ℕ → List ℕ → ℕ
last_of c [] = c
last_of c (d ∷ ds) = last_of d ds

unfoldable pub multiply : ℕ → Option ℕ → Parsed ℕ
multiply shift none = error invalid_number
multiply shift (some n) =
    let product = n * 2 ^ shift in
    if leb product (2 ^ 64 - 1) then value product else error overflows

unfoldable pub parse_scaled : List ℕ → ℕ → Parsed ℕ
parse_scaled [] shift = error missing_number
parse_scaled (c ∷ cs) shift = multiply shift (parse (2 ^ 64 - 1) (c ∷ cs))

unfoldable pub parse_slice_size : List ℕ → Parsed ℕ
parse_slice_size [] = error empty_value
parse_slice_size (c ∷ cs) =
    let s = c ∷ cs in
    let last = last_of c cs in
    let digits = take (length s - 1) s in
    if is_either b'b' b'B' last
    then parse_scaled digits 0
    else if is_either b'k' b'K' last
    then parse_scaled digits 10
    else if is_either b'm' b'M' last
    then parse_scaled digits 20
    else if is_either b'g' b'G' last
    then parse_scaled digits 30
    else parse_scaled s 0

pub data Redundancy : Type 0 where
  percent : ℕ → Redundancy
  target_bytes : ℕ → Redundancy

-- `u64::checked_shl`: it fails for a shift of 64 or more; bits beyond 64 are lost.
unfoldable pub checked_shl : ℕ → ℕ → Option ℕ
checked_shl n shift = if ltb shift 64 then some (n * 2 ^ shift % 2 ^ 64) else none

unfoldable pub shifted : Option ℕ → Parsed Redundancy
shifted (some bytes) = value (target_bytes bytes)
shifted none = error overflows

unfoldable pub shift_parsed : ℕ → Option ℕ → Parsed Redundancy
shift_parsed shift none = error invalid_number
shift_parsed shift (some n) = shifted (checked_shl n shift)

unfoldable pub target_of : ℕ → List ℕ → Parsed Redundancy
target_of shift [] = error missing_number
target_of shift (c ∷ cs) = shift_parsed shift (parse (2 ^ 64 - 1) (c ∷ cs))

unfoldable pub percent_of : Option ℕ → Parsed Redundancy
percent_of none = error invalid_number
percent_of (some n) = value (percent n)

unfoldable pub from_str : List ℕ → Parsed Redundancy
from_str [] = error empty_value
from_str (first ∷ rest) =
    if is_either b'k' b'K' first
    then target_of 10 rest
    else if is_either b'm' b'M' first
    then target_of 20 rest
    else if is_either b'g' b'G' first
    then target_of 30 rest
    else percent_of (parse (2 ^ 32 - 1) (first ∷ rest))

unfoldable pub blocks_for : Redundancy → ℕ → ℕ → ℕ
blocks_for (percent p) total slice_size = div_ceil (min (total * p) (2 ^ 64 - 1)) 100
blocks_for (target_bytes b) total slice_size = div_ceil b (max slice_size 1)

unfoldable pub resolve_redundancy : Redundancy → List SourceFile → ℕ → Parsed ℕ
resolve_redundancy r sources slice_size =
    let blocks = blocks_for r (total_input_blocks sources % 2 ^ 64) slice_size in
    if blocks == 0 then error no_blocks else value (min blocks (2 ^ 32 - 1))

pub record CreateArgs : Type 0 where
  pub slice_size : ℕ
  pub single_volume : Bool
  pub uniform_flag : Bool
  pub limit_size : Bool
  pub volume_count : Option ℕ

unfoldable pub default_uniform_count : ℕ → ℕ
default_uniform_count recovery_count = max 1 (min recovery_count 15)

unfoldable pub unwrap_or : Option ℕ → ℕ → ℕ
unwrap_or none d = d
unwrap_or (some n) d = n

unfoldable pub is_some : Option ℕ → Bool
is_some none = false
is_some (some n) = true

unfoldable pub largest_length : List SourceFile → ℕ
largest_length [] = 0
largest_length (s ∷ sources) = max s.length (largest_length sources)

-- A slice size of 0 would divide by 0.
unfoldable pub limited_to : ℕ → ℕ → VolumeScheme → Checked (Parsed VolumeScheme)
limited_to largest slice_size inner = do
  assert (ltb 0 slice_size)
  some (value (limited (min (max (largest / slice_size) 1) (2 ^ 32 - 1)) inner))

unfoldable pub build_volume_scheme :
    CreateArgs → List SourceFile → ℕ → Checked (Parsed VolumeScheme)
build_volume_scheme args sources recovery_count =
    let inner =
      if args.uniform_flag
      then uniform (unwrap_or args.volume_count (default_uniform_count recovery_count))
      else exponential in
    let largest = largest_length sources in
    if args.single_volume && (args.uniform_flag || args.limit_size || is_some args.volume_count)
    then some (error single_with_others)
    else if args.single_volume
    then some (value single)
    else if is_some args.volume_count && not args.uniform_flag
    then some (error count_without_uniform)
    else if not args.limit_size
    then some (value inner)
    else if largest == 0
    then some (error limit_without_data)
    else limited_to largest args.slice_size inner
