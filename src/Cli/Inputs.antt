-- ===== src/Cli/Inputs.antt =====
-- src/main.rs: which files the command line names: the archive and the inputs, the list of further inputs, and
-- directories that are walked. A text is its characters and a path its bytes. What the operating system says of a
-- path is an argument, and so is what the crate walkdir finds below a directory.
pub mod Lists
pub mod BaseNames
use par2rust.Base.{
  ℕ, List, [], ◌∷◌, ◌++◌, map, Bool, true, false, ◌&&◌, ◌||◌, not, leb, ◌==◌, if◌then◌else◌, Option,
  none, some,
}
use par2rust.Error.{Par2Error, io, Attempt, gives, fails, and_then}
use par2rust.Format.Framing.{bytes_eq}
use par2rust.Create.Paths.{path_of, file_name, unwrap_str_or}

pub record InputArgs : Type 0 where
  pub out : Option (List ℕ)
  pub recurse : Bool
  pub input_file : Option (List ℕ)
  pub positionals : List (List ℕ)

-- An entry below a directory: whether it is a file, and its path.
abbrev pub Entry : Type 0
Entry = Bool × List ℕ

pub record System : Type 0 where
  pub is_dir : List ℕ → Attempt Bool
  pub walk : List ℕ → List (Attempt Entry)
  pub read_text : List ℕ → Attempt (List ℕ)
  pub stdin_text : Attempt (List ℕ)

unfoldable pub push_char : ℕ → List (List ℕ) → List (List ℕ)
push_char c [] = (c ∷ []) ∷ []
push_char c (line ∷ lines) = (c ∷ line) ∷ lines

-- `BufRead::lines`, but for a carriage return at the end of a line, which `trim` removes.
unfoldable pub lines : List ℕ → List (List ℕ)
unfolding push_char
lines [] = []
lines (c ∷ cs) = if c == 10 then [] ∷ lines cs else push_char c (lines cs)

-- `char::is_whitespace`
unfoldable pub is_whitespace : ℕ → Bool
is_whitespace c =
    (leb 9 c && leb c 13)
    || (c == 32 || c == 0x85 || c == 0xa0 || c == 0x1680)
    || (leb 0x2000 c && leb c 0x200a)
    || (c == 0x2028 || c == 0x2029 || c == 0x202f || c == 0x205f || c == 0x3000)

unfoldable pub trim_start : List ℕ → List ℕ
unfolding is_whitespace
trim_start [] = []
trim_start (c ∷ cs) = let rest = trim_start cs in if is_whitespace c then rest else c ∷ cs

unfoldable pub unless_blank : ℕ → List ℕ → List ℕ
unfolding is_whitespace
unless_blank c [] = if is_whitespace c then [] else c ∷ []
unless_blank c (d ∷ ds) = c ∷ d ∷ ds

unfoldable pub trim_end : List ℕ → List ℕ
unfolding unless_blank
trim_end [] = []
trim_end (c ∷ cs) = unless_blank c (trim_end cs)

unfoldable pub trim : List ℕ → List ℕ
unfolding trim_start trim_end
trim line = trim_end (trim_start line)

unfoldable pub names_path : List ℕ → Bool
names_path [] = false
names_path (c ∷ cs) = not (c == b'#')

unfoldable pub kept : List (List ℕ) → List (List ℕ)
unfolding names_path
kept [] = []
kept (line ∷ rest) = if names_path line then line ∷ kept rest else kept rest

unfoldable pub read_lines : List ℕ → List (List ℕ)
unfolding lines trim kept
read_lines text = kept (map trim (lines text))

unfoldable pub read_input_file_list : System → List ℕ → Attempt (List (List ℕ))
unfolding read_lines and_then bytes_eq
read_input_file_list os path =
    and_then (if bytes_eq path (b'-' ∷ []) then os.stdin_text else os.read_text path)
      λ text. gives (read_lines text)

unfoldable pub further_inputs : System → Option (List ℕ) → Attempt (List (List ℕ))
unfolding read_input_file_list
further_inputs os none = gives []
further_inputs os (some list_path) = read_input_file_list os list_path

-- The archive and the inputs among the positional arguments.
unfoldable pub archive_and_inputs :
    Option (List ℕ) → List (List ℕ) → Attempt (List ℕ × List (List ℕ))
archive_and_inputs (some path) positionals = gives (path, positionals)
archive_and_inputs none [] = fails io
archive_and_inputs none (archive ∷ inputs) = gives (archive, inputs)

unfoldable pub resolve_output_and_inputs : System → InputArgs → Attempt (List ℕ × List (List ℕ))
unfolding archive_and_inputs further_inputs and_then
resolve_output_and_inputs os args =
    and_then (archive_and_inputs args.out args.positionals)
      λ found. and_then (further_inputs os args.input_file) λ more. gives (found.0, found.1 ++ more)

-- The files among the entries of a walk, up to the first that reports an error.
unfoldable pub walked : List (Attempt Entry) → Attempt (List (List ℕ))
unfolding and_then
walked [] = gives []
walked (fails e ∷ entries) = fails io
walked (gives entry ∷ entries) =
    and_then (walked entries) λ rest. gives (if entry.0 then entry.1 ∷ rest else rest)

unfoldable pub expanded_one : System → Bool → List ℕ → Attempt (List (List ℕ))
unfolding walked and_then
expanded_one os recurse p = and_then (os.is_dir p) λ directory.
    if not directory then gives (p ∷ []) else if not recurse then fails io else walked (os.walk p)

unfoldable pub expand_input_paths : System → Bool → List (List ℕ) → Attempt (List (List ℕ))
unfolding expanded_one and_then
expand_input_paths os recurse [] = gives []
expand_input_paths os recurse (p ∷ raw) =
    and_then (expanded_one os recurse p)
      λ files. and_then (expand_input_paths os recurse raw) λ rest. gives (files ++ rest)

unfoldable pub display_name_for : List ℕ → List ℕ
unfolding path_of file_name unwrap_str_or
display_name_for input = unwrap_str_or (file_name (path_of input)) input
