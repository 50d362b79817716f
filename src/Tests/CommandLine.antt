-- ===== src/Tests/CommandLine.antt =====
-- The command line on a list of inputs, and on two files.
use par2rust.Base.{false}
use par2rust.Create.Fused.{Input}
use par2rust.Base.{ℕ, ◌≡◌, refl, arith, List, [], ◌∷◌, All, none}
use par2rust.Error.{gives, fails, io}
use par2rust.Cli.{CreateArgs}
use par2rust.Cli.Inputs.{System, is_whitespace, trim_end, read_lines}
use par2rust.Cli.Inputs.Lists.{
  Line, path_line, comment_line, blank_line, IsName, IsLine, list_text, paths_of,
  read_lines-list_text,
}
use par2rust.Cli.Run.{CliArgs}

abbrev spaced : List ℕ
spaced = b'a' ∷ b' ' ∷ b'#' ∷ []

spaced-IsName : IsName spaced
unfolding is_whitespace trim_end
spaced-IsName = record {
  first = b'a';
  others = b' ' ∷ b'#' ∷ [];
  whole = refl;
  text = (λ e. omega (arith, e), (λ e. omega (arith, e), (λ e. omega (arith, e), tt)));
  no_comment = λ e. omega (arith, e);
  starts = refl;
  ends = refl;
}

abbrev list : List Line
list =
    comment_line (b' ' ∷ []) (b'x' ∷ []) ∷ path_line (9 ∷ []) spaced (13 ∷ []) ∷ blank_line [] ∷ []

list-IsLine : All IsLine list
unfolding is_whitespace
list-IsLine = (
  (((refl, λ e. omega (arith, e)), tt), (λ e. omega (arith, e), tt)),
  (
    (((refl, λ e. omega (arith, e)), tt), spaced-IsName, ((refl, λ e. omega (arith, e)), tt)),
    (tt, tt),
  ),
)

read_lines-list_text_example : read_lines (list_text list) ≡ paths_of list
read_lines-list_text_example = read_lines-list_text list list-IsLine

abbrev system : System
system = record {
  is_dir = λ p. gives false;
  walk = λ p. [];
  read_text = λ p. fails io;
  stdin_text = fails io;
}

abbrev flags : CreateArgs
flags = record {
  slice_size = 8;
  single_volume = false;
  uniform_flag = false;
  limit_size = false;
  volume_count = none;
}

abbrev args : CliArgs
args = record {
  inputs = record {
    out = none;
    recurse = false;
    input_file = none;
    positionals = (b'o' ∷ []) ∷ (b'a' ∷ []) ∷ (b'/' ∷ b'b' ∷ []) ∷ [];
  };
  flags = flags;
  recovery_count = 3;
  redundancy = none;
  comments = [];
}

abbrev first : Input
first = record { path = b'a' ∷ []; display_name = b'a' ∷ [] }

abbrev second : Input
second = record { path = b'/' ∷ b'b' ∷ []; display_name = b'b' ∷ [] }

abbrev cli_inputs : List Input
cli_inputs = first ∷ second ∷ []
