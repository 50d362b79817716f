-- ===== src/Tests/Options.antt =====
-- The command line's numbers and flags at concrete values.
use par2rust.Base.{ℕ, ◌*◌, ◌%◌, ◌^◌, ◌≡◌, arith, List, [], ◌∷◌, true, false, none, All}
use par2rust.Cli.{value, target_bytes, from_str, CreateArgs}
use par2rust.Cli.Numbers.{IsDigit, decimal, from_str-wraps}

-- 17179869184 is 2^34.
abbrev large : List ℕ
large = b'7' ∷ b'1' ∷ b'7' ∷ b'9' ∷ b'8' ∷ b'6' ∷ b'9' ∷ b'1' ∷ b'8' ∷ b'4' ∷ []

large-IsDigit : All IsDigit (b'1' ∷ large)
large-IsDigit = ground arith

from_str-wraps_example :
    from_str (b'g' ∷ b'1' ∷ large)
    ≡ value (target_bytes (decimal 0 (b'1' ∷ large) * 2 ^ 30 % 2 ^ 64))
unfolding decimal
from_str-wraps_example = from_str-wraps b'1' large large-IsDigit (omega arith)

abbrev args : CreateArgs
args = record {
  slice_size = 4;
  single_volume = false;
  uniform_flag = true;
  limit_size = true;
  volume_count = none;
}
