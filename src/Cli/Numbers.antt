-- ===== src/Cli/Numbers.antt =====
-- The numbers of the command line.
use par2rust.Base.{
  ℕ, ◌+◌, ◌-◌, ◌*◌, ◌%◌, ◌^◌, ◌<◌, ◌≤◌, ◌≡◌, arith, List, [], ◌∷◌, true, leb, if◌then◌else◌, none,
  some, All,
}
use par2rust.Cli.{
  value, parse_digits, parse_signed, parse, target_bytes, is_either, checked_shl, shifted,
  shift_parsed, target_of, from_str,
}

abbrev pub IsDigit : ℕ → Type 0
IsDigit d = (b'0' ≤ d) × (d ≤ b'9')

-- The number that decimal digits mean, `acc` before them.
unfoldable pub decimal : ℕ → List ℕ → ℕ
decimal acc [] = acc
decimal acc (d ∷ ds) = decimal (acc * 10 + (d - b'0')) ds

decimal-grows : (acc : ℕ) (ds : List ℕ) → acc ≤ decimal acc ds
unfolding decimal
decimal-grows acc [] = omega arith
decimal-grows acc (d ∷ ds) = omega (arith, decimal-grows (acc * 10 + (d - b'0')) ds)

parse_digits_lem :
    (limit acc : ℕ) (ds : List ℕ)
    → acc ≤ limit
    → All IsDigit ds
    → parse_digits limit acc ds
      ≡ (if leb (decimal acc ds) limit then some (decimal acc ds) else none)
unfolding parse_digits decimal
parse_digits_lem limit acc [] small h = ground arith
parse_digits_lem limit acc (d ∷ ds) small h =
    let next = acc * 10 + (d - b'0') in
    let grows = decimal-grows next ds in
    let rest : next ≤ limit → _ = λ le. parse_digits_lem limit next ds le h.1 in
    ground (arith, rest)

-- Decimal digits parse to the number that they mean where it fits, and are refused where it does not.
pub parse-decimal :
    (limit d : ℕ) (ds : List ℕ)
    → All IsDigit (d ∷ ds)
    → parse limit (d ∷ ds)
      ≡ (if leb (decimal 0 (d ∷ ds)) limit then some (decimal 0 (d ∷ ds)) else none)
unfolding parse parse_signed
parse-decimal limit d [] h =
    let whole = parse_digits_lem limit 0 (d ∷ []) (omega arith) h in ground (arith, whole)
parse-decimal limit d (e ∷ ds) h =
    let whole = parse_digits_lem limit 0 (d ∷ e ∷ ds) (omega arith) h in ground (arith, whole)

-- A `g` and digits whose number fits 64 bits are never refused: the number of bytes is 2^30 times the
-- number modulo 2^64, so the high bits of a large value are lost.
pub from_str-wraps :
    (d : ℕ) (ds : List ℕ)
    → All IsDigit (d ∷ ds)
    → decimal 0 (d ∷ ds) < 2 ^ 64
    → from_str (b'g' ∷ d ∷ ds) ≡ value (target_bytes (decimal 0 (d ∷ ds) * 2 ^ 30 % 2 ^ 64))
unfolding from_str is_either target_of shift_parsed shifted checked_shl
from_str-wraps d ds h fits =
    let small : leb (decimal 0 (d ∷ ds)) (2 ^ 64 - 1) ≡ true = ground arith in
    let parsed = parse-decimal (2 ^ 64 - 1) d ds h in rw (parsed, small)
