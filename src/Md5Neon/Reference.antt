-- ===== src/Md5Neon/Reference.antt =====
-- MD5 as RFC 1321 defines it, one message at a time: the message is padded to blocks of 64 bytes, and each block
-- is mixed into four words by 64 operations. The constants are taken from the sine, and the four words change
-- places after each operation.
use par2rust.Base.{
  ℕ, zero, suc, ◌+◌, ◌-◌, ◌*◌, ◌/◌, ◌%◌, ◌^◌, List, [], ◌∷◌, ◌++◌, length, take, drop, replicate,
  bit_and, bit_or, bit_xor,
}
use par2rust.Base.Bytes.{to_le_bytes}
use par2rust.GaloisSimd.Vectors.{byte_at}
use par2rust.Md5Neon.Block.{Registers}

-- The difference of the even and the odd terms of the Taylor series of the sine at `x`, from the term
-- `term` with the exponent `k` on, as many as `n` says. The sums change sides with each term.
unfoldable pub sine_series : ℕ → ℕ → ℕ → ℕ → ℕ → ℕ → ℕ
sine_series zero x k term plus minus = (plus - minus) + (minus - plus)
sine_series (suc n) x k term plus minus =
    sine_series n x (k + 2) (term * x * x / ((k + 1) * (k + 2))) minus (plus + term)

-- The integer part of 2^32 times the absolute value of sin (i + 1), with 256 binary digits after the point.
unfoldable pub sine_constant : ℕ → ℕ
unfolding sine_series
sine_constant i = sine_series 150 (i + 1) 1 ((i + 1) * 2 ^ 256) 0 0 / 2 ^ 224

abbrev pub Function : Type 0
Function = ℕ → ℕ → ℕ → ℕ

unfoldable pub complement : ℕ → ℕ
complement x = 2 ^ 32 - 1 - x

unfoldable pub function_f : Function
unfolding complement
function_f x y z = bit_or (bit_and x y) (bit_and (complement x) z)

unfoldable pub function_g : Function
unfolding complement
function_g x y z = bit_or (bit_and x z) (bit_and y (complement z))

unfoldable pub function_h : Function
function_h x y z = bit_xor x (bit_xor y z)

unfoldable pub function_i : Function
unfolding complement
function_i x y z = bit_xor y (bit_or x (complement z))

unfoldable pub rotated_left : ℕ → ℕ → ℕ
rotated_left s x = bit_or (x * 2 ^ s % 2 ^ 32) (x / 2 ^ (32 - s))

-- One of the four rounds: its function, the index of the message word of each operation, and the four shifts.
pub record Round : Type 0 where
  pub function : Function
  pub index : ℕ → ℕ
  pub shifts : List ℕ

unfoldable pub operation : Round → (ℕ → ℕ) → ℕ → Registers ℕ → Registers ℕ
unfolding rotated_left sine_constant byte_at
operation round m i r =
    let sum =
      (r.aa + round.function r.bb r.cc r.dd + m (round.index i) + sine_constant i) % 2 ^ 32 in
    record {
      aa = r.dd;
      bb = (r.bb + rotated_left (byte_at round.shifts (i % 4)) sum) % 2 ^ 32;
      cc = r.bb;
      dd = r.cc;
    }

-- Operations from number `i` on, `n` of them.
unfoldable pub operations : Round → (ℕ → ℕ) → ℕ → ℕ → Registers ℕ → Registers ℕ
unfolding operation
operations round m zero i r = r
operations round m (suc n) i r = operations round m n (i + 1) (operation round m i r)

unfoldable pub first_round : Round
unfolding function_f
first_round = record { function = function_f; index = λ i. i % 16; shifts = 7 ∷ 12 ∷ 17 ∷ 22 ∷ [] }

unfoldable pub second_round : Round
unfolding function_g
second_round = record {
  function = function_g;
  index = λ i. (5 * i + 1) % 16;
  shifts = 5 ∷ 9 ∷ 14 ∷ 20 ∷ [];
}

unfoldable pub third_round : Round
unfolding function_h
third_round = record {
  function = function_h;
  index = λ i. (3 * i + 5) % 16;
  shifts = 4 ∷ 11 ∷ 16 ∷ 23 ∷ [];
}

unfoldable pub fourth_round : Round
unfolding function_i
fourth_round = record {
  function = function_i;
  index = λ i. 7 * i % 16;
  shifts = 6 ∷ 10 ∷ 15 ∷ 21 ∷ [];
}

unfoldable pub compress : (ℕ → ℕ) → Registers ℕ → Registers ℕ
unfolding operations first_round second_round third_round fourth_round
compress m r =
    let first = operations first_round m 16 0 r in
    let second = operations second_round m 16 16 first in
    let third = operations third_round m 16 32 second in
    let fourth = operations fourth_round m 16 48 third in
    record {
      aa = (r.aa + fourth.aa) % 2 ^ 32;
      bb = (r.bb + fourth.bb) % 2 ^ 32;
      cc = (r.cc + fourth.cc) % 2 ^ 32;
      dd = (r.dd + fourth.dd) % 2 ^ 32;
    }

-- The words of a block, of four bytes each with the lowest first.
unfoldable pub words : List ℕ → ℕ → ℕ
unfolding byte_at
words block i =
    byte_at block (4 * i)
    + 2 ^ 8 * byte_at block (4 * i + 1)
    + 2 ^ 16 * byte_at block (4 * i + 2)
    + 2 ^ 24 * byte_at block (4 * i + 3)

-- The message, a 1 bit, as many 0 bits as fill the last block but 8 bytes, and the number of bits.
unfoldable pub padded : List ℕ → List ℕ
unfolding to_le_bytes
padded bytes =
    let n = length bytes in
    bytes ++ 0x80 ∷ (replicate ((119 - n % 64) % 64) 0 ++ to_le_bytes 8 (8 * n % 2 ^ 64))

unfoldable pub absorb : ℕ → List ℕ → Registers ℕ → Registers ℕ
unfolding compress words
absorb zero bytes r = r
absorb (suc n) bytes r = absorb n (drop 64 bytes) (compress (words (take 64 bytes)) r)

abbrev pub initial : Registers ℕ
initial = record { aa = 0x67452301; bb = 0xefcdab89; cc = 0x98badcfe; dd = 0x10325476 }

unfoldable pub output : Registers ℕ → List ℕ
unfolding to_le_bytes
output r = to_le_bytes 4 r.aa ++ (to_le_bytes 4 r.bb ++ (to_le_bytes 4 r.cc ++ to_le_bytes 4 r.dd))

unfoldable pub digest : List ℕ → List ℕ
unfolding padded absorb output
digest bytes = output (absorb (length (padded bytes) / 64) (padded bytes) initial)
