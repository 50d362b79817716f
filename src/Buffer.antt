-- ===== src/Buffer.antt =====
-- Byte buffers read as little-endian 16-bit symbols, and the loop that every kernel runs over them.
pub mod Symbols
use par2rust.Base.{
  ℕ, zero, suc, ◌+◌, ◌*◌, ◌/◌, ◌%◌, ◌^◌, ◌<◌, ◌≡◌, List, [], ◌∷◌, bit_xor, length, All, Bool, ◌==◌,
  ◌&&◌,
}

abbrev pub IsBytes : List ℕ → Type 0
IsBytes = All (λ b. b < 2 ^ 8)

-- What `debug_assert_eq!` states of an input and an output at the head of each kernel.
abbrev pub same_shape : List ℕ → List ℕ → Bool
same_shape input output = length input == length output && (length input % 2 == 0)

-- `for k in 0..input.len() / 2 { output[2k] ^= p.0; output[2k + 1] ^= p.1; }`, where `p` is what `body`
-- computes from `input[2k]` and `input[2k + 1]`. Buffers have the same even length.
unfoldable pub xor_pairs : (ℕ → ℕ → ℕ × ℕ) → List ℕ → List ℕ → List ℕ
xor_pairs body (a ∷ b ∷ input) (x ∷ y ∷ output) =
    let p = body a b in bit_xor x p.0 ∷ bit_xor y p.1 ∷ xor_pairs body input output
xor_pairs body _ output = output

-- `for (o, i) in output.iter_mut().zip(input.iter()) { *o ^= *i; }`
unfoldable pub xor_bytes : List ℕ → List ℕ → List ℕ
xor_bytes (i ∷ input) (o ∷ output) = bit_xor o i ∷ xor_bytes input output
xor_bytes _ output = output

-- The symbols of a buffer, low byte first.
unfoldable pub symbols : List ℕ → List ℕ
symbols (a ∷ b ∷ rest) = (a + 2 ^ 8 * b) ∷ symbols rest
symbols _ = []
