-- ===== src/GaloisSimd/Vectors.antt =====
-- The vector instructions of std::arch that the kernels use. A vector is a function from the index of a
-- byte to the byte, of which the first 16, 32 or 64 count; an instruction that works inside each 128-bit
-- lane is one function for all widths. A vector of quadwords is a function from the quadword's index.
use par2rust.Base.{
  ℕ, zero, suc, ◌+◌, ◌-◌, ◌*◌, ◌/◌, ◌%◌, ◌^◌, List, [], ◌∷◌, bit_and, bit_xor, ltb, ◌==◌,
  if◌then◌else◌,
}

abbrev pub Vector : Type 0
Vector = ℕ → ℕ

unfoldable pub byte_at : List ℕ → ℕ → ℕ
byte_at [] i = 0
byte_at (b ∷ bs) zero = b
byte_at (b ∷ bs) (suc i) = byte_at bs i

-- A load from `bytes`, `off` bytes in.
unfoldable pub loadu : List ℕ → ℕ → Vector
loadu bytes off = λ i. byte_at bytes (off + i)

-- The bytes that a store writes: those with indices from `i` on, `n` of them.
unfoldable pub stored_from : ℕ → ℕ → Vector → List ℕ
stored_from i zero v = []
stored_from i (suc n) v = v i ∷ stored_from (i + 1) n v

unfoldable pub stored : ℕ → Vector → List ℕ
unfolding stored_from
stored n v = stored_from 0 n v

unfoldable pub set1 : ℕ → Vector
set1 b = λ i. b

-- Bytes given from the lowest index on.
unfoldable pub setr : List ℕ → Vector
setr bs = byte_at bs

unfoldable pub xor : Vector → Vector → Vector
xor a b = λ i. bit_xor (a i) (b i)

unfoldable pub and : Vector → Vector → Vector
and a b = λ i. bit_and (a i) (b i)

-- A 128-bit vector in each lane.
unfoldable pub broadcast : Vector → Vector
broadcast v = λ i. v (i % 16)

-- `shuffle_epi8`: an index with its highest bit set gives 0, any other picks a byte of its lane.
unfoldable pub shuffle_epi8 : Vector → Vector → Vector
shuffle_epi8 a idx = λ i. if ltb (idx i) 128 then a (i / 16 * 16 + idx i % 16) else 0

-- `unpacklo_epi64`: the low halves of each lane, one after the other.
unfoldable pub unpacklo_epi64 : Vector → Vector → Vector
unpacklo_epi64 a b = λ i. if ltb (i % 16) 8 then a i else b (i - 8)

-- `unpacklo_epi8` and `unpackhi_epi8`: the bytes of the low or high halves of each lane by turns.
unfoldable pub unpacklo_epi8 : Vector → Vector → Vector
unpacklo_epi8 a b =
    λ i. let from = i / 16 * 16 + i % 16 / 2 in if i % 2 == 0 then a from else b from

unfoldable pub unpackhi_epi8 : Vector → Vector → Vector
unpackhi_epi8 a b =
    λ i. let from = i / 16 * 16 + 8 + i % 16 / 2 in if i % 2 == 0 then a from else b from

-- `srli_epi16`: each pair of bytes is a 16-bit number, shifted right.
unfoldable pub srli_epi16 : Vector → ℕ → Vector
srli_epi16 v n = λ i.
    let word = v (i / 2 * 2) + 2 ^ 8 * v (i / 2 * 2 + 1) in
    if i % 2 == 0 then word / 2 ^ n % 2 ^ 8 else word / 2 ^ n / 2 ^ 8

-- `permutex2var_epi64`: quadwords picked from two vectors of eight.
unfoldable pub permutex2var_epi64 : Vector → Vector → Vector → Vector
permutex2var_epi64 a idx b =
    λ i. let q = idx (i / 8) in if ltb q 8 then a (q * 8 + i % 8) else b ((q - 8) * 8 + i % 8)

-- `vqtbl1q_u8`: an index beyond the table gives 0.
unfoldable pub vqtbl1q : Vector → Vector → Vector
vqtbl1q table idx = λ i. if ltb (idx i) 16 then table (idx i) else 0

unfoldable pub vshrq_n : Vector → ℕ → Vector
vshrq_n v n = λ i. v i / 2 ^ n

-- `vld2q_u8`: the even bytes and the odd bytes; `vst2q_u8` stores them by turns.
unfoldable pub vld2q : List ℕ → ℕ → Vector × Vector
vld2q bytes off = (λ i. byte_at bytes (off + 2 * i), λ i. byte_at bytes (off + 2 * i + 1))

unfoldable pub vst2q : Vector × Vector → List ℕ
unfolding stored stored_from
vst2q pair = stored 32 (λ i. if i % 2 == 0 then pair.0 (i / 2) else pair.1 (i / 2))
