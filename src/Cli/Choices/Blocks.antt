-- ===== src/Cli/Choices/Blocks.antt =====
-- src/main.rs: the number of recovery blocks that `-r` asks for.
use par2rust.Base.{
  ℕ, ◌+◌, ◌-◌, ◌*◌, ◌%◌, ◌^◌, ◌<◌, ◌≤◌, ◌≡◌, arith, List, min, max, Bool-cases, inl, inr, ==→eq,
  ==→ne, ◌==◌, ltb, ltb→lt, subst, sym, ap, if◌then◌else◌,
}
use native.Mathlib.Nat.{add-mul, one-mul, mul-le-mul_right}
use par2rust.Packet.{SourceFile}
use par2rust.Create.{total_input_blocks, div_ceil}
use par2rust.Create.Fused.Counts.{div_ceil_covers}
use par2rust.Cli.{
  Parsed, value, error, no_blocks, Redundancy, percent, target_bytes, blocks_for,
  resolve_redundancy,
}

-- The blocks that a redundancy asks for, over `total` input blocks of `size` bytes: the least number that reaches
-- the percentage or the bytes, an error where that is none, and the largest 32-bit number where that is smaller.
pub data Asked (total size : ℕ) : Redundancy → Parsed ℕ → Type 0 where
  by_percent :
      (p n : ℕ)
      → 0 < n
      → n < 2 ^ 32
      → total * p ≤ 100 * n
      → 100 * n < total * p + 100
      → Asked total size (percent p) (value n)
  no_percent : (p : ℕ) → total * p ≡ 0 → Asked total size (percent p) (error no_blocks)
  over_percent :
      (p : ℕ) → 100 * (2 ^ 32 - 1) < total * p → Asked total size (percent p) (value (2 ^ 32 - 1))
  by_bytes :
      (b n : ℕ)
      → 0 < n
      → n < 2 ^ 32
      → b ≤ n * size
      → n * size < b + size
      → Asked total size (target_bytes b) (value n)
  no_bytes : Asked total size (target_bytes 0) (error no_blocks)
  over_bytes :
      (b : ℕ) → (2 ^ 32 - 1) * size < b → Asked total size (target_bytes b) (value (2 ^ 32 - 1))

-- A percentage is a 32-bit number.
unfoldable pub Fits : Redundancy → Type 0
Fits (percent p) = p < 2 ^ 32
Fits (target_bytes b) = Unit

-- A percentage, rounded up.
blocks_for-percent :
    (p total slice_size : ℕ)
    → total < 2 ^ 32
    → p < 2 ^ 32
    → (total * p ≤ 100 * blocks_for (percent p) total slice_size)
      × (100 * blocks_for (percent p) total slice_size < total * p + 100)
unfolding blocks_for div_ceil
blocks_for-percent p total slice_size h k =
    let fits : total * p ≤ 2 ^ 32 * 2 ^ 32 - 1 = grind arith in ground arith

saturated :
    (A : Parsed ℕ → Type 0) (n : ℕ)
    → (n ≡ 0 → A (error no_blocks))
    → (0 < n → n < 2 ^ 32 → A (value n))
    → (2 ^ 32 - 1 < n → A (value (2 ^ 32 - 1)))
    → A (if n == 0 then error no_blocks else value (min n (2 ^ 32 - 1)))
saturated A n none_left fits over = elim (Bool-cases (n == 0)) [
  | inl z ↦ rw z (none_left (==→eq n 0 z))
  | inr s ↦
      let pos = ==→ne n 0 s in
      elim (Bool-cases (ltb n (2 ^ 32))) [
        | inl low ↦
            let small = ltb→lt n (2 ^ 32) low in
            let same : min n (2 ^ 32 - 1) ≡ n = omega arith in
            rw (s, same) (fits (omega arith) small)
        | inr high ↦
            let large : 2 ^ 32 ≤ n = ground arith in
            let cut : min n (2 ^ 32 - 1) ≡ 2 ^ 32 - 1 = omega arith in
            rw (s, cut) (over (omega arith))
      ]
]

-- For fewer than 2^32 input blocks, a positive slice size and a percentage below 2^32, the number of recovery
-- blocks is the least one that reaches the percentage of the input blocks, or the bytes that are asked for; it is
-- an error where that is none, and 2^32 - 1 where that does not fit 32 bits.
pub resolve_redundancy-Asked :
    (r : Redundancy) (sources : List SourceFile) (size : ℕ)
    → 0 < size
    → total_input_blocks sources < 2 ^ 32
    → Fits r
    → Asked (total_input_blocks sources) size r (resolve_redundancy r sources size)
unfolding resolve_redundancy Fits blocks_for
resolve_redundancy-Asked (percent p) sources size sized few fits =
    let total = total_input_blocks sources in
    let whole : total % 2 ^ 64 ≡ total = omega arith in
    let n = blocks_for (percent p) total size in
    let reach = blocks_for-percent p total size few fits in
    rw whole (
      saturated (Asked total size (percent p)) n (λ z. no_percent p (omega arith))
        (λ pos small. by_percent p n pos small reach.0 reach.1)
        (λ large. over_percent p (omega arith)))
resolve_redundancy-Asked (target_bytes b) sources size sized few fits =
    let total = total_input_blocks sources in
    let n = div_ceil b size in
    let same : max size 1 ≡ size = omega arith in
    let reach = div_ceil_covers b size sized in
    let none_asked : n ≡ 0 → Asked total size (target_bytes b) (error no_blocks) = λ z.
      let e : b ≡ 0 = omega (arith, reach, ap (λ (k : ℕ). k * size) z) in
      subst (λ (x : ℕ). Asked total size (target_bytes x) (error no_blocks)) (sym e) no_bytes in
    rw same (
      saturated (Asked total size (target_bytes b)) n none_asked
        (λ pos small. by_bytes b n pos small reach.0 reach.1)
        (λ large.
          let large' : 2 ^ 32 - 1 + 1 ≤ n = omega arith in
          over_bytes b (
            omega
              (arith, mul-le-mul_right size large', add-mul (2 ^ 32 - 1) 1 size, one-mul size))))
