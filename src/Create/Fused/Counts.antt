-- ===== src/Create/Fused/Counts.antt =====
-- How many slices a file has: the scan and the guards count the same.
use par2rust.Base.{
  ℕ, zero, suc, ◌+◌, ◌*◌, ◌/◌, ◌%◌, ◌<◌, ◌≤◌, ◌≡◌, ap, ◌∙◌, arith, List, [], ◌∷◌, length,
  length-drop, drop, ltb, ltb→lt, ◌-◌, ◌⊎◌, ◌==◌, false, Bool-cases, ==→eq, ==→ne, inl, inr,
}
use native.Mathlib.Nat.{suc-mul, add-mul}
use par2rust.Create.{div_ceil}
use par2rust.Source.{chunks_on, par_chunks}

-- The number of slices that reach over `n` bytes.
pub div_ceil_covers :
    (n size : ℕ) → 0 < size → (n ≤ div_ceil n size * size) × (div_ceil n size * size < n + size)
unfolding div_ceil
div_ceil_covers n size pos =
    let q = n / size in
    let r = n % size in
    let whole : n ≡ q * size + r = grind arith in
    let small : r < size = grind arith in
    let one_more : (q + 1) * size ≡ q * size + size =
      ap (λ (k : ℕ). k * size) one ∙ suc-mul q size in
    elim (Bool-cases (r == 0)) [
      | inl e ↦ let zero = ==→eq r 0 e in rw e (omega arith, omega arith)
      | inr e ↦ let above = ==→ne r 0 e in rw e (omega arith, omega arith)
    ]
  where
    one : n / size + 1 ≡ suc (n / size)
    one = omega arith

times_mono : (a b size : ℕ) → a < b → a * size + size ≤ b * size
times_mono a b size lt =
    let apart : b ≡ a + suc (b - suc a) = omega arith in
    rw apart (omega (arith, add-mul a (suc (b - suc a)) size, suc-mul (b - suc a) size))

small_multiple : (k size : ℕ) → k * size < size → k * size ≡ 0
small_multiple zero size h = omega arith
small_multiple (suc k) size h = absurd (omega (arith, suc-mul k size))

trichotomy : (a b : ℕ) → (a < b) ⊎ ((a ≡ b) ⊎ (b < a))
trichotomy a b = elim (Bool-cases (ltb a b)) [
  | inl e ↦ inl (ltb→lt a b e)
  | inr e ↦ elim (Bool-cases (a == b)) [
    | inl f ↦ inr (inl (==→eq a b f))
    | inr f ↦ let apart = ==→ne a b f in inr (inr (ground arith))
  ]
]

covers_unique :
    (a b n size : ℕ)
    → 0 < size
    → n ≤ a * size
    → a * size < n + size
    → n ≤ b * size
    → b * size < n + size
    → a ≡ b
covers_unique a b n size pos p q r s = elim (trichotomy a b) [
  | inl lt ↦ absurd (omega (arith, times_mono a b size lt))
  | inr (inl eq_ab) ↦ eq_ab
  | inr (inr gt_ab) ↦ absurd (omega (arith, times_mono b a size gt_ab))
]

not_below : (m n : ℕ) → ltb m n ≡ false → n ≤ m
not_below m n h = ground arith

pub length-chunks :
    (fuel size : ℕ) (bytes : List ℕ)
    → 0 < size
    → length bytes ≤ fuel
    → (length bytes ≤ length (chunks_on fuel size bytes) * size)
      × (length (chunks_on fuel size bytes) * size < length bytes + size)
unfolding chunks_on
length-chunks fuel size [] pos le = (omega arith, omega arith)
length-chunks zero size (b ∷ bs) pos le = absurd (omega arith)
length-chunks (suc fuel) size (b ∷ bs) pos le =
    let left = length-drop size (b ∷ bs) in
    let (low, high) = length-chunks fuel size (drop size (b ∷ bs)) pos (omega arith) in
    let more = suc-mul (length (chunks_on fuel size (drop size (b ∷ bs)))) size in
    let none_left = small_multiple (length (chunks_on fuel size (drop size (b ∷ bs)))) size in
    (
      omega arith,
      elim (Bool-cases (ltb (length (b ∷ bs)) size)) [
        | inl e ↦
            let short = ltb→lt (length (b ∷ bs)) size e in omega (arith, none_left (omega arith))
        | inr e ↦ let long = not_below (length (b ∷ bs)) size e in omega arith
      ],
    )

-- A scan makes a checksum for each slice.
pub length-par_chunks :
    (size : ℕ) (bytes : List ℕ)
    → 0 < size
    → length (par_chunks size bytes) ≡ div_ceil (length bytes) size
unfolding par_chunks
length-par_chunks size bytes pos =
    let (low, high) = length-chunks (length bytes) size bytes pos (omega arith) in
    let (low', high') = div_ceil_covers (length bytes) size pos in
    covers_unique (length (chunks_on (length bytes) size bytes)) (div_ceil (length bytes) size)
      (length bytes) size pos low high low' high'
