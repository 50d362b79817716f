-- ===== src/Encode/Fused/Slices.antt =====
-- The slices of a file, and the pass over them.
use par2rust.Base.{
  ℕ, zero, suc, ◌+◌, ◌-◌, ◌*◌, ◌^◌, ◌<◌, ◌≤◌, ◌≡◌, refl, sym, ap, ◌∙◌, arith, List, [], ◌∷◌, ◌++◌,
  length, take-min, length-take, length-drop, take, drop, replicate, min, leb, ◌==◌, if◌then◌else◌,
  true, false, none, some, Bool-cases, ==→eq, inl, inr, append-nil,
}
use par2rust.Base.Checked.{Checked, ◌>>=◌}
use par2rust.ReedSolomon.{RsEncoder}
use par2rust.Encode.{Kernel, accumulate_rows, encode_slices}
use par2rust.Encode.Fused.{slice_at, encode_from, encode_file_slices_into_buffers}
use native.Mathlib.Nat.{suc-mul, add-mul}

-- The slice with index `i`, as the format has it: the bytes from `i · size` on, filled up with zeros.
unfoldable pub padded_slice : List ℕ → ℕ → ℕ → List ℕ
padded_slice file size i =
    let bytes = take size (drop (i * size) file) in bytes ++ replicate (size - length bytes) 0

unfoldable pub padded_slices : List ℕ → ℕ → ℕ → ℕ → List (List ℕ)
padded_slices file size zero i = []
padded_slices file size (suc left) i =
    padded_slice file size i ∷ padded_slices file size left (i + 1)

filled :
    (bs : List ℕ) (k size : ℕ)
    → length bs ≡ k
    → (if k == size then some bs else some (bs ++ replicate (size - k) 0))
      ≡ some (bs ++ replicate (size - length bs) 0)
filled bs k size e = elim (Bool-cases (k == size)) [
  | inl t ↦
      let none_left : size - length bs ≡ 0 = let s = ==→eq k size t in omega arith in
      rw (t, none_left) (ap some (sym (append-nil bs)))
  | inr t ↦ rw (t, e)
]

slice_at-eq :
    (file : List ℕ) (size i : ℕ)
    → i * size ≤ length file
    → length file + size < 2 ^ 64
    → slice_at file (length file) size i ≡ some (padded_slice file size i)
unfolding slice_at padded_slice
slice_at-eq file size i inside small =
    let start : min (i * size) (2 ^ 64 - 1) ≡ i * size = omega arith in
    let end = min (min (i * size + size) (2 ^ 64 - 1)) (length file) in
    let k = min size (length file - i * size) in
    let stop : end - i * size ≡ k = omega arith in
    let ordered : leb (i * size) end ≡ true = ground arith in
    let mapped : leb end (length file) ≡ true = ground arith in
    let left = drop (i * size) file in
    let rest = length-drop (i * size) file in
    let size_k : length (take k left) ≡ k = omega (arith, length-take k left) in
    let same : take size left ≡ take k left =
      take-min left size ∙ ap (λ (n : ℕ). take (min size n) left) rest in
    rw (start, ordered, mapped, stop) (filled (take k left) k size size_k)
    ∙ ap (λ (bs : List ℕ). some (bs ++ replicate (size - length bs) 0)) (sym same)

ends_inside : (i left size end : ℕ) → (i + suc left) * size < end + size → i * size ≤ end
ends_inside i left size end h =
    let more : i + suc left ≡ suc (i + left) = omega arith in
    let one = ap (λ (n : ℕ). n * size) more ∙ suc-mul (i + left) size in
    let all = add-mul i left size in omega arith

pub bind_ext {ℓ κ} :
    {A : Type ℓ} {B : Type κ} (m : Checked A) (f g : A → Checked B)
    → ((a : A) → f a ≡ g a)
    → (m >>= f) ≡ (m >>= g)
bind_ext none f g same = refl
bind_ext (some a) f g same = same a

-- The loop over a file is the single pass over its slices, from the file's offset on.
encode_from-eq :
    (kernel : Kernel) (rs : RsEncoder) (file : List ℕ) (size offset left i : ℕ)
    (buffers : List (List ℕ))
    → (i + left) * size < length file + size
    → length file + size < 2 ^ 64
    → encode_from kernel rs file (length file) size offset left i buffers
      ≡ encode_slices kernel rs (offset + i) (padded_slices file size left i) buffers
unfolding encode_from encode_slices padded_slices
encode_from-eq kernel rs file size offset zero i buffers inside small = refl
encode_from-eq kernel rs file size offset (suc left) i buffers inside small =
    let next : i + 1 + left ≡ i + suc left = omega arith in
    let reaches = ends_inside i left size (length file) inside in
    let here = slice_at-eq file size i reaches small in
    let along : offset + (i + 1) ≡ offset + i + 1 = omega arith in
    let rest = λ (b : List (List ℕ)).
      encode_from-eq kernel rs file size offset left (i + 1) b (rw next inside) small
      ∙ ap (λ (j : ℕ). encode_slices kernel rs j (padded_slices file size left (i + 1)) b) along in
    rw here (
      bind_ext (accumulate_rows kernel rs (offset + i) (padded_slice file size i) 0 buffers) _ _
        rest)

no_rows :
    (kernel : Kernel) (rs : RsEncoder) (i : ℕ) (slices : List (List ℕ))
    → encode_slices kernel rs i slices [] ≡ some []
unfolding encode_slices accumulate_rows
no_rows kernel rs i [] = refl
no_rows kernel rs i (slice ∷ slices) = no_rows kernel rs (i + 1) slices

-- For a mapped file and a number of slices whose last one starts within it, where the length plus the
-- slice size is below 2^64, the pass of the fused run over the file is the single pass over its slices,
-- each filled up with zeros, from the file's offset on.
pub encode_file_slices-encode_slices :
    (kernel : Kernel) (rs : RsEncoder) (file : List ℕ) (size total offset : ℕ)
    (buffers : List (List ℕ))
    → total * size < length file + size
    → length file + size < 2 ^ 64
    → encode_file_slices_into_buffers kernel rs file (length file) size total offset buffers
      ≡ encode_slices kernel rs offset (padded_slices file size total 0) buffers
unfolding encode_file_slices_into_buffers
encode_file_slices-encode_slices kernel rs file size total offset [] inside small =
    sym (no_rows kernel rs offset (padded_slices file size total 0))
encode_file_slices-encode_slices kernel rs file size total offset (b ∷ buffers) inside small =
    let start : 0 + total ≡ total = omega arith in
    let first : offset + 0 ≡ offset = omega arith in
    let some_rows : (length (b ∷ buffers) == 0) ≡ false = ground arith in
    rw some_rows (
      encode_from-eq kernel rs file size offset total 0 (b ∷ buffers) (rw start inside) small
      ∙ ap (λ (j : ℕ). encode_slices kernel rs j (padded_slices file size total 0) (b ∷ buffers))
          first)
