-- ===== src/Create/Suggestion.antt =====
-- src/creator.rs: the slice size that the error for too many input blocks suggests.
use par2rust.Base.{ℕ, ◌+◌, ◌*◌, ◌%◌, ◌^◌, ◌<◌, ◌≤◌, ◌≡◌, arith, List, [], ◌∷◌, length}
use native.Mathlib.Nat.{add-mul, one-mul, mul-le-mul_right, lt_of_mul-lt-mul_right}
use par2rust.Packet.{SourceFile}
use par2rust.Create.{suggested_slice_size, div_ceil, total_bytes}

-- Files are cut into `n` slices together: each into the least number of slices that hold its bytes.
pub data SlicedAt (size : ℕ) : List SourceFile → ℕ → Type 0 where
  no_files : SlicedAt size [] 0
  one_more :
      {src : SourceFile} {sources : List SourceFile} (k n : ℕ)
      → src.length ≤ k * size
      → k * size < src.length + size
      → SlicedAt size sources n
      → SlicedAt size (src ∷ sources) (k + n)

-- The slices reach over all bytes, with less than a slice to spare in each file.
SlicedAt-total :
    {size n : ℕ} {sources : List SourceFile}
    → SlicedAt size sources n
    → (total_bytes sources ≤ n * size)
      × (n * size + length sources ≤ total_bytes sources + length sources * size)
unfolding total_bytes
SlicedAt-total no_files = (omega arith, omega arith)
SlicedAt-total {size} (one_more {sources = sources} k n reach spare h) =
    let rest = SlicedAt-total h in
    let both = add-mul k n size in
    let files = add-mul 1 (length sources) size in
    let one = one-mul size in (omega arith, omega arith)

suggested-aligned : (sources : List SourceFile) → suggested_slice_size sources % 4 ≡ 0
unfolding suggested_slice_size
suggested-aligned sources = omega arith

suggested-least :
    (sources : List SourceFile) (size : ℕ)
    → total_bytes sources < 2 ^ 64
    → size % 4 ≡ 0
    → total_bytes sources ≤ 32768 * size
    → suggested_slice_size sources ≤ size
unfolding suggested_slice_size div_ceil
suggested-least sources size h aligned reach = ground arith

suggested-reaches :
    (sources : List SourceFile)
    → total_bytes sources < 2 ^ 64
    → total_bytes sources ≤ 32768 * suggested_slice_size sources
unfolding suggested_slice_size div_ceil
suggested-reaches sources h = ground arith

-- A multiple of 4 that cuts files with fewer than 2^64 bytes together into at most 32768 slices, each file
-- into the least number of slices that hold its bytes, is not below the slice size that the error suggests,
-- which is a multiple of 4 itself.
pub suggested_slice_size-least :
    (sources : List SourceFile) (size n : ℕ)
    → total_bytes sources < 2 ^ 64
    → size % 4 ≡ 0
    → SlicedAt size sources n
    → n ≤ 32768
    → (suggested_slice_size sources % 4 ≡ 0) × (suggested_slice_size sources ≤ size)
suggested_slice_size-least sources size n h aligned cut few =
    let more = mul-le-mul_right size few in
    let total = SlicedAt-total cut in
    (suggested-aligned sources, suggested-least sources size h aligned (omega arith))

-- The suggested slice size cuts files with from 1 to 2^64 - 1 bytes together, each into the least number
-- of slices that hold its bytes, into fewer than 32768 slices and one more for each file.
pub suggested_slice_size-enough :
    (sources : List SourceFile) (n : ℕ)
    → 0 < total_bytes sources
    → total_bytes sources < 2 ^ 64
    → SlicedAt (suggested_slice_size sources) sources n
    → n < 32768 + length sources
unfolding total_bytes
suggested_slice_size-enough [] n some_bytes h cut = absurd (omega arith)
suggested_slice_size-enough (src ∷ sources) n some_bytes h cut =
    let whole = src ∷ sources in
    let size = suggested_slice_size whole in
    let reach = suggested-reaches whole h in
    let total = SlicedAt-total cut in
    let both = add-mul 32768 (length whole) size in lt_of_mul-lt-mul_right size (omega arith)
