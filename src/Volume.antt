-- ===== src/Volume.antt =====
-- src/creator.rs: how recovery blocks are distributed over volumes. The text of an error is a
-- constructor with the numbers that it prints.
pub mod Splits
pub mod Resolve
use par2rust.Base.{
  ℕ, zero, suc, ◌+◌, ◌-◌, ◌*◌, ◌/◌, ◌%◌, ◌^◌, List, [], ◌∷◌, ◌++◌, length, replicate, min, Bool,
  true, false, ◌||◌, ltb, leb, ◌==◌, not, if◌then◌else◌,
}

pub data VolumeScheme : Type 0 where
  single : VolumeScheme
  exponential : VolumeScheme
  uniform : (count : ℕ) → VolumeScheme
  limited : (max_blocks_per_volume : ℕ) (inner : VolumeScheme) → VolumeScheme
  explicit : (sizes : List ℕ) → VolumeScheme

-- The reasons of `Par2Error::InvalidVolumeScheme`.
pub data InvalidVolumeScheme : Type 0 where
  limited_needs_blocks : InvalidVolumeScheme
  explicit_needs_volume : InvalidVolumeScheme
  explicit_needs_blocks : InvalidVolumeScheme
  explicit_sum : (sum expected : ℕ) → InvalidVolumeScheme
  uniform_needs_count : InvalidVolumeScheme
  uniform_exceeds : (count total : ℕ) → InvalidVolumeScheme

pub data Result (A : Type 0) : Type 0 where
  ok : A → Result A
  err : InvalidVolumeScheme → Result A

unfoldable pub sum : List ℕ → ℕ
sum [] = 0
sum (n ∷ ns) = n + sum ns

unfoldable pub contains_zero : List ℕ → Bool
contains_zero [] = false
contains_zero (n ∷ ns) = n == 0 || contains_zero ns

-- `saturating_mul(2)` on u32
unfoldable pub saturating_double : ℕ → ℕ
saturating_double n = min (n * 2) (2 ^ 32 - 1)

-- The loop of `exponential_split`; every round takes a block, so `total` rounds are enough.
unfoldable pub exponential_loop : ℕ → List ℕ → ℕ → ℕ → List ℕ
exponential_loop zero sizes remaining next = sizes
exponential_loop (suc fuel) sizes remaining next =
    let taken = min next remaining in
    let sizes' = sizes ++ taken ∷ [] in
    let next' = if leb 2 (length sizes') then saturating_double next else next in
    let rest = exponential_loop fuel sizes' (remaining - taken) next' in
    if ltb 0 remaining then rest else sizes

unfoldable pub exponential_split : ℕ → List ℕ
exponential_split total = if total == 0 then [] else exponential_loop total [] total 1

unfoldable pub uniform_split : ℕ → ℕ → Result (List ℕ)
uniform_split total count =
    let base = total / count in
    let remainder = total - base * count in
    if count == 0
    then err uniform_needs_count
    else if ltb total count
    then err (uniform_exceeds count total)
    else ok (replicate (count - 1) base ++ (base + remainder) ∷ [])

-- The inner loop of `cap_volume_sizes`; every round takes `cap` blocks, so for a positive cap as many
-- rounds as blocks are enough.
unfoldable pub cap_loop : ℕ → List ℕ → ℕ → ℕ → List ℕ
cap_loop zero out remaining cap = out
cap_loop (suc fuel) out remaining cap =
    let rest = cap_loop fuel (out ++ cap ∷ []) (remaining - cap) cap in
    if ltb cap remaining then rest else if ltb 0 remaining then out ++ remaining ∷ [] else out

unfoldable pub cap_sizes_onto : List ℕ → List ℕ → ℕ → List ℕ
cap_sizes_onto out [] cap = out
cap_sizes_onto out (n ∷ sizes) cap =
    cap_sizes_onto (if leb n cap then out ++ n ∷ [] else cap_loop n out n cap) sizes cap

unfoldable pub cap_volume_sizes : List ℕ → ℕ → List ℕ
cap_volume_sizes sizes cap = cap_sizes_onto [] sizes cap

unfoldable pub cap_result : Result (List ℕ) → ℕ → Result (List ℕ)
cap_result (ok inner_sizes) cap = ok (cap_volume_sizes inner_sizes cap)
cap_result (err e) cap = err e

unfoldable pub check_explicit : List ℕ → ℕ → Result (List ℕ)
check_explicit [] total = err explicit_needs_volume
check_explicit (n ∷ ns) total =
    let total_of_sizes = sum (n ∷ ns) % 2 ^ 64 in
    if contains_zero (n ∷ ns)
    then err explicit_needs_blocks
    else if not (total_of_sizes == total)
    then err (explicit_sum total_of_sizes total)
    else ok (n ∷ ns)

unfoldable pub resolve_volume_sizes : VolumeScheme → ℕ → Result (List ℕ)
resolve_volume_sizes single total = ok (total ∷ [])
resolve_volume_sizes exponential total = ok (exponential_split total)
resolve_volume_sizes (uniform count) total = uniform_split total count
resolve_volume_sizes (limited max_blocks_per_volume inner) total =
    let inner_sizes = resolve_volume_sizes inner total in
    if max_blocks_per_volume == 0
    then err limited_needs_blocks
    else cap_result inner_sizes max_blocks_per_volume
resolve_volume_sizes (explicit sizes) total = check_explicit sizes total
