-- ===== src/Volume/Resolve.antt =====
-- What a scheme resolves to, and when it is refused.
use par2rust.Base.{
  ℕ, ◌%◌, ◌^◌, ◌<◌, ◌≤◌, ◌≡◌, refl, ◌∙◌, arith, List, [], ◌∷◌, Bool, true, false, ltb, leb, ◌==◌,
  not, ◌&&◌, All,
}
use par2rust.Volume.{
  VolumeScheme, single, exponential, uniform, limited, explicit, Result, ok, err, sum,
  contains_zero, uniform_split, cap_result, check_explicit, resolve_volume_sizes,
}
use par2rust.Volume.Splits.{exponential_split_lem, uniform_split-ok, cap_volume_sizes_lem}

unfoldable pub is_ok : {A : Type 0} → Result A → Bool
is_ok (ok a) = true
is_ok (err e) = false

-- The schemes that fit a number of blocks.
unfoldable pub accepts : VolumeScheme → ℕ → Bool
accepts single total = true
accepts exponential total = true
accepts (uniform count) total = ltb 0 count && leb count total
accepts (limited cap inner) total = ltb 0 cap && accepts inner total
accepts (explicit []) total = false
accepts (explicit (n ∷ ns)) total = not (contains_zero (n ∷ ns)) && (sum (n ∷ ns) == total)

-- The sizes that a caller gives have a sum on 64 bits.
unfoldable pub Fits : VolumeScheme → Type 0
Fits (explicit sizes) = sum sizes < 2 ^ 64
Fits (limited cap inner) = Fits inner
Fits _ = Unit

-- What the resolved sizes satisfy: they are all blocks.
pub SumsTo : ℕ → Result (List ℕ) → Type 0
SumsTo total (ok sizes) = sum sizes ≡ total
SumsTo total (err e) = Unit

cap-ok : (r : Result (List ℕ)) (cap : ℕ) → is_ok (cap_result r cap) ≡ is_ok r
unfolding cap_result is_ok
cap-ok (ok sizes) cap = refl
cap-ok (err e) cap = refl

-- A scheme, whose sizes if it gives any have a sum below 2^64, is resolved exactly when it fits the
-- number of blocks: a count of volumes is positive and at most the number of blocks, a cap is
-- positive and the scheme under it fits, and given sizes are at least one, are positive and add up.
pub resolve_volume_sizes-accepts :
    (scheme : VolumeScheme) (total : ℕ)
    → Fits scheme
    → is_ok (resolve_volume_sizes scheme total) ≡ accepts scheme total
unfolding resolve_volume_sizes accepts is_ok uniform_split check_explicit Fits
resolve_volume_sizes-accepts single total h = refl
resolve_volume_sizes-accepts exponential total h = refl
resolve_volume_sizes-accepts (uniform count) total h = ground arith
resolve_volume_sizes-accepts (limited cap inner) total h =
    let rest =
      cap-ok (resolve_volume_sizes inner total) cap ∙ resolve_volume_sizes-accepts inner total h in
    ground arith
resolve_volume_sizes-accepts (explicit []) total h = refl
resolve_volume_sizes-accepts (explicit (n ∷ ns)) total h =
    let same : sum (n ∷ ns) % 2 ^ 64 ≡ sum (n ∷ ns) = omega arith in rw same (ground arith)

-- A capped scheme keeps every volume within the cap.
pub Within : ℕ → Result (List ℕ) → Type 0
Within cap (ok sizes) = All (λ n. n ≤ cap) sizes
Within cap (err e) = Unit

cap_result-SumsTo :
    (total cap : ℕ) (r : Result (List ℕ))
    → 0 < cap
    → SumsTo total r
    → SumsTo total (cap_result r cap)
unfolding cap_result SumsTo
cap_result-SumsTo total cap (ok inner) h rest =
    let whole = cap_volume_sizes_lem inner cap h in omega (arith, rest, whole.0)
cap_result-SumsTo total cap (err f) h rest = tt

cap_result-Within : (cap : ℕ) (r : Result (List ℕ)) → 0 < cap → Within cap (cap_result r cap)
unfolding cap_result Within
cap_result-Within cap (ok inner) h = (cap_volume_sizes_lem inner cap h).1
cap_result-Within cap (err f) h = tt

uniform_split-SumsTo :
    (total count : ℕ) → 0 < count → count ≤ total → SumsTo total (uniform_split total count)
unfolding SumsTo
uniform_split-SumsTo total count h hk =
    let whole = uniform_split-ok total count h hk in rw whole.2 whole.5

single_sum : (total : ℕ) → sum (total ∷ []) ≡ total
unfolding sum
single_sum total = omega arith

-- The sizes that a scheme, whose own sizes if it gives any have a sum below 2^64, resolves to for
-- fewer than 2^32 blocks add up to all the blocks.
pub resolve_volume_sizes-SumsTo :
    (scheme : VolumeScheme) (total : ℕ)
    → Fits scheme
    → total < 2 ^ 32
    → SumsTo total (resolve_volume_sizes scheme total)
unfolding resolve_volume_sizes Fits check_explicit SumsTo uniform_split
resolve_volume_sizes-SumsTo single total h small = single_sum total
resolve_volume_sizes-SumsTo exponential total h small = (exponential_split_lem total small).0
resolve_volume_sizes-SumsTo (uniform count) total h small =
    let some_blocks = uniform_split-SumsTo total count in ground (arith, some_blocks)
resolve_volume_sizes-SumsTo (limited cap inner) total h small =
    let rest = resolve_volume_sizes-SumsTo inner total h small in
    let capped = cap_result-SumsTo total cap (resolve_volume_sizes inner total) in
    ground (arith, capped)
resolve_volume_sizes-SumsTo (explicit []) total h small = tt
resolve_volume_sizes-SumsTo (explicit (n ∷ ns)) total h small = ground arith

-- No volume of a scheme under a cap has more blocks than the cap.
pub resolve_volume_sizes-Within :
    (cap : ℕ) (inner : VolumeScheme) (total : ℕ)
    → Within cap (resolve_volume_sizes (limited cap inner) total)
unfolding resolve_volume_sizes Within
resolve_volume_sizes-Within cap inner total =
    let capped = cap_result-Within cap (resolve_volume_sizes inner total) in ground (arith, capped)
