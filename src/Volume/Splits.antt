-- ===== src/Volume/Splits.antt =====
-- What the splits produce.
use par2rust.Base.{
  ℕ, zero, suc, ◌+◌, ◌-◌, ◌*◌, ◌/◌, ◌^◌, ◌<◌, ◌≤◌, ◌≡◌, refl, sym, ◌∙◌, arith, List, [], ◌∷◌, ◌++◌,
  length, length-append, replicate, min, Bool, true, false, ltb, leb, ◌==◌, if◌then◌else◌, All,
  All-append, append_assoc, append-nil,
}
use native.Mathlib.Nat.{
  suc-mul, mul_comm, pow-suc, mod-eq-sub-div-mul, mod-lt, div-eq-sub-div, div-add-mod',
}
use par2rust.Volume.{
  ok, sum, saturating_double, exponential_loop, exponential_split, uniform_split, cap_loop,
  cap_sizes_onto, cap_volume_sizes,
}

pub sum-append : (xs ys : List ℕ) → sum (xs ++ ys) ≡ sum xs + sum ys
unfolding sum
sum-append [] ys = omega arith
sum-append (x ∷ xs) ys = omega (arith, sum-append xs ys)

sum-replicate : (n a : ℕ) → sum (replicate n a) ≡ n * a
unfolding sum
sum-replicate zero a = omega arith
sum-replicate (suc n) a =
    let e : suc n * a ≡ n * a + a = suc-mul n a in omega (arith, sum-replicate n a)

-- What the scheme 1, 1, 2, 4, 8, … gives the volume with index `i`.
pub capacity : ℕ → ℕ
capacity zero = 1
capacity (suc i) = 2 ^ i

-- Volumes from index `i` on: none is empty, none is over its capacity, and only the last may be under it.
pub Fills : ℕ → List ℕ → Type 0
Fills i [] = Unit
Fills i (n ∷ ns) = (0 < n) × (n ≤ capacity i) × (0 < sum ns → n ≡ capacity i) × Fills (suc i) ns

consumed : ℕ → ℕ
consumed zero = 0
consumed (suc i) = 2 ^ i

pushes : ℕ → ℕ → ℕ → ℕ → List ℕ
pushes zero count remaining next = []
pushes (suc fuel) count remaining next =
    let taken = min next remaining in
    let next' = if leb 1 count then saturating_double next else next in
    let rest = pushes fuel (suc count) (remaining - taken) next' in
    if ltb 0 remaining then taken ∷ rest else []

if_append :
    (b : Bool) (xs ys : List ℕ) → (if b then xs ++ ys else xs) ≡ xs ++ (if b then ys else [])
if_append true xs ys = refl
if_append false xs ys = sym (append-nil xs)

exponential_loop-pushes :
    (fuel : ℕ) (sizes : List ℕ) (remaining next : ℕ)
    → exponential_loop fuel sizes remaining next
      ≡ sizes ++ pushes fuel (length sizes) remaining next
unfolding exponential_loop pushes
exponential_loop-pushes zero sizes remaining next = sym (append-nil sizes)
exponential_loop-pushes (suc fuel) sizes remaining next =
    let taken = min next remaining in
    let sizes' = sizes ++ taken ∷ [] in
    let size : length sizes' ≡ suc (length sizes) =
      omega (arith, length-append sizes (taken ∷ [])) in
    let next' = if leb 1 (length sizes) then saturating_double next else next in
    let test : leb 2 (length sizes') ≡ leb 1 (length sizes) = ground arith in
    let rest = exponential_loop-pushes fuel sizes' (remaining - taken) next' in
    rw
      (
        test,
        rest,
        size,
        append_assoc sizes (taken ∷ [])
            (pushes fuel (suc (length sizes)) (remaining - taken) next'),
      )
      (if_append (ltb 0 remaining) sizes
        (taken ∷ pushes fuel (suc (length sizes)) (remaining - taken) next'))

-- The capacity that the loop holds, doubled, is that of the volume after.
next_capacity :
    (count next : ℕ)
    → next ≡ min (capacity count) (2 ^ 32 - 1)
    → (if leb 1 count then saturating_double next else next)
      ≡ min (capacity (suc count)) (2 ^ 32 - 1)
unfolding capacity saturating_double
next_capacity zero next e = ground arith
next_capacity (suc i) next e = let double : 2 ^ suc i ≡ 2 ^ i * 2 = pow-suc 2 i in ground arith

consumed-suc : (count : ℕ) → consumed (suc count) ≡ consumed count + capacity count
unfolding consumed capacity
consumed-suc zero = omega arith
consumed-suc (suc i) = let double : 2 ^ suc i ≡ 2 ^ i * 2 = pow-suc 2 i in omega arith

two_pow-pos : (i : ℕ) → 0 < 2 ^ i
two_pow-pos zero = omega arith
two_pow-pos (suc i) =
    let double : 2 ^ suc i ≡ 2 ^ i * 2 = pow-suc 2 i in omega (arith, two_pow-pos i)

capacity-bounds : (count : ℕ) → (0 < capacity count) × (capacity count ≤ suc (consumed count))
unfolding consumed capacity
capacity-bounds zero = (omega arith, omega arith)
capacity-bounds (suc i) = (two_pow-pos i, omega arith)

pushes_lem :
    (fuel count remaining next : ℕ)
    → remaining ≤ fuel
    → next ≡ min (capacity count) (2 ^ 32 - 1)
    → (0 < remaining → consumed count + remaining < 2 ^ 32)
    → (sum (pushes fuel count remaining next) ≡ remaining)
      × Fills count (pushes fuel count remaining next)
unfolding pushes sum Fills
pushes_lem zero count remaining next enough e bound = (omega arith, tt)
pushes_lem (suc fuel) count remaining next enough e bound =
    let taken = min next remaining in
    let step = consumed-suc count in
    let bounds = capacity-bounds count in
    let rest : 0 < remaining → _ = λ h.
      pushes_lem fuel (suc count) (remaining - taken)
        (if leb 1 count then saturating_double next else next) (omega arith)
        (next_capacity count next e) (λ k. grind (arith, bound)) in
    ground (arith, rest)

-- The exponential split of fewer than 2^32 blocks gives out all of them, in volumes of 1, 1, 2, 4,
-- 8, … blocks of which only the last may hold fewer; none is empty.
pub exponential_split_lem :
    (total : ℕ)
    → total < 2 ^ 32
    → (sum (exponential_split total) ≡ total) × Fills 0 (exponential_split total)
unfolding exponential_split sum Fills consumed capacity
exponential_split_lem total h =
    let all = pushes_lem total 0 total 1 (omega arith) (omega arith) (λ k. omega arith) in
    let same = exponential_loop-pushes total [] total 1 in
    let pushed = pushes total 0 total 1 in
    let some_blocks : (sum (exponential_loop total [] total 1) ≡ total)
        × Fills 0 (exponential_loop total [] total 1) =
      rw same all in
    ground (arith, some_blocks)

-- An even split of the blocks over at least one and at most as many volumes as blocks succeeds.
-- Every volume but the last has the same positive number, the last has fewer than `count` more, and
-- together they are all the blocks.
pub uniform_split-ok :
    (total count : ℕ)
    → 0 < count
    → count ≤ total
    → (n : ℕ) × (extra : ℕ) × (uniform_split total count
        ≡ ok (replicate (count - 1) n ++ (n + extra) ∷ []))
      × (0 < n)
      × (extra < count)
      × (sum (replicate (count - 1) n ++ (n + extra) ∷ []) ≡ total)
unfolding uniform_split sum
uniform_split-ok total zero h hk = absurd (omega arith)
uniform_split-ok total (suc k) h hk =
    let n = total / suc k in
    let extra = total - n * suc k in
    let rest = mod-eq-sub-div-mul total (suc k) in
    let less = mod-lt total {m = suc k} h in
    let some_blocks = div-eq-sub-div h hk in
    let whole = div-add-mod' total (suc k) in
    let one_less : suc k - 1 ≡ k = omega arith in
    let several : n * suc k ≡ k * n + n = mul_comm n (suc k) ∙ suc-mul k n in
    let no_zero : (suc k == 0) ≡ false = ground arith in
    let enough : ltb total (suc k) ≡ false = ground arith in
    let size = sum-append (replicate k n) ((n + extra) ∷ []) in
    let front = sum-replicate k n in
    (n, extra, rw (no_zero, enough), omega arith, omega arith, rw one_less (omega arith))

-- Cutting at a positive cap keeps the number of blocks, and no volume is over the cap.
cap_loop_lem :
    (fuel : ℕ) (out : List ℕ) (remaining cap : ℕ)
    → 0 < cap
    → remaining ≤ fuel
    → All (λ n. n ≤ cap) out
    → (sum (cap_loop fuel out remaining cap) ≡ sum out + remaining)
      × All (λ n. n ≤ cap) (cap_loop fuel out remaining cap)
unfolding cap_loop sum
cap_loop_lem zero out remaining cap h enough small = (omega arith, small)
cap_loop_lem (suc fuel) out remaining cap h enough small =
    let push : (n : ℕ) → n ≤ cap → All (λ n. n ≤ cap) (out ++ n ∷ []) =
      λ n le. All-append (λ n. n ≤ cap) out (n ∷ []) small (le, tt) in
    let total : (n : ℕ) → sum (out ++ n ∷ []) ≡ sum out + n =
      λ n. omega (arith, sum-append out (n ∷ [])) in
    let rest : cap < remaining → _ = λ k.
      cap_loop_lem fuel (out ++ cap ∷ []) (remaining - cap) cap h (omega arith)
        (push cap (omega arith)) in
    ground (arith, rest, total cap, total remaining, push remaining)

pub cap_sizes_onto_lem :
    (out sizes : List ℕ) (cap : ℕ)
    → 0 < cap
    → All (λ n. n ≤ cap) out
    → (sum (cap_sizes_onto out sizes cap) ≡ sum out + sum sizes)
      × All (λ n. n ≤ cap) (cap_sizes_onto out sizes cap)
unfolding cap_sizes_onto sum
cap_sizes_onto_lem out [] cap h small = (omega arith, small)
cap_sizes_onto_lem out (n ∷ sizes) cap h small =
    let cut = cap_loop_lem n out n cap h (omega arith) small in
    let push : n ≤ cap → All (λ k. k ≤ cap) (out ++ n ∷ []) =
      λ le. All-append (λ k. k ≤ cap) out (n ∷ []) small (le, tt) in
    let total : sum (out ++ n ∷ []) ≡ sum out + n = omega (arith, sum-append out (n ∷ [])) in
    let out' = if leb n cap then out ++ n ∷ [] else cap_loop n out n cap in
    let step : (sum out' ≡ sum out + n) × All (λ k. k ≤ cap) out' = ground (arith, cut, push) in
    let rest = cap_sizes_onto_lem out' sizes cap h step.1 in (omega (arith, rest.0, step.0), rest.1)

-- Cutting volumes at a positive cap keeps the number of blocks and leaves no volume over the cap.
pub cap_volume_sizes_lem :
    (sizes : List ℕ) (cap : ℕ)
    → 0 < cap
    → (sum (cap_volume_sizes sizes cap) ≡ sum sizes)
      × All (λ n. n ≤ cap) (cap_volume_sizes sizes cap)
unfolding cap_volume_sizes sum
cap_volume_sizes_lem sizes cap h =
    let whole = cap_sizes_onto_lem [] sizes cap h tt in (omega (arith, whole.0), whole.1)
