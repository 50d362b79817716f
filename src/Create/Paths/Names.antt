-- ===== src/Create/Paths/Names.antt =====
-- src/creator.rs: the volumes of a run have names of their own.
use par2rust.Base.{
  ℕ, zero, suc, ◌+◌, ◌-◌, ◌*◌, ◌/◌, ◌%◌, ◌^◌, ◌<◌, ◌≤◌, ◌≡◌, ◌≢◌, refl, sym, ap, ◌∙◌, inl, inr,
  arith, List, [], ◌∷◌, ◌++◌, append_assoc, map, leb, ltb, Bool, true, false, Bool-cases, All,
  All-append, All-mono, Distinct, some,
}
use par2rust.Cli.Numbers.{IsDigit, decimal}
use par2rust.Volume.{sum}
use par2rust.Create.{volume_ranges}
use par2rust.Create.Paths.{
  joined, written, digits_on, digits, volume_suffix, derive_volume_filename,
}

decimal-snoc :
    (acc : ℕ) (ds : List ℕ) (d : ℕ) → decimal acc (ds ++ d ∷ []) ≡ decimal acc ds * 10 + (d - b'0')
unfolding decimal
decimal-snoc acc [] d = refl
decimal-snoc acc (e ∷ ds) d = decimal-snoc (acc * 10 + (e - b'0')) ds d

-- The digits are digits, and mean the number.
digits_on-decimal :
    (fuel n : ℕ) → n < fuel → All IsDigit (digits_on fuel n) × (decimal 0 (digits_on fuel n) ≡ n)
unfolding digits_on decimal
digits_on-decimal zero n h = absurd (omega arith)
digits_on-decimal (suc fuel) n h = elim (Bool-cases (ltb n 10)) [
  | inl small ↦ rw small (ground arith)
  | inr large ↦
      let rest : (All IsDigit (digits_on fuel (n / 10)))
          × (decimal 0 (digits_on fuel (n / 10)) ≡ n / 10) =
        digits_on-decimal fuel (n / 10) (ground arith) in
      rw large (
        All-append IsDigit (digits_on fuel (n / 10)) ((b'0' + n % 10) ∷ []) rest.0
            ((omega arith, omega arith), tt),
        decimal-snoc 0 (digits_on fuel (n / 10)) (b'0' + n % 10) ∙ omega (arith, rest.1),
      )
]

-- Two runs of digits before the same mark.
digits-before :
    (xs ys r s : List ℕ)
    → All IsDigit xs
    → All IsDigit ys
    → xs ++ b'+' ∷ r ≡ ys ++ b'+' ∷ s
    → xs ≡ ys
digits-before [] [] r s h k e = refl
digits-before [] (y ∷ ys) r s h k e =
    let first : ◌≡◌ {A = ℕ} b'+' y = cc in absurd (omega (arith, k.0))
digits-before (x ∷ xs) [] r s h k e =
    let first : ◌≡◌ {A = ℕ} x b'+' = cc in absurd (omega (arith, h.0))
digits-before (x ∷ xs) (y ∷ ys) r s h k e =
    let first : x ≡ y = cc in
    let others : xs ++ b'+' ∷ r ≡ ys ++ b'+' ∷ s = cc in
    let rest = digits-before xs ys r s h.1 k.1 others in cc

append-injective : {A : Type 0} (xs ys zs : List A) → xs ++ ys ≡ xs ++ zs → ys ≡ zs
append-injective [] ys zs e = e
append-injective (x ∷ xs) ys zs e = append-injective xs ys zs cc

digits_injective-before :
    (m n : ℕ) (r s : List ℕ) → digits m ++ b'+' ∷ r ≡ digits n ++ b'+' ∷ s → m ≡ n
unfolding digits
digits_injective-before m n r s e =
    let left = digits_on-decimal (suc m) m (omega arith) in
    let right = digits_on-decimal (suc n) n (omega arith) in
    sym left.1
    ∙ ap (decimal 0)
        (digits-before (digits_on (suc m) m) (digits_on (suc n) n) r s left.0 right.0 e)
    ∙ right.1

-- What stands before the last component.
before : List (List ℕ) → List ℕ
before [] = []
before (c ∷ cs) = c ++ b'/' ∷ before cs

joined-before : (cs : List (List ℕ)) (c : List ℕ) → joined (cs ++ c ∷ []) ≡ before cs ++ c
unfolding joined before
joined-before [] c = refl
joined-before (d ∷ []) c = sym (append_assoc d (b'/' ∷ []) c)
joined-before (d ∷ e ∷ cs) c =
    ap (λ (t : List ℕ). d ++ b'/' ∷ t) (joined-before (e ∷ cs) c)
    ∙ sym (append_assoc d (b'/' ∷ before (e ∷ cs)) c)

before-append : (cs : List (List ℕ)) (a b : List ℕ) → before cs ++ a ≡ before cs ++ b → a ≡ b
before-append cs a b e = append-injective (before cs) a b e

in_folder : Bool → List (List ℕ) → List ℕ → List ℕ
in_folder rooted cs name = written (record { rooted = rooted; components = cs ++ name ∷ [] })

in_folder-injective :
    (rooted : Bool) (cs : List (List ℕ)) (a b : List ℕ)
    → in_folder rooted cs a ≡ in_folder rooted cs b
    → a ≡ b
unfolding in_folder written
in_folder-injective true cs a b e =
    let rest : joined (cs ++ a ∷ []) ≡ joined (cs ++ b ∷ []) = cc in
    append-injective (before cs) a b (sym (joined-before cs a) ∙ rest ∙ joined-before cs b)
in_folder-injective false cs a b e =
    append-injective (before cs) a b (sym (joined-before cs a) ∙ e ∙ joined-before cs b)

volume_suffix-injective :
    (m c n d : ℕ) (extension : List ℕ)
    → volume_suffix m c extension ≡ volume_suffix n d extension
    → m ≡ n
unfolding volume_suffix
volume_suffix-injective m c n d extension e =
    digits_injective-before m n _ _ (append-injective (b'.' ∷ b'v' ∷ b'o' ∷ b'l' ∷ []) _ _ e)

derive_volume_filename-injective :
    (path : List ℕ) (m c n d : ℕ)
    → derive_volume_filename path m c ≡ derive_volume_filename path n d
    → m ≡ n
unfolding derive_volume_filename in_folder
derive_volume_filename-injective path m c n d e =
    volume_suffix-injective m c n d _ (append-injective _ _ _ (in_folder-injective _ _ _ _ e))

abbrev name_in : List ℕ → ℕ × ℕ → List ℕ
name_in output range = derive_volume_filename output range.0 range.1

-- A later range has another name.
named_apart :
    (output : List ℕ) (first count : ℕ) (ranges : List (ℕ × ℕ))
    → 0 < count
    → All (λ (r : ℕ × ℕ). first + count ≤ r.0) ranges
    → All (λ name. derive_volume_filename output first count ≢ name) (map (name_in output) ranges)
named_apart output first count [] h k = tt
named_apart output first count (r ∷ ranges) h k = (
  λ e. omega (arith, derive_volume_filename-injective output first count r.0 r.1 e, k.0),
  named_apart output first count ranges h k.1,
)

volume_ranges-apart :
    (output : List ℕ) (first : ℕ) (sizes : List ℕ)
    → All (λ n. 0 < n) sizes
    → first + sum sizes ≤ 65535
    → (ranges : List (ℕ × ℕ)) × (volume_ranges first sizes ≡ some ranges)
      × All (λ (r : ℕ × ℕ). first ≤ r.0) ranges
      × Distinct (map (name_in output) ranges)
unfolding volume_ranges sum
volume_ranges-apart output first [] h le = ([], refl, tt, tt)
volume_ranges-apart output first (count ∷ sizes) h le =
    let (ranges, made, later, apart) =
      volume_ranges-apart output (first + count) sizes h.1 (omega arith) in
    let low : leb first (2 ^ 16 - 1) ≡ true = ground arith in
    let high : leb (first + count) (2 ^ 32 - 1) ≡ true = ground arith in
    (
      (first, count) ∷ ranges,
      rw (low, high, made),
      (
        omega arith,
        All-mono (λ (r : ℕ × ℕ). first + count ≤ r.0) (λ (r : ℕ × ℕ). first ≤ r.0)
            (λ r k. omega arith) ranges later,
      ),
      (named_apart output first count ranges h.0 later, apart),
    )

-- For volumes of at least one block each, at most 65535 in all: the ranges of the volumes are given out, and the
-- names that are derived for them from the path of the index, whatever it is, are pairwise different.
pub derive_volume_filename-Distinct :
    (output : List ℕ) (sizes : List ℕ)
    → All (λ n. 0 < n) sizes
    → sum sizes ≤ 65535
    → (ranges : List (ℕ × ℕ)) × (volume_ranges 0 sizes ≡ some ranges)
      × Distinct (map (λ (r : ℕ × ℕ). derive_volume_filename output r.0 r.1) ranges)
derive_volume_filename-Distinct output sizes h le =
    let (ranges, made, _, apart) = volume_ranges-apart output 0 sizes h (omega arith) in
    (ranges, made, apart)
