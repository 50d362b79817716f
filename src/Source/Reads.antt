-- ===== src/Source/Reads.antt =====
-- A buffer is filled whatever the sizes of the reads, unless the file ends first.
use par2rust.Base.{
  ℕ, zero, suc, ◌-◌, ◌≤◌, ◌≡◌, refl, ap, ◌∙◌, arith, List, [], ◌∷◌, ◌++◌, length, take, drop, min,
  All, Bool, ◌≢◌, true, false,
}
use par2rust.Error.{gives, and_then}
use par2rust.Source.{Answer, up_to, refuses, Reader, give, read, filled_by, read_full_on, read_full}

unfoldable pub is_answered : Answer → Bool
is_answered (up_to k) = true
is_answered refuses = false

-- No read will report an error.
unfoldable pub Delivers : Reader → Type 0
Delivers r = All (λ a. is_answered a ≡ true) r.answers

-- What two steps take, and what they leave.
take_rest :
    {A : Type 0} (k n : ℕ) (xs : List A)
    → k ≤ n
    → take k xs ++ take (n - length (take k xs)) (drop k xs) ≡ take n xs
take_rest zero n xs h = let e : n - 0 ≡ n = omega arith in rw e
take_rest (suc k) zero xs h = absurd (omega arith)
take_rest (suc k) (suc n) [] h = let e : suc n - 0 ≡ suc n = omega arith in rw e
take_rest (suc k) (suc n) (x ∷ xs) h =
    let e : suc n - suc (length (take k xs)) ≡ n - length (take k xs) = omega arith in
    rw e (ap (◌∷◌ x) (take_rest k n xs (omega arith)))

drop_rest :
    {A : Type 0} (k n : ℕ) (xs : List A)
    → k ≤ n
    → drop (n - length (take k xs)) (drop k xs) ≡ drop n xs
drop_rest zero n xs h = let e : n - 0 ≡ n = omega arith in rw e
drop_rest (suc k) zero xs h = absurd (omega arith)
drop_rest (suc k) (suc n) [] h = let e : suc n - 0 ≡ suc n = omega arith in rw e
drop_rest (suc k) (suc n) (x ∷ xs) h =
    let e : suc n - suc (length (take k xs)) ≡ n - length (take k xs) = omega arith in
    rw e (drop_rest k n xs (omega arith))

false-ne-true : false ≢ true
false-ne-true = λ e. cc

-- One read gives the beginning of what is left, a byte at least if there is one and it is asked for.
one_read :
    (r : Reader) (n : ℕ)
    → Delivers r
    → (k : ℕ) × (answers : List Answer) × (read r (suc n) ≡ gives (give r.rest answers (suc k)))
      × (k ≤ n)
      × All (λ a. is_answered a ≡ true) answers
unfolding Delivers read is_answered
one_read r n h = on r.rest r.answers h
  where
    on :
        (rest : List ℕ) (next : List Answer)
        → All (λ a. is_answered a ≡ true) next
        → (k : ℕ) × (answers : List Answer) × (read (record { rest = rest; answers = next }) (suc n)
            ≡ gives (give rest answers (suc k)))
          × (k ≤ n)
          × All (λ a. is_answered a ≡ true) answers
    on rest [] h = (n, [], refl, omega arith, tt)
    on rest (up_to k ∷ next) h =
        let e : min (suc n) (suc k) ≡ suc (min n k) = omega arith in
        (min n k, next, rw e, omega arith, h.1)
    on rest (refuses ∷ next) h = absurd (false-ne-true h.0)

-- The loop ends with the buffer full or the file at its end.
abbrev Fills : ℕ → Type 0
Fills fuel =
    (r : Reader) (left : ℕ)
    → left ≤ fuel
    → Delivers r
    → (after : Reader) × (read_full_on fuel r left ≡ gives (take left r.rest, after))
      × (after.rest ≡ drop left r.rest)
      × Delivers after

after_read :
    (fuel left : ℕ) (bytes : List ℕ) (k : ℕ) (answers : List Answer)
    → Fills fuel
    → left ≤ fuel
    → k ≤ left
    → All (λ a. is_answered a ≡ true) answers
    → (after : Reader) × (and_then
          (gives (give bytes answers (suc k)))
          (λ got. filled_by got.0 got.1 (read_full_on fuel got.1 (suc left - length got.0)))
        ≡ gives (take (suc left) bytes, after))
      × (after.rest ≡ drop (suc left) bytes)
      × Delivers after
unfolding filled_by and_then give Delivers
after_read fuel left [] k answers fills h le d =
    (record { rest = []; answers = answers }, refl, refl, d)
after_read fuel left (x ∷ xs) k answers fills h le d =
    let step : suc left - suc (length (take k xs)) ≡ left - length (take k xs) = omega arith in
    let next : Reader = record { rest = drop k xs; answers = answers } in
    let (after, e, f, d') = fills next (left - length (take k xs)) (omega arith) d in
    (
      after,
      ap (λ (n : ℕ). filled_by (x ∷ take k xs) next (read_full_on fuel next n)) step
          ∙ ap (filled_by (x ∷ take k xs) next) e
          ∙ ap (λ (bs : List ℕ). gives (x ∷ bs, after)) (take_rest k left xs le),
      f ∙ drop_rest k left xs le,
      d',
    )

read_full_on-Fills : (fuel : ℕ) → Fills fuel
unfolding read_full_on
read_full_on-Fills zero r zero h d = (r, refl, refl, d)
read_full_on-Fills zero r (suc left) h d = absurd (omega arith)
read_full_on-Fills (suc fuel) r zero h d = (r, refl, refl, d)
read_full_on-Fills (suc fuel) r (suc left) h d =
    let (k, answers, e, le, d') = one_read r left d in
    rw e (after_read fuel left r.rest k answers (read_full_on-Fills fuel) (omega arith) le d')

-- When no read reports an error, `read_full` ends, whatever the sizes of the reads are, and gives the bytes
-- that come next, as many as the buffer holds or all that are left, and a reader that stands behind them.
pub read_full_lem :
    (r : Reader) (n : ℕ)
    → Delivers r
    → (after : Reader) × (read_full r n ≡ gives (take n r.rest, after))
      × (after.rest ≡ drop n r.rest)
      × Delivers after
unfolding read_full
read_full_lem r n d = read_full_on-Fills n r n (omega arith) d
