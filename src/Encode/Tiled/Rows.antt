-- ===== src/Encode/Tiled/Rows.antt =====
-- src/creator.rs: the blocks of a slice put together.
use par2rust.Base.{
  ℕ, zero, suc, ◌+◌, ◌-◌, ◌%◌, ◌^◌, ◌<◌, ◌≤◌, ◌≡◌, refl, sym, ap, ap₂, ◌∙◌, arith, List, [], ◌∷◌,
  ◌++◌, append_assoc, length, take, drop, take-append, drop-append, drop-drop, take-append-drop,
  length-take, length-drop, length-append, map, leb, true, All, some,
}
use par2rust.Buffer.{IsBytes, xor_pairs}
use par2rust.Buffer.Symbols.{
  SameShape, nil, pair, IsCall, IsCall-SameShape, AddsProduct-of_pairs, AddsProduct-unique,
  product_bytes, length-xor_pairs,
}
use par2rust.Encode.{Kernel}
use par2rust.Encode.Tiled.{block_rows}

-- The contract fixes what a kernel returns.
pub gf_mul_xor-eq :
    (kernel : Kernel) (coeff : ℕ) (input output : List ℕ)
    → IsCall coeff input output
    → kernel.gf_mul_xor coeff input output ≡ some (xor_pairs (product_bytes coeff) input output)
gf_mul_xor-eq kernel coeff input output c =
    AddsProduct-unique coeff input output _ _ c (kernel.adds coeff input output c)
      (AddsProduct-of_pairs coeff input output _ c refl)

xor_pairs-append :
    (f : ℕ → ℕ → ℕ × ℕ) {i o : List ℕ} (j p : List ℕ)
    → SameShape i o
    → xor_pairs f (i ++ j) (o ++ p) ≡ xor_pairs f i o ++ xor_pairs f j p
unfolding xor_pairs
xor_pairs-append f j p nil = refl
xor_pairs-append f j p (pair a b x y s) = rw (xor_pairs-append f j p s)

-- A buffer in the middle of the loop: its coefficient, the part that is finished, and the rest.
pub record Row : Type 0 where
  pub coeff : ℕ
  pub finished : List ℕ
  pub rest : List ℕ

abbrev pub buffer : Row → List ℕ
buffer row = row.finished ++ row.rest

-- The row `m` bytes later, when `input` is what is left of the slice.
abbrev pub advanced : List ℕ → ℕ → Row → Row
advanced input m row = record {
  coeff = row.coeff;
  finished = row.finished ++ xor_pairs (product_bytes row.coeff) (take m input) (take m row.rest);
  rest = drop m row.rest;
}

abbrev pub completed : List ℕ → Row → List ℕ
completed input row = row.finished ++ xor_pairs (product_bytes row.coeff) input row.rest

-- A row that stands at `start`, with as much left as the slice has.
pub record IsRow (start left : ℕ) (row : Row) : Type 0 where
  pub symbol : row.coeff < 2 ^ 16
  pub done : length row.finished ≡ start
  pub length_rest : length row.rest ≡ left
  pub bytes : IsBytes row.rest

IsBytes-take : (m : ℕ) (xs : List ℕ) → IsBytes xs → IsBytes (take m xs)
IsBytes-take zero xs h = tt
IsBytes-take (suc m) [] h = tt
IsBytes-take (suc m) (x ∷ xs) h = (h.0, IsBytes-take m xs h.1)

pub IsBytes-drop : (m : ℕ) (xs : List ℕ) → IsBytes xs → IsBytes (drop m xs)
IsBytes-drop zero xs h = h
IsBytes-drop (suc m) [] h = tt
IsBytes-drop (suc m) (x ∷ xs) h = IsBytes-drop m xs h.1

module _ (kernel : Kernel) (input : List ℕ) (input_bytes : IsBytes input) where
  block-IsCall :
      (m start : ℕ) (row : Row)
      → m ≤ length input
      → m % 2 ≡ 0
      → IsRow start (length input) row
      → IsCall row.coeff (take m input) (take m row.rest)
  block-IsCall m start row le even r =
      let size = r.length_rest in
      record {
        symbol = r.symbol;
        lengths = omega (arith, length-take {0} m input, length-take {0} m row.rest);
        even = omega (arith, length-take {0} m input);
        input_bytes = IsBytes-take m input input_bytes;
        output_bytes = IsBytes-take m row.rest r.bytes;
      }

  pub block_rows-advanced :
      (m start : ℕ)
      → m ≤ length input
      → m % 2 ≡ 0
      → (rows : List Row) → All (IsRow start (length input)) rows
      → block_rows kernel
          (take m input)
          start
          (start + m)
          (map (λ row. row.coeff) rows)
          (map buffer rows)
        ≡ some (map buffer (map (advanced input m) rows))
  unfolding block_rows
  block_rows-advanced m start le even [] h = refl
  block_rows-advanced m start le even (row ∷ rows) h =
      let r = h.0 in
      let measured = r.length_rest in
      let placed = r.done in
      let fits : leb (start + m) (length (row.finished ++ row.rest)) ≡ true =
        ground (arith, length-append {0} row.finished row.rest) in
      let size : start + m - start ≡ m = omega arith in
      let at = drop-append row.finished row.rest start r.done in
      let after = sym (drop-drop start m (row.finished ++ row.rest)) ∙ ap (drop m) at in
      let part =
        gf_mul_xor-eq kernel row.coeff (take m input) (take m row.rest)
          (block-IsCall m start row le even r) in
      let others = block_rows-advanced m start le even rows h.1 in
      let joined =
        append_assoc row.finished
          (xor_pairs (product_bytes row.coeff) (take m input) (take m row.rest))
          (drop m row.rest) in
      rw (fits, size, at, part, others, take-append row.finished row.rest start r.done, after)
        (ap (λ (b : List ℕ). some (b ∷ map buffer (map (advanced input m) rows))) (sym joined))

  advanced-IsRow :
      (m start : ℕ) (row : Row)
      → m ≤ length input
      → m % 2 ≡ 0
      → IsRow start (length input) row
      → IsRow (start + m) (length (drop m input)) (advanced input m row)
  advanced-IsRow m start row le even r =
      let measured = r.length_rest in
      let placed = r.done in
      let call = block-IsCall m start row le even r in
      let part = length-xor_pairs (product_bytes row.coeff) (IsCall-SameShape call) in
      record {
        symbol = r.symbol;
        done = omega (
          arith,
          length-append {0} row.finished
              (xor_pairs (product_bytes row.coeff) (take m input) (take m row.rest)),
          part,
          length-take {0} m row.rest,
        );
        length_rest = omega (arith, length-drop {0} m row.rest, length-drop {0} m input);
        bytes = IsBytes-drop m row.rest r.bytes;
      }

  -- Finishing an advanced row over what is left is finishing the row.
  completed-advanced :
      (m start : ℕ) (row : Row)
      → m ≤ length input
      → m % 2 ≡ 0
      → IsRow start (length input) row
      → completed (drop m input) (advanced input m row) ≡ completed input row
  completed-advanced m start row le even r =
      let f = product_bytes row.coeff in
      let call = block-IsCall m start row le even r in
      append_assoc row.finished (xor_pairs f (take m input) (take m row.rest))
        (xor_pairs f (drop m input) (drop m row.rest))
      ∙ ap (λ (b : List ℕ). row.finished ++ b)
          (sym (xor_pairs-append f (drop m input) (drop m row.rest) (IsCall-SameShape call))
            ∙ ap₂ (xor_pairs f) (take-append-drop m input) (take-append-drop m row.rest))

  pub rows-advanced :
      (m start : ℕ)
      → m ≤ length input
      → m % 2 ≡ 0
      → (rows : List Row) → All (IsRow start (length input)) rows
      → All (IsRow (start + m) (length (drop m input))) (map (advanced input m) rows)
        × (map (completed (drop m input)) (map (advanced input m) rows)
            ≡ map (completed input) rows)
  rows-advanced m start le even [] h = (tt, refl)
  rows-advanced m start le even (row ∷ rows) h =
      let (others, same) = rows-advanced m start le even rows h.1 in
      (
        (advanced-IsRow m start row le even h.0, others),
        ap₂ ◌∷◌ (completed-advanced m start row le even h.0) same,
      )

pub coeffs-advanced :
    (input : List ℕ) (m : ℕ) (rows : List Row)
    → map (λ row. row.coeff) (map (advanced input m) rows) ≡ map (λ row. row.coeff) rows
coeffs-advanced input m [] = refl
coeffs-advanced input m (row ∷ rows) = ap (◌∷◌ row.coeff) (coeffs-advanced input m rows)

-- At the end of the slice every row is complete.
pub rows-ended : (rows : List Row) → map buffer rows ≡ map (completed []) rows
unfolding xor_pairs
rows-ended [] = refl
rows-ended (row ∷ rows) = ap (◌∷◌ (buffer row)) (rows-ended rows)
