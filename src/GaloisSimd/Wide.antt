-- ===== src/GaloisSimd/Wide.antt =====
-- The loop that every vector kernel runs: chunks of one width, then a narrower kernel for what is left.
use par2rust.Base.{
  ℕ, zero, suc, ◌+◌, ◌*◌, ◌%◌, ◌^◌, ◌<◌, ◌≤◌, ◌≡◌, refl, sym, ap, ap₂, ◌∙◌, arith, List, [], ◌∷◌,
  ◌++◌, length, length-take, length-drop, take, drop, take-append-drop, bit_xor, ltb, if◌then◌else◌,
  some,
}
use native.Mathlib.Nat.{suc-mul}
use par2rust.Base.Checked.{Checked, ◌>>=◌}
use par2rust.Buffer.{IsBytes, xor_pairs}
use par2rust.Buffer.Symbols.{SameShape, SameShape-of_length, nil, pair}
use par2rust.GaloisSimd.Vectors.{Vector, byte_at, stored_from}

-- `chunks` times `step` on the first `width` bytes of what is left of the buffers, then `tail`.
unfoldable pub wide_loop :
    ℕ
    → (List ℕ → List ℕ → List ℕ)
    → (List ℕ → List ℕ → Checked (List ℕ))
    → ℕ
    → List ℕ
    → List ℕ
    → Checked (List ℕ)
wide_loop width step tail zero input output =
    let rest = tail input output in if ltb 0 (length input) then rest else some output
wide_loop width step tail (suc chunks) input output = do
  rest ← wide_loop width step tail chunks (drop width input) (drop width output)
  some (step input output ++ rest)

xor_pairs-append :
    (body : ℕ → ℕ → ℕ × ℕ) {a c : List ℕ} (b d : List ℕ)
    → SameShape a c
    → xor_pairs body (a ++ b) (c ++ d) ≡ xor_pairs body a c ++ xor_pairs body b d
unfolding xor_pairs
xor_pairs-append body b d nil = refl
xor_pairs-append body b d (pair w x y z s) =
    ap (λ (rest : List ℕ). bit_xor y (body w x).0 ∷ bit_xor z (body w x).1 ∷ rest)
      (xor_pairs-append body b d s)

xor_pairs-nothing :
    (body : ℕ → ℕ → ℕ × ℕ) (input output : List ℕ)
    → length input ≡ 0
    → output ≡ xor_pairs body input output
unfolding xor_pairs
xor_pairs-nothing body [] output h = refl
xor_pairs-nothing body (x ∷ input) output h = absurd (omega arith)

pub byte_at-lt : (bs : List ℕ) (i : ℕ) → IsBytes bs → byte_at bs i < 2 ^ 8
unfolding byte_at
byte_at-lt [] i h = omega arith
byte_at-lt (b ∷ bs) zero h = h.0
byte_at-lt (b ∷ bs) (suc i) h = byte_at-lt bs i h.1

drop-IsBytes : (n : ℕ) (bs : List ℕ) → IsBytes bs → IsBytes (drop n bs)
drop-IsBytes zero bs h = h
drop-IsBytes (suc n) [] h = tt
drop-IsBytes (suc n) (b ∷ bs) h = drop-IsBytes n bs h.1

stored_from-shift :
    (i n : ℕ) (v : Vector) → stored_from (suc i) n v ≡ stored_from i n (λ j. v (suc j))
unfolding stored_from
stored_from-shift i zero v = refl
stored_from-shift i (suc n) v =
    let e : suc i + 1 ≡ suc (i + 1) = omega arith in
    rw e (ap (◌∷◌ (v (suc i))) (stored_from-shift (i + 1) n v))

-- What is loaded from a buffer is its beginning.
pub take-eq-stored :
    (n : ℕ) (bs : List ℕ) → n ≤ length bs → take n bs ≡ stored_from 0 n (byte_at bs)
unfolding stored_from byte_at
take-eq-stored zero bs h = refl
take-eq-stored (suc n) [] h = absurd (omega arith)
take-eq-stored (suc n) (b ∷ bs) h =
    let e : 0 + 1 ≡ suc 0 = omega arith in
    rw e (
      ap (◌∷◌ b)
        (take-eq-stored n bs (omega arith) ∙ sym (stored_from-shift 0 n (byte_at (b ∷ bs)))))

module _ (width : ℕ) (even : width % 2 ≡ 0) (body : ℕ → ℕ → ℕ × ℕ) (step : List ℕ → List ℕ → List ℕ)
    (tail : List ℕ → List ℕ → Checked (List ℕ))
    (step_lem : (input output : List ℕ)
      → width ≤ length input
      → width ≤ length output
      → IsBytes input
      → step input output ≡ xor_pairs body (take width input) (take width output))
    (tail_lem : (input output : List ℕ)
      → length input ≡ length output
      → length input % 2 ≡ 0
      → IsBytes input
      → tail input output ≡ some (xor_pairs body input output)) where
  -- A kernel whose steps and whose tail apply `body` to pairs applies it to the whole buffer.
  pub wide_loop-eq :
      (chunks : ℕ) (input output : List ℕ)
      → chunks * width ≤ length input
      → length input ≡ length output
      → length input % 2 ≡ 0
      → IsBytes input
      → wide_loop width step tail chunks input output ≡ some (xor_pairs body input output)
  unfolding wide_loop
  wide_loop-eq zero input output fits same whole bytes =
      let done = tail_lem input output same whole bytes in
      let nothing = xor_pairs-nothing body input output in ground (arith, done, nothing)
  wide_loop-eq (suc chunks) input output fits same whole bytes =
      let count = suc-mul chunks width in
      let left = length-drop width input in
      let left_out = length-drop width output in
      let size = length-take width input in
      let size_out = length-take width output in
      let rest =
        wide_loop-eq chunks (drop width input) (drop width output) (omega arith) (omega arith)
          (omega arith) (drop-IsBytes width input bytes) in
      let here = step_lem input output (omega arith) (omega arith) bytes in
      let shape =
        SameShape-of_length (take width input) (take width output) (omega arith) (omega arith) in
      let joined = xor_pairs-append body (drop width input) (drop width output) shape in
      rw (rest, here)
        (ap some (
          sym joined
          ∙ ap₂ (xor_pairs body) (take-append-drop width input) (take-append-drop width output)))
