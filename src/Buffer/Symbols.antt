-- ===== src/Buffer/Symbols.antt =====
-- The reference of all kernels: the product is added symbol by symbol.
use par2rust.Base.{
  ℕ, suc, ◌+◌, ◌*◌, ◌/◌, ◌%◌, ◌^◌, ◌<◌, ◌≡◌, refl, sym, ap, ap₂, ◌∙◌, arith, List, [], ◌∷◌, bit_xor,
  length, some,
}
use par2rust.Base.Bits.{xor-lt, xor_fields, xor-zero}
use par2rust.Base.Checked.{Checked}
use par2rust.Galois.{gf_mul}
use par2rust.Galois.Field.{gf_mul-lt, gf_mul-zero_left, one-gf_mul}
use par2rust.Buffer.{IsBytes, xor_pairs, xor_bytes, symbols}

-- The two bytes of `coeff · (low byte a, high byte b)`.
abbrev pub product_bytes : ℕ → ℕ → ℕ → ℕ × ℕ
product_bytes coeff a b =
    (gf_mul coeff (a + 2 ^ 8 * b) % 2 ^ 8, gf_mul coeff (a + 2 ^ 8 * b) / 2 ^ 8)

-- `output[k] + coeff · input[k]`, symbol by symbol.
unfoldable pub add_product : ℕ → List ℕ → List ℕ → List ℕ
add_product coeff (s ∷ input) (t ∷ output) =
    bit_xor t (gf_mul coeff s) ∷ add_product coeff input output
add_product coeff _ output = output

-- Buffers of the same even length, as evidence to recur on.
pub data SameShape : List ℕ → List ℕ → Type 0 where
  nil : SameShape [] []
  pair :
      {input output : List ℕ} (a b x y : ℕ)
      → SameShape input output
      → SameShape (a ∷ b ∷ input) (x ∷ y ∷ output)

pub SameShape-of_length :
    (input output : List ℕ)
    → length input ≡ length output
    → length input % 2 ≡ 0
    → SameShape input output
SameShape-of_length [] [] e even = nil
SameShape-of_length [] (x ∷ output) e even = absurd (omega arith)
SameShape-of_length (a ∷ []) output e even = absurd (omega arith)
SameShape-of_length (a ∷ b ∷ input) [] e even = absurd (omega arith)
SameShape-of_length (a ∷ b ∷ input) (x ∷ []) e even = absurd (omega arith)
SameShape-of_length (a ∷ b ∷ input) (x ∷ y ∷ output) e even =
    pair a b x y (SameShape-of_length input output (omega arith) (omega arith))

-- Kernels that compute the same bytes for bytes have the same effect.
pub xor_pairs_ext :
    (f g : ℕ → ℕ → ℕ × ℕ)
    → ((a b : ℕ) → a < 2 ^ 8 → b < 2 ^ 8 → f a b ≡ g a b)
    → {input output : List ℕ} → SameShape input output
    → IsBytes input
    → xor_pairs f input output ≡ xor_pairs g input output
unfolding xor_pairs
xor_pairs_ext f g same nil h = refl
xor_pairs_ext f g same (pair a b x y s) h = rw (same a b h.0 h.1.0, xor_pairs_ext f g same s h.1.1)

pub length-xor_pairs :
    (f : ℕ → ℕ → ℕ × ℕ) {input output : List ℕ}
    → SameShape input output
    → length (xor_pairs f input output) ≡ length output
unfolding xor_pairs
length-xor_pairs f nil = refl
length-xor_pairs f (pair a b x y s) = ap (λ (n : ℕ). suc (suc n)) (length-xor_pairs f s)

-- Adding the bytes of a product adds the product.
add_symbol :
    (x y p : ℕ)
    → x < 2 ^ 8
    → bit_xor x (p % 2 ^ 8) + 2 ^ 8 * bit_xor y (p / 2 ^ 8) ≡ bit_xor (x + 2 ^ 8 * y) p
add_symbol x y p h =
    let e : y * 2 ^ 8 + x ≡ x + 2 ^ 8 * y = omega arith in
    let f : p / 2 ^ 8 * 2 ^ 8 + p % 2 ^ 8 ≡ p = omega arith in
    omega (arith, xor_fields 8 y (p / 2 ^ 8) x (p % 2 ^ 8) h (omega arith)) ∙ ap₂ bit_xor e f

pub symbols-xor_pairs :
    (coeff : ℕ) {input output : List ℕ}
    → SameShape input output
    → IsBytes output
    → symbols (xor_pairs (product_bytes coeff) input output)
      ≡ add_product coeff (symbols input) (symbols output)
unfolding xor_pairs symbols add_product
symbols-xor_pairs coeff nil k = refl
symbols-xor_pairs coeff (pair a b x y s) k =
    ap₂ ◌∷◌ (add_symbol x y (gf_mul coeff (a + 2 ^ 8 * b)) k.0) (symbols-xor_pairs coeff s k.1.1)

byte_product-lt :
    (coeff a b : ℕ) → coeff < 2 ^ 16 → a < 2 ^ 8 → b < 2 ^ 8 → gf_mul coeff (a + 2 ^ 8 * b) < 2 ^ 16
byte_product-lt coeff a b p q r = gf_mul-lt coeff (a + 2 ^ 8 * b) p (omega arith)

pub IsBytes-xor_pairs :
    (coeff : ℕ) {input output : List ℕ}
    → coeff < 2 ^ 16
    → SameShape input output
    → IsBytes input
    → IsBytes output
    → IsBytes (xor_pairs (product_bytes coeff) input output)
unfolding xor_pairs
IsBytes-xor_pairs coeff p nil h k = tt
IsBytes-xor_pairs coeff p (pair a b x y s) h k =
    let small = byte_product-lt coeff a b p h.0 h.1.0 in
    (
      xor-lt 8 x _ k.0 (omega arith),
      (xor-lt 8 y _ k.1.0 (omega arith), IsBytes-xor_pairs coeff p s h.1.1 k.1.1),
    )

-- The two short cuts of the kernels: coefficient 0 changes nothing, coefficient 1 adds the bytes.
pub xor_pairs-zero :
    {input output : List ℕ}
    → SameShape input output
    → xor_pairs (product_bytes 0) input output ≡ output
unfolding xor_pairs
xor_pairs-zero nil = refl
xor_pairs-zero (pair a b x y s) = simp (gf_mul-zero_left, xor-zero, xor_pairs-zero s)

pub xor_pairs-one :
    {input output : List ℕ}
    → SameShape input output
    → IsBytes input
    → xor_pairs (product_bytes 1) input output ≡ xor_bytes input output
unfolding xor_pairs xor_bytes
xor_pairs-one nil h = refl
xor_pairs-one (pair a b x y s) h =
    let whole = one-gf_mul (a + 2 ^ 8 * b) (omega (arith, h.0, h.1.0)) in
    ap₂ ◌∷◌ (ap (bit_xor x) (omega (arith, whole, h.0)))
      (ap₂ ◌∷◌ (ap (bit_xor y) (omega (arith, whole, h.0))) (xor_pairs-one s h.1.1))

-- What a kernel is to do, with a coefficient, from an input and an output: return, and add the product
-- of the input to the output symbol by symbol.
pub record AddsProduct (coeff : ℕ) (input output : List ℕ) (result : Checked (List ℕ))
    : Type 0 where
  pub out : List ℕ
  pub returns : result ≡ some out
  pub adds : symbols out ≡ add_product coeff (symbols input) (symbols output)
  pub same_length : length out ≡ length output
  pub bytes : IsBytes out

-- The buffers that a kernel is called on.
pub record IsCall (coeff : ℕ) (input output : List ℕ) : Type 0 where
  pub symbol : coeff < 2 ^ 16
  pub lengths : length input ≡ length output
  pub even : length input % 2 ≡ 0
  pub input_bytes : IsBytes input
  pub output_bytes : IsBytes output

pub IsCall-SameShape :
    {coeff : ℕ} {input output : List ℕ} → IsCall coeff input output → SameShape input output
IsCall-SameShape c = SameShape-of_length _ _ c.lengths c.even

pub AddsProduct-of_pairs :
    (coeff : ℕ) (input output : List ℕ) (result : Checked (List ℕ))
    → IsCall coeff input output
    → result ≡ some (xor_pairs (product_bytes coeff) input output)
    → AddsProduct coeff input output result
AddsProduct-of_pairs coeff input output result c e = record {
  out = xor_pairs (product_bytes coeff) input output;
  returns = e;
  adds = symbols-xor_pairs coeff s c.output_bytes;
  same_length = length-xor_pairs (product_bytes coeff) s;
  bytes = IsBytes-xor_pairs coeff c.symbol s c.input_bytes c.output_bytes;
}
  where
    s : SameShape input output
    s = IsCall-SameShape c

-- A buffer of bytes is determined by its symbols.
pub symbols_injective :
    {a b : List ℕ} → SameShape a b → IsBytes a → IsBytes b → symbols a ≡ symbols b → a ≡ b
unfolding symbols
symbols_injective nil h k e = refl
symbols_injective (pair a b x y s) h k e =
    let first : a + 2 ^ 8 * b ≡ x + 2 ^ 8 * y = cc in
    let low : a ≡ x = omega (arith, h.0, k.0) in
    let high : b ≡ y = omega (arith, h.0, k.0) in
    ap₂ ◌∷◌ low (ap₂ ◌∷◌ high (symbols_injective s h.1.1 k.1.1 cc))

-- The contract leaves a kernel no choice.
pub AddsProduct-unique :
    (coeff : ℕ) (input output : List ℕ) (r r' : Checked (List ℕ))
    → IsCall coeff input output
    → AddsProduct coeff input output r
    → AddsProduct coeff input output r'
    → r ≡ r'
AddsProduct-unique coeff input output r r' c p q =
    p.returns
    ∙ ap some (
        symbols_injective
          (SameShape-of_length p.out q.out (p.same_length ∙ sym q.same_length)
            (let size = p.same_length in let even = c.even in let same = c.lengths in omega arith))
          p.bytes q.bytes (p.adds ∙ sym q.adds))
    ∙ sym q.returns
