-- ===== src/Encode/Order.antt =====
-- A recovery buffer depends on the order of its slices.
use mathlib.Core.Option.{some-injective}
use par2rust.Base.{
  subst, ℕ, ◌+◌, ◌*◌, ◌%◌, ◌^◌, ◌<◌, ◌≡◌, ◌≢◌, refl, sym, ap, ap₂, ◌∙◌, arith, inl, inr, List, [],
  ◌∷◌, bit_xor, length, replicate, All, Distinct, ◌≤◌,
}
use par2rust.Base.Bits.{xor_comm, xor_swap_middle, xor_self, xor_cancel, zero-xor, xor-lt}
use par2rust.Galois.{gf_mul, gf_pow}
use par2rust.Galois.Field.{gf_mul_comm, gf_mul-xor, gf_mul-eq-zero, one-gf_mul}
use par2rust.Galois.Repeated.{mul_times, gf_pow-eq-mul_times}
use par2rust.Buffer.{IsBytes, symbols}
use par2rust.Buffer.Symbols.{SameShape, SameShape-of_length, nil, pair, add_product}
use par2rust.Encode.Recovery.{IsBuffer, combination, HoldsRows, encode_with-HoldsRows}
use par2rust.Encode.{Kernel, encode_all_recovery_blocks}
use par2rust.ReedSolomon.Order.{HasFullOrder}
use par2rust.ReedSolomon.Matrix.{new-IsEncoder}
use par2rust.Galois.{field_limit}

xor-eq-zero : (a b : ℕ) → bit_xor a b ≡ 0 → a ≡ b
xor-eq-zero a b e = sym (xor_cancel a b) ∙ ap (λ (t : ℕ). bit_xor t b) e ∙ zero-xor b

-- Sums of two products in both orders differ by the product of the differences.
exchanged :
    (b c x y : ℕ)
    → b < 2 ^ 16
    → c < 2 ^ 16
    → x < 2 ^ 16
    → y < 2 ^ 16
    → bit_xor (gf_mul b x) (gf_mul c y) ≡ bit_xor (gf_mul b y) (gf_mul c x)
    → gf_mul (bit_xor b c) (bit_xor x y) ≡ 0
exchanged b c x y p q r s e =
    gf_mul-xor (bit_xor b c) x y (xor-lt 16 b c p q) r s
    ∙ ap₂ bit_xor (apart x r) (apart y s ∙ xor_comm (gf_mul b y) (gf_mul c y))
    ∙ xor_swap_middle (gf_mul b x) (gf_mul c x) (gf_mul c y) (gf_mul b y)
    ∙ ap₂ bit_xor e (xor_comm (gf_mul c x) (gf_mul b y))
    ∙ xor_self (bit_xor (gf_mul b y) (gf_mul c x))
  where
    apart : (z : ℕ) → z < 2 ^ 16 → gf_mul (bit_xor b c) z ≡ bit_xor (gf_mul b z) (gf_mul c z)
    apart z h =
        gf_mul_comm (bit_xor b c) z
        ∙ gf_mul-xor z b c h p q
        ∙ ap₂ bit_xor (gf_mul_comm z b) (gf_mul_comm z c)

pub same_symbol :
    (b c x y : ℕ)
    → b < 2 ^ 16
    → c < 2 ^ 16
    → b ≢ c
    → x < 2 ^ 16
    → y < 2 ^ 16
    → bit_xor (bit_xor 0 (gf_mul b x)) (gf_mul c y) ≡ bit_xor (bit_xor 0 (gf_mul b y)) (gf_mul c x)
    → x ≡ y
same_symbol b c x y p q ne r s e =
    let plain : bit_xor (gf_mul b x) (gf_mul c y) ≡ bit_xor (gf_mul b y) (gf_mul c x) =
      ap (λ (t : ℕ). bit_xor t (gf_mul c y)) (sym (zero-xor (gf_mul b x)))
      ∙ e
      ∙ ap (λ (t : ℕ). bit_xor t (gf_mul c x)) (zero-xor (gf_mul b y)) in
    elim (gf_mul-eq-zero (bit_xor b c) (bit_xor x y) (xor-lt 16 b c p q) (xor-lt 16 x y r s)
      (exchanged b c x y p q r s plain)) [
        | inl z ↦ absurd (ne (xor-eq-zero b c z))
        | inr z ↦ xor-eq-zero x y z
      ]

-- Two slices with coefficients `b` and `c`, over zeros.
sum_of_two : ℕ → ℕ → List ℕ → List ℕ → List ℕ → List ℕ
sum_of_two b c s t zeros = add_product c (symbols t) (add_product b (symbols s) zeros)

same_slices :
    (b c : ℕ) {s t : List ℕ}
    → b < 2 ^ 16
    → c < 2 ^ 16
    → b ≢ c
    → SameShape s t
    → IsBytes s
    → IsBytes t
    → sum_of_two b c s t (symbols (replicate (length s) 0))
      ≡ sum_of_two b c t s (symbols (replicate (length s) 0))
    → s ≡ t
unfolding sum_of_two add_product symbols
same_slices b c p q ne nil h k e = refl
same_slices b c p q ne (pair a a' x x' shape) h k e =
    let ha = h.0 in
    let ha' = h.1.0 in
    let hx = k.0 in
    let hx' = k.1.0 in
    let same =
      same_symbol b c (a + 2 ^ 8 * a') (x + 2 ^ 8 * x') p q ne (omega arith) (omega arith) cc in
    let low : a ≡ x = omega arith in
    let high : a' ≡ x' = omega arith in
    ap₂ ◌∷◌ low (ap₂ ◌∷◌ high (same_slices b c p q ne shape h.1.1 k.1.1 cc))

gf_pow-one : (b : ℕ) → b < 2 ^ 16 → gf_pow b 1 ≡ b
unfolding mul_times
gf_pow-one b p = gf_pow-eq-mul_times b 1 p (omega arith) ∙ gf_mul_comm b 1 ∙ one-gf_mul b p

combination-swapped :
    (b c : ℕ) (s t : List ℕ)
    → b < 2 ^ 16
    → c < 2 ^ 16
    → b ≢ c
    → length s ≡ length t
    → length s % 2 ≡ 0
    → IsBytes s
    → IsBytes t
    → combination (b ∷ c ∷ []) (s ∷ t ∷ []) 1 (symbols (replicate (length s) 0))
      ≡ combination (b ∷ c ∷ []) (t ∷ s ∷ []) 1 (symbols (replicate (length s) 0))
    → s ≡ t
unfolding combination sum_of_two
combination-swapped b c s t p q ne same even h k e =
    let zeros = symbols (replicate (length s) 0) in
    let powers = λ (u v : List ℕ).
      ap₂ (λ (x y : ℕ). sum_of_two x y u v zeros) (gf_pow-one b p) (gf_pow-one c q) in
    same_slices b c p q ne (SameShape-of_length s t same even) h k
      (sym (powers s t) ∙ e ∙ powers t s)

-- Bases of two slices.
bases-swapped :
    (bases : List ℕ) (size : ℕ) (s t : List ℕ)
    → length bases ≡ 2
    → Distinct bases
    → All HasFullOrder bases
    → IsBuffer size s
    → IsBuffer size t
    → size % 2 ≡ 0
    → combination bases (s ∷ t ∷ []) 1 (symbols (replicate size 0))
      ≡ combination bases (t ∷ s ∷ []) 1 (symbols (replicate size 0))
    → s ≡ t
unfolding IsBuffer
bases-swapped (b ∷ c ∷ []) size s t two apart orders h k even e =
    combination-swapped b c s t orders.0.fits orders.1.0.fits apart.0.0 (h.1 ∙ sym k.1)
      (omega (arith, h.1)) h.0 k.0 (rw h.1 e)
bases-swapped _ size s t two apart orders h k even e = absurd (omega arith)

-- Buffer 1 of both.
second_row :
    (rows rows' : ℕ → List ℕ) (size : ℕ) (out : List (List ℕ))
    → 1 < length out
    → HoldsRows rows size 0 out
    → HoldsRows rows' size 0 out
    → rows 1 ≡ rows' 1
unfolding HoldsRows
second_row rows rows' size (x ∷ y ∷ out) some_rows h k = sym h.2.0 ∙ k.2.0
second_row rows rows' size _ some_rows h k = absurd (omega arith)

-- For two different slices of bytes of one even size and from 2 to 65535 recovery blocks the pass does not return the
-- same buffers for the slices in either order.
pub encode_all_recovery_blocks-swapped :
    (kernel : Kernel) (size m : ℕ) (s t : List ℕ)
    → IsBuffer size s
    → IsBuffer size t
    → size % 2 ≡ 0
    → 2 ≤ m
    → m ≤ field_limit
    → s ≢ t
    → encode_all_recovery_blocks kernel (s ∷ t ∷ []) size m
      ≢ encode_all_recovery_blocks kernel (t ∷ s ∷ []) size m
encode_all_recovery_blocks-swapped kernel size m s t h k even two le apart same =
    let (rs, made, enc) = new-IsEncoder 2 0 m (omega arith) (omega arith) in
    let (out, e, size_out, holds) =
      encode_with-HoldsRows kernel (s ∷ t ∷ []) size m rs (h, (k, tt)) even (omega arith) le made
        enc in
    let (out', e', _, holds') =
      encode_with-HoldsRows kernel (t ∷ s ∷ []) size m rs (k, (h, tt)) even (omega arith) le made
        enc in
    let one : out' ≡ out = some-injective out' out (sym e' ∙ sym same ∙ e) in
    let rows = λ (u v : List ℕ) (r : ℕ).
      combination rs.input_bases (u ∷ v ∷ []) r (symbols (replicate size 0)) in
    apart (
      bases-swapped rs.input_bases size s t enc.size enc.distinct enc.orders h k even (
        second_row (rows s t) (rows t s) size out (omega arith) holds
          (subst (HoldsRows (rows t s) size 0) one holds')))
