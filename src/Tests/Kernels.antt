-- ===== src/Tests/Kernels.antt =====
-- Kernels on buffers that fill every vector width, with a tail; and the order of the slices.
use par2rust.Base.{ℕ, zero, suc, ◌^◌, ◌<◌, ◌≡◌, refl, arith, List, [], ◌∷◌, replicate}
use par2rust.Buffer.{IsBytes}
use par2rust.Buffer.Symbols.{IsCall, AddsProduct}
use par2rust.GaloisSimd.Gfni.{from_coeff, gf_mul_xor_gfni_avx512}
use par2rust.GaloisSimd.Gfni.Kernels.{gf_mul_xor_gfni_avx512-AddsProduct}
use par2rust.GaloisSimd.Dispatch.{scalar, avx2, gfni_avx512, gf_mul_xor_dispatch}
use par2rust.GaloisSimd.Dispatch.Contract.{
  gf_mul_xor_dispatch-AddsProduct, gf_mul_xor_dispatch_agrees,
}
use par2rust.Base.{◌≢◌, ap}
use par2rust.Base.Bytes.{from_le_bytes}
use par2rust.Encode.{encode_all_recovery_blocks}
use par2rust.Encode.Kernels.{table_kernel}
use par2rust.Encode.Recovery.{IsBuffer}
use par2rust.Encode.Order.{encode_all_recovery_blocks-swapped}

filled-IsBytes : (b n : ℕ) → b < 2 ^ 8 → IsBytes (replicate n b)
filled-IsBytes b zero h = tt
filled-IsBytes b (suc n) h = (h, filled-IsBytes b n h)

-- A chunk of 128 bytes, one of 64, one of 32 and two symbols.
abbrev long_input : List ℕ
long_input = replicate 228 0x5a

abbrev long_output : List ℕ
long_output = replicate 228 0x0f

long-IsCall : IsCall 0x1021 long_input long_output
long-IsCall = record {
  symbol = omega arith;
  lengths = refl;
  even = refl;
  input_bytes = filled-IsBytes 0x5a 228 (omega arith);
  output_bytes = filled-IsBytes 0x0f 228 (omega arith);
}

gf_mul_xor_gfni_avx512-AddsProduct_example :
    AddsProduct 0x1021 long_input long_output
      (gf_mul_xor_gfni_avx512 (from_coeff 0x1021) long_input long_output)
gf_mul_xor_gfni_avx512-AddsProduct_example =
    gf_mul_xor_gfni_avx512-AddsProduct 0x1021 long_input long_output long-IsCall

gf_mul_xor_dispatch-AddsProduct_example :
    AddsProduct 0x1021 long_input long_output
      (gf_mul_xor_dispatch gfni_avx512 0x1021 long_input long_output)
gf_mul_xor_dispatch-AddsProduct_example =
    gf_mul_xor_dispatch-AddsProduct gfni_avx512 0x1021 long_input long_output long-IsCall

gf_mul_xor_dispatch_agrees_example :
    gf_mul_xor_dispatch avx2 0x1021 long_input long_output
    ≡ gf_mul_xor_dispatch scalar 0x1021 long_input long_output
gf_mul_xor_dispatch_agrees_example =
    gf_mul_xor_dispatch_agrees avx2 scalar 0x1021 long_input long_output long-IsCall

encode_all_recovery_blocks-swapped_example :
    encode_all_recovery_blocks table_kernel ((1 ∷ 2 ∷ []) ∷ (3 ∷ 2 ∷ []) ∷ []) 2 3
    ≢ encode_all_recovery_blocks table_kernel ((3 ∷ 2 ∷ []) ∷ (1 ∷ 2 ∷ []) ∷ []) 2 3
unfolding IsBuffer from_le_bytes
encode_all_recovery_blocks-swapped_example =
    encode_all_recovery_blocks-swapped table_kernel 2 3 (1 ∷ 2 ∷ []) (3 ∷ 2 ∷ [])
      ((omega arith, (omega arith, tt)), refl) ((omega arith, (omega arith, tt)), refl) refl
      (omega arith) (omega arith) (λ e. omega (arith, ap (λ (xs : List ℕ). from_le_bytes xs) e))
