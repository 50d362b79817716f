-- ===== src/Tests/Field.antt =====
-- The field at concrete symbols.
use par2rust.Base.{ℕ, ◌^◌, ◌<◌, ◌≡◌, ◌↔◌, arith, bit_xor, some}
use par2rust.Galois.{gf_mul, gf_pow, gf_inv, gf16_tables, field_limit}
use par2rust.Galois.Polynomial.{poly_mul, gf_mul-eq-poly_mul}
use par2rust.Galois.Inverse.{gf_mul_field}
use par2rust.Galois.Repeated.{mul_times, gf_pow-eq-mul_times}
use par2rust.Galois.Tables.{antilog-log}

gf_mul-eq-poly_mul_example : gf_mul 0x1234 0x8001 ≡ poly_mul 16 0x1234 0x8001
gf_mul-eq-poly_mul_example = gf_mul-eq-poly_mul 0x1234 0x8001 (omega arith) (omega arith)

gf_mul_field_example :
    (gf_mul 0x1234 7 ≡ gf_mul 7 0x1234)
    × (gf_mul (gf_mul 0x1234 7) 0x8000 ≡ gf_mul 0x1234 (gf_mul 7 0x8000))
    × (gf_mul 0x1234 (bit_xor 7 0x8000) ≡ bit_xor (gf_mul 0x1234 7) (gf_mul 0x1234 0x8000))
    × (gf_mul 1 7 ≡ 7)
    × ((gf_mul 0x1234 7 ≡ 0) ↔ (◌≡◌ {A = ℕ} 7 0))
    × ((i : ℕ) × (gf_inv 0x1234 ≡ some i) × (i < 2 ^ 16) × (gf_mul 0x1234 i ≡ 1))
gf_mul_field_example =
    gf_mul_field 0x1234 7 0x8000 (omega arith) (omega arith) (omega arith) (omega arith)

gf_pow-eq-mul_times_example : gf_pow 0xbeef 65536 ≡ mul_times 0xbeef 65536
gf_pow-eq-mul_times_example = gf_pow-eq-mul_times 0xbeef 65536 (omega arith) (omega arith)

antilog-log_example :
    (gf16_tables.log 0x8000 < field_limit) × (gf16_tables.antilog (gf16_tables.log 0x8000) ≡ 0x8000)
antilog-log_example = antilog-log 0x8000 (omega arith) (omega arith)
