-- ===== src/GaloisSimd/Dispatch.antt =====
-- src/galois_simd.rs: the kernel that a machine selects, the tables that it builds for a coefficient, and
-- the call that every multiplication goes through. The ways of all processors are constructors together;
-- the processor and its features are arguments of the selection.
pub mod Contract
use par2rust.Base.{
  ℕ, zero, suc, List, Option, none, some, Bool, true, false, ◌&&◌, ◌||◌, ◌==◌, if◌then◌else◌,
}
use par2rust.Base.Checked.{Checked}
use par2rust.Buffer.{xor_bytes}
use par2rust.ReedSolomon.{gf_mul_xor_scalar}
use par2rust.GaloisSimd.{
  CoeffTables, coeff_tables, NibbleTables, from_coeff_tables, gf_mul_xor_table_scalar,
}
use par2rust.GaloisSimd.X86.{gf_mul_xor_ssse3, gf_mul_xor_avx2}
use par2rust.GaloisSimd.Neon.{gf_mul_xor_neon}
use par2rust.GaloisSimd.Gfni.{GfniTables, from_coeff, gf_mul_xor_gfni, gf_mul_xor_gfni_avx512}

pub data Dispatch : Type 0 where
  scalar : Dispatch
  table_scalar : Dispatch
  neon : Dispatch
  ssse3 : Dispatch
  avx2 : Dispatch
  gfni : Dispatch
  gfni_avx512 : Dispatch

pub data TargetArch : Type 0 where
  aarch64 : TargetArch
  x86_64 : TargetArch
  other_arch : TargetArch

-- What `is_x86_feature_detected!` answers.
pub record Features : Type 0 where
  pub has_gfni : Bool
  pub has_avx512f : Bool
  pub has_avx512bw : Bool
  pub has_ssse3 : Bool
  pub has_avx2 : Bool

unfoldable pub detect_dispatch : TargetArch → Features → Dispatch
detect_dispatch aarch64 cpu = neon
detect_dispatch x86_64 cpu =
    if cpu.has_gfni && cpu.has_avx512f && cpu.has_avx512bw
    then gfni_avx512
    else if cpu.has_gfni && cpu.has_ssse3
    then gfni
    else if cpu.has_avx2
    then avx2
    else if cpu.has_ssse3
    then ssse3
    else table_scalar
detect_dispatch other_arch cpu = table_scalar

pub data CoeffSimdTables : Type 0 where
  trivial_tables : ℕ → CoeffSimdTables
  scalar_tables : ℕ → CoeffSimdTables
  byte_tables : CoeffTables → CoeffSimdTables
  neon_tables : NibbleTables → CoeffSimdTables
  ssse3_tables : NibbleTables → CoeffSimdTables
  avx2_tables : NibbleTables → CoeffSimdTables
  gfni_tables : GfniTables → CoeffSimdTables
  gfni_avx512_tables : GfniTables → CoeffSimdTables

unfoldable pub tables_of : Dispatch → ℕ → CoeffSimdTables
tables_of scalar coeff = scalar_tables coeff
tables_of table_scalar coeff = byte_tables (coeff_tables coeff)
tables_of neon coeff = neon_tables (from_coeff_tables (coeff_tables coeff))
tables_of ssse3 coeff = ssse3_tables (from_coeff_tables (coeff_tables coeff))
tables_of avx2 coeff = avx2_tables (from_coeff_tables (coeff_tables coeff))
tables_of gfni coeff = gfni_tables (from_coeff coeff)
tables_of gfni_avx512 coeff = gfni_avx512_tables (from_coeff coeff)

unfoldable pub new : Dispatch → ℕ → CoeffSimdTables
new dispatch coeff =
    if coeff == 0 || (coeff == 1) then trivial_tables coeff else tables_of dispatch coeff

unfoldable pub gf_mul_xor_with_tables : CoeffSimdTables → List ℕ → List ℕ → Checked (List ℕ)
gf_mul_xor_with_tables (trivial_tables zero) input output = some output
gf_mul_xor_with_tables (trivial_tables (suc zero)) input output = some (xor_bytes input output)
gf_mul_xor_with_tables (trivial_tables (suc (suc n))) input output = none
gf_mul_xor_with_tables (scalar_tables coeff) input output = gf_mul_xor_scalar coeff input output
gf_mul_xor_with_tables (byte_tables t) input output = gf_mul_xor_table_scalar t input output
gf_mul_xor_with_tables (neon_tables t) input output = gf_mul_xor_neon t input output
gf_mul_xor_with_tables (ssse3_tables t) input output = gf_mul_xor_ssse3 t input output
gf_mul_xor_with_tables (avx2_tables t) input output = gf_mul_xor_avx2 t input output
gf_mul_xor_with_tables (gfni_tables t) input output = gf_mul_xor_gfni t input output
gf_mul_xor_with_tables (gfni_avx512_tables t) input output = gf_mul_xor_gfni_avx512 t input output

unfoldable pub gf_mul_xor_dispatch : Dispatch → ℕ → List ℕ → List ℕ → Checked (List ℕ)
gf_mul_xor_dispatch dispatch coeff input output =
    gf_mul_xor_with_tables (new dispatch coeff) input output
