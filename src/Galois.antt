-- ===== src/Galois.antt =====
-- src/galois.rs: the log and antilog tables of GF(2^16) and the operations that read them.
-- A table is `[u16; FIELD_COUNT]`, read and written at indices below `field_count` only, and is
-- modelled as a function of the index. A panic is `none`.
pub mod Double
pub mod Powers
pub mod Tables
pub mod Field
pub mod Inverse
pub mod Repeated
pub mod Polynomial
use par2rust.Base.{
  ℕ, zero, suc, ◌+◌, ◌-◌, ◌*◌, ◌%◌, ◌^◌, ◌<◌, bit_and, bit_xor, ◌||◌, Option, none, some, ltb, leb,
  ◌==◌, if◌then◌else◌,
}

abbrev pub field_bits : ℕ
field_bits = 16

abbrev pub field_count : ℕ
field_count = 2 ^ field_bits

abbrev pub field_limit : ℕ
field_limit = field_count - 1

abbrev pub field_generator : ℕ
field_generator = 0x1100b

abbrev pub Table : Type 0
Table = ℕ → ℕ

unfoldable pub write : Table → ℕ → ℕ → Table
write t i v j = if j == i then v else t j

pub record Gf16Tables : Type 0 where
  pub log : Table
  pub antilog : Table

-- `b <<= 1; if b & FIELD_COUNT != 0 { b ^= FIELD_GENERATOR; }` on a u32
unfoldable pub double : ℕ → ℕ
double b =
    let shifted = b * 2 % 2 ^ 32 in
    if bit_and shifted field_count == 0 then shifted else bit_xor shifted field_generator

-- The state of the loop: both tables and `b`.
pub record Build : Type 0 where
  pub log : Table
  pub antilog : Table
  pub b : ℕ

unfoldable pub round : ℕ → Build → Build
round l s = record {
  log = write s.log s.b (l % 2 ^ 16);
  antilog = write s.antilog l (s.b % 2 ^ 16);
  b = double s.b;
}

-- `rounds n` is the loop `for l in 0..n`.
unfoldable pub rounds : ℕ → Build
rounds zero = record { log = λ _. 0; antilog = λ _. 0; b = 1 }
rounds (suc n) = round n (rounds n)

unfoldable pub build_tables : Gf16Tables
build_tables =
    let s = rounds field_limit in
    record { log = write s.log 0 (field_limit % 2 ^ 16); antilog = write s.antilog field_limit 0 }

-- The tables are built once and shared.
abbrev pub gf16_tables : Gf16Tables
gf16_tables = build_tables

unfoldable pub gf_mul : ℕ → ℕ → ℕ
gf_mul a b =
    if a == 0 || b == 0
    then 0
    else let sum = gf16_tables.log a + gf16_tables.log b in
      let idx = if leb field_limit sum then sum - field_limit else sum in gf16_tables.antilog idx

unfoldable pub gf_pow : ℕ → ℕ → ℕ
gf_pow base exp =
    if exp == 0
    then 1
    else if base == 0
    then 0
    else let prod = gf16_tables.log base * exp % 2 ^ 64 in gf16_tables.antilog (prod % field_limit)

-- `none` is the failed assertion.
unfoldable pub gf_inv : ℕ → Option ℕ
gf_inv a =
    if a == 0
    then none
    else some (gf16_tables.antilog ((field_limit - gf16_tables.log a) % field_limit))
