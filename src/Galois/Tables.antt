-- ===== src/Galois/Tables.antt =====
-- What `build_tables` leaves in the tables: `antilog` holds the powers of α, `log` their exponents.
use par2rust.Base.{
  ℕ, zero, suc, ◌^◌, ◌≤◌, ◌<◌, ◌≡◌, ◌≢◌, sym, ap, ◌∙◌, arith, ◌==◌, ==→eq, ==→ne, Bool-cases, inl,
  inr,
}
use native.Mathlib.Nat.{le_refl}
use par2rust.Galois.{
  Table, write, Build, round, rounds, build_tables, gf16_tables, field_limit, double,
}
use par2rust.Galois.Powers.{
  alpha_pow, alpha_pow-zero, alpha_pow-suc, alpha_pow-lt, alpha_pow-ne-zero, alpha_pow_injective,
  log_exists,
}

write_same : (t : Table) (i v : ℕ) → write t i v i ≡ v
unfolding write
write_same t i v = ground arith

write_other : (t : Table) (i v j : ℕ) → j ≢ i → write t i v j ≡ t j
unfolding write
write_other t i v j ne = ground arith

-- After `n` rounds the first `n` powers are recorded both ways, and `b` is the next.
record IsBuilt (n : ℕ) (s : Build) : Type 0 where
  next : s.b ≡ alpha_pow n
  powers : (l : ℕ) → l < n → s.antilog l ≡ alpha_pow l
  logs : (l : ℕ) → l < n → s.log (alpha_pow l) ≡ l

round-IsBuilt : (n : ℕ) (s : Build) → n < field_limit → IsBuilt n s → IsBuilt (suc n) (round n s)
unfolding round
round-IsBuilt n s h b = record {
  next = ap double b.next ∙ sym (alpha_pow-suc n);
  powers = λ l p. elim (Bool-cases (l == n)) [
    | inl e ↦ rw (==→eq l n e, write_same) (omega (arith, b.next, alpha_pow-lt n))
    | inr e ↦ write_other _ _ _ _ (==→ne l n e) ∙ b.powers l (earlier l p (==→ne l n e))
  ];
  logs = λ l p. elim (Bool-cases (l == n)) [
    | inl e ↦ rw (==→eq l n e, b.next, write_same) (omega arith)
    | inr e ↦
        rw b.next
          (write_other _ _ _ _ (apart l p (==→ne l n e)) ∙ b.logs l (earlier l p (==→ne l n e)))
  ];
}
  where
    earlier : (l : ℕ) → l < suc n → l ≢ n → l < n
    earlier l p ne = omega arith

    apart : (l : ℕ) → l < suc n → l ≢ n → alpha_pow l ≢ alpha_pow n
    apart l p ne e = ne (alpha_pow_injective l n (omega arith) h e)

rounds-IsBuilt : (n : ℕ) → n ≤ field_limit → IsBuilt n (rounds n)
unfolding rounds
rounds-IsBuilt zero h = record {
  next = sym alpha_pow-zero;
  powers = λ l p. absurd (omega arith);
  logs = λ l p. absurd (omega arith);
}
rounds-IsBuilt (suc n) h = round-IsBuilt n (rounds n) (omega arith) (rounds-IsBuilt n (omega arith))

pub antilog-eq-alpha_pow : (l : ℕ) → l < field_limit → gf16_tables.antilog l ≡ alpha_pow l
unfolding build_tables
antilog-eq-alpha_pow l h =
    write_other _ _ _ l (let ne : l ≢ field_limit = omega arith in ne)
    ∙ (rounds-IsBuilt field_limit (le_refl _)).powers l h

pub log-alpha_pow : (l : ℕ) → l < field_limit → gf16_tables.log (alpha_pow l) ≡ l
unfolding build_tables
log-alpha_pow l h =
    write_other _ _ _ _ (alpha_pow-ne-zero l) ∙ (rounds-IsBuilt field_limit (le_refl _)).logs l h

-- The logarithm of a non-zero 16-bit symbol is below 65535 and its antilogarithm is the symbol.
pub antilog-log :
    (x : ℕ)
    → 0 < x
    → x < 2 ^ 16
    → (gf16_tables.log x < field_limit) × (gf16_tables.antilog (gf16_tables.log x) ≡ x)
antilog-log x p q =
    let (l, below, e) = log_exists x p q in
    let k : gf16_tables.log x ≡ l = ap gf16_tables.log (sym e) ∙ log-alpha_pow l below in
    (rw k below, rw k (antilog-eq-alpha_pow l below ∙ e))

pub alpha_pow-log : (x : ℕ) → 0 < x → x < 2 ^ 16 → alpha_pow (gf16_tables.log x) ≡ x
alpha_pow-log x p q =
    let (below, back) = antilog-log x p q in sym (antilog-eq-alpha_pow _ below) ∙ back

-- The sentinels.
pub sentinels : (gf16_tables.log 0 ≡ field_limit) × (gf16_tables.antilog field_limit ≡ 0)
unfolding build_tables
sentinels = (write_same _ _ _, write_same _ _ _)
