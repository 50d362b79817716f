-- ===== src/Cli/Choices/Limits.antt =====
-- src/main.rs: the cap of `-l` and the largest file.
use par2rust.Base.{
  ℕ, ◌+◌, ◌-◌, ◌*◌, ◌/◌, ◌^◌, ◌<◌, ◌≤◌, ◌≡◌, inl, inr, arith, List, [], ◌∷◌, All, All-mono, leb→le,
  ==→eq, ==→ne, subst, min, max, Bool-cases, leb, ◌==◌,
}
use native.Mathlib.Nat.{add-mul, one-mul, mul-le-mul_right, div-mul-le_self, lt-div-mul-add}
use par2rust.Packet.{SourceFile}
use par2rust.Cli.{CreateArgs, largest_length}
use par2rust.Cli.Choices.{AnyFile, here, later, IsCap}

pub largest-AnyFile :
    (P : ℕ → Type 0) (sources : List SourceFile)
    → 0 < largest_length sources
    → P (largest_length sources)
    → AnyFile (λ s. P s.length) sources
unfolding largest_length
largest-AnyFile P [] pos p = absurd (omega arith)
largest-AnyFile P (s ∷ sources) pos p = elim (Bool-cases (leb (largest_length sources) s.length)) [
  | inl first ↦
      let e : max s.length (largest_length sources) ≡ s.length = omega (arith, leb→le _ _ first) in
      here (subst P e p)
  | inr after ↦
      let e : max s.length (largest_length sources) ≡ largest_length sources = ground arith in
      later (largest-AnyFile P sources (omega arith) (subst P e p))
]

largest-All : (sources : List SourceFile) → All (λ s. s.length ≤ largest_length sources) sources
unfolding largest_length
largest-All [] = tt
largest-All (s ∷ sources) = (
  omega arith,
  All-mono (λ (t : SourceFile). t.length ≤ largest_length sources) _ (λ t h. omega arith) sources
      (largest-All sources),
)

pub limit-IsCap :
    (args : CreateArgs) (n count : ℕ) (sources : List SourceFile)
    → 0 < args.slice_size
    → 0 < largest_length sources
    → IsCap args n count sources
        (min (max (largest_length sources / args.slice_size) 1) (2 ^ 32 - 1))
limit-IsCap args n count sources sized some_bytes =
    let size = args.slice_size in
    let longest = largest_length sources in
    let q = longest / size in
    let cap = min (max q 1) (2 ^ 32 - 1) in
    let under = div-mul-le_self longest size in
    let over = lt-div-mul-add {a = longest} sized in
    record {
      fits = elim (Bool-cases (q == 0)) [
        | inl none_fit ↦ let e = ==→eq q 0 none_fit in inl (omega arith)
        | inr some_fit ↦
            let e = ==→ne q 0 some_fit in
            let le : cap ≤ q = omega arith in
            inr (
              largest-AnyFile (λ k. cap * size ≤ k) sources some_bytes
                (omega (arith, mul-le-mul_right size le)))
      ];
      largest = elim (Bool-cases (cap == 2 ^ 32 - 1)) [
        | inl full ↦ inl (==→eq cap (2 ^ 32 - 1) full)
        | inr free ↦
            let e = ==→ne cap (2 ^ 32 - 1) free in
            let le : q ≤ cap = omega arith in
            let room : longest < (cap + 1) * size =
              omega (arith, mul-le-mul_right size le, add-mul cap 1 size, one-mul size) in
            inr (
              All-mono (λ (s : SourceFile). s.length ≤ longest) _ (λ s h. omega arith) sources
                (largest-All sources))
      ];
    }

pub no_bytes :
    (sources : List SourceFile) → largest_length sources ≡ 0 → All (λ s. s.length ≡ 0) sources
no_bytes sources e =
    All-mono (λ (s : SourceFile). s.length ≤ largest_length sources) _ (λ s h. omega arith) sources
      (largest-All sources)
