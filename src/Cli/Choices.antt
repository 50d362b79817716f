-- ===== src/Cli/Choices.antt =====
-- src/main.rs: what the flags for volumes ask for, described apart from the code.
pub mod Limits
pub mod Schemes
pub mod Blocks
use par2rust.Base.{
  ℕ, zero, suc, ◌+◌, ◌-◌, ◌*◌, ◌/◌, ◌^◌, ◌<◌, ◌≤◌, ◌≡◌, ◌⊎◌, inl, inr, refl, sym, ap, ◌∙◌, arith,
  List, [], ◌∷◌, ◌++◌, length, replicate, All, All-mono, leb→le, ==→eq, ==→ne, subst, Bool, true,
  false, Option, none, some, min, max, Bool-cases, Option-cases, ltb, leb, ◌==◌, if◌then◌else◌, not,
}
use native.Mathlib.Nat.{add-mul, one-mul, mul-le-mul_right, div-mul-le_self, lt-div-mul-add}
use par2rust.Base.Checked.{Checked}
use par2rust.Packet.{SourceFile}
use par2rust.Volume.{
  VolumeScheme, single, exponential, uniform, limited, ok, Result, sum, exponential_split,
  cap_volume_sizes, cap_result, resolve_volume_sizes,
}
use par2rust.Volume.Splits.{exponential_split_lem, uniform_split-ok, cap_volume_sizes_lem}
use par2rust.Create.{div_ceil}
use par2rust.Cli.{
  Parsed, value, error, single_with_others, count_without_uniform, limit_without_data, percent,
  blocks_for, CreateArgs, default_uniform_count, unwrap_or, is_some, largest_length, limited_to,
  build_volume_scheme,
}

-- One of the files has the property.
pub data AnyFile (P : SourceFile → Type 0) : List SourceFile → Type 0 where
  here : {src : SourceFile} {sources : List SourceFile} → P src → AnyFile P (src ∷ sources)
  later :
      {src : SourceFile} {sources : List SourceFile} → AnyFile P sources → AnyFile P (src ∷ sources)

-- The number of volumes that `-n` asks for, by default 15 or as many as blocks.
pub data Asks (count : ℕ) : Option ℕ → ℕ → Type 0 where
  given : (n : ℕ) → Asks count (some n) n
  left_out : Asks count none (min count 15)

module _ (args : CreateArgs) (n count : ℕ) where
  -- The volumes before `-l`: doubling, or with `-u` as even as possible.
  pub data IsSplit : List ℕ → Type 0 where
    doubling :
        args.uniform_flag ≡ false → args.volume_count ≡ none → IsSplit (exponential_split count)
    evenly :
        (size extra : ℕ)
        → args.uniform_flag ≡ true
        → 0 < size
        → extra < n
        → IsSplit (replicate (n - 1) size ++ (size + extra) ∷ [])

  -- The cap of `-l` is one block or what fits into some file, and no file has room for another block.
  pub record IsCap (sources : List SourceFile) (cap : ℕ) : Type 0 where
    pub fits : (cap ≡ 1) ⊎ AnyFile (λ s. cap * args.slice_size ≤ s.length) sources
    pub largest : (cap ≡ 2 ^ 32 - 1) ⊎ All (λ s. s.length < (cap + 1) * args.slice_size) sources

  -- The volumes that the flags ask for.
  pub data Follows (sources : List SourceFile) : List ℕ → Type 0 where
    one_volume :
        args.single_volume ≡ true
        → args.uniform_flag ≡ false
        → args.limit_size ≡ false
        → args.volume_count ≡ none
        → Follows sources (count ∷ [])
    not_capped :
        {sizes : List ℕ}
        → args.single_volume ≡ false
        → args.limit_size ≡ false
        → IsSplit sizes
        → Follows sources sizes
    capped :
        {sizes : List ℕ} (cap : ℕ)
        → args.single_volume ≡ false
        → args.limit_size ≡ true
        → AnyFile (λ s. 0 < s.length) sources
        → IsCap sources cap
        → IsSplit sizes
        → All (λ k. k ≤ cap) (cap_volume_sizes sizes cap)
        → Follows sources (cap_volume_sizes sizes cap)

  -- What the flags lead to: a scheme that resolves to such volumes, or the error for flags that do not go together.
  pub data Chosen (sources : List SourceFile) : Checked (Parsed VolumeScheme) → Type 0 where
    usable :
        {scheme : VolumeScheme} {sizes : List ℕ}
        → resolve_volume_sizes scheme count ≡ ok sizes
        → sum sizes ≡ count
        → Follows sources sizes
        → Chosen sources (some (value scheme))
    not_single :
        args.single_volume ≡ true
        → (args.uniform_flag ≡ true)
          ⊎ ((args.limit_size ≡ true) ⊎ ((k : ℕ) × (args.volume_count ≡ some k)))
        → Chosen sources (some (error single_with_others))
    not_uniform :
        (k : ℕ)
        → args.single_volume ≡ false
        → args.uniform_flag ≡ false
        → args.volume_count ≡ some k
        → Chosen sources (some (error count_without_uniform))
    no_data :
        args.single_volume ≡ false
        → args.limit_size ≡ true
        → All (λ s. s.length ≡ 0) sources
        → Chosen sources (some (error limit_without_data))
