-- ===== src/Cli/Inputs/BaseNames.antt =====
-- src/main.rs: `display_name_for` takes the last part of a path.
use par2rust.Base.{
  ℕ, ◌≡◌, refl, ap, List, [], ◌∷◌, ◌++◌, All, Bool-cases, inl, inr, false, ◌||◌, ◌==◌, some,
}
use par2rust.Format.Framing.{bytes_eq}
use par2rust.Create.Fused.{Input}
use par2rust.Create.Paths.{
  split_at, normal_parts, path_of, last, normal_name, file_name, unwrap_str_or,
}
use par2rust.Cli.Inputs.{display_name_for}

-- The name of a file in its directory.
pub record IsFileName (name : List ℕ) : Type 0 where
  pub no_slash : All (λ b. (b == b'/') ≡ false) name
  pub not_empty : bytes_eq name [] ≡ false
  pub not_dot : bytes_eq name (b'.' ∷ []) ≡ false
  pub not_dots : bytes_eq name (b'.' ∷ b'.' ∷ []) ≡ false

-- A file is shown by its name, whatever directory its path starts with.
pub data HasBaseName : Input → Type 0 where
  alone :
      {name : List ℕ} → IsFileName name → HasBaseName (record { path = name; display_name = name })
  below :
      {name : List ℕ} (folder : List ℕ)
      → IsFileName name
      → HasBaseName (record { path = folder ++ b'/' ∷ name; display_name = name })

split_at-name :
    (name : List ℕ) → All (λ b. (b == b'/') ≡ false) name → split_at b'/' name ≡ name ∷ []
unfolding split_at
split_at-name [] h = refl
split_at-name (b ∷ name) h = rw (split_at-name name h.1, h.0) refl

split_at-below :
    (folder name : List ℕ)
    → All (λ b. (b == b'/') ≡ false) name
    → (part : List ℕ) × (parts : List (List ℕ)) × (split_at b'/' (folder ++ b'/' ∷ name)
        ≡ part ∷ (parts ++ name ∷ []))
unfolding split_at
split_at-below [] name h = ([], [], rw (split_at-name name h) refl)
split_at-below (b ∷ folder) name h =
    let (part, parts, e) = split_at-below folder name h in
    elim (Bool-cases (b == b'/')) [
      | inl slash ↦ ([], part ∷ parts, rw (e, slash) refl)
      | inr other ↦ (b ∷ part, parts, rw (e, other) refl)
    ]

normal_parts-name :
    (parts : List (List ℕ)) (name : List ℕ)
    → IsFileName name
    → normal_parts (parts ++ name ∷ []) ≡ normal_parts parts ++ name ∷ []
unfolding normal_parts
normal_parts-name [] name h = let empty = h.not_empty in let dot = h.not_dot in rw (empty, dot) refl
normal_parts-name (part ∷ parts) name h =
    let rest = normal_parts-name parts name h in
    elim (Bool-cases (bytes_eq part [] || bytes_eq part (b'.' ∷ []))) [
      | inl skipped ↦ rw skipped rest
      | inr kept ↦ rw kept (ap (◌∷◌ part) rest)
    ]

last-snoc : (parts : List (List ℕ)) (name : List ℕ) → last (parts ++ name ∷ []) ≡ some name
unfolding last
last-snoc [] name = refl
last-snoc (c ∷ []) name = refl
last-snoc (c ∷ d ∷ parts) name = last-snoc (d ∷ parts) name

pub display_name_for-name :
    (input : Input) → HasBaseName input → display_name_for input.path ≡ input.display_name
unfolding display_name_for path_of file_name unwrap_str_or normal_name
display_name_for-name _ (alone {name} h) =
    let parts = split_at-name name h.no_slash in
    let empty = h.not_empty in
    let dot = h.not_dot in let dots = h.not_dots in rw (parts, dot, empty, dot, dots) refl
display_name_for-name _ (below {name} folder h) =
    let (part, parts, e) = split_at-below folder name h.no_slash in
    let dot = h.not_dot in
    let dots = h.not_dots in
    let np = normal_parts-name parts name h in
    let at_end = last-snoc (normal_parts parts) name in
    let after_dot = last-snoc ((b'.' ∷ []) ∷ normal_parts parts) name in
    let after_part = last-snoc (part ∷ normal_parts parts) name in
    elim (Bool-cases (bytes_eq part (b'.' ∷ []))) [
      | inl first ↦ rw (e, first, np, after_dot, dot, dots) refl
      | inr first ↦ elim (Bool-cases (bytes_eq part [])) [
        | inl empty ↦ rw (e, first, empty, np, at_end, dot, dots) refl
        | inr more ↦ rw (e, first, more, np, after_part, dot, dots) refl
      ]
    ]
