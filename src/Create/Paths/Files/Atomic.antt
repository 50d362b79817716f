-- ===== src/Create/Paths/Files/Atomic.antt =====
-- src/creator.rs: a write of a file is all or nothing.
use par2rust.Base.{
  ℕ, ◌==◌, ==→eq, ◌≡◌, ◌≢◌, refl, sym, ap, ◌∙◌, inl, inr, arith, List, [], ◌∷◌, ◌++◌, take, length,
  length-append, Bool, true, false, ◌&&◌, if◌then◌else◌, Bool-cases, Option, Option-cases, none,
  some,
}
use mathlib.Core.Option.{some-injective}
use par2rust.Error.{io, gives, fails}
use par2rust.Format.Framing.{bytes_eq, bytes_eq_refl}
use par2rust.Create.Paths.{FilePath, file_name, normal_name, last, without_last, unwrap_str_or}
use par2rust.Create.Paths.Files.{
  parts_eq, path_eq, Disk, put, Answers, Written, set_file_name, tmp_suffix, tmp_path, write_atomic,
}

parts_eq_refl : (xs : List (List ℕ)) → parts_eq xs xs ≡ true
unfolding parts_eq
parts_eq_refl [] = refl
parts_eq_refl (x ∷ xs) = rw (bytes_eq_refl x, parts_eq_refl xs)

path_eq_refl : (p : FilePath) → path_eq p p ≡ true
unfolding path_eq
path_eq_refl p = let same = parts_eq_refl p.components in ground arith

last-snoc : (cs : List (List ℕ)) (c : List ℕ) → last (cs ++ c ∷ []) ≡ some c
unfolding last
last-snoc [] c = refl
last-snoc (d ∷ []) c = refl
last-snoc (d ∷ e ∷ cs) c = last-snoc (e ∷ cs) c

bytes_eq→eq : (xs ys : List ℕ) → bytes_eq xs ys ≡ true → xs ≡ ys
unfolding bytes_eq
bytes_eq→eq [] [] e = refl
bytes_eq→eq [] (y ∷ ys) e = cc
bytes_eq→eq (x ∷ xs) [] e = cc
bytes_eq→eq (x ∷ xs) (y ∷ ys) e =
    let head : (x == y) ≡ true = ground arith in
    let others : bytes_eq xs ys ≡ true = ground arith in
    cc (==→eq x y head, bytes_eq→eq xs ys others)

parts_eq→eq : (xs ys : List (List ℕ)) → parts_eq xs ys ≡ true → xs ≡ ys
unfolding parts_eq
parts_eq→eq [] [] e = refl
parts_eq→eq [] (y ∷ ys) e = cc
parts_eq→eq (x ∷ xs) [] e = cc
parts_eq→eq (x ∷ xs) (y ∷ ys) e =
    let head : bytes_eq x y ≡ true = ground arith in
    let others : parts_eq xs ys ≡ true = ground arith in
    cc (bytes_eq→eq x y head, parts_eq→eq xs ys others)

normal_name-some : (o : Option (List ℕ)) (c : List ℕ) → normal_name o ≡ some c → o ≡ some c
unfolding normal_name
normal_name-some none c e = cc
normal_name-some (some d) c e = ground arith

path_eq-components : (p q : FilePath) → path_eq p q ≡ true → p.components ≡ q.components
unfolding path_eq
path_eq-components p q e =
    let same : parts_eq p.components q.components ≡ true = ground arith in
    parts_eq→eq p.components q.components same

tmp_path-unnamed :
    (p : FilePath) → file_name p ≡ none → (tmp_path p).components ≡ p.components ++ tmp_suffix ∷ []
unfolding tmp_path set_file_name unwrap_str_or
tmp_path-unnamed p e = rw e refl

tmp_path-named :
    (p : FilePath) (name : List ℕ)
    → file_name p ≡ some name
    → (tmp_path p).components ≡ without_last p.components ++ (name ++ tmp_suffix) ∷ []
unfolding tmp_path set_file_name unwrap_str_or
tmp_path-named p name e = rw e refl

tmp_path-ne : (p : FilePath) → (tmp_path p).components ≢ p.components
unfolding file_name
tmp_path-ne p same = elim (Option-cases (file_name p)) [
  | inl unnamed ↦
      let longer = ap length (sym (tmp_path-unnamed p unnamed) ∙ same) in
      absurd (omega (arith, longer, length-append {0} p.components (tmp_suffix ∷ [])))
  | inr (name, named) ↦
      let ends : last p.components ≡ some (name ++ tmp_suffix) =
        ap last (sym same ∙ tmp_path-named p name named)
        ∙ last-snoc (without_last p.components) (name ++ tmp_suffix) in
      let old = normal_name-some (last p.components) name named in
      let longer = ap length (some-injective name (name ++ tmp_suffix) (sym old ∙ ends)) in
      absurd (omega (arith, longer, length-append {0} name tmp_suffix))
]

-- The temporary file stands beside the file, under another name.
tmp_path-apart : (p : FilePath) → path_eq (tmp_path p) p ≡ false
tmp_path-apart p = elim (Bool-cases (path_eq (tmp_path p) p)) [
  | inr apart ↦ apart
  | inl same ↦ absurd (tmp_path-ne p (path_eq-components (tmp_path p) p same))
]

path_eq-apart : (p : FilePath) → path_eq p (tmp_path p) ≡ false
path_eq-apart p = elim (Bool-cases (path_eq p (tmp_path p))) [
  | inr apart ↦ apart
  | inl same ↦ absurd (tmp_path-ne p (sym (path_eq-components p (tmp_path p) same)))
]

abbrev pub is_none : Option ℕ → Bool
is_none none = true
is_none (some n) = false

unfoldable pub all_granted : Answers → Bool
all_granted os = os.creates && (is_none os.write_refused_at && (os.syncs && os.renames))

-- What a write did to the file at `path`: it holds the new content and the temporary file is gone, or an error is
-- reported and it is as it was. All other files are as they were.
pub record IsAtomic (granted : Bool) (path : FilePath) (bytes : List ℕ) (disk : Disk) (w : Written)
    : Type 0 where
  pub result : w.1 ≡ (if granted then gives tt else fails io)
  pub content : w.0 path ≡ (if granted then some bytes else disk path)
  pub cleaned : granted ≡ true → w.0 (tmp_path path) ≡ none
  pub others :
      (q : FilePath) → path_eq q path ≡ false → path_eq q (tmp_path path) ≡ false → w.0 q ≡ disk q

put-other :
    (p : FilePath) (content : Option (List ℕ)) (disk : Disk) (q : FilePath)
    → path_eq q p ≡ false
    → put p content disk q ≡ disk q
unfolding put
put-other p content disk q e = rw e refl

put-same : (p : FilePath) (content : Option (List ℕ)) (disk : Disk) → put p content disk p ≡ content
unfolding put
put-same p content disk = rw (path_eq_refl p) refl

-- The temporary file written twice.
twice :
    (p : FilePath) (c d : Option (List ℕ)) (disk : Disk) (q : FilePath)
    → path_eq q p ≡ false
    → put p c (put p d disk) q ≡ disk q
twice p c d disk q e = put-other p c (put p d disk) q e ∙ put-other p d disk q e

module _ (path : FilePath) (bytes : List ℕ) (disk : Disk) where
  abbrev given : Bool → Option ℕ → Bool → Bool → Answers
  given creates write_refused_at syncs renames = record {
    creates = creates;
    write_refused_at = write_refused_at;
    syncs = syncs;
    renames = renames;
  }

  -- A call is refused while only the temporary file has been written.
  refused :
      (disk' : Disk)
      → disk' path ≡ disk path
      → ((q : FilePath) → path_eq q (tmp_path path) ≡ false → disk' q ≡ disk q)
      → IsAtomic false path bytes disk (disk', fails io)
  refused disk' kept others = record {
    result = refl;
    content = kept;
    cleaned = λ e. cc;
    others = λ q e f. others q f;
  }

  left_over :
      (content : Option (List ℕ))
      → IsAtomic false path bytes disk
          (put (tmp_path path) content (put (tmp_path path) (some []) disk), fails io)
  left_over content =
      refused _ (twice (tmp_path path) content (some []) disk path (path_eq-apart path))
        (λ q f. twice (tmp_path path) content (some []) disk q f)

  by_answers :
      (creates : Bool) (write_refused_at : Option ℕ) (syncs renames : Bool)
      → IsAtomic
          (all_granted (given creates write_refused_at syncs renames))
          path
          bytes
          disk
          (write_atomic (given creates write_refused_at syncs renames) path bytes disk)
  unfolding write_atomic all_granted
  by_answers false w s r = refused disk refl (λ q f. refl)
  by_answers true (some n) s r = left_over (some (take n bytes))
  by_answers true none false r = left_over (some bytes)
  by_answers true none true false = left_over (some bytes)
  by_answers true none true true =
      let tmp = tmp_path path in
      let filled = put tmp (some bytes) (put tmp (some []) disk) in
      let moved = put tmp none filled in
      record {
        result = refl;
        content =
            put-same path (filled tmp) moved ∙ put-same tmp (some bytes) (put tmp (some []) disk);
        cleaned = λ e.
            put-other path (filled tmp) moved tmp (tmp_path-apart path) ∙ put-same tmp none filled;
        others = λ q e f.
            put-other path (filled tmp) moved q e
            ∙ put-other tmp none filled q f
            ∙ twice tmp (some bytes) (some []) disk q f;
      }

-- Whatever the operating system refuses: if it grants every call, the file holds the new content and the temporary
-- file is gone; if it refuses one, an error is reported and the file is as it was, or not there if it was not.
-- No file but these two changes.
pub write_atomic_lem :
    (os : Answers) (path : FilePath) (bytes : List ℕ) (disk : Disk)
    → IsAtomic (all_granted os) path bytes disk (write_atomic os path bytes disk)
unfolding write_atomic all_granted
write_atomic_lem os path bytes disk =
    by_answers path bytes disk os.creates os.write_refused_at os.syncs os.renames
