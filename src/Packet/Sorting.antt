-- ===== src/Packet/Sorting.antt =====
-- `sort_unstable` of the file ids: the same for every order of the files.
use par2rust.Base.{ℕ, suc, ◌≡◌, refl, ap, ◌∙◌, arith, List, [], ◌∷◌, true, false, ap₂, All, length}
use mathlib.Core.List.{Permᴰ, Perm, is_set}
use mathlib.Core.Logic.{∥∥₁_elim}
use native.Mathlib.Nat.{ℕ_set}
use par2rust.Packet.{bytes_leb, insert_sorted, sort_unstable}

bytes_leb_antisymm : (xs ys : List ℕ) → bytes_leb xs ys ≡ true → bytes_leb ys xs ≡ true → xs ≡ ys
unfolding bytes_leb
bytes_leb_antisymm [] [] h k = refl
bytes_leb_antisymm [] (y ∷ ys) h k = cc
bytes_leb_antisymm (x ∷ xs) [] h k = cc
bytes_leb_antisymm (x ∷ xs) (y ∷ ys) h k = ground (arith, bytes_leb_antisymm xs ys)

bytes_leb-total : (xs ys : List ℕ) → bytes_leb xs ys ≡ false → bytes_leb ys xs ≡ true
unfolding bytes_leb
bytes_leb-total [] ys h = cc
bytes_leb-total (x ∷ xs) [] h = refl
bytes_leb-total (x ∷ xs) (y ∷ ys) h = ground (arith, bytes_leb-total xs ys)

bytes_leb_trans :
    (xs ys zs : List ℕ) → bytes_leb xs ys ≡ true → bytes_leb ys zs ≡ true → bytes_leb xs zs ≡ true
unfolding bytes_leb
bytes_leb_trans [] ys zs h k = refl
bytes_leb_trans (x ∷ xs) [] zs h k = cc
bytes_leb_trans (x ∷ xs) (y ∷ ys) [] h k = cc
bytes_leb_trans (x ∷ xs) (y ∷ ys) (z ∷ zs) h k = ground (arith, bytes_leb_trans xs ys zs)

insert_comm :
    (x y : List ℕ) (zs : List (List ℕ))
    → insert_sorted x (insert_sorted y zs) ≡ insert_sorted y (insert_sorted x zs)
unfolding insert_sorted
insert_comm x y [] = ground (arith, bytes_leb_antisymm x y, bytes_leb-total x y)
insert_comm x y (z ∷ zs) = ground (
  arith,
  bytes_leb_antisymm x y,
  bytes_leb-total x y,
  bytes_leb-total x z,
  bytes_leb-total y z,
  bytes_leb_trans x y z,
  bytes_leb_trans y x z,
  insert_comm x y zs,
)

sort-permuted : {xs ys : List (List ℕ)} → Permᴰ xs ys → sort_unstable xs ≡ sort_unstable ys
unfolding sort_unstable
sort-permuted Permᴰ.nil = refl
sort-permuted (Permᴰ.cons e d) = ap₂ insert_sorted e (sort-permuted d)
sort-permuted (Permᴰ.swap {a = a} {b = b} {l = l} e f) =
    insert_comm a b (sort_unstable l)
    ∙ ap₂ (λ u v. insert_sorted u (insert_sorted v (sort_unstable l))) f e
sort-permuted (Permᴰ.trans d e) = sort-permuted d ∙ sort-permuted e

-- The order of the files does not show in the sorted list.
pub sort_unstable-Perm : (xs ys : List (List ℕ)) → Perm xs ys → sort_unstable xs ≡ sort_unstable ys
sort_unstable-Perm xs ys p =
    ∥∥₁_elim p (is_set (is_set ℕ_set) (sort_unstable xs) (sort_unstable ys)) sort-permuted

insert-All :
    (P : List ℕ → Type 0) (x : List ℕ) (xs : List (List ℕ))
    → P x
    → All P xs
    → All P (insert_sorted x xs)
unfolding insert_sorted
insert-All P x [] h k = (h, tt)
insert-All P x (y ∷ ys) h k = ground (arith, insert-All P x ys h k.1)

pub sort_unstable-All :
    (P : List ℕ → Type 0) (xs : List (List ℕ)) → All P xs → All P (sort_unstable xs)
unfolding sort_unstable
sort_unstable-All P [] h = tt
sort_unstable-All P (x ∷ xs) h = insert-All P x (sort_unstable xs) h.0 (sort_unstable-All P xs h.1)

length-insert : (x : List ℕ) (xs : List (List ℕ)) → length (insert_sorted x xs) ≡ suc (length xs)
unfolding insert_sorted
length-insert x [] = refl
length-insert x (y ∷ ys) = ground (arith, length-insert x ys)

pub length-sort_unstable : (xs : List (List ℕ)) → length (sort_unstable xs) ≡ length xs
unfolding sort_unstable
length-sort_unstable [] = refl
length-sort_unstable (x ∷ xs) =
    length-insert x (sort_unstable xs) ∙ ap suc (length-sort_unstable xs)
