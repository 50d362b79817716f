-- ===== src/Tests/Paths.antt =====
-- Names of volumes, and a write that is refused half way.
use par2rust.Base.{ℕ, ◌≡◌, refl, arith, List, [], ◌∷◌, map, true, Distinct, some}
use par2rust.Volume.{sum}
use par2rust.Create.{volume_ranges}
use par2rust.Create.Paths.{path_of, derive_volume_filename}
use par2rust.Create.Paths.Names.{derive_volume_filename-Distinct}
use par2rust.Create.Paths.Files.{Disk, Answers, write_atomic}
use par2rust.Create.Paths.Files.Atomic.{IsAtomic, all_granted, write_atomic_lem}

abbrev index : List ℕ
index = b'd' ∷ b'/' ∷ b'a' ∷ b'.' ∷ b'b' ∷ []

-- `d/a.b` gives `d/a.vol10+4.b`.
named :
    derive_volume_filename index 10 4
    ≡ b'd' ∷ b'/' ∷ b'a' ∷ b'.' ∷ b'v' ∷ b'o' ∷ b'l' ∷ b'1' ∷ b'0' ∷ b'+' ∷ b'4' ∷ b'.' ∷ b'b' ∷ []
unfolding derive_volume_filename
named = refl

-- A path that ends in `..` has no file name, so the name of the program stands in.
unnamed :
    derive_volume_filename (b'/' ∷ b'.' ∷ b'.' ∷ []) 0 1
    ≡ b'/' ∷ b'p' ∷ b'a' ∷ b'r' ∷ b'2' ∷ b'r' ∷ b'u' ∷ b's' ∷ b't' ∷ b'.' ∷ b'v' ∷ b'o' ∷ b'l'
      ∷ b'0' ∷ b'+' ∷ b'1' ∷ b'.' ∷ b'p' ∷ b'a' ∷ b'r' ∷ b'2' ∷ []
unfolding derive_volume_filename
unnamed = refl

derive_volume_filename-Distinct_example :
    (ranges : List (ℕ × ℕ)) × (volume_ranges 0 (1 ∷ 1 ∷ 2 ∷ []) ≡ some ranges)
    × Distinct (map (λ (r : ℕ × ℕ). derive_volume_filename index r.0 r.1) ranges)
unfolding sum
derive_volume_filename-Distinct_example =
    derive_volume_filename-Distinct index (1 ∷ 1 ∷ 2 ∷ []) (omega arith) (omega arith)

abbrev full_disk : Answers
full_disk = record { creates = true; write_refused_at = some 2; syncs = true; renames = true }

abbrev old : Disk
old p = some (9 ∷ [])

write_atomic_lem_example :
    IsAtomic
      (all_granted full_disk)
      (path_of index)
      (1 ∷ 2 ∷ 3 ∷ [])
      old
      (write_atomic full_disk (path_of index) (1 ∷ 2 ∷ 3 ∷ []) old)
write_atomic_lem_example = write_atomic_lem full_disk (path_of index) (1 ∷ 2 ∷ 3 ∷ []) old
