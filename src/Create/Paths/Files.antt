-- ===== src/Create/Paths/Files.antt =====
-- src/creator.rs: `write_atomic`, over files by their paths. Each call of the operating system is granted or
-- refused; a write that is refused has written some first bytes. Renaming a file replaces the one that is there.
pub mod Atomic
use par2rust.Base.{
  ℕ, List, [], ◌∷◌, ◌++◌, take, Bool, true, false, ◌&&◌, not, if◌then◌else◌, Option, none, some,
}
use par2rust.Error.{Par2Error, io, Attempt, gives, fails}
use par2rust.Format.Framing.{bytes_eq}
use par2rust.Create.Paths.{FilePath, file_name, last, without_last, unwrap_str_or}

unfoldable pub parts_eq : List (List ℕ) → List (List ℕ) → Bool
unfolding bytes_eq
parts_eq [] [] = true
parts_eq (x ∷ xs) (y ∷ ys) = bytes_eq x y && parts_eq xs ys
parts_eq _ _ = false

unfoldable pub path_eq : FilePath → FilePath → Bool
unfolding parts_eq
path_eq p q =
    if p.rooted
    then q.rooted && parts_eq p.components q.components
    else not q.rooted && parts_eq p.components q.components

-- The content of each file that exists.
abbrev pub Disk : Type 0
Disk = FilePath → Option (List ℕ)

unfoldable pub put : FilePath → Option (List ℕ) → Disk → Disk
unfolding path_eq
put p content disk = λ q. if path_eq q p then content else disk q

-- What the operating system answers: `write_refused_at` is none if the whole write is granted.
pub record Answers : Type 0 where
  pub creates : Bool
  pub write_refused_at : Option ℕ
  pub syncs : Bool
  pub renames : Bool

abbrev pub Written : Type 0
Written = Disk × Attempt (Unit {0})

-- `?` between two calls.
unfoldable pub after : Written → (Disk → Written) → Written
after (disk, gives u) next = next disk
after (disk, fails e) next = (disk, fails e)

-- `Path::set_file_name`
unfoldable pub set_file_name : FilePath → List ℕ → FilePath
unfolding file_name without_last
set_file_name p name = on (file_name p)
  where
    on : Option (List ℕ) → FilePath
    on none = record { rooted = p.rooted; components = p.components ++ name ∷ [] }
    on (some old) = record {
      rooted = p.rooted;
      components = without_last p.components ++ name ∷ [];
    }

abbrev pub tmp_suffix : List ℕ
tmp_suffix =
    b'.' ∷ b'p' ∷ b'a' ∷ b'r' ∷ b'2' ∷ b'r' ∷ b'u' ∷ b's' ∷ b't' ∷ b'.' ∷ b't' ∷ b'm' ∷ b'p' ∷ []

unfoldable pub tmp_path : FilePath → FilePath
unfolding set_file_name file_name unwrap_str_or
tmp_path p = set_file_name p (unwrap_str_or (file_name p) [] ++ tmp_suffix)

unfoldable pub create : Answers → FilePath → Disk → Written
unfolding put
create os p disk = if os.creates then (put p (some []) disk, gives tt) else (disk, fails io)

unfoldable pub write_content : Option ℕ → FilePath → List ℕ → Disk → Written
unfolding put
write_content none p bytes disk = (put p (some bytes) disk, gives tt)
write_content (some n) p bytes disk = (put p (some (take n bytes)) disk, fails io)

unfoldable pub sync_all : Answers → Disk → Written
sync_all os disk = if os.syncs then (disk, gives tt) else (disk, fails io)

unfoldable pub rename : Answers → FilePath → FilePath → Disk → Written
unfolding put
rename os source target disk =
    if os.renames
    then (put target (disk source) (put source none disk), gives tt)
    else (disk, fails io)

unfoldable pub write_atomic : Answers → FilePath → List ℕ → Disk → Written
unfolding tmp_path create write_content sync_all rename after
write_atomic os path bytes disk =
    let tmp = tmp_path path in
    after (create os tmp disk) λ created.
      after (write_content os.write_refused_at tmp bytes created)
        λ filled. after (sync_all os filled) λ synced. rename os tmp path synced
