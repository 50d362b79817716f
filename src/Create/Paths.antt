-- ===== src/Create/Paths.antt =====
-- src/creator.rs: the names of volumes and of temporary files. A path is its components, as `std::path::Path`
-- compares paths outside Windows, and is written with one separator between them.
pub mod Names
pub mod Files
use par2rust.Base.{
  ℕ, zero, suc, ◌+◌, ◌-◌, ◌*◌, ◌/◌, ◌%◌, List, [], ◌∷◌, ◌++◌, Bool, true, false, ◌&&◌, ◌||◌, not,
  ltb, leb, ◌==◌, if◌then◌else◌, Option, none, some,
}
use par2rust.Format.Framing.{bytes_eq}

pub record FilePath : Type 0 where
  pub rooted : Bool
  pub components : List (List ℕ)

-- The parts of a text between separators.
unfoldable pub split_at : ℕ → List ℕ → List (List ℕ)
split_at c [] = [] ∷ []
split_at c (b ∷ bs) = put (split_at c bs)
  where
    put : List (List ℕ) → List (List ℕ)
    put [] = (b ∷ []) ∷ []
    put (part ∷ parts) = if b == c then [] ∷ part ∷ parts else (b ∷ part) ∷ parts

abbrev dot : List ℕ
dot = b'.' ∷ []

-- Empty parts and those that mean the same directory do not count.
unfoldable pub normal_parts : List (List ℕ) → List (List ℕ)
unfolding bytes_eq
normal_parts [] = []
normal_parts (part ∷ parts) =
    let rest = normal_parts parts in
    if bytes_eq part [] || bytes_eq part dot then rest else part ∷ rest

-- `Path::components`; a first `.` is kept.
unfoldable pub path_of : List ℕ → FilePath
unfolding split_at normal_parts bytes_eq
path_of bytes = on (split_at b'/' bytes)
  where
    on : List (List ℕ) → FilePath
    on [] = record { rooted = false; components = [] }
    on (first ∷ parts) =
        if bytes_eq first dot
        then record { rooted = false; components = dot ∷ normal_parts parts }
        else record {
          rooted = bytes_eq first [] && not (bytes_eq bytes []);
          components = normal_parts (first ∷ parts);
        }

unfoldable pub joined : List (List ℕ) → List ℕ
joined [] = []
joined (c ∷ []) = c
joined (c ∷ d ∷ cs) = c ++ b'/' ∷ joined (d ∷ cs)

unfoldable pub written : FilePath → List ℕ
unfolding joined
written p = if p.rooted then b'/' ∷ joined p.components else joined p.components

unfoldable pub last : List (List ℕ) → Option (List ℕ)
last [] = none
last (c ∷ []) = some c
last (c ∷ d ∷ cs) = last (d ∷ cs)

unfoldable pub without_last : List (List ℕ) → List (List ℕ)
without_last [] = []
without_last (c ∷ []) = []
without_last (c ∷ d ∷ cs) = c ∷ without_last (d ∷ cs)

-- A last component that is a name.
unfoldable pub normal_name : Option (List ℕ) → Option (List ℕ)
unfolding bytes_eq
normal_name none = none
normal_name (some c) = if bytes_eq c dot || bytes_eq c (b'.' ∷ dot) then none else some c

-- `Path::file_name`: none for the root, `.` and `..`.
unfoldable pub file_name : FilePath → Option (List ℕ)
unfolding last normal_name
file_name p = normal_name (last p.components)

-- `Path::parent`
unfoldable pub parent : FilePath → Option FilePath
unfolding without_last
parent p = on p.components
  where
    on : List (List ℕ) → Option FilePath
    on [] = none
    on (c ∷ cs) = some (record { rooted = p.rooted; components = without_last (c ∷ cs) })

-- The parts before and after the last dot.
unfoldable pub at_last_dot : List ℕ → Option (List ℕ × List ℕ)
at_last_dot [] = none
at_last_dot (b ∷ bs) = put (at_last_dot bs)
  where
    put : Option (List ℕ × List ℕ) → Option (List ℕ × List ℕ)
    put (some (before, after)) = some (b ∷ before, after)
    put none = if b == b'.' then some ([], bs) else none

-- `file_stem` and `extension` of a file name: a name that begins with its only dot has no extension.
unfoldable pub stem_and_extension : List ℕ → List ℕ × Option (List ℕ)
unfolding at_last_dot
stem_and_extension name = on (at_last_dot name)
  where
    on : Option (List ℕ × List ℕ) → List ℕ × Option (List ℕ)
    on none = (name, none)
    on (some ([], after)) = (name, none)
    on (some (b ∷ before, after)) = (b ∷ before, some after)

-- The ranges of the bytes that follow the first byte of a character in UTF-8.
unfoldable pub continuation : ℕ → Option (List (ℕ × ℕ))
continuation b =
    if ltb b 0x80
    then some []
    else if ltb b 0xc2
    then none
    else if ltb b 0xe0
    then some ((0x80, 0xbf) ∷ [])
    else if b == 0xe0
    then some ((0xa0, 0xbf) ∷ (0x80, 0xbf) ∷ [])
    else if b == 0xed
    then some ((0x80, 0x9f) ∷ (0x80, 0xbf) ∷ [])
    else if ltb b 0xf0
    then some ((0x80, 0xbf) ∷ (0x80, 0xbf) ∷ [])
    else if b == 0xf0
    then some ((0x90, 0xbf) ∷ (0x80, 0xbf) ∷ (0x80, 0xbf) ∷ [])
    else if ltb b 0xf4
    then some ((0x80, 0xbf) ∷ (0x80, 0xbf) ∷ (0x80, 0xbf) ∷ [])
    else if b == 0xf4
    then some ((0x80, 0x8f) ∷ (0x80, 0xbf) ∷ (0x80, 0xbf) ∷ [])
    else none

unfoldable pub is_utf8_after : Option (List (ℕ × ℕ)) → List ℕ → Bool
unfolding continuation
is_utf8_after none bytes = false
is_utf8_after (some []) [] = true
is_utf8_after (some (range ∷ ranges)) [] = false
is_utf8_after (some []) (b ∷ bytes) = is_utf8_after (continuation b) bytes
is_utf8_after (some (range ∷ ranges)) (b ∷ bytes) =
    leb range.0 b && leb b range.1 && is_utf8_after (some ranges) bytes

-- `OsStr::to_str`
unfoldable pub to_str : List ℕ → Option (List ℕ)
unfolding is_utf8_after
to_str bytes = if is_utf8_after (some []) bytes then some bytes else none

unfoldable pub unwrap_str_or : Option (List ℕ) → List ℕ → List ℕ
unwrap_str_or none default = default
unwrap_str_or (some s) default = s

unfoldable pub and_then_str : Option (List ℕ) → Option (List ℕ)
unfolding to_str
and_then_str none = none
and_then_str (some bytes) = to_str bytes

-- A number in decimal digits; there are no more digits than the number and one.
unfoldable pub digits_on : ℕ → ℕ → List ℕ
digits_on zero n = []
digits_on (suc fuel) n =
    let rest = digits_on fuel (n / 10) ++ (b'0' + n % 10) ∷ [] in
    if ltb n 10 then (b'0' + n) ∷ [] else rest

unfoldable pub digits : ℕ → List ℕ
unfolding digits_on
digits n = digits_on (suc n) n

unfoldable pub volume_suffix : ℕ → ℕ → List ℕ → List ℕ
unfolding digits
volume_suffix first_exponent count extension =
    b'.' ∷ b'v' ∷ b'o' ∷ b'l' ∷ (digits first_exponent ++ b'+' ∷ (digits count ++ b'.' ∷ extension))

abbrev par2 : List ℕ
par2 = b'p' ∷ b'a' ∷ b'r' ∷ b'2' ∷ []

abbrev par2rust_name : List ℕ
par2rust_name = par2 ++ b'r' ∷ b'u' ∷ b's' ∷ b't' ∷ []

abbrev stem_of : Option (List ℕ) → Option (List ℕ)
stem_of none = none
stem_of (some name) = some ((stem_and_extension name).0)

abbrev extension_of : Option (List ℕ) → Option (List ℕ)
extension_of none = none
extension_of (some name) = (stem_and_extension name).1

abbrev parent_or_empty : Option FilePath → FilePath
parent_or_empty none = record { rooted = false; components = [] }
parent_or_empty (some p) = p

unfoldable pub derive_volume_filename : List ℕ → ℕ → ℕ → List ℕ
unfolding path_of file_name stem_and_extension and_then_str unwrap_str_or parent volume_suffix
    written
derive_volume_filename index_path first_exponent count =
    let path = path_of index_path in
    let stem = unwrap_str_or (and_then_str (stem_of (file_name path))) par2rust_name in
    let extension = unwrap_str_or (and_then_str (extension_of (file_name path))) par2 in
    let folder = parent_or_empty (parent path) in
    written (record {
      rooted = folder.rooted;
      components = folder.components ++ (stem ++ volume_suffix first_exponent count extension) ∷ [];
    })
