-- ===== src/Create/Delivery.antt =====
-- src/creator.rs: `SourceReader` and the order in which the pass opens and reads the files. What it delivers are the
-- slices that the pass takes as an argument. Buffering does not change what is read.
pub mod Slices
use par2rust.Base.{ℕ, zero, suc, List, [], ◌∷◌, ◌++◌, length}
use par2rust.Packet.{SourceFile}
use par2rust.Error.{Attempt, gives, fails, and_then}
use par2rust.Source.{Reader, OpenFile, FileSystem, read_full, zero_padded}

unfoldable pub read_next_slice : ℕ → Reader → Attempt (List ℕ × Reader)
unfolding read_full zero_padded and_then
read_next_slice size r = and_then (read_full r size) λ got. gives (zero_padded size got.0, got.1)

unfoldable pub read_slices : ℕ → ℕ → Reader → Attempt (List (List ℕ))
unfolding read_next_slice and_then
read_slices zero size r = gives []
read_slices (suc n) size r =
    and_then (read_next_slice size r)
      λ got. and_then (read_slices n size got.1) λ rest. gives (got.0 ∷ rest)

-- A file is opened when its first slice is read.
unfoldable pub slices_of_file : FileSystem → ℕ → List ℕ → ℕ → Attempt (List (List ℕ))
unfolding read_slices and_then
slices_of_file fs size path zero = gives []
slices_of_file fs size path (suc n) =
    and_then (fs.open_file path) λ file. read_slices (suc n) size file.reader

unfoldable pub delivered_slices : FileSystem → ℕ → List SourceFile → Attempt (List (List ℕ))
unfolding slices_of_file and_then
delivered_slices fs size [] = gives []
delivered_slices fs size (src ∷ sources) =
    and_then (slices_of_file fs size src.path (length src.slice_checksums))
      λ slices. and_then (delivered_slices fs size sources) λ rest. gives (slices ++ rest)
