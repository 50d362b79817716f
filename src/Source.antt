-- ===== src/Source.antt =====
-- src/source.rs: the scan of a file into its metadata, over a map of the file or by reads that may be short.
-- MD5 and CRC-32 are crates and are parameters; what the operating system does with a path is one too.
-- Progress events have a module of their own.
pub mod Reads
pub mod Scans
pub mod Progress
use par2rust.Base.{
  ℕ, zero, suc, ◌+◌, ◌-◌, ◌*◌, ◌/◌, ◌%◌, ◌^◌, List, [], ◌∷◌, ◌++◌, length, take, drop, replicate,
  min, Bool, true, false, not, ◌||◌, ltb, leb, ◌==◌, ◌≡◌, map, if◌then◌else◌, Option, none, some,
}
use par2rust.Base.Bytes.{to_le_bytes}
use par2rust.Base.Checked.{Checked, ◌>>=◌, ◌>>◌, assert}
use par2rust.Format.{Md5}
use par2rust.Packet.{SliceChecksum, SourceFile}
use par2rust.Error.{
  Par2Error, io, invalid_slice_size, invalid_file_name, empty_file, Attempt, gives, fails, and_then,
}

abbrev pub hash16k_len : ℕ
hash16k_len = 16 * 1024

-- What one call of `read` does: it gives at least one byte, up to so many more, or it reports an error.
pub data Answer : Type 0 where
  up_to : ℕ → Answer
  refuses : Answer

-- An open file: the bytes from its position on, and the answers to come; after them a read gives all that it
-- is asked for.
pub record Reader : Type 0 where
  pub rest : List ℕ
  pub answers : List Answer

unfoldable pub give : List ℕ → List Answer → ℕ → List ℕ × Reader
give rest answers n = (take n rest, record { rest = drop n rest; answers = answers })

-- `reader.read(&mut buf[..n])`
unfoldable pub read : Reader → ℕ → Attempt (List ℕ × Reader)
read r n = on r.answers
  where
    on : List Answer → Attempt (List ℕ × Reader)
    on [] = gives (give r.rest [] n)
    on (up_to k ∷ answers) = gives (give r.rest answers (min n (suc k)))
    on (refuses ∷ answers) = fails io

-- One read ended with these bytes; the others of the loop are `rest`.
unfoldable pub filled_by : List ℕ → Reader → Attempt (List ℕ × Reader) → Attempt (List ℕ × Reader)
filled_by [] after rest = gives ([], after)
filled_by (b ∷ bs) after rest = and_then rest λ more. gives ((b ∷ bs) ++ more.0, more.1)

-- `read_full`: the reads that fill a buffer of which `left` bytes are free. Each adds a byte or ends the loop,
-- so as many rounds as there are bytes are enough.
unfoldable pub read_full_on : ℕ → Reader → ℕ → Attempt (List ℕ × Reader)
read_full_on zero r left = gives ([], r)
read_full_on (suc fuel) r zero = gives ([], r)
read_full_on (suc fuel) r (suc left) =
    and_then (read r (suc left))
      λ got. filled_by got.0 got.1 (read_full_on fuel got.1 (suc left - length got.0))

unfoldable pub read_full : Reader → ℕ → Attempt (List ℕ × Reader)
read_full r n = read_full_on n r n

-- `slice.par_chunks(size)`, `size` not 0; no more rounds than bytes.
unfoldable pub chunks_on : ℕ → ℕ → List ℕ → List (List ℕ)
chunks_on fuel size [] = []
chunks_on zero size (b ∷ bs) = []
chunks_on (suc fuel) size (b ∷ bs) = take size (b ∷ bs) ∷ chunks_on fuel size (drop size (b ∷ bs))

unfoldable pub par_chunks : ℕ → List ℕ → List (List ℕ)
par_chunks size bytes = chunks_on (length bytes) size bytes

unfoldable pub zero_padded : ℕ → List ℕ → List ℕ
zero_padded size slice = slice ++ replicate (size - length slice) 0

-- `Md5Ctx`: what is fed to it piece by piece is digested as a whole.
pub record Md5Ctx : Type 1 where
  pub Ctx : Type 0
  pub start : Ctx
  pub update : Ctx → List ℕ → Ctx
  pub finalize : Ctx → List ℕ

unfoldable pub update_all : (c : Md5Ctx) → c.Ctx → List (List ℕ) → c.Ctx
update_all c ctx [] = ctx
update_all c ctx (piece ∷ pieces) = update_all c (c.update ctx piece) pieces

unfoldable pub joined : List (List ℕ) → List ℕ
joined [] = []
joined (piece ∷ pieces) = piece ++ joined pieces

-- The documented behaviour of a streaming digest.
unfoldable pub Streams : Md5 → Md5Ctx → Type 0
Streams md5 c =
    (pieces : List (List ℕ)) → c.finalize (update_all c c.start pieces) ≡ md5.digest (joined pieces)

-- What a scan of the bytes delivers: the checksums of the slices, `hash_full` and `hash16k`.
pub record ScanOutput : Type 0 where
  pub slice_checksums : List SliceChecksum
  pub hash_full : List ℕ
  pub hash16k : List ℕ

-- An open file, and its map where the operating system makes one.
pub record OpenFile : Type 0 where
  pub reader : Reader
  pub mmap : Option (List ℕ)

-- The length and the contents of the file at a path.
pub record FileSystem : Type 0 where
  pub metadata : List ℕ → Attempt ℕ
  pub open_file : List ℕ → Attempt OpenFile

unfoldable pub contains_nul : List ℕ → Bool
contains_nul [] = false
contains_nul (b ∷ bs) = b == 0 || contains_nul bs

-- What stops a scan before the file is looked at.
unfoldable pub check_scan : List ℕ → List ℕ → ℕ → Option Par2Error
check_scan path display_name slice_size =
    if length display_name == 0 || contains_nul display_name
    then some (invalid_file_name path)
    else if slice_size == 0 || not (slice_size % 4 == 0)
    then some (invalid_slice_size slice_size)
    else none

module _ (md5 : Md5) where
  unfoldable pub compute_file_id : List ℕ → ℕ → List ℕ → List ℕ
  compute_file_id hash16k file_length name =
      md5.digest (hash16k ++ (to_le_bytes 8 file_length ++ name))

  unfoldable pub source_file : List ℕ → List ℕ → ℕ → ScanOutput → SourceFile
  source_file path display_name file_length scan = record {
    name = display_name;
    path = path;
    length = file_length;
    hash_full = scan.hash_full;
    hash16k = scan.hash16k;
    file_id = compute_file_id scan.hash16k file_length display_name;
    slice_checksums = scan.slice_checksums;
  }

module _ (md5 : Md5) (crc32 : List ℕ → ℕ) where
  unfoldable pub checksum : List ℕ → SliceChecksum
  checksum slice = record { md5 = md5.digest slice; crc32 = crc32 slice }

  -- A whole slice is hashed in place, a partial one in a buffer of zeros.
  unfoldable pub slice_checksum : ℕ → List ℕ → SliceChecksum
  slice_checksum size slice =
      if length slice == size then checksum slice else checksum (zero_padded size slice)

  unfoldable pub scan_via_mmap : ℕ → ℕ → List ℕ → Checked ScanOutput
  scan_via_mmap file_length slice_size bytes = do
    assert (not (slice_size == 0))
    let h16k_end = min file_length hash16k_len
    assert (leb h16k_end (length bytes))
    some (record {
      slice_checksums = map (slice_checksum slice_size) (par_chunks slice_size bytes);
      hash_full = md5.digest bytes;
      hash16k = md5.digest (take h16k_end bytes);
    })

  module _ (c : Md5Ctx) where
    pub record ScanState : Type 0 where
      pub hash_full_ctx : c.Ctx
      pub hash16k_ctx : c.Ctx
      pub bytes_into_16k : ℕ
      pub slice_checksums : List SliceChecksum

    -- What the loop does with the bytes of one slice.
    unfoldable pub absorb : ℕ → ScanState → List ℕ → ScanState
    absorb size st got =
        let n = min (hash16k_len - st.bytes_into_16k) (length got) in
        record {
          hash_full_ctx = c.update st.hash_full_ctx got;
          hash16k_ctx =
              if ltb st.bytes_into_16k hash16k_len
              then c.update st.hash16k_ctx (take n got)
              else st.hash16k_ctx;
          bytes_into_16k =
              if ltb st.bytes_into_16k hash16k_len
              then st.bytes_into_16k + n
              else st.bytes_into_16k;
          slice_checksums = st.slice_checksums ++ checksum (zero_padded size got) ∷ [];
        }

    unfoldable pub scan_loop : ℕ → ℕ → Reader → ScanState → Attempt ScanState
    scan_loop zero size r st = gives st
    scan_loop (suc fuel) size r st = and_then (read_full r size) λ got.
        let st' = absorb size st got.0 in
        let rest = scan_loop fuel size got.1 st' in
        if length got.0 == 0 then gives st else if ltb (length got.0) size then gives st' else rest

    -- Each round but the last reads a byte.
    unfoldable pub scan_via_reader : ℕ → Reader → Attempt ScanOutput
    scan_via_reader slice_size r =
        and_then
          (scan_loop (suc (length r.rest)) slice_size r (record {
            hash_full_ctx = c.start;
            hash16k_ctx = c.start;
            bytes_into_16k = 0;
            slice_checksums = [];
          }))
          λ st. gives (record {
            slice_checksums = st.slice_checksums;
            hash_full = c.finalize st.hash_full_ctx;
            hash16k = c.finalize st.hash16k_ctx;
          })

    -- By the map, or by reads where there is none.
    unfoldable pub scan_opened : ℕ → ℕ → Attempt OpenFile → Checked (Attempt ScanOutput)
    scan_opened file_length slice_size (fails e) = some (fails e)
    scan_opened file_length slice_size (gives file) = by file.mmap
      where
        by : Option (List ℕ) → Checked (Attempt ScanOutput)
        by (some bytes) = do scan ← scan_via_mmap file_length slice_size bytes; some (gives scan)
        by none = some (scan_via_reader slice_size file.reader)

    unfoldable pub scan_of_length :
        FileSystem → List ℕ → List ℕ → ℕ → Attempt ℕ → Checked (Attempt SourceFile)
    scan_of_length fs path display_name slice_size (fails e) = some (fails e)
    scan_of_length fs path display_name slice_size (gives zero) = some (fails (empty_file path))
    scan_of_length fs path display_name slice_size (gives (suc n)) = do
      scan ← scan_opened (suc n) slice_size (fs.open_file path)
      some (and_then scan λ out. gives (source_file md5 path display_name (suc n) out))

    unfoldable pub scan_unless :
        FileSystem → List ℕ → List ℕ → ℕ → Option Par2Error → Checked (Attempt SourceFile)
    scan_unless fs path display_name slice_size (some e) = some (fails e)
    scan_unless fs path display_name slice_size none =
        scan_of_length fs path display_name slice_size (fs.metadata path)

    unfoldable pub scan_with_progress :
        FileSystem → List ℕ → List ℕ → ℕ → Checked (Attempt SourceFile)
    scan_with_progress fs path display_name slice_size =
        scan_unless fs path display_name slice_size (check_scan path display_name slice_size)
