-- ===== src/Packet.antt =====
-- src/packet and the metadata of src/source.rs that the packets carry. A path and a file name are lists
-- of bytes, a comment is the list of its characters' code points.
pub mod Bodies
pub mod Sorting
pub mod Reading
pub mod Comments
use par2rust.Base.{
  ℕ, zero, suc, ◌+◌, ◌-◌, ◌*◌, ◌/◌, ◌%◌, ◌^◌, List, [], ◌∷◌, ◌++◌, map, length, take, replicate,
  drop, Bool, true, false, not, ◌&&◌, ltb, leb, ◌==◌, if◌then◌else◌, Option, some, none,
}
use par2rust.Base.Checked.{Checked, ◌>>=◌, ◌>>◌, assert}
use par2rust.Base.Bytes.{to_le_bytes}
use par2rust.Format.{
  Md5, round_up_4, build_packet, type_file_desc, type_file_verify, type_main, type_recovery,
  type_creator, type_comment_ascii, type_comment_unicode,
}

pub record SliceChecksum : Type 0 where
  pub md5 : List ℕ
  pub crc32 : ℕ

pub record SourceFile : Type 0 where
  pub name : List ℕ
  pub path : List ℕ
  pub length : ℕ
  pub hash_full : List ℕ
  pub hash16k : List ℕ
  pub file_id : List ℕ
  pub slice_checksums : List SliceChecksum

-- `Vec::resize(n, 0)`
unfoldable pub resize : List ℕ → ℕ → List ℕ
resize xs n = take n (xs ++ replicate (n - length xs) 0)

unfoldable pub file_desc_body : SourceFile → List ℕ
file_desc_body src =
    let name_padded = round_up_4 (length src.name) in
    resize
      (src.file_id ++ (src.hash_full ++ (src.hash16k ++ (to_le_bytes 8 src.length ++ src.name))))
      (56 + name_padded)

unfoldable pub checksum_entries : List SliceChecksum → List ℕ
checksum_entries [] = []
checksum_entries (sc ∷ rest) = sc.md5 ++ (to_le_bytes 4 sc.crc32 ++ checksum_entries rest)

-- `<` on `[u8; 16]` is lexicographic.
unfoldable pub bytes_leb : List ℕ → List ℕ → Bool
bytes_leb [] ys = true
bytes_leb (x ∷ xs) [] = false
bytes_leb (x ∷ xs) (y ∷ ys) =
    let rest = bytes_leb xs ys in if ltb x y then true else if x == y then rest else false

unfoldable pub insert_sorted : List ℕ → List (List ℕ) → List (List ℕ)
insert_sorted x [] = x ∷ []
insert_sorted x (y ∷ ys) =
    let rest = insert_sorted x ys in if bytes_leb x y then x ∷ (y ∷ ys) else y ∷ rest

-- `sort_unstable`: equal digests cannot be told apart, so any sort by the order gives this list.
unfoldable pub sort_unstable : List (List ℕ) → List (List ℕ)
unfolding insert_sorted
sort_unstable [] = []
sort_unstable (x ∷ xs) = insert_sorted x (sort_unstable xs)

unfoldable pub concat : List (List ℕ) → List ℕ
concat [] = []
concat (x ∷ xs) = x ++ concat xs

unfoldable pub main_body : ℕ → List (List ℕ) → List ℕ
main_body slice_size file_ids =
    let sorted = sort_unstable file_ids in
    let recoverable_count = length sorted % 2 ^ 32 in
    to_le_bytes 8 slice_size ++ (to_le_bytes 4 recoverable_count ++ concat sorted)

pub record MainPacket : Type 0 where
  pub bytes : List ℕ
  pub set_id_hash : List ℕ

abbrev pub creator_string : List ℕ
creator_string =
    b'C' ∷ b'r' ∷ b'e' ∷ b'a' ∷ b't' ∷ b'e' ∷ b'd' ∷ b' ' ∷ b'b' ∷ b'y' ∷ b' ' ∷ b'p' ∷ b'a' ∷ b'r'
    ∷ b'2' ∷ b'r' ∷ b'u' ∷ b's' ∷ b't' ∷ b' ' ∷ b'v' ∷ b'0' ∷ b'.' ∷ b'1' ∷ b'.' ∷ b'0' ∷ []

-- `vec![0; round_up_4(len)]` with the bytes copied to its front
unfoldable pub padded : List ℕ → List ℕ
padded bytes = bytes ++ drop (length bytes) (replicate (round_up_4 (length bytes)) 0)

-- `while body.len() % 4 != 0 { body.push(0); }`; three rounds are enough.
unfoldable pub push_aligned : ℕ → List ℕ → List ℕ
push_aligned zero body = body
push_aligned (suc fuel) body =
    let more = push_aligned fuel (body ++ 0 ∷ []) in if length body % 4 == 0 then body else more

unfoldable pub ascii_text : List ℕ → List ℕ
ascii_text = map (λ ch. if ltb ch 0x80 then ch else b'?')

unfoldable pub is_ascii : List ℕ → Bool
is_ascii [] = true
is_ascii (ch ∷ rest) = ltb ch 0x80 && is_ascii rest

-- `encode_utf16`: a character beyond the basic plane is a pair of surrogates.
unfoldable pub encode_utf16 : List ℕ → List ℕ
encode_utf16 [] = []
encode_utf16 (ch ∷ rest) =
    if ltb ch 0x10000
    then ch ∷ encode_utf16 rest
    else (0xd800 + (ch - 0x10000) / 2 ^ 10) ∷ (0xdc00 + (ch - 0x10000) % 2 ^ 10) ∷ encode_utf16 rest

unfoldable pub units_to_bytes : List ℕ → List ℕ
units_to_bytes [] = []
units_to_bytes (unit ∷ rest) = to_le_bytes 2 unit ++ units_to_bytes rest

unfoldable pub unicode_body : List ℕ → List ℕ → List ℕ
unicode_body comment ascii_link =
    push_aligned 3 (ascii_link ++ units_to_bytes (encode_utf16 comment))

module _ (md5 : Md5) where
  unfoldable pub build_file_desc_packet : List ℕ → SourceFile → Checked (List ℕ)
  build_file_desc_packet set_id_hash src =
      build_packet md5 set_id_hash type_file_desc (file_desc_body src)

  unfoldable pub build_file_verify_packet : List ℕ → SourceFile → Checked (List ℕ)
  build_file_verify_packet set_id_hash src = do
    let body = src.file_id ++ checksum_entries src.slice_checksums
    assert (length body % 4 == 0)
    build_packet md5 set_id_hash type_file_verify body

  unfoldable pub build_main_packet : ℕ → List (List ℕ) → Checked MainPacket
  build_main_packet slice_size file_ids = do
    let body = main_body slice_size file_ids
    assert (length body % 4 == 0)
    let set_id_hash = md5.digest body
    bytes ← build_packet md5 set_id_hash type_main body
    some (record { bytes = bytes; set_id_hash = set_id_hash })

  unfoldable pub build_recovery_packet : List ℕ → ℕ → List ℕ → Checked (List ℕ)
  build_recovery_packet set_id_hash exponent slice = do
    assert (length slice % 4 == 0)
    build_packet md5 set_id_hash type_recovery (to_le_bytes 4 exponent ++ slice)

  unfoldable pub build_creator_packet : List ℕ → Checked (List ℕ)
  build_creator_packet set_id_hash =
      build_packet md5 set_id_hash type_creator (padded creator_string)

  unfoldable pub build_ascii_comment_packet : List ℕ → List ℕ → Checked (List ℕ)
  build_ascii_comment_packet set_id_hash comment =
      build_packet md5 set_id_hash type_comment_ascii (padded (ascii_text comment))

  unfoldable pub build_unicode_comment_packet : List ℕ → List ℕ → List ℕ → Checked (List ℕ)
  build_unicode_comment_packet set_id_hash comment ascii_link =
      build_packet md5 set_id_hash type_comment_unicode (unicode_body comment ascii_link)

  -- The pair without its second packet when the comment is plain ASCII.
  unfoldable pub unicode_packet_unless : Bool → List ℕ → Checked (List ℕ) → Checked (List ℕ)
  unicode_packet_unless true ascii_pkt unicode = some ascii_pkt
  unicode_packet_unless false ascii_pkt unicode = do
    unicode_pkt ← unicode
    some (ascii_pkt ++ unicode_pkt)

  unfoldable pub build_comment_packet_pair : List ℕ → List ℕ → Checked (List ℕ)
  unfolding build_ascii_comment_packet build_unicode_comment_packet
  build_comment_packet_pair set_id_hash comment = do
    ascii_pkt ← build_ascii_comment_packet set_id_hash comment
    let ascii_link = take 16 (drop 16 ascii_pkt)
    unicode_packet_unless (is_ascii comment) ascii_pkt
        (build_unicode_comment_packet set_id_hash comment ascii_link)

  unfoldable pub build_comment_packets : List ℕ → List (List ℕ) → Checked (List ℕ)
  build_comment_packets set_id_hash [] = some []
  build_comment_packets set_id_hash (c ∷ comments) = do
    pair ← build_comment_packet_pair set_id_hash c
    rest ← build_comment_packets set_id_hash comments
    some (pair ++ rest)
