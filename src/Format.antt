-- ===== src/Format.antt =====
-- src/format.rs: packet framing. A digest, a type tag and a packet are lists of bytes. MD5 is computed
-- by a crate outside the repository and is a parameter, `Md5`.
pub mod Framing
use par2rust.Base.{
  ℕ, ◌+◌, ◌-◌, ◌%◌, ◌^◌, ◌≡◌, List, [], ◌∷◌, ◌++◌, bit_and, length, ◌==◌, Option, some, none,
}
use par2rust.Base.Checked.{Checked, ◌>>=◌, ◌>>◌, assert}
use par2rust.Base.Bytes.{to_le_bytes}

-- The digest function; a digest has 16 bytes.
pub record Md5 : Type 0 where
  pub digest : List ℕ → List ℕ
  pub length-digest : (bytes : List ℕ) → length (digest bytes) ≡ 16

abbrev pub packet_magic : List ℕ
packet_magic = b'P' ∷ b'A' ∷ b'R' ∷ b'2' ∷ 0 ∷ b'P' ∷ b'K' ∷ b'T' ∷ []

abbrev pub header_size : ℕ
header_size = 64

abbrev tag_head : List ℕ
tag_head = b'P' ∷ b'A' ∷ b'R' ∷ b' ' ∷ b'2' ∷ b'.' ∷ b'0' ∷ 0 ∷ []

abbrev pub type_file_desc : List ℕ
type_file_desc = tag_head ++ b'F' ∷ b'i' ∷ b'l' ∷ b'e' ∷ b'D' ∷ b'e' ∷ b's' ∷ b'c' ∷ []

abbrev pub type_file_verify : List ℕ
type_file_verify = tag_head ++ b'I' ∷ b'F' ∷ b'S' ∷ b'C' ∷ 0 ∷ 0 ∷ 0 ∷ 0 ∷ []

abbrev pub type_main : List ℕ
type_main = tag_head ++ b'M' ∷ b'a' ∷ b'i' ∷ b'n' ∷ 0 ∷ 0 ∷ 0 ∷ 0 ∷ []

abbrev pub type_recovery : List ℕ
type_recovery = tag_head ++ b'R' ∷ b'e' ∷ b'c' ∷ b'v' ∷ b'S' ∷ b'l' ∷ b'i' ∷ b'c' ∷ []

abbrev pub type_creator : List ℕ
type_creator = tag_head ++ b'C' ∷ b'r' ∷ b'e' ∷ b'a' ∷ b't' ∷ b'o' ∷ b'r' ∷ 0 ∷ []

abbrev pub type_comment_ascii : List ℕ
type_comment_ascii = tag_head ++ b'C' ∷ b'o' ∷ b'm' ∷ b'm' ∷ b'A' ∷ b'S' ∷ b'C' ∷ b'I' ∷ []

abbrev pub type_comment_unicode : List ℕ
type_comment_unicode = tag_head ++ b'C' ∷ b'o' ∷ b'm' ∷ b'm' ∷ b'U' ∷ b'n' ∷ b'i' ∷ 0 ∷ []

-- `(n + 3) & !3` on a 64-bit usize
unfoldable pub round_up_4 : ℕ → ℕ
round_up_4 n = bit_and ((n + 3) % 2 ^ 64) (2 ^ 64 - 4)

module _ (md5 : Md5) where
  unfoldable pub build_packet : List ℕ → List ℕ → List ℕ → Checked (List ℕ)
  build_packet set_id_hash type_tag body = do
    assert (length body % 4 == 0)
    let packet_len = header_size + length body
    let packet_hash = md5.digest (set_id_hash ++ (type_tag ++ body))
    some (
        packet_magic
        ++ (to_le_bytes 8 packet_len ++ (packet_hash ++ (set_id_hash ++ (type_tag ++ body)))))
