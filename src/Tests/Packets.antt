-- ===== src/Tests/Packets.antt =====
-- Packets with a digest function that takes every input to the same 16 bytes.
use par2rust.Base.{ℕ, ◌≡◌, refl, arith, List, [], ◌∷◌, ◌++◌, replicate, some}
use mathlib.Core.List.Perm as Reorder
use par2rust.Base.Checked.{◌>>=◌}
use par2rust.Format.{Md5, type_file_desc, type_main}
use par2rust.Format.Framing.{read_packet}
use par2rust.Packet.{
  SourceFile, main_body, is_ascii, build_file_desc_packet, build_main_packet,
  build_comment_packet_pair,
}
use par2rust.Packet.Bodies.{IsSource, described}
use par2rust.Packet.Reading.{packet, read-build_file_desc_packet, read-build_main_packet}
use par2rust.Base.{inl, inr}
use par2rust.Packet.Comments.Unicode.{Linked, read-unicode_comment}
use par2rust.Packet.Comments.{build_main_packet-Perm, read_two}

abbrev pub constant_md5 : Md5
constant_md5 = record { digest = λ bytes. replicate 16 7; length-digest = λ bytes. refl }

abbrev pub id_of : ℕ → List ℕ
id_of n = replicate 16 n

abbrev pub source : SourceFile
source = record {
  name = b'a' ∷ b'.' ∷ b'b' ∷ b'i' ∷ b'n' ∷ [];
  path = b'/' ∷ b'a' ∷ [];
  length = 9;
  hash_full = id_of 1;
  hash16k = id_of 2;
  file_id = id_of 3;
  slice_checksums = record { md5 = id_of 4; crc32 = 0xdeadbeef } ∷ [];
}

source-IsSource : IsSource source
source-IsSource = record {
  file_id_size = refl;
  hash_full_size = refl;
  hash16k_size = refl;
  name_size = omega arith;
  checksum_sizes = (refl, tt);
  checksum_count = omega arith;
}

abbrev ids : List (List ℕ)
ids = id_of 9 ∷ id_of 3 ∷ []

abbrev ids' : List (List ℕ)
ids' = id_of 3 ∷ id_of 9 ∷ []

read-build_file_desc_packet_example :
    (build_file_desc_packet constant_md5 (id_of 8) source >>= λ bytes.
    read_packet constant_md5 (bytes ++ 1 ∷ []))
    ≡ some (packet (id_of 8) type_file_desc (described source), 1 ∷ [])
read-build_file_desc_packet_example =
    read-build_file_desc_packet constant_md5 (id_of 8) source (1 ∷ []) refl source-IsSource

read-build_main_packet_example :
    (build_main_packet constant_md5 4096 ids >>= λ m. read_packet constant_md5 (m.bytes ++ 1 ∷ []))
    ≡ some
        (packet (constant_md5.digest (main_body 4096 ids)) type_main (main_body 4096 ids), 1 ∷ [])
read-build_main_packet_example =
    read-build_main_packet constant_md5 4096 ids (1 ∷ []) (refl, (refl, tt)) (omega arith)

build_main_packet-Perm_example :
    build_main_packet constant_md5 4096 ids ≡ build_main_packet constant_md5 4096 ids'
build_main_packet-Perm_example =
    build_main_packet-Perm constant_md5 4096 ids ids' (Reorder.swap (id_of 3) (id_of 9) [])

read-unicode_comment_example : Linked constant_md5 (id_of 8) (b'h' ∷ 0x1f600 ∷ []) (1 ∷ []) (
    build_comment_packet_pair constant_md5 (id_of 8) (b'h' ∷ 0x1f600 ∷ []) >>= λ bytes.
    read_two constant_md5 (bytes ++ 1 ∷ []))
unfolding is_ascii
read-unicode_comment_example =
    read-unicode_comment constant_md5 (id_of 8) (b'h' ∷ 0x1f600 ∷ []) (1 ∷ []) refl (omega arith)
      (inl (omega arith), (inr (omega arith, omega arith), tt)) refl
