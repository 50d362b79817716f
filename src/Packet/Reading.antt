-- ===== src/Packet/Reading.antt =====
-- Every packet that the builders make reads back, followed by whatever follows it.
use par2rust.Base.{
  ℕ, ◌+◌, ◌*◌, ◌%◌, ◌^◌, ◌<◌, ◌≡◌, refl, sym, ap, ◌∙◌, arith, List, [], ◌∷◌, ◌++◌, length,
  length-append, ◌==◌, true, All, some,
}
use par2rust.Base.Checked.{◌>>=◌}
use par2rust.Base.Bytes.{to_le_bytes, length-to_le_bytes}
use par2rust.Format.{
  Md5, build_packet, type_file_desc, type_file_verify, type_main, type_recovery, type_creator,
  round_up_4,
}
use par2rust.Format.Framing.{
  Packet, IsPacket, read_packet, read_packet-frame, build_packet-eq-frame, round_up_4_lem,
}
use par2rust.Packet.{
  SourceFile, main_body, checksum_entries, creator_string, padded, build_file_desc_packet,
  build_file_verify_packet, build_main_packet, build_recovery_packet, build_creator_packet,
}
use par2rust.Packet.Bodies.{
  IsSource, described, file_desc_body-eq-described, length-file_desc_body, length-checksum_entries,
  length-main_body, zeros_after, padded-eq, length-padded,
}

unfoldable pub packet : List ℕ → List ℕ → List ℕ → Packet
packet set_id tag body = record { set_id = set_id; tag = tag; body = body }

module _ (md5 : Md5) where
  read-build_packet :
      (p : Packet) (rest : List ℕ)
      → IsPacket md5 p
      → (build_packet md5 p.set_id p.tag p.body >>= λ bytes. read_packet md5 (bytes ++ rest))
        ≡ some (p, rest)
  read-build_packet p rest h =
      rw (build_packet-eq-frame md5 p.set_id p.tag p.body h.aligned)
        (read_packet-frame md5 p rest h)

  -- For a set id of 16 bytes and a source file with digests of 16 bytes and a name below 2^32 bytes,
  -- the packet that describes the file is built and reads back, followed by any bytes: its body is
  -- the file id, the two digests, the length on 8 bytes and the name padded with zeros to a multiple
  -- of 4.
  pub read-build_file_desc_packet :
      (set_id : List ℕ) (src : SourceFile) (rest : List ℕ)
      → length set_id ≡ 16
      → IsSource src
      → (build_file_desc_packet md5 set_id src >>= λ bytes. read_packet md5 (bytes ++ rest))
        ≡ some (packet set_id type_file_desc (described src), rest)
  unfolding build_file_desc_packet packet
  read-build_file_desc_packet set_id src rest hs h =
      let same = file_desc_body-eq-described src h in
      let up = round_up_4_lem (length src.name) (omega (arith, h.name_size)) in
      let size : length (described src) ≡ 56 + round_up_4 (length src.name) =
        ap length (sym same) ∙ length-file_desc_body src h in
      rw same (
        read-build_packet (packet set_id type_file_desc (described src)) rest (record {
          set_id_size = hs;
          tag_size = refl;
          aligned = omega arith;
          fits = omega (arith, h.name_size);
        }))

  -- For a set id of 16 bytes and a source file with digests of 16 bytes and fewer than 2^32 slices,
  -- the packet of its slice checksums is built and reads back, followed by any bytes: its body is
  -- the file id and the digest and CRC of each slice.
  pub read-build_file_verify_packet :
      (set_id : List ℕ) (src : SourceFile) (rest : List ℕ)
      → length set_id ≡ 16
      → IsSource src
      → (build_file_verify_packet md5 set_id src >>= λ bytes. read_packet md5 (bytes ++ rest))
        ≡ some (
          packet set_id type_file_verify (src.file_id ++ checksum_entries src.slice_checksums),
          rest,
        )
  unfolding build_file_verify_packet packet
  read-build_file_verify_packet set_id src rest hs h =
      let entries = checksum_entries src.slice_checksums in
      let size : length (src.file_id ++ entries) ≡ 16 + 20 * length src.slice_checksums = omega (
        arith,
        h.file_id_size,
        length-append src.file_id entries,
        length-checksum_entries src.slice_checksums h.checksum_sizes,
      ) in
      let test : (length (src.file_id ++ entries) % 4 == 0) ≡ true = ground arith in
      rw test (
        read-build_packet (packet set_id type_file_verify (src.file_id ++ entries)) rest (record {
          set_id_size = hs;
          tag_size = refl;
          aligned = omega arith;
          fits = omega (arith, h.checksum_count);
        }))

  -- For fewer than 2^32 file ids of 16 bytes the main packet is built and reads back, followed by
  -- any bytes: its set id is the digest of its own body.
  pub read-build_main_packet :
      (slice_size : ℕ) (ids : List (List ℕ)) (rest : List ℕ)
      → All (λ x. length x ≡ 16) ids
      → length ids < 2 ^ 32
      → (build_main_packet md5 slice_size ids >>= λ m. read_packet md5 (m.bytes ++ rest))
        ≡ some (
          packet (md5.digest (main_body slice_size ids)) type_main (main_body slice_size ids),
          rest,
        )
  unfolding build_main_packet packet
  read-build_main_packet slice_size ids rest h count =
      let body = main_body slice_size ids in
      let size = length-main_body slice_size ids h in
      let aligned : length body % 4 ≡ 0 = omega arith in
      let test : (length body % 4 == 0) ≡ true = ground arith in
      let p = packet (md5.digest body) type_main body in
      rw (test, build_packet-eq-frame md5 (md5.digest body) type_main body aligned)
        (read_packet-frame md5 p rest (record {
          set_id_size = md5.length-digest body;
          tag_size = refl;
          aligned = aligned;
          fits = omega arith;
        }))

  -- For a set id of 16 bytes and a slice whose length is a multiple of 4 below 2^63, the recovery
  -- packet is built and reads back, followed by any bytes: its body is the exponent on 4 bytes and
  -- the slice.
  pub read-build_recovery_packet :
      (set_id : List ℕ) (exponent : ℕ) (slice rest : List ℕ)
      → length set_id ≡ 16
      → length slice % 4 ≡ 0
      → length slice < 2 ^ 63
      → (build_recovery_packet md5 set_id exponent slice >>= λ bytes.
          read_packet md5 (bytes ++ rest))
        ≡ some (packet set_id type_recovery (to_le_bytes 4 exponent ++ slice), rest)
  unfolding build_recovery_packet packet
  read-build_recovery_packet set_id exponent slice rest hs aligned short =
      let test : (length slice % 4 == 0) ≡ true = ground arith in
      let size = length-append (to_le_bytes 4 exponent) slice in
      let four = length-to_le_bytes 4 exponent in
      rw test (
        read-build_packet (packet set_id type_recovery (to_le_bytes 4 exponent ++ slice)) rest
          (record { set_id_size = hs; tag_size = refl; aligned = omega arith; fits = omega arith }))

  read-padded :
      (set_id tag text rest : List ℕ)
      → length set_id ≡ 16
      → length tag ≡ 16
      → length text < 2 ^ 32
      → (build_packet md5 set_id tag (padded text) >>= λ bytes. read_packet md5 (bytes ++ rest))
        ≡ some (packet set_id tag (text ++ zeros_after (length text)), rest)
  unfolding packet
  read-padded set_id tag text rest hs ht short =
      let up = round_up_4_lem (length text) (omega arith) in
      let size : length (text ++ zeros_after (length text)) ≡ round_up_4 (length text) =
        ap length (sym (padded-eq text)) ∙ length-padded text (omega arith) in
      rw (padded-eq text) (
        read-build_packet (packet set_id tag (text ++ zeros_after (length text))) rest
          (record { set_id_size = hs; tag_size = ht; aligned = omega arith; fits = omega arith }))

  -- For a set id of 16 bytes the creator packet is built and reads back, followed by any bytes: its
  -- body is the name of the creator with two zeros after it.
  pub read-build_creator_packet :
      (set_id rest : List ℕ)
      → length set_id ≡ 16
      → (build_creator_packet md5 set_id >>= λ bytes. read_packet md5 (bytes ++ rest))
        ≡ some (packet set_id type_creator (creator_string ++ 0 ∷ 0 ∷ []), rest)
  unfolding build_creator_packet zeros_after round_up_4
  read-build_creator_packet set_id rest hs =
      read-padded set_id type_creator creator_string rest hs refl (omega arith)
