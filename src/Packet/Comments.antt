-- ===== src/Packet/Comments.antt =====
-- Comment packets: one packet for a plain comment, two linked packets for any other. The main packet
-- does not depend on the order of the files.
pub mod Unicode
use par2rust.Base.{
  ℕ, ◌+◌, ◌%◌, ◌^◌, ◌<◌, ◌≡◌, refl, sym, ap, ◌∙◌, arith, List, ◌++◌, length, length-append, take,
  drop, take-append, drop-append, true, false, Option, some, append_assoc,
}
use mathlib.Core.List.{Perm}
use par2rust.Base.Checked.{◌>>=◌}
use par2rust.Base.Bytes.{to_le_bytes, length-to_le_bytes}
use par2rust.Format.{
  Md5, type_comment_ascii, type_comment_unicode, packet_magic, header_size, round_up_4,
}
use par2rust.Format.Framing.{
  Packet, IsPacket, frame, read_packet, read_packet-frame, build_packet-eq-frame, round_up_4_lem,
}
use par2rust.Packet.{
  main_body, padded, ascii_text, unicode_body, is_ascii, build_main_packet,
  build_ascii_comment_packet, build_unicode_comment_packet, unicode_packet_unless,
  build_comment_packet_pair,
}
use par2rust.Packet.Bodies.{
  zeros_after, padded-eq, length-padded, length-ascii_text, length-unicode_body,
}
use par2rust.Packet.Sorting.{sort_unstable-Perm}
use par2rust.Packet.Reading.{packet}

module _ (md5 : Md5) where
  -- Two orders of the same file ids give the same main packet and the same set id.
  pub build_main_packet-Perm :
      (slice_size : ℕ) (ids ids' : List (List ℕ))
      → Perm ids ids'
      → build_main_packet md5 slice_size ids ≡ build_main_packet md5 slice_size ids'
  unfolding build_main_packet main_body
  build_main_packet-Perm slice_size ids ids' p = rw (sort_unstable-Perm ids ids' p)

  pub ascii_packet : List ℕ → List ℕ → Packet
  ascii_packet set_id comment =
      packet set_id type_comment_ascii (ascii_text comment ++ zeros_after (length comment))

  ascii-frame :
      (set_id comment : List ℕ)
      → length set_id ≡ 16
      → length comment < 2 ^ 32
      → IsPacket md5 (ascii_packet set_id comment)
        × (build_ascii_comment_packet md5 set_id comment
            ≡ some (frame md5 (ascii_packet set_id comment)))
  unfolding build_ascii_comment_packet ascii_packet packet
  ascii-frame set_id comment hs short =
      let text = ascii_text comment in
      let same_length = length-ascii_text comment in
      let up = round_up_4_lem (length comment) (omega arith) in
      let shape : padded text ≡ text ++ zeros_after (length comment) =
        padded-eq text ∙ ap (λ n. text ++ zeros_after n) same_length in
      let size : length (text ++ zeros_after (length comment)) ≡ round_up_4 (length comment) =
        ap length (sym shape) ∙ length-padded text (omega arith) ∙ ap round_up_4 same_length in
      let aligned : length (text ++ zeros_after (length comment)) % 4 ≡ 0 = omega arith in
      (
        record { set_id_size = hs; tag_size = refl; aligned = aligned; fits = omega arith },
        rw shape (
            build_packet-eq-frame md5 set_id type_comment_ascii
              (text ++ zeros_after (length comment)) aligned),
      )

  -- For a set id of 16 bytes a comment of fewer than 2^32 characters that are all ASCII makes a
  -- packet that is built and reads back, followed by any bytes.
  pub read-ascii_comment :
      (set_id comment rest : List ℕ)
      → length set_id ≡ 16
      → length comment < 2 ^ 32
      → is_ascii comment ≡ true
      → (build_comment_packet_pair md5 set_id comment >>= λ bytes. read_packet md5 (bytes ++ rest))
        ≡ some (ascii_packet set_id comment, rest)
  unfolding build_comment_packet_pair unicode_packet_unless
  read-ascii_comment set_id comment rest hs short plain =
      let framed = ascii-frame set_id comment hs short in
      rw (framed.1, plain) (read_packet-frame md5 (ascii_packet set_id comment) rest framed.0)

  -- The digest field of a packet.
  pub digest_of : Packet → List ℕ
  digest_of p = md5.digest (p.set_id ++ (p.tag ++ p.body))

  link-frame : (p : Packet) → take 16 (drop 16 (frame md5 p)) ≡ digest_of p
  unfolding frame digest_of
  link-frame p =
      let hash = md5.digest (p.set_id ++ (p.tag ++ p.body)) in
      let len = to_le_bytes 8 (header_size + length p.body) in
      let front : length (packet_magic ++ len) ≡ 16 = omega (
        arith,
        length-append packet_magic len,
        length-to_le_bytes 8 (header_size + length p.body),
      ) in
      rw
        (
          ← append_assoc packet_magic len (hash ++ (p.set_id ++ (p.tag ++ p.body))),
          drop-append (packet_magic ++ len) (hash ++ (p.set_id ++ (p.tag ++ p.body))) 16 front,
        )
        (take-append hash (p.set_id ++ (p.tag ++ p.body)) 16
          (md5.length-digest (p.set_id ++ (p.tag ++ p.body))))

  pub unicode_packet : List ℕ → List ℕ → Packet
  unicode_packet set_id comment =
      packet set_id type_comment_unicode
        (unicode_body comment (digest_of (ascii_packet set_id comment)))

  -- A reader of two packets in a row.
  unfoldable pub read_two : List ℕ → Option (Packet × Packet × List ℕ)
  read_two bytes = do
    first ← read_packet md5 bytes
    second ← read_packet md5 first.1
    some (first.0, second.0, second.1)

  pub read_two-pair :
      (set_id comment rest : List ℕ)
      → length set_id ≡ 16
      → length comment < 2 ^ 32
      → is_ascii comment ≡ false
      → (build_comment_packet_pair md5 set_id comment >>= λ bytes. read_two (bytes ++ rest))
        ≡ some (ascii_packet set_id comment, unicode_packet set_id comment, rest)
  unfolding build_comment_packet_pair unicode_packet_unless build_unicode_comment_packet
      unicode_packet packet digest_of read_two
  read_two-pair set_id comment rest hs short beyond =
      let framed = ascii-frame set_id comment hs short in
      let p = ascii_packet set_id comment in
      let q = unicode_packet set_id comment in
      let body = length-unicode_body comment (digest_of p) in
      let link = md5.length-digest (p.set_id ++ (p.tag ++ p.body)) in
      let second =
        build_packet-eq-frame md5 set_id type_comment_unicode (unicode_body comment (digest_of p))
          body.0 in
      let is_packet : IsPacket md5 q = record {
        set_id_size = hs;
        tag_size = refl;
        aligned = body.0;
        fits = omega arith;
      } in
      rw (
        framed.1,
        beyond,
        link-frame p,
        second,
        append_assoc (frame md5 p) (frame md5 q) rest,
        read_packet-frame md5 p (frame md5 q ++ rest) framed.0,
        read_packet-frame md5 q rest is_packet,
      )
