-- ===== src/Format/Framing.antt =====
-- A packet reads back: an independent reader of the format recovers the fields and checks the digest.
use par2rust.Base.{
  ℕ, ◌+◌, ◌-◌, ◌*◌, ◌/◌, ◌%◌, ◌^◌, ◌<◌, ◌≤◌, ◌≡◌, refl, arith, List, [], ◌∷◌, ◌++◌, length,
  length-append, take, drop, take-append, drop-append, Option, some, none, leb, ◌==◌, if◌then◌else◌,
  bit_and, append_assoc, true, false, Bool, ◌&&◌,
}
use par2rust.Base.Bits.{and_step, and_mask}
use par2rust.Base.Bytes.{to_le_bytes, from_le_bytes, length-to_le_bytes, from_le_bytes-to_le_bytes}
use par2rust.Format.{Md5, round_up_4, build_packet, packet_magic, header_size}

and_fours : (a m : ℕ) → bit_and a (4 * m) ≡ 4 * bit_and (a / 4) m
and_fours a m = ground (arith, and_step a (4 * m), and_step (a / 2) (2 * m))

-- Where adding 3 does not overflow 64 bits, `round_up_4` gives the least multiple of 4 that is not
-- below its argument.
pub round_up_4_lem :
    (n : ℕ) → n + 3 < 2 ^ 64 → (n ≤ round_up_4 n) × (round_up_4 n < n + 4) × (round_up_4 n % 4 ≡ 0)
unfolding round_up_4
round_up_4_lem n h =
    let low = and_fours (n + 3) (2 ^ 62 - 1) in
    let high = and_mask 62 ((n + 3) / 4) in
    let same : (n + 3) % 2 ^ 64 ≡ n + 3 = omega arith in
    rw same (omega (arith, low, high), omega (arith, low, high), omega (arith, low, high))

pub record Packet : Type 0 where
  pub set_id : List ℕ
  pub tag : List ℕ
  pub body : List ℕ

unfoldable pub bytes_eq : List ℕ → List ℕ → Bool
bytes_eq [] [] = true
bytes_eq (x ∷ xs) (y ∷ ys) = x == y && bytes_eq xs ys
bytes_eq _ _ = false

pub bytes_eq_refl : (xs : List ℕ) → bytes_eq xs xs ≡ true
unfolding bytes_eq
bytes_eq_refl [] = refl
bytes_eq_refl (x ∷ xs) = ground (arith, bytes_eq_refl xs)

module _ (md5 : Md5) where
  -- The rest of a packet whose length field is `len`, from the digest on.
  unfoldable pub read_fields : ℕ → List ℕ → Option (Packet × List ℕ)
  read_fields len bytes =
      let hash = take 16 bytes in
      let set_id = take 16 (drop 16 bytes) in
      let tag = take 16 (drop 16 (drop 16 bytes)) in
      let rest = drop 16 (drop 16 (drop 16 bytes)) in
      let body = take (len - header_size) rest in
      if leb header_size len
        && (len % 4 == 0)
        && leb (len - header_size) (length rest)
        && bytes_eq (md5.digest (set_id ++ (tag ++ body))) hash
      then some (record { set_id = set_id; tag = tag; body = body }, drop (len - header_size) rest)
      else none

  -- A reader of the format: magic, length, digest, set id, type, body; the digest is checked.
  unfoldable pub read_packet : List ℕ → Option (Packet × List ℕ)
  read_packet bytes =
      if bytes_eq (take 8 bytes) packet_magic
      then read_fields (from_le_bytes (take 8 (drop 8 bytes))) (drop 8 (drop 8 bytes))
      else none

  -- The bytes of a packet, field after field.
  unfoldable pub frame : Packet → List ℕ
  frame p =
      packet_magic
      ++ (to_le_bytes 8 (header_size + length p.body)
          ++ (md5.digest (p.set_id ++ (p.tag ++ p.body)) ++ (p.set_id ++ (p.tag ++ p.body))))

  pub build_packet-eq-frame :
      (set_id tag body : List ℕ)
      → length body % 4 ≡ 0
      → build_packet md5 set_id tag body
        ≡ some (frame (record { set_id = set_id; tag = tag; body = body }))
  unfolding build_packet frame
  build_packet-eq-frame set_id tag body h =
      let aligned : (length body % 4 == 0) ≡ true = ground arith in rw aligned

  -- A packet whose fields have the sizes of the format.
  pub record IsPacket (p : Packet) : Type 0 where
    pub set_id_size : length p.set_id ≡ 16
    pub tag_size : length p.tag ≡ 16
    pub aligned : length p.body % 4 ≡ 0
    pub fits : header_size + length p.body < 2 ^ 64

  pub length-frame : (p : Packet) → IsPacket p → length (frame p) ≡ header_size + length p.body
  unfolding frame
  length-frame p h = omega (
    arith,
    h.set_id_size,
    h.tag_size,
    md5.length-digest (p.set_id ++ (p.tag ++ p.body)),
    length-to_le_bytes 8 (header_size + length p.body),
    length-append packet_magic (
        to_le_bytes 8 (header_size + length p.body)
        ++ (md5.digest (p.set_id ++ (p.tag ++ p.body)) ++ (p.set_id ++ (p.tag ++ p.body)))),
    length-append (to_le_bytes 8 (header_size + length p.body))
        (md5.digest (p.set_id ++ (p.tag ++ p.body)) ++ (p.set_id ++ (p.tag ++ p.body))),
    length-append (md5.digest (p.set_id ++ (p.tag ++ p.body))) (p.set_id ++ (p.tag ++ p.body)),
    length-append p.set_id (p.tag ++ p.body),
    length-append p.tag p.body,
  )

  read_fields-append :
      (p : Packet) (rest : List ℕ)
      → IsPacket p
      → read_fields
          (header_size + length p.body)
          (md5.digest (p.set_id ++ (p.tag ++ p.body)) ++ (p.set_id ++ (p.tag ++ (p.body ++ rest))))
        ≡ some (p, rest)
  unfolding read_fields
  read_fields-append p rest h = rw (
    drop-append hash (p.set_id ++ (p.tag ++ (p.body ++ rest))) 16 hash_size,
    drop-append p.set_id (p.tag ++ (p.body ++ rest)) 16 h.set_id_size,
    drop-append p.tag (p.body ++ rest) 16 h.tag_size,
    take-append hash (p.set_id ++ (p.tag ++ (p.body ++ rest))) 16 hash_size,
    take-append p.set_id (p.tag ++ (p.body ++ rest)) 16 h.set_id_size,
    take-append p.tag (p.body ++ rest) 16 h.tag_size,
    body_size,
    take-append p.body rest (length p.body) refl,
    drop-append p.body rest (length p.body) refl,
    bytes_eq_refl hash,
    long_enough,
    aligned,
    holds_body,
  )
    where
      hash : List ℕ
      hash = md5.digest (p.set_id ++ (p.tag ++ p.body))

      hash_size : length hash ≡ 16
      hash_size = md5.length-digest (p.set_id ++ (p.tag ++ p.body))

      body_size : header_size + length p.body - header_size ≡ length p.body
      body_size = omega arith

      long_enough : leb header_size (header_size + length p.body) ≡ true
      long_enough = ground arith

      aligned : ((header_size + length p.body) % 4 == 0) ≡ true
      aligned = ground (arith, h.aligned)

      holds_body : leb (length p.body) (length (p.body ++ rest)) ≡ true
      holds_body = ground (arith, length-append p.body rest)

  pub read_packet-frame :
      (p : Packet) (rest : List ℕ) → IsPacket p → read_packet (frame p ++ rest) ≡ some (p, rest)
  unfolding read_packet frame bytes_eq
  read_packet-frame p rest h = simp append_assoc (
      rw
        (
          take-append (to_le_bytes 8 len) after 8 (length-to_le_bytes 8 len),
          drop-append (to_le_bytes 8 len) after 8 (length-to_le_bytes 8 len),
          from_le_bytes-to_le_bytes 8 len (omega (arith, h.fits)),
        )
        (read_fields-append p rest h))
    where
      len : ℕ
      len = header_size + length p.body

      after : List ℕ
      after =
          md5.digest (p.set_id ++ (p.tag ++ p.body)) ++ (p.set_id ++ (p.tag ++ (p.body ++ rest)))
