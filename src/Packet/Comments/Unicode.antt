-- ===== src/Packet/Comments/Unicode.antt =====
-- What the two packets of a comment say: the text that is shown, the link and the characters in UTF-16.
use par2rust.Base.{
  ℕ, zero, suc, ◌+◌, ◌-◌, ◌*◌, ◌/◌, ◌%◌, ◌^◌, ◌<◌, ◌≤◌, ◌≡◌, ◌⊎◌, inl, inr, sym, ap, ◌∙◌, arith,
  List, [], ◌∷◌, ◌++◌, append_assoc, append-nil, length, replicate, All, ltb, Bool-cases, Option,
  some, false, ltb→lt, ◌==◌,
}
use par2rust.Base.Checked.{◌>>=◌}
use par2rust.Base.Bytes.{to_le_bytes}
use par2rust.Format.{Md5, type_comment_ascii, type_comment_unicode, round_up_4}
use par2rust.Format.Framing.{Packet, round_up_4_lem}
use par2rust.Packet.{
  ascii_text, is_ascii, encode_utf16, units_to_bytes, push_aligned, unicode_body,
  build_comment_packet_pair,
}
use par2rust.Packet.Bodies.{zeros_after}
use par2rust.Packet.Reading.{packet}
use par2rust.Packet.Comments.{ascii_packet, unicode_packet, digest_of, read_two, read_two-pair}

-- Plain characters are shown, and `?` for any other.
pub data Shown : List ℕ → List ℕ → Type 0 where
  end : Shown [] []
  plain :
      {comment text : List ℕ} (ch : ℕ)
      → ch < 128
      → Shown comment text
      → Shown (ch ∷ comment) (ch ∷ text)
  other :
      {comment text : List ℕ} (ch : ℕ)
      → 128 ≤ ch
      → Shown comment text
      → Shown (ch ∷ comment) (0x3f ∷ text)

-- A Unicode scalar value: no surrogate.
abbrev pub IsChar : ℕ → Type 0
IsChar ch = (ch < 0xd800) ⊎ ((0xdfff < ch) × (ch < 0x110000))

-- Bytes are the little-endian UTF-16 of characters.
pub data IsUtf16 : List ℕ → List ℕ → Type 0 where
  end : IsUtf16 [] []
  one_unit :
      {bytes comment : List ℕ} (ch a b : ℕ)
      → a < 256
      → b < 256
      → a + 256 * b ≡ ch
      → IsChar ch
      → IsUtf16 bytes comment
      → IsUtf16 (a ∷ b ∷ bytes) (ch ∷ comment)
  two_units :
      {bytes comment : List ℕ} (ch a b c d high low : ℕ)
      → a < 256
      → b < 256
      → c < 256
      → d < 256
      → a + 256 * b ≡ 0xd800 + high
      → c + 256 * d ≡ 0xdc00 + low
      → high < 1024
      → low < 1024
      → 0x10000 + (1024 * high + low) ≡ ch
      → IsUtf16 bytes comment
      → IsUtf16 (a ∷ b ∷ c ∷ d ∷ bytes) (ch ∷ comment)

ascii_text-Shown : (comment : List ℕ) → Shown comment (ascii_text comment)
unfolding ascii_text
ascii_text-Shown [] = end
ascii_text-Shown (ch ∷ comment) = elim (Bool-cases (ltb ch 0x80)) [
  | inl low ↦ rw low (plain ch (omega (arith, ltb→lt _ _ low)) (ascii_text-Shown comment))
  | inr high ↦ rw high (other ch (ground arith) (ascii_text-Shown comment))
]

encode_utf16-IsUtf16 :
    (comment : List ℕ)
    → All IsChar comment
    → IsUtf16 (units_to_bytes (encode_utf16 comment)) comment
unfolding encode_utf16 units_to_bytes to_le_bytes
encode_utf16-IsUtf16 [] h = end
encode_utf16-IsUtf16 (ch ∷ comment) h = elim (Bool-cases (ltb ch 0x10000)) [
  | inl low ↦
      let below : ch < 0x10000 = ltb→lt _ _ low in
      rw low (
        one_unit ch _ _ (omega arith) (omega arith) (omega arith) h.0
          (encode_utf16-IsUtf16 comment h.1))
  | inr high ↦
      let above : 0x10000 ≤ ch = ground arith in
      let top : ch < 0x110000 = omega (arith, h.0) in
      let rest = ch - 0x10000 in
      rw high (
        two_units ch _ _ _ _ (rest / 2 ^ 10) (rest % 2 ^ 10) (omega arith) (omega arith)
          (omega arith) (omega arith) (omega arith) (omega arith) (omega arith) (omega arith)
          (omega arith) (encode_utf16-IsUtf16 comment h.1))
]

push_aligned-zeros :
    (fuel : ℕ) (body : List ℕ)
    → (n : ℕ) × (n ≤ fuel) × (push_aligned fuel body ≡ body ++ replicate n 0)
unfolding push_aligned
push_aligned-zeros zero body = (0, omega arith, sym (append-nil body))
push_aligned-zeros (suc fuel) body = elim (Bool-cases (length body % 4 == 0)) [
  | inl done ↦ (0, omega arith, rw done (sym (append-nil body)))
  | inr more ↦
      let (n, small, e) = push_aligned-zeros fuel (body ++ 0 ∷ []) in
      (suc n, omega arith, rw more (e ∙ append_assoc body (0 ∷ []) (replicate n 0)))
]

module _ (md5 : Md5) where
  -- What is read: the first packet shows the comment, the body of the second is the hash of the first
  -- with its set id and type, then the comment in UTF-16, each filled up with at most three zeros.
  pub record Linked (set_id comment rest : List ℕ) (read : Option (Packet × Packet × List ℕ))
      : Type 0 where
    pub text : List ℕ
    pub fill : ℕ
    pub units : List ℕ
    pub fill' : ℕ
    pub shows : Shown comment text
    pub fill_small : fill < 4
    pub encodes : IsUtf16 units comment
    pub fill'_small : fill' < 4
    pub reads :
        read
        ≡ some (
          packet set_id type_comment_ascii (text ++ replicate fill 0),
          packet set_id type_comment_unicode (
              md5.digest (set_id ++ (type_comment_ascii ++ (text ++ replicate fill 0)))
              ++ (units ++ replicate fill' 0)),
          rest,
        )

  -- For a set id of 16 bytes a comment of fewer than 2^32 characters, Unicode scalar values that are
  -- not all ASCII, makes two packets that are built and read back in a row, followed by any bytes. The
  -- first has the comment with `?` for every character that is not ASCII, and the second the digest of
  -- the first, over its set id, type and body, and then the comment in little-endian UTF-16. Each body
  -- ends with at most three zeros.
  pub read-unicode_comment :
      (set_id comment rest : List ℕ)
      → length set_id ≡ 16
      → length comment < 2 ^ 32
      → All IsChar comment
      → is_ascii comment ≡ false
      → Linked set_id comment rest
          (build_comment_packet_pair md5 set_id comment >>= λ bytes. read_two md5 (bytes ++ rest))
  unfolding ascii_packet unicode_packet packet digest_of zeros_after unicode_body
  read-unicode_comment set_id comment rest hs short chars beyond =
      let text = ascii_text comment in
      let fill = round_up_4 (length comment) - length comment in
      let up = round_up_4_lem (length comment) (omega arith) in
      let units = units_to_bytes (encode_utf16 comment) in
      let link = md5.digest (set_id ++ (type_comment_ascii ++ (text ++ replicate fill 0))) in
      let (n, small, e) = push_aligned-zeros 3 (link ++ units) in
      let body = e ∙ append_assoc link units (replicate n 0) in
      record {
        text = text;
        fill = fill;
        units = units;
        fill' = n;
        shows = ascii_text-Shown comment;
        fill_small = omega arith;
        encodes = encode_utf16-IsUtf16 comment chars;
        fill'_small = omega arith;
        reads =
            read_two-pair md5 set_id comment rest hs short beyond
            ∙ ap
                (λ (b : List ℕ). some (
                  packet set_id type_comment_ascii (text ++ replicate fill 0),
                  packet set_id type_comment_unicode b,
                  rest,
                ))
                body;
      }
