-- ===== src/Md5Neon/Padding.antt =====
-- src/md5_mb_neon.rs: the padded blocks that `digest4_neon` builds for each lane.
use par2rust.Base.{
  ℕ, zero, suc, ◌+◌, ◌-◌, ◌*◌, ◌/◌, ◌%◌, ◌^◌, ◌<◌, ◌≤◌, ◌≡◌, refl, sym, ap, ap₂, ◌∙◌, arith, List,
  [], ◌∷◌, ◌++◌, append_assoc, append-nil, length, drop, replicate, length-append, length-replicate,
  length-drop, take-append, drop-append, leb, ◌==◌, true, false, some,
}
use par2rust.Base.Bytes.{to_le_bytes, length-to_le_bytes}
use par2rust.Md5Neon.{copy_at, Pads, pads_of}
use par2rust.Md5Neon.Reference.{padded}

pub replicate-append :
    {A : Type 0} (m n k : ℕ) (x : A) → k ≡ m + n → replicate k x ≡ replicate m x ++ replicate n x
replicate-append zero n k x e = let f : k ≡ n = omega arith in rw f
replicate-append (suc m) n zero x e = absurd (omega arith)
replicate-append (suc m) n (suc k) x e = ap (◌∷◌ x) (replicate-append m n k x (omega arith))

-- Bytes written over as many others.
copy_at-parts :
    (off : ℕ) (bytes pre mid post : List ℕ)
    → length pre ≡ off
    → length mid ≡ length bytes
    → copy_at off bytes (pre ++ (mid ++ post)) ≡ pre ++ (bytes ++ post)
unfolding copy_at
copy_at-parts off bytes pre mid post e f =
    ap₂ (λ (u v : List ℕ). u ++ (bytes ++ v)) (take-append pre (mid ++ post) off e)
      (ap (drop (off + length bytes)) (sym (append_assoc pre mid post))
        ∙ drop-append (pre ++ mid) post (off + length bytes)
            (omega (arith, length-append {0} pre mid)))

module _ (tail : List ℕ) where
  begun-eq :
      (rem : ℕ)
      → length tail ≡ rem
      → rem < 64
      → copy_at rem (0x80 ∷ []) (copy_at 0 tail (replicate 64 0))
        ≡ tail ++ 0x80 ∷ replicate (63 - rem) 0
  begun-eq rem e h =
      ap (λ (z : List ℕ). copy_at rem (0x80 ∷ []) (copy_at 0 tail z))
        (replicate-append rem (64 - rem) 64 0 (omega arith))
      ∙ ap (copy_at rem (0x80 ∷ [])) (
          copy_at-parts 0 tail [] (replicate rem 0) (replicate (64 - rem) 0) refl
            (length-replicate rem 0 ∙ sym e))
      ∙ ap (λ (z : List ℕ). copy_at rem (0x80 ∷ []) (tail ++ z))
          (replicate-append 1 (63 - rem) (64 - rem) 0 (omega arith))
      ∙ copy_at-parts rem (0x80 ∷ []) tail (0 ∷ []) (replicate (63 - rem) 0) e refl

module _ (bits : List ℕ) where
  with_bits :
      (tail : List ℕ) (rem : ℕ)
      → length tail ≡ rem
      → rem < 56
      → length bits ≡ 8
      → copy_at 56 bits (tail ++ 0x80 ∷ replicate (63 - rem) 0)
        ≡ tail ++ 0x80 ∷ (replicate (55 - rem) 0 ++ bits)
  with_bits tail rem e h w =
      let pre = tail ++ 0x80 ∷ replicate (55 - rem) 0 in
      let filled = length-replicate {A = ℕ} (55 - rem) 0 in
      let measured : length pre ≡ 56 =
        omega (arith, length-append {0} tail (0x80 ∷ replicate (55 - rem) 0), filled) in
      ap (λ (z : List ℕ). copy_at 56 bits (tail ++ 0x80 ∷ z))
        (replicate-append (55 - rem) 8 (63 - rem) 0 (omega arith))
      ∙ ap (copy_at 56 bits)
          (sym (append_assoc tail (0x80 ∷ replicate (55 - rem) 0) (replicate 8 0)))
      ∙ copy_at-parts 56 bits pre (replicate 8 0) [] measured (sym w)
      ∙ ap (λ (z : List ℕ). pre ++ z) (append-nil bits)
      ∙ append_assoc tail (0x80 ∷ replicate (55 - rem) 0) bits

  last_bits : length bits ≡ 8 → copy_at 56 bits (replicate 64 0) ≡ replicate 56 0 ++ bits
  last_bits w =
      ap (copy_at 56 bits) (replicate-append 56 8 64 0 refl)
      ∙ copy_at-parts 56 bits (replicate 56 0) (replicate 8 0) [] refl (sym w)
      ∙ ap (λ (z : List ℕ). replicate 56 0 ++ z) (append-nil bits)

-- The number of bits of a message of this length, on 8 bytes.
abbrev pub bits_of : ℕ → List ℕ
bits_of len = to_le_bytes 8 (len * 8 % 2 ^ 64)

-- The bytes that follow those of the message.
abbrev pub padding : ℕ → List ℕ
padding len = 0x80 ∷ (replicate ((119 - len % 64) % 64) 0 ++ bits_of len)

pub length-padding : (len : ℕ) → length (padding len) ≡ 9 + (119 - len % 64) % 64
length-padding len =
    let zeros = length-replicate {A = ℕ} ((119 - len % 64) % 64) 0 in
    let bits = length-to_le_bytes 8 (len * 8 % 2 ^ 64) in
    omega
      (arith, length-append {0} (replicate ((119 - len % 64) % 64) 0) (bits_of len), zeros, bits)

pub padded-eq : (bytes : List ℕ) → padded bytes ≡ bytes ++ padding (length bytes)
unfolding padded
padded-eq bytes =
    let e : 8 * length bytes ≡ length bytes * 8 = omega arith in
    ap
      (λ (n : ℕ).
        bytes
        ++ 0x80 ∷ (replicate ((119 - length bytes % 64) % 64) 0 ++ to_le_bytes 8 (n % 2 ^ 64)))
      e

module _ (len : ℕ) (buf : List ℕ) (measured : length buf ≡ len) where
  abbrev pub tail_of : List ℕ
  tail_of = drop (len / 64 * 64) buf

  pub length-tail_of : length tail_of ≡ len % 64
  length-tail_of = omega (arith, length-drop {0} (len / 64 * 64) buf)

  abbrev pub one_pad : Pads
  one_pad = record { pad0 = tail_of ++ padding len; pad1 = replicate 64 0 }

  abbrev pub two_pads : Pads
  two_pads = record {
    pad0 = tail_of ++ 0x80 ∷ replicate (63 - len % 64) 0;
    pad1 = replicate 56 0 ++ bits_of len;
  }

  pub pads_of-short : len % 64 < 56 → pads_of len (len / 64) buf ≡ some one_pad
  unfolding pads_of
  pads_of-short h =
      let fits : leb (len / 64 * 64) (length buf) ≡ true = ground arith in
      let same : (length tail_of == len % 64) ≡ true = ground (arith, length-tail_of) in
      let short : leb 56 (len % 64) ≡ false = ground arith in
      let zeros : (119 - len % 64) % 64 ≡ 55 - len % 64 = omega arith in
      rw (fits, same, short, zeros)
        (ap (λ (p : List ℕ). some (record { pad0 = p; pad1 = replicate 64 0 }))
          (ap (copy_at 56 (bits_of len)) (begun-eq tail_of (len % 64) length-tail_of (omega arith))
            ∙ with_bits (bits_of len) tail_of (len % 64) length-tail_of h
                (length-to_le_bytes 8 (len * 8 % 2 ^ 64))))

  pub pads_of-long : 56 ≤ len % 64 → pads_of len (len / 64) buf ≡ some two_pads
  unfolding pads_of
  pads_of-long h =
      let fits : leb (len / 64 * 64) (length buf) ≡ true = ground arith in
      let same : (length tail_of == len % 64) ≡ true = ground (arith, length-tail_of) in
      let long : leb 56 (len % 64) ≡ true = ground arith in
      rw (fits, same, long)
        (ap₂ (λ (p q : List ℕ). some (record { pad0 = p; pad1 = q }))
          (begun-eq tail_of (len % 64) length-tail_of (omega arith))
          (last_bits (bits_of len) (length-to_le_bytes 8 (len * 8 % 2 ^ 64))))

  pub one_pad-length : len % 64 < 56 → length (tail_of ++ padding len) ≡ 64
  one_pad-length h =
      omega (arith, length-append {0} tail_of (padding len), length-tail_of, length-padding len)

  pub two_pads-length : 56 ≤ len % 64 → length (two_pads.pad0) ≡ 64
  two_pads-length h =
      let zeros = length-replicate {A = ℕ} (63 - len % 64) 0 in
      omega (
        arith,
        length-append {0} tail_of (0x80 ∷ replicate (63 - len % 64) 0),
        length-tail_of,
        zeros,
      )

  pub length-pad1 : 64 ≤ length (two_pads.pad1)
  length-pad1 =
      let bits = length-to_le_bytes 8 (len * 8 % 2 ^ 64) in
      omega (arith, length-append {0} (replicate 56 0) (bits_of len), bits)

  -- The rest of the message and its padding, cut into two blocks.
  pub two_pads-joined : 56 ≤ len % 64 → tail_of ++ padding len ≡ two_pads.pad0 ++ two_pads.pad1
  two_pads-joined h =
      let zeros = replicate (63 - len % 64) 0 in
      let last = replicate 56 0 ++ bits_of len in
      let cut = replicate-append (63 - len % 64) 56 ((119 - len % 64) % 64) 0 (omega arith) in
      ap (λ (z : List ℕ). tail_of ++ 0x80 ∷ (z ++ bits_of len)) cut
      ∙ ap (λ (z : List ℕ). tail_of ++ 0x80 ∷ z) (append_assoc zeros (replicate 56 0) (bits_of len))
      ∙ sym (append_assoc tail_of (0x80 ∷ zeros) last)
