-- ===== src/Md5Neon/Digests.antt =====
-- src/md5_mb_neon.rs: `digest4` beside four runs of the reference.
use par2rust.Base.{
  ℕ, ◌+◌, ◌-◌, ◌*◌, ◌/◌, ◌%◌, ◌<◌, ◌≤◌, ◌≡◌, refl, sym, ap, ap₂, ◌∙◌, inl, inr, arith, List, [],
  ◌++◌, append-nil, length, take, length-append, drop-append, leb, ◌&&◌, ◌==◌, true, false,
  Bool-cases, some,
}
use mathlib.Core.Path.{fun_ext}
use par2rust.Base.Checked.{Checked, ◌>>=◌}
use par2rust.Md5Neon.Vectors.{Lane, lane0, lane1, lane2, lane3, Lanes, Uint32x4, each_lane-some}
use par2rust.Md5Neon.{pads_of, digests, finish_lanes, digest4_neon, digest4}
use par2rust.Md5Neon.Block.{Registers, Message, md5_block}
use par2rust.Md5Neon.Reference.{words, compress, absorb, initial, output, digest}
use par2rust.Md5Neon.Rounds.{lane}
use par2rust.Md5Neon.Padding.{
  padding, padded-eq, length-padding, tail_of, one_pad, two_pads, pads_of-short, pads_of-long,
  one_pad-length, two_pads-length, length-pad1, two_pads-joined,
}
use par2rust.Md5Neon.Loads.{
  drop-joined, loaded, load_block_message-loaded, mixed, full_loop-Absorbed, absorb-split,
}

module _ (len : ℕ) (bytes : List ℕ) (measured : length bytes ≡ len) where
  length-padded : length (bytes ++ padding len) ≡ len + 9 + (119 - len % 64) % 64
  length-padded = omega (arith, length-append {0} bytes (padding len), length-padding len)

  -- The digest by the full blocks of the message and the blocks of its rest and the padding.
  digest-tail_of :
      (k : ℕ)
      → (len + 9 + (119 - len % 64) % 64) / 64 ≡ len / 64 + k
      → output (
          absorb k
            (tail_of len bytes measured ++ padding len)
            (absorb (len / 64) (bytes ++ padding len) initial))
        ≡ digest bytes
  unfolding digest
  digest-tail_of k e =
      let whole = bytes ++ padding len in
      let blocks : length whole / 64 ≡ len / 64 + k = omega (arith, length-padded, e) in
      sym (
        ap (λ (p : List ℕ). output (absorb (length p / 64) p initial))
          (padded-eq bytes ∙ ap (λ (n : ℕ). bytes ++ padding n) measured)
        ∙ ap output (absorb-split (len / 64) k (length whole / 64) whole initial blocks)
        ∙ ap (λ (p : List ℕ). output (absorb k p (absorb (len / 64) whole initial)))
            (drop-joined (len / 64 * 64) bytes (padding len) (omega arith)))

digests-lane : (r : Registers Uint32x4) (l : Lane) → digests r l ≡ output (lane l r)
unfolding digests output
digests-lane r l = refl

module _ (len : ℕ) (bufs : Lanes (List ℕ)) (measured : (l : Lane) → length (bufs l) ≡ len)
    (r : Registers Uint32x4)
    (absorbs : (l : Lane) → lane l r ≡ absorb (len / 64) (bufs l ++ padding len) initial) where
  finish_lanes-short :
      len % 64 < 56
      → finish_lanes len (λ l. one_pad len (bufs l) (measured l)) r ≡ some (λ l. digest (bufs l))
  unfolding finish_lanes absorb
  finish_lanes-short h =
      let srcs : Lanes (List ℕ) = λ l. tail_of len (bufs l) (measured l) ++ padding len in
      let room : (l : Lane) → 64 ≤ length (srcs l) =
        λ l. omega (arith, one_pad-length len (bufs l) (measured l) h) in
      let short : leb 56 (len % 64) ≡ false = ground arith in
      rw (load_block_message-loaded srcs room, short)
        (ap some (
          fun_ext λ l.
            digests-lane (md5_block r (loaded srcs)) l
            ∙ ap output (
                mixed srcs r room l []
                ∙ ap (λ (bs : List ℕ). compress (words (take 64 bs)) (lane l r))
                    (append-nil (srcs l))
                ∙ ap (compress (words (take 64 (srcs l)))) (absorbs l))
            ∙ digest-tail_of len (bufs l) (measured l) 1 (omega arith)))

  finish_lanes-long :
      56 ≤ len % 64
      → finish_lanes len (λ l. two_pads len (bufs l) (measured l)) r ≡ some (λ l. digest (bufs l))
  unfolding finish_lanes absorb
  finish_lanes-long h =
      let pad0 : Lanes (List ℕ) = λ l. (two_pads len (bufs l) (measured l)).pad0 in
      let pad1 : Lanes (List ℕ) = λ l. (two_pads len (bufs l) (measured l)).pad1 in
      let full : (l : Lane) → length (pad0 l) ≡ 64 =
        λ l. two_pads-length len (bufs l) (measured l) h in
      let room0 : (l : Lane) → 64 ≤ length (pad0 l) = λ l. omega (arith, full l) in
      let room1 : (l : Lane) → 64 ≤ length (pad1 l) = λ l. length-pad1 len (bufs l) (measured l) in
      let long : leb 56 (len % 64) ≡ true = ground arith in
      let padded0 = md5_block r (loaded pad0) in
      rw (load_block_message-loaded pad0 room0, long)
        (ap (λ (m : Checked Message). m >>= λ m1. some (digests (md5_block padded0 m1)))
            (load_block_message-loaded pad1 room1)
          ∙ (ap some (
              fun_ext λ l.
                digests-lane (md5_block padded0 (loaded pad1)) l
                ∙ ap output (
                    mixed pad1 padded0 room1 l []
                    ∙ ap₂ (λ (bs : List ℕ) (w : Registers ℕ). compress (words (take 64 bs)) w)
                        (append-nil (pad1 l) ∙ sym (drop-append (pad0 l) (pad1 l) 64 (full l)))
                        (mixed pad0 r room0 l (pad1 l)
                          ∙ ap (compress (words (take 64 (pad0 l ++ pad1 l)))) (absorbs l))
                    ∙ ap
                        (λ (bs : List ℕ).
                          absorb 2 bs (absorb (len / 64) (bufs l ++ padding len) initial))
                        (sym (two_pads-joined len (bufs l) (measured l) h)))
                ∙ digest-tail_of len (bufs l) (measured l) 2 (omega arith))))

-- For four buffers of one length `digest4` returns, without a read beyond the end of a buffer, the MD5 digests
-- that RFC 1321 defines: of each buffer its own, in its place.
pub digest4-digest :
    (bufs : Lanes (List ℕ))
    → ((l : Lane) → length (bufs l) ≡ length (bufs lane0))
    → digest4 bufs ≡ some (λ l. digest (bufs l))
unfolding digest4 digest4_neon
digest4-digest bufs measured =
    let len = length (bufs lane0) in
    let checked : ((length (bufs lane1) == len)
          && (length (bufs lane2) == len)
          && (length (bufs lane3) == len))
        ≡ true =
      ground (arith, measured lane1, measured lane2, measured lane3) in
    let begun : Registers Uint32x4 = record {
      aa = λ l. 0x67452301;
      bb = λ l. 0xefcdab89;
      cc = λ l. 0x98badcfe;
      dd = λ l. 0x10325476;
    } in
    let full = full_loop-Absorbed (len / 64) bufs begun (λ l. omega (arith, measured l)) in
    let absorbs : (l : Lane)
        → lane l (full.registers) ≡ absorb (len / 64) (bufs l ++ padding len) initial =
      λ l. full.absorbs l (padding len) in
    elim (Bool-cases (leb 56 (len % 64))) [
      | inr short ↦
          rw
            (
              checked,
              full.returns,
              each_lane-some (λ l. pads_of len (len / 64) (bufs l))
                  (λ l. one_pad len (bufs l) (measured l))
                  (λ l. pads_of-short len (bufs l) (measured l) (ground arith)),
            )
            (finish_lanes-short len bufs measured full.registers absorbs (ground arith))
      | inl long ↦
          rw
            (
              checked,
              full.returns,
              each_lane-some (λ l. pads_of len (len / 64) (bufs l))
                  (λ l. two_pads len (bufs l) (measured l))
                  (λ l. pads_of-long len (bufs l) (measured l) (ground arith)),
            )
            (finish_lanes-long len bufs measured full.registers absorbs (ground arith))
    ]
