-- ===== src/Source/Scans.antt =====
-- The scan by reads delivers what the scan over a map does.
use par2rust.Base.{
  ℕ, zero, suc, ◌-◌, ◌<◌, ◌≤◌, ◌≡◌, refl, sym, ap, subst, ◌∙◌, arith, List, [], ◌∷◌, ◌++◌,
  append_assoc, append-nil, map, length, length-take, length-drop, length-append, take, drop,
  take-append-drop, take-joined, take-min, take-nil, min, true, false, Bool-cases, inl, inr, ==→eq,
  ltb, leb, ◌==◌, some,
}
use par2rust.Format.{Md5}
use par2rust.Packet.{SliceChecksum}
use par2rust.Error.{Attempt, gives, and_then}
use par2rust.Source.{
  hash16k_len, Reader, chunks_on, par_chunks, zero_padded, Md5Ctx, update_all, joined, Streams,
  ScanOutput, checksum, slice_checksum, scan_via_mmap, ScanState, absorb, scan_loop,
  scan_via_reader,
}
use par2rust.Source.Reads.{Delivers, read_full_lem}

-- A whole slice needs no zeros.
pub slice_checksum-zero_padded :
    (md5 : Md5) (crc32 : List ℕ → ℕ) (size : ℕ) (slice : List ℕ)
    → slice_checksum md5 crc32 size slice ≡ checksum md5 crc32 (zero_padded size slice)
unfolding slice_checksum zero_padded
slice_checksum-zero_padded md5 crc32 size slice = elim (Bool-cases (length slice == size)) [
  | inl whole ↦
      let nothing : size - length slice ≡ 0 =
        let s = ==→eq (length slice) size whole in omega arith in
      rw (whole, nothing, append-nil slice)
  | inr part ↦ rw part
]

not_zero_test : (n : ℕ) → 0 < n → (n == 0) ≡ false
not_zero_test n h = ground arith

min_test : (n k : ℕ) → leb (min n k) n ≡ true
min_test n k = ground arith

below : {m n : ℕ} → ltb m n ≡ true → m < n
below h = ground arith

not_below : {m n : ℕ} → ltb m n ≡ false → n ≤ m
not_below h = ground arith

nothing_left : (bytes : List ℕ) → length bytes ≡ 0 → bytes ≡ []
nothing_left [] h = refl
nothing_left (b ∷ bytes) h = absurd (omega arith)

module _ (md5 : Md5) (crc32 : List ℕ → ℕ) (c : Md5Ctx) where
  -- The pieces that a context was fed make up these bytes.
  Fed : c.Ctx → List ℕ → Type 0
  Fed ctx bytes =
      (pieces : List (List ℕ)) × (ctx ≡ update_all c c.start pieces) × (joined pieces ≡ bytes)

  update_all-snoc :
      (ctx : c.Ctx) (pieces : List (List ℕ)) (piece : List ℕ)
      → update_all c ctx (pieces ++ piece ∷ []) ≡ c.update (update_all c ctx pieces) piece
  unfolding update_all
  update_all-snoc ctx [] piece = refl
  update_all-snoc ctx (p ∷ pieces) piece = update_all-snoc (c.update ctx p) pieces piece

  joined-snoc :
      (pieces : List (List ℕ)) (piece : List ℕ)
      → joined (pieces ++ piece ∷ []) ≡ joined pieces ++ piece
  unfolding joined
  joined-snoc [] piece = append-nil piece
  joined-snoc (p ∷ pieces) piece =
      ap (λ (t : List ℕ). p ++ t) (joined-snoc pieces piece)
      ∙ sym (append_assoc p (joined pieces) piece)

  Fed-start : Fed c.start []
  unfolding Fed update_all joined
  Fed-start = ([], refl, refl)

  Fed-update :
      (ctx : c.Ctx) (bytes piece : List ℕ)
      → Fed ctx bytes
      → Fed (c.update ctx piece) (bytes ++ piece)
  unfolding Fed
  Fed-update ctx bytes piece (pieces, e, f) = (
    pieces ++ piece ∷ [],
    ap (λ (t : c.Ctx). c.update t piece) e ∙ sym (update_all-snoc c.start pieces piece),
    joined-snoc pieces piece ∙ ap (λ (t : List ℕ). t ++ piece) f,
  )

  finalize-Fed :
      Streams md5 c
      → (ctx : c.Ctx) (bytes : List ℕ) → Fed ctx bytes
      → c.finalize ctx ≡ md5.digest bytes
  unfolding Fed Streams
  finalize-Fed h ctx bytes (pieces, e, f) = ap c.finalize e ∙ h pieces ∙ ap md5.digest f

  record Holds (st : ScanState md5 crc32 c) (seen : List ℕ) : Type 0 where
    full : Fed st.hash_full_ctx seen
    first : Fed st.hash16k_ctx (take hash16k_len seen)
    count : st.bytes_into_16k ≡ min hash16k_len (length seen)

  absorb-Holds :
      (size : ℕ) (st : ScanState md5 crc32 c) (seen got : List ℕ)
      → Holds st seen
      → Holds (absorb md5 crc32 c size st got) (seen ++ got)
  unfolding absorb
  absorb-Holds size st seen got h = elim (Bool-cases (ltb st.bytes_into_16k hash16k_len)) [
    | inl more ↦
        let count = h.count in
        let size_got = length-append seen got in
        let below : length seen < 16384 = ground arith in
        let into : st.bytes_into_16k ≡ length seen = omega arith in
        let k = hash16k_len - st.bytes_into_16k in
        let piece : take (min k (length got)) got ≡ take (hash16k_len - length seen) got =
          sym (take-min got k) ∙ ap (λ (t : ℕ). take (hash16k_len - t) got) into in
        rw more (record {
          full = Fed-update st.hash_full_ctx seen got h.full;
          first =
              subst (Fed (c.update st.hash16k_ctx (take (min k (length got)) got)))
                (ap (λ (t : List ℕ). take hash16k_len seen ++ t) piece
                  ∙ sym (take-joined hash16k_len seen got))
                (Fed-update st.hash16k_ctx (take hash16k_len seen) (take (min k (length got)) got)
                  h.first);
          count = omega arith;
        })
    | inr full ↦
        let count = h.count in
        let size_got = length-append seen got in
        let above : 16384 ≤ length seen = ground arith in
        let left : hash16k_len - length seen ≡ 0 = omega arith in
        let same : take hash16k_len (seen ++ got) ≡ take hash16k_len seen =
          take-joined hash16k_len seen got
          ∙ ap (λ (n : ℕ). take hash16k_len seen ++ take n got) left
          ∙ append-nil _ in
        rw full (record {
          full = Fed-update st.hash_full_ctx seen got h.full;
          first = subst (Fed st.hash16k_ctx) (sym same) h.first;
          count = omega arith;
        })
  ]

  abbrev checksums : ℕ → List (List ℕ) → List SliceChecksum
  checksums size slices = map (slice_checksum md5 crc32 size) slices

  -- The loop ends in a state that has taken in the bytes that were left, slice by slice.
  abbrev Ends :
      ℕ → ℕ → List ℕ → ScanState md5 crc32 c → List ℕ → Attempt (ScanState md5 crc32 c) → Type 0
  Ends fuel size bytes st seen result =
      (out : ScanState md5 crc32 c) × (result ≡ gives out)
      × Holds out (seen ++ bytes)
      × (out.slice_checksums ≡ st.slice_checksums ++ checksums size (chunks_on fuel size bytes))

  no_round :
      (fuel size : ℕ) (st : ScanState md5 crc32 c) (seen : List ℕ)
      → Holds st seen
      → Ends fuel size [] st seen (gives st)
  unfolding chunks_on
  no_round fuel size st seen h =
      (st, refl, subst (Holds st) (sym (append-nil seen)) h, sym (append-nil st.slice_checksums))

  next_round :
      (fuel size : ℕ) (bytes : List ℕ) (st : ScanState md5 crc32 c) (seen : List ℕ)
      (result : Attempt (ScanState md5 crc32 c))
      → 0 < length bytes
      → Ends fuel size
          (drop size bytes)
          (absorb md5 crc32 c size st (take size bytes))
          (seen ++ take size bytes)
          result
      → Ends (suc fuel) size bytes st seen result
  unfolding chunks_on absorb
  next_round fuel size [] st seen result pos h = absurd (omega arith)
  next_round fuel size (x ∷ xs) st seen result pos (out, e, holds, sums) =
      let bytes = x ∷ xs in
      let got = take size bytes in
      let whole : seen ++ (got ++ drop size bytes) ≡ seen ++ bytes =
        ap (λ (t : List ℕ). seen ++ t) (take-append-drop size bytes) in
      (
        out,
        e,
        subst (Holds out) (append_assoc seen got (drop size bytes) ∙ whole) holds,
        sums
            ∙ ap
                (λ (k : SliceChecksum).
                  (st.slice_checksums ++ k ∷ [])
                  ++ checksums size (chunks_on fuel size (drop size bytes)))
                (sym (slice_checksum-zero_padded md5 crc32 size got))
            ∙ append_assoc st.slice_checksums _ _,
      )

  scan_loop_lem :
      (fuel size : ℕ) (r : Reader) (bytes : List ℕ) (st : ScanState md5 crc32 c) (seen : List ℕ)
      → r.rest ≡ bytes
      → 0 < size
      → length bytes ≤ fuel
      → Delivers r
      → Holds st seen
      → Ends fuel size bytes st seen (scan_loop md5 crc32 c (suc fuel) size r st)
  unfolding scan_loop and_then chunks_on
  scan_loop_lem fuel size r [] st seen at pos le d h =
      let (after, e, f, d') = read_full_lem r size d in
      rw (e, at, take-nil size) (no_round fuel size st seen h)
  scan_loop_lem zero size r (x ∷ xs) st seen at pos le d h = absurd (omega arith)
  scan_loop_lem (suc fuel) size r (x ∷ xs) st seen at pos le d h =
      let (after, e, f, d') = read_full_lem r size d in
      let size_got = length-take size (x ∷ xs) in
      let got = take size (x ∷ xs) in
      let st' = absorb md5 crc32 c size st got in
      let more = absorb-Holds size st seen got h in
      let some_bytes : (length got == 0) ≡ false = not_zero_test (length got) (omega arith) in
      let left = length-drop size (x ∷ xs) in
      rw (e, at, some_bytes)
        (elim (Bool-cases (ltb (length got) size)) [
          | inl short ↦
              let nothing : drop size (x ∷ xs) ≡ [] =
                nothing_left (drop size (x ∷ xs)) (omega (arith, below short)) in
              rw short (
                next_round fuel size (x ∷ xs) st seen _ (omega arith) (
                  subst (λ (bs : List ℕ). Ends fuel size bs st' (seen ++ got) (gives st'))
                    (sym nothing) (no_round fuel size st' (seen ++ got) more)))
          | inr long ↦ rw long (
              next_round fuel size (x ∷ xs) st seen _ (omega arith) (
                scan_loop_lem fuel size after (drop size (x ∷ xs)) st' (seen ++ got)
                  (f ∙ ap (drop size) at) pos (let whole = not_below long in omega arith) d' more))
        ])

  -- For a streaming digest, a positive slice size and reads none of which reports an error, whatever their
  -- sizes are, the scan by reads ends and delivers what the scan over a map of the same bytes does.
  pub scan_via_reader-scan_via_mmap :
      (slice_size : ℕ) (r : Reader)
      → Streams md5 c
      → 0 < slice_size
      → Delivers r
      → (scan : ScanOutput) × (scan_via_reader md5 crc32 c slice_size r ≡ gives scan)
        × (scan_via_mmap md5 crc32 (length r.rest) slice_size r.rest ≡ some scan)
  unfolding scan_via_reader scan_via_mmap and_then par_chunks
  scan_via_reader-scan_via_mmap slice_size r streams pos d =
      let begin : ScanState md5 crc32 c = record {
        hash_full_ctx = c.start;
        hash16k_ctx = c.start;
        bytes_into_16k = 0;
        slice_checksums = [];
      } in
      let started : Holds begin [] = record { full = Fed-start; first = Fed-start; count = refl } in
      let (out, e, holds, sums) =
        scan_loop_lem (length r.rest) slice_size r r.rest begin [] refl pos (omega arith) d
          started in
      let not_zero : (slice_size == 0) ≡ false = not_zero_test slice_size pos in
      let inside : leb (min (length r.rest) hash16k_len) (length r.rest) ≡ true =
        min_test (length r.rest) hash16k_len in
      let full = finalize-Fed streams out.hash_full_ctx r.rest holds.full in
      let first = finalize-Fed streams out.hash16k_ctx (take hash16k_len r.rest) holds.first in
      let shorter : min (length r.rest) hash16k_len ≡ min hash16k_len (length r.rest) =
        omega arith in
      let head : take (min (length r.rest) hash16k_len) r.rest ≡ take hash16k_len r.rest =
        ap (λ (n : ℕ). take n r.rest) shorter ∙ sym (take-min r.rest hash16k_len) in
      (
        record {
          slice_checksums = out.slice_checksums;
          hash_full = c.finalize out.hash_full_ctx;
          hash16k = c.finalize out.hash16k_ctx;
        },
        rw e,
        rw (not_zero, inside, head, sums, full, first),
      )
