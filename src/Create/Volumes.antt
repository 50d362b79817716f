-- ===== src/Create/Volumes.antt =====
-- The volumes share out the recovery buffers, and a volume reads back.
use par2rust.Base.{
  drop-drop, ℕ, zero, suc, ◌+◌, ◌-◌, ◌%◌, ◌^◌, ◌<◌, ◌≤◌, ◌≡◌, refl, sym, ap, ◌∙◌, arith, List, [],
  ◌∷◌, ◌++◌, length, length-append, take, drop, append_assoc, take-append-drop, true, leb, ◌==◌,
  All, Option, some,
}
use par2rust.Base.Checked.{Checked, ◌>>=◌}
use par2rust.Base.Bytes.{to_le_bytes, length-to_le_bytes}
use par2rust.Format.{Md5, type_recovery}
use par2rust.Format.Framing.{
  Packet, IsPacket, frame, read_packet, read_packet-frame, build_packet-eq-frame,
}
use par2rust.Packet.{build_recovery_packet}
use par2rust.Packet.Reading.{packet}
use par2rust.Volume.{sum}
use par2rust.Create.{volume_ranges, slots_at, recovery_packets, build_volume_packet}

-- The slots that the volumes take, one after the other.
unfoldable pub all_slots : List (List ℕ) → List (ℕ × ℕ) → Checked (List (List ℕ))
all_slots buffers [] = some []
all_slots buffers (range ∷ volumes) = do
  slots ← slots_at buffers range.0 range.1
  rest ← all_slots buffers volumes
  some (slots ++ rest)

drop-all : {A : Type 0} (xs : List A) (n : ℕ) → n ≡ length xs → drop n xs ≡ []
drop-all [] n e = rw e
drop-all (x ∷ xs) n e = rw e (drop-all xs (length xs) refl)

slots-then-rest :
    (buffers : List (List ℕ)) (first n : ℕ)
    → take n (drop first buffers) ++ drop (first + n) buffers ≡ drop first buffers
slots-then-rest buffers first n =
    ap (λ rest. take n (drop first buffers) ++ rest) (sym (drop-drop first n buffers))
    ∙ take-append-drop n (drop first buffers)

volume_ranges_lem :
    (buffers : List (List ℕ)) (sizes : List ℕ) (first : ℕ)
    → first + sum sizes ≡ length buffers
    → length buffers ≤ 65535
    → (ranges : List (ℕ × ℕ)) × (volume_ranges first sizes ≡ some ranges)
      × (all_slots buffers ranges ≡ some (drop first buffers))
unfolding volume_ranges all_slots sum slots_at
volume_ranges_lem buffers [] first whole fits =
    ([], refl, ap some (sym (drop-all buffers first (omega arith))))
volume_ranges_lem buffers (n ∷ sizes) first whole fits =
    let (ranges, e, f) = volume_ranges_lem buffers sizes (first + n) (omega arith) fits in
    let low : leb first (2 ^ 16 - 1) ≡ true = ground arith in
    let high : leb (first + n) (2 ^ 32 - 1) ≡ true = ground arith in
    let inside : leb (first + n) (length buffers) ≡ true = ground arith in
    (
      (first, n) ∷ ranges,
      rw (low, high, e),
      rw (inside, f) (ap some (slots-then-rest buffers first n)),
    )

-- For sizes that add up to the number of recovery buffers, at most 65535, no range of exponents
-- overflows and no slice of the buffers is out of range, and the volumes together hold every buffer once
-- and in order.
pub volume_ranges-all_slots :
    (buffers : List (List ℕ)) (sizes : List ℕ)
    → sum sizes ≡ length buffers
    → length buffers ≤ 65535
    → (ranges : List (ℕ × ℕ)) × (volume_ranges 0 sizes ≡ some ranges)
      × (all_slots buffers ranges ≡ some buffers)
volume_ranges-all_slots buffers sizes whole fits =
    volume_ranges_lem buffers sizes 0 (omega arith) fits

-- The packets of the slots, with exponents from `exponent` on.
pub packets_from : List ℕ → ℕ → List (List ℕ) → List Packet
packets_from set_id exponent [] = []
packets_from set_id exponent (slot ∷ slots) =
    packet set_id type_recovery (to_le_bytes 4 exponent ++ slot)
    ∷ packets_from set_id (exponent + 1) slots

-- A slot that fits a packet.
unfoldable pub IsSlot : List ℕ → Type 0
IsSlot slot = (length slot % 4 ≡ 0) × (length slot < 2 ^ 63)

module _ (md5 : Md5) where
  -- A reader of `n` packets in a row.
  unfoldable pub read_packets : ℕ → List ℕ → Option (List Packet × List ℕ)
  read_packets zero bytes = some ([], bytes)
  read_packets (suc n) bytes = do
    first ← read_packet md5 bytes
    rest ← read_packets n first.1
    some (first.0 ∷ rest.0, rest.1)

  recovery_packets_lem :
      (set_id : List ℕ) (slots : List (List ℕ)) (first offset : ℕ) (after : List ℕ)
      → length set_id ≡ 16
      → All IsSlot slots
      → first + offset + length slots ≤ 2 ^ 16
      → (bytes : List ℕ) × (recovery_packets md5 set_id first offset slots ≡ some bytes)
        × (read_packets (length slots) (bytes ++ after)
            ≡ some (packets_from set_id (first + offset) slots, after))
  unfolding recovery_packets read_packets packets_from IsSlot build_recovery_packet packet
  recovery_packets_lem set_id [] first offset after hs h fits = ([], refl, refl)
  recovery_packets_lem set_id (slot ∷ slots) first offset after hs h fits =
      let (bytes, e, f) =
        recovery_packets_lem set_id slots first (offset + 1) after hs h.1 (omega arith) in
      let body = to_le_bytes 4 (first + offset) ++ slot in
      let p = packet set_id type_recovery body in
      let size = length-append (to_le_bytes 4 (first + offset)) slot in
      let four = length-to_le_bytes 4 (first + offset) in
      let wrap : offset % 2 ^ 16 ≡ offset = omega arith in
      let low : leb (first + offset) (2 ^ 16 - 1) ≡ true = ground arith in
      let test : (length slot % 4 == 0) ≡ true = ground (arith, h.0) in
      let aligned : length body % 4 ≡ 0 = omega (arith, h.0) in
      let is_packet : IsPacket md5 p = record {
        set_id_size = hs;
        tag_size = refl;
        aligned = aligned;
        fits = omega (arith, h.0);
      } in
      let next : first + (offset + 1) ≡ first + offset + 1 = omega arith in
      let rest = rw next at f in
      (
        frame md5 p ++ bytes,
        rw (wrap, low, test, build_packet-eq-frame md5 set_id type_recovery body aligned, e),
        rw (
          append_assoc (frame md5 p) bytes after,
          read_packet-frame md5 p (bytes ++ after) is_packet,
          rest,
        ),
      )

  -- For a set id of 16 bytes and slots whose lengths are multiples of 4 below 2^63, with exponents that
  -- stay below 65536, a volume is built. After the critical packets it reads back as one recovery packet for each
  -- slot, with the exponents in order, and then the critical packets again.
  pub read-build_volume_packet :
      (set_id critical : List ℕ) (slots : List (List ℕ)) (first : ℕ)
      → length set_id ≡ 16
      → All IsSlot slots
      → first + length slots ≤ 2 ^ 16
      → (bytes : List ℕ) × (build_volume_packet md5 set_id critical slots first
          ≡ some (critical ++ bytes))
        × (read_packets (length slots) bytes ≡ some (packets_from set_id first slots, critical))
  unfolding build_volume_packet
  read-build_volume_packet set_id critical slots first hs h fits =
      let (bytes, e, f) = recovery_packets_lem set_id slots first 0 critical hs h (omega arith) in
      let start : first + 0 ≡ first = omega arith in
      (bytes ++ critical, rw e, f ∙ ap (λ k. some (packets_from set_id k slots, critical)) start)
