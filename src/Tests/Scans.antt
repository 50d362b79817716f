-- ===== src/Tests/Scans.antt =====
-- Scans with short reads.
use par2rust.Base.{
  ℕ, ◌≡◌, refl, sym, ap, ◌∙◌, arith, List, [], ◌∷◌, ◌++◌, append_assoc, append-nil, length, some,
}
use par2rust.Error.{gives}
use par2rust.Source.{
  up_to, Reader, read_full, Md5Ctx, update_all, joined, Streams, ScanOutput, scan_via_mmap,
  scan_via_reader,
}
use par2rust.Source.Reads.{Delivers, is_answered, read_full_lem}
use par2rust.Source.Scans.{scan_via_reader-scan_via_mmap}
use par2rust.Tests.Packets.{constant_md5}

-- Six bytes that come one, three and two at a time.
abbrev pub slow_reader : Reader
slow_reader = record { rest = 1 ∷ 2 ∷ 3 ∷ 4 ∷ 5 ∷ 6 ∷ []; answers = up_to 0 ∷ up_to 2 ∷ [] }

slow_reader-Delivers : Delivers slow_reader
unfolding Delivers is_answered
slow_reader-Delivers = (refl, (refl, tt))

read_full_lem_example :
    (after : Reader) × (read_full slow_reader 4 ≡ gives (1 ∷ 2 ∷ 3 ∷ 4 ∷ [], after))
    × (after.rest ≡ 5 ∷ 6 ∷ [])
    × Delivers after
read_full_lem_example = read_full_lem slow_reader 4 slow_reader-Delivers

-- A context that keeps what it is fed.
abbrev pub keeping : Md5Ctx
keeping = record {
  Ctx = List ℕ;
  start = [];
  update = λ fed piece. fed ++ piece;
  finalize = λ fed. constant_md5.digest fed;
}

kept :
    (fed : List ℕ) (pieces : List (List ℕ)) → update_all keeping fed pieces ≡ fed ++ joined pieces
unfolding update_all joined
kept fed [] = sym (append-nil fed)
kept fed (piece ∷ pieces) = kept (fed ++ piece) pieces ∙ append_assoc fed piece (joined pieces)

pub keeping-Streams : Streams constant_md5 keeping
unfolding Streams
keeping-Streams pieces = ap (λ (t : List ℕ). constant_md5.digest t) (kept [] pieces)

scan_via_reader-scan_via_mmap_example :
    (scan : ScanOutput) × (scan_via_reader constant_md5 length keeping 4 slow_reader ≡ gives scan)
    × (scan_via_mmap constant_md5 length 6 4 (1 ∷ 2 ∷ 3 ∷ 4 ∷ 5 ∷ 6 ∷ []) ≡ some scan)
scan_via_reader-scan_via_mmap_example =
    scan_via_reader-scan_via_mmap constant_md5 length keeping 4 slow_reader keeping-Streams
      (omega arith) slow_reader-Delivers
