-- ===== src/Encode/Tiled/Blocks.antt =====
-- src/creator.rs: the loop over the blocks of a slice.
use par2rust.Base.{
  ℕ, zero, suc, ◌+◌, ◌-◌, ◌%◌, ◌<◌, ◌≤◌, ◌≡◌, sym, ap, ◌∙◌, arith, List, [], ◌∷◌, length, drop,
  drop-drop, length-drop, min, map, ltb, true, false, All, some,
}
use par2rust.Buffer.{IsBytes}
use par2rust.Encode.{Kernel}
use par2rust.Encode.Tiled.{blocks_from}
use par2rust.Encode.Tiled.Rows.{
  Row, buffer, advanced, completed, IsRow, IsBytes-drop, block_rows-advanced, rows-advanced,
  coeffs-advanced, rows-ended,
}

module _ (kernel : Kernel) (block_bytes : ℕ) (positive : 0 < block_bytes)
    (even_block : block_bytes % 2 ≡ 0) (slice : List ℕ) where
  pub blocks_from-completed :
      (fuel start : ℕ) (input : List ℕ) (rows : List Row)
      → drop start slice ≡ input
      → length slice ≡ start + length input
      → length input ≤ fuel
      → length input % 2 ≡ 0
      → IsBytes input
      → All (IsRow start (length input)) rows
      → blocks_from kernel fuel block_bytes slice start
          (map (λ row. row.coeff) rows)
          (map buffer rows)
        ≡ some (map (completed input) rows)
  unfolding blocks_from
  blocks_from-completed fuel start [] rows at size room even bytes h = ended fuel
    where
      ended :
          (f : ℕ)
          → blocks_from kernel f block_bytes slice start
              (map (λ row. row.coeff) rows)
              (map buffer rows)
            ≡ some (map (completed []) rows)
      ended zero = ap some (rows-ended rows)
      ended (suc f) =
          let over : ltb start (length slice) ≡ false = ground arith in
          rw over (ap some (rows-ended rows))
  blocks_from-completed zero start (b ∷ input) rows at size room even bytes h = absurd (omega arith)
  blocks_from-completed (suc fuel) start (b ∷ input) rows at size room even bytes h =
      let whole = b ∷ input in
      let m = min block_bytes (length whole) in
      let le : m ≤ length whole = omega arith in
      let even_m : m % 2 ≡ 0 = omega arith in
      let more : ltb start (length slice) ≡ true = ground arith in
      let end : min (start + block_bytes) (length slice) ≡ start + m = omega arith in
      let cut : start + m - start ≡ m = omega arith in
      let after = rows-advanced kernel whole bytes m start le even_m rows h in
      let rest =
        blocks_from-completed fuel (start + m) (drop m whole) (map (advanced whole m) rows)
          (sym (drop-drop start m slice) ∙ ap (drop m) at) (omega (arith, length-drop {0} m whole))
          (omega (arith, length-drop {0} m whole)) (omega (arith, length-drop {0} m whole))
          (IsBytes-drop m whole bytes) after.0 in
      rw (more, end, cut, at, block_rows-advanced kernel whole bytes m start le even_m rows h)
        (ap
            (λ (cs : List ℕ).
              blocks_from kernel fuel block_bytes slice (start + m) cs
                (map buffer (map (advanced whole m) rows)))
            (sym (coeffs-advanced whole m rows))
          ∙ rest
          ∙ ap some after.1)
