-- ===== src/Tests/Tiled.antt =====
-- A witness for the pass in blocks: two blocks of each slice.
use par2rust.Base.{
  ℕ, zero, suc, ◌^◌, ◌<◌, ◌≡◌, refl, arith, List, [], ◌∷◌, replicate, length-replicate, All, Option,
  some, none,
}
use par2rust.GaloisSimd.Dispatch.{neon}
use par2rust.Encode.{encode_all_recovery_blocks}
use par2rust.Encode.Kernels.{dispatch_kernel, table_kernel}
use par2rust.Encode.Recovery.{IsBuffer}
use par2rust.Encode.Tiled.{l2_block_bytes_opt, encode_all_recovery_blocks_tiled}
use par2rust.Encode.Tiled.Agreement.{encode_all_recovery_blocks_tiled-agrees}

abbrev setting : Option (List ℕ)
setting = some (b'1' ∷ b'2' ∷ b'8' ∷ [])

setting_taken : l2_block_bytes_opt setting ≡ some 128
unfolding l2_block_bytes_opt
setting_taken = refl

-- A size that is no multiple of 128 is ignored.
setting_ignored : l2_block_bytes_opt (some (b'1' ∷ b'3' ∷ b'0' ∷ [])) ≡ none
unfolding l2_block_bytes_opt
setting_ignored = refl

equal_bytes : (n b : ℕ) → b < 2 ^ 8 → All (λ x. x < 2 ^ 8) (replicate n b)
equal_bytes zero b h = tt
equal_bytes (suc n) b h = (h, equal_bytes n b h)

abbrev slices : List (List ℕ)
slices = replicate 200 7 ∷ replicate 200 9 ∷ []

slices-IsBuffer : All (IsBuffer 200) slices
unfolding IsBuffer
slices-IsBuffer = (
  (equal_bytes 200 7 (omega arith), length-replicate {A = ℕ} 200 7),
  ((equal_bytes 200 9 (omega arith), length-replicate {A = ℕ} 200 9), tt),
)

encode_all_recovery_blocks_tiled-agrees_example :
    encode_all_recovery_blocks_tiled
      (dispatch_kernel neon)
      (l2_block_bytes_opt setting)
      slices
      200
      3
    ≡ encode_all_recovery_blocks table_kernel slices 200 3
encode_all_recovery_blocks_tiled-agrees_example =
    encode_all_recovery_blocks_tiled-agrees (dispatch_kernel neon) table_kernel setting slices 200 3
      slices-IsBuffer (omega arith) (omega arith) (omega arith)
