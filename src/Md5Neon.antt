-- ===== src/Md5Neon.antt =====
-- src/md5_mb_neon.rs: four MD5 digests at a time. A vector is an array of four words, an array of sixteen
-- vectors is a function of the index, and a pointer is the list of the bytes from it on. A read beyond the
-- end of a buffer is the empty result, as a panic is.
pub mod Vectors
pub mod Block
pub mod Reference
pub mod Rounds
pub mod Blocks
pub mod Padding
pub mod Loads
pub mod Digests
use par2rust.Base.{
  ℕ, zero, suc, ◌+◌, ◌-◌, ◌*◌, ◌/◌, ◌%◌, ◌^◌, List, [], ◌∷◌, ◌++◌, length, take, drop, replicate,
  leb, ◌==◌, ◌&&◌, if◌then◌else◌, Option, none, some,
}
use par2rust.Base.Checked.{Checked, ◌>>=◌, ◌>>◌, assert}
use par2rust.Base.Bytes.{to_le_bytes, from_le_bytes}
use par2rust.GaloisSimd.Vectors.{byte_at}
use par2rust.Md5Neon.Vectors.{
  Lane, lane0, lane1, lane2, lane3, Lanes, Uint32x4, four, each_lane, vdupq_n_u32, vaddq_u32,
  vorrq_u32, veorq_u32, vmvnq_u32, vbslq_u32, vshlq_n_u32, vshrq_n_u32,
}
use par2rust.Md5Neon.Block.{Registers, Message, md5_block, t, bsl}

abbrev pub a_init : ℕ
a_init = 0x67452301

abbrev pub b_init : ℕ
b_init = 0xefcdab89

abbrev pub c_init : ℕ
c_init = 0x98badcfe

abbrev pub d_init : ℕ
d_init = 0x10325476

unfoldable pub u32x4 : ℕ → ℕ → ℕ → ℕ → Uint32x4
u32x4 a b c d = four a b c d

unfoldable pub word : List ℕ → ℕ → ℕ
unfolding byte_at from_le_bytes
word src off =
    from_le_bytes
      (byte_at src off ∷ byte_at src (off + 1) ∷ byte_at src (off + 2) ∷ byte_at src (off + 3) ∷ [])

-- All reads lie in the first 64 bytes from each pointer on.
unfoldable pub load_block_message : Lanes (List ℕ) → Checked Message
unfolding word u32x4
load_block_message srcs =
    if (leb 64 (length (srcs lane0)) && leb 64 (length (srcs lane1)))
      && (leb 64 (length (srcs lane2)) && leb 64 (length (srcs lane3)))
    then some (λ i.
      let off = i * 4 in
      u32x4 (word (srcs lane0) off) (word (srcs lane1) off) (word (srcs lane2) off)
        (word (srcs lane3) off))
    else none

-- The loop over the full blocks, with the number of blocks that are left.
unfoldable pub full_loop : ℕ → Lanes (List ℕ) → Registers Uint32x4 → Checked (Registers Uint32x4)
unfolding load_block_message md5_block
full_loop zero ptrs r = some r
full_loop (suc n) ptrs r = do
  m ← load_block_message ptrs
  full_loop n (λ l. drop 64 (ptrs l)) (md5_block r m)

-- `buf[off..off + bytes.len()].copy_from_slice(bytes)`, inside the buffer.
unfoldable pub copy_at : ℕ → List ℕ → List ℕ → List ℕ
copy_at off bytes buf = take off buf ++ (bytes ++ drop (off + length bytes) buf)

pub record Pads : Type 0 where
  pub pad0 : List ℕ
  pub pad1 : List ℕ

unfoldable pub pads_of : ℕ → ℕ → List ℕ → Checked Pads
unfolding copy_at to_le_bytes
pads_of len full_blocks buf = do
  let remainder = len % 64
  let bit_length = to_le_bytes 8 (len * 8 % 2 ^ 64)
  let two_blocks = leb 56 remainder
  assert (leb (full_blocks * 64) (length buf))
  let tail = drop (full_blocks * 64) buf
  assert (length tail == remainder)
  let begun = copy_at remainder (0x80 ∷ []) (copy_at 0 tail (replicate 64 0))
  some (
      if two_blocks
      then record { pad0 = begun; pad1 = copy_at 56 bit_length (replicate 64 0) }
      else record { pad0 = copy_at 56 bit_length begun; pad1 = replicate 64 0 })

unfoldable pub digests : Registers Uint32x4 → Lanes (List ℕ)
unfolding to_le_bytes
digests r = λ l.
    to_le_bytes 4 (r.aa l)
    ++ (to_le_bytes 4 (r.bb l) ++ (to_le_bytes 4 (r.cc l) ++ to_le_bytes 4 (r.dd l)))

unfoldable pub finish_lanes : ℕ → Lanes Pads → Registers Uint32x4 → Checked (Lanes (List ℕ))
unfolding load_block_message md5_block digests
finish_lanes len pads r = do
  m0 ← load_block_message (λ l. (pads l).pad0)
  let padded = md5_block r m0
  let last = load_block_message (λ l. (pads l).pad1) >>= λ m1. some (digests (md5_block padded m1))
  if leb 56 (len % 64) then last else some (digests padded)

unfoldable pub digest4_neon : Lanes (List ℕ) → ℕ → Checked (Lanes (List ℕ))
unfolding full_loop pads_of each_lane finish_lanes
digest4_neon bufs len = do
  let full_blocks = len / 64
  r ← full_loop full_blocks bufs (record {
    aa = vdupq_n_u32 a_init;
    bb = vdupq_n_u32 b_init;
    cc = vdupq_n_u32 c_init;
    dd = vdupq_n_u32 d_init;
  })
  pads ← each_lane (λ l. pads_of len full_blocks (bufs l))
  finish_lanes len pads r

unfoldable pub digest4 : Lanes (List ℕ) → Checked (Lanes (List ℕ))
unfolding digest4_neon
digest4 bufs = do
  let len = length (bufs lane0)
  assert
      ((length (bufs lane1) == len) && (length (bufs lane2) == len) && (length (bufs lane3) == len))
  digest4_neon bufs len
