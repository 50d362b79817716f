-- ===== src/Md5Neon/Loads.antt =====
-- src/md5_mb_neon.rs: the loads of `load_block_message` and the loop over the full blocks.
use par2rust.Base.{
  ℕ, zero, suc, ◌+◌, ◌*◌, ◌<◌, ◌≤◌, ◌≡◌, refl, sym, ap, ap₂, ◌∙◌, arith, List, [], ◌∷◌, ◌++◌,
  length, take, drop, length-drop, drop-drop, Option, some,
}
use par2rust.Base.Bytes.{from_le_bytes}
use par2rust.GaloisSimd.Vectors.{byte_at}
use par2rust.Md5Neon.Vectors.{Lane, lane0, lane1, lane2, lane3, four, Lanes, Uint32x4}
use par2rust.Md5Neon.{u32x4, word, load_block_message, full_loop}
use par2rust.Md5Neon.Block.{Registers, Message, md5_block}
use par2rust.Md5Neon.Reference.{words, compress, absorb}
use par2rust.Md5Neon.Blocks.{md5_block-lane}
use par2rust.Md5Neon.Rounds.{lane}

byte_at-take : (n : ℕ) (xs : List ℕ) (i : ℕ) → i < n → byte_at (take n xs) i ≡ byte_at xs i
unfolding byte_at
byte_at-take zero xs i h = absurd (omega arith)
byte_at-take (suc n) [] i h = refl
byte_at-take (suc n) (x ∷ xs) zero h = refl
byte_at-take (suc n) (x ∷ xs) (suc i) h = byte_at-take n xs i (omega arith)

byte_at-append : (xs ys : List ℕ) (i : ℕ) → i < length xs → byte_at (xs ++ ys) i ≡ byte_at xs i
unfolding byte_at
byte_at-append [] ys i h = absurd (omega arith)
byte_at-append (x ∷ xs) ys zero h = refl
byte_at-append (x ∷ xs) ys (suc i) h = byte_at-append xs ys i (omega arith)

pub drop-joined :
    {A : Type 0} (n : ℕ) (xs ys : List A) → n ≤ length xs → drop n (xs ++ ys) ≡ drop n xs ++ ys
drop-joined zero xs ys h = refl
drop-joined (suc n) [] ys h = absurd (omega arith)
drop-joined (suc n) (x ∷ xs) ys h = drop-joined n xs ys (omega arith)

-- A word that is loaded is that of the block that begins at the pointer.
word-words :
    (src rest : List ℕ) (k : ℕ)
    → 64 ≤ length src
    → k < 16
    → word src (k * 4) ≡ words (take 64 (src ++ rest)) k
unfolding word words from_le_bytes
word-words src rest k h p =
    let e : k * 4 ≡ 4 * k = omega arith in
    let at : (i : ℕ) → i < 64 → byte_at (take 64 (src ++ rest)) i ≡ byte_at src i =
      λ i q. byte_at-take 64 (src ++ rest) i q ∙ byte_at-append src rest i (omega arith) in
    rw e (
      omega (
        arith,
        at (4 * k) (omega arith),
        at (4 * k + 1) (omega arith),
        at (4 * k + 2) (omega arith),
        at (4 * k + 3) (omega arith),
      ))

record Mixed (srcs : Lanes (List ℕ)) (r : Registers Uint32x4) : Type 0 where
  pub message : Message
  pub loads : load_block_message srcs ≡ some message
  pub mixes :
      (l : Lane) (rest : List ℕ)
      → lane l (md5_block r message) ≡ compress (words (take 64 (srcs l ++ rest))) (lane l r)

abbrev pub loaded : Lanes (List ℕ) → Message
loaded srcs = λ i.
    four (word (srcs lane0) (i * 4)) (word (srcs lane1) (i * 4)) (word (srcs lane2) (i * 4))
      (word (srcs lane3) (i * 4))

loaded-lane : (srcs : Lanes (List ℕ)) (l : Lane) (k : ℕ) → loaded srcs k l ≡ word (srcs l) (k * 4)
loaded-lane srcs lane0 k = refl
loaded-lane srcs lane1 k = refl
loaded-lane srcs lane2 k = refl
loaded-lane srcs lane3 k = refl

-- A block is loaded where each pointer has 64 bytes after it.
pub load_block_message-loaded :
    (srcs : Lanes (List ℕ))
    → ((l : Lane) → 64 ≤ length (srcs l))
    → load_block_message srcs ≡ some (loaded srcs)
unfolding load_block_message u32x4
load_block_message-loaded srcs h = ground (arith, h lane0, h lane1, h lane2, h lane3)

pub mixed :
    (srcs : Lanes (List ℕ)) (r : Registers Uint32x4)
    → ((l : Lane) → 64 ≤ length (srcs l))
    → (l : Lane) (rest : List ℕ)
    → lane l (md5_block r (loaded srcs)) ≡ compress (words (take 64 (srcs l ++ rest))) (lane l r)
mixed srcs r h l rest =
    md5_block-lane l (loaded srcs) (words (take 64 (srcs l ++ rest))) r
      (λ k p. loaded-lane srcs l k ∙ word-words (srcs l) rest k (h l) p)

-- The registers after blocks of each lane, whatever follows them.
pub record Absorbed (n : ℕ) (ptrs : Lanes (List ℕ)) (r : Registers Uint32x4)
    (after : Option (Registers Uint32x4)) : Type 0 where
  pub registers : Registers Uint32x4
  pub returns : after ≡ some registers
  pub absorbs : (l : Lane) (rest : List ℕ) → lane l registers ≡ absorb n (ptrs l ++ rest) (lane l r)

pub full_loop-Absorbed :
    (n : ℕ) (ptrs : Lanes (List ℕ)) (r : Registers Uint32x4)
    → ((l : Lane) → n * 64 ≤ length (ptrs l))
    → Absorbed n ptrs r (full_loop n ptrs r)
unfolding full_loop absorb
full_loop-Absorbed zero ptrs r h = record {
  registers = r;
  returns = refl;
  absorbs = λ l rest. refl;
}
full_loop-Absorbed (suc n) ptrs r h =
    let next : Lanes (List ℕ) = λ l. drop 64 (ptrs l) in
    let room : (l : Lane) → 64 ≤ length (ptrs l) = λ l. omega (arith, h l) in
    let ih =
      full_loop-Absorbed n next (md5_block r (loaded ptrs))
        (λ l. omega (arith, h l, length-drop {0} 64 (ptrs l))) in
    record {
      registers = ih.registers;
      returns = rw (load_block_message-loaded ptrs room) ih.returns;
      absorbs = λ l rest.
          ih.absorbs l rest
          ∙ ap₂ (λ (bs : List ℕ) (w : Registers ℕ). absorb n bs w)
              (sym (drop-joined 64 (ptrs l) rest (room l))) (mixed ptrs r room l rest);
    }

-- Blocks are absorbed one part after the other.
pub absorb-split :
    (n k q : ℕ) (bytes : List ℕ) (r : Registers ℕ)
    → q ≡ n + k
    → absorb q bytes r ≡ absorb k (drop (n * 64) bytes) (absorb n bytes r)
unfolding absorb
absorb-split zero k q bytes r e = let f : q ≡ k = omega arith in rw f
absorb-split (suc n) k zero bytes r e = absurd (omega arith)
absorb-split (suc n) k (suc q) bytes r e =
    let more : 64 + n * 64 ≡ suc n * 64 = omega arith in
    absorb-split n k q (drop 64 bytes) (compress (words (take 64 bytes)) r) (omega arith)
    ∙ ap
        (λ (bs : List ℕ).
          absorb k bs (absorb n (drop 64 bytes) (compress (words (take 64 bytes)) r)))
        (drop-drop 64 (n * 64) bytes ∙ ap (λ (j : ℕ). drop j bytes) more)
