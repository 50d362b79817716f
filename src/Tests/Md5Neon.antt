-- ===== src/Tests/Md5Neon.antt =====
-- Test vectors for the MD5 digests, and a witness for the digests in four lanes.
use par2rust.Base.{ℕ, ◌≡◌, refl, List, [], ◌∷◌, ◌++◌, length, replicate, some, none}
use par2rust.Md5Neon.Vectors.{Lane, lane0, lane1, lane2, lane3, Lanes, four}
use par2rust.Md5Neon.{digest4}
use par2rust.Md5Neon.Reference.{digest}
use par2rust.Md5Neon.Digests.{digest4-digest}

empty_digest :
    digest []
    ≡ 0xd4 ∷ 0x1d ∷ 0x8c ∷ 0xd9 ∷ 0x8f ∷ 0x00 ∷ 0xb2 ∷ 0x04 ∷ 0xe9 ∷ 0x80 ∷ 0x09 ∷ 0x98 ∷ 0xec
      ∷ 0xf8 ∷ 0x42 ∷ 0x7e ∷ []
unfolding digest
empty_digest = refl

abc_digest :
    digest (b'a' ∷ b'b' ∷ b'c' ∷ [])
    ≡ 0x90 ∷ 0x01 ∷ 0x50 ∷ 0x98 ∷ 0x3c ∷ 0xd2 ∷ 0x4f ∷ 0xb0 ∷ 0xd6 ∷ 0x96 ∷ 0x3f ∷ 0x7d ∷ 0x28
      ∷ 0xe1 ∷ 0x7f ∷ 0x72 ∷ []
unfolding digest
abc_digest = refl

-- Two blocks of padding, after no full block.
abbrev letters : Lanes (List ℕ)
letters =
    four (replicate 60 b'a') (replicate 60 b'b') (replicate 30 b'c' ++ replicate 30 b'd')
      (replicate 60 b'e')

letters_measured : (l : Lane) → length (letters l) ≡ length (letters lane0)
letters_measured lane0 = refl
letters_measured lane1 = refl
letters_measured lane2 = refl
letters_measured lane3 = refl

digest4-digest_example : digest4 letters ≡ some (λ l. digest (letters l))
digest4-digest_example = digest4-digest letters letters_measured

-- Buffers of different lengths fail the debug assertion.
unequal : digest4 (four [] [] [] (1 ∷ [])) ≡ none
unfolding digest4
unequal = refl
