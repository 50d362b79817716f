-- ===== src/Packet/Bodies.antt =====
-- The sizes and contents of the packet bodies.
use par2rust.Base.{
  ℕ, zero, suc, ◌+◌, ◌-◌, ◌*◌, ◌%◌, ◌^◌, ◌<◌, ◌≤◌, ◌≡◌, refl, ap, ◌∙◌, arith, List, [], ◌∷◌, ◌++◌,
  length, length-append, length-replicate, length-map, take, drop, replicate, append_assoc, All,
}
use par2rust.Base.Bytes.{to_le_bytes, length-to_le_bytes}
use par2rust.Format.{round_up_4}
use par2rust.Format.Framing.{round_up_4_lem}
use par2rust.Packet.Sorting.{sort_unstable-All, length-sort_unstable}
use par2rust.Packet.{
  SliceChecksum, SourceFile, resize, file_desc_body, checksum_entries, sort_unstable, concat,
  main_body, padded, push_aligned, encode_utf16, ascii_text, units_to_bytes, unicode_body,
}

drop-replicate : {A : Type 0} (k n : ℕ) (a : A) → drop k (replicate n a) ≡ replicate (n - k) a
drop-replicate zero n a = let e : n - 0 ≡ n = omega arith in rw e
drop-replicate (suc k) zero a = let e : 0 - suc k ≡ 0 = omega arith in rw e
drop-replicate (suc k) (suc n) a =
    let e : suc n - suc k ≡ n - k = omega arith in rw e (drop-replicate k n a)

take-all : {A : Type 0} (xs : List A) (n : ℕ) → length xs ≤ n → take n xs ≡ xs
take-all [] zero h = refl
take-all [] (suc n) h = refl
take-all (x ∷ xs) zero h = absurd (omega arith)
take-all (x ∷ xs) (suc n) h = ap (◌∷◌ x) (take-all xs n (omega arith))

-- Growing by `resize` appends zeros.
pub resize-grow :
    (xs : List ℕ) (n : ℕ) → length xs ≤ n → resize xs n ≡ xs ++ replicate (n - length xs) 0
unfolding resize
resize-grow xs n h = take-all (xs ++ replicate (n - length xs) 0) n (
    omega (
      arith,
      length-append xs (replicate (n - length xs) 0),
      length-replicate {A = ℕ} (n - length xs) 0,
    ))

-- The zeros that bring `n` to a multiple of 4.
unfoldable pub zeros_after : ℕ → List ℕ
zeros_after n = replicate (round_up_4 n - n) 0

pub length-zeros_after : (n : ℕ) → n + 3 < 2 ^ 64 → n + length (zeros_after n) ≡ round_up_4 n
unfolding zeros_after
length-zeros_after n h =
    omega (arith, length-replicate {A = ℕ} (round_up_4 n - n) 0, round_up_4_lem n h)

pub padded-eq : (xs : List ℕ) → padded xs ≡ xs ++ zeros_after (length xs)
unfolding padded zeros_after
padded-eq xs = rw (drop-replicate {A = ℕ} (length xs) (round_up_4 (length xs)) 0)

pub length-padded :
    (xs : List ℕ) → length xs + 3 < 2 ^ 64 → length (padded xs) ≡ round_up_4 (length xs)
length-padded xs h =
    rw (padded-eq xs)
      (omega (arith, length-append xs (zeros_after (length xs)), length-zeros_after (length xs) h))

pub length-ascii_text : (xs : List ℕ) → length (ascii_text xs) ≡ length xs
unfolding ascii_text
length-ascii_text xs = length-map xs _

-- The fields of a source file that the format fixes the size of.
pub record IsSource (src : SourceFile) : Type 0 where
  pub file_id_size : length src.file_id ≡ 16
  pub hash_full_size : length src.hash_full ≡ 16
  pub hash16k_size : length src.hash16k ≡ 16
  pub name_size : length src.name < 2 ^ 32
  pub checksum_sizes : All (λ sc. length sc.md5 ≡ 16) src.slice_checksums
  pub checksum_count : length src.slice_checksums < 2 ^ 32

-- The body as the format describes it.
pub described : SourceFile → List ℕ
described src =
    src.file_id
    ++ (src.hash_full
        ++ (src.hash16k
            ++ (to_le_bytes 8 src.length ++ (src.name ++ zeros_after (length src.name)))))

fields : SourceFile → List ℕ
fields src =
    src.file_id ++ (src.hash_full ++ (src.hash16k ++ (to_le_bytes 8 src.length ++ src.name)))

length-fields : (src : SourceFile) → IsSource src → length (fields src) ≡ 56 + length src.name
unfolding fields
length-fields src h = omega (
  arith,
  h.file_id_size,
  h.hash_full_size,
  h.hash16k_size,
  length-to_le_bytes 8 src.length,
  length-append src.file_id
      (src.hash_full ++ (src.hash16k ++ (to_le_bytes 8 src.length ++ src.name))),
  length-append src.hash_full (src.hash16k ++ (to_le_bytes 8 src.length ++ src.name)),
  length-append src.hash16k (to_le_bytes 8 src.length ++ src.name),
  length-append (to_le_bytes 8 src.length) src.name,
)

file_desc_body-fields :
    (src : SourceFile)
    → IsSource src
    → file_desc_body src ≡ fields src ++ zeros_after (length src.name)
unfolding file_desc_body zeros_after fields
file_desc_body-fields src h =
    let size = length-fields src h in
    let up = round_up_4_lem (length src.name) (omega (arith, h.name_size)) in
    let grown = resize-grow (fields src) (56 + round_up_4 (length src.name)) (omega arith) in
    let gap : 56 + round_up_4 (length src.name) - length (fields src)
        ≡ round_up_4 (length src.name) - length src.name =
      omega arith in
    grown ∙ ap (λ k. fields src ++ replicate k 0) gap

pub file_desc_body-eq-described :
    (src : SourceFile) → IsSource src → file_desc_body src ≡ described src
unfolding described fields
file_desc_body-eq-described src h = file_desc_body-fields src h ∙ simp append_assoc

pub length-file_desc_body :
    (src : SourceFile)
    → IsSource src
    → length (file_desc_body src) ≡ 56 + round_up_4 (length src.name)
length-file_desc_body src h = rw (file_desc_body-fields src h) (
    omega (
      arith,
      length-append (fields src) (zeros_after (length src.name)),
      length-fields src h,
      length-zeros_after (length src.name) (omega (arith, h.name_size)),
    ))

pub length-checksum_entries :
    (scs : List SliceChecksum)
    → All (λ sc. length sc.md5 ≡ 16) scs
    → length (checksum_entries scs) ≡ 20 * length scs
unfolding checksum_entries
length-checksum_entries [] h = refl
length-checksum_entries (sc ∷ scs) h = omega (
  arith,
  h.0,
  length-append sc.md5 (to_le_bytes 4 sc.crc32 ++ checksum_entries scs),
  length-append (to_le_bytes 4 sc.crc32) (checksum_entries scs),
  length-to_le_bytes 4 sc.crc32,
  length-checksum_entries scs h.1,
)

pub length-units_to_bytes : (us : List ℕ) → length (units_to_bytes us) ≡ 2 * length us
unfolding units_to_bytes
length-units_to_bytes [] = refl
length-units_to_bytes (u ∷ us) = omega (
  arith,
  length-append (to_le_bytes 2 u) (units_to_bytes us),
  length-to_le_bytes 2 u,
  length-units_to_bytes us,
)

-- Three rounds always align the body.
pub push_aligned_lem :
    (fuel : ℕ) (body : List ℕ)
    → (4 - length body % 4) % 4 ≤ fuel
    → (length (push_aligned fuel body) % 4 ≡ 0)
      × (length (push_aligned fuel body) ≤ length body + fuel)
unfolding push_aligned
push_aligned_lem zero body h = (omega arith, omega arith)
push_aligned_lem (suc fuel) body h =
    let size = length-append body (0 ∷ []) in
    let more : ¬ (length body % 4 ≡ 0) → _ =
      λ n. push_aligned_lem fuel (body ++ 0 ∷ []) (omega arith) in
    ground arith

pub length-concat :
    (xs : List (List ℕ)) → All (λ x. length x ≡ 16) xs → length (concat xs) ≡ 16 * length xs
unfolding concat
length-concat [] h = refl
length-concat (x ∷ xs) h = omega (arith, h.0, length-append x (concat xs), length-concat xs h.1)

pub length-encode_utf16 : (cs : List ℕ) → length (encode_utf16 cs) ≤ 2 * length cs
unfolding encode_utf16
length-encode_utf16 [] = omega arith
length-encode_utf16 (c ∷ cs) = ground (arith, length-encode_utf16 cs)

pub length-unicode_body :
    (comment link : List ℕ)
    → (length (unicode_body comment link) % 4 ≡ 0)
      × (length (unicode_body comment link) ≤ length link + 4 * length comment + 3)
unfolding unicode_body
length-unicode_body comment link =
    let units = encode_utf16 comment in
    let aligned = push_aligned_lem 3 (link ++ units_to_bytes units) (omega arith) in
    let size = length-append link (units_to_bytes units) in
    (aligned.0, omega (arith, length-units_to_bytes units, length-encode_utf16 comment))

pub length-main_body :
    (slice_size : ℕ) (ids : List (List ℕ))
    → All (λ x. length x ≡ 16) ids
    → length (main_body slice_size ids) ≡ 12 + 16 * length ids
unfolding main_body
length-main_body slice_size ids h =
    let sorted = sort_unstable ids in
    let count = length sorted % 2 ^ 32 in
    omega (
      arith,
      length-sort_unstable ids,
      length-concat sorted (sort_unstable-All (λ x. length x ≡ 16) ids h),
      length-to_le_bytes 8 slice_size,
      length-to_le_bytes 4 count,
      length-append (to_le_bytes 8 slice_size) (to_le_bytes 4 count ++ concat sorted),
      length-append (to_le_bytes 4 count) (concat sorted),
    )
