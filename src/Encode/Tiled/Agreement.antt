-- ===== src/Encode/Tiled/Agreement.antt =====
-- src/creator.rs: the pass in blocks beside the pass over whole slices.
use par2rust.Base.{
  ℕ, zero, suc, ◌+◌, ◌-◌, ◌%◌, ◌^◌, ◌<◌, ◌≤◌, ◌≡◌, refl, sym, ap, ◌∙◌, inl, inr, arith, List, [],
  ◌∷◌, length, map, leb, Bool-cases, Option-cases, All, Option, none, some, replicate,
  length-replicate, ◌&&◌, ◌==◌,
}
use par2rust.Buffer.Symbols.{
  IsCall, IsCall-SameShape, product_bytes, length-xor_pairs, IsBytes-xor_pairs,
}
use par2rust.Galois.{gf_pow, field_limit}
use par2rust.ReedSolomon.{RsEncoder}
use par2rust.ReedSolomon.Matrix.{IsEncoder, new-IsEncoder, coefficient-eq-gf_pow, gf_pow-lt}
use par2rust.Encode.{Kernel, accumulate_rows, encode_slices, encode_all_recovery_blocks}
use par2rust.Encode.Recovery.{IsBuffer, replicate-IsBytes}
use par2rust.Cli.{parse}
use par2rust.Encode.Tiled.{
  l2_block_bytes_opt, coefficients, blocks_from, accumulate_tiled, encode_tiled,
  encode_all_recovery_blocks_tiled,
}
use par2rust.Encode.Tiled.Rows.{Row, buffer, completed, IsRow, gf_mul_xor-eq}
use par2rust.Encode.Tiled.Blocks.{blocks_from-completed}

-- Whole slices, or blocks of a positive even size.
abbrev IsTile : Option ℕ → Type 0
IsTile none = Unit
IsTile (some n) = (0 < n) × (n % 2 ≡ 0)

-- What both passes do with a slice: the rows with their coefficients, and the buffers that come out.
record Made (size : ℕ) (rs : RsEncoder) (i r : ℕ) (slice : List ℕ) (buffers : List (List ℕ))
    : Type 0 where
  pub rows : List Row
  pub coeffs : coefficients rs i r buffers ≡ some (map (λ row. row.coeff) rows)
  pub same : map buffer rows ≡ buffers
  pub ready : All (IsRow 0 (length slice)) rows
  pub returns :
      (kernel : Kernel)
      → accumulate_rows kernel rs i slice r buffers ≡ some (map (completed slice) rows)
  pub kept : All (IsBuffer size) (map (completed slice) rows)
  pub count : length (map (completed slice) rows) ≡ length buffers

module _ (n m size : ℕ) (rs : RsEncoder) (encoder : IsEncoder n 0 m rs) (even : size % 2 ≡ 0)
    (few : m ≤ field_limit) where
  made :
      (i : ℕ) (slice : List ℕ)
      → i < n
      → IsBuffer size slice
      → (r : ℕ) (buffers : List (List ℕ)) → r + length buffers ≤ m
      → All (IsBuffer size) buffers
      → Made size rs i r slice buffers
  unfolding accumulate_rows coefficients IsBuffer
  made i slice p s r [] fits h = record {
    rows = [];
    coeffs = refl;
    same = refl;
    ready = tt;
    returns = λ kernel. refl;
    kept = tt;
    count = refl;
  }
  made i slice p s r (out ∷ buffers) fits h =
      let (b, _, order, found, _) =
        coefficient-eq-gf_pow n 0 m rs encoder (omega arith) r i (omega arith) p in
      let coeff = gf_pow b (0 + r) in
      let small = gf_pow-lt b (0 + r) order (omega arith) in
      let length_slice = s.1 in
      let length_out = h.0.1 in
      let call : IsCall coeff slice out = record {
        symbol = small;
        lengths = length_slice ∙ sym length_out;
        even = omega arith;
        input_bytes = s.0;
        output_bytes = h.0.0;
      } in
      let shape = IsCall-SameShape call in
      let rest = made i slice p s (r + 1) buffers (omega arith) h.1 in
      let others = rest.coeffs in
      let others_count = rest.count in
      record {
        rows = record { coeff = coeff; finished = []; rest = out } ∷ rest.rows;
        coeffs = rw (found, others);
        same = ap (◌∷◌ out) rest.same;
        ready = (
          record {
            symbol = small;
            done = refl;
            length_rest = length_out ∙ sym length_slice;
            bytes = h.0.0;
          },
          rest.ready,
        );
        returns =
            λ kernel. rw (found, gf_mul_xor-eq kernel coeff slice out call, rest.returns kernel);
        kept = (
          (
            IsBytes-xor_pairs coeff small shape s.0 h.0.0,
            length-xor_pairs (product_bytes coeff) shape ∙ length_out,
          ),
          rest.kept,
        );
        count = omega arith;
      }

  -- One slice, in blocks or at once: the buffers that come out are the same.
  accumulate_tiled-returns :
      (kernel : Kernel) (block_opt : Option ℕ)
      → IsTile block_opt
      → (i : ℕ) (slice : List ℕ) (buffers : List (List ℕ)) → IsBuffer size slice
      → (one : Made size rs i 0 slice buffers)
      → accumulate_tiled kernel block_opt rs i slice buffers ≡ some (map (completed slice) one.rows)
  unfolding accumulate_tiled IsBuffer
  accumulate_tiled-returns kernel none tile i slice buffers s one = one.returns kernel
  accumulate_tiled-returns kernel (some block_bytes) tile i slice buffers s one =
      let length_slice = s.1 in
      let coeffs = one.coeffs in
      let pass =
        blocks_from kernel (length slice) block_bytes slice 0 (map (λ row. row.coeff) one.rows) in
      let tiled : pass buffers ≡ some (map (completed slice) one.rows) =
        ap pass (sym one.same)
        ∙ blocks_from-completed kernel block_bytes tile.0 tile.1 slice (length slice) 0 slice
            one.rows refl (omega arith) (omega arith) (omega arith) s.0 one.ready in
      rw coeffs tiled

  encode_tiled-encode_slices :
      (kernel other : Kernel) (block_opt : Option ℕ)
      → IsTile block_opt
      → (i : ℕ) (slices buffers : List (List ℕ)) → i + length slices ≤ n
      → All (IsBuffer size) slices
      → length buffers ≡ m
      → All (IsBuffer size) buffers
      → encode_tiled kernel block_opt rs i slices buffers ≡ encode_slices other rs i slices buffers
  unfolding encode_tiled encode_slices
  encode_tiled-encode_slices kernel other block_opt tile i [] buffers fits s count h = refl
  encode_tiled-encode_slices kernel other block_opt tile i (slice ∷ slices) buffers fits s count h =
      let one = made i slice (omega arith) s.0 0 buffers (omega arith) h in
      rw (accumulate_tiled-returns kernel block_opt tile i slice buffers s.0 one, one.returns other)
        (encode_tiled-encode_slices kernel other block_opt tile (i + 1) slices
          (map (completed slice) one.rows) (omega arith) s.1 (one.count ∙ count) one.kept)

l2_block_bytes_opt-IsTile : (setting : Option (List ℕ)) → IsTile (l2_block_bytes_opt setting)
unfolding l2_block_bytes_opt
l2_block_bytes_opt-IsTile none = tt
l2_block_bytes_opt-IsTile (some s) = elim (Option-cases (parse (2 ^ 64 - 1) s)) [
  | inl refused ↦ rw refused tt
  | inr (n, parsed) ↦ elim (Bool-cases (leb 128 n && (n % 128 == 0))) [
    | inl sized ↦ rw (parsed, sized) (ground arith)
    | inr odd ↦ rw (parsed, odd) tt
  ]
]

zero_buffers : (size m : ℕ) → All (IsBuffer size) (replicate m (replicate size 0))
unfolding IsBuffer
zero_buffers size zero = tt
zero_buffers size (suc m) = ((replicate-IsBytes size, length-replicate size 0), zero_buffers size m)

-- For at most 32768 slices of bytes of one even size and at most 65535 recovery blocks: whatever
-- `PAR2RUST_L2_BLOCK_BYTES` is set to, and whichever kernels two machines use, the pass in blocks of that size
-- gives the same buffers as the pass over whole slices.
pub encode_all_recovery_blocks_tiled-agrees :
    (kernel other : Kernel) (setting : Option (List ℕ)) (slices : List (List ℕ)) (size m : ℕ)
    → All (IsBuffer size) slices
    → size % 2 ≡ 0
    → length slices ≤ 32768
    → m ≤ field_limit
    → encode_all_recovery_blocks_tiled kernel (l2_block_bytes_opt setting) slices size m
      ≡ encode_all_recovery_blocks other slices size m
unfolding encode_all_recovery_blocks_tiled encode_all_recovery_blocks
encode_all_recovery_blocks_tiled-agrees kernel other setting slices size m s even few le =
    let n = length slices in
    let whole : n % 2 ^ 32 ≡ n = omega arith in
    let (rs, begun, h) = new-IsEncoder n 0 m few (omega arith) in
    rw (whole, begun)
      (encode_tiled-encode_slices n m size rs h even le kernel other (l2_block_bytes_opt setting)
        (l2_block_bytes_opt-IsTile setting) 0 slices (replicate m (replicate size 0)) (omega arith)
        s (length-replicate m (replicate size 0)) (zero_buffers size m))
