-- ===== src/Encode/Recovery.antt =====
-- A recovery buffer holds the combination of the slices that its row of the matrix prescribes.
use par2rust.Base.{
  ℕ, zero, suc, ◌+◌, ◌%◌, ◌^◌, ◌<◌, ◌≤◌, ◌≡◌, refl, sym, ap, ◌∙◌, arith, List, [], ◌∷◌, length,
  length-replicate, replicate, get_elem?, All, some,
}
use par2rust.Buffer.{IsBytes, symbols}
use par2rust.Buffer.Symbols.{IsCall, add_product}
use par2rust.Galois.{gf_pow, field_limit}
use par2rust.ReedSolomon.{RsEncoder, new, coefficient}
use par2rust.ReedSolomon.Order.{HasFullOrder}
use par2rust.ReedSolomon.Matrix.{IsEncoder, new-IsEncoder, get_elem?-count_from, gf_pow-lt}
use par2rust.Encode.{Kernel, accumulate_rows, encode_slices, encode_all_recovery_blocks}

-- A buffer of `size` bytes.
unfoldable pub IsBuffer : ℕ → List ℕ → Type 0
IsBuffer size buffer = IsBytes buffer × (length buffer ≡ size)

-- The sum of `base ^ row · slice` over the slices, added to `acc` symbol by symbol.
unfoldable pub combination : List ℕ → List (List ℕ) → ℕ → List ℕ → List ℕ
combination (b ∷ bases) (slice ∷ slices) row acc =
    combination bases slices row (add_product (gf_pow b row) (symbols slice) acc)
combination _ _ row acc = acc

-- Buffers whose symbols are those of the rows from `row` on.
unfoldable pub HoldsRows : (ℕ → List ℕ) → ℕ → ℕ → List (List ℕ) → Type 0
HoldsRows rows size row [] = Unit
HoldsRows rows size row (buffer ∷ buffers) =
    (symbols buffer ≡ rows row) × IsBuffer size buffer × HoldsRows rows size (row + 1) buffers

coefficient-at :
    (n m : ℕ) (rs : RsEncoder) (b row i : ℕ)
    → IsEncoder n 0 m rs
    → get_elem? rs.input_bases i ≡ some b
    → row < m
    → coefficient rs row i ≡ some (gf_pow b row)
unfolding coefficient
coefficient-at n m rs b row i h e p =
    let same : 0 + row ≡ row = omega arith in
    let at = get_elem?-count_from m 0 row p in rw (e, h.exponents, at, same)

module _ (kernel : Kernel) where
  accumulate_rows_lem :
      (n m size : ℕ) (rs : RsEncoder) (b i : ℕ) (slice : List ℕ) (rows : ℕ → List ℕ)
      → IsEncoder n 0 m rs
      → get_elem? rs.input_bases i ≡ some b
      → HasFullOrder b
      → size % 2 ≡ 0
      → m ≤ field_limit
      → IsBuffer size slice
      → (row : ℕ) (buffers : List (List ℕ)) → row + length buffers ≤ m
      → HoldsRows rows size row buffers
      → (out : List (List ℕ)) × (accumulate_rows kernel rs i slice row buffers ≡ some out)
        × (length out ≡ length buffers)
        × HoldsRows (λ r. add_product (gf_pow b r) (symbols slice) (rows r)) size row out
  unfolding accumulate_rows HoldsRows IsBuffer
  accumulate_rows_lem n m size rs b i slice rows h at order even le s row [] fits holds =
      ([], refl, refl, tt)
  accumulate_rows_lem n m size rs b i slice rows h at order even le s row (buffer ∷ buffers) fits
        holds =
      let call : IsCall (gf_pow b row) slice buffer = record {
        symbol = gf_pow-lt b row order (omega arith);
        lengths = s.1 ∙ sym holds.1.1;
        even = omega (arith, s.1);
        input_bytes = s.0;
        output_bytes = holds.1.0;
      } in
      let done = kernel.adds (gf_pow b row) slice buffer call in
      let (out, e, size_out, rest) =
        accumulate_rows_lem n m size rs b i slice rows h at order even le s (row + 1) buffers
          (omega arith) holds.2 in
      (
        done.out ∷ out,
        rw (coefficient-at n m rs b row i h at (omega arith), done.returns, e),
        omega arith,
        (
          done.adds ∙ ap (add_product (gf_pow b row) (symbols slice)) holds.0,
          (done.bytes, done.same_length ∙ holds.1.1),
          rest,
        ),
      )

  encode_slices_lem :
      (n m size : ℕ) (rs : RsEncoder)
      → IsEncoder n 0 m rs
      → size % 2 ≡ 0
      → m ≤ field_limit
      → (slices : List (List ℕ)) (bases : List ℕ) (i : ℕ) (rows : ℕ → List ℕ)
      → length bases ≡ length slices
      → All HasFullOrder bases
      → ((j : ℕ) → get_elem? rs.input_bases (i + j) ≡ get_elem? bases j)
      → All (IsBuffer size) slices
      → (buffers : List (List ℕ)) → length buffers ≡ m
      → HoldsRows rows size 0 buffers
      → (out : List (List ℕ)) × (encode_slices kernel rs i slices buffers ≡ some out)
        × (length out ≡ m)
        × HoldsRows (λ r. combination bases slices r (rows r)) size 0 out
  unfolding encode_slices combination
  encode_slices_lem n m size rs h even le [] [] i rows same orders at s buffers count holds =
      (buffers, refl, count, holds)
  encode_slices_lem n m size rs h even le [] (b ∷ bases) i rows same orders at s buffers count
        holds =
      absurd (omega arith)
  encode_slices_lem n m size rs h even le (slice ∷ slices) [] i rows same orders at s buffers count
        holds =
      absurd (omega arith)
  encode_slices_lem n m size rs h even le (slice ∷ slices) (b ∷ bases) i rows same orders at s
        buffers count holds =
      let here : i ≡ i + 0 = omega arith in
      let (mid, e, size_mid, holds_mid) =
        accumulate_rows_lem n m size rs b i slice rows h (ap (get_elem? rs.input_bases) here ∙ at 0)
          orders.0 even le s.0 0 buffers (omega arith) holds in
      let shift : (j : ℕ) → i + 1 + j ≡ i + suc j = λ j. omega arith in
      let (out, f, size_out, holds_out) =
        encode_slices_lem n m size rs h even le slices bases (i + 1)
          (λ r. add_product (gf_pow b r) (symbols slice) (rows r)) (omega arith) orders.1
          (λ j. ap (get_elem? rs.input_bases) (shift j) ∙ at (suc j)) s.1 mid (omega arith)
          holds_mid in
      (out, rw e f, size_out, holds_out)

pub replicate-IsBytes : (n : ℕ) → IsBytes (replicate n 0)
replicate-IsBytes zero = tt
replicate-IsBytes (suc n) = (omega arith, replicate-IsBytes n)

zero_rows :
    (size m row : ℕ)
    → HoldsRows (λ r. symbols (replicate size 0)) size row (replicate m (replicate size 0))
unfolding HoldsRows IsBuffer
zero_rows size zero row = tt
zero_rows size (suc m) row =
    (refl, (replicate-IsBytes size, length-replicate size 0), zero_rows size m (row + 1))

-- The pass with an encoder that `new` returns.
pub encode_with-HoldsRows :
    (kernel : Kernel) (slices : List (List ℕ)) (size m : ℕ) (rs : RsEncoder)
    → All (IsBuffer size) slices
    → size % 2 ≡ 0
    → length slices ≤ 32768
    → m ≤ field_limit
    → new (length slices) 0 m ≡ some rs
    → IsEncoder (length slices) 0 m rs
    → (out : List (List ℕ)) × (encode_all_recovery_blocks kernel slices size m ≡ some out)
      × (length out ≡ m)
      × HoldsRows (λ r. combination rs.input_bases slices r (symbols (replicate size 0))) size 0 out
unfolding encode_all_recovery_blocks
encode_with-HoldsRows kernel slices size m rs s even few le made h =
    let n = length slices in
    let whole : n % 2 ^ 32 ≡ n = omega arith in
    let at : (j : ℕ) → get_elem? rs.input_bases (0 + j) ≡ get_elem? rs.input_bases j =
      λ j. let e : 0 + j ≡ j = omega arith in ap (get_elem? rs.input_bases) e in
    let (out, e, size_out, holds) =
      encode_slices_lem kernel n m size rs h even le slices rs.input_bases 0
        (λ r. symbols (replicate size 0)) h.size h.orders at s (replicate m (replicate size 0))
        (length-replicate m (replicate size 0)) (zero_rows size m 0) in
    (out, rw (whole, made) e, size_out, holds)

-- For at most 32768 slices of bytes of one even size and at most 65535 recovery blocks the pass
-- returns as many buffers of that size as recovery blocks. With the bases of the encoder, one for
-- each slice, pairwise different and of full order, buffer `r` holds the sum over the slices of the
-- base to the power of `r` times the slice.
pub encode_all_recovery_blocks-HoldsRows :
    (kernel : Kernel) (slices : List (List ℕ)) (size m : ℕ)
    → All (IsBuffer size) slices
    → size % 2 ≡ 0
    → length slices ≤ 32768
    → m ≤ field_limit
    → (rs : RsEncoder) × (out : List (List ℕ)) × IsEncoder (length slices) 0 m rs
      × (encode_all_recovery_blocks kernel slices size m ≡ some out)
      × (length out ≡ m)
      × HoldsRows (λ r. combination rs.input_bases slices r (symbols (replicate size 0))) size 0 out
encode_all_recovery_blocks-HoldsRows kernel slices size m s even few le =
    let (rs, made, h) = new-IsEncoder (length slices) 0 m few (omega arith) in
    let (out, e, size_out, holds) =
      encode_with-HoldsRows kernel slices size m rs s even few le made h in
    (rs, out, h, e, size_out, holds)
