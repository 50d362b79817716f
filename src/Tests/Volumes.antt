-- ===== src/Tests/Volumes.antt =====
-- Volume schemes at concrete numbers of blocks.
use par2rust.Base.{◌≡◌, arith, [], ◌∷◌}
use par2rust.Volume.{limited, explicit, sum, exponential_split, resolve_volume_sizes}
use par2rust.Volume.Splits.{Fills, exponential_split_lem}
use par2rust.Volume.Resolve.{
  is_ok, accepts, Fits, SumsTo, resolve_volume_sizes-accepts, resolve_volume_sizes-SumsTo,
}

exponential_split_lem_example :
    (sum (exponential_split 100) ≡ 100) × Fills 0 (exponential_split 100)
exponential_split_lem_example = exponential_split_lem 100 (omega arith)

explicit-Fits : Fits (limited 2 (explicit (3 ∷ 4 ∷ [])))
unfolding Fits sum
explicit-Fits = omega arith

resolve_volume_sizes-accepts_example :
    is_ok (resolve_volume_sizes (limited 2 (explicit (3 ∷ 4 ∷ []))) 7)
    ≡ accepts (limited 2 (explicit (3 ∷ 4 ∷ []))) 7
resolve_volume_sizes-accepts_example =
    resolve_volume_sizes-accepts (limited 2 (explicit (3 ∷ 4 ∷ []))) 7 explicit-Fits

resolve_volume_sizes-SumsTo_example :
    SumsTo 7 (resolve_volume_sizes (limited 2 (explicit (3 ∷ 4 ∷ []))) 7)
resolve_volume_sizes-SumsTo_example =
    resolve_volume_sizes-SumsTo (limited 2 (explicit (3 ∷ 4 ∷ []))) 7 explicit-Fits (omega arith)
