-- ===== src/Base/Bytes.antt =====
-- Little-endian bytes of fixed-width integers.
use Prim.Native.Nat.{ℕ, zero, suc, ◌+◌, ◌*◌, ◌/◌, ◌%◌, ◌^◌, ◌<◌}
use mathlib.Core.Path.{◌≡◌, refl, ap}
use mathlib.Core.List.{List, [], ◌∷◌}
use native.Mathlib.Numerals.{towards_suc}
use native.Mathlib.Omega.{arith}
use par2rust.Base.Lists.{length, All}

-- `n.to_le_bytes()` on `w` bytes
unfoldable pub to_le_bytes : ℕ → ℕ → List ℕ
to_le_bytes zero n = []
to_le_bytes (suc w) n = n % 2 ^ 8 ∷ to_le_bytes w (n / 2 ^ 8)

unfoldable pub from_le_bytes : List ℕ → ℕ
from_le_bytes [] = 0
from_le_bytes (b ∷ bs) = b + 2 ^ 8 * from_le_bytes bs

pub length-to_le_bytes : (w n : ℕ) → length (to_le_bytes w n) ≡ w
unfolding to_le_bytes
length-to_le_bytes zero n = refl
length-to_le_bytes (suc w) n = ap suc (length-to_le_bytes w (n / 2 ^ 8))

pub to_le_bytes-All : (w n : ℕ) → All (λ b. b < 2 ^ 8) (to_le_bytes w n)
unfolding to_le_bytes
to_le_bytes-All zero n = tt
to_le_bytes-All (suc w) n = (omega arith, to_le_bytes-All w (n / 2 ^ 8))

pow_byte : (w : ℕ) → 2 ^ (8 * suc w) ≡ 2 ^ 8 * 2 ^ (8 * w)
pow_byte w = let e : 8 * suc w ≡ 8 * w + 8 = omega arith in rw e (simp towards_suc (omega arith))

-- What fits comes back.
pub from_le_bytes-to_le_bytes : (w n : ℕ) → n < 2 ^ (8 * w) → from_le_bytes (to_le_bytes w n) ≡ n
unfolding to_le_bytes from_le_bytes
from_le_bytes-to_le_bytes zero n h = omega arith
from_le_bytes-to_le_bytes (suc w) n h =
    omega (arith, from_le_bytes-to_le_bytes w (n / 2 ^ 8) (omega (arith, pow_byte w)))
