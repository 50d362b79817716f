-- ===== src/Base/Checked.antt =====
-- Code that may panic: `none` is a panic, a failed `assert!` or `debug_assert!` included (the model is
-- of a build with debug assertions).
use mathlib.Core.Bool.{Bool, true, false}
use mathlib.Core.Option.{Option, none, some}

abbrev pub Checked {ℓ} : Type ℓ → Type ℓ
Checked A = Option A

infixl 5 ◌>>=◌ ◌>>◌
abbrev pub ◌>>=◌ {ℓ κ} : {A : Type ℓ} {B : Type κ} → Checked A → (A → Checked B) → Checked B
none >>= f = none
some a >>= f = f a

abbrev pub ◌>>◌ {ℓ} : {B : Type ℓ} → Checked (Unit {0}) → Checked B → Checked B
m >> k = m >>= λ _. k

abbrev pub assert : Bool → Checked (Unit {0})
assert true = some tt
assert false = none
