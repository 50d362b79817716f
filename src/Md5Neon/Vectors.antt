-- ===== src/Md5Neon/Vectors.antt =====
-- The NEON instructions that src/md5_mb_neon.rs uses, on vectors of four 32-bit words.
use par2rust.Base.{ℕ, ◌+◌, ◌-◌, ◌*◌, ◌/◌, ◌%◌, ◌^◌, ◌≡◌, refl, bit_and, bit_or, bit_xor, some}
use par2rust.Base.Checked.{Checked, ◌>>=◌}
use mathlib.Core.Path.{fun_ext}

pub data Lane : Type 0 where
  lane0 : Lane
  lane1 : Lane
  lane2 : Lane
  lane3 : Lane

-- An array of four, one for each lane; `uint32x4_t` is one of words.
abbrev pub Lanes : Type 0 → Type 0
Lanes A = Lane → A

abbrev pub Uint32x4 : Type 0
Uint32x4 = Lanes ℕ

abbrev pub four : {A : Type 0} → A → A → A → A → Lanes A
four a b c d lane0 = a
four a b c d lane1 = b
four a b c d lane2 = c
four a b c d lane3 = d

-- A loop over the lanes that may panic.
unfoldable pub each_lane : {A : Type 0} → (Lane → Checked A) → Checked (Lanes A)
each_lane f =
    f lane0 >>= λ a. f lane1 >>= λ b. f lane2 >>= λ c. f lane3 >>= λ d. some (four a b c d)

four-eta :
    {A : Type 0} (g : Lanes A) (l : Lane) → four (g lane0) (g lane1) (g lane2) (g lane3) l ≡ g l
four-eta g lane0 = refl
four-eta g lane1 = refl
four-eta g lane2 = refl
four-eta g lane3 = refl

pub each_lane-some :
    {A : Type 0} (f : Lane → Checked A) (g : Lanes A)
    → ((l : Lane) → f l ≡ some (g l))
    → each_lane f ≡ some g
unfolding each_lane
each_lane-some f g h = rw (h lane0, h lane1, h lane2, h lane3) (λ i. some (fun_ext (four-eta g) i))

abbrev pub vdupq_n_u32 : ℕ → Uint32x4
vdupq_n_u32 w = λ l. w

abbrev pub vaddq_u32 : Uint32x4 → Uint32x4 → Uint32x4
vaddq_u32 a b = λ l. (a l + b l) % 2 ^ 32

abbrev pub vorrq_u32 : Uint32x4 → Uint32x4 → Uint32x4
vorrq_u32 a b = λ l. bit_or (a l) (b l)

abbrev pub veorq_u32 : Uint32x4 → Uint32x4 → Uint32x4
veorq_u32 a b = λ l. bit_xor (a l) (b l)

abbrev pub vmvnq_u32 : Uint32x4 → Uint32x4
vmvnq_u32 a = λ l. 2 ^ 32 - 1 - a l

-- Picks each bit of `x` where the mask has a 1, and of `y` where it has a 0.
abbrev pub vbslq_u32 : Uint32x4 → Uint32x4 → Uint32x4 → Uint32x4
vbslq_u32 mask x y = λ l. bit_or (bit_and (mask l) (x l)) (bit_and (2 ^ 32 - 1 - mask l) (y l))

abbrev pub vshlq_n_u32 : ℕ → Uint32x4 → Uint32x4
vshlq_n_u32 s a = λ l. a l * 2 ^ s % 2 ^ 32

abbrev pub vshrq_n_u32 : ℕ → Uint32x4 → Uint32x4
vshrq_n_u32 s a = λ l. a l / 2 ^ s
