-- ===== src/Error.antt =====
-- src/error.rs: what can go wrong, and a call that may end with such an error. A path is a list of bytes;
-- what the operating system reports is not told apart.
use par2rust.Base.{ℕ, List}
use par2rust.Volume.{InvalidVolumeScheme}

pub data Par2Error : Type 0 where
  io : Par2Error
  invalid_slice_size : ℕ → Par2Error
  invalid_file_name : List ℕ → Par2Error
  no_input_files : Par2Error
  empty_file : List ℕ → Par2Error
  too_many_files : ℕ → Par2Error
  too_many_recovery_blocks : ℕ → Par2Error
  too_many_input_blocks : (count slice_size suggested : ℕ) → Par2Error
  invalid_volume_scheme : InvalidVolumeScheme → Par2Error

-- `Result<A>` of the crate and of `std::io`.
pub data Attempt (A : Type 0) : Type 0 where
  gives : A → Attempt A
  fails : Par2Error → Attempt A

-- `?`
unfoldable pub and_then : {A B : Type 0} → Attempt A → (A → Attempt B) → Attempt B
and_then (gives a) f = f a
and_then (fails e) f = fails e
