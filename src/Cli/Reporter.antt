-- ===== src/Cli/Reporter.antt =====
-- src/main.rs: `CliReporter`, which turns events into two progress bars. A bar is the crate indicatif's and a parameter,
-- `BarOps`, with what is documented of it in `BarLaws`. Counts of slices stay below 2^64.
pub mod Bars
use par2rust.Base.{ℕ, ◌+◌, ◌≡◌, List, [], ◌∷◌, Option, none, some}

pub record BarOps : Type 1 where
  pub Bar : Type 0
  pub new_bar : ℕ → Bar
  pub position : Bar → ℕ
  pub bar_length : Bar → ℕ
  pub set_position : ℕ → Bar → Bar
  pub set_length : ℕ → Bar → Bar
  pub inc_length : ℕ → Bar → Bar

pub record BarLaws (ops : BarOps) : Type 0 where
  pub position-new_bar : (n : ℕ) → ops.position (ops.new_bar n) ≡ 0
  pub bar_length-new_bar : (n : ℕ) → ops.bar_length (ops.new_bar n) ≡ n
  pub position-set_position : (n : ℕ) (b : ops.Bar) → ops.position (ops.set_position n b) ≡ n
  pub bar_length-set_position :
      (n : ℕ) (b : ops.Bar) → ops.bar_length (ops.set_position n b) ≡ ops.bar_length b
  pub position-inc_length :
      (n : ℕ) (b : ops.Bar) → ops.position (ops.inc_length n b) ≡ ops.position b
  pub bar_length-inc_length :
      (n : ℕ) (b : ops.Bar) → ops.bar_length (ops.inc_length n b) ≡ ops.bar_length b + n

-- Events without the texts that are shown.
pub data ProgressEvent : Type 0 where
  scan_started : (total_slices : ℕ) → ProgressEvent
  scan_progress : (slices_done : ℕ) → ProgressEvent
  scan_completed : ProgressEvent
  encode_started : (input_blocks : ℕ) → ProgressEvent
  encode_progress : (input_block_done : ℕ) → ProgressEvent
  encode_completed : ProgressEvent
  index_written : ProgressEvent
  volume_written : ProgressEvent

module _ (ops : BarOps) where
  pub record CliReporter : Type 0 where
    pub scan : Option ops.Bar
    pub scan_base : ℕ
    pub encode : Option ops.Bar

  unfoldable pub new_reporter : CliReporter
  new_reporter = record { scan = none; scan_base = 0; encode = none }

  unfoldable pub ensure_bar : Option ops.Bar → ops.Bar
  ensure_bar none = ops.new_bar 0
  ensure_bar (some bar) = bar

  unfoldable pub positioned : ℕ → Option ops.Bar → Option ops.Bar
  positioned n none = none
  positioned n (some bar) = some (ops.set_position n bar)

  unfoldable pub base_after : ℕ → Option ops.Bar → ℕ
  base_after base none = base
  base_after base (some bar) = ops.position bar

  unfoldable pub on_event : CliReporter → ProgressEvent → CliReporter
  unfolding ensure_bar positioned base_after
  on_event r (scan_started total_slices) = record {
    scan = some (ops.inc_length total_slices (ensure_bar r.scan));
    scan_base = r.scan_base;
    encode = r.encode;
  }
  on_event r (scan_progress slices_done) = record {
    scan = positioned (r.scan_base + slices_done) r.scan;
    scan_base = r.scan_base;
    encode = r.encode;
  }
  on_event r scan_completed = record {
    scan = r.scan;
    scan_base = base_after r.scan_base r.scan;
    encode = r.encode;
  }
  on_event r (encode_started input_blocks) = record {
    scan = r.scan;
    scan_base = r.scan_base;
    encode = some (ops.set_position 0 (ops.set_length input_blocks (ensure_bar r.encode)));
  }
  on_event r (encode_progress input_block_done) = record {
    scan = r.scan;
    scan_base = r.scan_base;
    encode = positioned input_block_done r.encode;
  }
  on_event r encode_completed = r
  on_event r index_written = r
  on_event r volume_written = r

  unfoldable pub on_events : CliReporter → List ProgressEvent → CliReporter
  unfolding on_event
  on_events r [] = r
  on_events r (event ∷ events) = on_events (on_event r event) events
