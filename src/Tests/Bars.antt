-- ===== src/Tests/Bars.antt =====
-- The bar of the scans over two files, with a bar that is a position and a length.
use par2rust.Base.{ℕ, ◌+◌, ◌≡◌, refl, [], ◌∷◌}
use par2rust.Cli.Reporter.{
  BarOps, BarLaws, scan_started, scan_progress, scan_completed, new_reporter, on_events,
}
use par2rust.Cli.Reporter.Bars.{FileEvents, all_events, all_slices, Shows, all_events-Shows}

abbrev plain : BarOps
plain = record {
  Bar = ℕ × ℕ;
  new_bar = λ n. (0, n);
  position = λ b. b.0;
  bar_length = λ b. b.1;
  set_position = λ n b. (n, b.1);
  set_length = λ n b. (b.0, n);
  inc_length = λ n b. (b.0, b.1 + n);
}

abbrev plain_laws : BarLaws plain
plain_laws = record {
  position-new_bar = λ n. refl;
  bar_length-new_bar = λ n. refl;
  position-set_position = λ n b. refl;
  bar_length-set_position = λ n b. refl;
  position-inc_length = λ n b. refl;
  bar_length-inc_length = λ n b. refl;
}

abbrev first_file : FileEvents
first_file = (40, 10 ∷ 30 ∷ 20 ∷ [])

abbrev second_file : FileEvents
second_file = (3, [])

all_events-Shows_example :
    Shows plain plain_laws
      (all_slices (first_file ∷ second_file ∷ []))
      (on_events plain (new_reporter plain) (all_events (first_file ∷ second_file ∷ [])))
all_events-Shows_example = all_events-Shows plain plain_laws first_file (second_file ∷ [])

-- An event that comes after that of the last slice takes the bar back, and the next file starts from there.
taken_back :
    (on_events plain
      (new_reporter plain)
      (scan_started 40 ∷ scan_progress 40 ∷ scan_progress 30 ∷ scan_completed ∷ [])).scan_base
    ≡ 30
unfolding on_events new_reporter
taken_back = refl
