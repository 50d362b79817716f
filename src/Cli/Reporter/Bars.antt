-- ===== src/Cli/Reporter/Bars.antt =====
-- src/main.rs: the bar of the scans over several files.
use par2rust.Base.{
  ℕ, ◌+◌, ◌≡◌, refl, sym, ap, ap₂, subst, ◌∙◌, arith, List, [], ◌∷◌, ◌++◌, map, Option, none, some,
}
use par2rust.Cli.Reporter.{
  BarOps, BarLaws, ProgressEvent, scan_started, scan_progress, scan_completed, CliReporter,
  new_reporter, ensure_bar, on_event, on_events,
}

-- The events of one file: its number of slices, the counts that are reported before the last, and the last, which
-- is that number.
abbrev pub FileEvents : Type 0
FileEvents = ℕ × List ℕ

abbrev pub events_of : FileEvents → List ProgressEvent
events_of (total, counts) =
    scan_started total ∷ (map scan_progress counts ++ scan_progress total ∷ scan_completed ∷ [])

abbrev pub all_events : List FileEvents → List ProgressEvent
all_events [] = []
all_events (file ∷ files) = events_of file ++ all_events files

abbrev pub all_slices : List FileEvents → ℕ
all_slices [] = 0
all_slices (file ∷ files) = file.0 + all_slices files

module _ (ops : BarOps) (laws : BarLaws ops) where
  on_events-append :
      (r : CliReporter ops) (first second : List ProgressEvent)
      → on_events ops r (first ++ second) ≡ on_events ops (on_events ops r first) second
  unfolding on_events
  on_events-append r [] second = refl
  on_events-append r (e ∷ first) second = on_events-append (on_event ops r e) first second

  -- The bar stands at `n` of `n` slices, and so does the base of the next file.
  pub record Shows (n : ℕ) (r : CliReporter ops) : Type 0 where
    pub bar : ops.Bar
    pub shown : r.scan ≡ some bar
    pub at : ops.position bar ≡ n
    pub full : ops.bar_length bar ≡ n
    pub base : r.scan_base ≡ n

  abbrev scanning : ops.Bar → ℕ → Option ops.Bar → CliReporter ops
  scanning bar base encode = record { scan = some bar; scan_base = base; encode = encode }

  -- The counts of one file, from a bar of this length.
  counted :
      (n total : ℕ) (counts : List ℕ) (bar : ops.Bar) (encode : Option ops.Bar)
      → ops.bar_length bar ≡ n + total
      → Shows (n + total) (
          on_events ops
            (scanning bar n encode)
            (map scan_progress counts ++ scan_progress total ∷ scan_completed ∷ []))
  unfolding on_events
  counted n total [] bar encode full =
      let at = laws.position-set_position (n + total) bar in
      record {
        bar = ops.set_position (n + total) bar;
        shown = refl;
        at = at;
        full = laws.bar_length-set_position (n + total) bar ∙ full;
        base = at;
      }
  counted n total (count ∷ counts) bar encode full =
      counted n total counts (ops.set_position (n + count) bar) encode
        (laws.bar_length-set_position (n + count) bar ∙ full)

  started :
      (n total : ℕ) (r : CliReporter ops)
      → (s : Shows n r)
      → on_event ops r (scan_started total) ≡ scanning (ops.inc_length total s.bar) n r.encode
  unfolding on_event
  started n total r s =
      ap₂
        (λ (bar : Option ops.Bar) (base : ℕ). record {
          scan = some (ops.inc_length total (ensure_bar ops bar));
          scan_base = base;
          encode = r.encode;
        })
        s.shown s.base

  file_shown :
      (n : ℕ) (r : CliReporter ops) (file : FileEvents)
      → Shows n r
      → Shows (n + file.0) (on_events ops r (events_of file))
  unfolding on_events
  file_shown n r (total, counts) s =
      let rest = map scan_progress counts ++ scan_progress total ∷ scan_completed ∷ [] in
      subst (λ (after : CliReporter ops). Shows (n + total) (on_events ops after rest))
        (sym (started n total r s))
        (counted n total counts (ops.inc_length total s.bar) r.encode
          (laws.bar_length-inc_length total s.bar ∙ ap (λ (k : ℕ). k + total) s.full))

  files_shown :
      (n : ℕ) (r : CliReporter ops) (files : List FileEvents)
      → Shows n r
      → Shows (n + all_slices files) (on_events ops r (all_events files))
  unfolding on_events
  files_shown n r [] s = let same : n ≡ n + 0 = omega arith in subst (λ (k : ℕ). Shows k r) same s
  files_shown n r (file ∷ files) s =
      let sum : n + file.0 + all_slices files ≡ n + (file.0 + all_slices files) = omega arith in
      let done = on_events-append r (events_of file) (all_events files) in
      let rest =
        files_shown (n + file.0) (on_events ops r (events_of file)) files (file_shown n r file s) in
      subst (λ (k : ℕ). Shows k (on_events ops r (events_of file ++ all_events files))) sum
        (subst (Shows (n + file.0 + all_slices files)) (sym done) rest)

  -- When the events of each file come in order, its start, counts below the last in any order, the last, which is
  -- its number of slices, and its end: the bar of the scans stands at the end of all slices of all files, and the
  -- next file would start from there.
  pub all_events-Shows :
      (file : FileEvents) (files : List FileEvents)
      → Shows
          (all_slices (file ∷ files))
          (on_events ops (new_reporter ops) (all_events (file ∷ files)))
  unfolding on_events new_reporter
  all_events-Shows (total, counts) files =
      let bar = ops.inc_length total (ops.new_bar 0) in
      let full : ops.bar_length bar ≡ 0 + total =
        laws.bar_length-inc_length total (ops.new_bar 0)
        ∙ ap (λ (k : ℕ). k + total) (laws.bar_length-new_bar 0) in
      let first : Shows (0 + total) (on_events ops (new_reporter ops) (events_of (total, counts))) =
        counted 0 total counts bar none full in
      let sum : 0 + total + all_slices files ≡ total + all_slices files = omega arith in
      let done =
        on_events-append (new_reporter ops) (events_of (total, counts)) (all_events files) in
      let rest =
        files_shown (0 + total) (on_events ops (new_reporter ops) (events_of (total, counts))) files
          first in
      subst
        (λ (k : ℕ).
          Shows k (on_events ops (new_reporter ops) (all_events ((total, counts) ∷ files))))
        sum (subst (Shows (0 + total + all_slices files)) (sym done) rest)
