-- ===== src/Tests/Progress.antt =====
-- Two workers that finish a scan of two slices. The exchange and the event are two steps, so the event of the
-- later count can come first: the events do not ascend.
use par2rust.Base.{ℕ, ◌<◌, ◌≤◌, ◌≡◌, refl, arith, [], ◌∷◌}
use par2rust.Source.Progress.{
  idle, loading, looping, publishing, after_count, Shared, counts, loads, exchanges, publishes,
  moves, Reachable, start, next,
}
use par2rust.Source.Progress.Events.{occurs, Reachable-events_once, finished-last_event}

abbrev finished : Shared
finished = record { done = 2; last_emitted = 2; events = 1 ∷ 2 ∷ [] }

-- The newest event comes first: 1 was published after 2.
finished-Reachable : Reachable 2 1 2 (record { shared = finished; workers = idle ∷ idle ∷ [] })
unfolding after_count
finished-Reachable =
    let s0 : Reachable 2 1 2 (record {
      shared = record { done = 0; last_emitted = 0; events = [] };
      workers = idle ∷ idle ∷ [];
    }) =
      start in
    let s1 : Reachable 2 1 2 (record {
      shared = record { done = 1; last_emitted = 0; events = [] };
      workers = loading 1 ∷ idle ∷ [];
    }) =
      next s0 (moves [] (idle ∷ []) (counts (omega arith))) in
    let s2 : Reachable 2 1 2 (record {
      shared = record { done = 1; last_emitted = 0; events = [] };
      workers = looping 1 0 ∷ idle ∷ [];
    }) =
      next s1 (moves [] (idle ∷ []) loads) in
    let s3 : Reachable 2 1 2 (record {
      shared = record { done = 1; last_emitted = 1; events = [] };
      workers = publishing 1 ∷ idle ∷ [];
    }) =
      next s2 (moves [] (idle ∷ []) (exchanges (omega arith))) in
    let s4 : Reachable 2 1 2 (record {
      shared = record { done = 2; last_emitted = 1; events = [] };
      workers = publishing 1 ∷ loading 2 ∷ [];
    }) =
      next s3 (moves (publishing 1 ∷ []) [] (counts (omega arith))) in
    let s5 : Reachable 2 1 2 (record {
      shared = record { done = 2; last_emitted = 1; events = [] };
      workers = publishing 1 ∷ looping 2 1 ∷ [];
    }) =
      next s4 (moves (publishing 1 ∷ []) [] loads) in
    let s6 : Reachable 2 1 2 (record {
      shared = record { done = 2; last_emitted = 2; events = [] };
      workers = publishing 1 ∷ publishing 2 ∷ [];
    }) =
      next s5 (moves (publishing 1 ∷ []) [] (exchanges (omega arith))) in
    let s7 : Reachable 2 1 2 (record {
      shared = record { done = 2; last_emitted = 2; events = 2 ∷ [] };
      workers = publishing 1 ∷ idle ∷ [];
    }) =
      next s6 (moves (publishing 1 ∷ []) [] publishes) in
    next s7 (moves [] (idle ∷ []) publishes)

Reachable-events_once_example :
    (2 ≤ 2) × ((v : ℕ) → occurs v (1 ∷ 2 ∷ []) ≤ 1) × ((v : ℕ) → 2 < v → occurs v (1 ∷ 2 ∷ []) ≡ 0)
Reachable-events_once_example =
    Reachable-events_once 2 1 2 (record { shared = finished; workers = idle ∷ idle ∷ [] })
      finished-Reachable

finished-last_event_example : occurs 2 (1 ∷ 2 ∷ []) ≡ 1
finished-last_event_example =
    finished-last_event 2 1 2 2 finished (omega arith) finished-Reachable refl
