-- ===== src/Source/Progress.antt =====
-- src/source.rs and src/progress.rs: the progress events of a scan whose workers share two counters. A worker
-- counts a slice, and for some counts publishes an event if it is the first to raise `last_emitted` to that
-- count. Each access to a counter and each event is a step, and the steps of the workers come in any order.
pub mod Events
use par2rust.Base.{
  ℕ, zero, suc, ◌+◌, ◌/◌, ◌%◌, ◌<◌, ◌≤◌, List, [], ◌∷◌, ◌++◌, replicate, max, Bool, ◌||◌, ◌==◌,
  if◌then◌else◌,
}

unfoldable pub tick_stride : ℕ → ℕ
tick_stride total = max (total / 100) 1

-- Where a worker is: between slices, before it loads `last_emitted`, in the loop with the value that it has
-- seen, or about to publish.
pub data Worker : Type 0 where
  idle : Worker
  loading : ℕ → Worker
  looping : (d prev : ℕ) → Worker
  publishing : ℕ → Worker

pub record Shared : Type 0 where
  pub done : ℕ
  pub last_emitted : ℕ
  pub events : List ℕ

unfoldable pub after_count : ℕ → ℕ → ℕ → Worker
after_count total stride d = if d == total || (d % stride == 0) then loading d else idle

-- One step of one worker. A slice is counted when one is left.
pub data Move (total stride : ℕ) : Shared → Worker → Shared → Worker → Type 0 where
  counts :
      {done last : ℕ} {events : List ℕ}
      → done < total
      → Move total stride
          (record { done = done; last_emitted = last; events = events })
          idle
          (record { done = suc done; last_emitted = last; events = events })
          (after_count total stride (suc done))
  loads : {d : ℕ} {s : Shared} → Move total stride s (loading d) s (looping d s.last_emitted)
  breaks : {d prev : ℕ} {s : Shared} → d ≤ prev → Move total stride s (looping d prev) s idle
  exchanges :
      {d prev done : ℕ} {events : List ℕ}
      → prev < d
      → Move total stride
          (record { done = done; last_emitted = prev; events = events })
          (looping d prev)
          (record { done = done; last_emitted = d; events = events })
          (publishing d)
  -- The exchange fails, without cause perhaps.
  retries :
      {d prev : ℕ} {s : Shared}
      → prev < d
      → Move total stride s (looping d prev) s (looping d s.last_emitted)
  publishes :
      {d done last : ℕ} {events : List ℕ}
      → Move total stride
          (record { done = done; last_emitted = last; events = events })
          (publishing d)
          (record { done = done; last_emitted = last; events = d ∷ events })
          idle

pub record State : Type 0 where
  pub shared : Shared
  pub workers : List Worker

pub data Step (total stride : ℕ) : State → State → Type 0 where
  moves :
      {s t : Shared} {w w' : Worker} (before after : List Worker)
      → Move total stride s w t w'
      → Step total stride
          (record { shared = s; workers = before ++ w ∷ after })
          (record { shared = t; workers = before ++ w' ∷ after })

-- What can come of `n` workers.
pub data Reachable (total stride n : ℕ) : State → Type 0 where
  start : Reachable total stride n (record {
    shared = record { done = 0; last_emitted = 0; events = [] };
    workers = replicate n idle;
  })
  next :
      {s t : State}
      → Reachable total stride n s
      → Step total stride s t
      → Reachable total stride n t
