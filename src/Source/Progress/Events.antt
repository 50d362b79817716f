-- ===== src/Source/Progress/Events.antt =====
-- No count is published twice, and the last one always is.
use mathlib.Core.Path.{fun_ext}
use par2rust.Base.{
  ℕ, zero, suc, ◌+◌, ◌%◌, ◌<◌, ◌≤◌, ◌≡◌, refl, sym, ap, subst, arith, List, [], ◌∷◌, ◌++◌,
  replicate, ◌||◌, ◌==◌, if◌then◌else◌, All, All-append, All-mono, ◌⊎◌, ◌≢◌, Bool-cases, ==→eq,
  ==→ne, inl, inr,
}
use par2rust.Source.Progress.{
  Worker, idle, loading, looping, publishing, Shared, after_count, Move, counts, loads, breaks,
  exchanges, retries, publishes, State, Step, moves, Reachable, start, next,
}

unfoldable pub hits : ℕ → ℕ → ℕ
hits v d = if d == v then 1 else 0

-- Whether a worker may still publish `v`, and whether it is about to.
waiting : ℕ → Worker → ℕ
waiting v idle = 0
waiting v (loading d) = hits v d
waiting v (looping d prev) = hits v d
waiting v (publishing d) = 0

claimed : ℕ → Worker → ℕ
claimed v (publishing d) = hits v d
claimed v _ = 0

-- How often `v` was published.
unfoldable pub occurs : ℕ → List ℕ → ℕ
occurs v [] = 0
occurs v (d ∷ events) = hits v d + occurs v events

-- `w` counts those that may publish a value, `c` those that are about to and the events.
record Sound (total : ℕ) (s : Shared) (w c : ℕ → ℕ) : Type 0 where
  bounded : s.done ≤ total
  once : (v : ℕ) → w v + c v ≤ 1
  counted : (v : ℕ) → s.done < v → w v + c v ≡ 0
  newest : (v : ℕ) → s.last_emitted < v → c v ≡ 0
  kept : 0 < s.last_emitted → c s.last_emitted ≡ 1
  final : 0 < total → total ≤ s.done → w total + c total ≡ 1

hits_cases : (v d : ℕ) → (v ≡ d) × (hits v d ≡ 1) ⊎ (hits v d ≡ 0)
unfolding hits
hits_cases v d = elim (Bool-cases (d == v)) [
  | inl e ↦ inl (sym (==→eq d v e), rw e)
  | inr n ↦ inr (rw n)
]

hits_self : (d : ℕ) → hits d d ≡ 1
unfolding hits
hits_self d = ground arith

hits_other : (v d : ℕ) → v ≢ d → hits v d ≡ 0
hits_other v d ne = elim (hits_cases v d) [ inl e ↦ absurd (ne e.0) | inr e ↦ e ]

module _ (total stride d : ℕ) where
  count_waits : (v : ℕ) → waiting v (after_count total stride d) ≤ hits v d
  unfolding waiting after_count
  count_waits v = elim (Bool-cases (d == total || (d % stride == 0))) [
    | inl e ↦ rw e (omega arith)
    | inr e ↦ rw e (omega arith)
  ]

  count_claims : (v : ℕ) → claimed v (after_count total stride d) ≡ 0
  unfolding claimed after_count
  count_claims v = elim (Bool-cases (d == total || (d % stride == 0))) [
    | inl e ↦ rw e
    | inr e ↦ rw e
  ]

last_waits : (total stride d : ℕ) → total ≡ d → waiting total (after_count total stride d) ≡ 1
unfolding waiting after_count hits
last_waits total stride d same = ground arith

-- A worker in the loop has seen a value that was there.
Behind : ℕ → Worker → Type 0
Behind last idle = Unit
Behind last (loading d) = Unit
Behind last (looping d prev) = prev ≤ last
Behind last (publishing d) = Unit

module _ (total stride : ℕ) (w c : ℕ → ℕ) where
  abbrev SoundWith : Shared → Worker → Type 0
  SoundWith s worker =
      Sound total s (λ v. w v + waiting v worker) (λ v. c v + claimed v worker + occurs v s.events)

  Move-SoundWith :
      {s t : Shared} {a b : Worker}
      → Move total stride s a t b
      → Behind s.last_emitted a
      → SoundWith s a
      → SoundWith t b
  unfolding waiting claimed occurs Behind
  Move-SoundWith (counts {done} {last} {events} more) h sound = record {
    bounded = omega arith;
    once = λ v. elim (hits_cases v (suc done)) [
      | inl e ↦ omega (arith, waits v, claims v, e.0, e.1, sound.counted v (omega (arith, e.0)))
      | inr e ↦ omega (arith, waits v, claims v, e, sound.once v)
    ];
    counted = λ v p. omega (
      arith,
      waits v,
      claims v,
      hits_other v (suc done) (λ e. omega (arith, e)),
      sound.counted v (omega arith),
    );
    newest = λ v p. omega (arith, claims v, sound.newest v p);
    kept = λ p. omega (arith, claims last, sound.kept p);
    final = λ p q. elim (Bool-cases (total == suc done)) [
      | inl e ↦
          let same = ==→eq total (suc done) e in
          omega (
            arith,
            last_waits total stride (suc done) same,
            claims total,
            sound.counted total (omega arith),
          )
      | inr e ↦
          let apart = ==→ne total (suc done) e in
          omega (
            arith,
            waits total,
            hits_other total (suc done) apart,
            claims total,
            sound.final p (omega arith),
          )
    ];
  }
    where
      waits : (v : ℕ) → waiting v (after_count total stride (suc done)) ≤ hits v (suc done)
      waits = count_waits total stride (suc done)

      claims : (v : ℕ) → claimed v (after_count total stride (suc done)) ≡ 0
      claims = count_claims total stride (suc done)
  Move-SoundWith loads h sound = sound
  Move-SoundWith (breaks {d} {prev} {s} le) h sound = record {
    bounded = sound.bounded;
    once = λ v. omega (arith, sound.once v);
    counted = λ v p. omega (arith, sound.counted v p);
    newest = sound.newest;
    kept = sound.kept;
    final = λ p q. elim (hits_cases total d) [
      | inl e ↦ absurd (
          let reached : total ≤ s.last_emitted = omega (arith, e.0) in
          let held = sound.kept (omega arith) in
          elim (Bool-cases (s.last_emitted == total)) [
            | inl t ↦
                let same =
                  ap (λ (v : ℕ). c v + 0 + occurs v s.events) (==→eq s.last_emitted total t) in
                omega (arith, same, held, sound.once total, e.1)
            | inr n ↦
                let beyond = ==→ne s.last_emitted total n in
                omega (
                  arith,
                  held,
                  sound.bounded,
                  sound.counted s.last_emitted (omega (arith, sound.bounded)),
                )
          ])
      | inr e ↦ omega (arith, e, sound.final p q)
    ];
  }
  Move-SoundWith (exchanges {d} {prev} {done} {events} lt) h sound = record {
    bounded = sound.bounded;
    once = λ v. omega (arith, sound.once v);
    counted = λ v p. omega (arith, sound.counted v p);
    newest =
        λ v p. omega (arith, hits_other v d (λ e. omega (arith, e)), sound.newest v (omega arith));
    kept = λ p. omega (arith, hits_self d, sound.newest d lt);
    final = λ p q. omega (arith, sound.final p q);
  }
  Move-SoundWith (retries lt) h sound = sound
  Move-SoundWith (publishes {d} {done} {last} {events}) h sound = record {
    bounded = sound.bounded;
    once = λ v. omega (arith, sound.once v);
    counted = λ v p. omega (arith, sound.counted v p);
    newest = λ v p. omega (arith, sound.newest v p);
    kept = λ p. omega (arith, sound.kept p);
    final = λ p q. omega (arith, sound.final p q);
  }

-- What a step leaves of `Behind`.
Move-Behind :
    {total : ℕ} (stride : ℕ) {s t : Shared} {a b : Worker}
    → Move total stride s a t b
    → (s.last_emitted ≤ t.last_emitted) × Behind t.last_emitted b
unfolding Behind after_count
Move-Behind {total = total} stride (counts {done} {last} {events} more) =
    elim (Bool-cases (suc done == total || (suc done % stride == 0))) [
      | inl e ↦ (omega arith, rw e tt)
      | inr e ↦ (omega arith, rw e tt)
    ]
Move-Behind stride (loads {d} {s}) = (omega arith, omega arith)
Move-Behind stride (breaks le) = (omega arith, tt)
Move-Behind stride (exchanges lt) = (omega arith, tt)
Move-Behind stride (retries lt) = (omega arith, omega arith)
Move-Behind stride publishes = (omega arith, tt)

Behind-mono : {m n : ℕ} → m ≤ n → (worker : Worker) → Behind m worker → Behind n worker
unfolding Behind
Behind-mono le idle h = tt
Behind-mono le (loading d) h = tt
Behind-mono le (looping d prev) h = omega arith
Behind-mono le (publishing d) h = tt

all_waiting : ℕ → List Worker → ℕ
all_waiting v [] = 0
all_waiting v (worker ∷ workers) = waiting v worker + all_waiting v workers

all_claimed : ℕ → List Worker → ℕ
all_claimed v [] = 0
all_claimed v (worker ∷ workers) = claimed v worker + all_claimed v workers

waiting_middle :
    (v : ℕ) (before after : List Worker) (a : Worker)
    → all_waiting v (before ++ a ∷ after) ≡ all_waiting v before + all_waiting v after + waiting v a
unfolding all_waiting
waiting_middle v [] after a = omega arith
waiting_middle v (b ∷ before) after a = omega (arith, waiting_middle v before after a)

claimed_middle :
    (v : ℕ) (before after : List Worker) (a : Worker)
    → all_claimed v (before ++ a ∷ after) ≡ all_claimed v before + all_claimed v after + claimed v a
unfolding all_claimed
claimed_middle v [] after a = omega arith
claimed_middle v (b ∷ before) after a = omega (arith, claimed_middle v before after a)

Behind-split :
    (n : ℕ) (before after : List Worker) (a : Worker)
    → All (Behind n) (before ++ a ∷ after)
    → All (Behind n) before × Behind n a × All (Behind n) after
Behind-split n [] after a h = (tt, h.0, h.1)
Behind-split n (b ∷ before) after a h =
    let (x, y, z) = Behind-split n before after a h.1 in ((h.0, x), y, z)

record Good (total : ℕ) (s : State) : Type 0 where
  sound :
      Sound total s.shared
        (λ v. all_waiting v s.workers)
        (λ v. all_claimed v s.workers + occurs v s.shared.events)
  behind : All (Behind s.shared.last_emitted) s.workers

Sound-ext :
    (total : ℕ) (s : Shared) {w w' c c' : ℕ → ℕ}
    → ((v : ℕ) → w v ≡ w' v)
    → ((v : ℕ) → c v ≡ c' v)
    → Sound total s w c
    → Sound total s w' c'
Sound-ext total s {w} {w'} {c} {c'} e f h =
    subst (Sound total s w') (fun_ext f) (subst (λ (g : ℕ → ℕ). Sound total s g c) (fun_ext e) h)

Step-Good : (total stride : ℕ) {s t : State} → Step total stride s t → Good total s → Good total t
Step-Good total stride (moves {s} {t} {w} {w'} before after move) good =
    let (front, here, back) = Behind-split s.last_emitted before after w good.behind in
    let (later, there) = Move-Behind stride move in
    let waits = λ (v : ℕ). all_waiting v before + all_waiting v after in
    let claims = λ (v : ℕ). all_claimed v before + all_claimed v after in
    let old =
      Sound-ext total s (λ v. waiting_middle v before after w)
        (λ v. ap (λ (n : ℕ). n + occurs v s.events) (claimed_middle v before after w)) good.sound in
    let new = Move-SoundWith total stride waits claims move here old in
    let carry = All-mono (Behind s.last_emitted) (Behind t.last_emitted) (Behind-mono later) in
    record {
      sound =
          Sound-ext total t (λ v. sym (waiting_middle v before after w'))
            (λ v. ap (λ (n : ℕ). n + occurs v t.events) (sym (claimed_middle v before after w')))
            new;
      behind =
          All-append (Behind t.last_emitted) before (w' ∷ after) (carry before front)
            (there, carry after back);
    }

none_waiting : (v n : ℕ) → all_waiting v (replicate n idle) ≡ 0
unfolding all_waiting waiting
none_waiting v zero = refl
none_waiting v (suc n) = omega (arith, none_waiting v n)

none_claimed : (v n : ℕ) → all_claimed v (replicate n idle) ≡ 0
unfolding all_claimed claimed
none_claimed v zero = refl
none_claimed v (suc n) = omega (arith, none_claimed v n)

idle-Behind : (n : ℕ) → All (Behind 0) (replicate n idle)
unfolding Behind
idle-Behind zero = tt
idle-Behind (suc n) = (tt, idle-Behind n)

start-Good :
    (total n : ℕ)
    → Good total (record {
      shared = record { done = 0; last_emitted = 0; events = [] };
      workers = replicate n idle;
    })
unfolding occurs
start-Good total n = record {
  sound =
      Sound-ext total _ (λ v. sym (none_waiting v n))
        (λ v. ap (λ (k : ℕ). k + 0) (sym (none_claimed v n)))
        (record {
          bounded = omega arith;
          once = λ v. omega arith;
          counted = λ v p. omega arith;
          newest = λ v p. omega arith;
          kept = λ p. absurd (omega arith);
          final = λ p q. absurd (omega arith);
        });
  behind = idle-Behind n;
}

Reachable-Good : (total stride n : ℕ) {s : State} → Reachable total stride n s → Good total s
Reachable-Good total stride n start = start-Good total n
Reachable-Good total stride n (next r step) =
    Step-Good total stride step (Reachable-Good total stride n r)

-- In every state that the workers of a scan can come to, at most `total` slices are counted, no event was
-- published twice, and none with a
-- count above that of the finished slices.
pub Reachable-events_once :
    (total stride n : ℕ) (s : State)
    → Reachable total stride n s
    → (s.shared.done ≤ total)
      × ((v : ℕ) → occurs v s.shared.events ≤ 1)
      × ((v : ℕ) → s.shared.done < v → occurs v s.shared.events ≡ 0)
Reachable-events_once total stride n s r =
    let good = Reachable-Good total stride n r in
    let sound = good.sound in
    (sound.bounded, λ v. omega (arith, sound.once v), λ v p. omega (arith, sound.counted v p))

-- When the workers of a scan of at least one slice have counted all slices and are idle, the event for the
-- last slice has been published, once.
pub finished-last_event :
    (total stride n m : ℕ) (shared : Shared)
    → 0 < total
    → Reachable total stride n (record { shared = shared; workers = replicate m idle })
    → shared.done ≡ total
    → occurs total shared.events ≡ 1
finished-last_event total stride n m shared pos r all =
    let good = Reachable-Good total stride n r in
    let sound = good.sound in
    omega (arith, sound.final pos (omega (arith, all)), none_waiting total m, none_claimed total m)
