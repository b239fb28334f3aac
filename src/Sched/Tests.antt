-- ===== src/Sched/Tests.antt =====
-- sched.c: timeouts and file handlers at concrete values. The world is the time, and each handler
-- takes a second and adds its own timeout again.
use chrony_nts.Prelude.{
  ℕ, zero, suc, ◌+◌, ◌≤◌, ◌≡◌, ◌≢◌, ◌⊎◌, refl, true, false, [], ◌∷◌, none, some, arith, ◌==◌,
  if◌then◌else◌, Bool-cases, ltb, inl, inr, ◌*◌,
}
use chrony_nts.Prelude.Int.{pos, ◌+ℤ◌, ◌≤ℤ◌, ℤ, ltb_ℤ}
use chrony_nts.Time.{Timespec, nanos}
use chrony_nts.Time.Laws.{◌<ℤ◌}
use chrony_nts.Sched.{TimerQueueEntry, Timers, add_timeout, remove_timeout, add_timeout_in_class}
use chrony_nts.Sched.Queue.{All, IsValid, time_of}
use chrony_nts.Sched.Timeouts.{add_timeout_lem}
use chrony_nts.Sched.Separation.{IsApart, add_timeout_in_class_lem}
use chrony_nts.Sched.Load.{load, add_timeout-load}
use chrony_nts.Sched.Dispatch.{
  Host, EndsIdle, IsQuick, IsPaced, dispatch_timeouts, dispatch_timeouts-EndsIdle,
}
use chrony_nts.Sched.Files as Files
use chrony_nts.Sched.Files.{
  FileHandlers, FileHandlerEntry, Events, add_file_handler, remove_file_handler, handler_at,
  no_handler, add_file_handler_lem, remove_file_handler_lem,
}

abbrev at_second : ℕ → Timespec
at_second n = record { tv_sec = pos n; tv_nsec = pos 0 }

abbrev timeout : ℕ → ℕ → ℕ → TimerQueueEntry ℕ
timeout n i c = record { ts = at_second n; id = i; timeout_class = c; task = i }

abbrev timers : Timers ℕ
timers = record {
  queue = timeout 10 7 0 ∷ timeout 20 2 1 ∷ [];
  n_entries = 2;
  next_id = 6;
  last_class_dispatch = at_second 0 ∷ at_second 4 ∷ at_second 0 ∷ at_second 0 ∷ [];
}

timers-IsValid : IsValid timers
unfolding nanos ◌+ℤ◌
timers-IsValid = record {
  ordered = (
    omega arith,
    (λ e. omega arith),
    ((omega arith, λ e. omega arith), tt),
    (omega arith, (λ e. omega arith), tt, tt),
  );
  counted = refl;
}

add_timeout_lem_example :
    (u : Timers ℕ) × (i : ℕ) × (add_timeout timers (at_second 10) 9 ≡ some (u, i))
    × IsValid u
    × (i ≢ 0)
    × (time_of i u.queue ≡ some (at_second 10))
    × (remove_timeout u i ≡ some (record timers { next_id = i }))
add_timeout_lem_example =
    add_timeout_lem timers (at_second 10) 9 timers-IsValid (omega arith) (omega arith)

abbrev second_id : ℕ
second_id = 2

add_timeout_in_class_lem_example :
    (u : Timers ℕ) × (i : ℕ) × (ts : Timespec) × (add_timeout_in_class timers
        (at_second 5)
        (pos 14_000_000_000)
        (pos 2_000_000_000)
        1
        9
      ≡ some (u, i))
    × IsValid u
    × (time_of i u.queue ≡ some ts)
    × (remove_timeout u i ≡ some (record timers { next_id = i }))
    × (nanos (at_second 5) +ℤ pos 14_000_000_000 ≤ℤ nanos ts)
    × All
        (λ e. (e.timeout_class ≢ 1) ⊎ IsApart (pos 2_000_000_000) (nanos e.ts) (nanos ts))
        timers.queue
    × ((nanos (at_second 5) <ℤ nanos (at_second 4))
        ⊎ (nanos (at_second 4) +ℤ pos 2_000_000_000 ≤ℤ nanos ts))
add_timeout_in_class_lem_example =
    add_timeout_in_class_lem timers (at_second 5) (pos 14_000_000_000) (pos 2_000_000_000) 1 9
      (at_second 4) timers-IsValid (omega arith) (omega arith) refl (omega arith)

-- Until there are a hundred timeouts, a handler adds its own again, a thousand seconds later.
abbrev rearmed : ℕ → Timers ℕ → ℕ → Timers ℕ
rearmed task t w =
    if ltb t.n_entries 100
    then elim (add_timeout t (at_second (w + 1000)) task) [ none ↦ t | some (u, i) ↦ u ]
    else t

abbrev rearming : Host ℕ ℕ
rearming = record {
  read_raw_time = λ w. (at_second w, w);
  run = λ task t w. (rearmed task t w, w + 1);
}

-- 900 seconds, in nanoseconds.
abbrev horizon : ℤ
horizon = pos 900_000_000_000

abbrev one_run : ℕ → ℕ
one_run task = 1

at_second-late : (w : ℕ) → ltb_ℤ horizon (nanos (at_second (w + 1000))) ≡ true
unfolding nanos ◌+ℤ◌
at_second-late w = ground arith

quick : (w : ℕ) → nanos (at_second (w + 1)) ≤ℤ nanos (at_second w) +ℤ pos 1_000_000_000
unfolding nanos ◌+ℤ◌
quick w = ground arith

rearming-IsQuick : IsQuick rearming horizon one_run 1_000_000_000
rearming-IsQuick task t w = ((omega arith, omega arith), quick w)

rearming-IsPaced : IsPaced rearming horizon one_run 1_000_000_000
rearming-IsPaced task t w v = elim (Bool-cases (ltb t.n_entries 100)) [
  | inl room ↦
      let (u, i, run, valid, same) =
        add_timeout-load horizon one_run t (at_second (w + 1000)) task v (omega arith, omega arith)
          (ground (arith, v.counted)) (at_second-late w) in
      rw (room, run) (valid, omega (arith, same))
  | inr full ↦ rw full (v, omega arith)
]

timers-room : load horizon one_run timers.queue ≤ timers.n_entries * 4
unfolding load nanos ◌+ℤ◌
timers-room = omega arith

timers-early :
    nanos (at_second 12) +ℤ pos (1_000_000_000 * (load horizon one_run timers.queue + 1)) ≤ℤ horizon
unfolding load nanos ◌+ℤ◌
timers-early = omega arith

dispatch_timeouts-EndsIdle_example :
    EndsIdle (dispatch_timeouts rearming (load horizon one_run timers.queue + 1) timers 12)
dispatch_timeouts-EndsIdle_example =
    dispatch_timeouts-EndsIdle rearming horizon one_run 1_000_000_000 timers 12 rearming-IsQuick
      rearming-IsPaced timers-IsValid timers-room timers-early

abbrev readable : Events
readable = record { input = true; output = false; exception = false }

abbrev one_handler : FileHandlers ℕ
one_handler = record {
  entries = no_handler ∷ record { handler = some 5; events = readable } ∷ [];
  one_highest_fd = 2;
}

one_handler-IsValid : Files.IsValid one_handler
one_handler-IsValid = record { above = above; highest = highest }
  where
    above : (fd : ℕ) → 2 ≤ fd → handler_at one_handler.entries fd ≡ none
    above zero h = absurd (omega arith)
    above (suc zero) h = absurd (omega arith)
    above (suc (suc fd)) h = refl

    highest : (fd : ℕ) → 2 ≡ suc fd → handler_at one_handler.entries fd ≢ none
    highest zero h = absurd (omega arith)
    highest (suc zero) h = λ e. cc
    highest (suc (suc fd)) h = absurd (omega arith)

add_file_handler_lem_example :
    (g : FileHandlers ℕ) × (add_file_handler 1024 one_handler 4 readable 6 ≡ some g)
    × Files.IsValid g
    × ((k : ℕ)
        → handler_at g.entries k ≡ (if k == 4 then some 6 else handler_at one_handler.entries k))
add_file_handler_lem_example =
    add_file_handler_lem 1024 one_handler 4 readable 6 one_handler-IsValid refl (omega arith) refl
