-- ===== src/Sched.antt =====
-- sched.c: the timer queue and the handlers of file descriptors. The queue's links are a list; the
-- free list of entries is not modelled. A timeout's handler and its argument are one `Task`.
-- Delays, which the code keeps as doubles, are whole numbers of nanoseconds.
pub mod Ids
pub mod Queue
pub mod Timeouts
pub mod Separation
pub mod Load
pub mod Dispatch
pub mod Files
mod Tests
use chrony_nts.Prelude.{
  ℕ, zero, suc, ◌+◌, ◌-◌, ◌%◌, ◌^◌, Bool, false, not, ◌&&◌, ◌||◌, List, [], ◌∷◌, Option, none, some,
  ◌==◌, if◌then◌else◌, ◌>>=◌, length, get_elem?,
}
use chrony_nts.Prelude.Int.{ℤ, pos, ◌+ℤ◌, ◌-ℤ◌, ltb_ℤ}
use chrony_nts.Time.{Timespec, compare_timespecs, diff_nanos, add_nanos}

pub record TimerQueueEntry (Task : Type 0) : Type 0 where
  pub ts : Timespec
  pub id : ℕ
  pub timeout_class : ℕ
  pub task : Task

pub record Timers (Task : Type 0) : Type 0 where
  pub queue : List (TimerQueueEntry Task)
  pub n_entries : ℕ
  pub next_id : ℕ
  pub last_class_dispatch : List Timespec

-- `SCH_ReservedTimeoutValue`, and the number of classes with it.
abbrev pub reserved_class : ℕ
reserved_class = 0

-- `compare_timespecs a b == -1`
abbrev pub is_before : Timespec → Timespec → Bool
is_before a b = ltb_ℤ (compare_timespecs a b) (pos 0)

-- The separation from the last timeout dispatched in the class.
pub separate_last : ℤ → ℤ → ℤ → ℤ
separate_last diff min_delay separation =
    if ltb_ℤ diff separation && not (ltb_ℤ diff (pos 0)) && ltb_ℤ (diff +ℤ min_delay) separation
    then separation -ℤ diff
    else min_delay

-- One round of the scan: an entry of the class at `diff` from now.
pub separate_entry : ℤ → ℤ → ℤ → ℤ
separate_entry diff delay separation =
    if ltb_ℤ diff delay
    then if ltb_ℤ (delay -ℤ diff) separation then diff +ℤ separation else delay
    else if ltb_ℤ (diff -ℤ delay) separation
    then diff +ℤ separation
    else delay

module _ {Task : Type 0} where
  pub id_in_use : ℕ → List (TimerQueueEntry Task) → Bool
  id_in_use i [] = false
  id_in_use i (e ∷ queue) = e.id == i || id_in_use i queue

  -- The tries for a new ID, `fuel` of them at most.
  pub new_id_from : ℕ → List (TimerQueueEntry Task) → ℕ → Option ℕ
  unfolding id_in_use
  new_id_from zero queue next = none
  new_id_from (suc fuel) queue next =
      let next' = (next + 1) % 2 ^ 32 in
      let again = new_id_from fuel queue next' in
      if next' == 0 || id_in_use next' queue then again else some next'

  -- One try for each queued ID, one for 0, and one that succeeds.
  abbrev pub get_new_tqe_id : List (TimerQueueEntry Task) → ℕ → Option ℕ
  get_new_tqe_id queue next = new_id_from (length queue + 2) queue next

  -- The walk to the entry that the new one goes before, and the links.
  pub insert_before :
      (TimerQueueEntry Task → Bool)
      → TimerQueueEntry Task
      → List (TimerQueueEntry Task)
      → List (TimerQueueEntry Task)
  insert_before stops new [] = new ∷ []
  insert_before stops new (e ∷ queue) =
      if stops e then new ∷ e ∷ queue else e ∷ insert_before stops new queue

  -- `none` where the search for an ID has no end.
  pub add_timeout : Timers Task → Timespec → Task → Option (Timers Task × ℕ)
  unfolding insert_before
  add_timeout t ts task = do
    new_id ← get_new_tqe_id t.queue t.next_id
    some (
      record t {
        queue =
            insert_before (λ e. is_before ts e.ts)
              (record { ts = ts; id = new_id; timeout_class = reserved_class; task = task })
              t.queue;
        n_entries = t.n_entries + 1;
        next_id = new_id;
      },
      new_id,
    )

  -- `none` also for a negative delay, and for a sum before the time now, which is LOG_FATAL.
  pub add_timeout_by_delay : Timers Task → Timespec → ℤ → Task → Option (Timers Task × ℕ)
  add_timeout_by_delay t now delay task =
      let later = add_nanos now delay in
      if ltb_ℤ delay (pos 0)
      then none
      else if ltb_ℤ (pos 0) (compare_timespecs now later)
      then none
      else add_timeout t later task

  pub separate_queue : Timespec → ℕ → ℤ → List (TimerQueueEntry Task) → ℤ → ℤ
  unfolding separate_entry
  separate_queue now c separation [] delay = delay
  separate_queue now c separation (e ∷ queue) delay = separate_queue now c separation queue (
      if e.timeout_class == c then separate_entry (diff_nanos e.ts now) delay separation else delay)

  -- The delay that a new timeout of the class gets. `min_delay` and `separation` are as the
  -- randomness has left them.
  pub class_delay : Timers Task → Timespec → ℤ → ℤ → ℕ → Timespec → ℤ
  unfolding separate_queue separate_last
  class_delay t now min_delay separation c last =
      separate_queue now c separation t.queue
        (separate_last (diff_nanos now last) min_delay separation)

  -- `none` is a failed assertion, or a search for an ID that has no end.
  pub add_timeout_in_class : Timers Task → Timespec → ℤ → ℤ → ℕ → Task → Option (Timers Task × ℕ)
  unfolding class_delay insert_before
  add_timeout_in_class t now min_delay separation c task =
      if ltb_ℤ min_delay (pos 0) then none else do
        last ← get_elem? t.last_class_dispatch c
        new_id ← get_new_tqe_id t.queue t.next_id
        let delay = class_delay t now min_delay separation c last
        some (
          record t {
            queue =
                insert_before (λ e. ltb_ℤ delay (diff_nanos e.ts now))
                  (record { ts = add_nanos now delay; id = new_id; timeout_class = c; task = task })
                  t.queue;
            n_entries = t.n_entries + 1;
            next_id = new_id;
          },
          new_id,
        )

  -- The queue without the first entry that has the ID. `none` is a failed assertion.
  pub unlink : ℕ → List (TimerQueueEntry Task) → Option (List (TimerQueueEntry Task))
  unlink i [] = none
  unlink i (e ∷ queue) = if e.id == i then some queue else do rest ← unlink i queue; some (e ∷ rest)

  pub remove_timeout : Timers Task → ℕ → Option (Timers Task)
  unfolding unlink
  remove_timeout t i =
      if i == 0
      then some t
      else do rest ← unlink i t.queue; some (record t { queue = rest; n_entries = t.n_entries - 1 })
