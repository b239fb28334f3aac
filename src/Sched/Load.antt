-- ===== src/Sched/Load.antt =====
-- sched.c: the handlers that the queued timeouts ask for until a time.
use chrony_nts.Prelude.{
  ℕ, ◌+◌, ◌≤◌, ◌≡◌, refl, sym, ◌∙◌, List, [], ◌∷◌, some, arith, inl, inr, if◌then◌else◌, Bool, true,
  Bool-cases, length, ◌^◌, ap, some_inj,
}
use chrony_nts.Prelude.Int.{ℤ, ◌≤ℤ◌, ltb_ℤ}
use chrony_nts.Time.{Timespec, nanos}
use chrony_nts.Time.Laws.{IsNormal}
use chrony_nts.Sched.{
  TimerQueueEntry, Timers, insert_before, add_timeout, is_before, reserved_class,
}
use chrony_nts.Sched.Ids.{get_new_tqe_id_total}
use chrony_nts.Sched.Timeouts.{add_timeout_lem}
use chrony_nts.Sched.Queue.{IsValid, enqueued}

-- The handlers that may be run until a time: each timeout that expires by then has the weight of
-- its task, which stands for the handler that it runs and those that follow from it by then.
module _ {Task : Type 0} (horizon : ℤ) (weight : Task → ℕ) where
  unfoldable pub load : List (TimerQueueEntry Task) → ℕ
  load [] = 0
  load (e ∷ queue) = (if ltb_ℤ horizon (nanos e.ts) then 0 else weight e.task) + load queue

  -- One that is due counts with its weight.
  pub load-due :
      (e : TimerQueueEntry Task) (queue : List (TimerQueueEntry Task))
      → nanos e.ts ≤ℤ horizon
      → load (e ∷ queue) ≡ weight e.task + load queue
  unfolding load
  load-due e queue h = ground arith

  -- A timeout that expires later adds nothing.
  pub load-insert_before :
      (stops : TimerQueueEntry Task → Bool) (new : TimerQueueEntry Task)
      (queue : List (TimerQueueEntry Task))
      → ltb_ℤ horizon (nanos new.ts) ≡ true
      → load (insert_before stops new queue) ≡ load queue
  unfolding load insert_before
  load-insert_before stops new [] h = ground arith
  load-insert_before stops new (e ∷ queue) h = elim (Bool-cases (stops e)) [
    | inl s ↦ rw s (ground arith)
    | inr s ↦ rw s (ground (arith, load-insert_before stops new queue h))
  ]

  -- Adding a timeout that expires later keeps the load.
  pub add_timeout-load :
      (t : Timers Task) (ts : Timespec) (task : Task)
      → IsValid t
      → IsNormal ts
      → length t.queue + 2 ≤ 2 ^ 32
      → ltb_ℤ horizon (nanos ts) ≡ true
      → (u : Timers Task) × (i : ℕ) × (add_timeout t ts task ≡ some (u, i))
        × IsValid u
        × (load u.queue ≡ load t.queue)
  unfolding add_timeout
  add_timeout-load t ts task v n room late =
      let (u, i, run, valid, _, _, _) = add_timeout_lem t ts task v n room in
      let (k, e, _, _, _) = get_new_tqe_id_total t.queue t.next_id room in
      let stops : TimerQueueEntry Task → Bool = λ f. is_before ts f.ts in
      let new : TimerQueueEntry Task = record {
        ts = ts;
        id = k;
        timeout_class = reserved_class;
        task = task;
      } in
      let added : add_timeout t ts task ≡ some (enqueued t stops new, k) = rw e refl in
      let same : load u.queue ≡ load (insert_before stops new t.queue) =
        ap (λ x. load x.0.queue) (some_inj (sym run ∙ added)) in
      (u, i, run, valid, same ∙ load-insert_before stops new t.queue late)
