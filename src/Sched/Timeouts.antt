-- ===== src/Sched/Timeouts.antt =====
-- sched.c: adding and removing timeouts, on queues that are in order.
use chrony_nts.Prelude.{
  ◌&&◌, not, ◌⊎◌, ==_iff, ℕ, suc, ◌+◌, ◌-◌, ◌^◌, ◌≤◌, ◌≡◌, ◌≢◌, inl, inr, refl, Bool, true, false,
  List, [], ◌∷◌, none, some, arith, Bool-cases, ◌==◌, length, ap, ◌⊎◌,
}
use chrony_nts.Prelude.Int.{int_laws, ◌≤ℤ◌, ℤ, ltb_ℤ, pos}
use chrony_nts.Time.{add_nanos, Timespec, nanos, compare_timespecs}
use chrony_nts.Time.Laws.{nanos-add_nanos, add_nanos-IsNormal, IsNormal, nanos_parts}
use chrony_nts.Sched.{
  TimerQueueEntry, Timers, is_before, unlink, add_timeout, add_timeout_by_delay, remove_timeout,
  id_in_use, reserved_class,
}
use chrony_nts.Sched.Ids.{get_new_tqe_id_total}
use chrony_nts.Sched.Queue.{
  All, Follows, IsQueue, IsValid, Before, enqueued, enqueued-IsValid, remove_timeout-enqueued,
  time_of, time_of-enqueued,
}

-- What the test says of two times in normal form.
pub is_before_lem :
    (a b : Timespec) → IsNormal a → IsNormal b → (x : Bool) → is_before a b ≡ x → Before x a b
unfolding compare_timespecs
is_before_lem a b na nb true h = ground (arith, nanos_parts a, nanos_parts b)
is_before_lem a b na nb false h = ground (arith, nanos_parts a, nanos_parts b)

not_after_lem :
    (a b : Timespec)
    → IsNormal a
    → IsNormal b
    → nanos a ≤ℤ nanos b
    → ltb_ℤ (pos 0) (compare_timespecs a b) ≡ false
unfolding compare_timespecs
not_after_lem a b na nb le = ground (arith, nanos_parts a, nanos_parts b)

module _ {Task : Type 0} where
  -- A new timeout is queued with its time under a valid ID that no other timeout has, the queue
  -- stays in the order of the times, and removing the timeout by that ID gives the queue back.
  -- Conditions: at most 2^32 - 2 timeouts are queued, and times are in normal form.
  pub add_timeout_lem :
      (t : Timers Task) (ts : Timespec) (task : Task)
      → IsValid t
      → IsNormal ts
      → length t.queue + 2 ≤ 2 ^ 32
      → (u : Timers Task) × (i : ℕ) × (add_timeout t ts task ≡ some (u, i))
        × IsValid u
        × (i ≢ 0)
        × (time_of i u.queue ≡ some ts)
        × (remove_timeout u i ≡ some (record t { next_id = i }))
  unfolding add_timeout
  add_timeout_lem t ts task v n room =
      let (i, e, z, fresh, lt) = get_new_tqe_id_total t.queue t.next_id room in
      let new : TimerQueueEntry Task = record {
        ts = ts;
        id = i;
        timeout_class = reserved_class;
        task = task;
      } in
      (
        enqueued t (λ e. is_before ts e.ts) new,
        i,
        rw e refl,
        enqueued-IsValid t (λ e. is_before ts e.ts) new
            (λ f m s. omega (arith, is_before_lem ts f.ts n m true s))
            (λ f m s. omega (arith, is_before_lem ts f.ts n m false s)) v n z fresh,
        z,
        time_of-enqueued t (λ e. is_before ts e.ts) new fresh,
        remove_timeout-enqueued t (λ e. is_before ts e.ts) new z fresh,
      )

  unlink-none :
      (i : ℕ) (queue : List (TimerQueueEntry Task))
      → id_in_use i queue ≡ false
      → unlink i queue ≡ none
  unfolding unlink id_in_use
  unlink-none i [] h = refl
  unlink-none i (e ∷ queue) h = ground (arith, unlink-none i queue)

  Follows-fresh :
      (e : TimerQueueEntry Task) (queue : List (TimerQueueEntry Task))
      → All (Follows e) queue
      → id_in_use e.id queue ≡ false
  unfolding id_in_use
  Follows-fresh e [] a = refl
  Follows-fresh e (f ∷ queue) ((l, d), a) = ground (arith, Follows-fresh e queue a)

  -- What is left of a queue when the entry with an ID is gone.
  record Unlinked (i : ℕ) (queue rest : List (TimerQueueEntry Task)) : Type 1 where
    ordered : IsQueue rest
    counted : length queue ≡ suc (length rest)
    left : (j : ℕ) → id_in_use j rest ≡ (id_in_use j queue && not (j == i))
    kept : (P : TimerQueueEntry Task → Type 0) → All P queue → All P rest

  unlink-some :
      (i : ℕ) (queue : List (TimerQueueEntry Task))
      → IsQueue queue
      → id_in_use i queue ≡ true
      → (rest : List (TimerQueueEntry Task)) × (unlink i queue ≡ some rest) × Unlinked i queue rest
  unfolding unlink id_in_use
  unlink-some i [] q h = cc
  unlink-some i (e ∷ queue) (n, z, f, q) h = elim (Bool-cases (e.id == i)) [
    | inl y ↦ (
      queue,
      rw y refl,
      record {
        ordered = q;
        counted = refl;
        left = λ j. ground (
          arith,
          ==_iff e.id i,
          Follows-fresh e queue f,
          ap (λ k. id_in_use k queue) ((==_iff e.id i).0 y),
        );
        kept = λ P a. a.1;
      },
    )
    | inr y ↦
        let (rest, l, u) = unlink-some i queue q (ground arith) in
        (
          e ∷ rest,
          rw (y, l) refl,
          record {
            ordered = (n, z, u.kept (Follows e) f, u.ordered);
            counted = ap suc u.counted;
            left = λ j. ground (arith, u.left j);
            kept = λ P a. (a.0, u.kept P a.1);
          },
        )
  ]

  -- A delay that is not negative never overflows: the timeout is added at the time after it.
  pub add_timeout_by_delay-add_timeout :
      (t : Timers Task) (now : Timespec) (delay : ℤ) (task : Task)
      → IsNormal now
      → pos 0 ≤ℤ delay
      → add_timeout_by_delay t now delay task ≡ add_timeout t (add_nanos now delay) task
  unfolding add_timeout_by_delay
  add_timeout_by_delay-add_timeout t now delay task n d =
      let later = add_nanos now delay in
      let early : ltb_ℤ delay (pos 0) ≡ false = ground arith in
      let ge : nanos now ≤ℤ nanos later = rw (nanos-add_nanos now delay) (omega (int_laws)) in
      let no_overflow : ltb_ℤ (pos 0) (compare_timespecs now later) ≡ false =
        not_after_lem now later n (add_nanos-IsNormal now delay) ge in
      rw early (rw no_overflow refl)

  -- Removing a timeout that is queued takes out just that ID and keeps the order; the ID 0 is
  -- ignored, and any other that is not queued is a failed assertion.
  pub remove_timeout_lem :
      (t : Timers Task) (i : ℕ)
      → IsValid t
      → ((i ≡ 0) × (remove_timeout t i ≡ some t))
        ⊎ (i ≢ 0) × (id_in_use i t.queue ≡ false) × (remove_timeout t i ≡ none)
        ⊎ (i ≢ 0)
          × (id_in_use i t.queue ≡ true)
          × (u : Timers Task) × (remove_timeout t i ≡ some u)
          × IsValid u
          × ((j : ℕ) → id_in_use j u.queue ≡ (id_in_use j t.queue && not (j == i)))
  unfolding remove_timeout
  remove_timeout_lem t i v = elim (Bool-cases (i == 0)) [
    | inl y ↦ inl ((==_iff i 0).0 y, rw y refl)
    | inr y ↦
        let nonzero : i ≢ 0 = λ k. ground arith in
        elim (Bool-cases (id_in_use i t.queue)) [
          | inl used ↦
              let (rest, l, u) = unlink-some i t.queue v.ordered used in
              inr (
                inr (
                  nonzero,
                  used,
                  record t { queue = rest; n_entries = t.n_entries - 1 },
                  rw (y, l) refl,
                  record { ordered = u.ordered; counted = omega (arith, u.counted, v.counted) },
                  u.left,
                ))
          | inr free ↦ inr (inl (nonzero, free, rw (y, unlink-none i t.queue free) refl))
        ]
  ]
