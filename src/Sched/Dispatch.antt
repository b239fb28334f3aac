-- ===== src/Sched/Dispatch.antt =====
-- sched.c: the dispatch of the timeouts that are due.
use chrony_nts.Prelude.{
  ℕ, zero, suc, ◌+◌, ◌-◌, ◌*◌, ◌≤◌, ◌<◌, ◌≡◌, sym, ap, inl, inr, refl, true, false, not, ◌&&◌, List,
  [], ◌∷◌, Option, none, some, arith, Option-cases, length, ltb, ◌==◌, if◌then◌else◌, set, subst,
  Bool-cases, ◌∙◌,
}
use chrony_nts.Time.{Timespec, nanos}
use chrony_nts.Sched.{Timers, TimerQueueEntry, is_before, remove_timeout, unlink, ℤ, ◌+ℤ◌}
use chrony_nts.Time.Laws.{IsNormal}
use chrony_nts.Sched.Load.{load, load-due}
use chrony_nts.Sched.Timeouts.{is_before_lem}
use chrony_nts.Sched.Queue.{IsValid, IsQueue}
use chrony_nts.Prelude.Int.{◌≤ℤ◌, pos, int_laws}

-- What the dispatch calls: `LCL_ReadRawTime`, and the handler of a timeout, which may add and
-- remove timeouts.
pub record Host (Task World : Type 0) : Type 0 where
  pub read_raw_time : World → Timespec × World
  pub run : Task → Timers Task → World → Timers Task × World

-- `fatal` is LOG_FATAL and `failed` an assertion.
pub data Dispatched (Task World : Type 0) : Type 0 where
  done : Timers Task → World → Timespec → Dispatched Task World
  fatal failed unfinished : Dispatched Task World

module _ {Task : Type 0} where
  -- The first entry of the queue, if it is due.
  pub due_entry : ℕ → List (TimerQueueEntry Task) → Timespec → Option (TimerQueueEntry Task)
  due_entry n [] now = none
  due_entry n (e ∷ queue) now = if ltb 0 n && not (is_before now e.ts) then some e else none

  -- The timers when the handler of the entry is about to be called.
  pub expire : Timers Task → Timespec → TimerQueueEntry Task → Option (Timers Task)
  unfolding remove_timeout
  expire t now e =
      remove_timeout
        (record t { last_class_dispatch = set t.last_class_dispatch e.timeout_class now }) e.id

module _ {Task World : Type 0} (host : Host Task World) where
  -- The loop, for `fuel` rounds at most.
  pub dispatch_from : ℕ → ℕ → ℕ → Timers Task → World → Dispatched Task World
  dispatch_from zero n_done n_on_start t w = unfinished
  dispatch_from (suc fuel) n_done n_on_start t w =
      let (now, w1) = host.read_raw_time w in
      elim (due_entry t.n_entries t.queue now) [
        | none ↦ done t w1 now
        | some e ↦ elim (expire t now e) [
          | none ↦ failed
          | some u ↦
              let (v, w2) = host.run e.task u w1 in
              let rest = dispatch_from fuel (n_done + 1) n_on_start v w2 in
              if ltb (v.n_entries * 4) (n_done + 1) && ltb (n_on_start * 4) (n_done + 1)
              then fatal
              else rest
        ]
      ]

  pub dispatch_timeouts : ℕ → Timers Task → World → Dispatched Task World
  dispatch_timeouts fuel t w = dispatch_from fuel 0 t.n_entries t w

-- No timeout is due at the time.
abbrev pub NoneDue : {Task : Type 0} → Timespec → List (TimerQueueEntry Task) → Type 0
NoneDue now [] = Unit
NoneDue now (e ∷ queue) = is_before now e.ts ≡ true

-- The dispatch ended with valid timers, none of which is due.
abbrev pub EndsIdle : {Task World : Type 0} → Dispatched Task World → Type 0
EndsIdle (done t w now) = IsValid t × NoneDue now t.queue
EndsIdle fatal = ⊥
EndsIdle failed = ⊥
EndsIdle unfinished = ⊥

module _ {Task : Type 0} where
  due_entry-none :
      (queue : List (TimerQueueEntry Task)) (n : ℕ) (now : Timespec)
      → n ≡ length queue
      → due_entry n queue now ≡ none
      → NoneDue now queue
  unfolding due_entry
  due_entry-none [] n now c h = tt
  due_entry-none (e ∷ queue) n now c h = ground arith

  due_entry-some :
      (queue : List (TimerQueueEntry Task)) (n : ℕ) (now : Timespec) (e : TimerQueueEntry Task)
      → due_entry n queue now ≡ some e
      → (rest : List (TimerQueueEntry Task)) × (queue ≡ e ∷ rest) × (is_before now e.ts ≡ false)
  unfolding due_entry
  due_entry-some [] n now e h = cc
  due_entry-some (f ∷ queue) n now e h = elim (Bool-cases (is_before now f.ts)) [
    | inl b ↦ absurd (ground arith)
    | inr b ↦ (queue, ground arith, ground arith)
  ]

  unlink-head :
      (e : TimerQueueEntry Task) (rest : List (TimerQueueEntry Task))
      → unlink e.id (e ∷ rest) ≡ some rest
  unfolding unlink
  unlink-head e rest = ground arith

  -- The timeout that is due leaves the queue before its handler runs.
  expire-some :
      (t : Timers Task) (now : Timespec) (e : TimerQueueEntry Task)
      → IsValid t
      → IsNormal now
      → due_entry t.n_entries t.queue now ≡ some e
      → (u : Timers Task) × (expire t now e ≡ some u)
        × IsValid u
        × (t.queue ≡ e ∷ u.queue)
        × (nanos e.ts ≤ℤ nanos now)
  unfolding expire
  expire-some t now e v normal h =
      let (rest, p, b) = due_entry-some t.queue t.n_entries now e h in
      let (n, z, f, q) = subst IsQueue p v.ordered in
      let k : (e.id == 0) ≡ false = ground arith in
      let c : t.n_entries ≡ suc (length rest) = omega (arith, ap length p, v.counted) in
      (
        record t {
          queue = rest;
          n_entries = t.n_entries - 1;
          last_class_dispatch = set t.last_class_dispatch e.timeout_class now;
        },
        rw k (rw p (rw (unlink-head e rest) refl)),
        record { ordered = q; counted = omega (arith, c) },
        p,
        is_before_lem now e.ts normal n false b,
      )

module _ {Task World : Type 0} (host : Host Task World) (horizon : ℤ) (weight : Task → ℕ)
    (cost : ℕ) where
  -- A handler takes `cost` nanoseconds at most, to the next reading of the clock.
  abbrev pub IsQuick : Type 0
  IsQuick =
      (task : Task) (t : Timers Task) (w : World)
      → IsNormal (host.read_raw_time w).0
        × (nanos (host.read_raw_time (host.run task t (host.read_raw_time w).1).1).0
            ≤ℤ nanos (host.read_raw_time w).0 +ℤ pos cost)

  -- The handlers keep the timers valid. They may add any number of timeouts that expire after the
  -- horizon, and others whose weights are less in sum than that of the timeout that expired.
  abbrev pub IsPaced : Type 0
  IsPaced =
      (task : Task) (t : Timers Task) (w : World)
      → IsValid t
      → IsValid (host.run task t w).0
        × (load horizon weight (host.run task t w).0.queue
            < weight task + load horizon weight t.queue)

  round-idle :
      (fuel n_done n_on_start : ℕ) (t : Timers Task) (w : World)
      → due_entry t.n_entries t.queue (host.read_raw_time w).0 ≡ none
      → dispatch_from host (suc fuel) n_done n_on_start t w
        ≡ done t (host.read_raw_time w).1 (host.read_raw_time w).0
  unfolding dispatch_from
  round-idle fuel n_done n_on_start t w idle = rw (idle, dispatch_from) refl

  round-run :
      (fuel n_done n_on_start : ℕ) (t u : Timers Task) (w : World) (e : TimerQueueEntry Task)
      → due_entry t.n_entries t.queue (host.read_raw_time w).0 ≡ some e
      → expire t (host.read_raw_time w).0 e ≡ some u
      → let r = host.run e.task u (host.read_raw_time w).1 in
        (ltb (r.0.n_entries * 4) (n_done + 1) && ltb (n_on_start * 4) (n_done + 1)) ≡ false
        → dispatch_from host (suc fuel) n_done n_on_start t w
          ≡ dispatch_from host fuel (n_done + 1) n_on_start r.0 r.1
  unfolding dispatch_from
  round-run fuel n_done n_on_start t u w e some_due x late =
      rw (some_due, dispatch_from) (rw x (rw late refl))

  dispatch_from-EndsIdle :
      (fuel n_done n_on_start : ℕ) (t : Timers Task) (w : World)
      → IsQuick
      → IsPaced
      → IsValid t
      → load horizon weight t.queue < fuel
      → n_done + load horizon weight t.queue ≤ n_on_start * 4
      → nanos (host.read_raw_time w).0 +ℤ pos (cost * fuel) ≤ℤ horizon
      → EndsIdle (dispatch_from host fuel n_done n_on_start t w)
  dispatch_from-EndsIdle zero n_done n_on_start t w quick paced v f n early = absurd (omega arith)
  dispatch_from-EndsIdle (suc fuel) n_done n_on_start t w quick paced v f n early =
      let (now, w1) = host.read_raw_time w in
      elim (Option-cases (due_entry t.n_entries t.queue now)) [
        | inl idle ↦
            subst EndsIdle (sym (round-idle fuel n_done n_on_start t w idle))
              (v, due_entry-none t.queue t.n_entries now v.counted idle)
        | inr (e, some_due) ↦
            let (u, x, uv, p, due) = expire-some t now e v (quick e.task t w).0 some_due in
            let (rv, less) = paced e.task u w1 uv in
            let soon = (quick e.task u w).1 in
            let s : load horizon weight t.queue ≡ weight e.task + load horizon weight u.queue =
              ap (load horizon weight) p ∙ load-due horizon weight e u.queue (omega int_laws) in
            let (r, w2) = host.run e.task u w1 in
            let late : (ltb (r.n_entries * 4) (n_done + 1) && ltb (n_on_start * 4) (n_done + 1))
                ≡ false =
              ground arith in
            subst EndsIdle (sym (round-run fuel n_done n_on_start t u w e some_due x late)) (
              dispatch_from-EndsIdle fuel (n_done + 1) n_on_start r w2 quick paced rv (omega arith)
                (omega arith) (omega int_laws))
      ]

  -- Dispatching ends with the timers valid and no timeout due, so that the main loop has a time to
  -- wait; no assertion fails and no endless loop is suspected. Handlers may add timeouts, their
  -- own again too. Conditions: the timers are valid and each handler keeps them so; what a handler
  -- adds that expires by the horizon weighs less in sum than the timeout that expired, and what
  -- expires later is not limited; the timeouts queued at the start that expire by the horizon
  -- weigh at most four times the number queued; the clock gives times in normal form, and from one
  -- reading to the next it advances by `cost` at most, so that the rounds, one for each unit of
  -- weight and one, begin by the horizon.
  pub dispatch_timeouts-EndsIdle :
      (t : Timers Task) (w : World)
      → IsQuick
      → IsPaced
      → IsValid t
      → load horizon weight t.queue ≤ t.n_entries * 4
      → nanos (host.read_raw_time w).0 +ℤ pos (cost * (load horizon weight t.queue + 1)) ≤ℤ horizon
      → EndsIdle (dispatch_timeouts host (load horizon weight t.queue + 1) t w)
  unfolding dispatch_timeouts
  dispatch_timeouts-EndsIdle t w quick paced v room early =
      dispatch_from-EndsIdle (load horizon weight t.queue + 1) 0 t.n_entries t w quick paced v
        (omega arith) (omega arith) early
