-- ===== src/Sched/Separation.antt =====
-- sched.c: the separation of the timeouts of one class.
use chrony_nts.Prelude.{
  if◌then◌else◌, subst, sym, ℕ, ◌+◌, ◌≤◌, ◌^◌, ◌≡◌, ◌≢◌, ◌⊎◌, inl, inr, refl, Bool, true, false,
  List, [], ◌∷◌, some, arith, Bool-cases, tests, ◌==◌, length, subst, sym, get_elem?,
}
use chrony_nts.Prelude.Int.{ℤ, pos, ◌+ℤ◌, ◌-ℤ◌, ◌≤ℤ◌, ltb_ℤ, int_laws, +ℤ_parts, -ℤ_parts}
use chrony_nts.Time.{Timespec, nanos, diff_nanos, add_nanos}
use chrony_nts.Time.Laws.{diff_nanos_lem, nanos-add_nanos, add_nanos-IsNormal, ◌<ℤ◌}
use chrony_nts.Sched.{
  TimerQueueEntry, Timers, separate_entry, separate_last, separate_queue, class_delay,
  add_timeout_in_class, remove_timeout,
}
use chrony_nts.Sched.Ids.{get_new_tqe_id_total}
use chrony_nts.Sched.Queue.{
  All, IsQueue, IsValid, Follows, time_of, Before, enqueued, enqueued-IsValid, time_of-enqueued,
  remove_timeout-enqueued,
}

-- Two instants are at least s apart.
abbrev pub IsApart : ℤ → ℤ → ℤ → Type 0
IsApart s d x = (d +ℤ s ≤ℤ x) ⊎ (x +ℤ s ≤ℤ d)

separate_entry-ge : (diff delay s : ℤ) → pos 0 ≤ℤ s → delay ≤ℤ separate_entry diff delay s
unfolding separate_entry
separate_entry-ge diff delay s h = ground (arith, +ℤ_parts diff s, -ℤ_parts delay diff)

separate_entry-IsApart :
    (diff delay s : ℤ) → pos 0 ≤ℤ s → IsApart s diff (separate_entry diff delay s)
unfolding separate_entry
separate_entry-IsApart diff delay s h = elim (Bool-cases (ltb_ℤ diff delay)) [
  | inl a ↦ elim (Bool-cases (ltb_ℤ (delay -ℤ diff) s)) [
    | inl b ↦ rw (a, b) (inl (omega arith))
    | inr b ↦ rw (a, b) (inl (ground (arith, +ℤ_parts diff s, -ℤ_parts delay diff)))
  ]
  | inr a ↦ elim (Bool-cases (ltb_ℤ (diff -ℤ delay) s)) [
    | inl b ↦ rw (a, b) (inl (omega arith))
    | inr b ↦ rw (a, b) (inr (ground (arith, +ℤ_parts delay s, -ℤ_parts diff delay)))
  ]
]

separate_entry-or :
    (diff delay s : ℤ)
    → (separate_entry diff delay s ≡ delay) ⊎ (separate_entry diff delay s ≡ diff +ℤ s)
unfolding separate_entry
separate_entry-or diff delay s = elim (Bool-cases (ltb_ℤ diff delay)) [
  | inl a ↦ elim (Bool-cases (ltb_ℤ (delay -ℤ diff) s)) [
    | inl b ↦ rw (a, b) (inr refl)
    | inr b ↦ rw (a, b) (inl refl)
  ]
  | inr a ↦ elim (Bool-cases (ltb_ℤ (diff -ℤ delay) s)) [
    | inl b ↦ rw (a, b) (inr refl)
    | inr b ↦ rw (a, b) (inl refl)
  ]
]

-- What was apart stays so when the delay grows, which it does only past what comes later.
stays-IsApart : (s d x r : ℤ) → IsApart s d x → x ≤ℤ r → (r ≡ x) ⊎ (d +ℤ s ≤ℤ r) → IsApart s d r
stays-IsApart s d x r (inl a) le k = inl (omega arith)
stays-IsApart s d x r (inr a) le (inl k) = inr (rw k a)
stays-IsApart s d x r (inr a) le (inr k) = inl k

module _ {Task : Type 0} (now : Timespec) (c : ℕ) (s : ℤ) (h : pos 0 ≤ℤ s) where
  separate_queue-ge :
      (queue : List (TimerQueueEntry Task)) (delay : ℤ)
      → delay ≤ℤ separate_queue now c s queue delay
  unfolding separate_queue
  separate_queue-ge [] delay = omega arith
  separate_queue-ge (e ∷ queue) delay =
      let d = diff_nanos e.ts now in
      elim (Bool-cases (e.timeout_class == c)) [
        | inl y ↦ rw y (
            omega (
              arith,
              separate_entry-ge d delay s h,
              separate_queue-ge queue (separate_entry d delay s),
            ))
        | inr n ↦ rw n (separate_queue-ge queue delay)
      ]

  -- A scan of entries that are all at `low` or later keeps the delay or passes `low`.
  separate_queue-or :
      (queue : List (TimerQueueEntry Task)) (low delay : ℤ)
      → All (λ e. low ≤ℤ diff_nanos e.ts now) queue
      → (separate_queue now c s queue delay ≡ delay)
        ⊎ (low +ℤ s ≤ℤ separate_queue now c s queue delay)
  unfolding separate_queue
  separate_queue-or [] low delay a = inl refl
  separate_queue-or (e ∷ queue) low delay (b, a) =
      let d = diff_nanos e.ts now in
      elim (Bool-cases (e.timeout_class == c)) [
        | inl y ↦ elim (separate_entry-or d delay s) [
          | inl k ↦ rw (y, k) (separate_queue-or queue low delay a)
          | inr k ↦
              rw (y, k)
                (inr (
                  omega (int_laws, separate_queue-ge queue (d +ℤ s), +ℤ_parts d s, +ℤ_parts low s)))
        ]
        | inr n ↦ rw n (separate_queue-or queue low delay a)
      ]

  follow-low :
      (e : TimerQueueEntry Task) (queue : List (TimerQueueEntry Task))
      → All (Follows e) queue
      → All (λ f. diff_nanos e.ts now ≤ℤ diff_nanos f.ts now) queue
  follow-low e [] a = tt
  follow-low e (f ∷ queue) ((l, d), a) = (
    rw (diff_nanos_lem e.ts now, diff_nanos_lem f.ts now)
        (omega (arith, -ℤ_parts (nanos e.ts) (nanos now), -ℤ_parts (nanos f.ts) (nanos now))),
    follow-low e queue a,
  )

  -- What the scan of the queue ensures of the delay r.
  abbrev pub ApartFrom : ℤ → List (TimerQueueEntry Task) → Type 0
  ApartFrom r queue = All (λ e. (e.timeout_class ≢ c) ⊎ IsApart s (diff_nanos e.ts now) r) queue

  separate_queue-skip :
      (e : TimerQueueEntry Task) (queue : List (TimerQueueEntry Task)) (delay : ℤ) (b : Bool)
      → (e.timeout_class == c) ≡ b
      → separate_queue now c s (e ∷ queue) delay
        ≡ separate_queue now c s queue
            (if b then separate_entry (diff_nanos e.ts now) delay s else delay)
  unfolding separate_queue
  separate_queue-skip e queue delay b y = rw y

  separate_queue-IsApart :
      (queue : List (TimerQueueEntry Task)) (delay : ℤ)
      → IsQueue queue
      → ApartFrom (separate_queue now c s queue delay) queue
  separate_queue-IsApart [] delay q = tt
  separate_queue-IsApart (e ∷ queue) delay (n, z, f, q) =
      let d = diff_nanos e.ts now in
      let moved = separate_entry d delay s in
      elim (Bool-cases (e.timeout_class == c)) [
        | inl y ↦
            subst (λ r. ApartFrom r (e ∷ queue)) (sym (separate_queue-skip e queue delay true y))
              (
                inr (
                    stays-IsApart s d moved (separate_queue now c s queue moved)
                      (separate_entry-IsApart d delay s h) (separate_queue-ge queue moved)
                      (separate_queue-or queue d moved (follow-low e queue f))),
                separate_queue-IsApart queue moved q,
              )
        | inr y ↦
            subst (λ r. ApartFrom r (e ∷ queue)) (sym (separate_queue-skip e queue delay false y))
              (inl (λ k. ground arith), separate_queue-IsApart queue delay q)
      ]

separate_last-ge : (diff delay s : ℤ) → delay ≤ℤ separate_last diff delay s
unfolding separate_last
separate_last-ge diff delay s = ground (arith, +ℤ_parts diff delay, -ℤ_parts s diff)

separate_last_lem :
    (diff delay s : ℤ)
    → pos 0 ≤ℤ delay
    → (diff <ℤ pos 0) ⊎ (s ≤ℤ diff +ℤ separate_last diff delay s)
unfolding separate_last
separate_last_lem diff delay s h = elim (Bool-cases (ltb_ℤ diff (pos 0))) [
  | inl a ↦ inl (ground arith)
  | inr a ↦ inr (ground (arith, +ℤ_parts diff delay, -ℤ_parts s diff, +ℤ_parts diff (s -ℤ diff)))
]

IsApart-nanos :
    (now : Timespec) (s r : ℤ) (ts : Timespec)
    → IsApart s (diff_nanos ts now) r
    → IsApart s (nanos ts) (nanos (add_nanos now r))
IsApart-nanos now s r ts a = rw (nanos-add_nanos now r) (apart (rw (diff_nanos_lem ts now) at a))
  where
    apart : IsApart s (nanos ts -ℤ nanos now) r → IsApart s (nanos ts) (nanos now +ℤ r)
    apart (inl k) = inl (omega (int_laws))
    apart (inr k) = inr (omega (int_laws))

from-last :
    (now last : Timespec) (s x r : ℤ)
    → x ≤ℤ r
    → (diff_nanos now last <ℤ pos 0) ⊎ (s ≤ℤ diff_nanos now last +ℤ x)
    → (nanos now <ℤ nanos last) ⊎ (nanos last +ℤ s ≤ℤ nanos (add_nanos now r))
from-last now last s x r le h =
    rw (nanos-add_nanos now r) (after (rw (diff_nanos_lem now last) at h))
  where
    after :
        (nanos now -ℤ nanos last <ℤ pos 0) ⊎ (s ≤ℤ nanos now -ℤ nanos last +ℤ x)
        → (nanos now <ℤ nanos last) ⊎ (nanos last +ℤ s ≤ℤ nanos now +ℤ r)
    after (inl k) = inl (omega int_laws)
    after (inr k) = inr (omega int_laws)

-- Where the walk of a delayed timeout stops.
delayed_lem :
    (now ts : Timespec) (r : ℤ) (b : Bool)
    → ltb_ℤ r (diff_nanos ts now) ≡ b
    → Before b (add_nanos now r) ts
delayed_lem now ts r true h = rw (nanos-add_nanos now r) (
    let k : ltb_ℤ r (nanos ts -ℤ nanos now) ≡ true = rw (← diff_nanos_lem ts now) h in
    omega (int_laws, tests))
delayed_lem now ts r false h = rw (nanos-add_nanos now r) (
    let k : ltb_ℤ r (nanos ts -ℤ nanos now) ≡ false = rw (← diff_nanos_lem ts now) h in
    ground (arith, +ℤ_parts (nanos now) r, -ℤ_parts (nanos ts) (nanos now)))

⊎-map : {A B C : Type 0} → A ⊎ B → (B → C) → A ⊎ C
⊎-map (inl a) f = inl a
⊎-map (inr b) f = inr (f b)

ApartFrom-nanos :
    {Task : Type 0} (now : Timespec) (c : ℕ) (s : ℤ) (h : pos 0 ≤ℤ s) (r : ℤ)
    (queue : List (TimerQueueEntry Task))
    → ApartFrom now c s h r queue
    → All (λ e. (e.timeout_class ≢ c) ⊎ IsApart s (nanos e.ts) (nanos (add_nanos now r))) queue
ApartFrom-nanos now c s h r [] a = tt
ApartFrom-nanos now c s h r (e ∷ queue) (a, b) =
    (⊎-map a λ k. IsApart-nanos now s r e.ts k, ApartFrom-nanos now c s h r queue b)

module _ {Task : Type 0} where
  class_delay_lem :
      (t : Timers Task) (now : Timespec) (delay s : ℤ) (c : ℕ) (last : Timespec)
      → IsValid t
      → pos 0 ≤ℤ delay
      → pos 0 ≤ℤ s
      → let ts = add_nanos now (class_delay t now delay s c last) in
        (nanos now +ℤ delay ≤ℤ nanos ts)
        × All (λ e. (e.timeout_class ≢ c) ⊎ IsApart s (nanos e.ts) (nanos ts)) t.queue
        × ((nanos now <ℤ nanos last) ⊎ (nanos last +ℤ s ≤ℤ nanos ts))
  unfolding class_delay
  class_delay_lem t now delay s c last v hd hs =
      let d = diff_nanos now last in
      let x = separate_last d delay s in
      let r = separate_queue now c s t.queue x in
      let ge = separate_queue-ge now c s hs t.queue x in
      (
        rw (nanos-add_nanos now r) (omega (int_laws, ge, separate_last-ge d delay s)),
        ApartFrom-nanos now c s hs r t.queue
            (separate_queue-IsApart now c s hs t.queue x v.ordered),
        from-last now last s x r ge (separate_last_lem d delay s hd),
      )

  -- A timeout of a class is queued, at the delay asked for or later, at least the separation away
  -- from every queued timeout of its class, and from the last one dispatched in the class unless
  -- the clock was set back since; the queue stays in order.
  -- Conditions: delays are not negative, the class has a time of its last dispatch, at most
  -- 2^32 - 2 timeouts are queued, and times are in normal form.
  pub add_timeout_in_class_lem :
      (t : Timers Task) (now : Timespec) (delay s : ℤ) (c : ℕ) (task : Task) (last : Timespec)
      → IsValid t
      → pos 0 ≤ℤ delay
      → pos 0 ≤ℤ s
      → get_elem? t.last_class_dispatch c ≡ some last
      → length t.queue + 2 ≤ 2 ^ 32
      → (u : Timers Task) × (i : ℕ) × (ts : Timespec) × (add_timeout_in_class t now delay s c task
          ≡ some (u, i))
        × IsValid u
        × (time_of i u.queue ≡ some ts)
        × (remove_timeout u i ≡ some (record t { next_id = i }))
        × (nanos now +ℤ delay ≤ℤ nanos ts)
        × All (λ e. (e.timeout_class ≢ c) ⊎ IsApart s (nanos e.ts) (nanos ts)) t.queue
        × ((nanos now <ℤ nanos last) ⊎ (nanos last +ℤ s ≤ℤ nanos ts))
  unfolding add_timeout_in_class
  add_timeout_in_class_lem t now delay s c task last v hd hs l room =
      let (i, e, z, fresh, lt) = get_new_tqe_id_total t.queue t.next_id room in
      let r = class_delay t now delay s c last in
      let new : TimerQueueEntry Task = record {
        ts = add_nanos now r;
        id = i;
        timeout_class = c;
        task = task;
      } in
      let stops : TimerQueueEntry Task → Bool = λ f. ltb_ℤ r (diff_nanos f.ts now) in
      let early : ltb_ℤ delay (pos 0) ≡ false = ground arith in
      let (later, apart, from_last) = class_delay_lem t now delay s c last v hd hs in
      (
        enqueued t stops new,
        i,
        add_nanos now r,
        rw (early, l, e) refl,
        enqueued-IsValid t stops new (λ f m k. delayed_lem now f.ts r true k)
            (λ f m k. delayed_lem now f.ts r false k) v (add_nanos-IsNormal now r) z fresh,
        time_of-enqueued t stops new fresh,
        remove_timeout-enqueued t stops new z fresh,
        later,
        apart,
        from_last,
      )
