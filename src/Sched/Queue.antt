-- ===== src/Sched/Queue.antt =====
-- sched.c: the order of the timer queue and its IDs, under adding and removing timeouts.
use chrony_nts.Prelude.{
  ℕ, ◌+◌, ◌≡◌, ◌≢◌, inl, inr, refl, Bool, true, false, List, [], ◌∷◌, Option, none, some, arith,
  Bool-cases, ◌==◌, length, if◌then◌else◌, sym,
}
use chrony_nts.Prelude.Int.{◌≤ℤ◌}
use chrony_nts.Time.{Timespec, nanos}
use chrony_nts.Time.Laws.{IsNormal}
use chrony_nts.Sched.{TimerQueueEntry, Timers, insert_before, unlink, remove_timeout, id_in_use}

abbrev pub All {ℓ κ} : {A : Type ℓ} → (A → Type κ) → List A → Type κ
All P [] = Unit
All P (x ∷ xs) = P x × All P xs

-- What the test of two times says of their order.
abbrev pub Before : Bool → Timespec → Timespec → Type 0
Before true a b = nanos a ≤ℤ nanos b
Before false a b = nanos b ≤ℤ nanos a

module _ {Task : Type 0} where
  -- The second of two entries of the queue: it expires no earlier and has another ID.
  abbrev pub Follows : TimerQueueEntry Task → TimerQueueEntry Task → Type 0
  Follows e f = (nanos e.ts ≤ℤ nanos f.ts) × (f.id ≢ e.id)

  -- Times in normal form and in order, valid and distinct IDs.
  abbrev pub IsQueue : List (TimerQueueEntry Task) → Type 0
  IsQueue [] = Unit
  IsQueue (e ∷ queue) = IsNormal e.ts × (e.id ≢ 0) × All (Follows e) queue × IsQueue queue

  pub record IsValid (t : Timers Task) : Type 0 where
    pub ordered : IsQueue t.queue
    pub counted : t.n_entries ≡ length t.queue

  id_in_use-All :
      (i : ℕ) (queue : List (TimerQueueEntry Task))
      → id_in_use i queue ≡ false
      → All (λ f. f.id ≢ i) queue
  unfolding id_in_use
  id_in_use-All i [] h = tt
  id_in_use-All i (e ∷ queue) h = ground (arith, id_in_use-All i queue)

  All-Follows :
      (e new : TimerQueueEntry Task) (queue : List (TimerQueueEntry Task))
      → nanos new.ts ≤ℤ nanos e.ts
      → All (Follows e) queue
      → All (λ f. f.id ≢ new.id) queue
      → All (Follows new) queue
  All-Follows e new [] le f a = tt
  All-Follows e new (g ∷ queue) le ((l, h), f) (d, a) =
      ((omega arith, d), All-Follows e new queue le f a)

  All-insert_before :
      (P : TimerQueueEntry Task → Type 0) (stops : TimerQueueEntry Task → Bool)
      (new : TimerQueueEntry Task) (queue : List (TimerQueueEntry Task))
      → P new
      → All P queue
      → All P (insert_before stops new queue)
  unfolding insert_before
  All-insert_before P stops new [] p h = (p, tt)
  All-insert_before P stops new (e ∷ queue) p h = elim (Bool-cases (stops e)) [
    | inl s ↦ rw s (p, h)
    | inr s ↦ rw s (h.0, All-insert_before P stops new queue p h.1)
  ]

  -- Insertion before the first entry that is not earlier keeps the queue in order, if the walk
  -- stops at later entries only and passes earlier ones only.
  pub insert_before-IsQueue :
      (stops : TimerQueueEntry Task → Bool) (new : TimerQueueEntry Task)
      (queue : List (TimerQueueEntry Task))
      → ((e : TimerQueueEntry Task) → IsNormal e.ts → stops e ≡ true → nanos new.ts ≤ℤ nanos e.ts)
      → ((e : TimerQueueEntry Task) → IsNormal e.ts → stops e ≡ false → nanos e.ts ≤ℤ nanos new.ts)
      → IsNormal new.ts
      → new.id ≢ 0
      → All (λ f. f.id ≢ new.id) queue
      → IsQueue queue
      → IsQueue (insert_before stops new queue)
  unfolding insert_before
  insert_before-IsQueue stops new [] later earlier n z a q = (n, z, tt, tt)
  insert_before-IsQueue stops new (e ∷ queue) later earlier n z (d, a) (m, y, f, q) =
      elim (Bool-cases (stops e)) [
        | inl s ↦
            let le = later e m s in
            rw s (n, z, ((le, d), All-Follows e new queue le f a), (m, y, f, q))
        | inr s ↦ rw s (
          m,
          y,
          All-insert_before (Follows e) stops new queue (earlier e m s, λ p. d (sym p)) f,
          insert_before-IsQueue stops new queue later earlier n z a q,
        )
      ]

  -- Removing the ID of a new entry takes the entry out again.
  pub unlink-insert_before :
      (stops : TimerQueueEntry Task → Bool) (new : TimerQueueEntry Task)
      (queue : List (TimerQueueEntry Task))
      → All (λ f. f.id ≢ new.id) queue
      → unlink new.id (insert_before stops new queue) ≡ some queue
  unfolding insert_before unlink
  unlink-insert_before stops new [] a = ground arith
  unlink-insert_before stops new (e ∷ queue) (d, a) = elim (Bool-cases (stops e)) [
    | inl s ↦ rw s (ground arith)
    | inr s ↦ rw s (ground (arith, unlink-insert_before stops new queue a))
  ]

  pub length-insert_before :
      (stops : TimerQueueEntry Task → Bool) (new : TimerQueueEntry Task)
      (queue : List (TimerQueueEntry Task))
      → length (insert_before stops new queue) ≡ length queue + 1
  unfolding insert_before
  length-insert_before stops new [] = refl
  length-insert_before stops new (e ∷ queue) = ground (arith, length-insert_before stops new queue)

  -- The timers with a new entry.
  abbrev pub enqueued :
      Timers Task → (TimerQueueEntry Task → Bool) → TimerQueueEntry Task → Timers Task
  enqueued t stops new = record t {
    queue = insert_before stops new t.queue;
    n_entries = t.n_entries + 1;
    next_id = new.id;
  }

  pub enqueued-IsValid :
      (t : Timers Task) (stops : TimerQueueEntry Task → Bool) (new : TimerQueueEntry Task)
      → ((e : TimerQueueEntry Task) → IsNormal e.ts → stops e ≡ true → nanos new.ts ≤ℤ nanos e.ts)
      → ((e : TimerQueueEntry Task) → IsNormal e.ts → stops e ≡ false → nanos e.ts ≤ℤ nanos new.ts)
      → IsValid t
      → IsNormal new.ts
      → new.id ≢ 0
      → id_in_use new.id t.queue ≡ false
      → IsValid (enqueued t stops new)
  enqueued-IsValid t stops new later earlier v n z fresh = record {
    ordered =
        insert_before-IsQueue stops new t.queue later earlier n z
          (id_in_use-All new.id t.queue fresh) v.ordered;
    counted = omega (arith, v.counted, length-insert_before stops new t.queue);
  }

  pub remove_timeout-enqueued :
      (t : Timers Task) (stops : TimerQueueEntry Task → Bool) (new : TimerQueueEntry Task)
      → new.id ≢ 0
      → id_in_use new.id t.queue ≡ false
      → remove_timeout (enqueued t stops new) new.id ≡ some (record t { next_id = new.id })
  unfolding remove_timeout
  remove_timeout-enqueued t stops new z fresh =
      ground (arith, unlink-insert_before stops new t.queue (id_in_use-All new.id t.queue fresh))

  -- The time of the timeout with the ID.
  abbrev pub time_of : ℕ → List (TimerQueueEntry Task) → Option Timespec
  time_of i [] = none
  time_of i (e ∷ queue) = if e.id == i then some e.ts else time_of i queue

  time_of-insert_before :
      (stops : TimerQueueEntry Task → Bool) (new : TimerQueueEntry Task)
      (queue : List (TimerQueueEntry Task))
      → All (λ f. f.id ≢ new.id) queue
      → time_of new.id (insert_before stops new queue) ≡ some new.ts
  unfolding insert_before
  time_of-insert_before stops new [] a = ground arith
  time_of-insert_before stops new (e ∷ queue) (d, a) = elim (Bool-cases (stops e)) [
    | inl s ↦ rw s (ground arith)
    | inr s ↦ rw s (ground (arith, time_of-insert_before stops new queue a))
  ]

  pub time_of-enqueued :
      (t : Timers Task) (stops : TimerQueueEntry Task → Bool) (new : TimerQueueEntry Task)
      → id_in_use new.id t.queue ≡ false
      → time_of new.id (enqueued t stops new).queue ≡ some new.ts
  time_of-enqueued t stops new fresh =
      time_of-insert_before stops new t.queue (id_in_use-All new.id t.queue fresh)
