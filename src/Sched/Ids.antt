-- ===== src/Sched/Ids.antt =====
-- sched.c: the search for an ID that no queued timeout has.
use chrony_nts.Prelude.{
  ℕ, zero, suc, ◌+◌, ◌%◌, ◌^◌, ◌≤◌, ◌<◌, ◌≡◌, ◌≢◌, inl, inr, refl, Bool, true, false, ◌||◌, List,
  [], ◌∷◌, none, some, arith, Bool-cases, Option-cases, ◌==◌, length, if◌then◌else◌, ap, sym, subst,
}
use chrony_nts.Sched.{TimerQueueEntry, id_in_use, new_id_from, get_new_tqe_id}

in_list : ℕ → List ℕ → Bool
in_list x [] = false
in_list x (y ∷ ys) = y == x || in_list x ys

erase : ℕ → List ℕ → List ℕ
erase x [] = []
erase x (y ∷ ys) = if y == x then ys else y ∷ erase x ys

length-erase : (x : ℕ) (ys : List ℕ) → in_list x ys ≡ true → length ys ≡ length (erase x ys) + 1
unfolding in_list erase
length-erase x [] h = cc
length-erase x (y ∷ ys) h = ground (arith, length-erase x ys)

in_list-erase_ne :
    (x z : ℕ) (ys : List ℕ) → x ≢ z → in_list z ys ≡ true → in_list z (erase x ys) ≡ true
unfolding in_list erase
in_list-erase_ne x z [] ne h = h
in_list-erase_ne x z (y ∷ ys) ne h = ground (arith, in_list-erase_ne x z ys ne)

-- Distinct members are at most as many as the list is long.
distinct-le-length :
    (m : ℕ) (f : ℕ → ℕ) (ys : List ℕ)
    → ((i j : ℕ) → i < j → j < m → f i ≢ f j)
    → ((i : ℕ) → i < m → in_list (f i) ys ≡ true)
    → m ≤ length ys
distinct-le-length zero f ys apart full = omega arith
distinct-le-length (suc m) f ys apart full =
    let rest =
      distinct-le-length m f (erase (f m) ys) (λ i j h k. apart i j h (omega arith))
        (λ i h.
          in_list-erase_ne (f m) (f i) ys (λ e. apart i m h (omega arith) (sym e))
            (full i (omega arith))) in
    omega (arith, rest, length-erase (f m) ys (full m (omega arith)))

module _ {Task : Type 0} where
  -- The IDs of the queue.
  ids : List (TimerQueueEntry Task) → List ℕ
  ids [] = []
  ids (e ∷ queue) = e.id ∷ ids queue

  length-ids : (queue : List (TimerQueueEntry Task)) → length (ids queue) ≡ length queue
  unfolding ids
  length-ids [] = refl
  length-ids (e ∷ queue) = ap suc (length-ids queue)

  in_list-ids :
      (i : ℕ) (queue : List (TimerQueueEntry Task)) → in_list i (ids queue) ≡ id_in_use i queue
  unfolding in_list ids id_in_use
  in_list-ids i [] = refl
  in_list-ids i (e ∷ queue) = rw (in_list-ids i queue)

  new_id_from-none :
      (fuel : ℕ) (queue : List (TimerQueueEntry Task)) (next : ℕ)
      → new_id_from fuel queue next ≡ none
      → (i : ℕ) → i < fuel
      → in_list ((next + 1 + i) % 2 ^ 32) (0 ∷ ids queue) ≡ true
  unfolding new_id_from in_list
  new_id_from-none zero queue next h i k = elim k [ ]
  new_id_from-none (suc fuel) queue next h zero k =
      ground (arith, in_list-ids ((next + 1) % 2 ^ 32) queue)
  new_id_from-none (suc fuel) queue next h (suc i) k =
      let m = (next + 1) % 2 ^ 32 in
      elim (Bool-cases (m == 0 || id_in_use m queue)) [
        | inl e ↦
            let later = new_id_from-none fuel queue m (rw e at h) i (omega arith) in
            let same : (m + 1 + i) % 2 ^ 32 ≡ (next + 1 + suc i) % 2 ^ 32 = omega arith in
            subst (λ v. in_list v (0 ∷ ids queue) ≡ true) same later
        | inr e ↦ cc (rw e at h)
      ]

  -- What a try that ends the search has found.
  pub new_id_from-some :
      (fuel : ℕ) (queue : List (TimerQueueEntry Task)) (next i : ℕ)
      → new_id_from fuel queue next ≡ some i
      → (i ≢ 0) × (id_in_use i queue ≡ false) × (i < 2 ^ 32)
  unfolding new_id_from
  new_id_from-some zero queue next i h = cc
  new_id_from-some (suc fuel) queue next i h =
      ground (arith, new_id_from-some fuel queue ((next + 1) % 2 ^ 32) i)

  -- The search for an ID ends, with an ID that is valid and not in use, as long as the queue and
  -- the invalid ID leave one of the 2^32.
  pub get_new_tqe_id_total :
      (queue : List (TimerQueueEntry Task)) (next : ℕ)
      → length queue + 2 ≤ 2 ^ 32
      → (i : ℕ) × (get_new_tqe_id queue next ≡ some i)
        × (i ≢ 0)
        × (id_in_use i queue ≡ false)
        × (i < 2 ^ 32)
  get_new_tqe_id_total queue next room = elim (Option-cases (get_new_tqe_id queue next)) [
    | inl e ↦
        let many =
          distinct-le-length (length queue + 2) (λ i. (next + 1 + i) % 2 ^ 32) (0 ∷ ids queue)
            (λ i j h k p. omega arith) (new_id_from-none (length queue + 2) queue next e) in
        absurd (omega (arith, many, length-ids queue))
    | inr (i, e) ↦
        let (z, fresh, lt) = new_id_from-some (length queue + 2) queue next i e in
        (i, e, z, fresh, lt)
  ]
