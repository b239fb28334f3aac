-- ===== src/Sched/Files.antt =====
-- sched.c: the handlers of file descriptors.
use chrony_nts.Prelude.{
  ℕ, zero, suc, ◌+◌, ◌≤◌, ◌<◌, ◌≡◌, ◌≢◌, ◌∙◌, ap, inl, inr, refl, Bool, true, false, not, ◌||◌,
  List, [], ◌∷◌, Option, none, some, arith, Option-cases, length, ltb, leb, ◌==◌, if◌then◌else◌,
  set, get_or, get_elem?, ◌>>=◌, ℕ_discrete,
}

-- The bits of `events`.
pub record Events : Type 0 where
  pub input : Bool
  pub output : Bool
  pub exception : Bool

pub data Event : Type 0 where
  file_input file_output file_exception : Event

abbrev pub no_events : Events
no_events = record { input = false; output = false; exception = false }

pub set_bit : Events → Event → Bool → Events
set_bit events file_input enable = record events { input = enable }
set_bit events file_output enable = record events { output = enable }
set_bit events file_exception enable = record events { exception = enable }

-- A handler that is NULL is `none`.
pub record FileHandlerEntry (Handler : Type 0) : Type 0 where
  pub handler : Option Handler
  pub events : Events

pub record FileHandlers (Handler : Type 0) : Type 0 where
  pub entries : List (FileHandlerEntry Handler)
  pub one_highest_fd : ℕ

module _ {Handler : Type 0} where
  abbrev pub no_handler : FileHandlerEntry Handler
  no_handler = record { handler = none; events = no_events }

  abbrev pub handler_at : List (FileHandlerEntry Handler) → ℕ → Option Handler
  handler_at entries fd = (get_or entries fd no_handler).handler

  -- The array with an element for the descriptor.
  pub grow_entries : List (FileHandlerEntry Handler) → ℕ → List (FileHandlerEntry Handler)
  grow_entries [] zero = no_handler ∷ []
  grow_entries [] (suc fd) = no_handler ∷ grow_entries [] fd
  grow_entries (e ∷ entries) zero = e ∷ entries
  grow_entries (e ∷ entries) (suc fd) = e ∷ grow_entries entries fd

  -- `none` is a failed assertion or LOG_FATAL; `limit` is FD_SETSIZE.
  pub add_file_handler :
      ℕ → FileHandlers Handler → ℕ → Events → Handler → Option (FileHandlers Handler)
  unfolding grow_entries
  add_file_handler limit f fd events handler =
      let entries = grow_entries f.entries fd in
      if not (events.input || events.output || events.exception) || leb limit fd
      then none
      else elim (handler_at entries fd) [
        | some _ ↦ none
        | none ↦ some (record {
          entries = set entries fd (record { handler = some handler; events = events });
          one_highest_fd = if ltb f.one_highest_fd (fd + 1) then fd + 1 else f.one_highest_fd;
        })
      ]

  -- The loop for the new highest descriptor.
  pub lower_highest : List (FileHandlerEntry Handler) → ℕ → ℕ
  lower_highest entries zero = zero
  lower_highest entries (suc fd) = elim (handler_at entries fd) [
    | some _ ↦ suc fd
    | none ↦ lower_highest entries fd
  ]

  -- `none` is a failed assertion.
  pub remove_file_handler : FileHandlers Handler → ℕ → Option (FileHandlers Handler)
  unfolding lower_highest
  remove_file_handler f fd = elim (handler_at f.entries fd) [
    | none ↦ none
    | some _ ↦
        let entries = set f.entries fd no_handler in
        some (record { entries = entries; one_highest_fd = lower_highest entries f.one_highest_fd })
  ]

  pub set_file_handler_event :
      FileHandlers Handler → ℕ → Event → Bool → Option (FileHandlers Handler)
  unfolding set_bit
  set_file_handler_event f fd event enable = do
    e ← get_elem? f.entries fd
    some (record f {
      entries = set f.entries fd (record e { events = set_bit e.events event enable });
    })

  -- Above the highest descriptor there is no handler, and the highest one has one.
  pub record IsValid (f : FileHandlers Handler) : Type 0 where
    pub above : (fd : ℕ) → f.one_highest_fd ≤ fd → handler_at f.entries fd ≡ none
    pub highest : (fd : ℕ) → f.one_highest_fd ≡ suc fd → handler_at f.entries fd ≢ none

  handler_at-grow_entries :
      (entries : List (FileHandlerEntry Handler)) (fd k : ℕ)
      → handler_at (grow_entries entries fd) k ≡ handler_at entries k
  unfolding grow_entries
  handler_at-grow_entries [] zero zero = refl
  handler_at-grow_entries [] zero (suc k) = refl
  handler_at-grow_entries [] (suc fd) zero = refl
  handler_at-grow_entries [] (suc fd) (suc k) = handler_at-grow_entries [] fd k
  handler_at-grow_entries (e ∷ entries) zero k = refl
  handler_at-grow_entries (e ∷ entries) (suc fd) zero = refl
  handler_at-grow_entries (e ∷ entries) (suc fd) (suc k) = handler_at-grow_entries entries fd k

  lt-length-grow_entries :
      (entries : List (FileHandlerEntry Handler)) (fd : ℕ) → fd < length (grow_entries entries fd)
  unfolding grow_entries
  lt-length-grow_entries [] zero = omega arith
  lt-length-grow_entries [] (suc fd) = omega (arith, lt-length-grow_entries [] fd)
  lt-length-grow_entries (e ∷ entries) zero = omega arith
  lt-length-grow_entries (e ∷ entries) (suc fd) = omega (arith, lt-length-grow_entries entries fd)

  handler_at-lt :
      (entries : List (FileHandlerEntry Handler)) (fd : ℕ)
      → handler_at entries fd ≢ none
      → fd < length entries
  handler_at-lt [] fd h = absurd (h refl)
  handler_at-lt (e ∷ entries) zero h = omega arith
  handler_at-lt (e ∷ entries) (suc fd) h = omega (arith, handler_at-lt entries fd h)

  handler_at-set :
      (entries : List (FileHandlerEntry Handler)) (fd k : ℕ) (e : FileHandlerEntry Handler)
      → fd < length entries
      → handler_at (set entries fd e) k ≡ (if k == fd then e.handler else handler_at entries k)
  handler_at-set [] fd k e h = elim h [ ]
  handler_at-set (x ∷ entries) zero zero e h = refl
  handler_at-set (x ∷ entries) zero (suc k) e h = ground arith
  handler_at-set (x ∷ entries) (suc fd) zero e h = ground arith
  handler_at-set (x ∷ entries) (suc fd) (suc k) e h =
      ground (arith, handler_at-set entries fd k e (omega arith))

  -- A descriptor with no handler gets the one that is added, and no other changes; the highest
  -- descriptor stays right. Conditions: some event is asked for, and the descriptor is in the limit.
  pub add_file_handler_lem :
      (limit : ℕ) (f : FileHandlers Handler) (fd : ℕ) (events : Events) (handler : Handler)
      → IsValid f
      → (events.input || events.output || events.exception) ≡ true
      → fd < limit
      → handler_at f.entries fd ≡ none
      → (g : FileHandlers Handler) × (add_file_handler limit f fd events handler ≡ some g)
        × IsValid g
        × ((k : ℕ)
            → handler_at g.entries k ≡ (if k == fd then some handler else handler_at f.entries k))
  unfolding add_file_handler
  add_file_handler_lem limit f fd events handler v some_event lt free =
      let new : FileHandlerEntry Handler = record { handler = some handler; events = events } in
      let entries = grow_entries f.entries fd in
      let was : handler_at entries fd ≡ none = handler_at-grow_entries f.entries fd fd ∙ free in
      let now : (k : ℕ)
          → handler_at (set entries fd new) k
            ≡ (if k == fd then some handler else handler_at f.entries k) =
        λ k.
          handler_at-set entries fd k new (lt-length-grow_entries f.entries fd)
          ∙ ap (λ h. if k == fd then some handler else h)
              (handler_at-grow_entries f.entries fd k) in
      let top = if ltb f.one_highest_fd (fd + 1) then fd + 1 else f.one_highest_fd in
      let in_limit : leb limit fd ≡ false = ground arith in
      (
        record { entries = set entries fd new; one_highest_fd = top },
        rw some_event (rw in_limit (rw was refl)),
        record {
          above = λ k le. now k ∙ ground (arith, v.above k);
          highest = λ k e n. ground (arith, now k, v.highest k);
        },
        now,
      )

  lower_highest-le :
      (entries : List (FileHandlerEntry Handler)) (top fd : ℕ)
      → ((k : ℕ) → top ≤ k → handler_at entries k ≡ none)
      → lower_highest entries top ≤ fd
      → handler_at entries fd ≡ none
  unfolding lower_highest
  lower_highest-le entries zero fd above le = above fd (omega arith)
  lower_highest-le entries (suc top) fd above le = elim (Option-cases (handler_at entries top)) [
    | inl e ↦
        lower_highest-le entries top fd
          (λ k h. elim (ℕ_discrete k top) [ yes p ↦ rw p e | no p ↦ above k (omega arith) ])
          (rw (e, lower_highest) at le)
    | inr (x, e) ↦ above fd (rw (e, lower_highest) at le)
  ]

  lower_highest-ne :
      (entries : List (FileHandlerEntry Handler)) (top fd : ℕ)
      → lower_highest entries top ≡ suc fd
      → handler_at entries fd ≢ none
  unfolding lower_highest
  lower_highest-ne entries zero fd e = absurd (omega arith)
  lower_highest-ne entries (suc top) fd e = elim (Option-cases (handler_at entries top)) [
    | inl h ↦ lower_highest-ne entries top fd (rw (h, lower_highest) at e)
    | inr (x, h) ↦
        let same : top ≡ fd = omega (arith, rw (h, lower_highest) at e) in
        λ n. cc (ap (λ k. handler_at entries k) same)
  ]

  -- A descriptor with a handler loses it, and no other changes; the highest descriptor is found
  -- anew, as low as it can be.
  pub remove_file_handler_lem :
      (f : FileHandlers Handler) (fd : ℕ)
      → IsValid f
      → handler_at f.entries fd ≢ none
      → (g : FileHandlers Handler) × (remove_file_handler f fd ≡ some g)
        × IsValid g
        × ((k : ℕ) → handler_at g.entries k ≡ (if k == fd then none else handler_at f.entries k))
  unfolding remove_file_handler
  remove_file_handler_lem f fd v used = elim (Option-cases (handler_at f.entries fd)) [
    | inl e ↦ absurd (used e)
    | inr (h, e) ↦
        let entries = set f.entries fd no_handler in
        let now : (k : ℕ)
            → handler_at entries k ≡ (if k == fd then none else handler_at f.entries k) =
          λ k. handler_at-set f.entries fd k no_handler (handler_at-lt f.entries fd used) in
        (
          record { entries = entries; one_highest_fd = lower_highest entries f.one_highest_fd },
          rw (e, remove_file_handler) refl,
          record {
            above = λ k le.
                lower_highest-le entries f.one_highest_fd k
                  (λ j l. now j ∙ ground (arith, v.above j)) le;
            highest = λ k l. lower_highest-ne entries f.one_highest_fd k l;
          },
          now,
        )
  ]
