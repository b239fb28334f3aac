-- ===== src/NtsKe/Session/Accepting.antt =====
-- nts_ke.c: the connections that a server accepts, and a slot that keeps a pointer to a connection that
-- was destroyed.
use chrony_nts.Prelude.{
  ℕ, zero, suc, ◌+◌, ◌≡◌, refl, ap, ◌∙◌, arith, Bool, true, false, List, [], ◌∷◌, none, some,
  some_inj, set, Bool-cases, ◌>>=◌, inl, inr,
}
use chrony_nts.NtsKe.Session.{
  is_closed, Slot, empty, freed, live, choose_slot, place, accept_connection,
}

-- The slot that is chosen is in range, and a freed one in its place is met by the next search.
choose_slot-freed :
    (i k : ℕ) (slots : List Slot)
    → choose_slot i slots ≡ some (some (i + k))
    → choose_slot i (set slots k freed) ≡ none
unfolding choose_slot
choose_slot-freed i k [] e = cc
choose_slot-freed i zero (s ∷ slots) e = refl
choose_slot-freed i (suc k) (empty ∷ slots) e = absurd (omega (arith, some_inj (some_inj e)))
choose_slot-freed i (suc k) (freed ∷ slots) e = cc
choose_slot-freed i (suc k) (live c ∷ slots) e = elim (Bool-cases (is_closed c.state)) [
  | inl over ↦
      let here : some (some i) ≡ some (some (i + suc k)) = rw over at e in
      absurd (omega (arith, some_inj (some_inj here)))
  | inr busy ↦
      let later : choose_slot (i + 1) slots ≡ some (some (i + suc k)) = rw busy at e in
      let next : i + suc k ≡ i + 1 + k = omega arith in
      rw busy (choose_slot-freed (i + 1) k slots (later ∙ ap (λ (j : ℕ). some (some j)) next))
]

-- When the session of an accepted connection could not be made, its slot keeps the pointer to the
-- connection that was destroyed, and the next connection that is allowed reads freed memory. Conditions:
-- a slot was free for the connection, and its socket could be set up.
pub accept_connection-dangling :
    (slots : List Slot) (i : ℕ) (set_up session : Bool)
    → choose_slot 0 slots ≡ some (some i)
    → (accept_connection true true false slots >>= accept_connection true set_up session) ≡ none
unfolding accept_connection place
accept_connection-dangling slots i set_up session e =
    let from_zero : i ≡ 0 + i = omega arith in
    let next = choose_slot-freed 0 i slots (e ∙ ap (λ (j : ℕ). some (some j)) from_zero) in
    rw e (rw next refl)
