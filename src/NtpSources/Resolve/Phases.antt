-- ===== src/NtpSources/Resolve/Phases.antt =====
-- ntp_sources.c: the phases of the resolver and the calls that lead from one to another.
use chrony_nts.Prelude.{
  ◌||◌, ℕ, ◌+◌, ◌*◌, ◌^◌, ◌≤◌, ◌<◌, ◌≡◌, refl, ◌⊎◌, inl, inr, ◌∙◌, subst, arith, true, List, [],
  ◌∷◌, ◌++◌, Option, none, some, length, Bool-cases, ltb, length-append, Option-cases,
  if◌then◌else◌, ltb→lt, ◌-◌,
}
use chrony_nts.NtpSources.{not}
use chrony_nts.NtpSources.Resolve.{
  UnresolvedSource, Answer, Resolver, end_round, advance, resolve_sources, resolving_timeout,
  resolve_now, append_unresolved_source, resolve_interval_unit, max_resolve_interval,
  min_resolve_interval, remove_at, is_replacement, stop_timer, is_try_again,
}

module _ {Instance : Type 0} where
  -- No round is running: none is planned, or one is, after 7 * 2^interval seconds, for sources in the
  -- list.
  abbrev pub IsIdle : Resolver Instance → Type 0
  IsIdle r =
      ((r.interval ≡ 0) × (r.timer ≡ none))
      ⊎ ((min_resolve_interval ≤ r.interval)
          × (r.interval ≤ max_resolve_interval)
          × (r.timer ≡ some (resolve_interval_unit * 2 ^ r.interval))
          × (0 < length r.unresolved))

  -- The round has come to a source in the list, and no other is planned.
  abbrev pub IsRunning : ℕ → Resolver Instance → Type 0
  IsRunning i r = (i < length r.unresolved) × (r.timer ≡ none) × (r.interval ≤ max_resolve_interval)

  abbrev pub PhaseAt : Option ℕ → Resolver Instance → Type 0
  PhaseAt none r = IsIdle r
  PhaseAt (some i) r = IsRunning i r

  abbrev pub IsPhase : Resolver Instance → Type 0
  IsPhase r = PhaseAt r.resolving r

  pub resolve_sources-IsPhase :
      (r : Resolver Instance)
      → r.resolving ≡ none
      → r.timer ≡ none
      → r.interval ≤ max_resolve_interval
      → 0 < length r.unresolved
      → (t : Resolver Instance) × (resolve_sources r ≡ some t) × IsPhase t
  unfolding resolve_sources
  resolve_sources-IsPhase r idle unplanned low full =
      (record r { resolving = some 0 }, ground arith, (full, unplanned, low))

  stop_timer-idle :
      (r : Resolver Instance)
      → IsIdle r
      → (t : Resolver Instance) × (stop_timer r ≡ some t)
        × (t.resolving ≡ r.resolving)
        × (t.timer ≡ none)
        × (t.interval ≤ max_resolve_interval)
        × (t.unresolved ≡ r.unresolved)
  stop_timer-idle r (inl off) = (r, ground arith, refl, off.1, omega arith, refl)
  stop_timer-idle r (inr on) = (
    record r { timer = none; interval = r.interval - 1 },
    ground arith,
    refl,
    refl,
    omega arith,
    refl,
  )

  resolve_now-running :
      (r : Resolver Instance) (i : ℕ)
      → ltb 0 (length r.unresolved) ≡ true
      → r.resolving ≡ some i
      → resolve_now r ≡ some r
  unfolding resolve_now
  resolve_now-running r i full e = ground (arith, full, e)

  resolve_now-idle :
      (r s : Resolver Instance)
      → ltb 0 (length r.unresolved) ≡ true
      → r.resolving ≡ none
      → stop_timer r ≡ some s
      → resolve_now r ≡ resolve_sources s
  unfolding resolve_now
  resolve_now-idle r s full e stopped = rw full (rw (e, resolve_now) (rw stopped refl))

  recounted :
      (at : Option ℕ) (r : Resolver Instance) (n : ℕ)
      → PhaseAt at r
      → PhaseAt at (record r { rounds = n })
  recounted none r n h = h
  recounted (some i) r n h = h

  -- A call to resolve now is possible in each phase.
  pub resolve_now-IsPhase :
      (r : Resolver Instance)
      → IsPhase r
      → (t : Resolver Instance) × (resolve_now r ≡ some t) × IsPhase t
  unfolding resolve_now
  resolve_now-IsPhase r h = elim (Bool-cases (ltb 0 (length r.unresolved))) [
    | inr empty ↦ (
      record r { rounds = r.rounds + 1 },
      rw empty refl,
      recounted r.resolving r (r.rounds + 1) h,
    )
    | inl full ↦ elim (Option-cases r.resolving) [
      | inr (i, e) ↦ (r, resolve_now-running r i full e, h)
      | inl e ↦
          let (s, stopped, idle, unplanned, low, same) =
            stop_timer-idle r (subst (λ x. PhaseAt x r) e h) in
          let (t, run, p) =
            resolve_sources-IsPhase s (idle ∙ e) unplanned low (rw same (ltb→lt _ _ full)) in
          (t, resolve_now-idle r s full e stopped ∙ run, p)
    ]
  ]

  pub resolving_timeout-IsPhase :
      (r : Resolver Instance) (delay : ℕ)
      → IsPhase r
      → r.timer ≡ some delay
      → (t : Resolver Instance) × (resolving_timeout r ≡ some t) × IsPhase t
  unfolding resolving_timeout
  resolving_timeout-IsPhase r delay h planned = elim (Option-cases r.resolving) [
    | inr (i, e) ↦ let running : IsRunning i r = subst (λ x. PhaseAt x r) e h in cc
    | inl e ↦
        let idle : IsIdle r = subst (λ x. PhaseAt x r) e h in
        elim idle [
          | inl off ↦ cc
          | inr on ↦
              let (t, run, p) =
                resolve_sources-IsPhase (record r { timer = none }) e refl on.1 on.3 in
              (t, rw planned run, p)
        ]
  ]

  pub resolving_timeout-none : (r : Resolver Instance) → r.timer ≡ none → resolving_timeout r ≡ none
  unfolding resolving_timeout
  resolving_timeout-none r off = rw off refl

  end_round-IsPhase :
      (r : Resolver Instance) (list : List UnresolvedSource)
      → r.timer ≡ none
      → r.interval ≤ max_resolve_interval
      → IsPhase (end_round r list)
  end_round-IsPhase r [] unplanned low = inl (refl, unplanned)
  end_round-IsPhase r (us ∷ rest) unplanned low =
      inr (ground arith, ground arith, refl, omega arith)

  placed-IsPhase :
      (r : Resolver Instance) (next : ℕ) (list : List UnresolvedSource)
      → r.timer ≡ none
      → r.interval ≤ max_resolve_interval
      → IsPhase (
          if ltb next (length list)
          then record r { unresolved = list; resolving = some next }
          else end_round r list)
  placed-IsPhase r next list unplanned low = elim (Bool-cases (ltb next (length list))) [
    | inl e ↦ rw e (ltb→lt _ _ e, unplanned, low)
    | inr e ↦ rw e (end_round-IsPhase r list unplanned low)
  ]

  pub advance-IsPhase :
      (r : Resolver Instance) (i : ℕ) (us : UnresolvedSource) (answer : Answer)
      → r.timer ≡ none
      → r.interval ≤ max_resolve_interval
      → IsPhase (advance r i us answer)
  unfolding advance
  advance-IsPhase r i us answer unplanned low =
      let gone = is_replacement us.purpose || not (is_try_again answer) in
      placed-IsPhase r (if gone then i else i + 1)
        (if gone then remove_at i r.unresolved else r.unresolved) unplanned low

  pub append-IsPhase :
      (us : UnresolvedSource) (r : Resolver Instance)
      → IsPhase r
      → IsPhase (append_unresolved_source us r)
  unfolding append_unresolved_source
  append-IsPhase us r h = longer r.resolving h
    where
      size : length (r.unresolved ++ us ∷ []) ≡ length r.unresolved + 1
      size = omega (arith, length-append {0} r.unresolved (us ∷ []))

      longer :
          (at : Option ℕ)
          → PhaseAt at r
          → PhaseAt at (record r { unresolved = r.unresolved ++ us ∷ [] })
      longer none (inl off) = inl off
      longer none (inr on) = inr (on.0, on.1, on.2, omega (arith, size))
      longer (some i) on = (omega (arith, size), on.1, on.2)
