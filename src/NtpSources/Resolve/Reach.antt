-- ===== src/NtpSources/Resolve/Reach.antt =====
-- ntp_sources.c: every sequence of answers, timeouts and calls of the resolver.
use chrony_nts.Prelude.{
  ℕ, ◌≡◌, ◌⊎◌, inl, inr, ◌∙◌, sym, subst, none, some, >>=-eq-some, some_inj, Option-cases,
  get_elem?,
}
use chrony_nts.Addressing.{IpAddr}
use chrony_nts.NtpSources.{Core}
use chrony_nts.NtpSources.Resolve.{
  UnresolvedSource, Answer, Resolver, process_answer, name_resolve_handler, resolving_timeout,
  resolve_now, append_unresolved_source,
}
use chrony_nts.NtpSources.Resolve.Phases.{
  IsRunning, PhaseAt, IsPhase, resolve_now-IsPhase, resolving_timeout-IsPhase,
  resolving_timeout-none, advance-IsPhase, append-IsPhase,
}

module _ {Instance : Type 0} (hash : IpAddr → ℕ) (core : Core Instance) where
  name_resolve_handler-IsPhase :
      (answer : Answer) (random : ℕ) (r t : Resolver Instance)
      → IsPhase r
      → name_resolve_handler hash core answer random r ≡ some t
      → IsPhase t
  unfolding name_resolve_handler
  name_resolve_handler-IsPhase answer random r t h e =
      let (i, at, e1) = >>=-eq-some r.resolving _ e in
      let (us, _, e2) = >>=-eq-some (get_elem? r.unresolved i) _ e1 in
      let (table, _, e3) = >>=-eq-some (process_answer hash core us answer random r.table) _ e2 in
      let on : IsRunning i r = subst (λ x. PhaseAt x r) at h in
      subst IsPhase (some_inj e3)
        (advance-IsPhase (record r { table = table }) i us answer on.1 on.2)

  -- What can happen to the resolver.
  pub data Step (r t : Resolver Instance) : Type 0 where
    answered :
        (answer : Answer) (random : ℕ)
        → name_resolve_handler hash core answer random r ≡ some t
        → Step r t
    timed_out : resolving_timeout r ≡ some t → Step r t
    called : resolve_now r ≡ some t → Step r t
    appended : (us : UnresolvedSource) → t ≡ append_unresolved_source us r → Step r t

  pub data Reach (s : Resolver Instance) : Resolver Instance → Type 0 where
    here : Reach s s
    next : {r t : Resolver Instance} → Reach s r → Step r t → Reach s t

  Step-IsPhase : (r t : Resolver Instance) → IsPhase r → Step r t → IsPhase t
  Step-IsPhase r t h (answered answer random e) = name_resolve_handler-IsPhase answer random r t h e
  Step-IsPhase r t h (timed_out e) = elim (Option-cases r.timer) [
    | inl off ↦ let stuck = resolving_timeout-none r off in cc
    | inr (delay, on) ↦
        let (u, run, p) = resolving_timeout-IsPhase r delay h on in
        subst IsPhase (some_inj (sym run ∙ e)) p
  ]
  Step-IsPhase r t h (called e) =
      let (u, run, p) = resolve_now-IsPhase r h in subst IsPhase (some_inj (sym run ∙ e)) p
  Step-IsPhase r t h (appended us e) = subst IsPhase (sym e) (append-IsPhase us r h)

  reached : (s r : Resolver Instance) → IsPhase s → Reach s r → IsPhase r
  reached s r h here = h
  reached s r h (next before step) = Step-IsPhase _ r (reached s _ h before) step

  -- Whatever answers, timeouts and calls the resolver went through from a phase, it is in a phase: it
  -- is at a source in its list with no round planned, or it is idle with no round planned and the
  -- interval reset, or idle with sources left and a round planned after 7 * 2^k seconds, 2 <= k <= 9.
  -- So a call to resolve now fails no assertion, nor does the timeout of a planned round.
  pub Reach-IsPhase :
      (s r : Resolver Instance)
      → IsPhase s
      → Reach s r
      → IsPhase r
        × ((t : Resolver Instance) × (resolve_now r ≡ some t))
        × ((r.timer ≡ none) ⊎ ((t : Resolver Instance) × (resolving_timeout r ≡ some t)))
  Reach-IsPhase s r h reach =
      let p = reached s r h reach in
      (
        p,
        (let (t, run, _) = resolve_now-IsPhase r p in (t, run)),
        elim (Option-cases r.timer) [
          | inl off ↦ inl off
          | inr (delay, on) ↦
              inr (let (t, run, _) = resolving_timeout-IsPhase r delay p on in (t, run))
        ],
      )
