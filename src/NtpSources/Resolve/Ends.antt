-- ===== src/NtpSources/Resolve/Ends.antt =====
-- ntp_sources.c: a round of resolving ends when the resolver has answered for each source.
use chrony_nts.Prelude.{
  ℕ, suc, ◌+◌, ◌*◌, ◌^◌, ◌≤◌, ◌<◌, ◌≡◌, refl, ◌≢◌, ◌⊎◌, inl, inr, ap, ◌∙◌, sym, subst, arith, List,
  [], ◌∷◌, ◌++◌, Option, none, some, length, ◌>>=◌,
}
use mathlib.Core.List.{append_assoc, append-nil}
use chrony_nts.Addressing.{IpAddr}
use chrony_nts.NtpSources.{SourcePool, Sources, Core}
use chrony_nts.NtpSources.PoolIndex.{HasPools, Keeps}
use chrony_nts.NtpSources.Table.{IsValid, max_sources}
use chrony_nts.NtpSources.Resolve.{
  UnresolvedSource, Answer, Resolver, next_interval, end_round, advance, process_answer,
  name_resolve_handler, resolve_sources, resolve_interval_unit,
}
use chrony_nts.NtpSources.Resolve.Names.{HavePort}
use chrony_nts.NtpSources.Resolve.Rounds.{
  addresses, IsInetAnswer, HasPort, HasPool, HasPool-Keeps, process_answer_lem, kept, running,
  advance_more, advance_last, get_elem?-middle,
}

-- The answers of the resolver, each with the random number that is drawn at it.
abbrev pub Answers : Type 0
Answers = List (Answer × ℕ)

abbrev pub total : Answers → ℕ
total [] = 0
total ((answer, random) ∷ rest) = addresses answer + total rest

abbrev pub AreInetAnswers : Answers → Type 0
AreInetAnswers [] = Unit {0}
AreInetAnswers ((answer, random) ∷ rest) = IsInetAnswer answer × AreInetAnswers rest

abbrev pub HavePorts : ℕ → List UnresolvedSource → Type 0
HavePorts port [] = Unit {0}
HavePorts port (us ∷ rest) = HasPort port us × HavePorts port rest

-- The pools of the new sources exist.
abbrev pub HaveOwnPools : List SourcePool → List UnresolvedSource → Type 0
HaveOwnPools ps [] = Unit {0}
HaveOwnPools ps (us ∷ rest) = HasPool ps us.purpose × HaveOwnPools ps rest

HaveOwnPools-Keeps :
    (ps qs : List SourcePool) (list : List UnresolvedSource)
    → HaveOwnPools ps list
    → Keeps ps qs
    → HaveOwnPools qs list
HaveOwnPools-Keeps ps qs [] h k = h
HaveOwnPools-Keeps ps qs (us ∷ rest) h k =
    (HasPool-Keeps ps qs us.purpose h.0 k, HaveOwnPools-Keeps ps qs rest h.1 k)

-- The sources that are to be tried again.
abbrev pub left_over : List UnresolvedSource → Answers → List UnresolvedSource
left_over [] answers = []
left_over (us ∷ rest) [] = us ∷ rest
left_over (us ∷ rest) ((answer, random) ∷ answers) = kept us answer ++ left_over rest answers

module _ {Instance : Type 0} (hash : IpAddr → ℕ) (core : Core Instance) where
  -- The handler on each answer in turn.
  unfoldable pub answer_all : Answers → Resolver Instance → Option (Resolver Instance)
  answer_all [] r = some r
  answer_all ((answer, random) ∷ rest) r = do
    t ← name_resolve_handler hash core answer random r
    answer_all rest t

  -- A round that has ended, of a resolver with the interval and the number of rounds.
  pub record Ended (port interval rounds : ℕ) (list : List UnresolvedSource) (t : Resolver Instance)
      : Type 0 where
    pub idle : t.resolving ≡ none
    pub counted : t.rounds ≡ rounds + 1
    pub unresolved : t.unresolved ≡ list
    pub valid : IsValid hash t.table
    pub ports : HavePort port t.table
    pub has_pools : HasPools t.table
    pub planned :
        ((list ≡ []) × (t.interval ≡ 0) × (t.timer ≡ none))
        ⊎ ((list ≢ [])
            × (t.interval ≡ next_interval interval)
            × (t.timer ≡ some (resolve_interval_unit * 2 ^ next_interval interval)))

  handler_step :
      (r : Resolver Instance) (s t : Sources Instance) (before rest : List UnresolvedSource)
      (us : UnresolvedSource) (answer : Answer) (random : ℕ)
      → process_answer hash core us answer random s ≡ some t
      → name_resolve_handler hash core answer random (running r s before (us ∷ rest))
        ≡ some (advance (running r t before (us ∷ rest)) (length before) us answer)
  unfolding name_resolve_handler
  handler_step r s t before rest us answer random run =
      rw (get_elem?-middle before rest us) (rw run refl)

  Ended-end_round :
      (port : ℕ) (r : Resolver Instance) (list : List UnresolvedSource)
      → IsValid hash r.table
      → HavePort port r.table
      → HasPools r.table
      → r.timer ≡ none
      → Ended port r.interval r.rounds list (end_round r list)
  Ended-end_round port r [] v ports has off = record {
    idle = refl;
    counted = refl;
    unresolved = refl;
    valid = v;
    ports = ports;
    has_pools = has;
    planned = inl (refl, refl, off);
  }
  Ended-end_round port r (us ∷ rest) v ports has off = record {
    idle = refl;
    counted = refl;
    unresolved = refl;
    valid = v;
    ports = ports;
    has_pools = has;
    planned = inr ((λ e. cc), refl, refl);
  }

  running_ends :
      (port : ℕ) (r : Resolver Instance) (s : Sources Instance)
      (before rest : List UnresolvedSource) (us : UnresolvedSource) (answers : Answers)
      → length answers ≡ suc (length rest)
      → HavePorts port (us ∷ rest)
      → AreInetAnswers answers
      → IsValid hash s
      → HavePort port s
      → HasPools s
      → HaveOwnPools s.pools (us ∷ rest)
      → r.timer ≡ none
      → s.n_sources + total answers ≤ max_sources
      → (t : Resolver Instance) × (answer_all answers (running r s before (us ∷ rest)) ≡ some t)
        × Ended port r.interval r.rounds (before ++ left_over (us ∷ rest) answers) t
  unfolding answer_all
  running_ends port r s before rest us [] size have inet v ports has own off room =
      absurd (omega arith)
  running_ends port r s before [] us ((answer, random) ∷ []) size have inet v ports has own off
        room =
      let (t, run, a) =
        process_answer_lem hash core port us answer random s have.0 own.0 v ports has inet.0
          (omega arith) in
      let last = end_round (running r t before (us ∷ [])) (before ++ kept us answer) in
      (
        last,
        rw (handler_step r s t before [] us answer random run)
            (ap some (advance_last r t before us answer)),
        subst (λ l. Ended port r.interval r.rounds (before ++ l) last)
            (sym (append-nil (kept us answer)))
            (Ended-end_round port (running r t before (us ∷ [])) (before ++ kept us answer) a.valid
              a.ports a.has_pools off),
      )
  running_ends port r s before [] us (_ ∷ _ ∷ more) size have inet v ports has own off room =
      absurd (omega arith)
  running_ends port r s before (next ∷ rest) us ((answer, random) ∷ answers) size have inet v ports
        has own off room =
      let (t, run, a) =
        process_answer_lem hash core port us answer random s have.0 own.0 v ports has inet.0
          (omega arith) in
      let (u, run', e) =
        running_ends port r t (before ++ kept us answer) rest next answers (omega arith) have.1
          inet.1 a.valid a.ports a.has_pools
          (HaveOwnPools-Keeps s.pools t.pools (next ∷ rest) own.1 a.keeps) off
          (omega (arith, a.at_most)) in
      (
        u,
        rw (handler_step r s t before (next ∷ rest) us answer random run)
            (rw (advance_more r t before rest us next answer) run'),
        subst (λ l. Ended port r.interval r.rounds l u)
            (append_assoc before (kept us answer) (left_over (next ∷ rest) answers)) e,
      )

  resolve_sources_step :
      (r : Resolver Instance)
      → r.resolving ≡ none
      → 0 < length r.unresolved
      → resolve_sources r ≡ some (record r { resolving = some 0 })
  unfolding resolve_sources
  resolve_sources_step r idle full = ground arith

  -- A round that is started ends when the resolver has answered once for each source in the list, and
  -- no assertion fails: nothing is being resolved then, the end was reported once, the sources left
  -- are the new ones whose names are to be tried again, the table of sources is valid, and the next
  -- round is planned after the next longer interval if sources are left, and none is planned if not.
  -- Conditions: no round is running or planned when it starts, all sources use one port, new sources
  -- may be added, the pools of all sources exist, the answers hold IPv4 and IPv6 addresses only, and
  -- with all of them there are at most 2^16 sources.
  pub resolve_sources-Ended :
      (port : ℕ) (r : Resolver Instance) (answers : Answers)
      → r.resolving ≡ none
      → r.timer ≡ none
      → 0 < length r.unresolved
      → length answers ≡ length r.unresolved
      → HavePorts port r.unresolved
      → AreInetAnswers answers
      → IsValid hash r.table
      → HavePort port r.table
      → HasPools r.table
      → HaveOwnPools r.table.pools r.unresolved
      → r.table.n_sources + total answers ≤ max_sources
      → (t : Resolver Instance) × ((do u ← resolve_sources r; answer_all answers u) ≡ some t)
        × Ended port r.interval r.rounds (left_over r.unresolved answers) t
  resolve_sources-Ended port r answers idle off full size have inet v ports has own room =
      from r.unresolved refl
    where
      from :
          (list : List UnresolvedSource)
          → r.unresolved ≡ list
          → (t : Resolver Instance) × ((do u ← resolve_sources r; answer_all answers u) ≡ some t)
            × Ended port r.interval r.rounds (left_over r.unresolved answers) t
      from [] e = absurd (omega (arith, ap (λ (l : List UnresolvedSource). length l) e))
      from (us ∷ rest) e =
          let (t, run, ended) =
            running_ends port r r.table [] rest us answers
              (size ∙ ap (λ (l : List UnresolvedSource). length l) e)
              (subst (HavePorts port) e have) inet v ports has
              (subst (HaveOwnPools r.table.pools) e own) off room in
          let start : record r { resolving = some 0 } ≡ running r r.table [] (us ∷ rest) =
            λ i. record r { unresolved = e i; resolving = some 0 } in
          (
            t,
            rw (resolve_sources_step r idle full) (ap (answer_all answers) start ∙ run),
            subst (λ l. Ended port r.interval r.rounds (left_over l answers) t) (sym e) ended,
          )
