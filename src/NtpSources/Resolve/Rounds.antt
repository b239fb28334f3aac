-- ===== src/NtpSources/Resolve/Rounds.antt =====
-- ntp_sources.c: the rounds of resolving: what state they are in between two calls, and that a round
-- ends when the resolver has answered for each source.
use chrony_nts.Prelude.{
  ℕ, ◌+◌, ◌≤◌, ◌<◌, ◌≡◌, refl, inl, inr, ap, ◌∙◌, sym, arith, Bool, true, false, not, ◌||◌, List,
  [], ◌∷◌, ◌++◌, some, subst, length, length-append, get_elem?, Bool-cases, ltb, if◌then◌else◌,
  lt→ltb,
}
use mathlib.Core.List.{append-nil, append_assoc}
use chrony_nts.Addressing.{IpAddr}
use chrony_nts.NtpSources.{SourcePool, Sources, Core}
use chrony_nts.NtpSources.PoolIndex.{HasPools, Keeps, Keeps-refl, InPools, InPools-Keeps}
use chrony_nts.NtpSources.Table.{IsValid, max_sources}
use chrony_nts.NtpSources.Resolve.{
  UnresolvedSource, Purpose, new_source, replacement, Answer, resolved, try_again, failure,
  Resolver, is_replacement, is_try_again, remove_at, end_round, advance, process_for,
  process_answer, process_resolved_name, first_address,
}
use chrony_nts.NtpSources.Resolve.Names.{HavePort, add_resolved_lem}
use chrony_nts.NtpSources.Resolve.Replacing.{AreInetAddrs, replace_resolved_lem}

-- The number of addresses in an answer.
abbrev pub addresses : Answer → ℕ
addresses (resolved addrs) = length addrs
addresses try_again = 0
addresses failure = 0

-- The addresses are IPv4 or IPv6 addresses.
abbrev pub IsInetAnswer : Answer → Type 0
IsInetAnswer (resolved addrs) = AreInetAddrs addrs
IsInetAnswer try_again = Unit {0}
IsInetAnswer failure = Unit {0}

-- A new source may be added at least once.
abbrev pub MayAdd : Purpose → Type 0
MayAdd (new_source params pool most) = 0 < most
MayAdd (replacement old) = Unit {0}

-- The pool of a new source exists.
abbrev pub HasPool : List SourcePool → Purpose → Type 0
HasPool ps (new_source params pool most) = InPools pool ps
HasPool ps (replacement old) = Unit {0}

pub HasPool-Keeps :
    (ps qs : List SourcePool) (purpose : Purpose)
    → HasPool ps purpose
    → Keeps ps qs
    → HasPool qs purpose
HasPool-Keeps ps qs (new_source params pool most) h k = InPools-Keeps pool ps qs h k
HasPool-Keeps ps qs (replacement old) h k = h

-- All sources use the port.
pub record HasPort (port : ℕ) (us : UnresolvedSource) : Type 0 where
  pub same_port : us.port ≡ port
  pub may_add : MayAdd us.purpose

module _ {Instance : Type 0} (hash : IpAddr → ℕ) (core : Core Instance) where
  -- What an answer keeps of the table.
  pub record Answered (port : ℕ) (answer : Answer) (s t : Sources Instance) : Type 0 where
    pub valid : IsValid hash t
    pub ports : HavePort port t
    pub has_pools : HasPools t
    pub keeps : Keeps s.pools t.pools
    pub at_most : t.n_sources ≤ s.n_sources + addresses answer

  process_for_lem :
      (port : ℕ) (purpose : Purpose) (us : UnresolvedSource) (addrs : List IpAddr) (first : ℕ)
      (s : Sources Instance)
      → us.port ≡ port
      → MayAdd purpose
      → HasPool s.pools purpose
      → IsValid hash s
      → HavePort port s
      → HasPools s
      → AreInetAddrs addrs
      → s.n_sources + length addrs ≤ max_sources
      → (t : Sources Instance) × (process_for hash core purpose us addrs first s ≡ some t)
        × Answered port (resolved addrs) s t
  process_for_lem port (new_source params pool most) us addrs first s p may in_pools v ports has
        inet room =
      let (t, run, g) =
        add_resolved_lem hash core us addrs first params pool most (length addrs) 0 0 s v room
          may in
      (
        t,
        run,
        record {
          valid = g.valid;
          ports = λ q h. elim (g.only q h) [ inl e ↦ ports q e | inr e ↦ e.0 ∙ p ];
          has_pools = λ q i h at.
              subst (λ ps. (x : SourcePool) × (get_elem? ps i ≡ some x)) (sym g.same_pools)
                (elim (g.only q h) [ inl e ↦ has q i e at | inr e ↦ in_pools i (sym e.1 ∙ at) ]);
          keeps = subst (Keeps s.pools) (sym g.same_pools) (Keeps-refl s.pools);
          at_most = omega (arith, g.at_most);
        },
      )
  process_for_lem port (replacement old) us addrs first s p may in_pools v ports has inet room =
      let (t, run, w) =
        replace_resolved_lem hash core port us addrs first old (length addrs) 0 s v ports has p inet
          (omega arith) in
      (
        t,
        run,
        record {
          valid = w.valid;
          ports = w.ports;
          has_pools = w.has_pools;
          keeps = w.keeps;
          at_most = omega (arith, w.as_many);
        },
      )

  -- An answer fails no assertion.
  pub process_answer_lem :
      (port : ℕ) (us : UnresolvedSource) (answer : Answer) (random : ℕ) (s : Sources Instance)
      → HasPort port us
      → HasPool s.pools us.purpose
      → IsValid hash s
      → HavePort port s
      → HasPools s
      → IsInetAnswer answer
      → s.n_sources + addresses answer ≤ max_sources
      → (t : Sources Instance) × (process_answer hash core us answer random s ≡ some t)
        × Answered port answer s t
  unfolding process_resolved_name
  process_answer_lem port us (resolved addrs) random s h in_pools v ports has inet room =
      process_for_lem port us.purpose us addrs (first_address us random) s h.same_port h.may_add
        in_pools v ports has inet room
  process_answer_lem port us try_again random s h in_pools v ports has inet room = (
    s,
    refl,
    record {
      valid = v;
      ports = ports;
      has_pools = has;
      keeps = Keeps-refl s.pools;
      at_most = omega arith;
    },
  )
  process_answer_lem port us failure random s h in_pools v ports has inet room = (
    s,
    refl,
    record {
      valid = v;
      ports = ports;
      has_pools = has;
      keeps = Keeps-refl s.pools;
      at_most = omega arith;
    },
  )

abbrev pub gone : UnresolvedSource → Answer → Bool
gone us answer = is_replacement us.purpose || not (is_try_again answer)

-- What an answer leaves of a source: a new source whose name is to be tried again.
abbrev pub kept : UnresolvedSource → Answer → List UnresolvedSource
kept us answer = if gone us answer then [] else us ∷ []

pub get_elem?-middle {ℓ} :
    {A : Type ℓ} (xs ys : List A) (y : A) → get_elem? (xs ++ y ∷ ys) (length xs) ≡ some y
get_elem?-middle [] ys y = refl
get_elem?-middle (x ∷ xs) ys y = get_elem?-middle xs ys y

remove_at-middle {ℓ} :
    {A : Type ℓ} (xs ys : List A) (y : A) → remove_at (length xs) (xs ++ y ∷ ys) ≡ xs ++ ys
unfolding remove_at
remove_at-middle [] ys y = refl
remove_at-middle (x ∷ xs) ys y = ap (◌∷◌ x) (remove_at-middle xs ys y)

module _ {Instance : Type 0} where
  -- A round that has come to the first of `rest`; the sources before it were answered for.
  abbrev pub running :
      Resolver Instance
      → Sources Instance
      → List UnresolvedSource
      → List UnresolvedSource
      → Resolver Instance
  running r table before rest = record r {
    table = table;
    unresolved = before ++ rest;
    resolving = some (length before);
  }

  pub advance_more :
      (r : Resolver Instance) (s : Sources Instance) (before rest : List UnresolvedSource)
      (us next : UnresolvedSource) (answer : Answer)
      → advance (running r s before (us ∷ next ∷ rest)) (length before) us answer
        ≡ running r s (before ++ kept us answer) (next ∷ rest)
  unfolding advance
  advance_more r s before rest us next answer = elim (Bool-cases (gone us answer)) [
    | inl e ↦
        let inside : ltb (length before) (length (before ++ next ∷ rest)) ≡ true =
          lt→ltb _ _ (omega (arith, length-append {0} before (next ∷ rest))) in
        rw (e, remove_at-middle before (next ∷ rest) us) (rw inside (rw (append-nil before) refl))
    | inr e ↦
        let list : before ++ us ∷ next ∷ rest ≡ (before ++ us ∷ []) ++ next ∷ rest =
          sym (append_assoc before (us ∷ []) (next ∷ rest)) in
        let size : length (before ++ us ∷ []) ≡ length before + 1 =
          omega (arith, length-append {0} before (us ∷ [])) in
        let inside : ltb (length before + 1) (length (before ++ us ∷ next ∷ rest)) ≡ true =
          lt→ltb _ _ (omega (arith, length-append {0} before (us ∷ next ∷ rest))) in
        rw (e, inside) (rw (size, list) refl)
  ]

  pub advance_last :
      (r : Resolver Instance) (s : Sources Instance) (before : List UnresolvedSource)
      (us : UnresolvedSource) (answer : Answer)
      → advance (running r s before (us ∷ [])) (length before) us answer
        ≡ end_round (running r s before (us ∷ [])) (before ++ kept us answer)
  unfolding advance
  advance_last r s before us answer = elim (Bool-cases (gone us answer)) [
    | inl e ↦
        let outside : ltb (length before) (length before) ≡ false = ground arith in
        rw (e, remove_at-middle before [] us) (rw (append-nil before) (rw outside refl))
    | inr e ↦
        let outside : ltb (length before + 1) (length (before ++ us ∷ [])) ≡ false =
          rw (length-append before (us ∷ [])) (ground arith) in
        rw (e, outside) refl
  ]
