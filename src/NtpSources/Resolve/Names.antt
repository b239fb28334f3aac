-- ===== src/NtpSources/Resolve/Names.antt =====
-- ntp_sources.c: what the addresses of a name do to the table of sources.
use chrony_nts.Prelude.{
  ℕ, zero, suc, ◌+◌, ◌≤◌, ◌<◌, ◌≡◌, refl, ◌⊎◌, inl, inr, ap, ◌∙◌, subst, arith, false, List, [],
  ◌∷◌, Option, none, some, Bool-cases, min, some_inj, if◌then◌else◌, ◌-◌,
}
use chrony_nts.Prelude.Slots.{slot_at}
use chrony_nts.Addressing.{IpAddr, RemoteAddress, same_ip, same_ip-eq}
use chrony_nts.NtpSources.{
  SourceRecord, Sources, Core, Status, find_slot, add_source, is_inet, success, already_in_use,
  invalid_af, leb,
}
use chrony_nts.NtpSources.Find.{ip_of}
use chrony_nts.NtpSources.Rehash.{IsFresh, Holds}
use chrony_nts.NtpSources.Table.{IsValid, add_source-fresh, add_source-present, max_sources}
use chrony_nts.NtpSources.Resolve.{UnresolvedSource, add_resolved, resolved_address, is_success}

module _ {Instance : Type 0} where
  -- An address is new, or a record has it.
  pub IsFresh-cases :
      (ip : IpAddr) (records : List (Option (SourceRecord Instance)))
      → IsFresh ip records
        ⊎ ((s : ℕ) × (r : SourceRecord Instance) × (slot_at records s ≡ some r) × (ip_of r ≡ ip))
  IsFresh-cases ip [] = inl (λ s r e. cc)
  IsFresh-cases ip (none ∷ xs) = elim (IsFresh-cases ip xs) [
    | inl f ↦ inl (λ s.
        elim s
          as (λ s.
            (r : SourceRecord Instance)
            → slot_at (none ∷ xs) s ≡ some r
            → same_ip (ip_of r) ip ≡ false) [ zero ↦ λ r e. cc | suc t ↦ λ r e. f t r e ])
    | inr (s, r, e, p) ↦ inr (suc s, r, e, p)
  ]
  IsFresh-cases ip (some x ∷ xs) = elim (Bool-cases (same_ip (ip_of x) ip)) [
    | inl same ↦ inr (0, x, refl, same_ip-eq (ip_of x) ip same)
    | inr other ↦ elim (IsFresh-cases ip xs) [
      | inl f ↦ inl (λ s.
          elim s
            as (λ s.
              (r : SourceRecord Instance)
              → slot_at (some x ∷ xs) s ≡ some r
              → same_ip (ip_of r) ip ≡ false) [
                | zero ↦ λ r e. subst (λ q. same_ip (ip_of q) ip ≡ false) (some_inj e) other
                | suc t ↦ λ r e. f t r e
              ])
      | inr (s, r, e, p) ↦ inr (suc s, r, e, p)
    ]
  ]

module _ {Instance : Type 0} where
  -- Every record has the port.
  abbrev pub HavePort : ℕ → Sources Instance → Type 0
  HavePort port s = (q : SourceRecord Instance) → Holds s.records q → q.remote_addr.port ≡ port

module _ {Instance : Type 0} (hash : IpAddr → ℕ) (core : Core Instance) where
  -- What a table becomes when sources with the port and the pool are added, at most so many.
  pub record Grown (port : ℕ) (pool : Option ℕ) (most : ℕ) (s t : Sources Instance) : Type 0 where
    pub valid : IsValid hash t
    pub kept : (q : SourceRecord Instance) → Holds s.records q → Holds t.records q
    pub only :
        (q : SourceRecord Instance)
        → Holds t.records q
        → Holds s.records q ⊎ ((q.remote_addr.port ≡ port) × (q.pool ≡ pool))
    pub same_pools : t.pools ≡ s.pools
    pub at_most : t.n_sources ≤ s.n_sources + most

  Grown-refl :
      (port : ℕ) (pool : Option ℕ) (most : ℕ) (s : Sources Instance)
      → IsValid hash s
      → Grown port pool most s s
  Grown-refl port pool most s v = record {
    valid = v;
    kept = λ q h. h;
    only = λ q h. inl h;
    same_pools = refl;
    at_most = omega arith;
  }

  Grown-trans :
      (port : ℕ) (pool : Option ℕ) (m n : ℕ) (s t u : Sources Instance)
      → Grown port pool m s t
      → Grown port pool n t u
      → Grown port pool (m + n) s u
  Grown-trans port pool m n s t u a b = record {
    valid = b.valid;
    kept = λ q h. b.kept q (a.kept q h);
    only = λ q h. elim (b.only q h) [ inl e ↦ a.only q e | inr e ↦ inr e ];
    same_pools = b.same_pools ∙ a.same_pools;
    at_most = omega (arith, a.at_most, b.at_most);
  }

  Grown-weaken :
      (port : ℕ) (pool : Option ℕ) (m n : ℕ) (s t : Sources Instance)
      → m ≤ n
      → Grown port pool m s t
      → Grown port pool n s t
  Grown-weaken port pool m n s t h a = record {
    valid = a.valid;
    kept = a.kept;
    only = a.only;
    same_pools = a.same_pools;
    at_most = omega (arith, a.at_most);
  }

  add_source-unspec :
      (s : Sources Instance) (addr : RemoteAddress) (name : Option (List ℕ)) (params : ℕ)
      (pool : Option ℕ)
      → is_inet addr.ip_addr ≡ false
      → add_source hash core s addr name params pool ≡ some (invalid_af, s)
  unfolding add_source find_slot
  add_source-unspec s addr name params pool e = ground (arith, e)

  -- Adding never fails an assertion: one source is added, or none if the status is no success.
  add_source_cases :
      (s : Sources Instance) (addr : RemoteAddress) (name : Option (List ℕ)) (params : ℕ)
      (pool : Option ℕ)
      → IsValid hash s
      → s.n_sources < max_sources
      → (status : Status) × (t : Sources Instance) × (add_source hash core s addr name params pool
          ≡ some (status, t))
        × Grown addr.port pool (if is_success status then 1 else 0) s t
  add_source_cases s addr name params pool v room = elim (Bool-cases (is_inet addr.ip_addr)) [
    | inr e ↦ (
      invalid_af,
      s,
      add_source-unspec s addr name params pool e,
      Grown-refl addr.port pool 0 s v,
    )
    | inl e ↦ elim (IsFresh-cases addr.ip_addr s.records) [
      | inl fresh ↦
          let (t, run, vt, a, _, count, same_pools) =
            add_source-fresh hash core s addr name params pool v room fresh e in
          (
            success,
            t,
            run,
            record {
              valid = vt;
              kept = a.kept;
              only = λ q h. elim (a.only q h) [
                | inl p ↦ inr (
                  ap (λ (x : SourceRecord Instance). x.remote_addr.port) p,
                  ap (λ (x : SourceRecord Instance). x.pool) p,
                )
                | inr p ↦ inl p
              ];
              same_pools = same_pools;
              at_most = omega (arith, count);
            },
          )
      | inr (at, r, there, same) ↦ (
        already_in_use,
        s,
        add_source-present hash core s addr name params pool at r v there same,
        Grown-refl addr.port pool 0 s v,
      )
    ]
  ]

  add_resolved_step :
      (us : UnresolvedSource) (addrs : List IpAddr) (first params : ℕ) (pool : Option ℕ)
      (most left i added : ℕ) (s t u : Sources Instance) (status : Status)
      → add_source hash core s (resolved_address us addrs first i) (some us.name) params pool
        ≡ some (status, t)
      → add_resolved hash core us addrs first params pool most left
          (i + 1)
          (if is_success status then added + 1 else added)
          t
        ≡ some u
      → add_resolved hash core us addrs first params pool most (suc left) i added s
        ≡ some (if leb most (if is_success status then added + 1 else added) then t else u)
  unfolding add_resolved
  add_resolved_step us addrs first params pool most left i added s t u status run later =
      elim (Bool-cases (leb most (if is_success status then added + 1 else added))) [
        | inl e ↦ rw (run, add_resolved) (rw e refl)
        | inr e ↦ rw (run, add_resolved) (rw e later)
      ]

  -- The addresses of a new source add at most as many sources as may be added, all with the port of
  -- the source; the sources before stay and no assertion fails.
  pub add_resolved_lem :
      (us : UnresolvedSource) (addrs : List IpAddr) (first params : ℕ) (pool : Option ℕ)
      (most left i added : ℕ) (s : Sources Instance)
      → IsValid hash s
      → s.n_sources + left ≤ max_sources
      → added < most
      → (t : Sources Instance) × (add_resolved hash core us addrs first params pool most left i
            added s
          ≡ some t)
        × Grown us.port pool (min left (most - added)) s t
  unfolding add_resolved
  add_resolved_lem us addrs first params pool most zero i added s v room less =
      (s, refl, Grown-refl us.port pool (min 0 (most - added)) s v)
  add_resolved_lem us addrs first params pool most (suc left) i added s v room less =
      let addr = resolved_address us addrs first i in
      let (status, t, run, g) =
        add_source_cases s addr (some us.name) params pool v (omega arith) in
      let added' = if is_success status then added + 1 else added in
      elim (Bool-cases (leb most added')) [
        | inl e ↦ (
          t,
          rw (run, add_resolved) (rw e refl),
          Grown-weaken us.port pool (if is_success status then 1 else 0)
              (min (suc left) (most - added)) s t (ground arith) g,
        )
        | inr e ↦
            let gain : t.n_sources ≤ s.n_sources + 1 = ground (arith, g.at_most) in
            let (u, run', g') =
              add_resolved_lem us addrs first params pool most left (i + 1) added' t g.valid
                (omega arith) (ground arith) in
            (
              u,
              add_resolved_step us addrs first params pool most left i added s t u status run run'
                  ∙ rw e refl,
              Grown-weaken us.port pool
                  ((if is_success status then 1 else 0) + min left (most - added'))
                  (min (suc left) (most - added)) s u (ground arith)
                  (Grown-trans us.port pool (if is_success status then 1 else 0)
                    (min left (most - added')) s t u g g'),
            )
      ]
