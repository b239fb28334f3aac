-- ===== src/NtpSources/Resolve/Replacing.antt =====
-- ntp_sources.c: what the addresses of a name do when they are to replace a source. Where all sources
-- use one port, no assertion of `NSR_ReplaceSource` fails.
use chrony_nts.Prelude.{
  ℕ, zero, suc, ◌+◌, ◌%◌, ◌^◌, ◌<◌, ◌≡◌, refl, inl, inr, ap, ◌∙◌, subst, arith, true, List, some,
  get_or, length, Bool-cases, ◌≢◌,
}
use native.Mathlib.Nat.{mod-lt}
use chrony_nts.Prelude.Slots.{slot_at}
use chrony_nts.Addressing.{IpAddr, unspec, RemoteAddress}
use chrony_nts.NtpSources.{
  SourceRecord, Sources, Core, Status, find_slot, replace_source, is_inet, success, no_such_source,
  already_in_use,
}
use chrony_nts.NtpSources.Find.{ip_of, match_code}
use chrony_nts.NtpSources.PoolIndex.{HasPools, Keeps, Keeps-refl, Keeps-trans, pools_without-Keeps}
use chrony_nts.NtpSources.Rehash.{find_slot-present}
use chrony_nts.NtpSources.Table.{IsValid, find_slot-fresh}
use chrony_nts.NtpSources.Replace.{replace_source-fresh}
use chrony_nts.NtpSources.Resolve.{
  UnresolvedSource, replace_resolved, resolved_address, is_already_in_use,
}
use chrony_nts.NtpSources.Resolve.Names.{IsFresh-cases, HavePort}

abbrev pub AreInetAddrs : List IpAddr → Type 0
AreInetAddrs addrs = (i : ℕ) → i < length addrs → is_inet (get_or addrs i unspec) ≡ true

module _ {Instance : Type 0} (hash : IpAddr → ℕ) (core : Core Instance) where
  replace_source-unknown :
      (s : Sources Instance) (old new : RemoteAddress)
      → (find_slot hash s.records old).1 ≡ 0
      → replace_source hash core s old new ≡ some (no_such_source, s)
  unfolding replace_source
  replace_source-unknown s old new e = ground (arith, e)

  replace_source-taken :
      (s : Sources Instance) (old new : RemoteAddress) (a c b : ℕ)
      → find_slot hash s.records old ≡ (a, c)
      → c ≢ 0
      → find_slot hash s.records new ≡ (b, 2)
      → replace_source hash core s old new ≡ some (already_in_use, s)
  unfolding replace_source
  replace_source-taken s old new a c b e some_match e' = ground (arith, e, e')

  -- What `NSR_ReplaceSource` keeps where the new address has the port of all sources.
  pub record Swapped (port : ℕ) (s t : Sources Instance) : Type 0 where
    pub valid : IsValid hash t
    pub ports : HavePort port t
    pub has_pools : HasPools t
    pub keeps : Keeps s.pools t.pools
    pub as_many : t.n_sources ≡ s.n_sources

  same_port-code :
      (port : ℕ) (s : Sources Instance) (addr : RemoteAddress) (at : ℕ) (r : SourceRecord Instance)
      → IsValid hash s
      → HavePort port s
      → addr.port ≡ port
      → slot_at s.records at ≡ some r
      → ip_of r ≡ addr.ip_addr
      → find_slot hash s.records addr ≡ (at, 2)
  same_port-code port s addr at r v ports p e same =
      let code : match_code r addr ≡ 2 = ground (arith, ports r (at, e)) in
      find_slot-present hash s.records addr at r v.table.findable e same
        (subst (λ x. is_inet x ≡ true) same (v.table.inet at r e))
      ∙ ap (λ (c : ℕ). (at, c)) code

  Swapped-refl :
      (port : ℕ) (s : Sources Instance)
      → IsValid hash s
      → HavePort port s
      → HasPools s
      → Swapped port s s
  Swapped-refl port s v ports has = record {
    valid = v;
    ports = ports;
    has_pools = has;
    keeps = Keeps-refl s.pools;
    as_many = refl;
  }

  pub replace_source_cases :
      (port : ℕ) (s : Sources Instance) (old new : RemoteAddress)
      → IsValid hash s
      → HavePort port s
      → HasPools s
      → new.port ≡ port
      → is_inet new.ip_addr ≡ true
      → (status : Status) × (t : Sources Instance) × (replace_source hash core s old new
          ≡ some (status, t))
        × Swapped port s t
  replace_source_cases port s old new v ports has p inet =
      let still = Swapped-refl port s v ports has in
      elim (IsFresh-cases old.ip_addr s.records) [
        | inl gone ↦ (
          no_such_source,
          s,
          replace_source-unknown s old new (find_slot-fresh hash s.records old gone),
          still,
        )
        | inr (a, r, e, same) ↦ elim (IsFresh-cases new.ip_addr s.records) [
          | inl fresh ↦
              let (t, run, vt, count, _, m, left, has_t) =
                replace_source-fresh hash core s old new a r v has e same fresh inet in
              (
                success,
                t,
                run,
                record {
                  valid = vt;
                  ports = λ q h. elim (m.only q h) [
                    | inl eq ↦ ap (λ (x : SourceRecord Instance). x.remote_addr.port) eq ∙ p
                    | inr h' ↦ ports q h'
                  ];
                  has_pools = has_t;
                  keeps = pools_without-Keeps r s.pools t.pools left;
                  as_many = count;
                },
              )
          | inr (b, q, e', same') ↦ (
            already_in_use,
            s,
            replace_source-taken s old new a (match_code r old) b
                (find_slot-present hash s.records old a r v.table.findable e same
                  (subst (λ x. is_inet x ≡ true) same (v.table.inet a r e)))
                (ground arith) (same_port-code port s new b q v ports p e' same'),
            still,
          )
        ]
      ]

  -- Every round either gives way to the next, with the table unchanged in its ports, or is the last.
  pub replace_resolved_lem :
      (port : ℕ) (us : UnresolvedSource) (addrs : List IpAddr) (first : ℕ) (old : RemoteAddress)
      (left i : ℕ) (s : Sources Instance)
      → IsValid hash s
      → HavePort port s
      → HasPools s
      → us.port ≡ port
      → AreInetAddrs addrs
      → i + left ≡ length addrs
      → (t : Sources Instance) × (replace_resolved hash core us addrs first old left i s ≡ some t)
        × Swapped port s t
  unfolding replace_resolved
  replace_resolved_lem port us addrs first old zero i s v ports has p inet size =
      (s, refl, Swapped-refl port s v ports has)
  replace_resolved_lem port us addrs first old (suc left) i s v ports has p inet size =
      let new = resolved_address us addrs first i in
      let (status, t, run, w) =
        replace_source_cases port s old new v ports has p
          (inet ((i + first) % 2 ^ 32 % length addrs) (below (i + first) left i size)) in
      elim (Bool-cases (is_already_in_use status)) [
        | inl again ↦
            let (u, run', w') =
              replace_resolved_lem port us addrs first old left (i + 1) t w.valid w.ports
                w.has_pools p inet (omega arith) in
            (
              u,
              rw (run, replace_resolved) (rw again run'),
              record {
                valid = w'.valid;
                ports = w'.ports;
                has_pools = w'.has_pools;
                keeps = Keeps-trans s.pools t.pools u.pools w.keeps w'.keeps;
                as_many = w'.as_many ∙ w.as_many;
              },
            )
        | inr last ↦ (t, rw (run, replace_resolved) (rw last refl), w)
      ]
    where
      below :
          (n left i : ℕ) → i + suc left ≡ length addrs → n % 2 ^ 32 % length addrs < length addrs
      below n left i h = mod-lt (n % 2 ^ 32) (omega arith)
