-- ===== src/NtpSources/Replace.antt =====
-- ntp_sources.c: `NSR_ReplaceSource` with an address that no source has.
use chrony_nts.Prelude.{
  ℕ, ◌^◌, ◌≤◌, ◌≡◌, refl, ◌≢◌, ◌⊎◌, inl, inr, ap, ◌∙◌, sym, subst, arith, true, false, List, Option,
  none, some, get_elem?, set, ℕ_discrete, some_inj,
}
use native.Mathlib.Nat.{pow-le-pow_right}
use chrony_nts.Prelude.Slots.{
  slot_at, used, get_or-set_ne, get_or-set_self, slot-lt-length, used-replace,
}
use chrony_nts.Addressing.{IpAddr, RemoteAddress, same_ip, same_ip_refl}
use chrony_nts.NtpSources.{
  SourceRecord, Sources, Core, find_slot, replace_source, moved_record, is_inet, success, replaced,
}
use chrony_nts.NtpSources.{SourcePool, pools_without}
use chrony_nts.NtpSources.Find.{ip_of}
use chrony_nts.NtpSources.PoolIndex.{HasPools, pools_without_lem}
use chrony_nts.NtpSources.Rehash.{IsTable, IsFresh, Holds, AreInet, find_slot-present, fill_only}
use chrony_nts.NtpSources.Table.{
  IsValid, IsUnique, IsTable-IsUnique, rehash_records_lem, find_slot-fresh, max_sources,
}

pub clash_fresh : (a b : IpAddr) → a ≡ b → same_ip a b ≡ false → ⊥
clash_fresh a b p e = let t = subst (λ x. same_ip a x ≡ true) p (same_ip_refl a) in ground arith

module _ {Instance : Type 0} where
  -- A record is in the place of another, and the others stay.
  pub record Moved (records : List (Option (SourceRecord Instance)))
      (r moved : SourceRecord Instance) (new : List (Option (SourceRecord Instance))) : Type 0 where
    pub held : Holds new moved
    pub kept : (q : SourceRecord Instance) → Holds records q → ip_of q ≢ ip_of r → Holds new q
    pub only : (q : SourceRecord Instance) → Holds new q → (q ≡ moved) ⊎ Holds records q

  replaced_kept :
      (records : List (Option (SourceRecord Instance))) (a : ℕ) (r new q : SourceRecord Instance)
      → slot_at records a ≡ some r
      → ip_of q ≢ ip_of r
      → Holds records q
      → Holds (set records a (some new)) q
  replaced_kept records a r new q e other h = (
    h.0,
    get_or-set_ne records a h.0 (some new) none
          (λ p. other (ap ip_of (some_inj (sym h.1 ∙ ap (slot_at records) (sym p) ∙ e))))
        ∙ h.1,
  )

  replaced_only :
      (records : List (Option (SourceRecord Instance))) (a : ℕ) (r new q : SourceRecord Instance)
      → slot_at records a ≡ some r
      → Holds (set records a (some new)) q
      → (q ≡ new) ⊎ Holds records q
  replaced_only records a r new q e h = elim (ℕ_discrete a h.0) [
    | yes p ↦ inl (
        some_inj (
          sym h.1
          ∙ ap (slot_at (set records a (some new))) (sym p)
          ∙ get_or-set_self records a (some new) none (slot-lt-length records a r e)))
    | no p ↦ inr (h.0, sym (get_or-set_ne records a h.0 (some new) none p) ∙ h.1)
  ]

module _ {Instance : Type 0} (hash : IpAddr → ℕ) (core : Core Instance) where
  pub replaced_facts :
      (s : Sources Instance) (a : ℕ) (r : SourceRecord Instance) (new : RemoteAddress)
      (pools : List SourcePool)
      → IsValid hash s
      → slot_at s.records a ≡ some r
      → is_inet new.ip_addr ≡ true
      → (used (replaced hash core s a r new pools).records ≤ s.n_sources)
        × (s.n_sources ≤ max_sources)
        × AreInet (replaced hash core s a r new pools).records
  unfolding replaced
  replaced_facts s a r new pools v e inet =
      let cap : 2 ^ v.power ≤ 2 ^ 17 = pow-le-pow_right {n = 2} (omega arith) v.small in
      (
        omega (arith, used-replace s.records a r (moved_record hash core r new) e, v.table.counted),
        omega (arith, v.room),
        λ u q at.
            elim (fill_only s.records a u (moved_record hash core r new) q
              (slot-lt-length s.records a r e) at) [
                | inl p ↦ rw p inet
                | inr p ↦ v.table.inet u q p
              ],
      )

  replaced-IsUnique :
      (s : Sources Instance) (a : ℕ) (r : SourceRecord Instance) (new : RemoteAddress)
      (pools : List SourcePool)
      → IsValid hash s
      → slot_at s.records a ≡ some r
      → IsFresh new.ip_addr s.records
      → IsUnique (replaced hash core s a r new pools).records
  unfolding replaced
  replaced-IsUnique s a r new pools v e fresh t u x y at at' same =
      let inside = slot-lt-length s.records a r e in
      let moved = moved_record hash core r new in
      elim (ℕ_discrete a t) [
        | yes p ↦ elim (ℕ_discrete a u) [
          | yes p' ↦ sym p ∙ p'
          | no n' ↦
              let here : x ≡ moved = some_inj (
                sym at
                ∙ ap (slot_at (set s.records a (some moved))) (sym p)
                ∙ get_or-set_self s.records a (some moved) none inside) in
              let old = sym (get_or-set_ne s.records a u (some moved) none n') ∙ at' in
              let hit : ip_of y ≡ new.ip_addr = same ∙ ap ip_of here in
              absurd (clash_fresh (ip_of y) new.ip_addr hit (fresh u y old))
        ]
        | no n ↦ elim (ℕ_discrete a u) [
          | yes p' ↦
              let there : y ≡ moved = some_inj (
                sym at'
                ∙ ap (slot_at (set s.records a (some moved))) (sym p')
                ∙ get_or-set_self s.records a (some moved) none inside) in
              let old = sym (get_or-set_ne s.records a t (some moved) none n) ∙ at in
              let hit : ip_of x ≡ new.ip_addr = sym same ∙ ap ip_of there in
              absurd (clash_fresh (ip_of x) new.ip_addr hit (fresh t x old))
          | no n' ↦
              IsTable-IsUnique hash v.power s.n_sources s.records v.table t u x y
                (sym (get_or-set_ne s.records a t (some moved) none n) ∙ at)
                (sym (get_or-set_ne s.records a u (some moved) none n') ∙ at') same
        ]
      ]

  -- Replacing a source by an IPv4 or IPv6 address that no source has succeeds and fails no assertion;
  -- the table stays valid with as many sources, the record under its new address is in the place
  -- of the old one, the others stay, and the new address and port are found. A confirmed source
  -- is no longer counted in its pool; a tentative one was not, and no other pool changes. The pools
  -- of all records stay in range. Condition: they were.
  pub replace_source-fresh :
      (s : Sources Instance) (old new : RemoteAddress) (a : ℕ) (r : SourceRecord Instance)
      → IsValid hash s
      → HasPools s
      → slot_at s.records a ≡ some r
      → ip_of r ≡ old.ip_addr
      → IsFresh new.ip_addr s.records
      → is_inet new.ip_addr ≡ true
      → (t : Sources Instance) × (replace_source hash core s old new ≡ some (success, t))
        × IsValid hash t
        × (t.n_sources ≡ s.n_sources)
        × ((find_slot hash t.records new).1 ≡ 2)
        × Moved s.records r (moved_record hash core r new) t.records
        × (pools_without r s.pools ≡ some t.pools)
        × HasPools t
  unfolding replace_source replaced
  replace_source-fresh s old new a r v has e p fresh inet_new =
      let moved = moved_record hash core r new in
      let (pools, left, keeps) = pools_without_lem r s.pools (λ i at. has r i (a, e) at) in
      let inside = slot-lt-length s.records a r e in
      let inet_old = subst (λ x. is_inet x ≡ true) p (v.table.inet a r e) in
      let (c, h, inet) = replaced_facts s a r new pools v e inet_new in
      let (t, run, b) =
        rehash_records_lem hash (replaced hash core s a r new pools) c
          (replaced-IsUnique s a r new pools v e fresh) inet h in
      let hit = find_slot-present hash s.records old a r v.table.findable e p inet_old in
      let count = ap (λ (x : Sources Instance). x.n_sources) b.rest in
      let same_pools = ap (λ (x : Sources Instance). x.pools) b.rest in
      let as_many = used-replace s.records a r moved e in
      let held = (b.same moved).0 (a, get_or-set_self s.records a (some moved) none inside) in
      (
        t,
        ground (arith, hit, e, find_slot-fresh hash s.records new fresh, left, run),
        record {
          power = b.power;
          small = b.small;
          table =
              subst (λ m. IsTable hash b.power m t.records)
                (omega (arith, as_many, v.table.counted, count)) b.table;
          room = omega (arith, b.room, count);
        },
        count,
        ap (λ (z : ℕ × ℕ). z.1)
              (find_slot-present hash t.records new held.0 moved b.table.findable held.1 refl
                inet_new)
            ∙ ground arith,
        record {
          held = held;
          kept = λ q h other. (b.same q).0 (replaced_kept s.records a r moved q e other h);
          only = λ q h. replaced_only s.records a r moved q e ((b.same q).1 h);
        },
        left ∙ ap some (sym same_pools),
        λ q i h at.
            subst (λ ps. (p : SourcePool) × (get_elem? ps i ≡ some p)) (sym same_pools)
              (elim (replaced_only s.records a r moved q e ((b.same q).1 h)) [
                | inl is ↦
                    let (p, found) =
                      has r i (a, e) (ap (λ (x : SourceRecord Instance). x.pool) (sym is) ∙ at) in
                    keeps i p found
                | inr h' ↦ let (p, found) = has q i h' at in keeps i p found
              ]),
      )
