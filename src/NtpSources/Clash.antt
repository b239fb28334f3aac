-- ===== src/NtpSources/Clash.antt =====
-- ntp_sources.c: what a rebuild does with two records of one address, and `NSR_ReplaceSource`
-- when that comes about.
use chrony_nts.Prelude.{
  ℕ, zero, suc, ◌+◌, ◌/◌, ◌^◌, ◌≤◌, ◌<◌, ◌≡◌, refl, ◌≢◌, ◌⊎◌, inl, inr, ap, ◌∙◌, sym, subst, arith,
  true, List, [], ◌∷◌, Option, none, some, set, ℕ_discrete, replicate, dec_lt, Bool-cases,
  Option-cases, some_inj,
}
use chrony_nts.Prelude.Slots.{slot_at, used, get_or-set_ne, get_or-set_self, slot-lt-length}
use chrony_nts.Addressing.{IpAddr, RemoteAddress, same_ip, same_ip-eq}
use chrony_nts.NtpSources.{
  SourceRecord, Sources, Core, find_slot, rehash_from, rehash_records, replace_source, moved_record,
  is_inet, new_size, replaced,
}
use chrony_nts.NtpSources.{SourcePool, pools_without}
use chrony_nts.NtpSources.Find.{ip_of}
use chrony_nts.NtpSources.Rehash.{
  IsTable, IsFresh, Holds, Added, AreInet, find_slot-present, fill_lem,
}
use chrony_nts.NtpSources.Replace.{replaced_facts}
use chrony_nts.NtpSources.Table.{IsValid, max_sources, new_size_lem, empty_table}

module _ {Instance : Type 0} (hash : IpAddr → ℕ) where
  -- In a table an address that is not found is fresh.
  IsFresh-of_found :
      (k n : ℕ) (records : List (Option (SourceRecord Instance))) (addr : RemoteAddress)
      → IsTable hash k n records
      → is_inet addr.ip_addr ≡ true
      → (find_slot hash records addr).1 ≡ 0
      → IsFresh addr.ip_addr records
  IsFresh-of_found k n records addr t inet found s r e =
      elim (Bool-cases (same_ip (ip_of r) addr.ip_addr)) [
        | inl same ↦
            let hit =
              find_slot-present hash records addr s r t.findable e
                (same_ip-eq (ip_of r) addr.ip_addr same) inet in
            ground (arith, hit)
        | inr other ↦ other
      ]

  -- One round of the loop: the record is put in, or the assertion fails.
  round_cases :
      (k n : ℕ) (records old : List (Option (SourceRecord Instance))) (r : SourceRecord Instance)
      → IsTable hash k n records
      → k ≤ 17
      → n < 2 ^ k / 2
      → is_inet (ip_of r) ≡ true
      → (rehash_from hash (some r ∷ old) records ≡ none)
        ⊎ ((new : List (Option (SourceRecord Instance))) × (rehash_from hash (some r ∷ old) records
              ≡ rehash_from hash old new)
            × IsTable hash k (suc n) new
            × Added hash records r new)
  unfolding rehash_from
  round_cases k n records old r t hk room inet =
      elim (ℕ_discrete (find_slot hash records r.remote_addr).1 0) [
        | yes free ↦
            let (s, found, t1, a) =
              fill_lem hash k n records r t hk room
                (IsFresh-of_found k n records r.remote_addr t inet free) inet in
            inr (set records s (some r), ground (arith, found), t1, a)
        | no busy ↦ inl (ground arith)
      ]

  -- The loop fails on a record whose address the table holds.
  clash_held :
      (old records : List (Option (SourceRecord Instance))) (k n s : ℕ)
      (r q : SourceRecord Instance)
      → IsTable hash k n records
      → k ≤ 17
      → n + used old ≤ 2 ^ k / 2
      → AreInet old
      → slot_at old s ≡ some r
      → Holds records q
      → ip_of q ≡ ip_of r
      → rehash_from hash old records ≡ none
  unfolding rehash_from used
  clash_held [] records k n s r q t hk room inet e h same = cc
  clash_held (none ∷ old) records k n zero r q t hk room inet e h same = cc
  clash_held (none ∷ old) records k n (suc s) r q t hk room inet e h same =
      clash_held old records k n s r q t hk room (λ u. inet (suc u)) e h same
  clash_held (some x ∷ old) records k n zero r q t hk room inet e h same =
      let p : ip_of q ≡ ip_of x = same ∙ ap ip_of (sym (some_inj e)) in
      let hit =
        find_slot-present hash records x.remote_addr h.0 q t.findable h.1 p (inet 0 x refl) in
      ground (arith, hit)
  clash_held (some x ∷ old) records k n (suc s) r q t hk room inet e h same =
      elim (round_cases k n records old x t hk (omega arith) (inet 0 x refl)) [
        | inl stop ↦ stop
        | inr (new, go, t1, a) ↦
            go
            ∙ clash_held old new k (suc n) s r q t1 hk (omega arith) (λ u. inet (suc u)) e
                (a.kept q h) same
      ]

  -- The loop fails on two records of one address.
  pub clash_twice :
      (old records : List (Option (SourceRecord Instance))) (k n a b : ℕ)
      (r q : SourceRecord Instance)
      → IsTable hash k n records
      → k ≤ 17
      → n + used old ≤ 2 ^ k / 2
      → AreInet old
      → a < b
      → slot_at old a ≡ some r
      → slot_at old b ≡ some q
      → ip_of r ≡ ip_of q
      → rehash_from hash old records ≡ none
  unfolding rehash_from used
  clash_twice [] records k n a b r q t hk room inet lt e e' same = cc
  clash_twice (x ∷ old) records k n a zero r q t hk room inet lt e e' same = absurd (omega arith)
  clash_twice (none ∷ old) records k n zero (suc b) r q t hk room inet lt e e' same = cc
  clash_twice (none ∷ old) records k n (suc a) (suc b) r q t hk room inet lt e e' same =
      clash_twice old records k n a b r q t hk room (λ u. inet (suc u)) (omega arith) e e' same
  clash_twice (some x ∷ old) records k n zero (suc b) r q t hk room inet lt e e' same =
      elim (round_cases k n records old x t hk (omega arith) (inet 0 x refl)) [
        | inl stop ↦ stop
        | inr (new, go, t1, s) ↦
            go
            ∙ clash_held old new k (suc n) b q x t1 hk (omega arith) (λ u. inet (suc u)) e' s.added
                (ap ip_of (some_inj e) ∙ same)
      ]
  clash_twice (some x ∷ old) records k n (suc a) (suc b) r q t hk room inet lt e e' same =
      elim (round_cases k n records old x t hk (omega arith) (inet 0 x refl)) [
        | inl stop ↦ stop
        | inr (new, go, t1, s) ↦
            go
            ∙ clash_twice old new k (suc n) a b r q t1 hk (omega arith) (λ u. inet (suc u))
                (omega arith) e e' same
      ]

  -- A rebuild of records of which two have one address fails its assertion.
  pub rehash_records-clash :
      (s : Sources Instance) (a b : ℕ) (r q : SourceRecord Instance)
      → used s.records ≤ s.n_sources
      → s.n_sources ≤ max_sources
      → AreInet s.records
      → slot_at s.records a ≡ some r
      → slot_at s.records b ≡ some q
      → a ≢ b
      → ip_of r ≡ ip_of q
      → rehash_records hash s ≡ none
  unfolding rehash_records
  rehash_records-clash s a b r q c h inet e e' apart same =
      let (k, hk, size, fits) = new_size_lem s.n_sources h in
      let empty : List (Option (SourceRecord Instance)) = replicate (new_size s.n_sources) none in
      let table : IsTable hash k 0 empty = empty_table hash k (new_size s.n_sources) size in
      elim (dec_lt a b) [
        | yes lt ↦ ground (
          arith,
          clash_twice s.records empty k 0 a b r q table hk (omega arith) inet lt e e' same,
        )
        | no ge ↦ ground (
          arith,
          clash_twice s.records empty k 0 b a q r table hk (omega arith) inet (omega arith) e' e
              (sym same),
        )
      ]

module _ {Instance : Type 0} (hash : IpAddr → ℕ) (core : Core Instance) where
  replaced_clash :
      (s : Sources Instance) (a b : ℕ) (r q : SourceRecord Instance) (new : RemoteAddress)
      (pools : List SourcePool)
      → IsValid hash s
      → slot_at s.records a ≡ some r
      → slot_at s.records b ≡ some q
      → ip_of q ≡ new.ip_addr
      → a ≢ b
      → is_inet new.ip_addr ≡ true
      → rehash_records hash (replaced hash core s a r new pools) ≡ none
  unfolding replaced
  replaced_clash s a b r q new pools v e e' p' apart inet_new =
      let moved = moved_record hash core r new in
      let (c, h, inet) = replaced_facts hash core s a r new pools v e inet_new in
      rehash_records-clash hash (replaced hash core s a r new pools) a b moved q c h inet
        (get_or-set_self s.records a (some moved) none (slot-lt-length s.records a r e))
        (get_or-set_ne s.records a b (some moved) none apart ∙ e') apart (sym p')

  -- Replacing a source by an address whose IP address another source has, under another port, fails
  -- an assertion: the call does not reject the address, and the rebuild then meets it twice.
  pub replace_source-clash :
      (s : Sources Instance) (old new : RemoteAddress) (a b : ℕ) (r q : SourceRecord Instance)
      → IsValid hash s
      → slot_at s.records a ≡ some r
      → ip_of r ≡ old.ip_addr
      → slot_at s.records b ≡ some q
      → ip_of q ≡ new.ip_addr
      → q.remote_addr.port ≢ new.port
      → a ≢ b
      → replace_source hash core s old new ≡ none
  unfolding replace_source
  replace_source-clash s old new a b r q v e p e' p' port apart =
      let inet_old = subst (λ x. is_inet x ≡ true) p (v.table.inet a r e) in
      let inet_new = subst (λ x. is_inet x ≡ true) p' (v.table.inet b q e') in
      let hit = find_slot-present hash s.records old a r v.table.findable e p inet_old in
      let other = find_slot-present hash s.records new b q v.table.findable e' p' inet_new in
      elim (Option-cases (pools_without r s.pools)) [
        | inl bad ↦ ground (arith, hit, other, e, bad)
        | inr (pools, left) ↦ ground (
          arith,
          hit,
          other,
          e,
          left,
          replaced_clash s a b r q new pools v e e' p' apart inet_new,
        )
      ]
