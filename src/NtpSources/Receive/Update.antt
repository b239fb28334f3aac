-- ===== src/NtpSources/Receive/Update.antt =====
-- ntp_sources.c: a record that is changed in its slot and keeps its address, and the slot that
-- `find_slot` returns when address and port match.
use chrony_nts.Prelude.{
  ℕ, zero, suc, ◌+◌, ◌/◌, ◌≡◌, refl, ◌⊎◌, inl, inr, ap, ◌∙◌, sym, subst, arith, true, false, List,
  Option, none, some, length, set, length-set, ℕ_discrete, Option-cases, Bool-cases, some_inj,
}
use chrony_nts.Prelude.Slots.{slot_at, get_or-set_self, get_or-set_ne, slot-lt-length, used-replace}
use chrony_nts.Addressing.{IpAddr, RemoteAddress, same_ip, same_ip-eq}
use chrony_nts.NtpSources.{SourceRecord, Sources, find_slot, find_from, probe, is_inet}
use chrony_nts.NtpSources.Find.{ip_of, Other, probe_of, Reaches, IsFindable}
use chrony_nts.NtpSources.Table.{IsValid}

module _ {Instance : Type 0} (hash : IpAddr → ℕ) where
  -- A full match is at the slot that is returned.
  find_from-full :
      (rounds i slot : ℕ) (records : List (Option (SourceRecord Instance))) (addr : RemoteAddress)
      → (find_from hash rounds i slot records addr).1 ≡ 2
      → (r : SourceRecord Instance) × (slot_at records (find_from hash rounds i slot records addr).0
          ≡ some r)
        × (same_ip (ip_of r) addr.ip_addr ≡ true)
  unfolding find_from
  find_from-full zero i slot records addr e = absurd (omega arith)
  find_from-full (suc rounds) i slot records addr e =
      let next = probe (hash addr.ip_addr) i (length records) in
      elim (Option-cases (slot_at records next)) [
        | inl free ↦
            let no_match : ◌≡◌ {A = ℕ} 0 2 = sym (ap (λ (x : ℕ × ℕ). x.1) (first_free free)) ∙ e in
            absurd (omega arith)
        | inr (r, at) ↦ elim (Bool-cases (same_ip (ip_of r) addr.ip_addr)) [
          | inl same ↦ (r, rw (at, find_from) (rw same at), same)
          | inr other ↦
              let (q, at', same) =
                find_from-full rounds (i + 1) next records addr
                  (sym (ap (λ (x : ℕ × ℕ). x.1) (later r at other)) ∙ e) in
              (q, ap (λ (x : ℕ × ℕ). slot_at records x.0) (later r at other) ∙ at', same)
        ]
      ]
    where
      first_free :
          slot_at records (probe (hash addr.ip_addr) i (length records)) ≡ none
          → find_from hash (suc rounds) i slot records addr
            ≡ (probe (hash addr.ip_addr) i (length records), 0)
      first_free free = ground (arith, free)

      later :
          (r : SourceRecord Instance)
          → slot_at records (probe (hash addr.ip_addr) i (length records)) ≡ some r
          → same_ip (ip_of r) addr.ip_addr ≡ false
          → find_from hash (suc rounds) i slot records addr
            ≡ find_from hash rounds
                (i + 1)
                (probe (hash addr.ip_addr) i (length records))
                records
                addr
      later r at other = ground (arith, at, other)

  pub find_slot-full :
      (records : List (Option (SourceRecord Instance))) (addr : RemoteAddress)
      → (find_slot hash records addr).1 ≡ 2
      → (r : SourceRecord Instance) × (slot_at records (find_slot hash records addr).0 ≡ some r)
        × (ip_of r ≡ addr.ip_addr)
  unfolding find_slot
  find_slot-full records addr e = elim (Bool-cases (is_inet addr.ip_addr)) [
    | inl inet ↦
        let (r, at, same) = find_from-full (length records / 2) 0 0 records addr (ground arith) in
        (r, rw inet at, same_ip-eq (ip_of r) addr.ip_addr same)
    | inr no_inet ↦ absurd (ground arith)
  ]

module _ {Instance : Type 0} where
  -- What a changed slot holds.
  pub changed_slot :
      (records : List (Option (SourceRecord Instance))) (a t : ℕ) (r r' q : SourceRecord Instance)
      → slot_at records a ≡ some r
      → ip_of r' ≡ ip_of r
      → slot_at (set records a (some r')) t ≡ some q
      → (p : SourceRecord Instance) × (slot_at records t ≡ some p)
        × (ip_of p ≡ ip_of q)
        × (((t ≡ a) × (q ≡ r')) ⊎ (q ≡ p))
  changed_slot records a t r r' q at same e = elim (ℕ_discrete a t) [
    | yes p ↦
        let here : r' ≡ q = some_inj (
          sym (get_or-set_self records a (some r') none (slot-lt-length records a r at))
          ∙ ap (slot_at (set records a (some r'))) p
          ∙ e) in
        (r, ap (slot_at records) (sym p) ∙ at, sym same ∙ ap ip_of here, inl (sym p, sym here))
    | no p ↦ (q, sym (get_or-set_ne records a t (some r') none p) ∙ e, refl, inr refl)
  ]

  changed-Other :
      (records : List (Option (SourceRecord Instance))) (a t : ℕ) (r r' : SourceRecord Instance)
      (ip : IpAddr)
      → slot_at records a ≡ some r
      → ip_of r' ≡ ip_of r
      → Other ip (slot_at records t)
      → Other ip (slot_at (set records a (some r')) t)
  changed-Other records a t r r' ip at same o = elim (ℕ_discrete a t) [
    | yes p ↦
        let o' : same_ip (ip_of r) ip ≡ false =
          subst (Other ip) (ap (slot_at records) (sym p) ∙ at) o in
        subst (Other ip)
          (sym (
            ap (slot_at (set records a (some r'))) (sym p)
            ∙ get_or-set_self records a (some r') none (slot-lt-length records a r at)))
          (rw same o')
    | no p ↦ subst (Other ip) (sym (get_or-set_ne records a t (some r') none p)) o
  ]

module _ {Instance : Type 0} (hash : IpAddr → ℕ) where
  changed-IsFindable :
      (records : List (Option (SourceRecord Instance))) (a : ℕ) (r r' : SourceRecord Instance)
      → slot_at records a ≡ some r
      → ip_of r' ≡ ip_of r
      → IsFindable hash records
      → IsFindable hash (set records a (some r'))
  changed-IsFindable records a r r' at same f t q e =
      let (p, old, ip, _) = changed_slot records a t r r' q at same e in
      let (j, h, here, pass) = f t p old in
      let size = length-set records a (some r') in
      let new = set records a (some r') in
      subst (λ x. Reaches hash new x t) ip
        (
          j,
          rw size h,
          rw size here,
          λ i hi.
              subst (λ n. Other (ip_of p) (slot_at new (probe (hash (ip_of p)) i n))) (sym size)
                (changed-Other records a (probe_of hash records (ip_of p) i) r r' (ip_of p) at same
                  (pass i hi)),
        )

  -- A record that is changed under its address keeps the table valid.
  pub changed-IsValid :
      (s : Sources Instance) (a : ℕ) (r r' : SourceRecord Instance)
      → IsValid hash s
      → slot_at s.records a ≡ some r
      → ip_of r' ≡ ip_of r
      → IsValid hash (record s { records = set s.records a (some r') })
  changed-IsValid s a r r' v at same = record {
    power = v.power;
    small = v.small;
    table = record {
      size = length-set s.records a (some r') ∙ v.table.size;
      counted = used-replace s.records a r r' at ∙ v.table.counted;
      findable = changed-IsFindable s.records a r r' at same v.table.findable;
      inet = λ t q e.
          let (p, old, ip, _) = changed_slot s.records a t r r' q at same e in
          subst (λ x. is_inet x ≡ true) ip (v.table.inet t p old);
    };
    room = v.room;
  }
