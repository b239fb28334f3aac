-- ===== src/NtpSources/Receive/Laws.antt =====
-- ntp_sources.c: every packet keeps the table valid, and a full pool has no tentative sources left.
use chrony_nts.Prelude.{
  ℕ, ◌≡◌, refl, ◌≢◌, inl, inr, ap, ◌∙◌, sym, subst, arith, true, false, Option, none, some, set,
  get_elem?, Bool-cases, ◌&&◌, ◌==◌, some_inj,
}
use chrony_nts.Prelude.Int.{pos, ◌+ℤ◌, ltb_ℤ}
use chrony_nts.Prelude.Slots.{slot_at, get_or-set_self, get_or-set_ne, slot-lt-length}
use chrony_nts.Addressing.{IpAddr, RemoteAddress}
use chrony_nts.NtpSources.{SourceRecord, SourcePool, Sources, find_slot, is_inet}
use chrony_nts.NtpSources.Find.{ip_of, match_code}
use chrony_nts.NtpSources.Rehash.{Holds, find_slot-present}
use chrony_nts.NtpSources.Table.{IsValid}
use chrony_nts.NtpSources.Receive.{
  Packets, is_leftover, confirm_in_pool, received, process_rx_at, process_rx,
}
use chrony_nts.NtpSources.Receive.Update.{find_slot-full, changed-IsValid, changed_slot}
use chrony_nts.NtpSources.PoolIndex.{HasPools}
use chrony_nts.NtpSources.Receive.Pools.{
  confirm_in_pool_lem, remove_tentative_lem, confirm_in_pool-full,
}

module _ {Instance Packet : Type 0} (hash : IpAddr → ℕ) (core : Packets Instance Packet) where
  abbrev updated : Sources Instance → ℕ → SourceRecord Instance → Packet → Sources Instance
  updated s a r packet = record s { records = set s.records a (some (received hash core r packet)) }

  updated-HasPools :
      (s : Sources Instance) (a : ℕ) (r : SourceRecord Instance) (packet : Packet)
      → slot_at s.records a ≡ some r
      → HasPools s
      → HasPools (updated s a r packet)
  updated-HasPools s a r packet at h q i held e =
      let (old, there, _, change) =
        changed_slot s.records a held.0 r (received hash core r packet) q at refl held.1 in
      elim change [
        | inl c ↦ h r i (a, at) (sym (ap (λ (x : SourceRecord Instance). x.pool) c.1) ∙ e)
        | inr c ↦ h old i (held.0, there) (sym (ap (λ (x : SourceRecord Instance). x.pool) c) ∙ e)
      ]

  process_rx_at_lem :
      (s : Sources Instance) (a : ℕ) (r : SourceRecord Instance) (packet : Packet)
      → IsValid hash s
      → HasPools s
      → slot_at s.records a ≡ some r
      → (t : Sources Instance) × (process_rx_at hash core s a r packet ≡ some t)
        × IsValid hash t
        × HasPools t
  unfolding process_rx_at
  process_rx_at_lem s a r packet v h at =
      let good = (core.process_rx_known r.instance_data packet).0 in
      let u = updated s a r packet in
      let vu = changed-IsValid hash s a r (received hash core r packet) v at refl in
      let hu = updated-HasPools s a r packet at h in
      elim (Bool-cases (good && r.tentative)) [
        | inl first ↦
            let (t, run, vt, keep, held) =
              confirm_in_pool_lem hash r.pool u vu (λ i e. h r i (a, at) e) in
            (
              t,
              rw first run,
              vt,
              λ q i e p. let (old, there) = hu q i (held q e) p in keep i old there,
            )
        | inr more ↦ (u, rw more refl, vu, hu)
      ]

  process_rx_at-first :
      (s : Sources Instance) (a : ℕ) (r : SourceRecord Instance) (packet : Packet)
      → (core.process_rx_known r.instance_data packet).0 ≡ true
      → r.tentative ≡ true
      → process_rx_at hash core s a r packet ≡ confirm_in_pool hash r.pool (updated s a r packet)
  unfolding process_rx_at
  process_rx_at-first s a r packet good new =
      let first : ((core.process_rx_known r.instance_data packet).0 && r.tentative) ≡ true =
        ground arith in
      rw first refl

  process_rx-found :
      (s : Sources Instance) (addr : RemoteAddress) (a : ℕ) (r : SourceRecord Instance)
      (packet : Packet)
      → find_slot hash s.records addr ≡ (a, 2)
      → slot_at s.records a ≡ some r
      → process_rx hash core s addr packet ≡ process_rx_at hash core s a r packet
  unfolding process_rx
  process_rx-found s addr a r packet hit at = ground arith

  -- Whatever packet comes from whatever address, no assertion fails, the pool of every source exists
  -- and the table stays valid. Condition: the table is valid and the pool of every source exists.
  pub process_rx-IsValid :
      (s : Sources Instance) (addr : RemoteAddress) (packet : Packet)
      → IsValid hash s
      → HasPools s
      → (t : Sources Instance) × (process_rx hash core s addr packet ≡ some t)
        × IsValid hash t
        × HasPools t
  unfolding process_rx
  process_rx-IsValid s addr packet v h =
      let found = (find_slot hash s.records addr).1 in
      elim (Bool-cases (found == 2)) [
        | inl full ↦
            let (r, at, _) = find_slot-full hash s.records addr (ground arith) in
            let (t, run, vt, ht) =
              process_rx_at_lem s (find_slot hash s.records addr).0 r packet v h at in
            (t, rw full (rw (at) run), vt, ht)
        | inr other ↦ (s, rw other refl, v, h)
      ]

  -- When a good reply confirms the source that makes its pool full, the source is kept as confirmed,
  -- the pool has no tentative source left, and every source of another address that is not a
  -- tentative one of the pool stays as it was.
  pub process_rx-full_pool :
      (s : Sources Instance) (addr : RemoteAddress) (packet : Packet) (a i : ℕ)
      (r : SourceRecord Instance) (p : SourcePool)
      → IsValid hash s
      → slot_at s.records a ≡ some r
      → r.remote_addr ≡ addr
      → (core.process_rx_known r.instance_data packet).0 ≡ true
      → r.tentative ≡ true
      → r.pool ≡ some i
      → get_elem? s.pools i ≡ some p
      → ltb_ℤ (p.sources +ℤ pos 1) (pos p.max_sources) ≡ false
      → (t : Sources Instance) × (process_rx hash core s addr packet ≡ some t)
        × IsValid hash t
        × Holds t.records (received hash core r packet)
        × ((q : SourceRecord Instance) → Holds t.records q → is_leftover i q ≡ false)
        × ((q : SourceRecord Instance)
            → Holds s.records q
            → ip_of q ≢ addr.ip_addr
            → is_leftover i q ≡ false
            → Holds t.records q)
  process_rx-full_pool s addr packet a i r p v at same good new pool at_pool full =
      let ip : ip_of r ≡ addr.ip_addr = ap (λ (x : RemoteAddress). x.ip_addr) same in
      let hit =
        find_slot-present hash s.records addr a r v.table.findable at ip
          (subst (λ x. is_inet x ≡ true) ip (v.table.inet a r at)) in
      let code : match_code r addr ≡ 2 = subst (λ x. match_code r x ≡ 2) same (ground arith) in
      let u = updated s a r packet in
      let vu = changed-IsValid hash s a r (received hash core r packet) v at refl in
      let more = record p { sources = p.sources +ℤ pos 1 } in
      let w = record u { pools = set s.pools i more } in
      let vw : IsValid hash w = record {
        power = vu.power;
        small = vu.small;
        table = vu.table;
        room = vu.room;
      } in
      let (t, run, vt, _, held) = remove_tentative_lem hash i w vw in
      let kept : is_leftover i (received hash core r packet) ≡ false = ground arith in
      (
        t,
        process_rx-found s addr a r packet (hit ∙ ap (λ (c : ℕ). (a, c)) code) at
            ∙ process_rx_at-first s a r packet good new
            ∙ ap (λ (x : Option ℕ). confirm_in_pool hash x u) pool
            ∙ confirm_in_pool-full hash i u p at_pool full
            ∙ run,
        vt,
        (held (received hash core r packet)).1 (
          (
            a,
            get_or-set_self s.records a (some (received hash core r packet)) none
                (slot-lt-length s.records a r at),
          ),
          kept,
        ),
        λ q e. ((held q).0 e).1,
        λ q e other stay. (held q).1 (
          (
            e.0,
            get_or-set_ne s.records a e.0 (some (received hash core r packet)) none (λ k.
                  other (ap ip_of (some_inj (sym e.1 ∙ ap (slot_at s.records) (sym k) ∙ at)) ∙ ip))
                ∙ e.1,
          ),
          stay,
        ),
      )
