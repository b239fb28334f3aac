-- ===== src/NtpSources/Remove.antt =====
-- ntp_sources.c: removing a source.
use chrony_nts.Prelude.{
  ℕ, ◌-◌, ◌^◌, ◌≤◌, ◌≡◌, ◌≢◌, ap, ◌∙◌, sym, subst, arith, true, none, some, set, ◌↔◌, some_inj,
}
use native.Mathlib.Nat.{pow-le-pow_right}
use chrony_nts.Prelude.Slots.{slot_at, get_or-set_ne, slot-lt-length, used-clear}
use chrony_nts.Addressing.{IpAddr, RemoteAddress}
use chrony_nts.NtpSources.{
  SourceRecord, Sources, Core, remove_source, is_inet, success, no_such_source,
}
use chrony_nts.NtpSources.Find.{ip_of}
use chrony_nts.NtpSources.Rehash.{IsTable, IsFresh, Holds, find_slot-present}
use chrony_nts.NtpSources.Table.{
  IsValid, IsTable-IsUnique, rehash_records_lem, clear-IsUnique, clear_sub, find_slot-fresh,
}

module _ {Instance : Type 0} (hash : IpAddr → ℕ) (core : Core Instance) where
  -- Removing an address that no source has changes nothing.
  pub remove_source-absent :
      (s : Sources Instance) (addr : RemoteAddress)
      → IsFresh addr.ip_addr s.records
      → remove_source hash core s addr ≡ some (no_such_source, s)
  unfolding remove_source
  remove_source-absent s addr fresh = ground (arith, find_slot-fresh hash s.records addr fresh)

  -- Removing the address of a source, whatever the port, fails no assertion; the table stays valid,
  -- and it holds the other records, and only those.
  pub remove_source-present :
      (s : Sources Instance) (addr : RemoteAddress) (at : ℕ) (r : SourceRecord Instance)
      → IsValid hash s
      → slot_at s.records at ≡ some r
      → ip_of r ≡ addr.ip_addr
      → (t : Sources Instance) × (remove_source hash core s addr ≡ some (success, t))
        × IsValid hash t
        × ((q : SourceRecord Instance)
            → Holds t.records q ↔ (Holds s.records q × (ip_of q ≢ addr.ip_addr)))
  unfolding remove_source
  remove_source-present s addr at r v e same =
      let cleared = record s { records = set s.records at none; n_sources = s.n_sources - 1 } in
      let inside = slot-lt-length s.records at r e in
      let unique = IsTable-IsUnique hash v.power s.n_sources s.records v.table in
      let less = used-clear s.records at r e in
      let cap : 2 ^ v.power ≤ 2 ^ 17 = pow-le-pow_right {n = 2} (omega arith) v.small in
      let (t, run, b) =
        rehash_records_lem hash cleared (omega (arith, less, v.table.counted))
          (clear-IsUnique hash s.records at inside unique)
          (λ w q h. v.table.inet w q (clear_sub s.records at w q inside h).1)
          (omega (arith, v.room)) in
      let count = ap (λ (x : Sources Instance). x.n_sources) b.rest in
      (
        t,
        ground (
          arith,
          find_slot-present hash s.records addr at r v.table.findable e same
              (subst (λ a. is_inet a ≡ true) same (v.table.inet at r e)),
          run,
        ),
        record {
          power = b.power;
          small = b.small;
          table =
              subst (λ m. IsTable hash b.power m t.records)
                (omega (arith, less, v.table.counted, count)) b.table;
          room = omega (arith, b.room, count);
        },
        λ q. (
          λ h.
              let (w, e') = (b.same q).1 h in
              let (apart, e'') = clear_sub s.records at w q inside e' in
              ((w, e''), λ p. apart (sym (unique at w r q e e'' (p ∙ sym same)))),
          λ h.
              let (w, e') = h.0 in
              (b.same q).0 (
                w,
                get_or-set_ne s.records at w none none (λ p.
                      h.1
                        (ap ip_of (some_inj (sym e' ∙ sym (ap (slot_at s.records) p) ∙ e)) ∙ same))
                    ∙ e',
              ),
        ),
      )
