-- ===== src/NtpSources/Find.antt =====
-- ntp_sources.c: what `find_slot` finds.
use chrony_nts.Prelude.{
  ℕ, zero, suc, ◌+◌, ◌/◌, ◌^◌, ◌≤◌, ◌<◌, ◌≡◌, refl, ◌≢◌, ◌⊎◌, inl, inr, ap, ◌∙◌, sym, arith, true,
  false, List, Option, none, some, length, if◌then◌else◌, ◌==◌, ℕ_discrete, Bool-cases, subst,
}
use chrony_nts.Prelude.Slots.{slot_at, used, pigeonhole}
use chrony_nts.Addressing.{IpAddr, RemoteAddress, same_ip}
use chrony_nts.NtpSources.{SourceRecord, probe, find_from}
use chrony_nts.NtpSources.Probe.{probe-ne}

module _ {Instance : Type 0} where
  abbrev pub ip_of : SourceRecord Instance → IpAddr
  ip_of r = r.remote_addr.ip_addr

  -- The slot is used by another address.
  abbrev pub Other : IpAddr → Option (SourceRecord Instance) → Type 0
  Other ip none = ⊥
  Other ip (some r) = same_ip (ip_of r) ip ≡ false

  -- The result code for a record of the address.
  abbrev pub match_code : SourceRecord Instance → RemoteAddress → ℕ
  match_code r addr = if r.remote_addr.port == addr.port then 2 else 1

module _ {Instance : Type 0} (hash : IpAddr → ℕ) where
  abbrev pub probe_of : List (Option (SourceRecord Instance)) → IpAddr → ℕ → ℕ
  probe_of records ip i = probe (hash ip) i (length records)

  -- The first `n` probes of the address meet other addresses.
  abbrev pub Passes : List (Option (SourceRecord Instance)) → IpAddr → ℕ → Type 0
  Passes records ip n = (i : ℕ) → i < n → Other ip (slot_at records (probe_of records ip i))

  find_from-Other :
      (rounds i slot : ℕ) (records : List (Option (SourceRecord Instance))) (addr : RemoteAddress)
      → Other addr.ip_addr (slot_at records (probe_of records addr.ip_addr i))
      → find_from hash (suc rounds) i slot records addr
        ≡ find_from hash rounds (i + 1) (probe_of records addr.ip_addr i) records addr
  unfolding find_from
  find_from-Other rounds i slot records addr o =
      other_step (slot_at records (probe_of records addr.ip_addr i)) refl o
    where
      next : ℕ
      next = probe_of records addr.ip_addr i

      other_step :
          (entry : Option (SourceRecord Instance))
          → slot_at records next ≡ entry
          → Other addr.ip_addr entry
          → find_from hash (suc rounds) i slot records addr
            ≡ find_from hash rounds (i + 1) next records addr
      other_step none e o = absurd o
      other_step (some r) e o = ground arith

  -- A record of the address that the probes come to first is the result.
  pub find_from-hit :
      (rounds i slot j : ℕ) (records : List (Option (SourceRecord Instance))) (addr : RemoteAddress)
      (r : SourceRecord Instance)
      → i ≤ j
      → j < i + rounds
      → Passes records addr.ip_addr j
      → slot_at records (probe_of records addr.ip_addr j) ≡ some r
      → same_ip (ip_of r) addr.ip_addr ≡ true
      → find_from hash rounds i slot records addr
        ≡ (probe_of records addr.ip_addr j, match_code r addr)
  unfolding find_from
  find_from-hit zero i slot j records addr r lo hi pass e q = absurd (omega arith)
  find_from-hit (suc rounds) i slot j records addr r lo hi pass e q = elim (ℕ_discrete i j) [
    | yes p ↦
        let here : slot_at records (probe_of records addr.ip_addr i) ≡ some r =
          ap (λ k. slot_at records (probe_of records addr.ip_addr k)) p ∙ e in
        ground arith
    | no p ↦
        find_from-Other rounds i slot records addr (pass i (omega arith))
        ∙ find_from-hit rounds (i + 1) (probe_of records addr.ip_addr i) j records addr r
            (omega arith) (omega arith) pass e q
  ]

  -- So is a free slot.
  pub find_from-free :
      (rounds i slot j : ℕ) (records : List (Option (SourceRecord Instance))) (addr : RemoteAddress)
      → i ≤ j
      → j < i + rounds
      → Passes records addr.ip_addr j
      → slot_at records (probe_of records addr.ip_addr j) ≡ none
      → find_from hash rounds i slot records addr ≡ (probe_of records addr.ip_addr j, 0)
  unfolding find_from
  find_from-free zero i slot j records addr lo hi pass e = absurd (omega arith)
  find_from-free (suc rounds) i slot j records addr lo hi pass e = elim (ℕ_discrete i j) [
    | yes p ↦
        let here : slot_at records (probe_of records addr.ip_addr i) ≡ none =
          ap (λ k. slot_at records (probe_of records addr.ip_addr k)) p ∙ e in
        ground arith
    | no p ↦
        find_from-Other rounds i slot records addr (pass i (omega arith))
        ∙ find_from-free rounds (i + 1) (probe_of records addr.ip_addr i) j records addr
            (omega arith) (omega arith) pass e
  ]

  -- Where the probes of an address come to an end: at a record of the address, or at a free slot.
  abbrev pub Stops : List (Option (SourceRecord Instance)) → IpAddr → ℕ → Type 0
  Stops records ip j =
      Passes records ip j
      × ((slot_at records (probe_of records ip j) ≡ none)
          ⊎ ((r : SourceRecord Instance) × (slot_at records (probe_of records ip j) ≡ some r)
              × (same_ip (ip_of r) ip ≡ true)))

  Passes-suc :
      (records : List (Option (SourceRecord Instance))) (ip : IpAddr) (i : ℕ)
      → Passes records ip i
      → Other ip (slot_at records (probe_of records ip i))
      → Passes records ip (i + 1)
  Passes-suc records ip i pass o k h = elim (ℕ_discrete k i) [
    | yes p ↦ subst (λ m. Other ip (slot_at records (probe_of records ip m))) (sym p) o
    | no p ↦ pass k (omega arith)
  ]

  abbrev Search : List (Option (SourceRecord Instance)) → IpAddr → ℕ → Type 0
  Search records ip n = ((j : ℕ) × (j < n) × Stops records ip j) ⊎ Passes records ip n

  Search-step :
      (records : List (Option (SourceRecord Instance))) (ip : IpAddr) (i n : ℕ)
      (entry : Option (SourceRecord Instance))
      → i < n
      → slot_at records (probe_of records ip i) ≡ entry
      → Passes records ip i
      → (Passes records ip (i + 1) → Search records ip n)
      → Search records ip n
  Search-step records ip i n none h e pass next = inl (i, h, (pass, inl e))
  Search-step records ip i n (some r) h e pass next = elim (Bool-cases (same_ip (ip_of r) ip)) [
    | inl t ↦ inl (i, h, (pass, inr (r, e, t)))
    | inr f ↦ next (Passes-suc records ip i pass (subst (Other ip) (sym e) f))
  ]

  Search-stop :
      (rounds i n : ℕ) (records : List (Option (SourceRecord Instance))) (ip : IpAddr)
      → i + rounds ≡ n
      → Passes records ip i
      → Search records ip n
  Search-stop zero i n records ip e pass = inr (λ k h. pass k (omega arith))
  Search-stop (suc rounds) i n records ip e pass =
      Search-step records ip i n (slot_at records (probe_of records ip i)) (omega arith) refl pass
        (Search-stop rounds (i + 1) n records ip (omega arith))

  Other-used :
      (ip : IpAddr) (entry : Option (SourceRecord Instance)) → Other ip entry → entry ≢ none
  Other-used ip none o e = o
  Other-used ip (some r) o e = cc

  -- In a table that is less than half full, the probes of an address stop within the first half.
  pub Stops-half :
      (k : ℕ) (records : List (Option (SourceRecord Instance))) (ip : IpAddr)
      → k ≤ 17
      → length records ≡ 2 ^ k
      → used records < 2 ^ k / 2
      → (j : ℕ) × (j < 2 ^ k / 2) × Stops records ip j
  Stops-half k records ip hk size room =
      elim (Search-stop (2 ^ k / 2) 0 (2 ^ k / 2) records ip (omega arith)
        (λ i h. absurd (omega arith))) [
          | inl stop ↦ stop
          | inr pass ↦
              let crowd =
                pigeonhole (2 ^ k / 2) (probe_of records ip) records
                  (λ i j lo hi e.
                    probe-ne (hash ip) i j k hk lo hi
                      (subst (λ m. probe (hash ip) i m ≡ probe (hash ip) j m) size e))
                  (λ i h. Other-used ip (slot_at records (probe_of records ip i)) (pass i h)) in
              absurd (omega arith)
        ]

  -- The probes of the address meet other addresses until they come to the slot.
  abbrev pub Reaches : List (Option (SourceRecord Instance)) → IpAddr → ℕ → Type 0
  Reaches records ip s =
      (j : ℕ) × (j < length records / 2) × (probe_of records ip j ≡ s) × Passes records ip j

  -- Every record can be found from its address.
  abbrev pub IsFindable : List (Option (SourceRecord Instance)) → Type 0
  IsFindable records =
      (s : ℕ) (r : SourceRecord Instance) → slot_at records s ≡ some r → Reaches records (ip_of r) s
