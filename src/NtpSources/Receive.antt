-- ===== src/NtpSources/Receive.antt =====
-- ntp_sources.c: packets that come in or went out, and the sources of a pool that a first good reply
-- confirms. What ntp_core.c does with a packet of a known source is a parameter; one of an unknown
-- address goes to ntp_core.c and leaves the table alone.
pub mod Update
pub mod Pools
pub mod Laws
mod Tests
use chrony_nts.Prelude.{
  ℕ, suc, ◌+◌, ◌-◌, Bool, true, false, not, ◌&&◌, List, [], ◌∷◌, Option, none, some, ◌==◌,
  if◌then◌else◌, get_elem?, get_or, set,
}
use chrony_nts.Prelude.Int.{pos, ◌+ℤ◌, ltb_ℤ}
use chrony_nts.Addressing.{IpAddr, RemoteAddress}
use chrony_nts.NtpSources.{SourceRecord, SourcePool, Sources, find_slot, rehash_records}

-- `NCR_ProcessRxKnown`, which says if the packet was a good reply, and `NCR_ProcessTxKnown`.
pub record Packets (Instance Packet : Type 0) : Type 0 where
  pub process_rx_known : Instance → Packet → Bool × Instance
  pub process_tx_known : Instance → Packet → Instance

abbrev pub in_pool : ℕ → Option ℕ → Bool
in_pool i none = false
in_pool i (some j) = j == i

module _ {Instance : Type 0} where
  -- The test of the loop, the other way round.
  abbrev pub is_leftover : ℕ → SourceRecord Instance → Bool
  is_leftover pool r = in_pool pool r.pool && r.tentative

  -- The slots after the loop, and the number of sources removed.
  pub clear_tentative :
      ℕ → List (Option (SourceRecord Instance)) → List (Option (SourceRecord Instance)) × ℕ
  clear_tentative pool [] = ([], 0)
  clear_tentative pool (none ∷ rest) =
      let (slots, removed) = clear_tentative pool rest in (none ∷ slots, removed)
  clear_tentative pool (some r ∷ rest) =
      let (slots, removed) = clear_tentative pool rest in
      if is_leftover pool r then (none ∷ slots, suc removed) else (some r ∷ slots, removed)

module _ {Instance : Type 0} (hash : IpAddr → ℕ) where
  pub remove_tentative_pool_sources : ℕ → Sources Instance → Option (Sources Instance)
  remove_tentative_pool_sources pool s =
      let (slots, removed) = clear_tentative pool s.records in
      let t = record s { records = slots; n_sources = s.n_sources - removed } in
      if removed == 0 then some t else rehash_records hash t

  -- What follows the first good reply of a source, with its record already confirmed in `s`.
  pub confirm_in_pool : Option ℕ → Sources Instance → Option (Sources Instance)
  confirm_in_pool none s = some s
  confirm_in_pool (some i) s = elim (get_elem? s.pools i) [
    | none ↦ none
    | some p ↦
        let more = record p { sources = p.sources +ℤ pos 1 } in
        let t = record s { pools = set s.pools i more } in
        if ltb_ℤ more.sources (pos p.max_sources) then some t else remove_tentative_pool_sources i t
  ]

  module _ {Packet : Type 0} (core : Packets Instance Packet) where
    -- The record after the packet.
    abbrev pub received : SourceRecord Instance → Packet → SourceRecord Instance
    received r packet =
        let (good, instance_data) = core.process_rx_known r.instance_data packet in
        record r { instance_data = instance_data; tentative = r.tentative && not good }

    pub process_rx_at :
        Sources Instance → ℕ → SourceRecord Instance → Packet → Option (Sources Instance)
    process_rx_at s slot r packet =
        let good = (core.process_rx_known r.instance_data packet).0 in
        let t = record s { records = set s.records slot (some (received r packet)) } in
        if good && r.tentative then confirm_in_pool r.pool t else some t

    -- `none` is a failed assertion, or a read outside the pools.
    pub process_rx : Sources Instance → RemoteAddress → Packet → Option (Sources Instance)
    process_rx s addr packet =
        let (slot, found) = find_slot hash s.records addr in
        if found == 2
        then elim (get_or s.records slot none) [
          | none ↦ none
          | some r ↦ process_rx_at s slot r packet
        ]
        else some s

    pub process_tx : Sources Instance → RemoteAddress → Packet → Option (Sources Instance)
    process_tx s addr packet =
        let (slot, found) = find_slot hash s.records addr in
        if found == 2
        then elim (get_or s.records slot none) [
          | none ↦ none
          | some r ↦
              let sent = core.process_tx_known r.instance_data packet in
              some (record s {
                records = set s.records slot (some (record r { instance_data = sent }));
              })
        ]
        else some s
