-- ===== src/NtpSources/Control.antt =====
-- ntp_sources.c: the calls that act on the sources of an address or of all addresses: connectivity,
-- parameters, bursts, changes of the clock, and reports. What ntp_core.c does to one source is a
-- parameter; the calls for all sources go through the slots in order.
pub mod Laws
mod Tests
use Prim.Native.Nat.{bit_and}
use chrony_nts.Prelude.{
  ℕ, zero, suc, ◌+◌, Bool, true, false, not, ◌&&◌, ◌||◌, List, [], ◌∷◌, Option, none, some, ◌==◌,
  if◌then◌else◌, ◌>>=◌, length, get_or, set, map,
}
use chrony_nts.Addressing.{IpAddr, inet4, inet6, unspec, RemoteAddress, same_ip}
use chrony_nts.NtpSources.{SourceRecord, Sources, find_slot}
use chrony_nts.NtpSources.Resolve.{
  UnresolvedSource, Purpose, new_source, replacement, Resolver, resolve_now,
}

-- `SRC_Connectivity`
pub data Connectivity : Type 0 where
  offline online maybe_online : Connectivity

-- The counters of `RPT_ActivityReport` for known sources.
pub record Activity : Type 0 where
  pub n_online : ℕ
  pub n_offline : ℕ
  pub burst_online : ℕ
  pub burst_offline : ℕ

-- The calls of ntp_core.c on one source; doubles of the parameters are of an unspecified type.
pub record Controls (Instance Double Report : Type 0) : Type 0 where
  pub start_instance : Instance → Instance
  pub is_sync_peer : Instance → Bool
  pub set_connectivity : Connectivity → Instance → Instance
  pub params_connectivity : Connectivity → ℕ → ℕ
  pub reset_instance : Instance → Instance
  pub reset_poll : Instance → Instance
  pub slew_times : Double → Double → Instance → Instance
  pub modify_minpoll : ℕ → Instance → Instance
  pub modify_maxpoll : ℕ → Instance → Instance
  pub modify_maxdelay : Double → Instance → Instance
  pub modify_maxdelayratio : Double → Instance → Instance
  pub modify_maxdelaydevratio : Double → Instance → Instance
  pub modify_minstratum : ℕ → Instance → Instance
  pub modify_polltarget : ℕ → Instance → Instance
  pub initiate_burst : ℕ → ℕ → Instance → Instance
  pub local_refid : Instance → ℕ
  pub report : Instance → Report
  pub count_activity : Instance → Activity → Activity

-- The bytes of two addresses agree under the mask.
pub same_bytes : List ℕ → List ℕ → List ℕ → Bool
same_bytes (m ∷ ms) (x ∷ xs) (y ∷ ys) = bit_and x m == bit_and y m && same_bytes ms xs ys
same_bytes _ _ _ = true

-- `UTI_CompareIPs` with a mask returns zero. A mask of another family is ignored.
pub same_subnet : IpAddr → IpAddr → IpAddr → Bool
unfolding same_bytes
same_subnet (inet4 m) (inet4 a) (inet4 b) = bit_and a m == bit_and b m
same_subnet (inet6 ms) (inet6 xs) (inet6 ys) = same_bytes ms xs ys
same_subnet mask a b = same_ip a b

abbrev pub is_unspec : IpAddr → Bool
is_unspec unspec = true
is_unspec _ = false

module _ {Instance : Type 0} where
  -- The test of the loops on a source.
  abbrev pub concerns : IpAddr → IpAddr → SourceRecord Instance → Bool
  concerns mask address r = is_unspec address || same_subnet mask r.remote_addr.ip_addr address

  abbrev pub on_instance : (Instance → Instance) → SourceRecord Instance → SourceRecord Instance
  on_instance f r = record r { instance_data = f r.instance_data }

  -- A loop that calls `f` on each source.
  pub on_all :
      (Instance → Instance)
      → List (Option (SourceRecord Instance))
      → List (Option (SourceRecord Instance))
  on_all f [] = []
  on_all f (none ∷ slots) = none ∷ on_all f slots
  on_all f (some r ∷ slots) = some (on_instance f r) ∷ on_all f slots

  -- A loop that calls `f` on the sources concerned, and whether there is any.
  pub on_concerned :
      IpAddr
      → IpAddr
      → (Instance → Instance)
      → List (Option (SourceRecord Instance))
      → List (Option (SourceRecord Instance)) × Bool
  on_concerned mask address f [] = ([], false)
  on_concerned mask address f (none ∷ slots) =
      let (rest, found) = on_concerned mask address f slots in (none ∷ rest, found)
  on_concerned mask address f (some r ∷ slots) =
      let (rest, found) = on_concerned mask address f slots in
      if concerns mask address r
      then (some (on_instance f r) ∷ rest, true)
      else (some r ∷ rest, found)

module _ {Instance Double Report : Type 0} (ncr : Controls Instance Double Report) where
  pub start_sources : Sources Instance → Sources Instance
  start_sources s = record s { records = on_all ncr.start_instance s.records }

  pub auto_start_sources : Sources Instance → Sources Instance
  auto_start_sources s = record s { auto_start_sources = true }

  -- `unknown_step` is the change type `LCL_ChangeUnknownStep`.
  pub slew_sources : Bool → Double → Double → Sources Instance → Sources Instance
  slew_sources unknown_step dfreq doffset s = record s {
    records =
        if unknown_step
        then on_all (λ i. ncr.reset_poll (ncr.reset_instance i)) s.records
        else on_all (ncr.slew_times dfreq doffset) s.records;
  }

  -- The loop of `NSR_SetConnectivity` from slot `i` on: the slots, the slot of the last sync peer that
  -- was passed over, and whether a source is concerned.
  pub connect_from :
      IpAddr
      → IpAddr
      → Connectivity
      → ℕ
      → List (Option (SourceRecord Instance))
      → List (Option (SourceRecord Instance)) × Option ℕ × Bool
  connect_from mask address to i [] = ([], none, false)
  connect_from mask address to i (none ∷ slots) =
      let (rest, peer, found) = connect_from mask address to (i + 1) slots in
      (none ∷ rest, peer, found)
  connect_from mask address to i (some r ∷ slots) =
      let (rest, peer, found) = connect_from mask address to (i + 1) slots in
      if concerns mask address r
      then if ncr.is_sync_peer r.instance_data
        then (some r ∷ rest, some (elim peer [ none ↦ i | some later ↦ later ]), true)
        else (some (on_instance (ncr.set_connectivity to) r) ∷ rest, peer, true)
      else (some r ∷ rest, peer, found)

  -- The sync peer comes last.
  pub connect_peer :
      Connectivity
      → Option ℕ
      → List (Option (SourceRecord Instance))
      → List (Option (SourceRecord Instance))
  connect_peer to none slots = slots
  connect_peer to (some i) slots = elim (get_or slots i none) [
    | none ↦ slots
    | some r ↦ set slots i (some (on_instance (ncr.set_connectivity to) r))
  ]

  abbrev connect_purpose : Connectivity → Purpose → Purpose
  connect_purpose to (new_source params pool most) =
      new_source (ncr.params_connectivity to params) pool most
  connect_purpose to (replacement old) = replacement old

  abbrev is_new : Purpose → Bool
  is_new (new_source params pool most) = true
  is_new (replacement old) = false

  -- The loop over the unresolved sources, and whether one is concerned.
  pub connect_unresolved : Connectivity → List UnresolvedSource → List UnresolvedSource × Bool
  connect_unresolved to [] = ([], false)
  connect_unresolved to (us ∷ list) =
      let (rest, found) = connect_unresolved to list in
      (record us { purpose = connect_purpose to us.purpose } ∷ rest, is_new us.purpose || found)

  abbrev is_offline : Connectivity → Bool
  is_offline offline = true
  is_offline _ = false

  pub connect_sources :
      IpAddr
      → IpAddr
      → Connectivity
      → List (Option (SourceRecord Instance))
      → List (Option (SourceRecord Instance)) × Bool
  connect_sources mask address to records =
      let (slots, peer, found) = connect_from mask address to 0 records in
      (connect_peer to peer slots, found)

  -- The resolver with its sources, and whether any is concerned.
  pub set_connectivity :
      IpAddr → IpAddr → Connectivity → Resolver Instance → Option (Resolver Instance × Bool)
  set_connectivity mask address to r = do
    t ← if is_offline to then some r else resolve_now r
    let (slots, found) = connect_sources mask address to t.table.records
    let (list, waiting) = connect_unresolved to t.unresolved
    let u : Resolver Instance = record t { table = record t.table { records = slots } }
    if is_unspec address
        then some (record u { unresolved = list }, found || waiting)
        else some (u, found)

  pub initiate_sample_burst : ℕ → ℕ → IpAddr → IpAddr → Sources Instance → Sources Instance × Bool
  initiate_sample_burst n_good n_total mask address s =
      let (slots, found) =
        on_concerned mask address (ncr.initiate_burst n_good n_total) s.records in
      (record s { records = slots }, found)

  pub activity_from : List (Option (SourceRecord Instance)) → Activity → Activity
  activity_from [] counts = counts
  activity_from (none ∷ slots) counts = activity_from slots counts
  activity_from (some r ∷ slots) counts =
      activity_from slots (ncr.count_activity r.instance_data counts)

  -- The counters, and the number of unresolved sources.
  pub get_activity_report : Resolver Instance → Activity × ℕ
  get_activity_report r =
      let none_yet : Activity = record {
        n_online = 0;
        n_offline = 0;
        burst_online = 0;
        burst_offline = 0;
      } in
      (activity_from r.table.records none_yet, length r.unresolved)

module _ {Instance : Type 0} (hash : IpAddr → ℕ) where
  -- The record of an address, whatever its port.
  pub look_up : IpAddr → Sources Instance → Option (ℕ × SourceRecord Instance)
  look_up address s =
      let (slot, found) = find_slot hash s.records (record { ip_addr = address; port = 0 }) in
      if found == 0 then none else do r ← get_or s.records slot none; some (slot, r)

  -- The functions that modify a parameter of the source of an address.
  pub modify : (Instance → Instance) → IpAddr → Sources Instance → Sources Instance × Bool
  modify f address s = elim (look_up address s) [
    | none ↦ (s, false)
    | some (slot, r) ↦ (record s { records = set s.records slot (some (on_instance f r)) }, true)
  ]

  module _ {Double Report : Type 0} (ncr : Controls Instance Double Report) where
    pub modify_minpoll : IpAddr → ℕ → Sources Instance → Sources Instance × Bool
    modify_minpoll address value = modify (ncr.modify_minpoll value) address

    pub modify_maxpoll : IpAddr → ℕ → Sources Instance → Sources Instance × Bool
    modify_maxpoll address value = modify (ncr.modify_maxpoll value) address

    pub modify_maxdelay : IpAddr → Double → Sources Instance → Sources Instance × Bool
    modify_maxdelay address value = modify (ncr.modify_maxdelay value) address

    pub modify_maxdelayratio : IpAddr → Double → Sources Instance → Sources Instance × Bool
    modify_maxdelayratio address value = modify (ncr.modify_maxdelayratio value) address

    pub modify_maxdelaydevratio : IpAddr → Double → Sources Instance → Sources Instance × Bool
    modify_maxdelaydevratio address value = modify (ncr.modify_maxdelaydevratio value) address

    pub modify_minstratum : IpAddr → ℕ → Sources Instance → Sources Instance × Bool
    modify_minstratum address value = modify (ncr.modify_minstratum value) address

    pub modify_polltarget : IpAddr → ℕ → Sources Instance → Sources Instance × Bool
    modify_polltarget address value = modify (ncr.modify_polltarget value) address

    -- 0 if no source has the address.
    pub get_local_refid : IpAddr → Sources Instance → ℕ
    get_local_refid address s = elim (look_up address s) [
      | none ↦ 0
      | some (slot, r) ↦ ncr.local_refid r.instance_data
    ]

    -- `NSR_ReportSource` and `NSR_GetNTPReport`: `none` if no source has the address.
    pub report_source : IpAddr → Sources Instance → Option Report
    report_source address s = do found ← look_up address s; some (ncr.report found.1.instance_data)
