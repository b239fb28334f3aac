-- ===== src/NtpSources.antt =====
-- ntp_sources.c: the table of NTP sources, a hash table with open addressing and quadratic probing.
-- A slot whose `remote_addr` is NULL is `none`. What the table calls of ntp_core.c, and the hash with
-- its random seed, come as a parameter.
pub mod Probe
pub mod Find
pub mod PoolIndex
pub mod Rehash
pub mod Table
pub mod Remove
pub mod Replace
pub mod Clash
pub mod Receive
pub mod Resolve
pub mod Control
mod Tests
use chrony_nts.Prelude.{
  ℕ, zero, suc, ◌+◌, ◌-◌, ◌*◌, ◌/◌, ◌%◌, ◌^◌, Bool, true, false, not, List, [], ◌∷◌, Option, none,
  some, leb, ◌==◌, if◌then◌else◌, ◌>>=◌, length, get_or, get_elem?, set, replicate,
}
use chrony_nts.Prelude.Int.{ℤ, pos, ◌+ℤ◌, ◌-ℤ◌}
use chrony_nts.Addressing.{IpAddr, inet4, inet6, unspec, RemoteAddress, same_ip}

-- `NCR_CreateInstance` (for the type and parameters of the source), `NCR_ChangeRemoteAddress` and
-- `NCR_StartInstance`.
pub record Core (Instance : Type 0) : Type 0 where
  pub create_instance : RemoteAddress → ℕ → Instance
  pub change_remote_address : Instance → RemoteAddress → Instance
  pub start_instance : Instance → Instance

-- `pool` is `none` for INVALID_POOL.
pub record SourceRecord (Instance : Type 0) : Type 0 where
  pub remote_addr : RemoteAddress
  pub instance_data : Instance
  pub name : Option (List ℕ)
  pub pool : Option ℕ
  pub tentative : Bool

pub record SourcePool : Type 0 where
  pub sources : ℤ
  pub max_sources : ℕ

pub record Sources (Instance : Type 0) : Type 0 where
  pub records : List (Option (SourceRecord Instance))
  pub n_sources : ℕ
  pub auto_start_sources : Bool
  pub pools : List SourcePool

pub data Status : Type 0 where
  success no_such_source already_in_use invalid_af : Status

-- The slot of the i-th probe, in 32-bit arithmetic.
pub probe : ℕ → ℕ → ℕ → ℕ
probe hash i size = (hash + (i + i * i) % 2 ^ 32 / 2) % 2 ^ 32 % size

abbrev pub is_inet : IpAddr → Bool
is_inet (inet4 _) = true
is_inet (inet6 _) = true
is_inet unspec = false

pub check_hashtable_size : ℕ → ℕ → Bool
check_hashtable_size sources size = leb (sources * 2 % 2 ^ 32) size

-- The loop for the new size; `fuel` bounds the rounds.
pub grow_size : ℕ → ℕ → ℕ → ℕ
unfolding check_hashtable_size
grow_size zero sources size = size
grow_size (suc fuel) sources size =
    let rest = grow_size fuel sources (size * 2) in
    if check_hashtable_size sources size then size else rest

abbrev pub new_size : ℕ → ℕ
new_size sources = grow_size (sources + 1) sources 1

module _ {Instance : Type 0} (hash : IpAddr → ℕ) where
  -- The loop of `find_slot` with `rounds` left, from probe `i` on; `slot` is the last one looked at.
  -- A probe is always inside the table, so that the default of the read is never taken.
  pub find_from : ℕ → ℕ → ℕ → List (Option (SourceRecord Instance)) → RemoteAddress → ℕ × ℕ
  find_from zero i slot records addr = (slot, 0)
  find_from (suc rounds) i slot records addr =
      let next = probe (hash addr.ip_addr) i (length records) in
      elim (get_or records next none) [
        | none ↦ (next, 0)
        | some r ↦
            let rest = find_from rounds (i + 1) next records addr in
            if same_ip r.remote_addr.ip_addr addr.ip_addr
            then (next, if r.remote_addr.port == addr.port then 2 else 1)
            else rest
      ]

  -- The slot, and 0, 1 or 2 for no match, a match of the address, and of the port too.
  pub find_slot : List (Option (SourceRecord Instance)) → RemoteAddress → ℕ × ℕ
  find_slot records addr =
      if is_inet addr.ip_addr then find_from (length records / 2) 0 0 records addr else (0, 0)

  -- The loop that puts the old records into the new table. `none` is a failed assertion.
  pub rehash_from :
      List (Option (SourceRecord Instance))
      → List (Option (SourceRecord Instance))
      → Option (List (Option (SourceRecord Instance)))
  rehash_from [] records = some records
  rehash_from (none ∷ old) records = rehash_from old records
  rehash_from (some r ∷ old) records =
      let (slot, found) = find_slot records r.remote_addr in
      let rest = rehash_from old (set records slot (some r)) in if found == 0 then rest else none

  pub rehash_records : Sources Instance → Option (Sources Instance)
  rehash_records s = do
    records ← rehash_from s.records (replicate (new_size s.n_sources) none)
    some (record s { records = records })

-- `clean_source_record` on a slot.
abbrev clean_slot {ℓ} : {A : Type ℓ} → List (Option A) → ℕ → List (Option A)
clean_slot records slot = set records slot none

module _ {Instance : Type 0} (hash : IpAddr → ℕ) (core : Core Instance) where
  -- The new record of `add_source`, started if sources are.
  abbrev pub new_record :
      Sources Instance → RemoteAddress → Option (List ℕ) → ℕ → Option ℕ → SourceRecord Instance
  new_record s addr name params pool =
      let created = core.create_instance addr params in
      record {
        remote_addr = addr;
        instance_data = if s.auto_start_sources then core.start_instance created else created;
        name = name;
        pool = pool;
        tentative = true;
      }

  -- Rebuilds the table if it is too small for the sources counted, and looks for the slot again.
  pub make_room : Sources Instance → RemoteAddress → ℕ × ℕ → Option (Sources Instance × (ℕ × ℕ))
  make_room s addr at =
      if check_hashtable_size s.n_sources (length s.records)
      then some (s, at)
      else do t ← rehash_records hash s; some (t, find_slot hash t.records addr)

  -- `none` is a failed assertion: the slot of the new source is not free.
  pub add_source :
      Sources Instance
      → RemoteAddress
      → Option (List ℕ)
      → ℕ
      → Option ℕ
      → Option (Status × Sources Instance)
  add_source s addr name params pool =
      let (slot, found) = find_slot hash s.records addr in
      if not (found == 0)
      then some (already_in_use, s)
      else if not (is_inet addr.ip_addr)
      then some (invalid_af, s)
      else do
        (t, at) ← make_room (record s { n_sources = s.n_sources + 1 }) addr (slot, found)
        if at.1 == 0
            then some (
              success,
              record t { records = set t.records at.0 (some (new_record s addr name params pool)) },
            )
            else none

  pub remove_source : Sources Instance → RemoteAddress → Option (Status × Sources Instance)
  remove_source s addr =
      let (slot, found) = find_slot hash s.records addr in
      if found == 0 then some (no_such_source, s) else do
        t ←
            rehash_records hash
              (record s { records = clean_slot s.records slot; n_sources = s.n_sources - 1 })
        some (success, t)

-- `pool->sources--`; `none` is the failed assertion of `ARR_GetElement` on an index out of range.
abbrev pub leave_pool : Option ℕ → List SourcePool → Option (List SourcePool)
leave_pool none pools = some pools
leave_pool (some i) pools = elim (get_elem? pools i) [
  | none ↦ none
  | some p ↦ some (set pools i (record p { sources = p.sources -ℤ pos 1 }))
]

-- The pools when a record is tentative again.
abbrev pub pools_without :
    {Instance : Type 0} → SourceRecord Instance → List SourcePool → Option (List SourcePool)
pools_without r pools = if r.tentative then some pools else leave_pool r.pool pools

module _ {Instance : Type 0} (hash : IpAddr → ℕ) (core : Core Instance) where
  -- The record of `NSR_ReplaceSource` under its new address.
  abbrev pub moved_record : SourceRecord Instance → RemoteAddress → SourceRecord Instance
  moved_record r addr = record r {
    remote_addr = addr;
    instance_data = core.change_remote_address r.instance_data addr;
    tentative = true;
  }

  -- The table with the record of slot `a` moved and these pools, before it is rebuilt.
  pub replaced :
      Sources Instance
      → ℕ
      → SourceRecord Instance
      → RemoteAddress
      → List SourcePool
      → Sources Instance
  replaced s a r new pools = record s {
    records = set s.records a (some (moved_record r new));
    pools = pools;
  }

  pub replace_source :
      Sources Instance → RemoteAddress → RemoteAddress → Option (Status × Sources Instance)
  replace_source s old_addr new_addr =
      let (slot1, found1) = find_slot hash s.records old_addr in
      let (slot2, found2) = find_slot hash s.records new_addr in
      if found1 == 0
      then some (no_such_source, s)
      else if found2 == 2
      then some (already_in_use, s)
      else elim (get_or s.records slot1 none) [
        | none ↦ none
        | some r ↦ do
          pools ← pools_without r s.pools
          t ← rehash_records hash (replaced s slot1 r new_addr pools)
          some (success, t)
      ]

  pub remove_all_sources : Sources Instance → Option (Sources Instance)
  remove_all_sources s =
      rehash_records hash (record s { records = replicate (length s.records) none; n_sources = 0 })
