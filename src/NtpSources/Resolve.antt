-- ===== src/NtpSources/Resolve.antt =====
-- ntp_sources.c: sources known by name: the list of unresolved sources, the rounds in which their
-- names are resolved, the interval between the rounds, and replacements. The answers of the resolver
-- come as arguments, in the order in which it was asked.
pub mod Rounds
pub mod Ends
pub mod Phases
pub mod Reach
mod Tests
pub mod Names
pub mod Replacing
use chrony_nts.Prelude.{
  ℕ, zero, suc, ◌+◌, ◌-◌, ◌*◌, ◌%◌, ◌^◌, Bool, true, false, not, ◌||◌, ◌&&◌, List, [], ◌∷◌, ◌++◌,
  Option, none, some, ltb, leb, ◌==◌, if◌then◌else◌, ◌>>=◌, length, get_or, get_elem?,
}
use chrony_nts.Prelude.Int.{ℤ, pos, abs, ltb_ℤ}
use chrony_nts.Addressing.{IpAddr, unspec, RemoteAddress}
use chrony_nts.Time.{Timespec, diff_nanos}
use chrony_nts.NtpSources.{
  SourceRecord, SourcePool, Sources, Core, Status, success, no_such_source, already_in_use,
  invalid_af, find_slot, add_source, replace_source,
}

-- The union of `struct UnresolvedSource`: a new source with its type and parameters, its pool and
-- the most sources to add, or the address of a source to replace.
pub data Purpose : Type 0 where
  new_source : ℕ → Option ℕ → ℕ → Purpose
  replacement : RemoteAddress → Purpose

pub record UnresolvedSource : Type 0 where
  pub name : List ℕ
  pub port : ℕ
  pub random_order : Bool
  pub purpose : Purpose

-- The status that the resolver answers with, and the addresses.
pub data Answer : Type 0 where
  resolved : List IpAddr → Answer
  try_again failure : Answer

-- `resolving` is the position of `resolving_source` in the list; `timer` is the delay of the timeout
-- `resolving_id` if it is queued; `rounds` counts the calls of the handler for the end of a round.
pub record Resolver (Instance : Type 0) : Type 0 where
  pub table : Sources Instance
  pub unresolved : List UnresolvedSource
  pub interval : ℕ
  pub timer : Option ℕ
  pub resolving : Option ℕ
  pub rounds : ℕ

abbrev pub resolve_interval_unit : ℕ
resolve_interval_unit = 7

abbrev pub min_resolve_interval : ℕ
min_resolve_interval = 2

abbrev pub max_resolve_interval : ℕ
max_resolve_interval = 9

abbrev pub min_replacement_interval : ℕ
min_replacement_interval = 8

abbrev pub max_pool_sources : ℕ
max_pool_sources = 16

abbrev pub is_success : Status → Bool
is_success success = true
is_success _ = false

abbrev pub is_already_in_use : Status → Bool
is_already_in_use already_in_use = true
is_already_in_use _ = false

abbrev pub is_replacement : Purpose → Bool
is_replacement (new_source _ _ _) = false
is_replacement (replacement _) = true

abbrev pub is_try_again : Answer → Bool
is_try_again try_again = true
is_try_again _ = false

-- The address at round `i`, from the random start `first`.
abbrev pub resolved_address : UnresolvedSource → List IpAddr → ℕ → ℕ → RemoteAddress
resolved_address us addrs first i = record {
  ip_addr = get_or addrs ((i + first) % 2 ^ 32 % length addrs) unspec;
  port = us.port;
}

abbrev pub first_address : UnresolvedSource → ℕ → ℕ
first_address us random = if us.random_order then random % 2 ^ 16 else 0

module _ {Instance : Type 0} (hash : IpAddr → ℕ) (core : Core Instance) where
  -- The loop of `process_resolved_name` for a new source, with `left` rounds to go.
  pub add_resolved :
      UnresolvedSource
      → List IpAddr
      → ℕ
      → ℕ
      → Option ℕ
      → ℕ
      → (left i added : ℕ) → Sources Instance
      → Option (Sources Instance)
  add_resolved us addrs first params pool most zero i added s = some s
  add_resolved us addrs first params pool most (suc left) i added s = do
    (status, t) ←
        add_source hash core s (resolved_address us addrs first i) (some us.name) params pool
    let added' = if is_success status then added + 1 else added
    let rest = add_resolved us addrs first params pool most left (i + 1) added' t
    if leb most added' then some t else rest

  -- The loop for a replacement.
  pub replace_resolved :
      UnresolvedSource
      → List IpAddr
      → ℕ
      → RemoteAddress
      → (left i : ℕ) → Sources Instance
      → Option (Sources Instance)
  replace_resolved us addrs first old zero i s = some s
  replace_resolved us addrs first old (suc left) i s = do
    (status, t) ← replace_source hash core s old (resolved_address us addrs first i)
    let rest = replace_resolved us addrs first old left (i + 1) t
    if is_already_in_use status then rest else some t

  abbrev pub process_for :
      Purpose → UnresolvedSource → List IpAddr → ℕ → Sources Instance → Option (Sources Instance)
  process_for (new_source params pool most) us addrs first s =
      add_resolved us addrs first params pool most (length addrs) 0 0 s
  process_for (replacement old) us addrs first s =
      replace_resolved us addrs first old (length addrs) 0 s

  pub process_resolved_name :
      UnresolvedSource → List IpAddr → ℕ → Sources Instance → Option (Sources Instance)
  process_resolved_name us addrs random s =
      process_for us.purpose us addrs (first_address us random) s

  -- The switch on the status.
  abbrev pub process_answer :
      UnresolvedSource → Answer → ℕ → Sources Instance → Option (Sources Instance)
  process_answer us (resolved addrs) random s = process_resolved_name us addrs random s
  process_answer us try_again random s = some s
  process_answer us failure random s = some s

pub remove_at {ℓ} : {A : Type ℓ} → ℕ → List A → List A
remove_at n [] = []
remove_at zero (x ∷ xs) = xs
remove_at (suc n) (x ∷ xs) = x ∷ remove_at n xs

abbrev pub next_interval : ℕ → ℕ
next_interval interval =
    if ltb interval min_resolve_interval
    then min_resolve_interval
    else if ltb interval max_resolve_interval
    then interval + 1
    else interval

module _ {Instance : Type 0} where
  -- The end of a round: another is planned if sources are left.
  abbrev pub end_round : Resolver Instance → List UnresolvedSource → Resolver Instance
  end_round r [] = record r {
    unresolved = [];
    interval = 0;
    resolving = none;
    rounds = r.rounds + 1;
  }
  end_round r (us ∷ rest) = record r {
    unresolved = us ∷ rest;
    interval = next_interval r.interval;
    timer = some (resolve_interval_unit * 2 ^ next_interval r.interval);
    resolving = none;
    rounds = r.rounds + 1;
  }

  -- The list and the next source after an answer for the one at `i`.
  pub advance : Resolver Instance → ℕ → UnresolvedSource → Answer → Resolver Instance
  advance r i us answer =
      let gone = is_replacement us.purpose || not (is_try_again answer) in
      let list = if gone then remove_at i r.unresolved else r.unresolved in
      let next = if gone then i else i + 1 in
      if ltb next (length list)
      then record r { unresolved = list; resolving = some next }
      else end_round r list

module _ {Instance : Type 0} (hash : IpAddr → ℕ) (core : Core Instance) where
  -- `none` is a failed assertion.
  pub name_resolve_handler : Answer → ℕ → Resolver Instance → Option (Resolver Instance)
  name_resolve_handler answer random r = do
    i ← r.resolving
    us ← get_elem? r.unresolved i
    table ← process_answer hash core us answer random r.table
    some (advance (record r { table = table }) i us answer)

module _ {Instance : Type 0} where
  -- The first name is asked for; an empty list would be read through NULL.
  pub resolve_sources : Resolver Instance → Option (Resolver Instance)
  resolve_sources r = elim r.resolving [
    | some i ↦ none
    | none ↦ if ltb 0 (length r.unresolved) then some (record r { resolving = some 0 }) else none
  ]

  -- The timeout of the next round.
  pub resolving_timeout : Resolver Instance → Option (Resolver Instance)
  resolving_timeout r = elim r.timer [
    | none ↦ none
    | some delay ↦ resolve_sources (record r { timer = none })
  ]

  -- `SCH_RemoveTimeout` asserts that the timeout is queued.
  abbrev pub stop_timer : Resolver Instance → Option (Resolver Instance)
  stop_timer r = if r.interval == 0 then some r else elim r.timer [
    | none ↦ none
    | some delay ↦ some (record r { timer = none; interval = r.interval - 1 })
  ]

  -- `NSR_ResolveSources`
  pub resolve_now : Resolver Instance → Option (Resolver Instance)
  resolve_now r =
      if ltb 0 (length r.unresolved)
      then elim r.resolving [ some i ↦ some r | none ↦ do t ← stop_timer r; resolve_sources t ]
      else some (record r { rounds = r.rounds + 1 })

  pub append_unresolved_source : UnresolvedSource → Resolver Instance → Resolver Instance
  append_unresolved_source us r = record r { unresolved = r.unresolved ++ us ∷ [] }

  -- For a source that has a name.
  pub resolve_source_replacement :
      SourceRecord Instance → List ℕ → Resolver Instance → Option (Resolver Instance)
  resolve_source_replacement source name r =
      let us : UnresolvedSource = record {
        name = name;
        port = source.remote_addr.port;
        random_order = source.tentative;
        purpose = replacement source.remote_addr;
      } in
      resolve_now (append_unresolved_source us r)

  pub refresh_from :
      List (Option (SourceRecord Instance)) → Resolver Instance → Option (Resolver Instance)
  refresh_from [] r = some r
  refresh_from (none ∷ slots) r = refresh_from slots r
  refresh_from (some source ∷ slots) r = do
    t ← elim source.name [ none ↦ some r | some name ↦ resolve_source_replacement source name r ]
    refresh_from slots t

  pub refresh_addresses : Resolver Instance → Option (Resolver Instance)
  refresh_addresses r = refresh_from r.table.records r

module _ {Instance : Type 0} (hash : IpAddr → ℕ) where
  -- The time of the last replacement, and the resolver, after a source was found bad.
  pub handle_bad_source :
      IpAddr → Timespec → Timespec → Resolver Instance → Option (Timespec × Resolver Instance)
  handle_bad_source address now last_replacement r =
      let (slot, found) = find_slot hash r.table.records (record { ip_addr = address; port = 0 }) in
      let soon =
        ltb_ℤ (abs (diff_nanos now last_replacement))
          (pos (resolve_interval_unit * 2 ^ min_replacement_interval * 1_000_000_000)) in
      if found == 0 then some (last_replacement, r) else elim (get_or r.table.records slot none) [
        | none ↦ none
        | some source ↦ elim source.name [
          | none ↦ some (last_replacement, r)
          | some name ↦
              let replaced = resolve_source_replacement source name r >>= λ t. some (now, t) in
              if soon then some (last_replacement, r) else replaced
        ]
      ]

module _ {Instance : Type 0} (hash : IpAddr → ℕ) (core : Core Instance)
    (string_to_ip : List ℕ → Option IpAddr) where
  -- The pool of a source by name, and the most sources to add; `max_sources` is of its parameters.
  abbrev pub purpose_of : Bool → ℕ → ℕ → List SourcePool → Purpose × List SourcePool
  purpose_of false params max_sources pools = (new_source params none 1, pools)
  purpose_of true params max_sources pools = (
    new_source params (some (length pools)) max_pool_sources,
    pools ++ record { sources = pos 0; max_sources = max_sources } ∷ [],
  )

  -- `UTI_StringToIP` reads a name that is an address.
  pub add_source_by_name :
      List ℕ → ℕ → Bool → ℕ → ℕ → Resolver Instance → Option (Resolver Instance)
  add_source_by_name name port pool params max_sources r = elim (string_to_ip name) [
    | some ip ↦ do
      (status, t) ←
          add_source hash core r.table (record { ip_addr = ip; port = port }) none params none
      some (record r { table = t })
    | none ↦
        let (purpose, pools) = purpose_of pool params max_sources r.table.pools in
        let us : UnresolvedSource = record {
          name = name;
          port = port;
          random_order = false;
          purpose = purpose;
        } in
        some (append_unresolved_source us (record r { table = record r.table { pools = pools } }))
  ]
