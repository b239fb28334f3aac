-- ===== src/NtpSources/Tests.antt =====
-- ntp_sources.c: runs of the functions, and the theorems at concrete tables.
use chrony_nts.Prelude.{
  ℕ, zero, suc, ◌+◌, ◌≡◌, refl, ◌≢◌, ◌↔◌, ap, sym, ◌∙◌, subst, arith, true, false, [], ◌∷◌, none,
  some, some_inj,
}
use chrony_nts.Addressing.{IpAddr, inet4, RemoteAddress, same_ip, ip_to_hash}
use chrony_nts.NtpSources.{
  SourceRecord, Sources, Core, Status, success, add_source, remove_source, replace_source,
  find_slot, find_from, probe, rehash_records, rehash_from, make_room, grow_size,
  check_hashtable_size, pools_without, pos, get_elem?,
}
use chrony_nts.NtpSources.Find.{ip_of}
use chrony_nts.NtpSources.Rehash.{IsFresh, Holds, Added}
use chrony_nts.NtpSources.PoolIndex.{HasPools}
use chrony_nts.NtpSources.Receive.Update.{changed-IsValid}
use chrony_nts.NtpSources.Table.{IsValid, empty_table, add_source-fresh}
use chrony_nts.NtpSources.Remove.{remove_source-present}
use chrony_nts.NtpSources.Clash.{replace_source-clash}
use chrony_nts.NtpSources.Replace.{replace_source-fresh, Moved}

abbrev pub seeded : IpAddr → ℕ
seeded = ip_to_hash 1

-- An instance is the address that it was created with.
abbrev pub plain : Core RemoteAddress
plain = record {
  create_instance = λ a _. a;
  change_remote_address = λ _ a. a;
  start_instance = λ a. a;
}

-- What `NSR_Initialise` makes.
abbrev pub no_sources : Sources RemoteAddress
no_sources = record { records = none ∷ []; n_sources = 0; auto_start_sources = false; pools = [] }

abbrev pub first : RemoteAddress
first = record { ip_addr = inet4 0xc000_0201; port = 123 }

abbrev pub second : RemoteAddress
second = record { ip_addr = inet4 0xc000_0202; port = 123 }

abbrev first_moved : RemoteAddress
first_moved = record { ip_addr = inet4 0xc000_0202; port = 124 }

abbrev third : RemoteAddress
third = record { ip_addr = inet4 0xc000_0203; port = 123 }

abbrev pub source : RemoteAddress → SourceRecord RemoteAddress
source a = record { remote_addr = a; instance_data = a; name = none; pool = none; tentative = true }

pub no_sources-IsValid : IsValid seeded no_sources
no_sources-IsValid = record {
  power = 0;
  small = omega arith;
  table = empty_table seeded 0 1 refl;
  room = omega arith;
}

pub no_sources-IsFresh : (ip : IpAddr) → IsFresh {Instance = RemoteAddress} ip no_sources.records
no_sources-IsFresh ip zero r e = cc
no_sources-IsFresh ip (suc s) r e = cc

abbrev pub one_source : Sources RemoteAddress
one_source = record no_sources { records = none ∷ some (source first) ∷ []; n_sources = 1 }

abbrev pub two_sources : Sources RemoteAddress
two_sources = record no_sources {
  records = none ∷ none ∷ some (source second) ∷ some (source first) ∷ [];
  n_sources = 2;
}

add_first : add_source seeded plain no_sources first none 0 none ≡ some (success, one_source)
unfolding add_source find_slot find_from probe make_room rehash_records rehash_from grow_size
    check_hashtable_size ip_to_hash
add_first = refl

-- The second source makes the table grow to four slots.
add_second : add_source seeded plain one_source second none 0 none ≡ some (success, two_sources)
unfolding add_source find_slot find_from probe make_room rehash_records rehash_from grow_size
    check_hashtable_size ip_to_hash same_ip
add_second = refl

same_table : {x y : Status × Sources RemoteAddress} → some x ≡ some y → x.1 ≡ y.1
same_table e = ap (λ p. p.1) (some_inj e)

pub one_source-IsValid : IsValid seeded one_source
one_source-IsValid =
    let (t, run, v, _, _, _, _) =
      add_source-fresh seeded plain no_sources first none 0 none no_sources-IsValid (omega arith)
        (no_sources-IsFresh (inet4 0xc000_0201)) refl in
    subst (IsValid seeded) (same_table (sym run ∙ add_first)) v

one_source-IsFresh :
    (ip : IpAddr)
    → same_ip (inet4 0xc000_0201) ip ≡ false
    → IsFresh {Instance = RemoteAddress} ip one_source.records
one_source-IsFresh ip h zero r e = cc
one_source-IsFresh ip h (suc zero) r e = subst (λ x. same_ip (ip_of x) ip ≡ false) (some_inj e) h
one_source-IsFresh ip h (suc (suc s)) r e = cc

-- The only source is a confirmed one of a pool.
abbrev confirmed : SourceRecord RemoteAddress
confirmed = record (source first) { pool = some 0; tentative = false }

abbrev one_confirmed : Sources RemoteAddress
one_confirmed = record one_source {
  records = none ∷ some confirmed ∷ [];
  pools = record { sources = pos 1; max_sources = 4 } ∷ [];
}

one_confirmed-IsValid : IsValid seeded one_confirmed
one_confirmed-IsValid =
    let v =
      changed-IsValid seeded one_source 1 (source first) confirmed one_source-IsValid refl refl in
    record { power = v.power; small = v.small; table = v.table; room = v.room }

one_confirmed-HasPools : HasPools one_confirmed
one_confirmed-HasPools r i (zero, e) k = cc
one_confirmed-HasPools r i (suc zero, e) k =
    let zero_pool : 0 ≡ i =
      some_inj (ap (λ (x : SourceRecord RemoteAddress). x.pool) (some_inj e) ∙ k) in
    (
      record { sources = pos 1; max_sources = 4 },
      subst
          (λ x.
            get_elem? one_confirmed.pools x ≡ some (record { sources = pos 1; max_sources = 4 }))
          zero_pool refl,
    )
one_confirmed-HasPools r i (suc (suc s), e) k = cc

second-fresh : same_ip (inet4 0xc000_0201) (inet4 0xc000_0202) ≡ false
unfolding same_ip
second-fresh = refl

one_confirmed-IsFresh : IsFresh {Instance = RemoteAddress} (inet4 0xc000_0202) one_confirmed.records
one_confirmed-IsFresh zero r e = cc
one_confirmed-IsFresh (suc zero) r e =
    subst (λ x. same_ip (ip_of x) (inet4 0xc000_0202) ≡ false) (some_inj e) second-fresh
one_confirmed-IsFresh (suc (suc s)) r e = cc

pub two_sources-IsValid : IsValid seeded two_sources
two_sources-IsValid =
    let (t, run, v, _, _, _, _) =
      add_source-fresh seeded plain one_source second none 0 none one_source-IsValid (omega arith)
        (one_source-IsFresh (inet4 0xc000_0202) second-fresh) refl in
    subst (IsValid seeded) (same_table (sym run ∙ add_second)) v

add_source-fresh_example :
    (t : Sources RemoteAddress) × (add_source seeded plain one_source second none 0 none
      ≡ some (success, t))
    × IsValid seeded t
    × Added seeded one_source.records (source second) t.records
    × ((find_slot seeded t.records second).1 ≡ 2)
    × (t.n_sources ≡ one_source.n_sources + 1)
    × (t.pools ≡ one_source.pools)
add_source-fresh_example =
    add_source-fresh seeded plain one_source second none 0 none one_source-IsValid (omega arith)
      (one_source-IsFresh (inet4 0xc000_0202) second-fresh) refl

remove_source-present_example :
    (t : Sources RemoteAddress) × (remove_source seeded plain two_sources first ≡ some (success, t))
    × IsValid seeded t
    × ((q : SourceRecord RemoteAddress)
        → Holds t.records q ↔ (Holds two_sources.records q × (ip_of q ≢ first.ip_addr)))
remove_source-present_example =
    remove_source-present seeded plain two_sources first 3 (source first) two_sources-IsValid refl
      refl

-- The source at 192.0.2.1 is to be replaced by port 124 of the address that the other source has.
replace_source-clash_example : replace_source seeded plain two_sources first first_moved ≡ none
replace_source-clash_example =
    replace_source-clash seeded plain two_sources first first_moved 3 2 (source first)
      (source second) two_sources-IsValid refl refl refl refl (λ e. omega arith) (λ e. omega arith)

replace_source-fresh_example :
    (t : Sources RemoteAddress) × (replace_source seeded plain one_confirmed first second
      ≡ some (success, t))
    × IsValid seeded t
    × (t.n_sources ≡ 1)
    × ((find_slot seeded t.records second).1 ≡ 2)
    × Moved one_confirmed.records confirmed
        (record confirmed { remote_addr = second; instance_data = second; tentative = true })
        t.records
    × (pools_without confirmed one_confirmed.pools ≡ some t.pools)
    × HasPools t
replace_source-fresh_example =
    replace_source-fresh seeded plain one_confirmed first second 1 confirmed one_confirmed-IsValid
      one_confirmed-HasPools refl refl one_confirmed-IsFresh refl
