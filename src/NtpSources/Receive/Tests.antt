-- ===== src/NtpSources/Receive/Tests.antt =====
-- ntp_sources.c: packets at a table with a pool of one source.
use chrony_nts.Prelude.{
  zero, suc, get_elem?, ℕ, ◌≡◌, refl, ◌≢◌, ap, subst, sym, ◌∙◌, true, false, [], ◌∷◌, some, none,
  some_inj, Bool,
}
use chrony_nts.Prelude.Int.{pos, ◌+ℤ◌}
use chrony_nts.Prelude.Slots.{slot_at}
use chrony_nts.Addressing.{RemoteAddress}
use chrony_nts.NtpSources.{SourceRecord, Sources, get_elem?, suc}
use chrony_nts.NtpSources.Find.{ip_of}
use chrony_nts.NtpSources.Rehash.{Holds}
use chrony_nts.NtpSources.Table.{IsValid}
use chrony_nts.NtpSources.Tests.{seeded, first, second, source, two_sources, two_sources-IsValid}
use chrony_nts.NtpSources.Receive.{Packets, is_leftover, received, process_rx}
use chrony_nts.NtpSources.Receive.Update.{changed-IsValid}
use chrony_nts.NtpSources.PoolIndex.{HasPools}
use chrony_nts.NtpSources.Receive.Laws.{process_rx-IsValid, process_rx-full_pool}

-- A packet is whether it is a good reply.
abbrev replies : Packets RemoteAddress Bool
replies = record { process_rx_known = λ i good. (good, i); process_tx_known = λ i _. i }

abbrev pooled : RemoteAddress → SourceRecord RemoteAddress
pooled a = record (source a) { pool = some 0 }

-- Both sources are tentative ones of a pool that wants one.
abbrev pool_of_one : Sources RemoteAddress
pool_of_one = record two_sources {
  records = none ∷ none ∷ some (pooled second) ∷ some (pooled first) ∷ [];
  pools = record { sources = pos 0; max_sources = 1 } ∷ [];
}

pool_of_one-IsValid : IsValid seeded pool_of_one
pool_of_one-IsValid =
    let v =
      changed-IsValid seeded two_sources 2 (source second) (pooled second) two_sources-IsValid refl
        refl in
    let w =
      changed-IsValid seeded
        (record two_sources {
          records = none ∷ none ∷ some (pooled second) ∷ some (source first) ∷ [];
        })
        3 (source first) (pooled first) v refl refl in
    record { power = w.power; small = w.small; table = w.table; room = w.room }

in_the_pool :
    (at : ℕ) (q : SourceRecord RemoteAddress)
    → slot_at pool_of_one.records at ≡ some q
    → q.pool ≡ some 0
in_the_pool zero q e = cc
in_the_pool (suc zero) q e = cc
in_the_pool (suc (suc zero)) q e =
    sym (ap (λ (x : SourceRecord RemoteAddress). x.pool) (some_inj e))
in_the_pool (suc (suc (suc zero))) q e =
    sym (ap (λ (x : SourceRecord RemoteAddress). x.pool) (some_inj e))
in_the_pool (suc (suc (suc (suc at)))) q e = cc

pool_of_one-HasPools : HasPools pool_of_one
pool_of_one-HasPools q i held e =
    let zero_pool : 0 ≡ i = some_inj (sym (in_the_pool held.0 q held.1) ∙ e) in
    (
      record { sources = pos 0; max_sources = 1 },
      subst
          (λ (k : ℕ).
            get_elem? pool_of_one.pools k ≡ some (record { sources = pos 0; max_sources = 1 }))
          zero_pool refl,
    )

process_rx-IsValid_example :
    (t : Sources RemoteAddress) × (process_rx seeded replies pool_of_one first false ≡ some t)
    × IsValid seeded t
    × HasPools t
process_rx-IsValid_example =
    process_rx-IsValid seeded replies pool_of_one first false pool_of_one-IsValid
      pool_of_one-HasPools

process_rx-full_pool_example :
    (t : Sources RemoteAddress) × (process_rx seeded replies pool_of_one first true ≡ some t)
    × IsValid seeded t
    × Holds t.records (received seeded replies (pooled first) true)
    × ((q : SourceRecord RemoteAddress) → Holds t.records q → is_leftover 0 q ≡ false)
    × ((q : SourceRecord RemoteAddress)
        → Holds pool_of_one.records q
        → ip_of q ≢ first.ip_addr
        → is_leftover 0 q ≡ false
        → Holds t.records q)
unfolding ◌+ℤ◌
process_rx-full_pool_example =
    process_rx-full_pool seeded replies pool_of_one first true 3 0 (pooled first)
      (record { sources = pos 0; max_sources = 1 }) pool_of_one-IsValid refl refl refl refl refl
      refl refl
