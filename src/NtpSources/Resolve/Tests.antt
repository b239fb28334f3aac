-- ===== src/NtpSources/Resolve/Tests.antt =====
-- ntp_sources.c: a round of resolving with two names.
use chrony_nts.Prelude.{
  zero, suc, ℕ, ◌≡◌, refl, ◌⊎◌, inl, arith, true, false, List, [], ◌∷◌, none, some, ◌>>=◌,
}
use chrony_nts.Addressing.{RemoteAddress, inet4, ip_to_hash}
use chrony_nts.NtpSources.{
  find_slot, find_from, probe, add_source, make_room, rehash_records, rehash_from, grow_size,
  check_hashtable_size,
}
use chrony_nts.NtpSources.Tests.{seeded, plain, no_sources, no_sources-IsValid, one_source}
use chrony_nts.NtpSources.Resolve.{
  UnresolvedSource, new_source, Resolver, Answer, resolved, try_again, resolve_sources,
  resolving_timeout, resolve_now, name_resolve_handler, process_resolved_name, add_resolved,
  advance, remove_at,
}
use chrony_nts.NtpSources.PoolIndex.{HasPools, InPools}
use chrony_nts.NtpSources.Resolve.Names.{HavePort}
use chrony_nts.NtpSources.Resolve.Replacing.{AreInetAddrs}
use chrony_nts.NtpSources.Resolve.Ends.{answer_all, Ended, resolve_sources-Ended}
use chrony_nts.NtpSources.Resolve.Phases.{IsPhase}
use chrony_nts.NtpSources.Resolve.Reach.{Reach, called, here, next, Reach-IsPhase}

abbrev by_name : ℕ → UnresolvedSource
by_name letter = record {
  name = letter ∷ [];
  port = 123;
  random_order = false;
  purpose = new_source 0 none 1;
}

abbrev two_names : Resolver RemoteAddress
two_names = record {
  table = no_sources;
  unresolved = by_name b'a' ∷ by_name b'b' ∷ [];
  interval = 0;
  timer = none;
  resolving = none;
  rounds = 0;
}

abbrev answers : List (Answer × ℕ)
answers = (resolved (inet4 0xc000_0201 ∷ []), 0) ∷ (try_again, 0) ∷ []

-- The second name is left, and asked for again after 28 seconds.
round_of_two :
    (do u ← resolve_sources two_names; answer_all seeded plain answers u)
    ≡ some (record {
      table = record one_source {
        records =
            none
            ∷ some (record {
              remote_addr = record { ip_addr = inet4 0xc000_0201; port = 123 };
              instance_data = record { ip_addr = inet4 0xc000_0201; port = 123 };
              name = some (b'a' ∷ []);
              pool = none;
              tentative = true;
            })
            ∷ [];
      };
      unresolved = by_name b'b' ∷ [];
      interval = 2;
      timer = some 28;
      resolving = none;
      rounds = 1;
    })
unfolding resolve_sources answer_all name_resolve_handler process_resolved_name add_resolved advance
    remove_at add_source find_slot find_from probe make_room rehash_records rehash_from grow_size
    check_hashtable_size ip_to_hash
round_of_two = refl

one_inet : AreInetAddrs (inet4 0xc000_0201 ∷ [])
one_inet zero h = refl
one_inet (suc i) h = absurd (omega arith)

none_held : HavePort {Instance = RemoteAddress} 123 no_sources
none_held q (zero, e) = cc
none_held q (suc s, e) = cc

no_pools : HasPools {Instance = RemoteAddress} no_sources
no_pools q i (zero, e) at = cc
no_pools q i (suc s, e) at = cc

no_pool : InPools none no_sources.pools
no_pool i e = cc

resolve_sources-Ended_example :
    (t : Resolver RemoteAddress) × ((do
      u ← resolve_sources two_names
      answer_all seeded plain answers u)
      ≡ some t)
    × Ended seeded plain 123 0 0 (by_name b'b' ∷ []) t
resolve_sources-Ended_example =
    resolve_sources-Ended seeded plain 123 two_names answers refl refl (omega arith) refl
      (
        record { same_port = refl; may_add = omega arith },
        (record { same_port = refl; may_add = omega arith }, tt),
      )
      (one_inet, (tt, tt)) no_sources-IsValid none_held no_pools (no_pool, (no_pool, tt))
      (omega arith)

called_once : Reach seeded plain two_names (record two_names { resolving = some 0 })
unfolding resolve_now resolve_sources
called_once = next here (called refl)

Reach-IsPhase_example :
    IsPhase (record two_names { resolving = some 0 })
    × ((t : Resolver RemoteAddress) × (resolve_now (record two_names { resolving = some 0 })
          ≡ some t))
    × (((record two_names { resolving = some 0 }).timer ≡ none)
        ⊎ ((t : Resolver RemoteAddress) × (resolving_timeout
                (record two_names { resolving = some 0 })
              ≡ some t)))
Reach-IsPhase_example =
    Reach-IsPhase seeded plain two_names (record two_names { resolving = some 0 })
      (inl (refl, refl)) called_once
