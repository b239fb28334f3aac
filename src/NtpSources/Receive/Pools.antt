-- ===== src/NtpSources/Receive/Pools.antt =====
-- ntp_sources.c: the sources of a pool: what is removed when the pool is full.
use chrony_nts.Prelude.{
  ℕ, zero, suc, ◌+◌, ◌-◌, ◌^◌, ◌≤◌, ◌≡◌, refl, ◌↔◌, ap, sym, subst, arith, false, List, [], ◌∷◌,
  Option, none, some, get_elem?, set, Bool-cases, some_inj, ◌==◌, inl, inr,
}
use native.Mathlib.Nat.{pow-le-pow_right}
use chrony_nts.Prelude.Int.{pos, ◌+ℤ◌, ltb_ℤ}
use chrony_nts.Prelude.Slots.{slot_at, used}
use chrony_nts.Addressing.{IpAddr}
use chrony_nts.NtpSources.{SourceRecord, SourcePool, Sources}
use chrony_nts.NtpSources.PoolIndex.{Keeps, set-Keeps}
use chrony_nts.NtpSources.Rehash.{IsTable, Holds, AreInet}
use chrony_nts.NtpSources.Table.{
  IsValid, IsUnique, IsTable-IsUnique, rehash_records_lem, max_sources,
}
use chrony_nts.NtpSources.Receive.{
  is_leftover, clear_tentative, remove_tentative_pool_sources, confirm_in_pool,
}

module _ {Instance : Type 0} (pool : ℕ) where
  -- The loop takes out the tentative sources of the pool and nothing else.
  clear_tentative_slot :
      (xs : List (Option (SourceRecord Instance))) (t : ℕ) (q : SourceRecord Instance)
      → (slot_at (clear_tentative pool xs).0 t ≡ some q)
        ↔ ((slot_at xs t ≡ some q) × (is_leftover pool q ≡ false))
  unfolding clear_tentative
  clear_tentative_slot [] t q = ((λ e. cc), (λ e. cc))
  clear_tentative_slot (none ∷ xs) zero q = ((λ e. cc), (λ e. cc))
  clear_tentative_slot (none ∷ xs) (suc t) q = clear_tentative_slot xs t q
  clear_tentative_slot (some r ∷ xs) zero q = elim (Bool-cases (is_leftover pool r)) [
    | inl e ↦ rw e ((λ h. cc), (λ h. let same : r ≡ q = some_inj h.0 in cc))
    | inr e ↦ rw e ((λ h. (h, subst (λ x. is_leftover pool x ≡ false) (some_inj h) e)), (λ h. h.0))
  ]
  clear_tentative_slot (some r ∷ xs) (suc t) q = elim (Bool-cases (is_leftover pool r)) [
    | inl e ↦ rw e (clear_tentative_slot xs t q)
    | inr e ↦ rw e (clear_tentative_slot xs t q)
  ]

  clear_tentative_count :
      (xs : List (Option (SourceRecord Instance)))
      → used (clear_tentative pool xs).0 + (clear_tentative pool xs).1 ≡ used xs
  unfolding clear_tentative used
  clear_tentative_count [] = refl
  clear_tentative_count (none ∷ xs) = clear_tentative_count xs
  clear_tentative_count (some r ∷ xs) = elim (Bool-cases (is_leftover pool r)) [
    | inl e ↦ rw e (omega (arith, clear_tentative_count xs))
    | inr e ↦ rw e (omega (arith, clear_tentative_count xs))
  ]

  clear_tentative_none :
      (xs : List (Option (SourceRecord Instance)))
      → (clear_tentative pool xs).1 ≡ 0
      → (clear_tentative pool xs).0 ≡ xs
  unfolding clear_tentative
  clear_tentative_none [] h = refl
  clear_tentative_none (none ∷ xs) h = ap (◌∷◌ none) (clear_tentative_none xs h)
  clear_tentative_none (some r ∷ xs) h = elim (Bool-cases (is_leftover pool r)) [
    | inl e ↦
        let some_removed : suc (clear_tentative pool xs).1 ≡ 0 = rw e at h in absurd (omega arith)
    | inr e ↦
        let none_removed : (clear_tentative pool xs).1 ≡ 0 = rw e at h in
        rw e (ap (◌∷◌ (some r)) (clear_tentative_none xs none_removed))
  ]

module _ {Instance : Type 0} (hash : IpAddr → ℕ) where
  IsValid-small : (s : Sources Instance) → IsValid hash s → s.n_sources ≤ max_sources
  IsValid-small s v =
      let cap : 2 ^ v.power ≤ 2 ^ 17 = pow-le-pow_right {n = 2} (omega arith) v.small in
      omega (arith, v.room)

  -- Removing the tentative sources of a pool fails no assertion and keeps the table valid; all other
  -- sources stay.
  pub remove_tentative_lem :
      (pool : ℕ) (s : Sources Instance)
      → IsValid hash s
      → (t : Sources Instance) × (remove_tentative_pool_sources hash pool s ≡ some t)
        × IsValid hash t
        × (t.pools ≡ s.pools)
        × ((q : SourceRecord Instance)
            → Holds t.records q ↔ (Holds s.records q × (is_leftover pool q ≡ false)))
  unfolding remove_tentative_pool_sources
  remove_tentative_lem pool s v =
      let slots = (clear_tentative pool s.records).0 in
      let removed = (clear_tentative pool s.records).1 in
      let count = clear_tentative_count pool s.records in
      let cleared = record s { records = slots; n_sources = s.n_sources - removed } in
      let unique : IsUnique slots = λ t u r q a b e.
        IsTable-IsUnique hash v.power s.n_sources s.records v.table t u r q
          ((clear_tentative_slot pool s.records t r).0 a).0
          ((clear_tentative_slot pool s.records u q).0 b).0 e in
      let inet : AreInet slots =
        λ t r a. v.table.inet t r ((clear_tentative_slot pool s.records t r).0 a).0 in
      let held : (q : SourceRecord Instance)
          → Holds slots q ↔ (Holds s.records q × (is_leftover pool q ≡ false)) =
        λ q. (
          λ h. let e = (clear_tentative_slot pool s.records h.0 q).0 h.1 in ((h.0, e.0), e.1),
          λ h. (h.0.0, (clear_tentative_slot pool s.records h.0.0 q).1 (h.0.1, h.1)),
        ) in
      elim (Bool-cases (removed == 0)) [
        | inl e ↦
            let nothing : removed ≡ 0 = ground arith in
            let same = clear_tentative_none pool s.records nothing in
            (
              cleared,
              rw e,
              record {
                power = v.power;
                small = v.small;
                table =
                    subst (λ m. IsTable hash v.power m slots) (omega (arith, nothing))
                      (subst (λ xs. IsTable hash v.power s.n_sources xs) (sym same) v.table);
                room = omega (arith, v.room);
              },
              refl,
              held,
            )
        | inr e ↦
            let (t, run, b) =
              rehash_records_lem hash cleared (omega (arith, count, v.table.counted)) unique inet
                (omega (arith, IsValid-small s v)) in
            let size = ap (λ (x : Sources Instance). x.n_sources) b.rest in
            (
              t,
              rw e run,
              record {
                power = b.power;
                small = b.small;
                table =
                    subst (λ m. IsTable hash b.power m t.records)
                      (omega (arith, count, v.table.counted, size)) b.table;
                room = omega (arith, b.room, size);
              },
              ap (λ (x : Sources Instance). x.pools) b.rest,
              λ q. (λ h. (held q).0 ((b.same q).1 h), λ h. (b.same q).0 ((held q).1 h)),
            )
      ]

module _ {Instance : Type 0} (hash : IpAddr → ℕ) where
  pub confirm_in_pool-full :
      (i : ℕ) (s : Sources Instance) (p : SourcePool)
      → get_elem? s.pools i ≡ some p
      → ltb_ℤ (p.sources +ℤ pos 1) (pos p.max_sources) ≡ false
      → confirm_in_pool hash (some i) s
        ≡ remove_tentative_pool_sources hash i
            (record s { pools = set s.pools i (record p { sources = p.sources +ℤ pos 1 }) })
  unfolding confirm_in_pool
  confirm_in_pool-full i s p at full = rw (at, confirm_in_pool) (rw full refl)

  -- What a confirmed source of a pool with a free place, or with none, leads to.
  pub confirm_in_pool_lem :
      (pool : Option ℕ) (s : Sources Instance)
      → IsValid hash s
      → ((i : ℕ) → pool ≡ some i → (p : SourcePool) × (get_elem? s.pools i ≡ some p))
      → (t : Sources Instance) × (confirm_in_pool hash pool s ≡ some t)
        × IsValid hash t
        × Keeps s.pools t.pools
        × ((q : SourceRecord Instance) → Holds t.records q → Holds s.records q)
  unfolding confirm_in_pool
  confirm_in_pool_lem none s v h = (s, refl, v, (λ i p e. (p, e)), λ q e. e)
  confirm_in_pool_lem (some i) s v h =
      let (p, at) = h i refl in
      let more = record p { sources = p.sources +ℤ pos 1 } in
      let t = record s { pools = set s.pools i more } in
      let vt : IsValid hash t = record {
        power = v.power;
        small = v.small;
        table = v.table;
        room = v.room;
      } in
      elim (Bool-cases (ltb_ℤ more.sources (pos p.max_sources))) [
        | inl below ↦ (
          t,
          rw (at, confirm_in_pool) (rw below refl),
          vt,
          set-Keeps s.pools i p more at,
          λ q e. e,
        )
        | inr full ↦
            let (u, run, vu, same, held) = remove_tentative_lem hash i t vt in
            (
              u,
              rw (at, confirm_in_pool) (rw full run),
              vu,
              subst (Keeps s.pools) (sym same) (set-Keeps s.pools i p more at),
              λ q e. ((held q).0 e).0,
            )
      ]
