-- ===== src/NtpSources/Table.antt =====
-- ntp_sources.c: the table as a whole: its invariant, and the operations that keep it.
use chrony_nts.Prelude.{
  ℕ, zero, suc, ◌+◌, ◌*◌, ◌/◌, ◌^◌, ◌≤◌, ◌<◌, ◌≡◌, refl, ◌≢◌, ◌⊎◌, inl, inr, ap, ◌∙◌, sym, subst,
  arith, true, List, [], ◌∷◌, Option, none, some, length, set, ℕ_discrete, dec_le, replicate,
  dec_lt, Bool-cases, ◌↔◌, length-replicate, Option-cases,
}
use native.Mathlib.Nat.{pow-suc, pow-le-pow_right}
use chrony_nts.Prelude.Power.{pow-pos}
use chrony_nts.Prelude.Slots.{
  slot_at, used, get_or-set_self, get_or-set_ne, get_or-replicate, used-replicate,
}
use chrony_nts.Addressing.{IpAddr, RemoteAddress, same_ip, same_ip-eq}
use chrony_nts.NtpSources.{
  SourceRecord, Sources, Core, grow_size, new_size, check_hashtable_size, find_slot, rehash_records,
  make_room, new_record, add_source, is_inet, success, find_from, probe, already_in_use,
}
use chrony_nts.NtpSources.Find.{ip_of}
use chrony_nts.NtpSources.Rehash.{
  IsTable, IsFresh, IsDistinct, AreInet, Holds, Added, fill_lem, rehash_from_lem, find_slot-present,
}

abbrev pub max_sources : ℕ
max_sources = 2 ^ 16

exponent-lt : (j n : ℕ) → 2 ^ j < 2 ^ n → j < n
exponent-lt j n h = elim (dec_lt j n) [
  | yes p ↦ p
  | no p ↦
      let up : 2 ^ n ≤ 2 ^ j =
        pow-le-pow_right {n = 2} (omega arith) {i = n} {j = j} (omega arith) in
      absurd (omega arith)
]

grow_size-from :
    (fuel j sources : ℕ)
    → sources ≤ max_sources
    → j ≤ 17
    → 2 * sources + 1 < 2 ^ j + 2 * fuel
    → (k : ℕ) × (k ≤ 17) × (grow_size fuel sources (2 ^ j) ≡ 2 ^ k) × (2 * sources ≤ 2 ^ k)
unfolding grow_size check_hashtable_size
grow_size-from zero j sources hs hj h = (j, hj, refl, omega arith)
grow_size-from (suc fuel) j sources hs hj h = elim (dec_le (sources * 2) (2 ^ j)) [
  | yes p ↦ (j, hj, ground arith, omega arith)
  | no p ↦
      let below = exponent-lt j 17 (omega arith) in
      let (k, hk, e, fits) =
        grow_size-from fuel (suc j) sources hs (omega arith)
          (omega (arith, pow-suc 2 j, pow-pos j)) in
      (k, hk, ground (arith, e, pow-suc 2 j), fits)
]

-- The loop for the size of the table ends at the power of two it looks for: one that holds twice the
-- sources, if those are at most 2^16.
pub new_size_lem :
    (sources : ℕ)
    → sources ≤ max_sources
    → (k : ℕ) × (k ≤ 17) × (new_size sources ≡ 2 ^ k) × (2 * sources ≤ 2 ^ k)
new_size_lem sources h = grow_size-from (sources + 1) 0 sources h (omega arith) (omega arith)

module _ {Instance : Type 0} where
  -- No address has two slots.
  abbrev pub IsUnique : List (Option (SourceRecord Instance)) → Type 0
  IsUnique records =
      (s t : ℕ) (r q : SourceRecord Instance)
      → slot_at records s ≡ some r
      → slot_at records t ≡ some q
      → ip_of q ≡ ip_of r
      → s ≡ t

  IsUnique-IsDistinct : (xs : List (Option (SourceRecord Instance))) → IsUnique xs → IsDistinct xs
  IsUnique-IsDistinct [] u = tt
  IsUnique-IsDistinct (none ∷ xs) u =
      IsUnique-IsDistinct xs (λ s t r q a b e. suc_inj (u (suc s) (suc t) r q a b e))
    where
      suc_inj : {m n : ℕ} → suc m ≡ suc n → m ≡ n
      suc_inj e = omega arith
  IsUnique-IsDistinct (some r ∷ xs) u =
      (fresh, IsUnique-IsDistinct xs (λ s t r q a b e. suc_inj (u (suc s) (suc t) r q a b e)))
    where
      suc_inj : {m n : ℕ} → suc m ≡ suc n → m ≡ n
      suc_inj e = omega arith

      fresh : IsFresh (ip_of r) xs
      fresh s q at = elim (Bool-cases (same_ip (ip_of q) (ip_of r))) [
        | inl t ↦
            let apart = u 0 (suc s) r q refl at (same_ip-eq (ip_of q) (ip_of r) t) in
            absurd (omega arith)
        | inr f ↦ f
      ]

  pub clear_sub :
      (xs : List (Option (SourceRecord Instance))) (i t : ℕ) (q : SourceRecord Instance)
      → i < length xs
      → slot_at (set xs i none) t ≡ some q
      → (t ≢ i) × (slot_at xs t ≡ some q)
  clear_sub xs i t q h at = elim (ℕ_discrete i t) [
    | yes p ↦
        let gone = sym (get_or-set_self xs i none none h) ∙ ap (slot_at (set xs i none)) p ∙ at in
        cc
    | no p ↦ (λ e. p (sym e), sym (get_or-set_ne xs i t none none p) ∙ at)
  ]

module _ {Instance : Type 0} (hash : IpAddr → ℕ) where
  -- The number of sources is counted, the table is a power of two of slots and at most half full,
  -- and every record is found from its address.
  pub record IsValid (s : Sources Instance) : Type 0 where
    pub power : ℕ
    pub small : power ≤ 17
    pub table : IsTable hash power s.n_sources s.records
    pub room : 2 * s.n_sources ≤ 2 ^ power

  pub IsTable-IsUnique :
      (k n : ℕ) (records : List (Option (SourceRecord Instance)))
      → IsTable hash k n records
      → IsUnique records
  IsTable-IsUnique k n records v s t r q a b e =
      let inet = v.inet s r a in
      ap (λ (p : ℕ × ℕ). p.0)
        (sym (find_slot-present hash records r.remote_addr s r v.findable a refl inet)
          ∙ find_slot-present hash records r.remote_addr t q v.findable b e inet)

  nothing_held : (n s : ℕ) (r : SourceRecord Instance) → slot_at (replicate n none) s ≡ some r → ⊥
  nothing_held n s r at = let gone : none ≡ some r = sym (get_or-replicate n s none) ∙ at in cc

  pub empty_table :
      (k n : ℕ) → n ≡ 2 ^ k → IsTable {Instance = Instance} hash k 0 (replicate n none)
  empty_table k n e = record {
    size = length-replicate n none ∙ e;
    counted = used-replicate (SourceRecord Instance) n;
    findable = λ s r at. absurd (nothing_held n s r at);
    inet = λ s r at. absurd (nothing_held n s r at);
  }

  from_old_only :
      (n : ℕ) (q : SourceRecord Instance) (old new : List (Option (SourceRecord Instance)))
      → Holds old q ⊎ Holds (replicate n none) q
      → Holds old q
  from_old_only n q old new (inl a) = a
  from_old_only n q old new (inr (s, at)) = absurd (nothing_held n s q at)

  -- A rebuild made a table of the same records that is large enough for the number of sources.
  pub record Rebuilt (s t : Sources Instance) : Type 0 where
    pub power : ℕ
    pub small : power ≤ 17
    pub table : IsTable hash power (used s.records) t.records
    pub room : 2 * s.n_sources ≤ 2 ^ power
    pub rest : t ≡ record s { records = t.records }
    pub same : (q : SourceRecord Instance) → Holds s.records q ↔ Holds t.records q

  -- A rebuild for at most 2^16 sources fails no assertion, if no address has two records and these
  -- are no more than the sources counted.
  pub rehash_records_lem :
      (s : Sources Instance)
      → used s.records ≤ s.n_sources
      → IsUnique s.records
      → AreInet s.records
      → s.n_sources ≤ max_sources
      → (t : Sources Instance) × (rehash_records hash s ≡ some t) × Rebuilt s t
  unfolding rehash_records
  rehash_records_lem s c u inet h =
      let (k, hk, size, fits) = new_size_lem s.n_sources h in
      let empty = replicate (new_size s.n_sources) none in
      let (new, e, t, g) =
        rehash_from_lem hash s.records empty k 0 (empty_table k (new_size s.n_sources) size) hk
          (omega arith) (IsUnique-IsDistinct s.records u)
          (λ _ _ _ v w at. absurd (nothing_held (new_size s.n_sources) v w at)) inet in
      (
        record s { records = new },
        ground (arith, e),
        record {
          power = k;
          small = hk;
          table = subst (λ m. IsTable hash k m new) (omega arith) t;
          room = fits;
          rest = refl;
          same = λ q. (
            λ a. g.from_old q a,
            λ a. from_old_only (new_size s.n_sources) q s.records new (g.only q a),
          );
        },
      )

  pub clear-IsUnique :
      (xs : List (Option (SourceRecord Instance))) (i : ℕ)
      → i < length xs
      → IsUnique xs
      → IsUnique (set xs i none)
  clear-IsUnique xs i h u s t r q a b e =
      u s t r q (clear_sub xs i s r h a).1 (clear_sub xs i t q h b).1 e

  find_from-fresh :
      (rounds i slot : ℕ) (records : List (Option (SourceRecord Instance))) (addr : RemoteAddress)
      → IsFresh addr.ip_addr records
      → (find_from hash rounds i slot records addr).1 ≡ 0
  unfolding find_from
  find_from-fresh zero i slot records addr fresh = refl
  find_from-fresh (suc rounds) i slot records addr fresh =
      let next = probe (hash addr.ip_addr) i (length records) in
      let ih = find_from-fresh rounds (i + 1) next records addr fresh in
      elim (Option-cases (slot_at records next)) [
        | inl e ↦ ground (arith, e)
        | inr (r, e) ↦ ground (arith, e, fresh next r e, ih)
      ]

  -- An address that no record has is not found.
  pub find_slot-fresh :
      (records : List (Option (SourceRecord Instance))) (addr : RemoteAddress)
      → IsFresh addr.ip_addr records
      → (find_slot hash records addr).1 ≡ 0
  unfolding find_slot
  find_slot-fresh records addr fresh =
      ground (arith, find_from-fresh (length records / 2) 0 0 records addr fresh)

module _ {Instance : Type 0} (hash : IpAddr → ℕ) (core : Core Instance) where
  -- An address that a source has, with whatever port, is not added again, and nothing changes.
  pub add_source-present :
      (s : Sources Instance) (addr : RemoteAddress) (name : Option (List ℕ)) (params : ℕ)
      (pool : Option ℕ) (at : ℕ) (r : SourceRecord Instance)
      → IsValid hash s
      → slot_at s.records at ≡ some r
      → ip_of r ≡ addr.ip_addr
      → add_source hash core s addr name params pool ≡ some (already_in_use, s)
  unfolding add_source
  add_source-present s addr name params pool at r v e q =
      let inet = subst (λ a. is_inet a ≡ true) q (v.table.inet at r e) in
      ground (arith, find_slot-present hash s.records addr at r v.table.findable e q inet)

  -- The room that `add_source` makes: a free slot, in a table of the same records.
  make_room_lem :
      (s : Sources Instance) (addr : RemoteAddress)
      → IsValid hash s
      → s.n_sources < max_sources
      → IsFresh addr.ip_addr s.records
      → is_inet addr.ip_addr ≡ true
      → let counted = record s { n_sources = s.n_sources + 1 } in
        (t : Sources Instance) × (make_room hash core counted addr (find_slot hash s.records addr)
          ≡ some (t, find_slot hash t.records addr))
        × Rebuilt hash counted t
  unfolding make_room check_hashtable_size
  make_room_lem s addr v h fresh inet =
      let counted = record s { n_sources = s.n_sources + 1 } in
      elim (dec_le (counted.n_sources * 2) (length s.records)) [
        | yes p ↦ (
          counted,
          ground arith,
          record {
            power = v.power;
            small = v.small;
            table = subst (λ m. IsTable hash v.power m s.records) (sym v.table.counted) v.table;
            room = omega (arith, v.table.size);
            rest = refl;
            same = λ q. (λ a. a, λ a. a);
          },
        )
        | no p ↦
            let (t, e, r) =
              rehash_records_lem hash counted (omega (arith, v.table.counted))
                (IsTable-IsUnique hash v.power s.n_sources s.records v.table) v.table.inet
                (omega arith) in
            (t, ground (arith, e), r)
      ]

  -- A source with a new IPv4 or IPv6 address is added, up to 2^16 sources: no assertion fails, the
  -- table stays valid and counts one more, it holds the old records and the new one, the look-up of the
  -- address and port finds the new one, and the pools stay as they are.
  pub add_source-fresh :
      (s : Sources Instance) (addr : RemoteAddress) (name : Option (List ℕ)) (params : ℕ)
      (pool : Option ℕ)
      → IsValid hash s
      → s.n_sources < max_sources
      → IsFresh addr.ip_addr s.records
      → is_inet addr.ip_addr ≡ true
      → (t : Sources Instance) × (add_source hash core s addr name params pool ≡ some (success, t))
        × IsValid hash t
        × Added hash s.records (new_record hash core s addr name params pool) t.records
        × ((find_slot hash t.records addr).1 ≡ 2)
        × (t.n_sources ≡ s.n_sources + 1)
        × (t.pools ≡ s.pools)
  unfolding add_source
  add_source-fresh s addr name params pool v h fresh inet =
      let new = new_record hash core s addr name params pool in
      let (t, made, r) = make_room_lem s addr v h fresh inet in
      let (at, found, t1, a) =
        fill_lem hash r.power (used s.records) t.records new r.table r.small
          (omega (arith, v.table.counted, r.room))
          (λ w q e. let (z, e') = (r.same q).1 (w, e) in fresh z q e') inet in
      let u = record t { records = set t.records at (some new) } in
      (
        u,
        ground (arith, find_slot-fresh hash s.records addr fresh, inet, made, found),
        record {
          power = r.power;
          small = r.small;
          table =
              subst (λ m. IsTable hash r.power m u.records)
                (ap suc v.table.counted
                  ∙ omega (arith, ap (λ (x : Sources Instance). x.n_sources) r.rest))
                t1;
          room = omega (arith, r.room, ap (λ (x : Sources Instance). x.n_sources) r.rest);
        },
        record {
          added = a.added;
          kept = λ q k. a.kept q ((r.same q).0 k);
          only = λ q k. elim (a.only q k) [ inl e ↦ inl e | inr e ↦ inr ((r.same q).1 e) ];
        },
        ap (λ (p : ℕ × ℕ). p.1)
              (find_slot-present hash u.records addr a.added.0 new t1.findable a.added.1 refl inet)
            ∙ ground arith,
        ap (λ (x : Sources Instance). x.n_sources) r.rest,
        ap (λ (x : Sources Instance). x.pools) r.rest,
      )
