-- ===== src/NtpSources/Rehash.antt =====
-- ntp_sources.c: filling the hash table. A record that is put into the slot that `find_slot` gives
-- keeps all records findable, and so does the loop of `rehash_records`.
use chrony_nts.Prelude.{
  ℕ, zero, suc, ◌+◌, ◌/◌, ◌^◌, ◌≤◌, ◌<◌, ◌≡◌, refl, ◌⊎◌, inl, inr, ap, ◌∙◌, sym, subst, arith, true,
  false, List, [], ◌∷◌, Option, none, some, length, set, length-set, ℕ_discrete, some_inj,
  Bool-cases,
}
use chrony_nts.Prelude.Slots.{slot_at, used, get_or-set_self, get_or-set_ne, used-fill}
use chrony_nts.Addressing.{IpAddr, RemoteAddress, same_ip, same_ip_refl, same_ip-eq}
use chrony_nts.NtpSources.{SourceRecord, find_slot, rehash_from, is_inet}
use chrony_nts.NtpSources.Probe.{probe-lt}
use chrony_nts.NtpSources.Find.{
  ip_of, Other, match_code, probe_of, Passes, find_from-hit, find_from-free, Stops-half, IsFindable,
  Reaches,
}

module _ {Instance : Type 0} where
  -- No record has the address.
  abbrev pub IsFresh : IpAddr → List (Option (SourceRecord Instance)) → Type 0
  IsFresh ip records =
      (s : ℕ) (r : SourceRecord Instance)
      → slot_at records s ≡ some r
      → same_ip (ip_of r) ip ≡ false

  abbrev pub Holds : List (Option (SourceRecord Instance)) → SourceRecord Instance → Type 0
  Holds records r = (s : ℕ) × (slot_at records s ≡ some r)

  pub fill_only :
      (records : List (Option (SourceRecord Instance))) (s t : ℕ) (r q : SourceRecord Instance)
      → s < length records
      → slot_at (set records s (some r)) t ≡ some q
      → (q ≡ r) ⊎ (slot_at records t ≡ some q)
  fill_only records s t r q inside at = elim (ℕ_discrete s t) [
    | yes p ↦ inl (
        some_inj (
          sym at
          ∙ ap (slot_at (set records s (some r))) (sym p)
          ∙ get_or-set_self records s (some r) none inside))
    | no p ↦ inr (sym (get_or-set_ne records s t (some r) none p) ∙ at)
  ]

  -- The addresses of the records are different.
  abbrev pub IsDistinct : List (Option (SourceRecord Instance)) → Type 0
  IsDistinct [] = Unit {0}
  IsDistinct (none ∷ xs) = IsDistinct xs
  IsDistinct (some r ∷ xs) = IsFresh (ip_of r) xs × IsDistinct xs

  abbrev pub AreInet : List (Option (SourceRecord Instance)) → Type 0
  AreInet records =
      (s : ℕ) (r : SourceRecord Instance) → slot_at records s ≡ some r → is_inet (ip_of r) ≡ true

same_ip_sym : (a b : IpAddr) → same_ip a b ≡ false → same_ip b a ≡ false
same_ip_sym a b e = elim (Bool-cases (same_ip b a)) [
  | inl t ↦
      let p = subst (λ c. same_ip c b ≡ false) (sym (same_ip-eq b a t)) e in
      let q = same_ip_refl b in cc
  | inr f ↦ f
]

module _ {Instance : Type 0} (hash : IpAddr → ℕ) where
  -- A record is found from its address, at its slot.
  pub find_slot-present :
      (records : List (Option (SourceRecord Instance))) (addr : RemoteAddress) (s : ℕ)
      (r : SourceRecord Instance)
      → IsFindable hash records
      → slot_at records s ≡ some r
      → ip_of r ≡ addr.ip_addr
      → is_inet addr.ip_addr ≡ true
      → find_slot hash records addr ≡ (s, match_code r addr)
  unfolding find_slot
  find_slot-present records addr s r f e q inet =
      let (j, h, at, pass) = f s r e in
      let ip = addr.ip_addr in
      let pass' = subst (λ a. Passes hash records a j) q pass in
      let at' : probe_of hash records ip j ≡ s = subst (λ a. probe_of hash records a j ≡ s) q at in
      let e' : slot_at records (probe_of hash records ip j) ≡ some r =
        ap (slot_at records) at' ∙ e in
      let same : same_ip (ip_of r) ip ≡ true =
        subst (λ a. same_ip (ip_of r) a ≡ true) q (same_ip_refl (ip_of r)) in
      ground (
        arith,
        inet,
        find_from-hit hash (length records / 2) 0 0 j records addr r (omega arith) (omega arith)
            pass' e' same,
        at',
      )

  -- For an address that is not in a table less than half full, a free slot is found.
  pub find_slot-absent :
      (k : ℕ) (records : List (Option (SourceRecord Instance))) (addr : RemoteAddress)
      → k ≤ 17
      → length records ≡ 2 ^ k
      → used records < 2 ^ k / 2
      → IsFresh addr.ip_addr records
      → is_inet addr.ip_addr ≡ true
      → (j : ℕ) × (j < length records / 2)
        × Passes hash records addr.ip_addr j
        × (slot_at records (probe_of hash records addr.ip_addr j) ≡ none)
        × (find_slot hash records addr ≡ (probe_of hash records addr.ip_addr j, 0))
  unfolding find_slot
  find_slot-absent k records addr hk size room fresh inet =
      let (j, h, stop) = Stops-half hash k records addr.ip_addr hk size room in
      let h' : j < length records / 2 = omega arith in
      elim stop.1 [
        | inl e ↦ (
          j,
          h',
          stop.0,
          e,
          ground (
            arith,
            inet,
            find_from-free hash (length records / 2) 0 0 j records addr (omega arith) (omega arith)
                stop.0 e,
          ),
        )
        | inr (r, e, same) ↦ let other = fresh (probe_of hash records addr.ip_addr j) r e in cc
      ]

  Other-fill :
      (records : List (Option (SourceRecord Instance))) (s t : ℕ) (r : SourceRecord Instance)
      (ip : IpAddr)
      → slot_at records s ≡ none
      → Other ip (slot_at records t)
      → Other ip (slot_at (set records s (some r)) t)
  Other-fill records s t r ip e o = elim (ℕ_discrete s t) [
    | yes p ↦ absurd (subst (Other ip) (ap (slot_at records) (sym p) ∙ e) o)
    | no p ↦ subst (Other ip) (sym (get_or-set_ne records s t (some r) none p)) o
  ]

  Passes-fill :
      (records : List (Option (SourceRecord Instance))) (s : ℕ) (r : SourceRecord Instance)
      (ip : IpAddr) (j : ℕ)
      → slot_at records s ≡ none
      → Passes hash records ip j
      → Passes hash (set records s (some r)) ip j
  Passes-fill records s r ip j e pass i h =
      rw (length-set records s (some r))
        (Other-fill records s (probe_of hash records ip i) r ip e (pass i h))

  Reaches-fill :
      (records : List (Option (SourceRecord Instance))) (s : ℕ) (r : SourceRecord Instance)
      (ip : IpAddr) (t : ℕ)
      → slot_at records s ≡ none
      → Reaches hash records ip t
      → Reaches hash (set records s (some r)) ip t
  Reaches-fill records s r ip t e (j, h, at, pass) = (
    j,
    rw (length-set records s (some r)) h,
    rw (length-set records s (some r)) at,
    Passes-fill records s r ip j e pass,
  )

  -- A record put into a free slot on its own way keeps every record findable.
  pub IsFindable-fill :
      (records : List (Option (SourceRecord Instance))) (r : SourceRecord Instance) (s : ℕ)
      → IsFindable hash records
      → s < length records
      → slot_at records s ≡ none
      → Reaches hash records (ip_of r) s
      → IsFindable hash (set records s (some r))
  IsFindable-fill records r s f inside e reach t q at = elim (ℕ_discrete s t) [
    | yes p ↦
        let same : r ≡ q = some_inj (
          sym (get_or-set_self records s (some r) none inside)
          ∙ ap (slot_at (set records s (some r))) p
          ∙ at) in
        subst (λ a. Reaches hash (set records s (some r)) (ip_of a) t) same
          (subst (Reaches hash (set records s (some r)) (ip_of r)) p
            (Reaches-fill records s r (ip_of r) s e reach))
    | no p ↦
        Reaches-fill records s r (ip_of q) t e
          (f t q (sym (get_or-set_ne records s t (some r) none p) ∙ at))
  ]

  -- What a table that is being filled keeps.
  pub record IsTable (k n : ℕ) (records : List (Option (SourceRecord Instance))) : Type 0 where
    pub size : length records ≡ 2 ^ k
    pub counted : used records ≡ n
    pub findable : IsFindable hash records
    pub inet : AreInet records

  -- Nothing is lost and nothing but the new record comes in.
  pub record Added (records : List (Option (SourceRecord Instance))) (r : SourceRecord Instance)
      (new : List (Option (SourceRecord Instance))) : Type 0 where
    pub added : Holds new r
    pub kept : (q : SourceRecord Instance) → Holds records q → Holds new q
    pub only : (q : SourceRecord Instance) → Holds new q → (q ≡ r) ⊎ Holds records q

  Added-set :
      (records : List (Option (SourceRecord Instance))) (s : ℕ) (r : SourceRecord Instance)
      → s < length records
      → slot_at records s ≡ none
      → Added records r (set records s (some r))
  Added-set records s r inside e = record {
    added = (s, get_or-set_self records s (some r) none inside);
    kept = λ q h. (h.0, get_or-set_ne records s h.0 (some r) none (λ p. cc) ∙ h.1);
    only = λ q h. elim (fill_only records s h.0 r q inside h.1) [
      | inl p ↦ inl p
      | inr p ↦ inr (h.0, p)
    ];
  }

  -- Putting in a record with a new address: the slot that is found is free, and the table stays one.
  pub fill_lem :
      (k n : ℕ) (records : List (Option (SourceRecord Instance))) (r : SourceRecord Instance)
      → IsTable k n records
      → k ≤ 17
      → n < 2 ^ k / 2
      → IsFresh (ip_of r) records
      → is_inet (ip_of r) ≡ true
      → (s : ℕ) × (find_slot hash records r.remote_addr ≡ (s, 0))
        × IsTable k (suc n) (set records s (some r))
        × Added records r (set records s (some r))
  fill_lem k n records r t hk room fresh inet =
      let (j, h, pass, e, found) =
        find_slot-absent k records r.remote_addr hk t.size (omega (arith, t.counted)) fresh inet in
      let s = probe_of hash records (ip_of r) j in
      let inside : s < length records =
        probe-lt (hash (ip_of r)) j (length records) (omega arith) in
      (
        s,
        found,
        record {
          size = length-set records s (some r) ∙ t.size;
          counted = used-fill records s r inside e ∙ ap suc t.counted;
          findable = IsFindable-fill records r s t.findable inside e (j, h, refl, pass);
          inet = λ u q at. elim (fill_only records s u r q inside at) [
            | inl p ↦ rw p inet
            | inr p ↦ t.inet u q p
          ];
        },
        Added-set records s r inside e,
      )

  -- The records of both lists, and no others.
  pub record Gathers (old records new : List (Option (SourceRecord Instance))) : Type 0 where
    pub from_old : (q : SourceRecord Instance) → Holds old q → Holds new q
    pub from_new : (q : SourceRecord Instance) → Holds records q → Holds new q
    pub only : (q : SourceRecord Instance) → Holds new q → Holds old q ⊎ Holds records q

  Holds-cons :
      (r q : SourceRecord Instance) (xs : List (Option (SourceRecord Instance)))
      → Holds (some r ∷ xs) q
      → (q ≡ r) ⊎ Holds xs q
  Holds-cons r q xs (zero, e) = inl (some_inj (sym e))
  Holds-cons r q xs (suc s, e) = inr (s, e)

  Holds-none :
      (q : SourceRecord Instance) (xs : List (Option (SourceRecord Instance)))
      → Holds (none ∷ xs) q
      → Holds xs q
  Holds-none q xs (zero, e) = cc
  Holds-none q xs (suc s, e) = (s, e)

  -- The records still to come have addresses that the table does not have yet.
  later-IsFresh :
      (r : SourceRecord Instance) (old records new : List (Option (SourceRecord Instance)))
      → Added records r new
      → ((s : ℕ) (q : SourceRecord Instance)
          → slot_at (some r ∷ old) s ≡ some q
          → IsFresh (ip_of q) records)
      → IsFresh (ip_of r) old
      → (s : ℕ) (q : SourceRecord Instance) → slot_at old s ≡ some q
      → IsFresh (ip_of q) new
  later-IsFresh r old records new a fresh d s q at v w e = elim (a.only w (v, e)) [
    | inl p ↦
        subst (λ x. same_ip (ip_of x) (ip_of q) ≡ false) (sym p)
          (same_ip_sym (ip_of q) (ip_of r) (d s q at))
    | inr (u, p) ↦ fresh (suc s) q at u w p
  ]

  -- The loop of the rebuild, into a table with room for all: no assertion fails, and the new table
  -- holds what it held and the old records.
  pub rehash_from_lem :
      (old records : List (Option (SourceRecord Instance))) (k n : ℕ)
      → IsTable k n records
      → k ≤ 17
      → n + used old ≤ 2 ^ k / 2
      → IsDistinct old
      → ((s : ℕ) (r : SourceRecord Instance) → slot_at old s ≡ some r → IsFresh (ip_of r) records)
      → AreInet old
      → (new : List (Option (SourceRecord Instance))) × (rehash_from hash old records ≡ some new)
        × IsTable k (n + used old) new
        × Gathers old records new
  unfolding rehash_from used
  rehash_from_lem [] records k n t hk room d fresh inet = (
    records,
    refl,
    subst (λ m. IsTable k m records) (omega arith) t,
    record { from_old = λ q h. cc; from_new = λ q h. h; only = λ q h. inr h },
  )
  rehash_from_lem (none ∷ old) records k n t hk room d fresh inet =
      let (new, e, t', g) =
        rehash_from_lem old records k n t hk room d (λ s r. fresh (suc s) r)
          (λ s r. inet (suc s) r) in
      (
        new,
        e,
        t',
        record {
          from_old = λ q h. g.from_old q (Holds-none q old h);
          from_new = g.from_new;
          only = λ q h. elim (g.only q h) [ inl (s, p) ↦ inl (suc s, p) | inr p ↦ inr p ];
        },
      )
  rehash_from_lem (some r ∷ old) records k n t hk room d fresh inet =
      let (s, found, t1, a) =
        fill_lem k n records r t hk (omega arith) (fresh 0 r refl) (inet 0 r refl) in
      let (new, e, t2, g) =
        rehash_from_lem old (set records s (some r)) k (suc n) t1 hk (omega arith) d.1
          (later-IsFresh r old records (set records s (some r)) a fresh d.0)
          (λ u q. inet (suc u) q) in
      (
        new,
        ground (arith, found, e),
        subst (λ m. IsTable k m new) (omega arith) t2,
        record {
          from_old = λ q h. elim (Holds-cons r q old h) [
            | inl p ↦ g.from_new q (rw p a.added)
            | inr p ↦ g.from_old q p
          ];
          from_new = λ q h. g.from_new q (a.kept q h);
          only = λ q h. elim (g.only q h) [
            | inl (u, p) ↦ inl (suc u, p)
            | inr p ↦ elim (a.only q p) [ inl w ↦ inl (0, ap some (sym w)) | inr w ↦ inr w ]
          ];
        },
      )
