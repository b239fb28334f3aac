-- ===== src/NtpSources/PoolIndex.antt =====
-- ntp_sources.c: the indices of pools that the records hold.
use chrony_nts.Prelude.{
  ℕ, zero, suc, ◌≡◌, ◌<◌, refl, ◌∙◌, subst, arith, List, [], ◌∷◌, Option, none, some, length,
  get_elem?, set, ℕ_discrete, get_elem?-set_self, get_elem?-set_ne, Bool-cases, Option-cases, inl,
  inr, some_inj,
}
use chrony_nts.Prelude.Int.{pos, ◌-ℤ◌}
use chrony_nts.NtpSources.{SourceRecord, SourcePool, Sources, leave_pool, pools_without}
use chrony_nts.NtpSources.Rehash.{Holds}

module _ {Instance : Type 0} where
  -- Every record names a pool that exists, or none.
  abbrev pub HasPools : Sources Instance → Type 0
  HasPools s =
      (q : SourceRecord Instance) (i : ℕ)
      → Holds s.records q
      → q.pool ≡ some i
      → (p : SourcePool) × (get_elem? s.pools i ≡ some p)

-- The pools are changed in place.
abbrev pub Keeps : List SourcePool → List SourcePool → Type 0
Keeps old new =
    (i : ℕ) (p : SourcePool)
    → get_elem? old i ≡ some p
    → (p' : SourcePool) × (get_elem? new i ≡ some p')

-- A source without a pool, or with one that exists.
abbrev pub InPools : Option ℕ → List SourcePool → Type 0
InPools pool ps = (i : ℕ) → pool ≡ some i → (p : SourcePool) × (get_elem? ps i ≡ some p)

pub InPools-Keeps :
    (pool : Option ℕ) (ps qs : List SourcePool) → InPools pool ps → Keeps ps qs → InPools pool qs
InPools-Keeps pool ps qs h k i e = let (p, at) = h i e in k i p at

pool_below :
    (ps : List SourcePool) (i : ℕ) (p : SourcePool) → get_elem? ps i ≡ some p → i < length ps
pool_below [] i p e = cc
pool_below (x ∷ ps) zero p e = omega arith
pool_below (x ∷ ps) (suc i) p e = omega (arith, pool_below ps i p e)

pub set-Keeps :
    (ps : List SourcePool) (i : ℕ) (p new : SourcePool)
    → get_elem? ps i ≡ some p
    → Keeps ps (set ps i new)
set-Keeps ps i p new at j q e = elim (ℕ_discrete i j) [
  | yes h ↦ (
    new,
    subst (λ k. get_elem? (set ps i new) k ≡ some new) h
        (get_elem?-set_self ps i new (pool_below ps i p at)),
  )
  | no h ↦ (q, get_elem?-set_ne ps new h ∙ e)
]

pub Keeps-refl : (ps : List SourcePool) → Keeps ps ps
Keeps-refl ps i p e = (p, e)

pub Keeps-trans : (ps qs rs : List SourcePool) → Keeps ps qs → Keeps qs rs → Keeps ps rs
Keeps-trans ps qs rs h k i p e = let (q, e') = h i p e in k i q e'

-- A source that has a pool, or none, can leave it.
leave_pool_lem :
    (pool : Option ℕ) (ps : List SourcePool)
    → InPools pool ps
    → (qs : List SourcePool) × (leave_pool pool ps ≡ some qs) × Keeps ps qs
leave_pool_lem none ps h = (ps, refl, Keeps-refl ps)
leave_pool_lem (some i) ps h =
    let (p, at) = h i refl in
    let less : SourcePool = record p { sources = p.sources -ℤ pos 1 } in
    (set ps i less, rw (at, leave_pool) refl, set-Keeps ps i p less at)

pub pools_without_lem :
    {Instance : Type 0} (r : SourceRecord Instance) (ps : List SourcePool)
    → InPools r.pool ps
    → (qs : List SourcePool) × (pools_without r ps ≡ some qs) × Keeps ps qs
pools_without_lem r ps h = elim (Bool-cases r.tentative) [
  | inl e ↦ (ps, rw e refl, Keeps-refl ps)
  | inr e ↦ let (qs, run, k) = leave_pool_lem r.pool ps h in (qs, rw e run, k)
]

-- The pools that a record leaves are changed in place.
pub pools_without-Keeps :
    {Instance : Type 0} (r : SourceRecord Instance) (ps qs : List SourcePool)
    → pools_without r ps ≡ some qs
    → Keeps ps qs
pools_without-Keeps r ps qs e = elim (Bool-cases r.tentative) [
  | inl tentative ↦
      let same : some ps ≡ some qs = rw tentative at e in
      subst (Keeps ps) (some_inj same) (Keeps-refl ps)
  | inr confirmed ↦
      let left : leave_pool r.pool ps ≡ some qs = rw confirmed at e in left_Keeps r.pool left
]
  where
    left_Keeps : (pool : Option ℕ) → leave_pool pool ps ≡ some qs → Keeps ps qs
    left_Keeps none h = subst (Keeps ps) (some_inj h) (Keeps-refl ps)
    left_Keeps (some i) h = elim (Option-cases (get_elem? ps i)) [
      | inl out ↦ let clash : none ≡ some qs = rw (out, leave_pool) at h in cc
      | inr (p, at) ↦
          let less : SourcePool = record p { sources = p.sources -ℤ pos 1 } in
          let is : some (set ps i less) ≡ some qs = rw (at, leave_pool) at h in
          subst (Keeps ps) (some_inj is) (set-Keeps ps i p less at)
    ]
