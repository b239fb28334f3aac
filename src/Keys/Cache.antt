-- ===== src/Keys/Cache.antt =====
-- keys.c: the cache of the last key that was found is coherent with the keys.
use chrony_nts.Prelude.{
  ℕ, zero, suc, ◌+◌, ◌<◌, ◌≡◌, ◌⊎◌, ◌∙◌, inl, inr, refl, Bool, true, false, ◌&&◌, List, [], ◌∷◌,
  none, some, arith, Bool-cases, Option-cases, ◌==◌, sym, ap, length, get_elem?, set, some_inj,
  get_elem?-set_self, get_elem?-set_ne, ℕ_discrete, subst,
}
use chrony_nts.Keys.{
  Key, Keys, KeyLine, get_key_by_id, measure_from, reload, free_keys, sort_keys, parsed_keys,
}
use chrony_nts.Keys.Lookup.{
  IsSorted, AllFrom, Found, has_id, lookup_key_lem, sort_keys-IsSorted, has_id-sort_keys,
}

-- The cached position holds the cached ID.
abbrev pub IsCoherent : Bool → List Key → ℕ → ℕ → Type 0
IsCoherent false keys id pos = Unit
IsCoherent true keys id pos = (k : Key) × (get_elem? keys pos ≡ some k) × (k.id ≡ id)

pub record IsValid (s : Keys) : Type 0 where
  pub sorted : IsSorted s.keys
  pub coherent : IsCoherent s.cache_valid s.keys s.cache_key_id s.cache_key_pos

has_id-get_elem? :
    (keys : List Key) (p : ℕ) (k : Key) → get_elem? keys p ≡ some k → has_id k.id keys ≡ true
has_id-get_elem? [] p k h = cc
has_id-get_elem? (x ∷ keys) zero k h = ground arith
has_id-get_elem? (x ∷ keys) (suc p) k h = ground (arith, has_id-get_elem? keys p k h)

cached_key :
    (s : Keys) (id : ℕ)
    → IsValid s
    → (s.cache_valid && id == s.cache_key_id) ≡ true
    → Found s.keys id (some s.cache_key_pos)
cached_key s id v e =
    let on : s.cache_valid ≡ true = ground arith in
    let same : id ≡ s.cache_key_id = ground arith in
    let (k, h, y) = subst (λ b. IsCoherent b s.keys s.cache_key_id s.cache_key_pos) on v.coherent in
    (s.cache_key_pos, k, refl, h, y ∙ sym same)

-- A key is found by its ID through the cache as without it: a key with the ID is found, or none if
-- no key has it. The keys stay as they are and the cache stays right.
pub get_key_by_id_lem :
    (s : Keys) (id : ℕ)
    → IsValid s
    → (Found s.keys id (get_key_by_id s id).0
        ⊎ (((get_key_by_id s id).0 ≡ none) × (has_id id s.keys ≡ false)))
      × IsValid (get_key_by_id s id).1
      × ((get_key_by_id s id).1.keys ≡ s.keys)
unfolding get_key_by_id
get_key_by_id_lem s id v = elim (Bool-cases (s.cache_valid && id == s.cache_key_id)) [
  | inl e ↦ rw e (inl (cached_key s id v e), v, refl)
  | inr e ↦ elim (lookup_key_lem s.keys id v.sorted) [
    | inl (p, k, r, h, y) ↦
        rw e
          (rw r (inl (p, k, refl, h, y), record { sorted = v.sorted; coherent = (k, h, y) }, refl))
    | inr (r, no_key) ↦ rw e (rw r (inr (refl, no_key), v, refl))
  ]
]

-- A new delay changes no ID.
AllFrom-set :
    (low : ℕ) (keys : List Key) (i d : ℕ) (k : Key)
    → get_elem? keys i ≡ some k
    → AllFrom low keys
    → AllFrom low (set keys i (record k { auth_delay = d }))
AllFrom-set low [] i d k h a = tt
AllFrom-set low (x ∷ keys) zero d k h a = (ground arith, a.1)
AllFrom-set low (x ∷ keys) (suc i) d k h a = (a.0, AllFrom-set low keys i d k h a.1)

set-IsSorted :
    (keys : List Key) (i d : ℕ) (k : Key)
    → get_elem? keys i ≡ some k
    → IsSorted keys
    → IsSorted (set keys i (record k { auth_delay = d }))
set-IsSorted [] i d k h s = tt
set-IsSorted (x ∷ keys) zero d k h s =
    (subst (λ (z : Key). AllFrom z.id keys) (some_inj h) s.0, s.1)
set-IsSorted (x ∷ keys) (suc i) d k h s =
    (AllFrom-set x.id keys i d k h s.0, set-IsSorted keys i d k h s.1)

has_id-set :
    (id : ℕ) (keys : List Key) (i d : ℕ) (k : Key)
    → get_elem? keys i ≡ some k
    → has_id id (set keys i (record k { auth_delay = d })) ≡ has_id id keys
has_id-set id [] i d k h = refl
has_id-set id (x ∷ keys) zero d k h = ground arith
has_id-set id (x ∷ keys) (suc i) d k h = rw (has_id-set id keys i d k h)

get_elem?-lt : (keys : List Key) (i : ℕ) (k : Key) → get_elem? keys i ≡ some k → i < length keys
get_elem?-lt [] i k h = cc
get_elem?-lt (x ∷ keys) zero k h = omega arith
get_elem?-lt (x ∷ keys) (suc i) k h = omega (arith, get_elem?-lt keys i k h)

set-IsCoherent :
    (b : Bool) (keys : List Key) (id pos i d : ℕ) (k : Key)
    → get_elem? keys i ≡ some k
    → IsCoherent b keys id pos
    → IsCoherent b (set keys i (record k { auth_delay = d })) id pos
set-IsCoherent false keys id pos i d k h c = tt
set-IsCoherent true keys id pos i d k h (x, e, y) =
    let k' = record k { auth_delay = d } in
    elim (ℕ_discrete i pos) [
      | yes p ↦
          let same : k ≡ x = some_inj (sym h ∙ rw p e) in
          (
            k',
            rw (← p) (get_elem?-set_self keys i k' (get_elem?-lt keys i k h)),
            ap (λ (z : Key). z.id) same ∙ y,
          )
      | no p ↦ (x, get_elem?-set_ne keys k' p ∙ e, y)
    ]

-- The keys are valid and can be found by the same IDs as those of s.
abbrev Kept : Keys → Keys → Type 0
Kept s r = IsValid r × ((id : ℕ) → has_id id r.keys ≡ has_id id s.keys)

abbrev measured : (Key → ℕ) → ℕ → Key → Keys → Keys
measured delay i k t = record t { keys = set t.keys i (record k { auth_delay = delay k }) }

measure-end :
    (delay : Key → ℕ) (rounds i : ℕ) (s : Keys)
    → get_elem? s.keys i ≡ none
    → measure_from delay (suc rounds) i s ≡ s
unfolding measure_from
measure-end delay rounds i s e = rw (e, measure_from) refl

measure-step :
    (delay : Key → ℕ) (rounds i : ℕ) (s : Keys) (k : Key)
    → get_elem? s.keys i ≡ some k
    → measure_from delay (suc rounds) i s
      ≡ measure_from delay rounds (i + 1) (measured delay i k (get_key_by_id s k.id).1)
unfolding measure_from
measure-step delay rounds i s k e = rw (e, measure_from) refl

measure_from-IsValid :
    (delay : Key → ℕ) (rounds i : ℕ) (s : Keys) → IsValid s → Kept s (measure_from delay rounds i s)
unfolding measure_from
measure_from-IsValid delay zero i s v = (v, λ id. refl)
measure_from-IsValid delay (suc rounds) i s v = elim (Option-cases (get_elem? s.keys i)) [
  | inl e ↦ subst (Kept s) (sym (measure-end delay rounds i s e)) (v, λ id. refl)
  | inr (k, e) ↦
      let (f, tv, same) = get_key_by_id_lem s k.id v in
      let t = (get_key_by_id s k.id).1 in
      let at_i : get_elem? t.keys i ≡ some k = ap (λ ks. get_elem? ks i) same ∙ e in
      let u = record t { keys = set t.keys i (record k { auth_delay = delay k }) } in
      let uv : IsValid u = record {
        sorted = set-IsSorted t.keys i (delay k) k at_i tv.sorted;
        coherent =
            set-IsCoherent t.cache_valid t.keys t.cache_key_id t.cache_key_pos i (delay k) k at_i
              tv.coherent;
      } in
      let (rv, ids) = measure_from-IsValid delay rounds (i + 1) u uv in
      subst (Kept s) (sym (measure-step delay rounds i s k e))
        (rv, λ id. ids id ∙ has_id-set id t.keys i (delay k) k at_i ∙ ap (has_id id) same)
]

-- After the keys are loaded they are sorted and the cache is right, whatever was loaded or cached
-- before; the IDs that can be found are just those of the lines that give a key.
pub reload-IsValid :
    (delay : Key → ℕ) (lines : List KeyLine) (s : Keys)
    → IsValid (reload delay lines s)
      × ((id : ℕ) → has_id id (reload delay lines s).keys ≡ has_id id (parsed_keys lines))
unfolding reload free_keys
reload-IsValid delay lines s =
    let keys = sort_keys (parsed_keys lines) in
    let (v, ids) =
      measure_from-IsValid delay (length keys) 0 (record (free_keys s) { keys = keys })
        (record { sorted = sort_keys-IsSorted (parsed_keys lines); coherent = tt }) in
    (v, λ id. ids id ∙ has_id-sort_keys id (parsed_keys lines))
