-- ===== src/Keys/Lookup.antt =====
-- keys.c: the order of the keys, and the binary search.
use chrony_nts.Prelude.{
  ℕ, zero, suc, ◌+◌, ◌-◌, ◌/◌, ◌≤◌, ◌<◌, ◌≡◌, ◌≢◌, ◌⊎◌, inl, inr, refl, Bool, false, ◌||◌, List, [],
  ◌∷◌, Option, none, some, arith, Bool-cases, ltb, leb, ◌==◌, ap, length, get_elem?, some_inj,
  dec_lt,
}
use chrony_nts.Keys.{Key, insert_key, sort_keys, bsearch, lookup_key}

-- Each ID is at least the one before.
abbrev pub AllFrom : ℕ → List Key → Type 0
AllFrom low [] = Unit
AllFrom low (k ∷ keys) = (low ≤ k.id) × AllFrom low keys

abbrev pub IsSorted : List Key → Type 0
IsSorted [] = Unit
IsSorted (k ∷ keys) = AllFrom k.id keys × IsSorted keys

abbrev pub has_id : ℕ → List Key → Bool
has_id id [] = false
has_id id (k ∷ keys) = k.id == id || has_id id keys

AllFrom-le : (low low' : ℕ) (keys : List Key) → low' ≤ low → AllFrom low keys → AllFrom low' keys
AllFrom-le low low' [] le a = tt
AllFrom-le low low' (k ∷ keys) le (h, a) = (omega arith, AllFrom-le low low' keys le a)

AllFrom-insert_key :
    (low : ℕ) (k : Key) (keys : List Key)
    → low ≤ k.id
    → AllFrom low keys
    → AllFrom low (insert_key k keys)
unfolding insert_key
AllFrom-insert_key low k [] le a = (le, tt)
AllFrom-insert_key low k (x ∷ keys) le a = elim (Bool-cases (leb k.id x.id)) [
  | inl e ↦ rw e (le, a)
  | inr e ↦ rw e (a.0, AllFrom-insert_key low k keys le a.1)
]

insert_key-IsSorted : (k : Key) (keys : List Key) → IsSorted keys → IsSorted (insert_key k keys)
unfolding insert_key
insert_key-IsSorted k [] s = (tt, tt)
insert_key-IsSorted k (x ∷ keys) s = elim (Bool-cases (leb k.id x.id)) [
  | inl e ↦ let le : k.id ≤ x.id = ground arith in rw e ((le, AllFrom-le x.id k.id keys le s.0), s)
  | inr e ↦
      let le : x.id ≤ k.id = ground arith in
      rw e (AllFrom-insert_key x.id k keys le s.0, insert_key-IsSorted k keys s.1)
]

pub sort_keys-IsSorted : (keys : List Key) → IsSorted (sort_keys keys)
unfolding sort_keys
sort_keys-IsSorted [] = tt
sort_keys-IsSorted (k ∷ keys) = insert_key-IsSorted k (sort_keys keys) (sort_keys-IsSorted keys)

has_id-insert_key :
    (id : ℕ) (k : Key) (keys : List Key)
    → has_id id (insert_key k keys) ≡ (k.id == id || has_id id keys)
unfolding insert_key
has_id-insert_key id k [] = refl
has_id-insert_key id k (x ∷ keys) = ground (arith, has_id-insert_key id k keys)

pub has_id-sort_keys : (id : ℕ) (keys : List Key) → has_id id (sort_keys keys) ≡ has_id id keys
unfolding sort_keys
has_id-sort_keys id [] = refl
has_id-sort_keys id (k ∷ keys) =
    ground (arith, has_id-insert_key id k (sort_keys keys), has_id-sort_keys id keys)

AllFrom-get_elem? :
    (low : ℕ) (keys : List Key) (j : ℕ) (y : Key)
    → AllFrom low keys
    → get_elem? keys j ≡ some y
    → low ≤ y.id
AllFrom-get_elem? low [] j y a h = cc
AllFrom-get_elem? low (k ∷ keys) zero y a h = ground arith
AllFrom-get_elem? low (k ∷ keys) (suc j) y a h = AllFrom-get_elem? low keys j y a.1 h

ordered :
    (keys : List Key) (i j : ℕ) (x y : Key)
    → IsSorted keys
    → i ≤ j
    → get_elem? keys i ≡ some x
    → get_elem? keys j ≡ some y
    → x.id ≤ y.id
ordered [] i j x y s le hx hy = cc
ordered (k ∷ keys) zero zero x y s le hx hy = ground arith
ordered (k ∷ keys) zero (suc j) x y s le hx hy =
    omega (arith, AllFrom-get_elem? k.id keys j y s.0 hy, ap (λ (z : Key). z.id) (some_inj hx))
ordered (k ∷ keys) (suc i) zero x y s le hx hy = absurd (omega arith)
ordered (k ∷ keys) (suc i) (suc j) x y s le hx hy = ordered keys i j x y s.1 (omega arith) hx hy

lt-get_elem? : (keys : List Key) (i : ℕ) → i < length keys → (k : Key) × (get_elem? keys i ≡ some k)
lt-get_elem? [] i h = absurd (omega arith)
lt-get_elem? (k ∷ keys) zero h = (k, refl)
lt-get_elem? (k ∷ keys) (suc i) h = lt-get_elem? keys i (omega arith)

-- No position of the range has a key with the ID.
abbrev Absent : List Key → ℕ → ℕ → ℕ → Type 0
Absent keys id lo hi = (j : ℕ) (k : Key) → lo ≤ j → j < hi → get_elem? keys j ≡ some k → k.id ≢ id

abbrev pub Found : List Key → ℕ → Option ℕ → Type 0
Found keys id result =
    (p : ℕ) × (k : Key) × (result ≡ some p) × (get_elem? keys p ≡ some k) × (k.id ≡ id)

bsearch_lem :
    (fuel : ℕ) (keys : List Key) (id lo hi : ℕ)
    → IsSorted keys
    → hi ≤ length keys
    → hi - lo < fuel
    → Found keys id (bsearch fuel keys id lo hi)
      ⊎ ((bsearch fuel keys id lo hi ≡ none) × Absent keys id lo hi)
unfolding bsearch
bsearch_lem zero keys id lo hi s le f = absurd (omega arith)
bsearch_lem (suc fuel) keys id lo hi s le f = elim (Bool-cases (ltb lo hi)) [
  | inr e ↦ inr (rw e refl, λ j k a b. absurd (ground arith))
  | inl e ↦
      let mid = (lo + hi) / 2 in
      let lt : lo < hi = ground arith in
      let (k, at_mid) = lt-get_elem? keys mid (omega arith) in
      elim (Bool-cases (ltb id k.id)) [
        | inl l ↦ elim (bsearch_lem fuel keys id lo mid s (omega arith) (omega arith)) [
          | inl (p, x, r, h, y) ↦ inl (p, x, rw (e, at_mid) (rw l r), h, y)
          | inr (r, none_below) ↦ inr (
            rw (e, at_mid) (rw l r),
            λ j x a b h y. elim (dec_lt j mid) [
              | yes q ↦ none_below j x a q h y
              | no q ↦ absurd (ground (arith, ordered keys mid j k x s (omega arith) at_mid h))
            ],
          )
        ]
        | inr l ↦ elim (Bool-cases (ltb k.id id)) [
          | inl m ↦ elim (bsearch_lem fuel keys id (mid + 1) hi s le (omega arith)) [
            | inl (p, x, r, h, y) ↦ inl (p, x, rw (e, at_mid) (rw l (rw m r)), h, y)
            | inr (r, none_above) ↦ inr (
              rw (e, at_mid) (rw l (rw m r)),
              λ j x a b h y. elim (dec_lt mid j) [
                | yes q ↦ none_above j x (omega arith) b h y
                | no q ↦ absurd (ground (arith, ordered keys j mid x k s (omega arith) h at_mid))
              ],
            )
          ]
          | inr m ↦ inl (mid, k, rw (e, at_mid) (rw l (rw m refl)), at_mid, ground arith)
        ]
      ]
]

Absent-has_id : (keys : List Key) (id : ℕ) → Absent keys id 0 (length keys) → has_id id keys ≡ false
Absent-has_id [] id a = refl
Absent-has_id (k ∷ keys) id a =
    let here = a 0 k (omega arith) (omega arith) refl in
    let rest = Absent-has_id keys id (λ j x l h e. a (suc j) x (omega arith) (omega arith) e) in
    ground arith

-- The binary search of sorted keys always ends within its bound, with a key that has the ID, or with
-- none if no key has it.
pub lookup_key_lem :
    (keys : List Key) (id : ℕ)
    → IsSorted keys
    → Found keys id (lookup_key keys id) ⊎ ((lookup_key keys id ≡ none) × (has_id id keys ≡ false))
unfolding lookup_key
lookup_key_lem keys id s =
    elim (bsearch_lem (length keys + 1) keys id 0 (length keys) s (omega arith) (omega arith)) [
      | inl found ↦ inl found
      | inr (r, a) ↦ inr (r, Absent-has_id keys id a)
    ]
