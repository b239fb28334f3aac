-- ===== src/Array/Growth.antt =====
-- array.c: the capacity covers the elements in use, and is at most twice their number.
use chrony_nts.Prelude.{
  ℕ, zero, suc, ◌+◌, ◌*◌, ◌%◌, ◌^◌, ◌≤◌, ◌<◌, ◌≡◌, ◌⊎◌, inl, inr, refl, ap, ◌∙◌, dec_lt, zero, true,
  false, ◌&&◌, [], ◌∷◌, ◌++◌, none, some, arith, Bool-cases, ltb, leb, ◌==◌, length, length-append,
  if◌then◌else◌,
}
use native.Mathlib.Nat.{mul_comm, mul_assoc}
use chrony_nts.Prelude.Power.{pow-add}
use chrony_nts.Array.{Array, double_until, realloc_array, append_element}

double-step :
    (fuel min_size allocated next : ℕ)
    → ltb allocated min_size ≡ true
    → (if allocated == 0 then 1 else 2 * allocated % 2 ^ 32) ≡ next
    → double_until (suc fuel) min_size allocated ≡ double_until fuel min_size next
unfolding double_until
double-step fuel min_size allocated next e v = rw e (ap (λ (b : ℕ). double_until fuel min_size b) v)

-- From a capacity that is too small the doubling ends at one below twice the size asked for.
double_until_lem :
    (fuel min_size allocated : ℕ)
    → min_size < 2 ^ 31
    → 0 < allocated
    → allocated < 2 * min_size
    → min_size ≤ allocated * 2 ^ fuel
    → (r : ℕ) × (double_until (suc fuel) min_size allocated ≡ some r)
      × (min_size ≤ r)
      × (r < 2 * min_size)
unfolding double_until
double_until_lem zero min_size allocated s p h le =
    let done : ltb allocated min_size ≡ false = ground arith in
    (allocated, rw done refl, omega arith, h)
double_until_lem (suc fuel) min_size allocated s p h le =
    elim (Bool-cases (ltb allocated min_size)) [
      | inr e ↦ (allocated, rw e refl, ground arith, h)
      | inl e ↦
          let small : allocated < min_size = ground arith in
          let next : (if allocated == 0 then 1 else 2 * allocated % 2 ^ 32) ≡ 2 * allocated =
            ground arith in
          let one_more : suc fuel ≡ 1 + fuel = omega arith in
          let split : 2 ^ suc fuel ≡ 2 * 2 ^ fuel =
            ap (λ (n : ℕ). 2 ^ n) one_more ∙ pow-add 2 1 fuel in
          let enough : min_size ≤ 2 * allocated * 2 ^ fuel =
            rw (mul_comm 2 allocated, mul_assoc allocated 2 (2 ^ fuel)) (rw split at le) in
          let (r, x, y, z) =
            double_until_lem fuel min_size (2 * allocated) s (omega arith) (omega arith) enough in
          (r, double-step (suc fuel) min_size allocated (2 * allocated) e next ∙ x, y, z)
    ]

-- 33 rounds are enough, from no capacity too.
doubled :
    (min_size allocated : ℕ)
    → min_size < 2 ^ 31
    → allocated < min_size
    → (r : ℕ) × (double_until 33 min_size allocated ≡ some r) × (min_size ≤ r) × (r < 2 * min_size)
doubled min_size zero s l =
    let (r, x, y, z) = double_until_lem 31 min_size 1 s (omega arith) (omega arith) (omega arith) in
    (r, double-step 32 min_size 0 1 (ground arith) refl ∙ x, y, z)
doubled min_size (suc allocated) s l =
    double_until_lem 32 min_size (suc allocated) s (omega arith) (omega arith) (omega arith)

-- The assertion fails exactly for sizes of 2^31 and more; otherwise the capacity is found in at most
-- 33 rounds without overflow of its 32 bits, covers the size and is at most twice as large.
pub realloc_array_lem :
    (allocated min_size : ℕ)
    → allocated < 2 ^ 32
    → min_size < 2 ^ 32
    → ((2 ^ 31 ≤ min_size) × (realloc_array allocated min_size ≡ none))
      ⊎ (min_size < 2 ^ 31)
        × (r : ℕ) × (realloc_array allocated min_size ≡ some r)
        × (min_size ≤ r)
        × (r ≤ 2 * min_size)
unfolding realloc_array
realloc_array_lem allocated min_size a m = elim (dec_lt min_size (2 ^ 31)) [
  | no p ↦
      let over : ltb (2 * min_size % 2 ^ 32) min_size ≡ true = ground arith in
      inl (omega arith, rw over refl)
  | yes p ↦
      let twice : 2 * min_size % 2 ^ 32 ≡ 2 * min_size = omega arith in
      let fits : ltb (2 * min_size) min_size ≡ false = ground arith in
      inr (elim (Bool-cases (leb min_size allocated && leb allocated (2 * min_size))) [
        | inl e ↦ (p, allocated, rw twice (rw fits (rw e refl)), ground arith, ground arith)
        | inr e ↦ elim (Bool-cases (ltb allocated min_size)) [
          | inr l ↦ (p, min_size, rw twice (rw fits (rw e (rw l refl))), omega arith, omega arith)
          | inl l ↦
              let (r, x, y, z) = doubled min_size allocated p (ground arith) in
              (p, r, rw twice (rw fits (rw e (rw l x))), y, omega arith)
        ]
      ])
]

pub record IsValid {ℓ} {A : Type ℓ} (array : Array A) : Type 0 where
  pub covers : length array.elements ≤ array.allocated
  pub tight : array.allocated ≤ 2 * length array.elements
  pub fits : array.allocated < 2 ^ 32

-- Appending works for up to 2^31 - 1 elements: the elements before stay, the new one comes last, and
-- the capacity keeps covering the elements with at most twice the room they need.
pub append_element_lem {ℓ} :
    {A : Type ℓ} (array : Array A) (e : A)
    → IsValid array
    → length array.elements + 1 < 2 ^ 31
    → (b : Array A) × (append_element array e ≡ some b)
      × IsValid b
      × (b.elements ≡ array.elements ++ e ∷ [])
unfolding append_element
append_element_lem array e v room =
    elim (realloc_array_lem array.allocated (length array.elements + 1) v.fits (omega arith)) [
      | inl (big, x) ↦ absurd (omega arith)
      | inr (s, r, x, y, z) ↦ (
        record { elements = array.elements ++ e ∷ []; allocated = r },
        rw x refl,
        record {
          covers = omega (arith, length-append array.elements (e ∷ []));
          tight = omega (arith, length-append array.elements (e ∷ []));
          fits = omega arith;
        },
        refl,
      )
    ]
