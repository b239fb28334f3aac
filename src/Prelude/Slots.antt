-- ===== src/Prelude/Slots.antt =====
-- Tables of slots, used or empty: reads and writes at an index, the number of used slots, and that
-- different used slots are at most as many.
use Prim.Native.Nat.{ℕ, zero, suc, ◌≤◌, ◌<◌}
use mathlib.Core.Path.{◌≡◌, refl, ap, ◌∙◌}
use mathlib.Core.Logic.{◌≢◌}
use mathlib.Core.List.{List, [], ◌∷◌}
use mathlib.Core.Option.{Option, none, some}
use native.Mathlib.Omega.{arith}
use chrony_nts.Prelude.{length, get_or, set, replicate, sym, Option-cases, inl, inr}

module _ {ℓ} {A : Type ℓ} where
  pub get_or-set_self :
      (xs : List A) (i : ℕ) (v d : A) → i < length xs → get_or (set xs i v) i d ≡ v
  get_or-set_self [] i v d h = absurd (omega arith)
  get_or-set_self (x ∷ xs) zero v d h = refl
  get_or-set_self (x ∷ xs) (suc i) v d h = get_or-set_self xs i v d (omega arith)

  pub get_or-set_ne :
      (xs : List A) (i j : ℕ) (v d : A) → i ≢ j → get_or (set xs i v) j d ≡ get_or xs j d
  get_or-set_ne [] i j v d h = refl
  get_or-set_ne (x ∷ xs) zero zero v d h = absurd (h refl)
  get_or-set_ne (x ∷ xs) zero (suc j) v d h = refl
  get_or-set_ne (x ∷ xs) (suc i) zero v d h = refl
  get_or-set_ne (x ∷ xs) (suc i) (suc j) v d h = get_or-set_ne xs i j v d (λ e. h (ap suc e))

  pub get_or-replicate : (n i : ℕ) (d : A) → get_or (replicate n d) i d ≡ d
  get_or-replicate zero i d = refl
  get_or-replicate (suc n) zero d = refl
  get_or-replicate (suc n) (suc i) d = get_or-replicate n i d

-- The entry of a slot.
abbrev pub slot_at {ℓ} : {A : Type ℓ} → List (Option A) → ℕ → Option A
slot_at xs i = get_or xs i none

module _ {ℓ} {A : Type ℓ} where
  unfoldable pub used : List (Option A) → ℕ
  used [] = 0
  used (none ∷ xs) = used xs
  used (some _ ∷ xs) = suc (used xs)

  pub slot-lt-length :
      (xs : List (Option A)) (i : ℕ) (a : A) → slot_at xs i ≡ some a → i < length xs
  slot-lt-length [] i a e = cc
  slot-lt-length (x ∷ xs) zero a e = omega arith
  slot-lt-length (x ∷ xs) (suc i) a e = omega (arith, slot-lt-length xs i a e)

  pub used-fill :
      (xs : List (Option A)) (i : ℕ) (a : A)
      → i < length xs
      → slot_at xs i ≡ none
      → used (set xs i (some a)) ≡ suc (used xs)
  unfolding used
  used-fill [] i a h e = absurd (omega arith)
  used-fill (none ∷ xs) zero a h e = refl
  used-fill (some b ∷ xs) zero a h e = cc
  used-fill (none ∷ xs) (suc i) a h e = used-fill xs i a (omega arith) e
  used-fill (some b ∷ xs) (suc i) a h e = ap suc (used-fill xs i a (omega arith) e)

  pub used-clear :
      (xs : List (Option A)) (i : ℕ) (a : A)
      → slot_at xs i ≡ some a
      → used xs ≡ suc (used (set xs i none))
  unfolding used
  used-clear [] i a e = cc
  used-clear (none ∷ xs) zero a e = cc
  used-clear (some b ∷ xs) zero a e = refl
  used-clear (none ∷ xs) (suc i) a e = used-clear xs i a e
  used-clear (some b ∷ xs) (suc i) a e = ap suc (used-clear xs i a e)

  pub used-replace :
      (xs : List (Option A)) (i : ℕ) (a b : A)
      → slot_at xs i ≡ some a
      → used (set xs i (some b)) ≡ used xs
  unfolding used
  used-replace [] i a b e = refl
  used-replace (none ∷ xs) zero a b e = cc
  used-replace (some c ∷ xs) zero a b e = refl
  used-replace (none ∷ xs) (suc i) a b e = used-replace xs i a b e
  used-replace (some c ∷ xs) (suc i) a b e = ap suc (used-replace xs i a b e)

  -- Slots that are used and different are at most as many as the used slots.
  pub pigeonhole :
      (m : ℕ) (f : ℕ → ℕ) (xs : List (Option A))
      → ((i j : ℕ) → i < j → j < m → f i ≢ f j)
      → ((i : ℕ) → i < m → slot_at xs (f i) ≢ none)
      → m ≤ used xs
  pigeonhole zero f xs apart full = omega arith
  pigeonhole (suc m) f xs apart full =
      let rest =
        pigeonhole m f (set xs (f m) none) (λ i j h k. apart i j h (omega arith))
          (λ i h e. full i (omega arith) (
            sym (get_or-set_ne xs (f m) (f i) none none (λ q. apart i m h (omega arith) (sym q)))
            ∙ e)) in
      elim (Option-cases (slot_at xs (f m))) [
        | inl e ↦ absurd (full m (omega arith) e)
        | inr (a, e) ↦ omega (arith, used-clear xs (f m) a e, rest)
      ]

pub used-replicate {ℓ} : (A : Type ℓ) (n : ℕ) → used {A = A} (replicate n none) ≡ 0
unfolding used
used-replicate A zero = refl
used-replicate A (suc n) = used-replicate A n
