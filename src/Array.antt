-- ===== src/Array.antt =====
-- array.c: arrays that grow and shrink. The elements in use are a list, and `used` is its length.
pub mod Growth
mod Tests
use chrony_nts.Prelude.{
  ℕ, zero, suc, ◌+◌, ◌-◌, ◌*◌, ◌%◌, ◌^◌, Bool, not, ◌&&◌, List, [], ◌∷◌, ◌++◌, Option, none, some,
  ltb, leb, ◌==◌, if◌then◌else◌, ◌>>=◌, length, get_elem?, take, replicate,
}

pub record Array {ℓ} (A : Type ℓ) : Type ℓ where
  pub elements : List A
  pub allocated : ℕ

-- The loop that doubles the capacity, in 32 bits; `none` where `fuel` rounds are not enough.
pub double_until : ℕ → ℕ → ℕ → Option ℕ
double_until zero min_size allocated = none
double_until (suc fuel) min_size allocated =
    let rest = double_until fuel min_size (if allocated == 0 then 1 else 2 * allocated % 2 ^ 32) in
    if ltb allocated min_size then rest else some allocated

-- The new capacity; `none` is the failed assertion on a size that cannot be doubled.
pub realloc_array : ℕ → ℕ → Option ℕ
realloc_array allocated min_size =
    if ltb (2 * min_size % 2 ^ 32) min_size
    then none
    else if leb min_size allocated && leb allocated (2 * min_size % 2 ^ 32)
    then some allocated
    else if ltb allocated min_size
    then double_until 33 min_size allocated
    else some min_size

module _ {ℓ} {A : Type ℓ} where
  pub create_instance : Array A
  create_instance = record { elements = []; allocated = 0 }

  -- The new element is written at once.
  pub append_element : Array A → A → Option (Array A)
  append_element array e = do
    allocated ← realloc_array array.allocated (length array.elements + 1)
    some (record { elements = array.elements ++ e ∷ []; allocated = allocated })

  pub get_element : Array A → ℕ → Option A
  get_element array index = get_elem? array.elements index

  -- What is in new elements is up to the caller, which gets them as `fresh`.
  pub set_size : Array A → ℕ → A → Option (Array A)
  set_size array size fresh = do
    allocated ← realloc_array array.allocated size
    some (record {
      elements = take size array.elements ++ replicate (size - length array.elements) fresh;
      allocated = allocated;
    })
