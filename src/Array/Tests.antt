-- ===== src/Array/Tests.antt =====
-- array.c: an array that grows at concrete sizes.
use chrony_nts.Prelude.{ℕ, ◌≡◌, [], ◌∷◌, some, arith}
use chrony_nts.Array.{Array, append_element}
use chrony_nts.Array.Growth.{IsValid, append_element_lem}

abbrev full : Array ℕ
full = record { elements = 4 ∷ 5 ∷ []; allocated = 2 }

append_element_lem_example :
    (b : Array ℕ) × (append_element full 6 ≡ some b) × IsValid b × (b.elements ≡ 4 ∷ 5 ∷ 6 ∷ [])
append_element_lem_example =
    append_element_lem full 6
      (record { covers = omega arith; tight = omega arith; fits = omega arith }) (omega arith)
