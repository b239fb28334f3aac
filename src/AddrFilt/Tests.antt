-- ===== src/AddrFilt/Tests.antt =====
-- addrfilt.c: runs of the functions, and the theorems at concrete tables.
use chrony_nts.Prelude.{ℕ, ◌≤◌, ◌≡◌, refl, true, false, [], ◌∷◌, some, arith, ◌⊎◌, ◌<◌}
use chrony_nts.Prelude.Int.{pos}
use chrony_nts.Addressing.{inet4}
use chrony_nts.AddrFilt.{
  deny, allow, as_parent, TableNode, leaf, branch, AuthTable, success, badsubnet, update, children,
  set_subnet, set_subnet', adf_allow_all, is_allowed, is_any_allowed, check_ip_in_node,
}
use chrony_nts.AddrFilt.Bounds.{Fits}
use chrony_nts.AddrFilt.Override.{set_subnet_override, more_specific, in_subnet}
use chrony_nts.AddrFilt.Rules.{IsValid, set_subnet'-IsValid, set_subnet'-inet4, set_subnet_status}
use chrony_nts.AddrFilt.Any.{none_allowed_lem}

abbrev empty_table : AuthTable
empty_table = record { base4 = leaf deny; base6 = leaf deny }

-- 10.0.0.0
abbrev ten : ℕ
ten = 0x0a00_0000

-- What 10.0.0.0/8 leaves, if it is allowed.
abbrev opened : TableNode
opened = branch deny (
    update (children (leaf deny)) 0
      (branch as_parent (update (children (leaf as_parent)) 10 (leaf allow))))

abbrev ten_allowed : AuthTable
ten_allowed = record { base4 = opened; base6 = leaf deny }

allow_ten' : set_subnet' empty_table (inet4 ten) (pos 8) allow true ≡ some (success, ten_allowed)
unfolding set_subnet'
allow_ten' = refl

allow_ten : adf_allow_all empty_table (inet4 ten) (pos 8) ≡ some (success, ten_allowed)
unfolding adf_allow_all
allow_ten = refl

ten_is_allowed :
    (is_allowed ten_allowed (inet4 0x0a01_0203) ≡ some true)
    × (is_allowed ten_allowed (inet4 0x0b01_0203) ≡ some false)
unfolding is_allowed
ten_is_allowed = (refl, refl)

too_long : set_subnet' empty_table (inet4 ten) (pos 33) allow true ≡ some (badsubnet, empty_table)
unfolding set_subnet'
too_long = refl

empty_table-IsValid : IsValid empty_table
empty_table-IsValid = record { fits4 = tt; fits6 = tt }

-- The tree that 10.0.0.0/7, denied, leaves below the root.
abbrev closed : ℕ → TableNode
closed = update (children opened) 0 (
    branch as_parent (update (update (children (children opened 0)) 10 (leaf deny)) 11 (leaf deny)))

opened-Fits : Fits 8 opened
opened-Fits =
    (set_subnet'-IsValid empty_table ten_allowed (inet4 ten) (pos 8) allow true success
      empty_table-IsValid allow_ten').fits4

ten_allowed-IsValid : IsValid ten_allowed
ten_allowed-IsValid = record { fits4 = opened-Fits; fits6 = tt }

set_subnet'-IsValid_example : IsValid ten_allowed
set_subnet'-IsValid_example =
    set_subnet'-IsValid empty_table ten_allowed (inet4 ten) (pos 8) allow true success
      empty_table-IsValid allow_ten'

set_subnet'-inet4_example :
    (is_allowed ten_allowed (inet4 0x0a01_0203) ≡ some true)
    × (ten_allowed.base6 ≡ empty_table.base6)
set_subnet'-inet4_example =
    set_subnet'-inet4 empty_table ten_allowed ten 0x0a01_0203 8 allow true empty_table-IsValid
      (λ e. cc) (omega arith) (omega arith) (omega arith) allow_ten'

set_subnet_status_example :
    ((20 ≤ 32)
      × ((m : TableNode) × (set_subnet opened (ten ∷ []) 1 (pos 20) deny false
            ≡ some (success, m))))
    ⊎ ((32 < 20) × (set_subnet opened (ten ∷ []) 1 (pos 20) deny false ≡ some (badsubnet, opened)))
set_subnet_status_example = set_subnet_status opened (ten ∷ []) 20 deny false

-- Every address is denied before a rule is set.
none_allowed_lem_example : is_allowed empty_table (inet4 ten) ≡ some false
unfolding is_any_allowed
none_allowed_lem_example = none_allowed_lem empty_table ten empty_table-IsValid refl

-- A rule for 10.0.0.0/7 without deletion: the rule for 10.0.0.0/8, which is longer, gives way, since
-- the shorter one is stored as rules of eight bits.
set_subnet_override_example : check_ip_in_node (branch deny closed) (0x0a01_0203 ∷ []) ≡ some false
unfolding set_subnet more_specific in_subnet
set_subnet_override_example =
    set_subnet_override opened (branch deny closed) (ten ∷ []) (0x0a01_0203 ∷ []) 7 deny false
      (λ e. cc) refl opened-Fits refl
