-- ===== src/AddrFilt.antt =====
-- addrfilt.c: the tables that say which addresses are allowed. A table is a tree in which each level
-- takes four bits of the address. An array of children is a function of the index, read and written
-- at indices below `table_size` only; a read past the words of an address is `none`.
pub mod Bounds
pub mod Override
pub mod Prefix
pub mod Rules
pub mod Any
mod Tests
use chrony_nts.Prelude.{
  ℕ, zero, suc, ◌+◌, ◌-◌, ◌*◌, ◌/◌, ◌%◌, ◌^◌, Bool, true, false, List, [], ◌∷◌, Option, none, some,
  ltb, ◌==◌, if◌then◌else◌, get_elem?, ◌>>=◌,
}
use chrony_nts.Addressing.{IpAddr, inet4, inet6, unspec}
use chrony_nts.Prelude.Int.{ℤ, pos, negsuc}

abbrev pub nbits : ℕ
nbits = 4

abbrev pub table_size : ℕ
table_size = 2 ^ nbits

pub data State : Type 0 where
  deny allow as_parent : State

-- `leaf` is a node whose `extended` is NULL.
pub data TableNode : Type 0 where
  leaf : State → TableNode
  branch : State → (ℕ → TableNode) → TableNode

pub record AuthTable : Type 0 where
  pub base4 : TableNode
  pub base6 : TableNode

pub data Status : Type 0 where
  success badsubnet : Status

-- One round of the loop of `split_ip6`.
split_word : List ℕ → ℕ → Option ℕ
split_word bytes i = do
  a ← get_elem? bytes (i * 4)
  b ← get_elem? bytes (i * 4 + 1)
  c ← get_elem? bytes (i * 4 + 2)
  d ← get_elem? bytes (i * 4 + 3)
  some (a * 2 ^ 24 + b * 2 ^ 16 + c * 2 ^ 8 + d)

pub split_ip6 : List ℕ → Option (List ℕ)
unfolding split_word
split_ip6 bytes = do
  w ← split_word bytes 0
  x ← split_word bytes 1
  y ← split_word bytes 2
  z ← split_word bytes 3
  some (w ∷ x ∷ y ∷ z ∷ [])

-- The four bits of the address that start at bit `at`, counted from the most significant.
pub get_subnet : List ℕ → ℕ → Option ℕ
get_subnet addr at = do
  word ← get_elem? addr (at / 32)
  some (word / 2 ^ (32 - nbits - at % 32) % 2 ^ nbits)

pub create_table : AuthTable
create_table = record { base4 = leaf deny; base6 = leaf deny }

abbrev pub state_of : TableNode → State
state_of (leaf s) = s
state_of (branch s _) = s

abbrev pub with_state : State → TableNode → TableNode
with_state s (leaf _) = leaf s
with_state s (branch _ children) = branch s children

pub close_node : TableNode → TableNode
close_node (leaf s) = leaf s
close_node (branch s _) = leaf s

abbrev pub update : (ℕ → TableNode) → ℕ → TableNode → ℕ → TableNode
update f i n j = if j == i then n else f j

-- What is written into the node that a subnet ends at.
pub put_state : State → Bool → TableNode → TableNode
unfolding close_node
put_state s delete n = with_state s (if delete then close_node n else n)

-- The loop over the `n` children from index `i`.
pub put_states : ℕ → ℕ → State → Bool → (ℕ → TableNode) → ℕ → TableNode
unfolding put_state
put_states zero i s delete f = f
put_states (suc n) i s delete f =
    put_states n (i + 1) s delete (update f i (put_state s delete (f i)))

-- The children of a node once it is open: fresh ones if its `extended` was NULL.
abbrev pub children : TableNode → ℕ → TableNode
children (leaf _) = λ _. leaf as_parent
children (branch _ f) = f

abbrev pub open_node : TableNode → TableNode
open_node n = branch (state_of n) (children n)

-- A node with the child at an index replaced.
abbrev pub with_child : TableNode → ℕ → TableNode → TableNode
with_child n i child = branch (state_of n) (update (children n) i child)

-- The `while` loops: `levels` is `bits_to_go / NBITS`, the number of rounds, and `last` is what
-- is done to the node reached, given the bits consumed.
pub set_path : ℕ → List ℕ → ℕ → (ℕ → TableNode → Option TableNode) → TableNode → Option TableNode
unfolding get_subnet
set_path zero ip consumed last node = last consumed node
set_path (suc levels) ip consumed last node = do
  subnet ← get_subnet ip consumed
  let opened = open_node node
  child ← set_path levels ip (consumed + nbits) last (children opened subnet)
  some (with_child opened subnet child)

-- The last step where the length of the subnet is no multiple of four: `n` entries are set.
pub set_entries : List ℕ → ℕ → State → Bool → ℕ → TableNode → Option TableNode
unfolding get_subnet put_states put_state
set_entries ip n s delete consumed node = do
  subnet ← get_subnet ip consumed
  let opened = open_node node
  some (branch (state_of opened) (put_states n (subnet - subnet % n) s delete (children opened)))

-- `none` stands for a read past the address.
pub set_subnet : TableNode → List ℕ → ℕ → ℤ → State → Bool → Option (Status × TableNode)
unfolding set_path set_entries put_state
set_subnet start ip ip_len (negsuc _) s delete = some (badsubnet, start)
set_subnet start ip ip_len (pos bits) s delete =
    if ltb (32 * ip_len) bits
    then some (badsubnet, start)
    else if bits % nbits == 0
    then (do
      node ← set_path (bits / nbits) ip 0 (λ _ n. some (put_state s delete n)) start
      some (success, node))
    else do
      node ←
          set_path (bits / nbits) ip 0 (set_entries ip (2 ^ (nbits - bits % nbits)) s delete) start
      some (success, node)

pub set_subnet' : AuthTable → IpAddr → ℤ → State → Bool → Option (Status × AuthTable)
unfolding set_subnet split_ip6
set_subnet' table (inet4 ip) bits s delete = do
  (status, node) ← set_subnet table.base4 (ip ∷ []) 1 bits s delete
  some (status, record table { base4 = node })
set_subnet' table (inet6 ip) bits s delete = do
  ip6 ← split_ip6 ip
  (status, node) ← set_subnet table.base6 ip6 4 bits s delete
  some (status, record table { base6 = node })
set_subnet' table unspec (negsuc _) s delete = some (badsubnet, table)
set_subnet' table unspec (pos (suc _)) s delete = some (badsubnet, table)
set_subnet' table unspec (pos zero) s delete = do
  let ip6 = 0 ∷ 0 ∷ 0 ∷ 0 ∷ []
  (status4, node4) ← set_subnet table.base4 ip6 1 (pos 0) s delete
  elim status4 [
    | badsubnet ↦ some (badsubnet, record table { base4 = node4 })
    | success ↦ do
      (status6, node6) ← set_subnet table.base6 ip6 4 (pos 0) s delete
      some (status6, record { base4 = node4; base6 = node6 })
  ]

pub adf_allow : AuthTable → IpAddr → ℤ → Option (Status × AuthTable)
unfolding set_subnet'
adf_allow table ip bits = set_subnet' table ip bits allow false

pub adf_allow_all : AuthTable → IpAddr → ℤ → Option (Status × AuthTable)
unfolding set_subnet'
adf_allow_all table ip bits = set_subnet' table ip bits allow true

pub adf_deny : AuthTable → IpAddr → ℤ → Option (Status × AuthTable)
unfolding set_subnet'
adf_deny table ip bits = set_subnet' table ip bits deny false

pub adf_deny_all : AuthTable → IpAddr → ℤ → Option (Status × AuthTable)
unfolding set_subnet'
adf_deny_all table ip bits = set_subnet' table ip bits deny true

-- A node's own state, or the one that it inherits.
abbrev pub effective : State → State → State
effective as_parent inherited = inherited
effective deny inherited = deny
effective allow inherited = allow

-- The loop of `check_ip_in_node`, with the state decided so far.
pub check_from : TableNode → List ℕ → ℕ → State → Option State
unfolding get_subnet
check_from (leaf s) ip consumed inherited = some (effective s inherited)
check_from (branch s f) ip consumed inherited = elim (get_subnet ip consumed) [
  | none ↦ none
  | some subnet ↦ check_from (f subnet) ip (consumed + nbits) (effective s inherited)
]

-- The final switch. `AS_PARENT` is an assertion failure.
abbrev pub verdict : State → Option Bool
verdict allow = some true
verdict deny = some false
verdict as_parent = none

pub check_ip_in_node : TableNode → List ℕ → Option Bool
unfolding check_from
check_ip_in_node start ip = do state ← check_from start ip 0 deny; verdict state

pub is_allowed : AuthTable → IpAddr → Option Bool
unfolding check_ip_in_node split_ip6
is_allowed table (inet4 ip) = check_ip_in_node table.base4 (ip ∷ [])
is_allowed table (inet6 ip) = do ip6 ← split_ip6 ip; check_ip_in_node table.base6 ip6
is_allowed table unspec = some false

-- The loop of `is_any_allowed` over the `n` children from index `i`.
pub any_child : ℕ → (ℕ → Option Bool) → ℕ → Option Bool
any_child zero p i = some false
any_child (suc n) p i = elim (p i) [
  | none ↦ none
  | some true ↦ some true
  | some false ↦ any_child n p (i + 1)
]

-- `none` is a failed assertion: no state was given up to this node.
pub is_any_allowed_from : TableNode → State → Option Bool
unfolding any_child
is_any_allowed_from (leaf s) parent = verdict (effective s parent)
is_any_allowed_from (branch s f) parent = elim (effective s parent) [
  | as_parent ↦ none
  | allow ↦ any_child table_size (λ i. is_any_allowed_from (f i) allow) 0
  | deny ↦ any_child table_size (λ i. is_any_allowed_from (f i) deny) 0
]

pub data Family : Type 0 where
  family_unspec family_inet4 family_inet6 : Family

pub is_any_allowed : AuthTable → Family → Option Bool
unfolding is_any_allowed_from
is_any_allowed table family_inet4 = is_any_allowed_from table.base4 as_parent
is_any_allowed table family_inet6 = is_any_allowed_from table.base6 as_parent
is_any_allowed table family_unspec = some false
