-- ===== src/AddrFilt/Rules.antt =====
-- addrfilt.c: the public functions on a table: its invariant, and what each rule changes.
use chrony_nts.Prelude.{
  ℕ, zero, suc, ◌+◌, ◌-◌, ◌*◌, ◌/◌, ◌%◌, ◌^◌, ◌≤◌, ◌<◌, ◌≡◌, refl, ◌≢◌, Bool, false, not, ◌&&◌,
  ◌||◌, List, [], ◌∷◌, Option, some, ◌==◌, if◌then◌else◌, length, arith, Bool-cases, sym, subst,
  >>=-eq-some, ap, ◌∙◌, inl, inr, ◌⊎◌, dec_lt, some_inj,
}
use chrony_nts.Prelude.Int.{ℤ, pos, negsuc}
use chrony_nts.Addressing.{IpAddr, inet4, inet6, unspec}
use chrony_nts.AddrFilt.{
  State, as_parent, AuthTable, Status, success, badsubnet, nbits, set_subnet, set_subnet',
  create_table, is_allowed, split_ip6, verdict, state_of, check_ip_in_node, put_state, set_path,
  check_from, TableNode, children, set_entries, branch, update,
}
use chrony_nts.AddrFilt.Bounds.{
  Fits, Fits-set_subnet, check_ip_in_node_total, Fits-put_state, nibble, get_subnet_lem,
}
use chrony_nts.AddrFilt.Override.{set_subnet_override, more_specific, rounded}
use chrony_nts.AddrFilt.Prefix.{prefix, in_subnet-prefix}

-- The trees are no deeper than the addresses of their family are long.
pub record IsValid (t : AuthTable) : Type 0 where
  pub fits4 : Fits 8 t.base4
  pub fits6 : Fits 32 t.base6

create_table-IsValid : IsValid create_table
unfolding create_table
create_table-IsValid = record { fits4 = tt; fits6 = tt }

-- What a call for an IPv4 address did.
inet4_cases :
    (t u : AuthTable) (ip : ℕ) (bits : ℤ) (s : State) (d : Bool) (r : Status)
    → set_subnet' t (inet4 ip) bits s d ≡ some (r, u)
    → (set_subnet t.base4 (ip ∷ []) 1 bits s d ≡ some (r, u.base4)) × (u.base6 ≡ t.base6)
unfolding set_subnet'
inet4_cases t u ip bits s d r e =
    let ((r', n), p, q) = >>=-eq-some (set_subnet t.base4 (ip ∷ []) 1 bits s d) _ e in ground arith

inet6_cases :
    (t u : AuthTable) (ip : List ℕ) (bits : ℤ) (s : State) (d : Bool) (r : Status)
    → set_subnet' t (inet6 ip) bits s d ≡ some (r, u)
    → (ip6 : List ℕ) × (split_ip6 ip ≡ some ip6)
      × (set_subnet t.base6 ip6 4 bits s d ≡ some (r, u.base6))
      × (u.base4 ≡ t.base4)
unfolding set_subnet'
inet6_cases t u ip bits s d r e =
    let (ip6, p, q) = >>=-eq-some (split_ip6 ip) _ e in
    let (a, p', q') = >>=-eq-some (set_subnet t.base6 ip6 4 bits s d) _ q in
    (ip6, p, ground arith, ground arith)

-- A rule for no address family and of length 0 is set at the roots of both trees.
pub unspec_zero :
    (t : AuthTable) (s : State) (d : Bool)
    → set_subnet' t unspec (pos 0) s d
      ≡ some (success, record { base4 = put_state s d t.base4; base6 = put_state s d t.base6 })
unfolding set_subnet'
unspec_zero t s d = refl

-- Every call that sets a rule keeps the depth of both trees, whatever its address, length, state
-- and result.
pub set_subnet'-IsValid :
    (t u : AuthTable) (ip : IpAddr) (bits : ℤ) (s : State) (d : Bool) (r : Status)
    → IsValid t
    → set_subnet' t ip bits s d ≡ some (r, u)
    → IsValid u
unfolding set_subnet'
set_subnet'-IsValid t u (inet4 ip) bits s d r v e =
    let (p, q) = inet4_cases t u ip bits s d r e in
    record {
      fits4 = Fits-set_subnet t.base4 (ip ∷ []) 1 bits s d r u.base4 v.fits4 p;
      fits6 = rw q v.fits6;
    }
set_subnet'-IsValid t u (inet6 ip) bits s d r v e =
    let (ip6, _, p, q) = inet6_cases t u ip bits s d r e in
    record {
      fits4 = rw q v.fits4;
      fits6 = Fits-set_subnet t.base6 ip6 4 bits s d r u.base6 v.fits6 p;
    }
set_subnet'-IsValid t u unspec (negsuc b) s d r v e = subst IsValid (ground arith) v
set_subnet'-IsValid t u unspec (pos (suc b)) s d r v e = subst IsValid (ground arith) v
set_subnet'-IsValid t u unspec (pos zero) s d r v e =
    subst IsValid (ap (λ (p : Status × AuthTable). p.1) (some_inj (sym (unspec_zero t s d) ∙ e)))
      (record {
        fits4 = Fits-put_state 8 t.base4 s d v.fits4;
        fits6 = Fits-put_state 32 t.base6 s d v.fits6;
      })

-- An IPv4 rule sets the state of the addresses that share its leading bits, but for those that have
-- a more specific rule which the call keeps; it changes nothing else in the table.
pub set_subnet'-inet4 :
    (t u : AuthTable) (ip addr bits : ℕ) (s : State) (d : Bool)
    → IsValid t
    → s ≢ as_parent
    → ip < 2 ^ 32
    → addr < 2 ^ 32
    → bits ≤ 32
    → set_subnet' t (inet4 ip) (pos bits) s d ≡ some (success, u)
    → (is_allowed u (inet4 addr) ≡ (
        if prefix bits addr == prefix bits ip
          && (d || not (more_specific t.base4 (addr ∷ []) 0 (rounded bits)))
        then verdict s
        else is_allowed t (inet4 addr)))
      × (u.base6 ≡ t.base6)
unfolding set_subnet' is_allowed
set_subnet'-inet4 t u ip addr bits s d v ne hi ha hb e =
    let (p, q) = inet4_cases t u ip (pos bits) s d success e in
    (
      rw (← in_subnet-prefix bits addr ip hb ha hi)
          (set_subnet_override t.base4 u.base4 (ip ∷ []) (addr ∷ []) bits s d ne refl v.fits4 p),
      q,
    )

-- A table just created denies every IPv4 address.
create_table_denies : (addr : ℕ) → is_allowed create_table (inet4 addr) ≡ some false
unfolding is_allowed create_table check_ip_in_node check_from
create_table_denies addr = refl

-- In a valid table the look-up of an IPv4 address has an answer.
pub is_allowed_total :
    (t : AuthTable) (addr : ℕ) → IsValid t → (v : Bool) × (is_allowed t (inet4 addr) ≡ some v)
unfolding is_allowed
is_allowed_total t addr v = check_ip_in_node_total t.base4 (addr ∷ []) v.fits4

-- The walk ends where the address has as many groups of four bits, if the last step does.
set_path_total :
    (levels : ℕ) (ip : List ℕ) (c stop : ℕ) (last : ℕ → TableNode → Option TableNode)
    (n : TableNode)
    → c + 4 * levels ≡ stop
    → stop ≤ 32 * length ip
    → ((x : TableNode) → (y : TableNode) × (last stop x ≡ some y))
    → (m : TableNode) × (set_path levels ip c last n ≡ some m)
unfolding set_path
set_path_total zero ip c stop last n e b step = let e' : c ≡ stop = omega arith in rw e' (step n)
set_path_total (suc levels) ip c stop last n e b step =
    let (child, p) =
      set_path_total levels ip (c + nbits) stop last (children n (nibble ip c)) (omega arith) b
        step in
    (
      branch (state_of n) (update (children n) (nibble ip c) child),
      ground (arith, get_subnet_lem ip c),
    )

set_entries_total :
    (ip : List ℕ) (n : ℕ) (s : State) (d : Bool) (c : ℕ) (x : TableNode)
    → c < 32 * length ip
    → (y : TableNode) × (set_entries ip n s d c x ≡ some y)
unfolding set_entries
set_entries_total ip n s d c x h = rw (get_subnet_lem ip c h) (_, refl)

set_subnet_in_range :
    (n : TableNode) (ip : List ℕ) (bits : ℕ) (s : State) (d : Bool)
    → bits ≤ 32 * length ip
    → (m : TableNode) × (set_subnet n ip (length ip) (pos bits) s d ≡ some (success, m))
unfolding set_subnet
set_subnet_in_range n ip bits s d h = elim (Bool-cases (bits % nbits == 0)) [
  | inl aligned ↦
      let (m, p) =
        set_path_total (bits / nbits) ip 0 (bits / nbits * 4) (λ _ x. some (put_state s d x)) n
          (omega arith) (omega arith) (λ x. (put_state s d x, refl)) in
      (m, ground arith)
  | inr odd ↦
      let inside : bits / nbits * 4 < 32 * length ip = ground arith in
      let (m, p) =
        set_path_total (bits / nbits) ip 0 (bits / nbits * 4)
          (set_entries ip (2 ^ (nbits - bits % nbits)) s d) n (omega arith) (omega arith)
          (λ x.
            set_entries_total ip (2 ^ (nbits - bits % nbits)) s d (bits / nbits * 4) x inside) in
      (m, ground arith)
]

-- On a whole address the call always returns: it succeeds if the length of the subnet is at most
-- that of the address, and otherwise reports a bad subnet and leaves the tree as it was.
pub set_subnet_status :
    (n : TableNode) (ip : List ℕ) (bits : ℕ) (s : State) (d : Bool)
    → ((bits ≤ 32 * length ip)
        × ((m : TableNode) × (set_subnet n ip (length ip) (pos bits) s d ≡ some (success, m))))
      ⊎ ((32 * length ip < bits)
          × (set_subnet n ip (length ip) (pos bits) s d ≡ some (badsubnet, n)))
unfolding set_subnet
set_subnet_status n ip bits s d = elim (dec_lt (32 * length ip) bits) [
  | yes h ↦ inr (h, ground arith)
  | no h ↦ inl (omega arith, set_subnet_in_range n ip bits s d (omega arith))
]
