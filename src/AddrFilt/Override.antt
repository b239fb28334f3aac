-- ===== src/AddrFilt/Override.antt =====
-- addrfilt.c: what setting a subnet changes. An address of the subnet gets the new state, unless a
-- longer prefix of it has a state of its own and the call keeps those; all others stay as they were.
use chrony_nts.Prelude.{
  ℕ, zero, suc, ◌+◌, ◌-◌, ◌*◌, ◌/◌, ◌%◌, ◌^◌, ◌≤◌, ◌<◌, ◌≡◌, refl, ◌≢◌, inl, inr, Bool, true, false,
  not, ◌&&◌, ◌||◌, List, Option, some, ltb, leb, ◌==◌, if◌then◌else◌, length, arith, sym, subst,
  ◌∙◌, some_inj,
}
use chrony_nts.AddrFilt.{
  State, deny, allow, as_parent, TableNode, leaf, branch, nbits, state_of, children, close_node,
  put_state, put_states, update, set_path, set_entries, check_from, effective, set_subnet, pos,
  success, check_ip_in_node, verdict,
}
use chrony_nts.AddrFilt.Bounds.{
  Fits, nibble, get_subnet_lem, set_path-suc, deeper, Fits-children, set_subnet_cases, deeper_lem,
}

abbrev pub is_defined : State → Bool
is_defined as_parent = false
is_defined deny = true
is_defined allow = true

-- The address is in the subnet of `levels` groups of four bits and `rest` bits more, from bit `c` on.
unfoldable pub in_subnet : ℕ → ℕ → List ℕ → List ℕ → ℕ → Bool
in_subnet zero rest ip addr c =
    rest == 0 || nibble addr c / 2 ^ (nbits - rest) == nibble ip c / 2 ^ (nbits - rest)
in_subnet (suc levels) rest ip addr c =
    nibble addr c == nibble ip c && in_subnet levels rest ip addr (c + nbits)

-- A prefix of the address of more than `t` bits has a state of its own.
unfoldable pub more_specific : TableNode → List ℕ → ℕ → ℕ → Bool
more_specific (leaf s) addr c t = ltb t c && is_defined s
more_specific (branch s f) addr c t =
    ltb t c && is_defined s || more_specific (f (nibble addr c)) addr (c + nbits) t

-- The inherited state matters only where nothing below `t` is defined.
check_from_inherit :
    (k : ℕ) (n : TableNode) (addr : List ℕ) (c t : ℕ) (i j : State)
    → c + 4 * k ≤ 32 * length addr
    → Fits k n
    → t < c
    → check_from n addr c i ≡ (if more_specific n addr c t then check_from n addr c j else some i)
unfolding check_from more_specific
check_from_inherit k (leaf s) addr c t i j b f h = ground arith
check_from_inherit zero (branch s g) addr c t i j b f h = absurd f
check_from_inherit (suc k) (branch s g) addr c t i j b f h = ground (
  arith,
  get_subnet_lem addr c,
  check_from_inherit k (g (nibble addr c)) addr (c + nbits) t i j (omega arith) (f (nibble addr c)),
)

-- One step of the walk, whether the node was opened or not.
check_from_step :
    (n : TableNode) (addr : List ℕ) (c : ℕ) (i : State)
    → c < 32 * length addr
    → check_from n addr c i
      ≡ check_from (children n (nibble addr c)) addr (c + nbits) (effective (state_of n) i)
unfolding check_from
check_from_step (leaf s) addr c i h = refl
check_from_step (branch s g) addr c i h = ground (arith, get_subnet_lem addr c h)

more_specific_step :
    (n : TableNode) (addr : List ℕ) (c t : ℕ)
    → c ≤ t
    → more_specific n addr c t ≡ more_specific (children n (nibble addr c)) addr (c + nbits) t
unfolding more_specific
more_specific_step (leaf s) addr c t h = ground arith
more_specific_step (branch s g) addr c t h = ground arith

-- What a write at the node reached does to the look-up of an address: `inside` tells whether the
-- address is in the range written.
abbrev Sets : List ℕ → State → Bool → ℕ → Bool → ℕ → TableNode → TableNode → Type 0
Sets addr s d t inside c x y =
    (i : State)
    → check_from y addr c i
      ≡ (if inside && (d || not (more_specific x addr c t)) then some s else check_from x addr c i)

-- The new state and the old tree: what `put_state` leaves for an address below the node.
put_state_lem :
    (k : ℕ) (n : TableNode) (addr : List ℕ) (c t : ℕ) (s : State) (d : Bool)
    → c + 4 * k ≤ 32 * length addr
    → Fits k n
    → s ≢ as_parent
    → c ≤ t
    → t < c + nbits
    → Sets addr s d t true c n (put_state s d n)
unfolding put_state close_node check_from more_specific
put_state_lem k (leaf u) addr c t deny d b f ne lo hi i = ground arith
put_state_lem k (leaf u) addr c t allow d b f ne lo hi i = ground arith
put_state_lem k (leaf u) addr c t as_parent d b f ne lo hi i = absurd (ne refl)
put_state_lem zero (branch u g) addr c t s d b f ne lo hi i = absurd f
put_state_lem (suc k) (branch u g) addr c t deny d b f ne lo hi i = ground (
  arith,
  get_subnet_lem addr c,
  check_from_inherit k (g (nibble addr c)) addr (c + nbits) t deny (effective u i) (omega arith)
      (f (nibble addr c)),
)
put_state_lem (suc k) (branch u g) addr c t allow d b f ne lo hi i = ground (
  arith,
  get_subnet_lem addr c,
  check_from_inherit k (g (nibble addr c)) addr (c + nbits) t allow (effective u i) (omega arith)
      (f (nibble addr c)),
)
put_state_lem (suc k) (branch u g) addr c t as_parent d b f ne lo hi i = absurd (ne refl)

-- The loop over a range of children, as a function of the index.
put_states_lem :
    (n i : ℕ) (s : State) (d : Bool) (g : ℕ → TableNode) (j : ℕ)
    → put_states n i s d g j ≡ (if leb i j && ltb j (i + n) then put_state s d (g j) else g j)
unfolding put_states
put_states_lem zero i s d g j = ground arith
put_states_lem (suc n) i s d g j =
    ground (arith, put_states_lem n (i + 1) s d (update g i (put_state s d (g i))) j)

-- The range that the loop covers is the entries that agree with the subnet in its first bits.
range_of_rest :
    (rest x j : ℕ)
    → rest ≢ 0
    → rest < nbits
    → let n = 2 ^ (nbits - rest) in (leb (x - x % n) j && ltb j (x - x % n + n)) ≡ (j / n == x / n)
range_of_rest zero x j h q = absurd (h refl)
range_of_rest (suc zero) x j h q = ground arith
range_of_rest (suc (suc zero)) x j h q = ground arith
range_of_rest (suc (suc (suc zero))) x j h q = ground arith
range_of_rest (suc (suc (suc (suc r)))) x j h q = absurd (omega arith)

-- The last step of a subnet that ends inside a group of four bits.
set_entries_lem :
    (k rest : ℕ) (ip addr : List ℕ) (c : ℕ) (s : State) (d : Bool) (x y : TableNode)
    → rest ≢ 0
    → rest < nbits
    → c + 4 * suc k ≤ 32 * length addr
    → length ip ≡ length addr
    → Fits (suc k) x
    → s ≢ as_parent
    → set_entries ip (2 ^ (nbits - rest)) s d c x ≡ some y
    → Sets addr s d (c + nbits) (in_subnet zero rest ip addr c) c x y
unfolding set_entries in_subnet
set_entries_lem k rest ip addr c s d x y nz hr b l f ne e i = rw (← written) (
    rw
      (
        check_from_step x addr c i (omega arith),
        more_specific_step x addr c (c + nbits) (omega arith),
      )
      (rw
        (check_from_step (branch (state_of x) (put_states n (j - j % n) s d (children x))) addr c i
          (omega arith))
        (ground (
          arith,
          put_states_lem n (j - j % n) s d (children x) (nibble addr c),
          range_of_rest rest j (nibble addr c) nz hr,
          put_state_lem k (children x (nibble addr c)) addr (c + nbits) (c + nbits) s d
              (omega arith) (Fits-children k x f (nibble addr c)) ne (omega arith) (omega arith)
              (effective (state_of x) i),
        ))))
  where
    n : ℕ
    n = 2 ^ (nbits - rest)

    j : ℕ
    j = nibble ip c

    written : branch (state_of x) (put_states n (j - j % n) s d (children x)) ≡ y
    written = some_inj (rw (get_subnet_lem ip c (omega arith)) at e)

-- The whole walk, to a node at bit `stop`.
set_path_lem :
    (levels k rest t stop : ℕ) (ip addr : List ℕ) (c : ℕ) (s : State) (d : Bool)
    (last : ℕ → TableNode → Option TableNode) (n m : TableNode)
    → c + 4 * levels ≡ stop
    → stop + 4 * k ≤ 32 * length addr
    → length ip ≡ length addr
    → stop ≤ t
    → ((x y : TableNode)
        → Fits k x
        → last stop x ≡ some y
        → Sets addr s d t (in_subnet zero rest ip addr stop) stop x y)
    → Fits (deeper levels k) n
    → set_path levels ip c last n ≡ some m
    → Sets addr s d t (in_subnet levels rest ip addr c) c n m
unfolding set_path in_subnet
set_path_lem zero k rest t stop ip addr c s d last n m q b l lo step f e i =
    let q' : c ≡ stop = omega arith in rw q' (step n m f (subst (λ z. last z n ≡ some m) q' e) i)
set_path_lem (suc levels) k rest t stop ip addr c s d last n m q b l lo step f e i =
    let (j, child, p, u, v) = set_path-suc levels ip c last n e in
    let same : nibble ip c ≡ j = some_inj (sym (get_subnet_lem ip c (omega arith)) ∙ p) in
    let here = nibble addr c in
    rw (← v) (
      rw (check_from_step n addr c i (omega arith), more_specific_step n addr c t (omega arith))
        (rw
          (check_from_step (branch (state_of n) (update (children n) j child)) addr c i
            (omega arith))
          (ground (
            arith,
            same,
            set_path_lem levels k rest t stop ip addr (c + nbits) s d last (children n j) child
                (omega arith) b l lo step (Fits-children (deeper levels k) n f j) u
                (effective (state_of n) i),
          ))))

-- The bits of a subnet rounded up to whole groups of four.
abbrev pub rounded : ℕ → ℕ
rounded bits = (bits + 3) / nbits * nbits

-- A tree of enough levels for the walk and for `k` more.
Fits-split :
    (levels k total : ℕ) (n : TableNode)
    → levels + k ≡ total
    → Fits total n
    → Fits (deeper levels k) n
Fits-split levels k total n e f = subst (λ t. Fits t n) (sym (deeper_lem levels k ∙ e)) f

-- The last step where the length is a multiple of four.
last_aligned :
    (k rest stop : ℕ) (ip addr : List ℕ) (s : State) (d : Bool) (x y : TableNode)
    → rest ≡ 0
    → stop + 4 * k ≤ 32 * length addr
    → s ≢ as_parent
    → Fits k x
    → some (put_state s d x) ≡ some y
    → Sets addr s d stop (in_subnet zero rest ip addr stop) stop x y
unfolding in_subnet
last_aligned k rest stop ip addr s d x y z b ne f e i =
    let written : put_state s d x ≡ y = some_inj e in
    rw (← written)
      (rw z (put_state_lem k x addr stop stop s d b f ne (omega arith) (omega arith) i))

-- The walk of a call that succeeds, on both branches.
set_subnet_from :
    (start m : TableNode) (ip addr : List ℕ) (bits : ℕ) (s : State) (d : Bool)
    → s ≢ as_parent
    → length ip ≡ length addr
    → Fits (8 * length ip) start
    → set_subnet start ip (length ip) (pos bits) s d ≡ some (success, m)
    → Sets addr s d (rounded bits) (in_subnet (bits / nbits) (bits % nbits) ip addr 0) 0 start m
set_subnet_from start m ip addr bits s d ne l f e =
    elim (set_subnet_cases start ip (length ip) bits s d success m e) [
      | inl (_, bad, _) ↦ cc
      | inr (inl (fits, _, aligned, w)) ↦
          let k = 8 * length ip - bits / nbits in
          set_path_lem (bits / nbits) k (bits % nbits) (rounded bits) (rounded bits) ip addr 0 s d _
            start m (omega arith) (omega arith) l (omega arith)
            (λ x y h q.
              last_aligned k (bits % nbits) (rounded bits) ip addr s d x y aligned (omega arith) ne
                h q)
            (Fits-split (bits / nbits) k (8 * length ip) start (omega arith) f) w
      | inr (inr (fits, _, odd, w)) ↦
          let k = 8 * length ip - bits / nbits - 1 in
          let stop = bits / nbits * nbits in
          let up : rounded bits ≡ stop + nbits = omega arith in
          let low : bits % nbits < nbits = omega arith in
          let room : stop + 4 * suc k ≤ 32 * length addr = omega arith in
          rw up (
            set_path_lem (bits / nbits) (suc k) (bits % nbits) (stop + nbits) stop ip addr 0 s d
              (set_entries ip (2 ^ (nbits - bits % nbits)) s d) start m (omega arith) room l
              (omega arith)
              (λ x y h q.
                set_entries_lem k (bits % nbits) ip addr stop s d x y odd low room l h ne q)
              (Fits-split (bits / nbits) (suc k) (8 * length ip) start (omega arith) f) w)
    ]

-- After a subnet was set to a state, the look-up of an address answers by that state if the address
-- is in the subnet and, unless more specific subnets are deleted, no prefix longer than the
-- subnet's, rounded up to a multiple of four bits, has a state; otherwise it answers as before.
pub set_subnet_override :
    (start m : TableNode) (ip addr : List ℕ) (bits : ℕ) (s : State) (d : Bool)
    → s ≢ as_parent
    → length ip ≡ length addr
    → Fits (8 * length ip) start
    → set_subnet start ip (length ip) (pos bits) s d ≡ some (success, m)
    → check_ip_in_node m addr ≡ (
        if in_subnet (bits / nbits) (bits % nbits) ip addr 0
          && (d || not (more_specific start addr 0 (rounded bits)))
        then verdict s
        else check_ip_in_node start addr)
unfolding check_ip_in_node
set_subnet_override start m ip addr bits s d ne l f e =
    ground (arith, set_subnet_from start m ip addr bits s d ne l f e deny)
