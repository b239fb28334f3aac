-- ===== src/AddrFilt/Any.antt =====
-- addrfilt.c: the test whether any address of a family is allowed.
use chrony_nts.Prelude.{
  ℕ, zero, suc, ◌+◌, ◌*◌, ◌≤◌, ◌<◌, ◌≡◌, Bool, false, List, [], ◌∷◌, Option, some, length, arith,
}
use chrony_nts.Addressing.{inet4}
use chrony_nts.AddrFilt.{
  State, deny, allow, as_parent, TableNode, leaf, branch, nbits, check_from, check_ip_in_node,
  any_child, is_any_allowed_from, is_any_allowed, table_size, is_allowed, AuthTable, family_inet4,
}
use chrony_nts.AddrFilt.Rules.{IsValid}
use chrony_nts.AddrFilt.Bounds.{Fits, nibble, get_subnet_lem}

-- A loop that found nothing found nothing at any index in its range.
any_child_none :
    (n i j : ℕ) (p : ℕ → Option Bool)
    → any_child n p i ≡ some false
    → i ≤ j
    → j < i + n
    → p j ≡ some false
unfolding any_child
any_child_none zero i j p e h k = absurd (omega arith)
any_child_none (suc n) i j p e h k = ground (arith, any_child_none n (i + 1) j p)

-- If no address below a node is allowed, then each address that reaches the node is denied there.
none_allowed :
    (k : ℕ) (n : TableNode) (addr : List ℕ) (c : ℕ) (s : State)
    → c + 4 * k ≤ 32 * length addr
    → Fits k n
    → is_any_allowed_from n s ≡ some false
    → check_from n addr c s ≡ some deny
unfolding is_any_allowed_from check_from
none_allowed k (leaf t) addr c s b f e = ground arith
none_allowed zero (branch t g) addr c s b f e = absurd f
none_allowed (suc k) (branch t g) addr c s b f e =
    let x = nibble addr c in
    ground (
      arith,
      get_subnet_lem addr c,
      any_child_none table_size 0 x (λ i. is_any_allowed_from (g i) allow),
      any_child_none table_size 0 x (λ i. is_any_allowed_from (g i) deny),
      none_allowed k (g x) addr (c + nbits) allow (omega arith) (f x),
      none_allowed k (g x) addr (c + nbits) deny (omega arith) (f x),
    )

-- The root has a state of its own, or the assertion of the call fails.
from_root :
    (n : TableNode)
    → is_any_allowed_from n as_parent ≡ some false
    → is_any_allowed_from n deny ≡ some false
unfolding is_any_allowed_from
from_root (leaf t) e = ground arith
from_root (branch t g) e = ground arith

-- When no IPv4 address is said to be allowed, every IPv4 address is denied.
pub none_allowed_lem :
    (t : AuthTable) (addr : ℕ)
    → IsValid t
    → is_any_allowed t family_inet4 ≡ some false
    → is_allowed t (inet4 addr) ≡ some false
unfolding is_any_allowed is_allowed check_ip_in_node
none_allowed_lem t addr v e =
    rw (none_allowed 8 t.base4 (addr ∷ []) 0 deny (omega arith) v.fits4 (from_root t.base4 e))
