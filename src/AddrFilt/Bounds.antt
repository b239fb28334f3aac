-- ===== src/AddrFilt/Bounds.antt =====
-- addrfilt.c: the depth of the trees, by which no read leaves the address.
use chrony_nts.Prelude.{
  ℕ, zero, suc, ◌+◌, ◌-◌, ◌*◌, ◌/◌, ◌%◌, ◌^◌, ◌≤◌, ◌<◌, ◌≡◌, refl, ap, subst, ◌≢◌, ◌⊎◌, inl, inr,
  Bool, true, false, List, [], ◌∷◌, Option, some, ◌==◌, get_elem?, get_or, length, arith,
  Bool-cases, >>=-eq-some, sym, ◌∙◌, some_inj,
}
use chrony_nts.Prelude.Int.{ℤ, pos, negsuc}
use chrony_nts.AddrFilt.{
  State, deny, allow, as_parent, TableNode, leaf, branch, Status, success, badsubnet, get_subnet,
  nbits, state_of, children, close_node, put_state, put_states, update, set_path, set_entries,
  set_subnet, check_from, check_ip_in_node, verdict, effective,
}

-- At most `k` levels below the node.
abbrev pub Fits : ℕ → TableNode → Type 0
Fits k (leaf s) = Unit {0}
Fits zero (branch s f) = ⊥
Fits (suc k) (branch s f) = (i : ℕ) → Fits k (f i)

-- The four bits at `at`, for an address that has them.
abbrev pub nibble : List ℕ → ℕ → ℕ
nibble addr at = get_or addr (at / 32) 0 / 2 ^ (32 - nbits - at % 32) % 2 ^ nbits

get_elem?-eq-get_or : (xs : List ℕ) (i : ℕ) → i < length xs → get_elem? xs i ≡ some (get_or xs i 0)
get_elem?-eq-get_or [] i h = absurd (omega arith)
get_elem?-eq-get_or (x ∷ xs) zero h = refl
get_elem?-eq-get_or (x ∷ xs) (suc i) h = get_elem?-eq-get_or xs i (omega arith)

-- Within its words an address has four bits at every position.
pub get_subnet_lem :
    (addr : List ℕ) (at : ℕ) → at < 32 * length addr → get_subnet addr at ≡ some (nibble addr at)
unfolding get_subnet
get_subnet_lem addr at h = rw (get_elem?-eq-get_or addr (at / 32) (omega arith))

effective_ne : (t s : State) → s ≢ as_parent → effective t s ≢ as_parent
effective_ne deny s h = λ e. cc
effective_ne allow s h = λ e. cc
effective_ne as_parent s h = h

-- The walk down a tree that fits ends with a state, and one that is no `as_parent` if it began so.
pub check_from_total :
    (k : ℕ) (n : TableNode) (ip : List ℕ) (c : ℕ) (s : State)
    → c + 4 * k ≤ 32 * length ip
    → Fits k n
    → s ≢ as_parent
    → (r : State) × (check_from n ip c s ≡ some r) × (r ≢ as_parent)
unfolding check_from
check_from_total k (leaf t) ip c s b f h = (effective t s, refl, effective_ne t s h)
check_from_total zero (branch t g) ip c s b f h = absurd f
check_from_total (suc k) (branch t g) ip c s b f h =
    rw (get_subnet_lem ip c (omega arith), check_from)
      (check_from_total k (g (nibble ip c)) ip (c + nbits) (effective t s) (omega arith)
        (f (nibble ip c)) (effective_ne t s h))

verdict_total : (r : State) → r ≢ as_parent → (v : Bool) × (verdict r ≡ some v)
verdict_total deny h = (false, refl)
verdict_total allow h = (true, refl)
verdict_total as_parent h = absurd (h refl)

-- In a tree that fits an address of that many words, the look-up of the address has an answer: no
-- read goes past the address, and the final `assert` does not fail.
pub check_ip_in_node_total :
    (n : TableNode) (ip : List ℕ)
    → Fits (8 * length ip) n
    → (v : Bool) × (check_ip_in_node n ip ≡ some v)
unfolding check_ip_in_node
check_ip_in_node_total n ip f =
    let (r, e, ne) = check_from_total (8 * length ip) n ip 0 deny (omega arith) f (λ e. cc) in
    rw e (verdict_total r ne)

Fits-leaf : (k : ℕ) (s : State) → Fits k (leaf s)
Fits-leaf zero s = tt
Fits-leaf (suc k) s = tt

pub Fits-children : (k : ℕ) (n : TableNode) → Fits (suc k) n → (i : ℕ) → Fits k (children n i)
Fits-children k (leaf s) f i = Fits-leaf k as_parent
Fits-children k (branch s g) f i = f i

pub Fits-put_state :
    (k : ℕ) (n : TableNode) (s : State) (d : Bool) → Fits k n → Fits k (put_state s d n)
unfolding put_state close_node
Fits-put_state k (leaf t) s true f = Fits-leaf k s
Fits-put_state k (leaf t) s false f = Fits-leaf k s
Fits-put_state k (branch t g) s true f = Fits-leaf k s
Fits-put_state zero (branch t g) s false f = f
Fits-put_state (suc k) (branch t g) s false f = f

Fits-update :
    (k i : ℕ) (n : TableNode) (g : ℕ → TableNode)
    → Fits k n
    → ((j : ℕ) → Fits k (g j))
    → (j : ℕ) → Fits k (update g i n j)
Fits-update k i n g h f j = elim (Bool-cases (j == i)) [ inl e ↦ rw e h | inr e ↦ rw e (f j) ]

Fits-put_states :
    (n i k : ℕ) (s : State) (d : Bool) (g : ℕ → TableNode)
    → ((j : ℕ) → Fits k (g j))
    → (j : ℕ) → Fits k (put_states n i s d g j)
unfolding put_states
Fits-put_states zero i k s d g f = f
Fits-put_states (suc n) i k s d g f =
    Fits-put_states n (i + 1) k s d _
      (Fits-update k i (put_state s d (g i)) g (Fits-put_state k (g i) s d (f i)) f)

-- What a round of the walk went through.
pub set_path-suc :
    (levels : ℕ) (ip : List ℕ) (c : ℕ) (last : ℕ → TableNode → Option TableNode) (n : TableNode)
    {m : TableNode}
    → set_path (suc levels) ip c last n ≡ some m
    → (i : ℕ) × (child : TableNode) × (get_subnet ip c ≡ some i)
      × (set_path levels ip (c + nbits) last (children n i) ≡ some child)
      × (branch (state_of n) (update (children n) i child) ≡ m)
unfolding set_path
set_path-suc levels ip c last n e =
    let (i, p, q) = >>=-eq-some (get_subnet ip c) _ e in
    let (child, u, v) = >>=-eq-some (set_path levels ip (c + nbits) last (children n i)) _ q in
    (i, child, p, u, ground arith)

abbrev pub deeper : ℕ → ℕ → ℕ
deeper zero k = k
deeper (suc levels) k = suc (deeper levels k)

pub deeper_lem : (levels k : ℕ) → deeper levels k ≡ levels + k
deeper_lem zero k = omega arith
deeper_lem (suc levels) k = omega (arith, deeper_lem levels k)

-- The walk to the node of a subnet keeps a tree in its depth, if the last step does.
Fits-set_path :
    (levels k : ℕ) (ip : List ℕ) (c : ℕ) (last : ℕ → TableNode → Option TableNode) (n : TableNode)
    {m : TableNode}
    → ((c' : ℕ) (x y : TableNode) → Fits k x → last c' x ≡ some y → Fits k y)
    → Fits (deeper levels k) n
    → set_path levels ip c last n ≡ some m
    → Fits (deeper levels k) m
unfolding set_path
Fits-set_path zero k ip c last n {m} keep f e = keep c n m f e
Fits-set_path (suc levels) k ip c last n {m} keep f e =
    let (i, child, p, u, v) = set_path-suc levels ip c last n e in
    rw (← v) (
      Fits-update (deeper levels k) i child (children n)
        (Fits-set_path levels k ip (c + nbits) last (children n i) keep
          (Fits-children (deeper levels k) n f i) u)
        (Fits-children (deeper levels k) n f))

Fits-set_entries :
    (k n : ℕ) (ip : List ℕ) (s : State) (d : Bool) (c : ℕ) (x y : TableNode)
    → Fits (suc k) x
    → set_entries ip n s d c x ≡ some y
    → Fits (suc k) y
unfolding set_entries
Fits-set_entries k n ip s d c x y f e =
    let (i, p, q) = >>=-eq-some (get_subnet ip c) _ e in
    subst (Fits (suc k)) (some_inj q)
      (Fits-put_states n (i - i % n) k s d (children x) (Fits-children k x f))

-- Which walk a successful call made.
pub set_subnet_cases :
    (start : TableNode) (ip : List ℕ) (ip_len b : ℕ) (s : State) (d : Bool) (r : Status)
    (m : TableNode)
    → set_subnet start ip ip_len (pos b) s d ≡ some (r, m)
    → ((32 * ip_len < b) × (r ≡ badsubnet) × (m ≡ start))
      ⊎ ((b ≤ 32 * ip_len)
          × (r ≡ success)
          × (b % nbits ≡ 0)
          × (set_path (b / nbits) ip 0 (λ _ n. some (put_state s d n)) start ≡ some m))
      ⊎ ((b ≤ 32 * ip_len)
          × (r ≡ success)
          × (b % nbits ≢ 0)
          × (set_path (b / nbits) ip 0 (set_entries ip (2 ^ (nbits - b % nbits)) s d) start
              ≡ some m))
unfolding set_subnet
set_subnet_cases start ip ip_len b s d r m e = ground arith

-- The same walk, in a tree of any depth that has as many levels.
Fits-walk :
    (levels k total : ℕ) (ip : List ℕ) (last : ℕ → TableNode → Option TableNode) (n m : TableNode)
    → levels + k ≡ total
    → ((c' : ℕ) (x y : TableNode) → Fits k x → last c' x ≡ some y → Fits k y)
    → Fits total n
    → set_path levels ip 0 last n ≡ some m
    → Fits total m
Fits-walk levels k total ip last n m e keep f w =
    let q : deeper levels k ≡ total = deeper_lem levels k ∙ e in
    subst (λ t. Fits t m) q
      (Fits-set_path levels k ip 0 last n keep (subst (λ t. Fits t n) (sym q) f) w)

-- Setting a subnet of an address of `ip_len` words keeps the tree within the depth of the address,
-- on every branch.
pub Fits-set_subnet :
    (start : TableNode) (ip : List ℕ) (ip_len : ℕ) (bits : ℤ) (s : State) (d : Bool) (r : Status)
    (m : TableNode)
    → Fits (8 * ip_len) start
    → set_subnet start ip ip_len bits s d ≡ some (r, m)
    → Fits (8 * ip_len) m
unfolding set_subnet
Fits-set_subnet start ip ip_len (negsuc b) s d r m f e =
    subst (Fits (8 * ip_len)) (ap (λ (p : Status × TableNode). p.1) (some_inj e)) f
Fits-set_subnet start ip ip_len (pos b) s d r m f e =
    elim (set_subnet_cases start ip ip_len b s d r m e) [
      | inl (_, _, same) ↦ subst (Fits (8 * ip_len)) (sym same) f
      | inr (inl (fits, _, aligned, w)) ↦
          Fits-walk (b / nbits) (8 * ip_len - b / nbits) (8 * ip_len) ip _ start m (omega arith)
            (λ c' x y h q. subst (Fits _) (some_inj q) (Fits-put_state _ x s d h)) f w
      | inr (inr (fits, _, odd, w)) ↦
          Fits-walk (b / nbits) (suc (8 * ip_len - b / nbits - 1)) (8 * ip_len) ip _ start m
            (omega arith)
            (λ c' x y h q.
              Fits-set_entries (8 * ip_len - b / nbits - 1) (2 ^ (nbits - b % nbits)) ip s d c' x y
                h q)
            f w
    ]
