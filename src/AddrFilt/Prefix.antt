-- ===== src/AddrFilt/Prefix.antt =====
-- addrfilt.c: the entry points for IPv4 addresses, in terms of the leading bits of an address as a
-- 32-bit number.
use chrony_nts.Prelude.{
  ℕ, zero, suc, ◌+◌, ◌-◌, ◌*◌, ◌/◌, ◌%◌, ◌^◌, ◌≤◌, ◌<◌, ◌≡◌, ◌&&◌, [], ◌∷◌, ◌==◌, arith, Bool-cases,
  inl, ap, inr, ◌∙◌,
}
use chrony_nts.Prelude.Power.{shift-add}
use chrony_nts.AddrFilt.{nbits}
use chrony_nts.AddrFilt.Bounds.{nibble}
use chrony_nts.AddrFilt.Override.{in_subnet}

-- The leading `bits` bits of a 32-bit address.
abbrev pub prefix : ℕ → ℕ → ℕ
prefix bits addr = addr / 2 ^ (32 - bits)

-- Sixteen values split by their leading bits.
split_bits :
    (rest y z : ℕ)
    → rest ≤ 4
    → (y / 2 ^ 4 == z / 2 ^ 4 && y % 16 / 2 ^ (4 - rest) == z % 16 / 2 ^ (4 - rest))
      ≡ (y / 2 ^ (4 - rest) == z / 2 ^ (4 - rest))
split_bits zero y z h = ground arith
split_bits (suc zero) y z h = ground arith
split_bits (suc (suc zero)) y z h = ground arith
split_bits (suc (suc (suc zero))) y z h = ground arith
split_bits (suc (suc (suc (suc zero)))) y z h = ground arith
split_bits (suc (suc (suc (suc (suc r))))) y z h = absurd (omega arith)

-- A prefix as a shift of the address by what is below its next group of four bits.
prefix-shift :
    (j rest a : ℕ)
    → j < 8
    → rest ≤ 4
    → prefix (j * nbits + rest) a ≡ a / 2 ^ (28 - j * nbits) / 2 ^ (4 - rest)
prefix-shift j rest a hj hr =
    let e : 32 - (j * nbits + rest) ≡ 28 - j * nbits + (4 - rest) = omega arith in rw (e, shift-add)

nibble_lem : (j a : ℕ) → j < 8 → nibble (a ∷ []) (j * nbits) ≡ a / 2 ^ (28 - j * nbits) % 16
nibble_lem j a h =
    let first : j * nbits / 32 ≡ 0 = omega arith in
    let low : 32 - nbits - j * nbits % 32 ≡ 28 - j * nbits = omega arith in rw (first, low)

-- Up to four bits more: the prefix is extended by the first bits of the next group.
prefix-step :
    (j rest a b : ℕ)
    → j < 8
    → rest ≤ 4
    → (prefix (j * nbits) a == prefix (j * nbits) b
        && nibble (a ∷ []) (j * nbits) / 2 ^ (4 - rest)
          == nibble (b ∷ []) (j * nbits) / 2 ^ (4 - rest))
      ≡ (prefix (j * nbits + rest) a == prefix (j * nbits + rest) b)
prefix-step j rest a b hj hr =
    let e : j * nbits ≡ j * nbits + 0 = omega arith in
    let pa : prefix (j * nbits) a ≡ a / 2 ^ (28 - j * nbits) / 2 ^ 4 =
      ap (λ k. prefix k a) e ∙ prefix-shift j 0 a hj (omega arith) in
    let pb : prefix (j * nbits) b ≡ b / 2 ^ (28 - j * nbits) / 2 ^ 4 =
      ap (λ k. prefix k b) e ∙ prefix-shift j 0 b hj (omega arith) in
    rw
      (
        pa,
        pb,
        nibble_lem j a hj,
        nibble_lem j b hj,
        prefix-shift j rest a hj hr,
        prefix-shift j rest b hj hr,
      )
      (split_bits rest (a / 2 ^ (28 - j * nbits)) (b / 2 ^ (28 - j * nbits)) hr)

-- The groups of four bits from group `j` on extend the prefix before them.
prefix_from :
    (levels rest j a b : ℕ)
    → j + levels ≤ 8
    → rest < nbits
    → levels * nbits + rest + j * nbits ≤ 32
    → (prefix (j * nbits) a == prefix (j * nbits) b
        && in_subnet levels rest (b ∷ []) (a ∷ []) (j * nbits))
      ≡ (prefix (j * nbits + (levels * nbits + rest)) a
          == prefix (j * nbits + (levels * nbits + rest)) b)
unfolding in_subnet
prefix_from zero rest j a b hj hr h = elim (Bool-cases (rest == 0)) [
  | inl z ↦
      let e : j * nbits + (zero * nbits + rest) ≡ j * nbits = ground arith in
      rw (e, z) (ground arith)
  | inr nz ↦
      let e : j * nbits + (zero * nbits + rest) ≡ j * nbits + rest = omega arith in
      rw (e, nz) (prefix-step j rest a b (ground arith) (omega arith))
]
prefix_from (suc levels) rest j a b hj hr h =
    let e : (j + 1) * nbits ≡ j * nbits + 4 = omega arith in
    let e' : j * nbits + 4 + (levels * nbits + rest) ≡ j * nbits + (suc levels * nbits + rest) =
      omega arith in
    let ih = rw (e, e') at (prefix_from levels rest (j + 1) a b (omega arith) hr (omega arith)) in
    let group = prefix-step j 4 a b (omega arith) (omega arith) in ground (arith, ih, group)

-- For IPv4 the subnets of the tables are those of the leading bits.
pub in_subnet-prefix :
    (bits a b : ℕ)
    → bits ≤ 32
    → a < 2 ^ 32
    → b < 2 ^ 32
    → in_subnet (bits / nbits) (bits % nbits) (b ∷ []) (a ∷ []) 0 ≡ (prefix bits a == prefix bits b)
in_subnet-prefix bits a b h ha hb =
    let e : 0 * nbits + (bits / nbits * nbits + bits % nbits) ≡ bits = omega arith in
    let walk =
      rw e at (
        prefix_from (bits / nbits) (bits % nbits) 0 a b (omega arith) (omega arith)
          (omega arith)) in
    ground (arith, walk)
