-- ===== src/NtpSources/Probe.antt =====
-- ntp_sources.c: the probes of `find_slot`. In a table whose size is a power of two the first half
-- of the probe sequence visits different slots.
use chrony_nts.Prelude.{
  ℕ, zero, suc, ◌+◌, ◌-◌, ◌*◌, ◌/◌, ◌%◌, ◌^◌, ◌≤◌, ◌<◌, ◌≡◌, refl, ◌≢◌, ap, ◌∙◌, sym, arith, dec_le,
  ℕ_discrete, subst,
}
use Prim.Native.Nat.{◌∣◌}
use chrony_nts.Prelude.Power.{pow-add}
use native.Mathlib.Nat.{
  dvd-mul_right, mul-le-mul_right, pow-le-pow_right, mod-mod_of_dvd, mul-le-mul_left, pow-suc,
  div-add-mod, mod-lt,
}
use chrony_nts.NtpSources.{probe}

twice-triangle : (x : ℕ) → 2 * ((x + x * x) / 2) ≡ x + x * x
twice-triangle x = omega (arith, even x)
  where
    even : (x : ℕ) → (x + x * x) % 2 ≡ 0
    even zero = refl
    even (suc x) = omega (arith, even x)

-- Two numbers with the same remainder differ by a multiple.
same-mod : (a b m : ℕ) → a ≤ b → a % m ≡ b % m → (q : ℕ) × (b ≡ a + q * m)
same-mod a b m h e = elim (dec_le (a / m) (b / m)) [
  | yes p ↦ (
    b / m - a / m,
    omega (arith, div-add-mod a m, div-add-mod b m, ap (λ (t : ℕ). m * t) (quotients p)),
  )
  | no p ↦
      let low = mul-le-mul_left {m = b / m + 1} {n = a / m} m (omega arith) in
      (0, omega (arith, div-add-mod a m, div-add-mod b m, low))
]
  where
    quotients : a / m ≤ b / m → b / m ≡ a / m + (b / m - a / m)
    quotients p = omega arith

-- An odd factor does not take part in a power of two.
odd_factor : (m a b q : ℕ) → a % 2 ≡ 1 → a * b ≡ q * 2 ^ m → (r : ℕ) × (b ≡ r * 2 ^ m)
odd_factor zero a b q o e = (b, omega arith)
odd_factor (suc m) a b q o e =
    let halves : a ≡ 2 * (a / 2) + 1 = omega arith in
    let expand = ap (λ (t : ℕ). t * b) halves in
    let twice = ap (λ (t : ℕ). q * t) (pow-suc 2 m) in
    let even : b ≡ 2 * (b / 2) = omega (arith, e, expand, twice) in
    let half : a * (b / 2) ≡ q * 2 ^ m = omega (arith, e, twice, ap (λ (t : ℕ). a * t) even) in
    let (r, p) = odd_factor m a (b / 2) q o half in
    (r, omega (arith, even, p, ap (λ (t : ℕ). r * t) (pow-suc 2 m)))

abbrev pub triangle : ℕ → ℕ
triangle i = (i + i * i) / 2

no_small_multiple : (x r m : ℕ) → x ≡ r * m → 0 < x → x < m → ⊥
no_small_multiple x zero m e lo hi = omega arith
no_small_multiple x (suc r) m e lo hi = omega arith

-- The triangular numbers below a power of two are different modulo that power.
triangle-ne :
    (k i d h : ℕ)
    → i + suc d < 2 ^ k
    → (h + triangle i) % 2 ^ k ≢ (h + triangle (i + suc d)) % 2 ^ k
triangle-ne k i d h b e =
    let j = i + suc d in
    let low : h + triangle i ≤ h + triangle j = omega (arith, twice-triangle i, twice-triangle j) in
    let (q, p) = same-mod (h + triangle i) (h + triangle j) (2 ^ k) low e in
    let double = ap (λ (t : ℕ). q * t) (pow-suc 2 k) in
    let product : suc d * (j + i + 1) ≡ q * 2 ^ suc k =
      omega (arith, twice-triangle i, twice-triangle j, p, double) in
    elim (ℕ_discrete (d % 2) 0) [
      | yes even ↦
          let (r, x) = odd_factor (suc k) (suc d) (j + i + 1) q (omega arith) product in
          no_small_multiple (j + i + 1) r (2 ^ suc k) x (omega arith) (omega (arith, pow-suc 2 k))
      | no odd ↦
          let (r, x) =
            odd_factor (suc k) (j + i + 1) (suc d) q (omega arith) (omega (arith, product)) in
          no_small_multiple (suc d) r (2 ^ suc k) x (omega arith) (omega (arith, pow-suc 2 k))
    ]

pow-dvd : (k : ℕ) → k ≤ 17 → 2 ^ k ∣ 2 ^ 32
pow-dvd k h =
    let e : k + (32 - k) ≡ 32 = omega arith in
    subst (λ (t : ℕ). 2 ^ k ∣ t) (sym (pow-add 2 k (32 - k)) ∙ ap (λ (t : ℕ). 2 ^ t) e)
      (dvd-mul_right (2 ^ k) (2 ^ (32 - k)))

-- Within 2^17 slots the 32-bit arithmetic of a probe does not lose anything.
probe_lem :
    (hash i k : ℕ) → k ≤ 17 → i < 2 ^ k / 2 → probe hash i (2 ^ k) ≡ (hash + triangle i) % 2 ^ k
unfolding probe
probe_lem hash i k hk hi =
    let top : 2 ^ k ≤ 2 ^ 17 = pow-le-pow_right {n = 2} (omega arith) hk in
    let square : i * i ≤ 65535 * i = mul-le-mul_right {m = i} {n = 65535} i (omega arith) in
    let small : (i + i * i) % 2 ^ 32 ≡ i + i * i = omega arith in
    rw (small, mod-mod_of_dvd (2 ^ k) (hash + triangle i) (pow-dvd k hk))

-- A probe is a slot of the table.
pub probe-lt : (hash i size : ℕ) → 0 < size → probe hash i size < size
unfolding probe
probe-lt hash i size h = mod-lt _ h

-- The probes of one look-up visit different slots.
pub probe-ne :
    (hash i j k : ℕ) → k ≤ 17 → i < j → j < 2 ^ k / 2 → probe hash i (2 ^ k) ≢ probe hash j (2 ^ k)
probe-ne hash i j k hk lo hi e =
    let apart : j ≡ i + suc (j - i - 1) = omega arith in
    triangle-ne k i (j - i - 1) hash (omega arith)
      (rw (← apart, ← probe_lem hash i k hk (omega arith), ← probe_lem hash j k hk hi) e)
