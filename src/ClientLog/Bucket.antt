-- ===== src/ClientLog/Bucket.antt =====
-- clientlog.c: the parameters of a token bucket fit in their 16 bits.
use chrony_nts.Prelude.{
  ℕ, zero, suc, ◌+◌, ◌-◌, ◌*◌, ◌%◌, ◌^◌, ◌≤◌, ◌<◌, ◌≡◌, inl, inr, refl, max, arith, Bool-cases, ltb,
  subst, sym,
}
use chrony_nts.Prelude.Int.{ℤ, pos, negsuc, ◌+ℤ◌, neg_part}
use native.Mathlib.Nat.{mod-eq_of_lt, mul_comm}
use chrony_nts.Prelude.Power.{pow-add, pow-pos}
use chrony_nts.ClientLog.{
  find_shift, BucketParams, bucket_params, set_bucket_params, clamp_ℤ, clamp_burst,
}

-- The loop stops at a shift with which the number of tokens fits.
find_shift_lem :
    (rest shift burst : ℕ)
    → burst ≤ 255
    → (j : ℕ) × (find_shift rest shift burst + j ≡ shift + rest) × (burst * 2 ^ j < 2 ^ 16)
unfolding find_shift
find_shift_lem zero shift burst h = (0, omega arith, omega arith)
find_shift_lem (suc rest) shift burst h = elim (Bool-cases (ltb (burst * 2 ^ suc rest) (2 ^ 16))) [
  | inl e ↦ (suc rest, rw e refl, ground arith)
  | inr e ↦
      let (j, s, lt) = find_shift_lem rest (shift + 1) burst h in (j, rw e (omega (arith, s)), lt)
]

-- The bucket holds the burst, counted in packets, and a packet takes the tokens of one interval.
abbrev pub Holds : ℤ → ℕ → BucketParams → Type 0
Holds (pos k) burst p =
    (j : ℕ) × (s : ℕ) × (p.token_shift ≡ pos s)
    × (s + j ≡ k)
    × (p.tokens_per_packet ≡ 2 ^ j)
    × (p.max_tokens ≡ burst * 2 ^ j)
Holds (negsuc k) burst p =
    (p.token_shift ≡ negsuc k) × (p.tokens_per_packet ≡ 1) × (p.max_tokens ≡ max (2 ^ suc k) burst)

pow-lt-16 : (k : ℕ) → k ≤ 14 → 2 ^ suc k < 2 ^ 16
pow-lt-16 k h =
    let e : 14 - k + suc k ≡ 15 = omega arith in
    let p = sym (pow-add 2 (14 - k) (suc k)) in
    grind (arith, pow-pos (14 - k), subst (λ (n : ℕ). 2 ^ (14 - k) * 2 ^ suc k ≡ 2 ^ n) e p)

fits : (burst x : ℕ) → 0 < burst → burst * x < 2 ^ 16 → x < 2 ^ 16
fits zero x h l = absurd (omega arith)
fits (suc burst) x h l = grind arith

stored :
    (burst x : ℕ)
    → x < 2 ^ 16
    → burst * x < 2 ^ 16
    → (x % 2 ^ 16 ≡ x) × (x % 2 ^ 16 * burst % 2 ^ 16 ≡ burst * x)
stored burst x h l =
    let a : x % 2 ^ 16 ≡ x = omega arith in (a, rw a (rw (mul_comm x burst) (mod-eq_of_lt l)))

bucket_params-Holds :
    (k : ℤ) (burst : ℕ)
    → neg_part k ≤ 15
    → 0 < burst
    → burst ≤ 255
    → Holds k burst (bucket_params k burst) × ((bucket_params k burst).max_tokens < 2 ^ 16)
unfolding bucket_params
bucket_params-Holds (pos k) burst n h l =
    let (j, s, lt) = find_shift_lem k 0 burst l in
    let e : k - find_shift k 0 burst ≡ j = omega (arith, s) in
    let (t, m) = stored burst (2 ^ j) (fits burst (2 ^ j) h lt) lt in
    rw e (
      (j, find_shift k 0 burst, refl, omega (arith, s), t, m),
      subst (λ (n : ℕ). n < 2 ^ 16) (sym m) lt,
    )
bucket_params-Holds (negsuc k) burst n h l =
    let small = pow-lt-16 k (omega arith) in ((refl, refl, omega (arith, small)), omega arith)

clamped : (interval : ℤ) → neg_part (clamp_ℤ (negsuc 18) interval (pos 12) +ℤ pos 4) ≤ 15
unfolding ◌+ℤ◌
clamped interval = ground arith

-- Whatever interval and burst are configured, the tokens per packet and the capacity of the bucket
-- are stored without overflow of their 16 bits: with i = 4 + the interval (clamped to -19..12) and
-- the burst clamped to 1..255, a packet takes 2^j tokens and the shift is s with s + j = i, and the
-- bucket holds the burst in packets; or, for a negative i, a packet takes one token and the bucket
-- holds the larger of the burst and 2^-i.
pub set_bucket_params_lem :
    (interval : ℤ) (burst : ℕ)
    → Holds
        (clamp_ℤ (negsuc 18) interval (pos 12) +ℤ pos 4)
        (clamp_burst burst)
        (set_bucket_params interval burst)
      × ((set_bucket_params interval burst).max_tokens < 2 ^ 16)
unfolding set_bucket_params
set_bucket_params_lem interval burst =
    bucket_params-Holds (clamp_ℤ (negsuc 18) interval (pos 12) +ℤ pos 4) (clamp_burst burst)
      (clamped interval) (omega arith) (omega arith)
