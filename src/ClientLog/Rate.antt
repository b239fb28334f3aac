-- ===== src/ClientLog/Rate.antt =====
-- clientlog.c: the update of a client's tokens and of its request rate.
use native.Mathlib.Nat.{div-le_self}
use chrony_nts.Prelude.{
  ℕ, zero, suc, ◌+◌, ◌-◌, ◌*◌, ◌/◌, ◌%◌, ◌^◌, ◌≤◌, ◌<◌, ◌≡◌, ◌⊎◌, inl, inr, refl, min, false, not,
  ◌&&◌, ◌||◌, arith, Bool-cases, leb, tests, ◌==◌,
}
use chrony_nts.Prelude.Int.{ℤ, pos, negsuc, ◌+ℤ◌, ◌-ℤ◌, ◌≤ℤ◌, ltb_ℤ, int_laws, neg_part, pos_part}
use chrony_nts.Prelude.Power.{shift-add, pow-pos}
use chrony_nts.Time.{quot}
use chrony_nts.ClientLog.{
  Hits, log_interval, scaled_interval, update_rate, update_record, invalid_rate, invalid_ts,
}

abbrev pub IsBetween : ℤ → ℤ → ℤ → Type 0
IsBetween lo x hi = (lo ≤ℤ x) × (x ≤ℤ hi)

-- No rate yet, or one from -56 to 20.
abbrev pub IsRate : ℤ → Type 0
IsRate r = (r ≡ invalid_rate) ⊎ IsBetween (negsuc 55) r (pos 20)

log_interval_bounds :
    (rounds interval : ℕ) (i : ℤ)
    → IsBetween i (log_interval rounds interval i) (i +ℤ pos (4 * rounds))
unfolding log_interval
log_interval_bounds zero interval i = (omega arith, omega int_laws)
log_interval_bounds (suc rounds) interval i = elim (Bool-cases (leb interval 1)) [
  | inl e ↦ rw e (omega arith, omega int_laws)
  | inr e ↦
      let (a, b) = log_interval_bounds rounds (interval / 2) (i +ℤ pos 4) in
      rw e (omega int_laws, omega int_laws)
]

scaled_interval_bounds : (interval : ℕ) → IsBetween (negsuc 19) (scaled_interval interval) (pos 56)
unfolding scaled_interval
scaled_interval_bounds interval = elim (Bool-cases (interval == 0)) [
  | inl e ↦ rw e (omega arith, omega arith)
  | inr e ↦
      let (a, b) = log_interval_bounds 18 ((interval + interval / 2) % 2 ^ 32) (negsuc 15) in
      rw e (omega int_laws, omega int_laws)
]

-- Twice the half is the number, but for one.
half :
    (z : ℤ)
    → (2 * pos_part (quot z 2) + neg_part z ≤ pos_part z + 2 * neg_part (quot z 2) + 1)
      × (pos_part z + 2 * neg_part (quot z 2) ≤ 2 * pos_part (quot z 2) + neg_part z + 1)
unfolding quot
half z = ground arith

update_rate-IsRate :
    (r i : ℤ) → IsRate r → IsBetween (negsuc 19) i (pos 56) → IsRate (update_rate r i)
unfolding update_rate
update_rate-IsRate r i (inl e) k = rw e (inr (omega int_laws, omega int_laws))
update_rate-IsRate r i (inr b) k =
    let target = pos 0 -ℤ i in
    let valid : (not (ltb_ℤ r invalid_rate) && not (ltb_ℤ invalid_rate r)) ≡ false = ground arith in
    rw valid (
      inr (elim (Bool-cases (ltb_ℤ r target)) [
        | inl l ↦ rw l (omega (int_laws, tests), omega (int_laws, tests))
        | inr l ↦ rw l (elim (Bool-cases (ltb_ℤ target r)) [
          | inl m ↦ rw m (elim (Bool-cases (ltb_ℤ (pos 10 -ℤ i) r)) [
            | inl n ↦ rw n (omega (int_laws, tests), omega (int_laws, tests))
            | inr n ↦
                let (x, y) = half (r -ℤ i -ℤ pos 1) in
                rw n (omega (int_laws, tests, x, y), omega (int_laws, tests, x, y))
          ])
          | inr m ↦ rw m b
        ])
      ]))

-- A hit is recorded with its time, the number of hits goes up (in 32 bits), the tokens stay within
-- the capacity and the rate stays unknown or from -56 to 20, so that both fit their fields.
pub update_record_lem :
    (now_ts max_tokens : ℕ) (token_shift : ℤ) (h : Hits)
    → h.tokens ≤ max_tokens
    → IsRate h.rate
    → let u = update_record now_ts max_tokens token_shift h in
      (u.last_hit ≡ now_ts)
      × (u.hits ≡ (h.hits + 1) % 2 ^ 32)
      × (u.tokens ≤ max_tokens)
      × IsRate u.rate
unfolding update_record
update_record_lem now_ts max_tokens token_shift h t r =
    let interval = (now_ts + 2 ^ 32 - h.last_hit) % 2 ^ 32 in
    elim (Bool-cases (h.last_hit == invalid_ts || leb (2 ^ 31) interval)) [
      | inl e ↦ rw e (refl, refl, t, r)
      | inr e ↦ rw e (
        refl,
        refl,
        omega arith,
        update_rate-IsRate h.rate (scaled_interval interval) r (scaled_interval_bounds interval),
      )
    ]

-- The tokens that a shift leaves of a time, at most half of it unless the shift is 0.
gained-lt :
    (now_ts prev s : ℕ)
    → prev ≤ now_ts
    → now_ts < 2 ^ 32
    → now_ts - prev < 2 ^ 31
    → now_ts / 2 ^ s - prev / 2 ^ s < 2 ^ 31 + 1
gained-lt now_ts prev zero le lt d = omega arith
gained-lt now_ts prev (suc s) le lt d =
    let e : suc s ≡ 1 + s = omega arith in
    rw (e, shift-add now_ts 1 s) (omega (arith, div-le_self (now_ts / 2 ^ 1) (2 ^ s)))

div_mono : (a b d : ℕ) → 0 < d → a ≤ b → a / d ≤ b / d
div_mono a b d p h = grind arith

-- Between two hits the bucket gains one token for each unit of 2^s ticks that begins in between, up
-- to its capacity, where s is the shift. Conditions: there was a hit before, less than 2^31 ticks
-- ago and in the same era; tokens and capacity fit in 16 bits.
pub update_record_tokens :
    (now_ts max_tokens s : ℕ) (h : Hits)
    → 0 < h.last_hit
    → h.last_hit ≤ now_ts
    → now_ts < 2 ^ 32
    → now_ts - h.last_hit < 2 ^ 31
    → h.tokens ≤ max_tokens
    → max_tokens < 2 ^ 16
    → (update_record now_ts max_tokens (pos s) h).tokens
      ≡ min (h.tokens + (now_ts / 2 ^ s - h.last_hit / 2 ^ s)) max_tokens
unfolding update_record
update_record_tokens now_ts max_tokens s h z le lt d t m =
    let unit = div_mono h.last_hit now_ts (2 ^ s) (pow-pos s) le in
    let some_gain = gained-lt now_ts h.last_hit s le lt d in
    let counts : (h.last_hit == invalid_ts
          || leb (2 ^ 31) ((now_ts + 2 ^ 32 - h.last_hit) % 2 ^ 32))
        ≡ false =
      ground arith in
    rw counts (omega (arith, unit, some_gain))
