-- ===== src/Time/Laws.antt =====
-- util.c: what the arithmetic on times does to the instant that a time stands for.
use chrony_nts.Prelude.{
  refl, ◌+◌, ◌*◌, ◌<◌, ◌^◌, ◌≡◌, ◌≢◌, ◌↔◌, ◌∙◌, inl, inr, not, ◌||◌, arith, Bool-cases,
}
use chrony_nts.Prelude.Int.{
  ℤ, pos, negsuc, ◌+ℤ◌, ◌-ℤ◌, ◌*ℤ◌, ◌≤ℤ◌, pos_part, neg_part, ltb_ℤ, int_laws, eq_of_parts,
}
use chrony_nts.Time.{
  Timespec, Timeval, NtpInt64, nsec_per_sec, normalise_timespec, normalise_timeval, reduce_timeval,
  compare_timespecs, diff_timespecs, compare_ntp64, timeval_to_timespec, timespec_to_timeval, rem,
  borrow_second, quot, borrow_timeval, add_nanos, nanos, scale, diff_nanos,
}

pub micros : Timeval → ℤ
micros tv = scale 1000000 tv.tv_sec +ℤ tv.tv_usec

-- The nanoseconds count less than a second.
abbrev pub IsNormal : Timespec → Type 0
IsNormal ts = (pos 0 ≤ℤ ts.tv_nsec) × (pos_part ts.tv_nsec < nsec_per_sec)

infix 50 ◌<ℤ◌
abbrev pub ◌<ℤ◌ : ℤ → ℤ → Type 0
a <ℤ b = pos_part a + neg_part b < pos_part b + neg_part a

-- The two parts of an instant, for `omega`.
pub nanos_parts :
    (ts : Timespec)
    → pos_part (nanos ts) + nsec_per_sec * neg_part ts.tv_sec + neg_part ts.tv_nsec
      ≡ neg_part (nanos ts) + nsec_per_sec * pos_part ts.tv_sec + pos_part ts.tv_nsec
unfolding nanos ◌+ℤ◌
nanos_parts ts = ground arith

quot-rem :
    (z : ℤ)
    → pos_part z + nsec_per_sec * neg_part (quot z nsec_per_sec) + neg_part (rem z nsec_per_sec)
      ≡ neg_part z + nsec_per_sec * pos_part (quot z nsec_per_sec) + pos_part (rem z nsec_per_sec)
unfolding quot rem
quot-rem z = ground arith

rem_bounds :
    (z : ℤ)
    → (pos_part (rem z nsec_per_sec) < nsec_per_sec)
      × (neg_part (rem z nsec_per_sec) < nsec_per_sec)
unfolding rem
rem_bounds z = ground arith

borrow_second-nanos : (ts : Timespec) → nanos (borrow_second ts) ≡ nanos ts
unfolding borrow_second
borrow_second-nanos ts = elim (Bool-cases (ltb_ℤ ts.tv_nsec (pos 0))) [
  | inl e ↦ rw e (eq_of_parts _ _ (omega (int_laws, nanos_parts)))
  | inr e ↦ rw e
]

normalise_timespec-nanos : (ts : Timespec) → nanos (normalise_timespec ts) ≡ nanos ts
unfolding normalise_timespec
normalise_timespec-nanos ts =
    elim (Bool-cases (not (ltb_ℤ ts.tv_nsec (pos nsec_per_sec)) || ltb_ℤ ts.tv_nsec (pos 0))) [
      | inl e ↦
          rw (e, borrow_second-nanos _) (eq_of_parts _ _ (omega (int_laws, nanos_parts, quot-rem)))
      | inr e ↦ rw e
    ]

normalise_timespec-IsNormal : (ts : Timespec) → IsNormal (normalise_timespec ts)
unfolding normalise_timespec borrow_second ◌+ℤ◌
normalise_timespec-IsNormal ts = ground (arith, rem_bounds ts.tv_nsec)

-- Normalising changes the representation of a time only: the instant stays, and the nanoseconds
-- come to lie from 0 to less than a second, also for negative times.
pub normalise_timespec_lem :
    (ts : Timespec) → (nanos (normalise_timespec ts) ≡ nanos ts) × IsNormal (normalise_timespec ts)
normalise_timespec_lem ts = (normalise_timespec-nanos ts, normalise_timespec-IsNormal ts)

-- The difference of two times is the difference of the instants, in normal form.
pub diff_timespecs_lem :
    (a b : Timespec)
    → (nanos (diff_timespecs a b) ≡ nanos a -ℤ nanos b) × IsNormal (diff_timespecs a b)
unfolding diff_timespecs
diff_timespecs_lem a b =
    let d : Timespec = record { tv_sec = a.tv_sec -ℤ b.tv_sec; tv_nsec = a.tv_nsec -ℤ b.tv_nsec } in
    let e : nanos d ≡ nanos a -ℤ nanos b =
      eq_of_parts (nanos d) (nanos a -ℤ nanos b)
        (omega (int_laws, nanos_parts d, nanos_parts a, nanos_parts b)) in
    (normalise_timespec-nanos d ∙ e, normalise_timespec-IsNormal d)

pub nanos-add_nanos : (ts : Timespec) (d : ℤ) → nanos (add_nanos ts d) ≡ nanos ts +ℤ d
unfolding add_nanos
nanos-add_nanos ts d =
    let s : Timespec = record {
      tv_sec = ts.tv_sec +ℤ quot d nsec_per_sec;
      tv_nsec = ts.tv_nsec +ℤ rem d nsec_per_sec;
    } in
    normalise_timespec-nanos s
    ∙ eq_of_parts (nanos s) (nanos ts +ℤ d)
        (omega (int_laws, nanos_parts s, nanos_parts ts, quot-rem d))

pub add_nanos-IsNormal : (ts : Timespec) (d : ℤ) → IsNormal (add_nanos ts d)
unfolding add_nanos
add_nanos-IsNormal ts d = normalise_timespec-IsNormal (record {
  tv_sec = ts.tv_sec +ℤ quot d nsec_per_sec;
  tv_nsec = ts.tv_nsec +ℤ rem d nsec_per_sec;
})

pub diff_nanos_lem : (a b : Timespec) → diff_nanos a b ≡ nanos a -ℤ nanos b
diff_nanos_lem a b =
    let d : Timespec = record { tv_sec = a.tv_sec -ℤ b.tv_sec; tv_nsec = a.tv_nsec -ℤ b.tv_nsec } in
    let e : diff_nanos a b ≡ nanos d = unfold diff_nanos nanos in refl in
    e
    ∙ eq_of_parts (nanos d) (nanos a -ℤ nanos b)
        (omega (int_laws, nanos_parts d, nanos_parts a, nanos_parts b))

-- On normal times the comparison is the order of the instants: -1, 0 and 1 for before, same and
-- after.
pub compare_timespecs_lem :
    (a b : Timespec)
    → IsNormal a
    → IsNormal b
    → ((compare_timespecs a b ≡ negsuc 0) ↔ (nanos a <ℤ nanos b))
      × ((compare_timespecs a b ≡ pos 0) ↔ (nanos a ≡ nanos b))
      × ((compare_timespecs a b ≡ pos 1) ↔ (nanos b <ℤ nanos a))
unfolding compare_timespecs
compare_timespecs_lem a b na nb = ground (arith, nanos_parts a, nanos_parts b)

micros_parts :
    (x : Timeval)
    → pos_part (micros x) + 1000000 * neg_part x.tv_sec + neg_part x.tv_usec
      ≡ neg_part (micros x) + 1000000 * pos_part x.tv_sec + pos_part x.tv_usec
unfolding micros ◌+ℤ◌
micros_parts x = ground arith

quot-rem_micros :
    (z : ℤ)
    → pos_part z + 1000000 * neg_part (quot z 1000000) + neg_part (rem z 1000000)
      ≡ neg_part z + 1000000 * pos_part (quot z 1000000) + pos_part (rem z 1000000)
unfolding quot rem
quot-rem_micros z = ground arith

rem_bounds_micros :
    (z : ℤ) → (pos_part (rem z 1000000) < 1000000) × (neg_part (rem z 1000000) < 1000000)
unfolding rem
rem_bounds_micros z = ground arith

reduce_timeval-micros : (x : Timeval) → micros (reduce_timeval x) ≡ micros x
unfolding reduce_timeval
reduce_timeval-micros x =
    elim (Bool-cases
      (not (ltb_ℤ x.tv_usec (pos 1000000)) || not (ltb_ℤ (negsuc 999999) x.tv_usec))) [
        | inl e ↦ rw e (eq_of_parts _ _ (omega (int_laws, micros_parts, quot-rem_micros)))
        | inr e ↦ rw e
      ]

reduce_timeval_bounds :
    (x : Timeval)
    → (pos_part (reduce_timeval x).tv_usec < 1000000)
      × (neg_part (reduce_timeval x).tv_usec < 1000000)
unfolding reduce_timeval
reduce_timeval_bounds x = ground (arith, rem_bounds_micros x.tv_usec)

borrow_timeval-micros : (x : Timeval) → micros (borrow_timeval x) ≡ micros x
unfolding borrow_timeval
borrow_timeval-micros x = elim (Bool-cases (ltb_ℤ x.tv_usec (pos 0))) [
  | inl e ↦ rw e (eq_of_parts _ _ (omega (int_laws, micros_parts)))
  | inr e ↦ rw e
]

borrow_timeval_bounds :
    (x : Timeval)
    → pos_part x.tv_usec < 1000000
    → neg_part x.tv_usec < 1000000
    → (pos 0 ≤ℤ (borrow_timeval x).tv_usec) × (pos_part (borrow_timeval x).tv_usec < 1000000)
unfolding borrow_timeval ◌+ℤ◌
borrow_timeval_bounds x h k = ground arith

-- Normalising a time with microseconds keeps the instant and makes the microseconds count from 0
-- to less than a second.
pub normalise_timeval_lem :
    (x : Timeval)
    → (micros (normalise_timeval x) ≡ micros x)
      × (pos 0 ≤ℤ (normalise_timeval x).tv_usec)
      × (pos_part (normalise_timeval x).tv_usec < 1000000)
unfolding normalise_timeval
normalise_timeval_lem x =
    let (h, k) = reduce_timeval_bounds x in
    let (l, m) = borrow_timeval_bounds (reduce_timeval x) h k in
    (borrow_timeval-micros (reduce_timeval x) ∙ reduce_timeval-micros x, l, m)

-- Microseconds come back from nanoseconds.
pub timespec_to_timeval-timeval_to_timespec :
    (tv : Timeval) → timespec_to_timeval (timeval_to_timespec tv) ≡ tv
unfolding timespec_to_timeval timeval_to_timespec quot ◌*ℤ◌
timespec_to_timeval-timeval_to_timespec tv = ground arith

-- Timestamps less than 2^31 seconds apart, with fields that fit in 32 bits, compare as opposites:
-- one is before the other exactly when the other is after it, and only equal ones compare as equal.
pub compare_ntp64_antisymm :
    (a b : NtpInt64)
    → a.hi < 2 ^ 32
    → b.hi < 2 ^ 32
    → (a.hi + 2 ^ 31 ≢ b.hi)
    → (b.hi + 2 ^ 31 ≢ a.hi)
    → ((compare_ntp64 a b ≡ negsuc 0) ↔ (compare_ntp64 b a ≡ pos 1))
      × ((compare_ntp64 a b ≡ pos 0) ↔ (a ≡ b))
unfolding compare_ntp64
compare_ntp64_antisymm a b ha hb p q = ground arith
