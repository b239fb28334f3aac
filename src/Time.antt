-- ===== src/Time.antt =====
-- util.c: `struct timespec`, `struct timeval` and NTP timestamps, with the arithmetic of C on their
-- fields. A `time_t` and a `long` are unbounded integers here.
pub mod Laws
mod Tests
use chrony_nts.Prelude.{
  ℕ, suc, ◌+◌, ◌-◌, ◌*◌, ◌/◌, ◌%◌, ◌^◌, Bool, true, false, not, ◌&&◌, ◌||◌, ltb, ◌==◌,
  if◌then◌else◌, Option, none, some, List, [], ◌∷◌,
}
use chrony_nts.Prelude.Int.{ℤ, pos, negsuc, ◌+ℤ◌, ◌-ℤ◌, ◌*ℤ◌, ltb_ℤ, sub_ℕ}

pub record Timespec : Type 0 where
  pub tv_sec : ℤ
  pub tv_nsec : ℤ

pub record Timeval : Type 0 where
  pub tv_sec : ℤ
  pub tv_usec : ℤ

-- The fields in the byte order of the host.
pub record NtpInt64 : Type 0 where
  pub hi : ℕ
  pub lo : ℕ

abbrev pub nsec_per_sec : ℕ
nsec_per_sec = 1_000_000_000

-- `/` and `%` of C, which round towards zero.
unfoldable pub quot : ℤ → ℕ → ℤ
quot (pos n) d = pos (n / d)
quot (negsuc n) d = sub_ℕ 0 (suc n / d)

unfoldable pub rem : ℤ → ℕ → ℤ
rem (pos n) d = pos (n % d)
rem (negsuc n) d = sub_ℕ 0 (suc n % d)

pub zero_timespec : Timespec
zero_timespec = record { tv_sec = pos 0; tv_nsec = pos 0 }

abbrev is_zero_ℤ : ℤ → Bool
is_zero_ℤ (pos n) = n == 0
is_zero_ℤ (negsuc n) = false

pub is_zero_timespec : Timespec → Bool
is_zero_timespec ts = is_zero_ℤ ts.tv_sec && is_zero_ℤ ts.tv_nsec

pub timeval_to_timespec : Timeval → Timespec
timeval_to_timespec tv = record { tv_sec = tv.tv_sec; tv_nsec = pos 1000 *ℤ tv.tv_usec }

pub timespec_to_timeval : Timespec → Timeval
timespec_to_timeval ts = record { tv_sec = ts.tv_sec; tv_usec = quot ts.tv_nsec 1000 }

-- The inner `if` of `UTI_NormaliseTimespec`.
pub borrow_second : Timespec → Timespec
borrow_second ts =
    if ltb_ℤ ts.tv_nsec (pos 0)
    then record { tv_sec = ts.tv_sec -ℤ pos 1; tv_nsec = ts.tv_nsec +ℤ pos nsec_per_sec }
    else ts

pub normalise_timespec : Timespec → Timespec
unfolding quot rem borrow_second
normalise_timespec ts =
    if not (ltb_ℤ ts.tv_nsec (pos nsec_per_sec)) || ltb_ℤ ts.tv_nsec (pos 0)
    then borrow_second (record {
      tv_sec = ts.tv_sec +ℤ quot ts.tv_nsec nsec_per_sec;
      tv_nsec = rem ts.tv_nsec nsec_per_sec;
    })
    else ts

-- The first `if` of `UTI_NormaliseTimeval`.
pub reduce_timeval : Timeval → Timeval
unfolding quot rem
reduce_timeval x =
    if not (ltb_ℤ x.tv_usec (pos 1000000)) || not (ltb_ℤ (negsuc 999999) x.tv_usec)
    then record { tv_sec = x.tv_sec +ℤ quot x.tv_usec 1000000; tv_usec = rem x.tv_usec 1000000 }
    else x

-- The second `if`.
pub borrow_timeval : Timeval → Timeval
borrow_timeval x =
    if ltb_ℤ x.tv_usec (pos 0)
    then record { tv_sec = x.tv_sec -ℤ pos 1; tv_usec = x.tv_usec +ℤ pos 1000000 }
    else x

pub normalise_timeval : Timeval → Timeval
normalise_timeval x = borrow_timeval (reduce_timeval x)

-- -1, 0 or 1.
unfoldable pub compare_timespecs : Timespec → Timespec → ℤ
compare_timespecs a b =
    if ltb_ℤ a.tv_sec b.tv_sec
    then negsuc 0
    else if ltb_ℤ b.tv_sec a.tv_sec
    then pos 1
    else if ltb_ℤ a.tv_nsec b.tv_nsec
    then negsuc 0
    else if ltb_ℤ b.tv_nsec a.tv_nsec
    then pos 1
    else pos 0

pub diff_timespecs : Timespec → Timespec → Timespec
unfolding normalise_timespec
diff_timespecs a b =
    normalise_timespec (record { tv_sec = a.tv_sec -ℤ b.tv_sec; tv_nsec = a.tv_nsec -ℤ b.tv_nsec })

-- k times an integer.
abbrev pub scale : ℕ → ℤ → ℤ
scale k (pos n) = pos (k * n)
scale k (negsuc n) = sub_ℕ 0 (k * suc n)

-- The nanoseconds since the epoch.
unfoldable pub nanos : Timespec → ℤ
nanos ts = scale nsec_per_sec ts.tv_sec +ℤ ts.tv_nsec

-- `UTI_DiffTimespecsToDouble` and `UTI_AddDoubleToTimespec`, where the double is a whole number of
-- nanoseconds.
pub diff_nanos : Timespec → Timespec → ℤ
diff_nanos a b = scale nsec_per_sec (a.tv_sec -ℤ b.tv_sec) +ℤ (a.tv_nsec -ℤ b.tv_nsec)

pub add_nanos : Timespec → ℤ → Timespec
unfolding normalise_timespec quot rem
add_nanos start increment = normalise_timespec (record {
  tv_sec = start.tv_sec +ℤ quot increment nsec_per_sec;
  tv_nsec = start.tv_nsec +ℤ rem increment nsec_per_sec;
})

pub zero_ntp64 : NtpInt64
zero_ntp64 = record { hi = 0; lo = 0 }

pub is_zero_ntp64 : NtpInt64 → Bool
is_zero_ntp64 ts = ts.hi == 0 && ts.lo == 0

-- The sign of the seconds' difference as an `int32_t` comes before the fraction.
pub compare_ntp64 : NtpInt64 → NtpInt64 → ℤ
compare_ntp64 a b =
    let diff = (a.hi + 2 ^ 32 - b.hi) % 2 ^ 32 in
    if a.hi == b.hi && a.lo == b.lo
    then pos 0
    else if ltb diff (2 ^ 31)
    then if diff == 0 then if ltb a.lo b.lo then negsuc 0 else pos 1 else pos 1
    else negsuc 0

-- A null pointer is `none`.
pub same_ntp64 : NtpInt64 → Option NtpInt64 → Bool
same_ntp64 a none = false
same_ntp64 a (some b) = a.lo == b.lo && a.hi == b.hi

pub is_equal_any_ntp64 : NtpInt64 → Option NtpInt64 → Option NtpInt64 → Option NtpInt64 → Bool
unfolding same_ntp64
is_equal_any_ntp64 a b1 b2 b3 =
    if same_ntp64 a b1
    then true
    else if same_ntp64 a b2
    then true
    else if same_ntp64 a b3
    then true
    else false
