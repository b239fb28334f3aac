-- ===== src/Time/Tests.antt =====
-- util.c: the arithmetic on times at concrete values.
use chrony_nts.Prelude.{◌≡◌, ◌↔◌, refl, arith}
use chrony_nts.Prelude.Int.{pos, negsuc, ◌+ℤ◌, ◌-ℤ◌}
use chrony_nts.Time.{Timespec, Timeval, normalise_timespec, compare_timespecs, nanos}
use chrony_nts.Time.Laws.{◌<ℤ◌, compare_timespecs_lem}

-- 1.5 s before the epoch, with the nanoseconds negative.
abbrev early : Timespec
early = record { tv_sec = pos 0; tv_nsec = negsuc 1_499_999_999 }

abbrev one : Timespec
one = record { tv_sec = pos 1; tv_nsec = pos 0 }

abbrev late : Timespec
late = record { tv_sec = pos 1; tv_nsec = pos 5 }

abbrev odd : Timeval
odd = record { tv_sec = pos 7; tv_usec = negsuc 2_500_000 }

normalise_early : normalise_timespec early ≡ record { tv_sec = negsuc 1; tv_nsec = pos 500_000_000 }
unfolding normalise_timespec ◌+ℤ◌ ◌-ℤ◌
normalise_early = refl

compare_timespecs_lem_example :
    ((compare_timespecs one late ≡ negsuc 0) ↔ (nanos one <ℤ nanos late))
    × ((compare_timespecs one late ≡ pos 0) ↔ (nanos one ≡ nanos late))
    × ((compare_timespecs one late ≡ pos 1) ↔ (nanos late <ℤ nanos one))
compare_timespecs_lem_example = compare_timespecs_lem one late (omega arith) (omega arith)
