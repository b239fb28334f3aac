-- ===== src/ClientLog/Response.antt =====
-- clientlog.c: the decisions on responses, for a client's record at an index.
use chrony_nts.Prelude.{
  ℕ, ◌+◌, ◌-◌, ◌/◌, ◌%◌, ◌^◌, Bool, true, false, not, ◌&&◌, ◌||◌, Option, some, ltb, leb, ◌==◌,
  if◌then◌else◌, ◌>>=◌, get_elem?,
}
use chrony_nts.Prelude.Int.{pos, ◌+ℤ◌, ltb_ℤ}
use chrony_nts.ClientLog.{Record, RandomBits, Log, invalid_rate, put_record}

-- The decision, true for a drop, with 32 new bits where those left are too few.
unfoldable pub limit_response_random : ℕ → ℕ → RandomBits → Bool × RandomBits
limit_response_random fresh leak_rate r =
    let s : RandomBits =
      if ltb r.bits_left leak_rate then record { rnd = fresh; bits_left = 32 } else r in
    (
      not (s.rnd % 2 ^ leak_rate == 0),
      record { rnd = s.rnd / 2 ^ leak_rate; bits_left = s.bits_left - leak_rate },
    )

-- The rate of timed out requests is more than twice that of the others.
abbrev pub gives_up : Record → Bool
gives_up r =
    (ltb_ℤ r.ntp_timeout_rate invalid_rate || ltb_ℤ invalid_rate r.ntp_timeout_rate)
    && ltb_ℤ (r.ntp_rate +ℤ pos 4) r.ntp_timeout_rate

-- True for a drop. `none` is a failed assertion.
unfoldable pub limit_ntp_response_rate : ℕ → Log → ℕ → Option (Bool × Log)
limit_ntp_response_rate fresh l index = if l.ntp_tokens_per_packet == 0 then some (false, l) else do
  r ← get_elem? l.records index
  if leb l.ntp_tokens_per_packet r.ntp_tokens
      then some (
        false,
        put_record l index
            (record r { ntp_dropped = false; ntp_tokens = r.ntp_tokens - l.ntp_tokens_per_packet }),
      )
      else let (random_drop, bits) = limit_response_random fresh l.ntp_leak_rate l.random_bits in
        let m = record l { random_bits = bits } in
        if (if gives_up r then not random_drop else random_drop)
        then some (
          true,
          put_record (record m { total_ntp_drops = (l.total_ntp_drops + 1) % 2 ^ 32 }) index
              (record r { ntp_dropped = true; ntp_drops = (r.ntp_drops + 1) % 2 ^ 16 }),
        )
        else some (false, put_record m index (record r { ntp_dropped = false; ntp_tokens = 0 }))

unfoldable pub limit_command_response_rate : ℕ → Log → ℕ → Option (Bool × Log)
limit_command_response_rate fresh l index =
    if l.cmd_tokens_per_packet == 0 then some (false, l) else do
      r ← get_elem? l.records index
      if leb l.cmd_tokens_per_packet r.cmd_tokens
          then some (
            false,
            put_record l index (record r { cmd_tokens = r.cmd_tokens - l.cmd_tokens_per_packet }),
          )
          else let (random_drop, bits) =
              limit_response_random fresh l.cmd_leak_rate l.random_bits in
            let m = record l { random_bits = bits } in
            if random_drop
            then some (
              true,
              put_record (record m { total_cmd_drops = (l.total_cmd_drops + 1) % 2 ^ 32 }) index
                  (record r { cmd_drops = (r.cmd_drops + 1) % 2 ^ 16 }),
            )
            else some (false, put_record m index (record r { cmd_tokens = 0 }))
