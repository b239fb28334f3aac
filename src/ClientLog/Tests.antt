-- ===== src/ClientLog/Tests.antt =====
-- clientlog.c: buckets, rates and decisions at concrete values.
use chrony_nts.Prelude.{
  ◌+◌, ◌-◌, ◌%◌, ◌^◌, ◌≤◌, ◌<◌, ◌≡◌, ◌⊎◌, inr, refl, Bool, false, [], ◌∷◌, some, arith, leb,
  if◌then◌else◌,
}
use chrony_nts.Prelude.Int.{pos, ◌+ℤ◌}
use chrony_nts.Addressing.{inet4}
use chrony_nts.ClientLog.{
  Log, Record, RandomBits, Hits, set_bucket_params, update_record, invalid_rate,
}
use chrony_nts.ClientLog.Response.{limit_ntp_response_rate}
use chrony_nts.ClientLog.Rate.{IsRate, update_record_lem}
use chrony_nts.ClientLog.Limit.{Replaces, limit_ntp_response_rate_lem}

-- An interval of 2^12 s with the largest burst: the shift keeps the capacity in 16 bits.
wide_bucket :
    set_bucket_params (pos 12) 255
    ≡ record { max_tokens = 65280; tokens_per_packet = 256; token_shift = pos 8 }
unfolding set_bucket_params ◌+ℤ◌
wide_bucket = refl

abbrev seen : Hits
seen = record { last_hit = 160; hits = 7; tokens = 3; rate = pos 2 }

update_record_lem_example :
    ((update_record 352 64 (pos 2) seen).last_hit ≡ 352)
    × ((update_record 352 64 (pos 2) seen).hits ≡ (seen.hits + 1) % 2 ^ 32)
    × ((update_record 352 64 (pos 2) seen).tokens ≤ 64)
    × IsRate (update_record 352 64 (pos 2) seen).rate
update_record_lem_example =
    update_record_lem 352 64 (pos 2) seen (omega arith) (inr (omega arith, omega arith))

abbrev bits : RandomBits
bits = record { rnd = 5; bits_left = 3 }

abbrev client : Record
client = record {
  ip_addr = inet4 0xc000_0201;
  last_ntp_hit = 160;
  last_cmd_hit = 0;
  ntp_hits = 7;
  cmd_hits = 0;
  ntp_drops = 1;
  cmd_drops = 0;
  ntp_tokens = 3;
  cmd_tokens = 5;
  ntp_rate = pos 2;
  cmd_rate = invalid_rate;
  ntp_timeout_rate = invalid_rate;
  ntp_dropped = false;
  ntp_rx_ts = record { hi = 0; lo = 0 };
  ntp_tx_ts = record { hi = 0; lo = 0 };
}

abbrev busy : Log
busy = record {
  records = client ∷ [];
  ts_offset = 0;
  max_ntp_tokens = 64;
  max_cmd_tokens = 64;
  ntp_tokens_per_packet = 8;
  cmd_tokens_per_packet = 8;
  ntp_token_shift = pos 2;
  cmd_token_shift = pos 2;
  ntp_leak_rate = 2;
  cmd_leak_rate = 2;
  random_bits = bits;
  total_ntp_hits = 7;
  total_cmd_hits = 0;
  total_ntp_drops = 1;
  total_cmd_drops = 0;
}

-- The client has 3 of the 8 tokens, and the two random bits say drop.
limit_ntp_response_rate_lem_example :
    (drop : Bool) × (m : Log) × (r' : Record) × (limit_ntp_response_rate 0 busy 0 ≡ some (drop, m))
    × Replaces busy.records 0 r' m.records
    × ((client.ntp_tokens < 8) ⊎ (drop ≡ false))
    × (r'.ntp_tokens ≡ (
        if leb 8 client.ntp_tokens
        then client.ntp_tokens - 8
        else if drop
        then client.ntp_tokens
        else 0))
    × (r'.ntp_dropped ≡ drop)
    × (r'.ntp_drops ≡ (if drop then (client.ntp_drops + 1) % 2 ^ 16 else client.ntp_drops))
    × (m.total_ntp_drops
        ≡ (if drop then (busy.total_ntp_drops + 1) % 2 ^ 32 else busy.total_ntp_drops))
limit_ntp_response_rate_lem_example =
    limit_ntp_response_rate_lem 0 busy 0 client (λ e. omega arith) refl
