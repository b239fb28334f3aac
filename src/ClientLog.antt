-- ===== src/ClientLog.antt =====
-- clientlog.c: the token buckets that limit the rate of responses, and the request rates. The hash
-- table in which a client's record is found is not modelled: a record is given by its index.
pub mod Bucket
pub mod Rate
pub mod Response
pub mod Limit
mod Tests
use chrony_nts.Prelude.{
  ℕ, zero, suc, ◌+◌, ◌-◌, ◌*◌, ◌/◌, ◌%◌, ◌^◌, min, max, Bool, true, false, not, ◌&&◌, ◌||◌, List,
  [], ◌∷◌, Option, none, some, ltb, leb, ◌==◌, if◌then◌else◌, ◌>>=◌, get_elem?, set,
}
use chrony_nts.Prelude.Int.{ℤ, pos, negsuc, ◌+ℤ◌, ◌-ℤ◌, ltb_ℤ}
use chrony_nts.Time.{Timespec, NtpInt64, quot}
use chrony_nts.Addressing.{IpAddr}

pub record Record : Type 0 where
  pub ip_addr : IpAddr
  pub last_ntp_hit : ℕ
  pub last_cmd_hit : ℕ
  pub ntp_hits : ℕ
  pub cmd_hits : ℕ
  pub ntp_drops : ℕ
  pub cmd_drops : ℕ
  pub ntp_tokens : ℕ
  pub cmd_tokens : ℕ
  pub ntp_rate : ℤ
  pub cmd_rate : ℤ
  pub ntp_timeout_rate : ℤ
  pub ntp_dropped : Bool
  pub ntp_rx_ts : NtpInt64
  pub ntp_tx_ts : NtpInt64

-- The random bits left of the last 32.
pub record RandomBits : Type 0 where
  pub rnd : ℕ
  pub bits_left : ℕ

pub record Log : Type 0 where
  pub records : List Record
  pub ts_offset : ℕ
  pub max_ntp_tokens : ℕ
  pub max_cmd_tokens : ℕ
  pub ntp_tokens_per_packet : ℕ
  pub cmd_tokens_per_packet : ℕ
  pub ntp_token_shift : ℤ
  pub cmd_token_shift : ℤ
  pub ntp_leak_rate : ℕ
  pub cmd_leak_rate : ℕ
  pub random_bits : RandomBits
  pub total_ntp_hits : ℕ
  pub total_cmd_hits : ℕ
  pub total_ntp_drops : ℕ
  pub total_cmd_drops : ℕ

-- `TS_FRAC` is 4, and with an interval's logarithm never below -15 - 4 the sum of both is an integer
-- from -15 on.
abbrev pub invalid_ts : ℕ
invalid_ts = 0

abbrev pub invalid_rate : ℤ
invalid_rate = negsuc 127

-- CLAMP on integers.
abbrev pub clamp_ℤ : ℤ → ℤ → ℤ → ℤ
clamp_ℤ lo x hi = if ltb_ℤ x lo then lo else if ltb_ℤ hi x then hi else x

abbrev pub clamp_burst : ℕ → ℕ
clamp_burst burst = max 1 (min burst 255)

-- The loop for the smallest shift; `rest` is TS_FRAC + interval - shift.
pub find_shift : ℕ → ℕ → ℕ → ℕ
find_shift zero shift burst = shift
find_shift (suc rest) shift burst =
    let next = find_shift rest (shift + 1) burst in
    if ltb (burst * 2 ^ suc rest) (2 ^ 16) then shift else next

pub record BucketParams : Type 0 where
  pub max_tokens : ℕ
  pub tokens_per_packet : ℕ
  pub token_shift : ℤ

-- The two branches, for TS_FRAC + interval; both numbers are stored as 16-bit integers.
pub bucket_params : ℤ → ℕ → BucketParams
unfolding find_shift
bucket_params (pos k) burst =
    let shift = find_shift k 0 burst in
    let tokens = 2 ^ (k - shift) % 2 ^ 16 in
    record {
      max_tokens = tokens * burst % 2 ^ 16;
      tokens_per_packet = tokens;
      token_shift = pos shift;
    }
bucket_params (negsuc k) burst = record {
  max_tokens = max (2 ^ suc k) burst % 2 ^ 16;
  tokens_per_packet = 1;
  token_shift = negsuc k;
}

pub set_bucket_params : ℤ → ℕ → BucketParams
unfolding bucket_params
set_bucket_params interval burst =
    bucket_params (clamp_ℤ (negsuc 18) interval (pos 12) +ℤ pos 4) (clamp_burst burst)

-- An integer as a `uint32_t`.
abbrev pub to_u32 : ℤ → ℕ
to_u32 (pos n) = n % 2 ^ 32
to_u32 (negsuc n) = 2 ^ 32 - 1 - n % 2 ^ 32

-- The two parts that the code joins by `|` have no bit in common.
pub get_ts : ℕ → ℕ → ℕ
get_ts sec nsec = sec * 16 % 2 ^ 32 + 140740 * (nsec / 2 ^ 15) % 2 ^ 32 / 2 ^ 28

pub get_ts_from_timespec : ℕ → Timespec → ℕ
unfolding get_ts
get_ts_from_timespec ts_offset ts =
    let sec = to_u32 ts.tv_sec in
    let nsec = (to_u32 ts.tv_nsec + ts_offset) % 2 ^ 32 in
    if leb 1_000_000_000 nsec
    then get_ts ((sec + 1) % 2 ^ 32) (nsec - 1_000_000_000)
    else get_ts sec nsec

-- 1, 0 or -1.
pub compare_ts : ℕ → ℕ → ℤ
compare_ts x y =
    if x == y
    then pos 0
    else if y == invalid_ts
    then pos 1
    else if ltb 0 ((x + 2 ^ 32 - y) % 2 ^ 32) && ltb ((x + 2 ^ 32 - y) % 2 ^ 32) (2 ^ 31)
    then pos 1
    else negsuc 0

-- The tokens of the time from the last hit to this one.
pub new_tokens : ℕ → ℕ → ℕ → ℤ → ℕ
new_tokens now_ts prev_hit max_tokens (pos shift) =
    (now_ts / 2 ^ shift + 2 ^ 32 - prev_hit / 2 ^ shift) % 2 ^ 32
new_tokens now_ts prev_hit max_tokens (negsuc shift) =
    let interval = (now_ts + 2 ^ 32 - prev_hit) % 2 ^ 32 in
    if ltb max_tokens interval then max_tokens else interval * 2 ^ suc shift % 2 ^ 32

-- The scaled logarithm of an interval, by at most `rounds` halvings.
pub log_interval : ℕ → ℕ → ℤ → ℤ
log_interval zero interval i = i
log_interval (suc rounds) interval i =
    let next = log_interval rounds (interval / 2) (i +ℤ pos 4) in if leb interval 1 then i else next

pub scaled_interval : ℕ → ℤ
unfolding log_interval
scaled_interval interval =
    if interval == 0
    then negsuc 19
    else log_interval 18 ((interval + interval / 2) % 2 ^ 32) (negsuc 15)

pub update_rate : ℤ → ℤ → ℤ
update_rate rate i =
    let target = pos 0 -ℤ i in
    if not (ltb_ℤ rate invalid_rate) && not (ltb_ℤ invalid_rate rate)
    then target
    else if ltb_ℤ rate target
    then rate +ℤ pos 1
    else if ltb_ℤ target rate
    then if ltb_ℤ (pos 10 -ℤ i) rate then pos 10 -ℤ i else quot (rate -ℤ i -ℤ pos 1) 2
    else rate

-- The fields of a record that `update_record` works on.
pub record Hits : Type 0 where
  pub last_hit : ℕ
  pub hits : ℕ
  pub tokens : ℕ
  pub rate : ℤ

-- `now_ts` is the time by `get_ts_from_timespec`.
pub update_record : ℕ → ℕ → ℤ → Hits → Hits
unfolding new_tokens scaled_interval update_rate
update_record now_ts max_tokens token_shift h =
    let interval = (now_ts + 2 ^ 32 - h.last_hit) % 2 ^ 32 in
    if h.last_hit == invalid_ts || leb (2 ^ 31) interval
    then record h { last_hit = now_ts; hits = (h.hits + 1) % 2 ^ 32 }
    else record {
      last_hit = now_ts;
      hits = (h.hits + 1) % 2 ^ 32;
      tokens =
          min ((h.tokens + new_tokens now_ts h.last_hit max_tokens token_shift) % 2 ^ 32)
            max_tokens;
      rate = update_rate h.rate (scaled_interval interval);
    }

abbrev pub put_record : Log → ℕ → Record → Log
put_record l index r = record l { records = set l.records index r }

-- `found` is the index of the client's record by `get_record`, or `none` for NULL. The rate of a
-- client whose last request had no response is kept apart.
pub log_ntp_access : Log → Timespec → Option ℕ → Option Log
unfolding update_record get_ts_from_timespec
log_ntp_access l now found =
    let m = record l { total_ntp_hits = (l.total_ntp_hits + 1) % 2 ^ 32 } in
    elim found [
      | none ↦ some m
      | some index ↦ do
        r ← get_elem? l.records index
        let h =
            update_record (get_ts_from_timespec l.ts_offset now) l.max_ntp_tokens l.ntp_token_shift
              (record {
                last_hit = r.last_ntp_hit;
                hits = r.ntp_hits;
                tokens = r.ntp_tokens;
                rate = if r.ntp_dropped then r.ntp_timeout_rate else r.ntp_rate;
              })
        some (
            put_record m index (record r {
              last_ntp_hit = h.last_hit;
              ntp_hits = h.hits;
              ntp_tokens = h.tokens;
              ntp_rate = if r.ntp_dropped then r.ntp_rate else h.rate;
              ntp_timeout_rate = if r.ntp_dropped then h.rate else r.ntp_timeout_rate;
            }))
    ]

pub log_command_access : Log → Timespec → Option ℕ → Option Log
unfolding update_record get_ts_from_timespec
log_command_access l now found =
    let m = record l { total_cmd_hits = (l.total_cmd_hits + 1) % 2 ^ 32 } in
    elim found [
      | none ↦ some m
      | some index ↦ do
        r ← get_elem? l.records index
        let h =
            update_record (get_ts_from_timespec l.ts_offset now) l.max_cmd_tokens l.cmd_token_shift
              (record {
                last_hit = r.last_cmd_hit;
                hits = r.cmd_hits;
                tokens = r.cmd_tokens;
                rate = r.cmd_rate;
              })
        some (
            put_record m index (record r {
              last_cmd_hit = h.last_hit;
              cmd_hits = h.hits;
              cmd_tokens = h.tokens;
              cmd_rate = h.rate;
            }))
    ]
