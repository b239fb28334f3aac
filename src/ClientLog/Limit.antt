-- ===== src/ClientLog/Limit.antt =====
-- clientlog.c: which responses are dropped, and what a decision changes.
use native.Mathlib.Nat.{div-lt_iff_lt-mul}
use chrony_nts.Prelude.{
  ℕ, zero, suc, ◌+◌, ◌-◌, ◌/◌, ◌%◌, ◌^◌, ◌≤◌, ◌<◌, ◌≡◌, ◌≢◌, ◌⊎◌, inl, inr, refl, Bool, true, false,
  not, List, some, arith, Bool-cases, ltb, leb, sym, ◌==◌, if◌then◌else◌, length, get_elem?, set,
  get_elem?-set_self, get_elem?-set_ne, ℕ_discrete, [], ◌∷◌,
}
use chrony_nts.Prelude.Power.{pow-add, pow-pos}
use chrony_nts.ClientLog.{Log, Record, RandomBits, put_record}
use chrony_nts.ClientLog.Response.{
  limit_response_random, limit_ntp_response_rate, limit_command_response_rate, gives_up,
}

-- The unused random bits are below the next power of two, and no more than were drawn.
pub record HasBits (r : RandomBits) : Type 0 where
  pub fits : r.rnd < 2 ^ r.bits_left
  pub few : r.bits_left ≤ 32

-- Each decision takes as many bits as the leak rate says and leaves the others for the next, so that
-- no bit is used twice; there are always enough. Conditions: a leak rate of at most 32, and 32 new
-- bits where they are needed.
pub limit_response_random-HasBits :
    (fresh leak_rate : ℕ) (r : RandomBits)
    → HasBits r
    → leak_rate ≤ 32
    → fresh < 2 ^ 32
    → let s = (limit_response_random fresh leak_rate r).1 in
      HasBits s
      × ((s.bits_left + leak_rate ≡ r.bits_left)
          ⊎ ((r.bits_left < leak_rate) × (s.bits_left + leak_rate ≡ 32)))
unfolding limit_response_random
limit_response_random-HasBits fresh leak_rate r b l f =
    elim (Bool-cases (ltb r.bits_left leak_rate)) [
      | inl e ↦ rw e (
        record { fits = shift-lt fresh 32 leak_rate l f; few = omega arith },
        inr (ground arith, omega arith),
      )
      | inr e ↦
          let le : leak_rate ≤ r.bits_left = ground arith in
          rw e (
            record {
              fits = shift-lt r.rnd r.bits_left leak_rate le b.fits;
              few = omega (arith, b.few);
            },
            inl (omega arith),
          )
    ]
  where
    shift-lt : (x n k : ℕ) → k ≤ n → x < 2 ^ n → x / 2 ^ k < 2 ^ (n - k)
    shift-lt x n k le lt =
        let e : n - k + k ≡ n = omega arith in
        (div-lt_iff_lt-mul (pow-pos k)).1 (rw (← pow-add 2 (n - k) k) (rw e lt))

get_elem?-lt : (xs : List Record) (i : ℕ) (r : Record) → get_elem? xs i ≡ some r → i < length xs
get_elem?-lt [] i r h = cc
get_elem?-lt (x ∷ xs) zero r h = omega arith
get_elem?-lt (x ∷ xs) (suc i) r h = omega (arith, get_elem?-lt xs i r h)

-- The record is replaced, and no other.
abbrev pub Replaces : List Record → ℕ → Record → List Record → Type 0
Replaces xs index r ys =
    (get_elem? ys index ≡ some r) × ((j : ℕ) → (j ≡ index) ⊎ (get_elem? ys j ≡ get_elem? xs j))

set-Replaces :
    (xs : List Record) (index : ℕ) (r r' : Record)
    → get_elem? xs index ≡ some r
    → Replaces xs index r' (set xs index r')
set-Replaces xs index r r' h = (
  get_elem?-set_self xs index r' (get_elem?-lt xs index r h),
  λ j. elim (ℕ_discrete j index) [
    | yes p ↦ inl p
    | no p ↦ inr (get_elem?-set_ne xs r' (λ e. p (sym e)))
  ],
)

-- With limiting on, a response is never dropped while the client has the tokens for it, which it then
-- pays; a client that has too few keeps them if the response is dropped and loses them if it is let
-- through. A drop is counted for the client (in 16 bits) and in all (in 32), and the client is marked
-- by the last decision. No other client's record changes.
pub limit_ntp_response_rate_lem :
    (fresh : ℕ) (l : Log) (index : ℕ) (r : Record)
    → l.ntp_tokens_per_packet ≢ 0
    → get_elem? l.records index ≡ some r
    → (drop : Bool) × (m : Log) × (r' : Record) × (limit_ntp_response_rate fresh l index
        ≡ some (drop, m))
      × Replaces l.records index r' m.records
      × ((r.ntp_tokens < l.ntp_tokens_per_packet) ⊎ (drop ≡ false))
      × (r'.ntp_tokens ≡ (
          if leb l.ntp_tokens_per_packet r.ntp_tokens
          then r.ntp_tokens - l.ntp_tokens_per_packet
          else if drop
          then r.ntp_tokens
          else 0))
      × (r'.ntp_dropped ≡ drop)
      × (r'.ntp_drops ≡ (if drop then (r.ntp_drops + 1) % 2 ^ 16 else r.ntp_drops))
      × (m.total_ntp_drops ≡ (if drop then (l.total_ntp_drops + 1) % 2 ^ 32 else l.total_ntp_drops))
unfolding limit_ntp_response_rate
limit_ntp_response_rate_lem fresh l index r on at_index =
    let limited : (l.ntp_tokens_per_packet == 0) ≡ false = ground arith in
    let (random_drop, bits) = limit_response_random fresh l.ntp_leak_rate l.random_bits in
    elim (Bool-cases (leb l.ntp_tokens_per_packet r.ntp_tokens)) [
      | inl e ↦
          let r' = record r {
            ntp_dropped = false;
            ntp_tokens = r.ntp_tokens - l.ntp_tokens_per_packet;
          } in
          (
            false,
            put_record l index r',
            r',
            rw (limited, at_index, e) refl,
            set-Replaces l.records index r r' at_index,
            inr refl,
            rw e refl,
            refl,
            refl,
            refl,
          )
      | inr e ↦ elim (Bool-cases (if gives_up r then not random_drop else random_drop)) [
        | inl d ↦
            let r' = record r { ntp_dropped = true; ntp_drops = (r.ntp_drops + 1) % 2 ^ 16 } in
            let m = record l {
              random_bits = bits;
              total_ntp_drops = (l.total_ntp_drops + 1) % 2 ^ 32;
            } in
            (
              true,
              put_record m index r',
              r',
              rw (limited, at_index, e, d) refl,
              set-Replaces l.records index r r' at_index,
              inl (ground arith),
              rw e refl,
              refl,
              refl,
              refl,
            )
        | inr d ↦
            let r' = record r { ntp_dropped = false; ntp_tokens = 0 } in
            let m = record l { random_bits = bits } in
            (
              false,
              put_record m index r',
              r',
              rw (limited, at_index, e, d) refl,
              set-Replaces l.records index r r' at_index,
              inr refl,
              rw e refl,
              refl,
              refl,
              refl,
            )
      ]
    ]

-- With limiting on, a response to a command is never dropped while the client has the tokens for
-- it, which it then pays; a client that has too few keeps them if the response is dropped and loses
-- them if it is let through. A drop is counted, and no other client's record changes.
pub limit_command_response_rate_lem :
    (fresh : ℕ) (l : Log) (index : ℕ) (r : Record)
    → l.cmd_tokens_per_packet ≢ 0
    → get_elem? l.records index ≡ some r
    → (drop : Bool) × (m : Log) × (r' : Record) × (limit_command_response_rate fresh l index
        ≡ some (drop, m))
      × Replaces l.records index r' m.records
      × ((r.cmd_tokens < l.cmd_tokens_per_packet) ⊎ (drop ≡ false))
      × (r'.cmd_tokens ≡ (
          if leb l.cmd_tokens_per_packet r.cmd_tokens
          then r.cmd_tokens - l.cmd_tokens_per_packet
          else if drop
          then r.cmd_tokens
          else 0))
      × (r'.cmd_drops ≡ (if drop then (r.cmd_drops + 1) % 2 ^ 16 else r.cmd_drops))
      × (m.total_cmd_drops ≡ (if drop then (l.total_cmd_drops + 1) % 2 ^ 32 else l.total_cmd_drops))
unfolding limit_command_response_rate
limit_command_response_rate_lem fresh l index r on at_index =
    let limited : (l.cmd_tokens_per_packet == 0) ≡ false = ground arith in
    let (random_drop, bits) = limit_response_random fresh l.cmd_leak_rate l.random_bits in
    elim (Bool-cases (leb l.cmd_tokens_per_packet r.cmd_tokens)) [
      | inl e ↦
          let r' = record r { cmd_tokens = r.cmd_tokens - l.cmd_tokens_per_packet } in
          (
            false,
            put_record l index r',
            r',
            rw (limited, at_index, e) refl,
            set-Replaces l.records index r r' at_index,
            inr refl,
            rw e refl,
            refl,
            refl,
          )
      | inr e ↦ elim (Bool-cases random_drop) [
        | inl d ↦
            let r' = record r { cmd_drops = (r.cmd_drops + 1) % 2 ^ 16 } in
            let m = record l {
              random_bits = bits;
              total_cmd_drops = (l.total_cmd_drops + 1) % 2 ^ 32;
            } in
            (
              true,
              put_record m index r',
              r',
              rw (limited, at_index, e, d) refl,
              set-Replaces l.records index r r' at_index,
              inl (ground arith),
              rw e refl,
              refl,
              refl,
            )
        | inr d ↦
            let r' = record r { cmd_tokens = 0 } in
            let m = record l { random_bits = bits } in
            (
              false,
              put_record m index r',
              r',
              rw (limited, at_index, e, d) refl,
              set-Replaces l.records index r r' at_index,
              inr refl,
              rw e refl,
              refl,
              refl,
            )
      ]
    ]
