-- ===== src/NtsKe.antt =====
-- nts_ke.c: the messages of the key establishment of NTS, and their records. A message is the list of the bytes it
-- has; the buffer takes 16384. Cookies has the keys and cookies of the server, Session the states of
-- a connection.
pub mod Cookies
pub mod Records
pub mod Format
pub mod Check
pub mod Negotiation
pub mod Session
mod Tests
use chrony_nts.Prelude.{
  ℕ, zero, suc, ◌+◌, ◌-◌, ◌*◌, ◌/◌, ◌%◌, ◌^◌, Bool, true, false, not, ◌&&◌, ◌||◌, List, [], ◌∷◌,
  ◌++◌, Option, none, some, ltb, leb, ◌==◌, if◌then◌else◌, ◌>>=◌, length, take, drop,
}
use chrony_nts.Addressing.{IpAddr, unspec}
use chrony_nts.NtpExt.{be16, read_header}

-- `struct NKE_Message`
pub record Message : Type 0 where
  pub data_bytes : List ℕ
  pub sent : ℕ
  pub eof : Bool
  pub parsed : ℕ

-- What `get_record` reads; the body is whole.
pub record KeRecord : Type 0 where
  pub critical : Bool
  pub record_type : ℕ
  pub body : List ℕ

abbrev pub max_message_length : ℕ
max_message_length = 16384

abbrev pub max_record_body_length : ℕ
max_record_body_length = 256

abbrev pub max_cookie_length : ℕ
max_cookie_length = 256

abbrev pub max_cookies : ℕ
max_cookies = 8

abbrev pub record_critical_bit : ℕ
record_critical_bit = 2 ^ 15

-- The types of records.
abbrev pub end_of_message : ℕ
end_of_message = 0

abbrev pub next_protocol : ℕ
next_protocol = 1

abbrev pub error_record : ℕ
error_record = 2

abbrev pub warning : ℕ
warning = 3

abbrev pub aead_algorithm : ℕ
aead_algorithm = 4

abbrev pub cookie_record : ℕ
cookie_record = 5

abbrev pub server_negotiation : ℕ
server_negotiation = 6

abbrev pub port_negotiation : ℕ
port_negotiation = 7

abbrev pub ntpv4 : ℕ
ntpv4 = 0

abbrev pub aes_siv_cmac_256 : ℕ
aes_siv_cmac_256 = 15

-- `ERROR_NONE` and the other codes.
pub data KeError : Type 0 where
  no_error unrecognized_critical_record bad_request bad_response : KeError

abbrev pub is_none : KeError → Bool
is_none no_error = true
is_none _ = false

-- The number that is sent for an error; that for a bad response is never sent.
abbrev pub error_code : KeError → ℕ
error_code no_error = 65535
error_code unrecognized_critical_record = 0
error_code bad_request = 1
error_code bad_response = 65534

pub data MsgFormat : Type 0 where
  msg_incomplete msg_error msg_ok : MsgFormat

abbrev pub reset_message : Message
reset_message = record { data_bytes = []; sent = 0; eof = false; parsed = 0 }

abbrev pub flag_bit : Bool → ℕ
flag_bit true = record_critical_bit
flag_bit false = 0

-- The record in the message, or the message as it was and 0. The types of records are below 2^15.
pub add_record : Message → Bool → ℕ → List ℕ → Message × Bool
add_record m critical record_type body =
    if ltb 0xffff (length body) || ltb max_message_length (length m.data_bytes + 4 + length body)
    then (m, false)
    else (
      record m {
        data_bytes =
            m.data_bytes
            ++ (be16 (flag_bit critical + record_type) ++ (be16 (length body) ++ body));
      },
      true,
    )

-- The next record, if the message has it whole.
pub get_record : Message → Option (KeRecord × Message)
get_record m = do
  (bits, blen, rest) ← read_header (drop m.parsed m.data_bytes)
  if ltb (length m.data_bytes) (m.parsed + (4 + blen))
      then none
      else some (
        record {
          critical = leb record_critical_bit bits;
          record_type = bits % record_critical_bit;
          body = take blen rest;
        },
        record m { parsed = m.parsed + (4 + blen) },
      )

-- The loop over the records, which keeps the last one. Each record takes bytes, so that as many rounds
-- as bytes are enough.
pub read_records : ℕ → Message → Option KeRecord → Message × Option KeRecord
read_records zero m last = (m, last)
read_records (suc fuel) m last = elim (get_record m) [
  | none ↦ (m, last)
  | some (r, next) ↦ read_records fuel next (some r)
]

abbrev pub is_end : KeRecord → Bool
is_end r = r.critical && r.record_type == end_of_message && length r.body == 0

pub check_message_format : Message → MsgFormat × Message
check_message_format m =
    let (t, last) = read_records (length m.data_bytes) (record m { parsed = 0 }) none in
    let unfinished = if t.eof then msg_error else msg_incomplete in
    if length t.data_bytes == 0 || ltb t.parsed (length t.data_bytes)
    then (unfinished, t)
    else elim last [ none ↦ (msg_error, t) | some r ↦ (if is_end r then msg_ok else msg_error, t) ]

-- The loop over the records of a message, up to the first error.
pub fold_records {ℓ} : {A : Type ℓ} → (A → KeError) → (A → KeRecord → A) → ℕ → Message → A → A
fold_records error_of on_record zero m n = n
fold_records error_of on_record (suc fuel) m n = elim (is_none (error_of n)) [
  | false ↦ n
  | true ↦ elim (get_record m) [
    | none ↦ n
    | some (r, next) ↦ fold_records error_of on_record fuel next (on_record n r)
  ]
]
