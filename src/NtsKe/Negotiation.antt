-- ===== src/NtsKe/Negotiation.antt =====
-- nts_ke.c: the request of a client, the response of a server, and what each side takes from the other.
pub mod Sending
pub mod Handshake
use chrony_nts.Prelude.{
  ℕ, zero, suc, ◌+◌, ◌-◌, ◌*◌, ◌/◌, ◌%◌, ◌^◌, Bool, true, false, not, ◌&&◌, ◌||◌, List, [], ◌∷◌,
  ◌++◌, Option, none, some, ltb, leb, ◌==◌, if◌then◌else◌, ◌>>=◌, length, take, drop,
}
use chrony_nts.Addressing.{IpAddr, unspec}
use chrony_nts.NtpExt.{be16, read_header}
use chrony_nts.NtsKe.{
  Message, KeRecord, max_record_body_length, max_cookie_length, end_of_message, next_protocol,
  error_record, warning, aead_algorithm, cookie_record, server_negotiation, port_negotiation, ntpv4,
  aes_siv_cmac_256, KeError, is_none, error_code, reset_message, add_record, fold_records,
  unrecognized_critical_record, bad_request, bad_response, no_error,
}

-- The next record is added if the ones before were.
abbrev pub and_record : Message × Bool → Bool → ℕ → List ℕ → Message × Bool
and_record (m, done) critical record_type body =
    if done then add_record m critical record_type body else (m, false)

unfoldable pub prepare_request : Message × Bool
prepare_request =
    let protocol = add_record reset_message true next_protocol (be16 ntpv4) in
    let algorithm = and_record protocol true aead_algorithm (be16 aes_siv_cmac_256) in
    and_record algorithm true end_of_message []

-- What the records of a request or a response say; `none` is NEXT_PROTOCOL_NONE or AEAD_NONE.
pub record Negotiation : Type 0 where
  pub protocol : Option ℕ
  pub aead : Option ℕ
  pub error : KeError
  pub has_next_protocol : Bool

-- A number as it is sent, -1 for `none`.
abbrev pub code16 : Option ℕ → ℕ
code16 none = 65535
code16 (some n) = n

pub add_cookies : List (List ℕ) → Message × Bool → Message × Bool
add_cookies [] built = built
add_cookies (cookie ∷ rest) built = add_cookies rest (and_record built false cookie_record cookie)

-- What a response needs from elsewhere: the NTP port, and the cookies that are made from the keys of
-- the session, if it has these.
pub record ResponseInput : Type 0 where
  pub ntp_port : ℕ
  pub cookies : Option (List (List ℕ))

abbrev with_cookies : Option (List (List ℕ)) → Message × Bool → Message × Bool
with_cookies none built = (built.0, false)
with_cookies (some cookies) built = add_cookies cookies built

-- The message, complete if all records were added.
pub prepare_response : ResponseInput → KeError → Option ℕ → Option ℕ → Message × Bool
prepare_response input error protocol aead =
    let answer = and_record (reset_message, true) true next_protocol (be16 (code16 protocol)) in
    let algorithm = and_record answer true aead_algorithm (be16 (code16 aead)) in
    let port =
      if input.ntp_port == 123
      then algorithm
      else and_record algorithm true port_negotiation (be16 input.ntp_port) in
    let body =
      if is_none error
      then with_cookies input.cookies port
      else and_record (reset_message, true) true error_record (be16 (error_code error)) in
    and_record body true end_of_message []

-- A 16-bit number is among those in the bytes.
pub has_word : ℕ → List ℕ → Bool
has_word n (a ∷ b ∷ rest) = a * 256 + b == n || has_word n rest
has_word n _ = false

abbrev pub first_word : List ℕ → Option ℕ
first_word (a ∷ b ∷ rest) = some (a * 256 + b)
first_word _ = none

abbrev pub nothing_yet : Negotiation
nothing_yet = record { protocol = none; aead = none; error = no_error; has_next_protocol = false }

-- The switch on the type of a record in a request.
pub request_record : Negotiation → KeRecord → Negotiation
unfolding has_word
request_record n r =
    let offered = take max_record_body_length r.body in
    let odd = ltb (length r.body) 2 || not (length r.body % 2 == 0) in
    if r.record_type == next_protocol
    then if not r.critical || odd then record n { error = bad_request } else record n {
      protocol = if has_word ntpv4 offered then some ntpv4 else n.protocol;
      has_next_protocol = true;
    }
    else if r.record_type == aead_algorithm
    then if odd then record n { error = bad_request } else record n {
      aead = if has_word aes_siv_cmac_256 offered then some aes_siv_cmac_256 else n.aead;
    }
    else if r.record_type == error_record
        || r.record_type == warning
        || r.record_type == cookie_record
    then record n { error = bad_request }
    else if r.record_type == end_of_message
    then n
    else if r.critical
    then record n { error = unrecognized_critical_record }
    else n

-- The message that the server sends.
pub process_request : ResponseInput → Message → Message
process_request input m =
    let n =
      fold_records (λ (n : Negotiation). n.error) request_record (suc (length m.data_bytes))
        (record m { parsed = 0 }) nothing_yet in
    let error = if n.has_next_protocol then n.error else bad_request in
    (prepare_response input error n.protocol n.aead).0

-- What a client takes from a response.
pub record Accepted : Type 0 where
  pub negotiated : Negotiation
  pub cookies : List (List ℕ)
  pub address : Option IpAddr
  pub port : Option ℕ

abbrev pub fail_with : KeError → Accepted → Accepted
fail_with e a = record a { negotiated = record a.negotiated { error = e } }

abbrev is_word : ℕ → List ℕ → Bool
is_word n body = length body == 2 && has_word n body

-- The switch on the type of a record in a response. `to_ip` is `UTI_StringToIP` on the bytes of the
-- body, up to a zero byte.
pub response_record : (List ℕ → Option IpAddr) → ℕ → Accepted → KeRecord → Accepted
unfolding has_word
response_record to_ip most a r =
    let n = a.negotiated in
    if r.record_type == next_protocol
    then if not r.critical || not (is_word ntpv4 r.body)
      then fail_with bad_response a
      else record a { negotiated = record n { protocol = some ntpv4 } }
    else if r.record_type == aead_algorithm
    then record a {
      negotiated = record n {
        aead = some aes_siv_cmac_256;
        error = if is_word aes_siv_cmac_256 r.body then n.error else bad_response;
      };
    }
    else if r.record_type == error_record || r.record_type == warning
    then fail_with bad_response a
    else if r.record_type == cookie_record
    then if leb (length r.body) max_cookie_length && ltb (length a.cookies) most
      then record a { cookies = a.cookies ++ r.body ∷ [] }
      else a
    else if r.record_type == end_of_message
    then a
    else if r.record_type == server_negotiation
    then if ltb (length r.body) 2 || ltb max_record_body_length (length r.body)
      then fail_with bad_response a
      else elim (to_ip r.body) [
        | none ↦ fail_with bad_response a
        | some ip ↦ record a { address = some ip }
      ]
    else if r.record_type == port_negotiation
    then if length r.body == 2
      then record a { port = first_word r.body }
      else fail_with bad_response a
    else if r.critical
    then fail_with bad_request a
    else a

-- The cookies, none for 0, and the address and port that the server asks for.
pub process_response :
    (List ℕ → Option IpAddr) → ℕ → Message → List (List ℕ) × Option IpAddr × Option ℕ
process_response to_ip most m =
    let start : Accepted = record {
      negotiated = nothing_yet;
      cookies = [];
      address = none;
      port = none;
    } in
    let a =
      fold_records (λ (a : Accepted). a.negotiated.error) (response_record to_ip most)
        (suc (length m.data_bytes)) (record m { parsed = 0 }) start in
    let n = a.negotiated in
    if not (code16 n.protocol == ntpv4)
      || not (code16 n.aead == aes_siv_cmac_256)
      || not (is_none n.error)
    then ([], a.address, a.port)
    else (a.cookies, a.address, a.port)
