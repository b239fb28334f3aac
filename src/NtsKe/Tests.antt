-- ===== src/NtsKe/Tests.antt =====
-- nts_ke.c: runs of the functions, and the theorems at concrete messages, cookies and connections.
use chrony_nts.Prelude.{
  ℕ, ◌≡◌, refl, arith, true, false, List, [], ◌∷◌, ◌++◌, Option, none, some, take, replicate, ◌>>=◌,
}
use chrony_nts.Addressing.{IpAddr}
use chrony_nts.NtpExt.{be16}
use chrony_nts.NtsKe.{
  KeRecord, msg_incomplete, msg_error, msg_ok, reset_message, check_message_format,
}
use chrony_nts.NtsKe.Negotiation.{prepare_request, process_request, process_response, ResponseInput}
use chrony_nts.NtsKe.Records.{encode_record, encode, IsRecord, at}
use chrony_nts.NtsKe.Check.{check_message_format-whole, check_message_format-cut}
use chrony_nts.NtsKe.Negotiation.Handshake.{process_response-process_request}
use chrony_nts.NtsKe.Cookies.{generate_cookie, decode_cookie}
use chrony_nts.NtsKe.Cookies.Sample.{plain, plain-IsSiv, fresh_keys, fresh_keys-IsServerKeys}
use chrony_nts.NtsKe.Cookies.Rotation.{rotate, decode_cookie-generate_cookie}
use chrony_nts.NtsKe.Session.{
  client, wait_connect, closed, Connection, session_timeout, Event, Tls, done, again, bytes, empty,
  live, choose_slot, accept_connection,
}
use chrony_nts.NtsKe.Session.States.{IsConnection, Advances}
use chrony_nts.NtsKe.Session.Life.{run, run-Advances}
use chrony_nts.NtsKe.Session.Accepting.{accept_connection-dangling}

abbrev protocol : KeRecord
protocol = record { critical = true; record_type = 1; body = be16 0 }

protocol-IsRecord : IsRecord protocol
protocol-IsRecord = record { small_type = omega arith; short = omega arith }

-- The first record of a request has come, and more may follow.
check_message_format-whole_example :
    (check_message_format (at reset_message (encode (protocol ∷ [])) 0)).0 ≡ msg_error
check_message_format-whole_example =
    check_message_format-whole reset_message [] protocol 0 tt protocol-IsRecord

check_message_format-cut_example :
    (check_message_format
      (at reset_message (encode (protocol ∷ []) ++ take 5 (encode_record protocol)) 0)).0
    ≡ msg_incomplete
check_message_format-cut_example =
    check_message_format-cut reset_message (protocol ∷ []) protocol 5 0 (protocol-IsRecord, tt)
      protocol-IsRecord (omega arith) (omega arith)

abbrev two_cookies : List (List ℕ)
two_cookies = (1 ∷ 2 ∷ []) ∷ (3 ∷ []) ∷ []

abbrev other_port : ResponseInput
other_port = record { ntp_port = 11123; cookies = some two_cookies }

abbrev no_ip : List ℕ → Option IpAddr
no_ip text = none

process_response-process_request_example :
    ((check_message_format prepare_request.0).0 ≡ msg_ok)
    × ((check_message_format (process_request other_port prepare_request.0)).0 ≡ msg_ok)
    × (process_response no_ip 8 (process_request other_port prepare_request.0)
        ≡ (two_cookies, none, some 11123))
process_response-process_request_example =
    process_response-process_request no_ip 8 other_port two_cookies refl
      (omega arith, (omega arith, tt)) (omega arith) (omega arith) (omega arith)

decode_cookie-generate_cookie_example :
    decode_cookie plain
      (rotate ((5 ∷ [], 100) ∷ (6 ∷ [], 200) ∷ []) fresh_keys)
      (generate_cookie plain fresh_keys (replicate 16 3) (replicate 32 1) (replicate 32 2))
    ≡ some (replicate 32 1, replicate 32 2)
decode_cookie-generate_cookie_example =
    decode_cookie-generate_cookie plain fresh_keys (replicate 16 3) (replicate 32 1)
      (replicate 32 2) ((5 ∷ [], 100) ∷ (6 ∷ [], 200) ∷ []) plain-IsSiv fresh_keys-IsServerKeys refl
      refl refl (omega arith)

-- A client that waits for the connection.
abbrev connecting : Connection
connecting = record {
  mode = client;
  state = wait_connect;
  has_socket = true;
  has_timeout = true;
  output = true;
  message = reset_message;
}

abbrev writable : Tls → Event
writable tls = record {
  for_output = true;
  connected = true;
  alpn = true;
  tls = tls;
  received = bytes (128 ∷ []) ∷ [];
}

run-Advances_example :
    (t : Connection) × (run other_port
        (writable (done 0) ∷ writable (again true) ∷ writable (done 0) ∷ [])
        connecting
      ≡ some t)
    × Advances connecting t
    × IsConnection (session_timeout t)
    × ((session_timeout t).state ≡ closed)
run-Advances_example =
    run-Advances other_port (writable (done 0) ∷ writable (again true) ∷ writable (done 0) ∷ [])
      connecting (record { may_be = tt; socket = refl; timeout = refl })

first_free : choose_slot 0 (live connecting ∷ empty ∷ empty ∷ []) ≡ some (some 1)
unfolding choose_slot
first_free = refl

accept_connection-dangling_example :
    (accept_connection true true false (live connecting ∷ empty ∷ empty ∷ [])
      >>= accept_connection true true true)
    ≡ none
accept_connection-dangling_example =
    accept_connection-dangling (live connecting ∷ empty ∷ empty ∷ []) 1 true true first_free
