-- ===== src/NtsKe/Negotiation/Sending.antt =====
-- nts_ke.c: the bytes of a response.
use chrony_nts.Prelude.{
  ℕ, ◌+◌, ◌*◌, ◌≤◌, ◌≡◌, refl, ap, ◌∙◌, sym, arith, Bool, true, false, List, [], ◌∷◌, ◌++◌, some,
  map, length, length-append, ltb, ◌==◌, ◌||◌, if◌then◌else◌, Bool-cases, inl, inr,
}
use mathlib.Core.List.{append-nil, append_assoc}
use chrony_nts.NtpExt.{be16, read_header}
use chrony_nts.NtsKe.{
  Message, KeRecord, max_cookie_length, max_message_length, next_protocol, aead_algorithm,
  cookie_record, port_negotiation, end_of_message, ntpv4, aes_siv_cmac_256, no_error, reset_message,
  add_record, fold_records, get_record,
}
use chrony_nts.NtsKe.Negotiation.{
  and_record, prepare_request, add_cookies, ResponseInput, prepare_response, request_record,
  process_request,
}
use chrony_nts.NtsKe.Records.{encode_record, encode, at}

abbrev pub a_record : Bool → ℕ → List ℕ → KeRecord
a_record critical record_type body = record {
  critical = critical;
  record_type = record_type;
  body = body;
}

abbrev pub the_end : KeRecord
the_end = a_record true end_of_message []

abbrev pub of_cookie : List ℕ → KeRecord
of_cookie = a_record false cookie_record

-- The records before the cookies.
abbrev pub heads : ℕ → List KeRecord
heads port =
    a_record true next_protocol (be16 ntpv4)
    ∷ a_record true aead_algorithm (be16 aes_siv_cmac_256)
    ∷ (if port == 123 then [] else a_record true port_negotiation (be16 port) ∷ [])

abbrev pub holding : List ℕ → Message
holding bytes = at reset_message bytes 0

encode-append : (xs ys : List KeRecord) → encode (xs ++ ys) ≡ encode xs ++ encode ys
encode-append [] ys = refl
encode-append (x ∷ xs) ys =
    ap (λ (l : List ℕ). encode_record x ++ l) (encode-append xs ys)
    ∙ sym (append_assoc (encode_record x) (encode xs) (encode ys))

-- Cookies that fit in a record that a client accepts.
abbrev pub AreCookies : List (List ℕ) → Type 0
AreCookies [] = Unit {0}
AreCookies (c ∷ cs) = (length c ≤ max_cookie_length) × AreCookies cs

add_record-fits :
    (bytes body : List ℕ) (critical : Bool) (record_type : ℕ)
    → length body ≤ 65535
    → length bytes + 4 + length body ≤ max_message_length
    → add_record (holding bytes) critical record_type body
      ≡ (holding (bytes ++ encode_record (a_record critical record_type body)), true)
unfolding add_record
add_record-fits bytes body critical record_type short fits =
    let room : (ltb 65535 (length body) || ltb max_message_length (length bytes + 4 + length body))
        ≡ false =
      ground arith in
    rw room refl

add_cookies-fit :
    (bytes : List ℕ) (cs : List (List ℕ))
    → AreCookies cs
    → length bytes + 260 * length cs ≤ max_message_length
    → add_cookies cs (holding bytes, true) ≡ (holding (bytes ++ encode (map of_cookie cs)), true)
unfolding add_cookies
add_cookies-fit bytes [] h fits = let same = sym (append-nil bytes) in λ i. (holding (same i), true)
add_cookies-fit bytes (c ∷ cs) h fits =
    let more = bytes ++ encode_record (of_cookie c) in
    let size = length-append {0} bytes (encode_record (of_cookie c)) in
    let assoc = append_assoc bytes (encode_record (of_cookie c)) (encode (map of_cookie cs)) in
    rw (add_record-fits bytes c false cookie_record (omega (arith, h.0)) (omega (arith, h.0)))
      (add_cookies-fit more cs h.1 (omega (arith, size, h.0)) ∙ (λ i. (holding (assoc i), true)))

cookies-le :
    (cs : List (List ℕ)) → AreCookies cs → length (encode (map of_cookie cs)) ≤ 260 * length cs
cookies-le [] h = omega arith
cookies-le (c ∷ cs) h = omega (
  arith,
  cookies-le cs h.1,
  h.0,
  length-append {0} (encode_record (of_cookie c)) (encode (map of_cookie cs)),
)

abbrev pub response : ℕ → List (List ℕ) → List KeRecord
response port cs = heads port ++ (map of_cookie cs ++ the_end ∷ [])

heads-short : (port : ℕ) → length (encode (heads port)) ≤ 18
heads-short port = elim (Bool-cases (port == 123)) [
  | inl e ↦ rw e (omega arith)
  | inr e ↦ rw e (omega arith)
]

response_start :
    (input : ResponseInput) (cs : List (List ℕ))
    → input.cookies ≡ some cs
    → prepare_response input no_error (some ntpv4) (some aes_siv_cmac_256)
      ≡ and_record
          (add_cookies cs (holding (encode (heads input.ntp_port)), true))
          true
          end_of_message
          []
unfolding prepare_response add_record
response_start input cs e = elim (Bool-cases (input.ntp_port == 123)) [
  | inl usual ↦ rw (usual, e) refl
  | inr other ↦ rw (other, e) refl
]

response_end :
    (base : List ℕ) (cs : List (List ℕ))
    → AreCookies cs
    → length cs ≤ 8
    → length base ≤ 18
    → and_record (add_cookies cs (holding base, true)) true end_of_message []
      ≡ (holding (base ++ (encode (map of_cookie cs) ++ encode_record the_end)), true)
response_end base cs h few short =
    let size = length-append {0} base (encode (map of_cookie cs)) in
    let assoc = append_assoc base (encode (map of_cookie cs)) (encode_record the_end) in
    rw (add_cookies-fit base cs h (omega arith)) (
      add_record-fits (base ++ encode (map of_cookie cs)) [] true end_of_message (omega arith)
        (omega (arith, size, cookies-le cs h))
      ∙ (λ i. (holding (assoc i), true)))

response_bytes :
    (port : ℕ) (cs : List (List ℕ))
    → encode (heads port) ++ (encode (map of_cookie cs) ++ encode_record the_end)
      ≡ encode (response port cs)
response_bytes port cs =
    ap (λ (l : List ℕ). encode (heads port) ++ l)
      (sym (encode-append (map of_cookie cs) (the_end ∷ [])))
    ∙ sym (encode-append (heads port) (map of_cookie cs ++ the_end ∷ []))

-- A server with keys sends all its records.
pub prepare_response-encode :
    (input : ResponseInput) (cs : List (List ℕ))
    → input.cookies ≡ some cs
    → AreCookies cs
    → length cs ≤ 8
    → prepare_response input no_error (some ntpv4) (some aes_siv_cmac_256)
      ≡ (holding (encode (response input.ntp_port cs)), true)
prepare_response-encode input cs e h few =
    let bytes = response_bytes input.ntp_port cs in
    response_start input cs e
    ∙ response_end (encode (heads input.ntp_port)) cs h few (heads-short input.ntp_port)
    ∙ (λ i. (holding (bytes i), true))

-- What the server takes from the request of a client.
pub process_request-prepare_request :
    (input : ResponseInput)
    → process_request input prepare_request.0
      ≡ (prepare_response input no_error (some ntpv4) (some aes_siv_cmac_256)).0
unfolding process_request prepare_request add_record fold_records get_record request_record
    read_header
process_request-prepare_request input = refl
