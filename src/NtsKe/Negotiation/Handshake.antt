-- ===== src/NtsKe/Negotiation/Handshake.antt =====
-- nts_ke.c: a request, the response to it, and what the client takes from the response.
use chrony_nts.Prelude.{
  ℕ, suc, ◌+◌, ◌*◌, ◌/◌, ◌%◌, ◌^◌, ◌≤◌, ◌<◌, ◌≡◌, refl, ap, ◌∙◌, sym, subst, arith, Bool, true,
  List, [], ◌∷◌, ◌++◌, Option, none, some, map, length, length-append, ltb, leb, ◌==◌, ◌&&◌,
  if◌then◌else◌, Bool-cases, inl, inr,
}
use mathlib.Core.List.{append-nil, append_assoc}
use chrony_nts.Addressing.{IpAddr}
use chrony_nts.NtpExt.{be16, read_header}
use chrony_nts.NtsKe.{
  Message, KeRecord, msg_ok, max_cookie_length, ntpv4, aes_siv_cmac_256, no_error, reset_message,
  add_record, check_message_format, fold_records, get_record, KeError, is_none, read_records,
}
use chrony_nts.NtsKe.Negotiation.{
  prepare_request, ResponseInput, process_request, Accepted, response_record, process_response,
  nothing_yet,
}
use chrony_nts.NtsKe.Records.{encode, IsRecord, AreRecords}
use chrony_nts.NtsKe.Format.{nil-IsStuck, fold_list, fold_records-encode}
use chrony_nts.NtsKe.Check.{check_message_format-whole, records-le-bytes, AreRecords-append}
use chrony_nts.NtsKe.Negotiation.Sending.{
  a_record, the_end, of_cookie, heads, holding, AreCookies, response, prepare_response-encode,
  process_request-prepare_request,
}

AreRecords-response :
    (port : ℕ) (cs : List (List ℕ)) → AreCookies cs → AreRecords (heads port ++ map of_cookie cs)
AreRecords-response port cs h = elim (Bool-cases (port == 123)) [
  | inl e ↦ rw e (head ntpv4 1 (omega arith), (head aes_siv_cmac_256 4 (omega arith), rest cs h))
  | inr e ↦ rw e (
    head ntpv4 1 (omega arith),
    (head aes_siv_cmac_256 4 (omega arith), (head port 7 (omega arith), rest cs h)),
  )
]
  where
    head : (n t : ℕ) → t < 2 ^ 15 → IsRecord (a_record true t (be16 n))
    head n t h = record { small_type = h; short = omega arith }

    rest : (cs : List (List ℕ)) → AreCookies cs → AreRecords (map of_cookie cs)
    rest [] h = tt
    rest (c ∷ cs) h = (record { small_type = omega arith; short = omega (arith, h.0) }, rest cs h.1)

module _ (to_ip : List ℕ → Option IpAddr) (most : ℕ) where
  abbrev error_of : Accepted → KeError
  error_of a = a.negotiated.error

  -- Cookies are taken while there is room, up to the end of the message.
  fold-cookies :
      (cs : List (List ℕ)) (a : Accepted)
      → AreCookies cs
      → error_of a ≡ no_error
      → length a.cookies + length cs ≤ most
      → fold_list error_of (response_record to_ip most) (map of_cookie cs ++ the_end ∷ []) a
        ≡ record a { cookies = a.cookies ++ cs }
  unfolding response_record
  fold-cookies [] a h fine room =
      let running : is_none (error_of a) ≡ true = ap is_none fine in
      let same = sym (append-nil a.cookies) in rw running (λ i. record a { cookies = same i })
  fold-cookies (c ∷ cs) a h fine room =
      let running : is_none (error_of a) ≡ true = ap is_none fine in
      let taken : (leb (length c) max_cookie_length && ltb (length a.cookies) most) ≡ true =
        both (length c) (length a.cookies) h.0 (omega arith) in
      let assoc = append_assoc a.cookies (c ∷ []) cs in
      rw running (
        rw taken (
          fold-cookies cs (record a { cookies = a.cookies ++ c ∷ [] }) h.1 fine
            (omega (arith, length-append {0} a.cookies (c ∷ [])))
          ∙ (λ i. record a { cookies = assoc i })))
    where
      both :
          (m n : ℕ)
          → m ≤ max_cookie_length
          → n < most
          → (leb m max_cookie_length && ltb n most) ≡ true
      both m n h k = ground arith

  abbrev start : Accepted
  start = record { negotiated = nothing_yet; cookies = []; address = none; port = none }

  -- What the records before the cookies lead to.
  abbrev ready : ℕ → Accepted
  ready port = record start {
    negotiated = record nothing_yet { protocol = some ntpv4; aead = some aes_siv_cmac_256 };
    port = if port == 123 then none else some port;
  }

  fold-heads :
      (port : ℕ) (rest : List KeRecord)
      → port < 2 ^ 16
      → fold_list error_of (response_record to_ip most) (heads port ++ rest) start
        ≡ fold_list error_of (response_record to_ip most) rest (ready port)
  unfolding response_record
  fold-heads port rest h = elim (Bool-cases (port == 123)) [
    | inl e ↦ rw e refl
    | inr e ↦
        let whole : port / 256 % 256 * 256 + port % 256 ≡ port = omega arith in
        rw e (
          ap
            (λ (n : ℕ).
              fold_list error_of (response_record to_ip most) rest
                (record (ready 123) { port = some n }))
            whole)
  ]

  response-fold :
      (port : ℕ) (cs : List (List ℕ))
      → AreCookies cs
      → length cs ≤ most
      → port < 2 ^ 16
      → let bytes = encode (response port cs) in
        fold_records error_of
          (response_record to_ip most)
          (suc (length bytes))
          (holding bytes)
          start
        ≡ record (ready port) { cookies = cs }
  response-fold port cs h room small =
      let records = response port cs in
      let bytes = encode records in
      let same = sym (append-nil bytes) in
      let all : AreRecords records =
        subst AreRecords (append_assoc (heads port) (map of_cookie cs) (the_end ∷ [])) (
          AreRecords-append (heads port ++ map of_cookie cs) the_end (AreRecords-response port cs h)
            (record { small_type = omega arith; short = omega arith })) in
      (λ i.
        fold_records error_of (response_record to_ip most) (suc (length bytes)) (holding (same i))
          start)
      ∙ fold_records-encode error_of (response_record to_ip most) (suc (length bytes)) reset_message
          [] [] records start all nil-IsStuck (omega (arith, records-le-bytes records))
      ∙ fold-heads port (map of_cookie cs ++ the_end ∷ []) small
      ∙ fold-cookies cs (ready port) h refl (omega arith)

  process_response-encode :
      (port : ℕ) (cs : List (List ℕ))
      → AreCookies cs
      → length cs ≤ most
      → port < 2 ^ 16
      → process_response to_ip most (holding (encode (response port cs)))
        ≡ (cs, none, if port == 123 then none else some port)
  unfolding process_response
  process_response-encode port cs h room small = rw (response-fold port cs h room small) refl

  response-ok :
      (port : ℕ) (cs : List (List ℕ))
      → AreCookies cs
      → (check_message_format (holding (encode (response port cs)))).0 ≡ msg_ok
  response-ok port cs h =
      let assoc = sym (append_assoc (heads port) (map of_cookie cs) (the_end ∷ [])) in
      (λ i. (check_message_format (holding (encode (assoc i)))).0)
      ∙ check_message_format-whole reset_message (heads port ++ map of_cookie cs) the_end 0
          (AreRecords-response port cs h) (record { small_type = omega arith; short = omega arith })

request-ok : (check_message_format prepare_request.0).0 ≡ msg_ok
unfolding check_message_format read_records get_record prepare_request add_record read_header
request-ok = refl

module _ (to_ip : List ℕ → Option IpAddr) (most : ℕ) where
  -- A server that has the keys of the session answers a client's request with a message that passes the
  -- check of the format, as the request does, and the client takes all its cookies from it, and the
  -- port if it is not 123. Conditions: there are at most eight cookies, none of more than 256 bytes,
  -- the client has room for them, and the port fits in 16 bits.
  pub process_response-process_request :
      (input : ResponseInput) (cs : List (List ℕ))
      → input.cookies ≡ some cs
      → AreCookies cs
      → length cs ≤ 8
      → length cs ≤ most
      → input.ntp_port < 2 ^ 16
      → ((check_message_format prepare_request.0).0 ≡ msg_ok)
        × ((check_message_format (process_request input prepare_request.0)).0 ≡ msg_ok)
        × (process_response to_ip most (process_request input prepare_request.0)
            ≡ (cs, none, if input.ntp_port == 123 then none else some input.ntp_port))
  process_response-process_request input cs e h few room port =
      let sent =
        process_request-prepare_request input
        ∙ ap (λ (x : Message × Bool). x.0) (prepare_response-encode input cs e h few) in
      (
        request-ok,
        rw sent (response-ok to_ip most input.ntp_port cs h),
        rw sent (process_response-encode to_ip most input.ntp_port cs h room port),
      )
