-- ===== src/NtsNtp.antt =====
-- nts_ntp.c: the extension fields that authenticate NTP packets. The buffers of packets are lists of
-- bytes with a length beside them, the context of a cipher is its key, and the random bytes are
-- arguments. Client has the functions of a client.
pub mod Client
pub mod Fields
pub mod Auth
pub mod Requests
pub mod Responses
pub mod Exchange
pub mod Total
mod Tests
use chrony_nts.Prelude.{
  ℕ, zero, suc, ◌+◌, ◌-◌, ◌*◌, ◌/◌, ◌%◌, Bool, true, false, not, ◌&&◌, ◌||◌, List, [], ◌∷◌, ◌++◌,
  Option, none, some, map, min, ltb, leb, ◌==◌, if◌then◌else◌, ◌>>=◌, length, take, drop, replicate,
}
use chrony_nts.NtpExt.{
  be16, packet_size, add_field, Field, Parsed, stop, failed, field, read_header, parse_field,
}
use chrony_nts.NtsKe.{max_cookies, max_cookie_length}
use chrony_nts.NtsKe.Cookies.{Siv, ServerKeys, generate_cookie, decode_cookie}

-- The types of the extension fields.
abbrev pub ef_unique_identifier : ℕ
ef_unique_identifier = 0x0104

abbrev pub ef_cookie : ℕ
ef_cookie = 0x0204

abbrev pub ef_cookie_placeholder : ℕ
ef_cookie_placeholder = 0x0304

abbrev pub ef_auth_and_eef : ℕ
ef_auth_and_eef = 0x0404

abbrev pub nonce_length : ℕ
nonce_length = 16

abbrev pub uniq_id_length : ℕ
uniq_id_length = 32

abbrev pub siv_digest_size : ℕ
siv_digest_size = 16

-- How far a function came: it returned 0, it failed an assertion or read what is undefined, or it goes
-- on.
pub data Step {ℓ} (A : Type ℓ) : Type ℓ where
  rejected broken : Step A
  going : A → Step A

abbrev pub next {ℓ κ} : {A : Type ℓ} → {B : Type κ} → Step A → (A → Step B) → Step B
next rejected f = rejected
next broken f = broken
next (going a) f = f a

abbrev pub or_rejected {ℓ} : {A : Type ℓ} → Option A → Step A
or_rejected none = rejected
or_rejected (some a) = going a

-- The loop over the fields of a packet with a switch on each. Where no field is found the parser
-- returns 0, which is below any position but 0: at 0 the loop goes on with a type that is undefined.
-- Each field takes bytes, so that as many rounds as bytes are enough.
pub walk_fields {ℓ} : {A : Type ℓ} → (A → Field → Step A) → ℕ → List ℕ → ℕ → ℕ → A → Step A
walk_fields on_field zero packet len parsed a = broken
walk_fields on_field (suc fuel) packet len parsed a = elim (parse_field packet len parsed) [
  | stop ↦ if parsed == 0 then broken else going a
  | failed ↦ broken
  | field f ↦ next (on_field a f) (λ b. walk_fields on_field fuel packet len f.parsed b)
]

pub get_padded_length : ℕ → ℕ
get_padded_length n = if n % 4 == 0 then n else n + (4 - n % 4)

-- `struct AuthAndEEF`, with the positions of the nonce and the ciphertext in the packet.
pub record AuthAndEef : Type 0 where
  pub nonce : ℕ
  pub nonce_length : ℕ
  pub ciphertext : ℕ
  pub ciphertext_length : ℕ

-- Where the body of a field starts in the packet.
abbrev pub body_at : Field → ℕ
body_at f = f.parsed - length f.body

pub parse_auth_and_eef : Field → Option AuthAndEef
parse_auth_and_eef f = do
  (nlen, clen, rest) ← read_header f.body
  let start = body_at f + 4 in
      if ltb (length f.body) (get_padded_length nlen + get_padded_length clen)
      then none
      else some (record {
        nonce = start;
        nonce_length = nlen;
        ciphertext = start + get_padded_length nlen;
        ciphertext_length = clen;
      })

abbrev pub slice : List ℕ → ℕ → ℕ → List ℕ
slice packet start size = take size (drop start packet)

-- The decryption that authenticates the packet before the field. `broken` is a size that is negative
-- or a read past the end of the buffer.
pub open_auth : Siv → List ℕ → List ℕ → ℕ → Field → AuthAndEef → Step (List ℕ)
open_auth siv key packet len f auth =
    let assoc = take (len - length f.body - 4) packet in
    let nonce = slice packet auth.nonce auth.nonce_length in
    let text = slice packet auth.ciphertext auth.ciphertext_length in
    if ltb auth.ciphertext_length siv_digest_size
      || ltb (length packet) (auth.ciphertext + auth.ciphertext_length)
    then broken
    else or_rejected (siv.decrypt key nonce assoc text)

-- The variables of `NTS_CheckRequestAuth`: the keys of the cookie, the number of cookies that the client
-- asks for, and whether the packet is authenticated.
pub record Request : Type 0 where
  pub keys : Option (List ℕ × List ℕ)
  pub requested_cookies : ℕ
  pub has_auth : Bool

abbrev pub no_request : Request
no_request = record { keys = none; requested_cookies = 0; has_auth = false }

-- `server_inst`: the key, the nonce and the cookies of the response.
pub record ServerInstance : Type 0 where
  pub siv_s2c : List ℕ
  pub nonce : List ℕ
  pub cookies : List (List ℕ)

module _ (siv : Siv) where
  pub cookie_field : ServerKeys → Request → List ℕ → Step Request
  cookie_field s r body =
      let decoded : Step Request = elim (decode_cookie siv s body) [
        | none ↦ rejected
        | some keys ↦
            going (record r { keys = some keys; requested_cookies = r.requested_cookies + 1 })
      ] in
      elim r.keys [
        | some k ↦ rejected
        | none ↦ if ltb max_cookie_length (length body) then rejected else decoded
      ]

  pub auth_field : List ℕ → ℕ → Request → Field → Step Request
  auth_field packet len r f = elim r.keys [
    | none ↦ rejected
    | some (c2s, s2c) ↦ elim (parse_auth_and_eef f) [
      | none ↦ rejected
      | some auth ↦
          next (open_auth siv c2s packet len f auth) (λ plain. going (record r { has_auth = true }))
    ]
  ]

  -- The switch on the type of a field of a request.
  pub request_field : ServerKeys → List ℕ → ℕ → Request → Field → Step Request
  unfolding cookie_field auth_field
  request_field s packet len r f =
      if f.field_type == ef_cookie
      then cookie_field s r f.body
      else if f.field_type == ef_cookie_placeholder
      then going (record r { requested_cookies = r.requested_cookies + 1 })
      else if f.field_type == ef_auth_and_eef
      then auth_field packet len r f
      else going r

  -- The end of `NTS_CheckRequestAuth`. The nonces of the cookies are drawn.
  pub ready_response : ServerKeys → List ℕ → List (List ℕ) → Request → Step ServerInstance
  ready_response s nonce nonces r =
      let made : List ℕ → List ℕ → ServerInstance = λ c2s s2c. record {
        siv_s2c = s2c;
        nonce = nonce;
        cookies =
            map (λ (n : List ℕ). generate_cookie siv s n c2s s2c)
              (take (min max_cookies r.requested_cookies) nonces);
      } in
      if not r.has_auth
      then rejected
      else elim r.keys [ none ↦ broken | some (c2s, s2c) ↦ going (made c2s s2c) ]

  -- `NTS_CheckRequestAuth` for the packet of a client or not, with its number of fields.
  pub check_request_auth :
      ServerKeys → List ℕ → List (List ℕ) → Bool → ℕ → List ℕ → ℕ → Step ServerInstance
  check_request_auth s nonce nonces from_client ext_fields packet len =
      let walked = walk_fields (request_field s packet len) (suc len) packet len 0 no_request in
      if ext_fields == 0 || not from_client
      then rejected
      else next walked (ready_response s nonce nonces)

-- A packet that is built, and its length.
abbrev pub Packet : Type 0
Packet = List ℕ × ℕ

abbrev pub add_to : Packet → ℕ → List ℕ → Option Packet
add_to (packet, len) field_type body = add_field packet len field_type body

-- The unique ID of the request goes into the response.
pub copy_id : Packet → Field → Step Packet
copy_id response f =
    if f.field_type == ef_unique_identifier
    then or_rejected (add_to response ef_unique_identifier f.body)
    else going response

pub add_each : ℕ → List (List ℕ) → Packet → Option Packet
add_each field_type [] p = some p
add_each field_type (body ∷ rest) p = add_to p field_type body >>= add_each field_type rest

-- The body of a field that authenticates.
abbrev pub auth_body : List ℕ → List ℕ → List ℕ
auth_body nonce sealed = be16 (length nonce) ++ (be16 (length sealed) ++ (nonce ++ sealed))

module _ (siv : Siv) where
  -- The end of `NTS_GenerateResponseAuth`: the cookies are encrypted from a packet whose bytes before them
  -- are never read.
  pub seal_response : ServerInstance → Packet → Step Packet
  unfolding add_each
  seal_response s (response, len) =
      next (or_rejected (add_each ef_cookie s.cookies (replicate packet_size 0, len))) (λ built.
        let (plain, size) = built in
        let sealed =
          siv.encrypt s.siv_s2c s.nonce (take len response) (slice plain len (size - len)) in
        or_rejected (add_field response len ef_auth_and_eef (auth_body s.nonce sealed)))

  pub generate_response_auth : ServerInstance → Bool → Bool → List ℕ → ℕ → Packet → Step Packet
  unfolding copy_id
  generate_response_auth s from_client from_server request req_len response =
      let walked = walk_fields copy_id (suc req_len) request req_len 0 response in
      if not from_client || not from_server then rejected else next walked (seal_response s)
