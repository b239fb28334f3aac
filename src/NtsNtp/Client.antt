-- ===== src/NtsNtp/Client.antt =====
-- nts_ntp.c: the cookies of a client and the fields that it adds and checks.
pub mod Sending
pub mod Receiving
pub mod Identity
pub mod Total
pub mod Stock
pub mod Filling
use chrony_nts.Prelude.{
  ℕ, zero, suc, ◌+◌, ◌-◌, ◌*◌, ◌/◌, ◌%◌, Bool, true, false, not, ◌&&◌, ◌||◌, List, [], ◌∷◌, ◌++◌,
  Option, none, some, ltb, leb, ◌==◌, if◌then◌else◌, ◌>>=◌, length, take, drop, get_or, set,
  replicate,
}
use chrony_nts.Addressing.{IpAddr}
use chrony_nts.NtpExt.{header_length, be16, Field, Parsed, stop, failed, field, parse_field}
use chrony_nts.NtsKe.{max_cookies, max_cookie_length}
use chrony_nts.NtsKe.Cookies.{Siv}
use chrony_nts.NtsNtp.{
  Step, rejected, broken, going, next, walk_fields, Packet, add_to, auth_body, parse_auth_and_eef,
  open_auth, ef_unique_identifier, ef_cookie, ef_cookie_placeholder, ef_auth_and_eef,
  siv_digest_size, uniq_id_length,
}

-- `struct NTS_ClientInstance_Record` without the address, the port and the name of the server; of the
-- key establishment there is only whether it runs.
pub record ClientInstance : Type 0 where
  pub has_nke : Bool
  pub cookies : List (List ℕ)
  pub num_cookies : ℕ
  pub cookie_index : ℕ
  pub siv_c2s : List ℕ
  pub siv_s2c : List ℕ
  pub nonce : List ℕ
  pub uniq_id : List ℕ

abbrev pub no_cookie : List ℕ
no_cookie = []

pub create_client_instance : ClientInstance
create_client_instance = record {
  has_nke = false;
  cookies = replicate max_cookies no_cookie;
  num_cookies = 0;
  cookie_index = 0;
  siv_c2s = [];
  siv_s2c = [];
  nonce = replicate 16 0;
  uniq_id = replicate uniq_id_length 0;
}

abbrev pub needs_nke : ClientInstance → Bool
needs_nke c = c.num_cookies == 0

-- What the key establishment has: its cookies, whether it is closed, the address of the NTP server if
-- it gave one, and the two keys.
pub record NkeAnswer : Type 0 where
  pub cookies : List (List ℕ)
  pub is_closed : Bool
  pub ntp_address : Option (IpAddr × ℕ)
  pub keys : Option (List ℕ × List ℕ)

-- The calls of `NKE_OpenClientConnection` and `NSR_ReplaceSource`.
pub data NkeCall : Type 0 where
  open_connection : NkeCall
  replace_source : IpAddr × ℕ → NkeCall

abbrev replacement : Option (IpAddr × ℕ) → List NkeCall
replacement none = []
replacement (some address) = replace_source address ∷ []

-- The cookies over the first slots.
abbrev pub fill : List (List ℕ) → List (List ℕ) → List (List ℕ)
fill new old = take max_cookies new ++ drop (length (take max_cookies new)) old

pub get_nke_data : NkeAnswer → ClientInstance → ClientInstance × List NkeCall
get_nke_data answer c =
    let got = length (take max_cookies answer.cookies) in
    let t = record c {
      has_nke = true;
      cookie_index = 0;
      num_cookies = got;
      cookies = fill answer.cookies c.cookies;
    } in
    if got == 0
    then (t, if answer.is_closed then open_connection ∷ [] else [])
    else elim answer.keys [
      | none ↦ (record t { num_cookies = 0 }, replacement answer.ntp_address)
      | some (c2s, s2c) ↦ (
        record t { has_nke = false; siv_c2s = c2s; siv_s2c = s2c },
        replacement answer.ntp_address,
      )
    ]

-- `NTS_PrepareForAuth`, with the unique ID and the nonce that are drawn.
pub prepare_for_auth :
    NkeAnswer → List ℕ → List ℕ → ClientInstance → ClientInstance × List NkeCall × Bool
unfolding get_nke_data
prepare_for_auth answer uniq_id nonce c =
    let (t, calls) = get_nke_data answer c in
    if not (needs_nke c)
    then (c, [], true)
    else if needs_nke t
    then (t, calls, false)
    else (record t { uniq_id = uniq_id; nonce = nonce }, calls, true)

pub add_placeholders : ℕ → List ℕ → Packet → Option Packet
add_placeholders zero cookie p = some p
add_placeholders (suc n) cookie p =
    add_to p ef_cookie_placeholder cookie >>= add_placeholders n cookie

-- `memcmp` finds no difference.
abbrev pub equal_bytes : List ℕ → List ℕ → Bool
equal_bytes [] [] = true
equal_bytes (x ∷ xs) (y ∷ ys) = x == y && equal_bytes xs ys
equal_bytes _ _ = false

-- The variables of `NTS_CheckResponseAuth`: whether there was a unique ID, and what was decrypted.
pub record Response : Type 0 where
  pub has_uniq_id : Bool
  pub plaintext : Option (List ℕ)

abbrev pub max_extensions_length : ℕ
max_extensions_length = 1092

-- A cookie behind the ones that there are.
pub store_cookie : ClientInstance → List ℕ → ClientInstance
store_cookie c body = record c {
  cookies = set c.cookies ((c.cookie_index + c.num_cookies) % max_cookies) body;
  num_cookies = c.num_cookies + 1;
}

-- `extract_cookies`: each field takes bytes, so that as many rounds as bytes are enough. `none` is a failed
-- assertion.
pub extract_cookies : ℕ → List ℕ → ℕ → ℕ → ClientInstance → Option ClientInstance
unfolding store_cookie
extract_cookies zero packet len parsed c = none
extract_cookies (suc fuel) packet len parsed c = elim (parse_field packet len parsed) [
  | stop ↦ some c
  | failed ↦ none
  | field f ↦
      let skipped = extract_cookies fuel packet len f.parsed c in
      let stored = extract_cookies fuel packet len f.parsed (store_cookie c f.body) in
      if leb f.parsed parsed
      then some c
      else if not (f.field_type == ef_cookie)
      then skipped
      else if leb max_cookies c.num_cookies || ltb max_cookie_length (length f.body)
      then some c
      else stored
]

-- What was decrypted, as a packet: its first byte is that of the response.
abbrev pub as_packet : List ℕ → List ℕ → List ℕ
as_packet packet plain = get_or packet 0 0 ∷ (replicate (header_length - 1) 0 ++ plain)

-- The end of `NTS_CheckResponseAuth`.
pub take_cookies : ClientInstance → List ℕ → Response → Step ClientInstance
unfolding extract_cookies
take_cookies c packet r = elim r.plaintext [
  | none ↦ rejected
  | some plain ↦
      let len = header_length + length plain in
      let taken : Step ClientInstance =
        elim (extract_cookies (suc len) (as_packet packet plain) len 0 c) [
          | none ↦ broken
          | some t ↦ going t
        ] in
      if r.has_uniq_id then taken else rejected
]

module _ (siv : Siv) where
  -- The packet with its fields, and the client with a cookie less.
  pub generate_request_auth : ClientInstance → Packet → Option (Packet × ClientInstance)
  unfolding add_placeholders
  generate_request_auth c p =
      let cookie = get_or c.cookies c.cookie_index no_cookie in
      let seal : Packet → List ℕ = λ q. siv.encrypt c.siv_c2s c.nonce (take q.1 q.0) [] in
      let used = record c {
        num_cookies = c.num_cookies - 1;
        cookie_index = (c.cookie_index + 1) % max_cookies;
      } in
      let built = do
        with_id ← add_to p ef_unique_identifier c.uniq_id
        with_cookie ← add_to with_id ef_cookie cookie
        whole ← add_placeholders (max_cookies - c.num_cookies) cookie with_cookie
        done ← add_to whole ef_auth_and_eef (auth_body c.nonce (seal whole))
        some (done, used)
      in if needs_nke c then none else built

  -- The switch on the type of a field of a response. The unique ID of the client is compared with itself.
  pub response_field : ClientInstance → List ℕ → ℕ → Response → Field → Step Response
  response_field c packet len r f =
      let opened : Step Response = elim (parse_auth_and_eef f) [
        | none ↦ rejected
        | some auth ↦
            if ltb auth.ciphertext_length siv_digest_size
              || ltb max_extensions_length auth.ciphertext_length
            then rejected
            else next (open_auth siv c.siv_s2c packet len f auth)
                (λ plain. going (record r { plaintext = some plain }))
      ] in
      if f.field_type == ef_unique_identifier
      then if not (length f.body == uniq_id_length) || not (equal_bytes c.uniq_id c.uniq_id)
        then rejected
        else going (record r { has_uniq_id = true })
      else if f.field_type == ef_auth_and_eef
      then if not (f.parsed == len) then rejected else opened
      else going r

  -- `NTS_CheckResponseAuth` for the packet of a server or not, with its number of fields.
  pub check_response_auth : ClientInstance → Bool → ℕ → List ℕ → ℕ → Step ClientInstance
  check_response_auth c from_server ext_fields packet len =
      let start : Response = record { has_uniq_id = false; plaintext = none } in
      let walked =
        walk_fields (response_field c packet len) (suc len) packet len header_length start in
      if ext_fields == 0 || not from_server then rejected else next walked (take_cookies c packet)
