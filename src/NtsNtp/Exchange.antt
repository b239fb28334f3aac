-- ===== src/NtsNtp/Exchange.antt =====
-- nts_ntp.c: a request of a client and the response of the server to it, from end to end.
use chrony_nts.Prelude.{
  ℕ, zero, suc, ◌+◌, ◌-◌, ◌*◌, ◌≤◌, ◌<◌, ◌≡◌, refl, ◌∙◌, arith, true, false, List, [], ◌∷◌, ◌++◌,
  some, ◌==◌, length, take, length-map, length-take,
}
use chrony_nts.NtpExt.{version, header_length}
use chrony_nts.NtpExt.Chain.{version-Begins, encode_fields, Begins}
use chrony_nts.NtsKe.{max_cookies}
use chrony_nts.NtsKe.Cookies.{
  Siv, IsSiv, ServerKeys, generate_cookie, decode_cookie, cookie_size, key_size,
}
use chrony_nts.NtsKe.Cookies.Rotation.{length-generate_cookie}
use chrony_nts.NtsNtp.{
  going, auth_body, ef_unique_identifier, ef_cookie, ef_auth_and_eef, ServerInstance,
  check_request_auth, generate_response_auth, uniq_id_length, nonce_length,
}
use chrony_nts.NtsNtp.Requests.{
  request_fields-AreFields, length-request_fields, response_cookies, request_fields,
  check_request_auth-generate_request_auth,
}
use chrony_nts.NtsNtp.Responses.{AreFull, HasNoId, generate_response_auth-Begins}
use chrony_nts.NtsNtp.Client.{ClientInstance, generate_request_auth, check_response_auth}
use chrony_nts.NtsNtp.Client.Sending.{
  placeholders, sealed_of, cookie_of, open_fields, used_cookie, request_length,
}
use chrony_nts.NtsNtp.Client.Receiving.{
  num_cookies-store_all, store_all, check_response_auth-encode,
}

-- What the nonces of cookies are.
abbrev pub AreNonces : List (List ℕ) → Type 0
AreNonces [] = Unit {0}
AreNonces (n ∷ ns) = (length n ≡ nonce_length) × AreNonces ns

AreNonces-take : (k : ℕ) (ns : List (List ℕ)) → AreNonces ns → AreNonces (take k ns)
AreNonces-take zero ns h = tt
AreNonces-take (suc k) [] h = tt
AreNonces-take (suc k) (n ∷ ns) h = (h.0, AreNonces-take k ns h.1)

AreFull-response_cookies :
    (siv : Siv) (s : ServerKeys) (ns : List (List ℕ)) (c2s s2c : List ℕ)
    → IsSiv siv
    → AreNonces ns
    → length c2s ≡ key_size
    → length s2c ≡ key_size
    → AreFull (response_cookies siv s ns c2s s2c)
AreFull-response_cookies siv s [] c2s s2c good h lc ls = tt
AreFull-response_cookies siv s (n ∷ ns) c2s s2c good h lc ls = (
  length-generate_cookie siv s n c2s s2c good h.0 lc ls,
  AreFull-response_cookies siv s ns c2s s2c good h.1 lc ls,
)

HasNoId-placeholders :
    (k : ℕ) (cookie : List ℕ) (last : ℕ × List ℕ)
    → (last.0 == ef_unique_identifier) ≡ false
    → HasNoId (placeholders k cookie ++ last ∷ [])
HasNoId-placeholders zero cookie last h = (h, tt)
HasNoId-placeholders (suc k) cookie last h = (refl, HasNoId-placeholders k cookie last h)

-- A client that has a cookie, and eight at most, sends a request, the server accepts it and answers,
-- and the client accepts the response and stores the new cookies in it, so that it has eight again.
-- Conditions: the cipher gives back what it encrypts, both packets are NTPv4 headers in buffers of
-- full size and are counted to have extension fields when they are checked, the cookie was made for
-- the keys of the client and the server still has its key, and the unique ID, the keys, the nonces
-- and the cookie have their lengths, with eight nonces for the cookies.
pub check_response_auth-generate_response_auth :
    (siv : Siv) (s : ServerKeys) (c : ClientInstance) (header q header' q' nonce : List ℕ)
    (nonces : List (List ℕ)) (ext_fields ext_fields' : ℕ)
    → IsSiv siv
    → Begins header q header_length
    → version header ≡ 4
    → Begins header' q' header_length
    → version header' ≡ 4
    → length c.uniq_id ≡ uniq_id_length
    → length c.nonce ≡ nonce_length
    → length nonce ≡ nonce_length
    → AreNonces nonces
    → length nonces ≡ max_cookies
    → length c.siv_c2s ≡ key_size
    → length c.siv_s2c ≡ key_size
    → length (cookie_of c) ≡ cookie_size
    → decode_cookie siv s (cookie_of c) ≡ some (c.siv_c2s, c.siv_s2c)
    → 0 < c.num_cookies
    → c.num_cookies ≤ max_cookies
    → 0 < ext_fields
    → 0 < ext_fields'
    → let new =
        response_cookies siv s
          (take (max_cookies + 1 - c.num_cookies) nonces)
          c.siv_c2s
          c.siv_s2c in
      let server : ServerInstance = record { siv_s2c = c.siv_s2c; nonce = nonce; cookies = new } in
      let length' = 124 + 104 * length new in
      (r : List ℕ) × (t : List ℕ) × (generate_request_auth siv c (q, header_length)
        ≡ some ((r, request_length c), used_cookie c))
      × (check_request_auth siv s nonce nonces true ext_fields r (request_length c) ≡ going server)
      × (generate_response_auth siv server true true r (request_length c) (q', header_length)
          ≡ going (t, length'))
      × (check_response_auth siv (used_cookie c) true ext_fields' t length'
          ≡ going (store_all new (used_cookie c)))
      × ((store_all new (used_cookie c)).num_cookies ≡ max_cookies)
check_response_auth-generate_response_auth siv s c header q header' q' nonce nonces ext_fields
      ext_fields' good h v4 h' v4' lu lcn ln ns count lc ls lk decoded some_left few ext ext' =
    let k = max_cookies - c.num_cookies in
    let amount = max_cookies + 1 - c.num_cookies in
    let new = response_cookies siv s (take amount nonces) c.siv_c2s c.siv_s2c in
    let server : ServerInstance = record { siv_s2c = c.siv_s2c; nonce = nonce; cookies = new } in
    let len = request_length c in
    let (r, sent, accepted, b) =
      check_request_auth-generate_request_auth siv s c header q c.siv_s2c nonce nonces ext_fields
        good h v4 lu lcn lk decoded some_left few ext in
    let full : AreFull new =
      AreFull-response_cookies siv s (take amount nonces) c.siv_c2s c.siv_s2c good
        (AreNonces-take amount nonces ns) lc ls in
    let new_count : length new ≡ amount = omega (
      arith,
      length-map (take amount nonces) (λ (n : List ℕ). generate_cookie siv s n c.siv_c2s c.siv_s2c),
      length-take amount nonces,
    ) in
    let body = auth_body c.nonce (sealed_of siv c (header ++ encode_fields (open_fields c))) in
    let last : ℕ × List ℕ = (ef_auth_and_eef, body) in
    let rest : List (ℕ × List ℕ) =
      (ef_cookie, cookie_of c) ∷ placeholders k (cookie_of c) ++ last ∷ [] in
    let r_v4 =
      version-Begins header (encode_fields (request_fields siv c header)) r len b
        (omega (arith, h.size))
      ∙ v4 in
    let few_fields : length rest < len = omega (arith, length-request_fields siv c header) in
    let (t, answered, d) =
      generate_response_auth-Begins siv server header r c.uniq_id header' q' len rest good b h.size
        r_v4 (request_fields-AreFields siv c header good lu lcn lk)
        (refl, HasNoId-placeholders k (cookie_of c) last refl) (omega arith) few_fields lu h' full
        (omega arith) ln in
    let taken =
      check_response_auth-encode siv (used_cookie c) header' c.uniq_id nonce t new ext_fields' good
        h'.size v4' lu ln full (omega arith) ext' d in
    (r, t, sent, accepted, answered, taken, num_cookies-store_all new (used_cookie c) ∙ omega arith)
