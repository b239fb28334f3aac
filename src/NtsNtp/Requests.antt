-- ===== src/NtsNtp/Requests.antt =====
-- nts_ntp.c: the request of a client, and what the server makes of it.
use chrony_nts.Prelude.{
  ℕ, zero, suc, ◌+◌, ◌-◌, ◌*◌, ◌≤◌, ◌<◌, ◌≡◌, refl, ap, ◌∙◌, subst, arith, true, false, not, ◌||◌,
  List, [], ◌∷◌, ◌++◌, some, map, min, ltb, ◌==◌, length, take, length-append, length-replicate,
}
use mathlib.Core.List.{append_assoc}
use chrony_nts.NtpExt.{packet_size, version, header_length, Field}
use chrony_nts.NtpExt.Chain.{
  version-Begins, encode_fields-last, encode_field, encode_fields, Begins, AreFields, field_of,
}
use chrony_nts.NtsKe.{max_cookies}
use chrony_nts.NtsKe.Cookies.{Siv, IsSiv, ServerKeys, generate_cookie, decode_cookie, cookie_size}
use chrony_nts.NtsNtp.{
  AuthAndEef, parse_auth_and_eef, open_auth, Step, going, next, or_rejected, auth_body,
  ef_unique_identifier, ef_cookie, ef_cookie_placeholder, ef_auth_and_eef, Request, no_request,
  request_field, cookie_field, auth_field, ready_response, check_request_auth, uniq_id_length,
  nonce_length,
}
use chrony_nts.NtsNtp.Fields.{fold_fields, walk_fields-all}
use chrony_nts.NtsNtp.Auth.{auth_of, parse_auth_and_eef-auth_body, open_auth-auth_body}
use chrony_nts.NtsNtp.Client.{ClientInstance, generate_request_auth}
use chrony_nts.NtsNtp.Client.Sending.{
  placeholders, sealed_of, cookie_of, open_fields, used_cookie, request_length,
  generate_request_auth-Begins,
}

pub AreFields-append :
    (fs gs : List (ℕ × List ℕ)) → AreFields fs → AreFields gs → AreFields (fs ++ gs)
AreFields-append [] gs h k = k
AreFields-append (f ∷ fs) gs h k = (h.0, AreFields-append fs gs h.1 k)

AreFields-placeholders :
    (k : ℕ) (cookie : List ℕ) → length cookie ≡ 100 → AreFields (placeholders k cookie)
AreFields-placeholders zero cookie h = tt
AreFields-placeholders (suc k) cookie h = (
  record { small_type = omega arith; aligned = omega arith; long = omega arith },
  AreFields-placeholders k cookie h,
)

pub AreFields-open :
    (c : ClientInstance)
    → length c.uniq_id ≡ 32
    → length (cookie_of c) ≡ 100
    → AreFields (open_fields c)
AreFields-open c lu lc = (
  record { small_type = omega arith; aligned = omega arith; long = omega arith },
  (
    record { small_type = omega arith; aligned = omega arith; long = omega arith },
    AreFields-placeholders (max_cookies - c.num_cookies) (cookie_of c) lc,
  ),
)

module _ (siv : Siv) (s : ServerKeys) (packet : List ℕ) (len : ℕ) where
  abbrev on_field : Request → Field → Step Request
  on_field = request_field siv s packet len

  abbrev with_keys : List ℕ → List ℕ → ℕ → Request
  with_keys c2s s2c n = record { keys = some (c2s, s2c); requested_cookies = n; has_auth = false }

  fold-placeholders :
      (k start : ℕ) (cookie : List ℕ) (last : ℕ × List ℕ) (c2s s2c : List ℕ) (n : ℕ)
      → fold_fields on_field start (placeholders k cookie ++ last ∷ []) (with_keys c2s s2c n)
        ≡ fold_fields on_field
            (start + (4 + length cookie) * k)
            (last ∷ [])
            (with_keys c2s s2c (n + k))
  unfolding request_field
  fold-placeholders zero start cookie last c2s s2c n =
      let a : start ≡ start + (4 + length cookie) * 0 = omega arith in
      let b : n ≡ n + 0 = omega arith in
      λ i. fold_fields on_field (a i) (last ∷ []) (with_keys c2s s2c (b i))
  fold-placeholders (suc k) start cookie last c2s s2c n =
      let a : start + (4 + length cookie) + (4 + length cookie) * k
          ≡ start + (4 + length cookie) * suc k =
        omega arith in
      let b : n + 1 + k ≡ n + suc k = omega arith in
      fold-placeholders k (start + (4 + length cookie)) cookie last c2s s2c (n + 1)
      ∙ (λ i. fold_fields on_field (a i) (last ∷ []) (with_keys c2s s2c (b i)))

  fold-open :
      (c : ClientInstance) (last : ℕ × List ℕ) (s2c : List ℕ)
      → length (cookie_of c) ≡ 100
      → decode_cookie siv s (cookie_of c) ≡ some (c.siv_c2s, s2c)
      → let k = max_cookies - c.num_cookies in
        fold_fields on_field header_length (open_fields c ++ last ∷ []) no_request
        ≡ fold_fields on_field
            (header_length + (4 + length c.uniq_id) + (4 + length (cookie_of c)) * (1 + k))
            (last ∷ [])
            (with_keys c.siv_c2s s2c (1 + k))
  unfolding request_field cookie_field
  fold-open c last s2c size decoded =
      let k = max_cookies - c.num_cookies in
      let short : ltb 256 (length (cookie_of c)) ≡ false = ground arith in
      let start = header_length + (4 + length c.uniq_id) + (4 + length (cookie_of c)) in
      let same : start + (4 + length (cookie_of c)) * k
          ≡ header_length + (4 + length c.uniq_id) + (4 + length (cookie_of c)) * (1 + k) =
        omega arith in
      rw short (
        rw decoded (
          fold-placeholders k start (cookie_of c) last c.siv_c2s s2c 1
          ∙ (λ i. fold_fields on_field (same i) (last ∷ []) (with_keys c.siv_c2s s2c (1 + k)))))

  auth_field-opened :
      (c2s s2c plain : List ℕ) (n : ℕ) (f : Field) (auth : AuthAndEef)
      → parse_auth_and_eef f ≡ some auth
      → open_auth siv c2s packet len f auth ≡ going plain
      → auth_field siv packet len (with_keys c2s s2c n) f
        ≡ going (record { keys = some (c2s, s2c); requested_cookies = n; has_auth = true })
  unfolding auth_field
  auth_field-opened c2s s2c plain n f auth p o = rw (p, auth_field) (rw o refl)

  -- The last field authenticates the bytes before it.
  fold-auth :
      (before nonce c2s s2c : List ℕ) (start n : ℕ)
      → IsSiv siv
      → let sealed = siv.encrypt c2s nonce before [] in
        take len packet ≡ before ++ encode_field ef_auth_and_eef (auth_body nonce sealed)
        → length before ≡ start
        → length nonce ≡ 16
        → length packet ≡ packet_size
        → start + 40 ≡ len
        → len ≤ packet_size
        → fold_fields on_field start
            ((ef_auth_and_eef, auth_body nonce sealed) ∷ [])
            (with_keys c2s s2c n)
          ≡ going (record { keys = some (c2s, s2c); requested_cookies = n; has_auth = true })
  unfolding request_field
  fold-auth before nonce c2s s2c start n good e size ln full total fits =
      let sealed = siv.encrypt c2s nonce before [] in
      let ls : length sealed ≡ 16 = good.encrypt_length c2s nonce before [] in
      let parsed =
        parse_auth_and_eef-auth_body start ef_auth_and_eef nonce sealed ln (omega arith)
          (omega arith) in
      let opened =
        open_auth-auth_body siv c2s before packet nonce sealed len start ef_auth_and_eef e size ln
          (omega arith) full (omega (arith, length-append {0} nonce sealed)) fits
        ∙ ap or_rejected (good.decrypt_encrypt c2s nonce before []) in
      ap (λ (x : Step Request). next x going)
        (auth_field-opened c2s s2c [] n (field_of start ef_auth_and_eef (auth_body nonce sealed))
          (auth_of start sealed) parsed opened)

-- The fields of a request.
abbrev pub request_fields : Siv → ClientInstance → List ℕ → List (ℕ × List ℕ)
request_fields siv c header =
    open_fields c
    ++ (
      ef_auth_and_eef,
      auth_body c.nonce (sealed_of siv c (header ++ encode_fields (open_fields c))),
    )
      ∷ []

pub request_fields-AreFields :
    (siv : Siv) (c : ClientInstance) (header : List ℕ)
    → IsSiv siv
    → length c.uniq_id ≡ 32
    → length c.nonce ≡ 16
    → length (cookie_of c) ≡ 100
    → AreFields (request_fields siv c header)
request_fields-AreFields siv c header good lu ln lc =
    let before = header ++ encode_fields (open_fields c) in
    let sealed = sealed_of siv c before in
    let ls : length sealed ≡ 16 = good.encrypt_length c.siv_c2s c.nonce before [] in
    let size = length-append {0} c.nonce sealed in
    AreFields-append (open_fields c) ((ef_auth_and_eef, auth_body c.nonce sealed) ∷ [])
      (AreFields-open c lu lc)
      (record { small_type = omega arith; aligned = omega arith; long = omega arith }, tt)

pub length-request_fields :
    (siv : Siv) (c : ClientInstance) (header : List ℕ)
    → length (request_fields siv c header) ≡ 3 + (max_cookies - c.num_cookies)
length-request_fields siv c header =
    let k = max_cookies - c.num_cookies in
    let placeholder : ℕ × List ℕ = (ef_cookie_placeholder, cookie_of c) in
    let sealed = sealed_of siv c (header ++ encode_fields (open_fields c)) in
    omega (
      arith,
      length-append {0} (placeholders k (cookie_of c))
          ((ef_auth_and_eef, auth_body c.nonce sealed) ∷ []),
      length-replicate k placeholder,
    )

abbrev pub response_cookies : Siv → ServerKeys → List (List ℕ) → List ℕ → List ℕ → List (List ℕ)
response_cookies siv s nonces c2s s2c = map (λ (n : List ℕ). generate_cookie siv s n c2s s2c) nonces

-- A client with cookies sends a request that the server accepts: it gets the keys of the session from
-- the cookie, and prepares as many new cookies as the client lacks after it has used this one. The
-- client goes on to its next cookie. The request is the header and the fields. Conditions: the cipher gives back what it encrypts, the packet is an
-- NTPv4 header in a buffer of full size, the cookie was made for the keys of the client and the server
-- still has its key, and the lengths of the unique ID, the nonce and the cookie are right.
pub check_request_auth-generate_request_auth :
    (siv : Siv) (s : ServerKeys) (c : ClientInstance) (header q s2c nonce : List ℕ)
    (nonces : List (List ℕ)) (ext_fields : ℕ)
    → IsSiv siv
    → Begins header q header_length
    → version header ≡ 4
    → length c.uniq_id ≡ uniq_id_length
    → length c.nonce ≡ nonce_length
    → length (cookie_of c) ≡ cookie_size
    → decode_cookie siv s (cookie_of c) ≡ some (c.siv_c2s, s2c)
    → 0 < c.num_cookies
    → c.num_cookies ≤ max_cookies
    → 0 < ext_fields
    → (r : List ℕ) × (generate_request_auth siv c (q, header_length)
        ≡ some ((r, request_length c), used_cookie c))
      × (check_request_auth siv s nonce nonces true ext_fields r (request_length c)
          ≡ going (record {
            siv_s2c = s2c;
            nonce = nonce;
            cookies =
                response_cookies siv s
                  (take (max_cookies + 1 - c.num_cookies) nonces)
                  c.siv_c2s
                  s2c;
          }))
      × Begins (header ++ encode_fields (request_fields siv c header)) r (request_length c)
unfolding check_request_auth ready_response
check_request_auth-generate_request_auth siv s c header q s2c nonce nonces ext_fields good h v4 lu
      ln lc decoded some_left few ext =
    let k = max_cookies - c.num_cookies in
    let len = request_length c in
    let before = header ++ encode_fields (open_fields c) in
    let sealed = sealed_of siv c before in
    let ls : length sealed ≡ 16 = good.encrypt_length c.siv_c2s c.nonce before [] in
    let body = auth_body c.nonce sealed in
    let body_size = length-append {0} c.nonce sealed in
    let (r, sent, b) = generate_request_auth-Begins siv c header q good h lu lc ln some_left few in
    let fields = request_fields siv c header in
    let bytes : before ++ encode_field ef_auth_and_eef body ≡ header ++ encode_fields fields =
      append_assoc header (encode_fields (open_fields c)) (encode_field ef_auth_and_eef body)
      ∙ ap (λ (l : List ℕ). header ++ l)
          (encode_fields-last (open_fields c) ef_auth_and_eef body) in
    let whole : Begins (header ++ encode_fields fields) r len =
      subst (λ l. Begins l r len) bytes b in
    let r_v4 : version r ≡ 4 =
      version-Begins header (encode_fields fields) r len whole (omega (arith, h.size)) ∙ v4 in
    let fits : len ≤ packet_size = omega arith in
    let count = length-request_fields siv c header in
    let start = header_length + (4 + length c.uniq_id) + (4 + length (cookie_of c)) * (1 + k) in
    let product : (4 + length (cookie_of c)) * (1 + k) ≡ 104 * (1 + k) =
      ap (λ (n : ℕ). (4 + n) * (1 + k)) lc in
    let at_start : length before ≡ start =
      omega
        (arith, product, b.size, length-append {0} before (encode_field ef_auth_and_eef body)) in
    let walked =
      walk_fields-all (request_field siv s r len) len header r len ef_unique_identifier c.uniq_id
        ((ef_cookie, cookie_of c) ∷ placeholders k (cookie_of c) ++ (ef_auth_and_eef, body) ∷ [])
        no_request whole.same h.size (request_fields-AreFields siv c header good lu ln lc) r_v4
        whole.whole whole.size fits (omega arith)
      ∙ fold-open siv s r len c (ef_auth_and_eef, body) s2c lc decoded
      ∙ fold-auth siv s r len before c.nonce c.siv_c2s s2c start (1 + k) good b.same at_start ln
          b.full (omega (arith, product)) fits in
    let accepted : (ext_fields == 0 || not true) ≡ false = ground arith in
    let asked : min max_cookies (1 + k) ≡ max_cookies + 1 - c.num_cookies = omega arith in
    (
      r,
      sent,
      rw accepted (
          rw walked (λ i. going (record {
            siv_s2c = s2c;
            nonce = nonce;
            cookies = response_cookies siv s (take (asked i) nonces) c.siv_c2s s2c;
          }))),
      whole,
    )
