-- ===== src/NtsNtp/Client/Sending.antt =====
-- nts_ntp.c: the bytes of the request of a client.
use chrony_nts.Prelude.{
  ℕ, zero, suc, ◌+◌, ◌-◌, ◌*◌, ◌%◌, ◌≤◌, ◌<◌, ◌≡◌, ◌∙◌, sym, subst, arith, false, List, [], ◌∷◌,
  ◌++◌, some, ◌==◌, length, length-append, get_or, replicate,
}
use mathlib.Core.List.{append-nil, append_assoc}
use chrony_nts.NtpExt.{packet_size, header_length}
use chrony_nts.NtpExt.Chain.{encode_field, encode_fields, Begins, add_field-Begins}
use chrony_nts.NtsKe.{max_cookies}
use chrony_nts.NtsKe.Cookies.{Siv, IsSiv}
use chrony_nts.NtsNtp.{
  auth_body, ef_unique_identifier, ef_cookie, ef_cookie_placeholder, ef_auth_and_eef,
}
use chrony_nts.NtsNtp.Client.{ClientInstance, no_cookie, add_placeholders, generate_request_auth}

abbrev pub placeholders : ℕ → List ℕ → List (ℕ × List ℕ)
placeholders k cookie = replicate k (ef_cookie_placeholder, cookie)

add_placeholders-Begins :
    (k : ℕ) (bytes q cookie : List ℕ) (len : ℕ)
    → Begins bytes q len
    → length cookie ≡ 100
    → len + 104 * k ≤ packet_size
    → (r : List ℕ) × (add_placeholders k cookie (q, len) ≡ some (r, len + 104 * k))
      × Begins (bytes ++ encode_fields (placeholders k cookie)) r (len + 104 * k)
unfolding add_placeholders
add_placeholders-Begins zero bytes q cookie len h size fits =
    let same : len ≡ len + 104 * 0 = omega arith in
    let all = sym (append-nil bytes) in
    (
      q,
      (λ i. some (q, same i)),
      subst (λ b. Begins b q (len + 104 * 0)) all (subst (Begins bytes q) same h),
    )
add_placeholders-Begins (suc k) bytes q cookie len h size fits =
    let (r, done, b) =
      add_field-Begins bytes q cookie len ef_cookie_placeholder h (omega arith) (omega arith) in
    let (t, rest, c) =
      add_placeholders-Begins k (bytes ++ encode_field ef_cookie_placeholder cookie) r cookie
        (len + (4 + length cookie)) b size (omega arith) in
    let same : len + (4 + length cookie) + 104 * k ≡ len + 104 * suc k = omega arith in
    let assoc =
      append_assoc bytes (encode_field ef_cookie_placeholder cookie)
        (encode_fields (placeholders k cookie)) in
    (
      t,
      rw done (rest ∙ (λ i. some (t, same i))),
      subst (λ l. Begins l t (len + 104 * suc k)) assoc (subst (Begins _ t) same c),
    )

abbrev pub sealed_of : Siv → ClientInstance → List ℕ → List ℕ
sealed_of siv c bytes = siv.encrypt c.siv_c2s c.nonce bytes []

abbrev pub cookie_of : ClientInstance → List ℕ
cookie_of c = get_or c.cookies c.cookie_index no_cookie

-- The fields before the one that authenticates.
abbrev pub open_fields : ClientInstance → List (ℕ × List ℕ)
open_fields c =
    (ef_unique_identifier, c.uniq_id)
    ∷ (ef_cookie, cookie_of c)
    ∷ placeholders (max_cookies - c.num_cookies) (cookie_of c)

abbrev pub used_cookie : ClientInstance → ClientInstance
used_cookie c = record c {
  num_cookies = c.num_cookies - 1;
  cookie_index = (c.cookie_index + 1) % max_cookies;
}

-- The length of a request.
abbrev pub request_length : ClientInstance → ℕ
request_length c = 228 + 104 * (max_cookies - c.num_cookies)

pub generate_request_auth-Begins :
    (siv : Siv) (c : ClientInstance) (bytes q : List ℕ)
    → IsSiv siv
    → Begins bytes q header_length
    → length c.uniq_id ≡ 32
    → length (cookie_of c) ≡ 100
    → length c.nonce ≡ 16
    → 0 < c.num_cookies
    → c.num_cookies ≤ max_cookies
    → let before = bytes ++ encode_fields (open_fields c) in
      (r : List ℕ) × (generate_request_auth siv c (q, header_length)
        ≡ some ((r, request_length c), used_cookie c))
      × Begins
          (before ++ encode_field ef_auth_and_eef (auth_body c.nonce (sealed_of siv c before)))
          r
          (request_length c)
unfolding generate_request_auth
generate_request_auth-Begins siv c bytes q good h lu lc ln some_left few =
    let k = max_cookies - c.num_cookies in
    let cookie = cookie_of c in
    let id_field = encode_field ef_unique_identifier c.uniq_id in
    let cookie_field = encode_field ef_cookie cookie in
    let (q1, done1, b1) =
      add_field-Begins bytes q c.uniq_id header_length ef_unique_identifier h (omega arith)
        (omega arith) in
    let len1 = header_length + (4 + length c.uniq_id) in
    let (q2, done2, b2) =
      add_field-Begins (bytes ++ id_field) q1 cookie len1 ef_cookie b1 (omega arith)
        (omega arith) in
    let len2 = len1 + (4 + length cookie) in
    let (q3, done3, b3) =
      add_placeholders-Begins k ((bytes ++ id_field) ++ cookie_field) q2 cookie len2 b2 lc
        (omega arith) in
    let len3 = len2 + 104 * k in
    let before = bytes ++ encode_fields (open_fields c) in
    let assoc : ((bytes ++ id_field) ++ cookie_field) ++ encode_fields (placeholders k cookie)
        ≡ before =
      append_assoc (bytes ++ id_field) cookie_field (encode_fields (placeholders k cookie))
      ∙ append_assoc bytes id_field (cookie_field ++ encode_fields (placeholders k cookie)) in
    let b3' : Begins before q3 len3 = subst (λ l. Begins l q3 len3) assoc b3 in
    let sealed = sealed_of siv c before in
    let ls : length sealed ≡ 16 = good.encrypt_length c.siv_c2s c.nonce before [] in
    let body = auth_body c.nonce sealed in
    let size = length-append {0} c.nonce sealed in
    let (r, done4, b4) =
      add_field-Begins before q3 body len3 ef_auth_and_eef b3' (omega arith) (omega arith) in
    let total : len3 + (4 + length body) ≡ request_length c = omega arith in
    let needed : (c.num_cookies == 0) ≡ false = ground arith in
    (
      r,
      rw needed (
          rw done1 (
            rw done2
              (rw done3 (rw b3'.same (rw done4 (λ i. some ((r, total i), used_cookie c))))))),
      subst (Begins _ r) total b4,
    )
