-- ===== src/NtsNtp/Client/Receiving.antt =====
-- nts_ntp.c: what a client makes of the response to its request.
use chrony_nts.Prelude.{
  ℕ, zero, suc, ◌+◌, ◌*◌, ◌%◌, ◌≤◌, ◌<◌, ◌≡◌, refl, ap, ◌∙◌, sym, arith, true, false, not, ◌||◌,
  List, [], ◌∷◌, ◌++◌, none, some, ltb, leb, ◌==◌, length, take, length-append, take-append, subst,
}
use mathlib.Core.List.{append-nil, append_assoc}
use chrony_nts.NtpExt.{packet_size, version, header_length, Field, stop, field, parse_field}
use chrony_nts.NtpExt.Chain.{
  version-Begins, encode_field, encode_fields, Begins, field_of, parse_field-encode,
  parse_field-end, parse_field-header,
}
use chrony_nts.NtsKe.{max_cookies}
use chrony_nts.NtsKe.Cookies.{Siv, IsSiv}
use chrony_nts.NtsNtp.{
  Step, going, next, or_rejected, auth_body, ef_unique_identifier, ef_cookie, ef_auth_and_eef,
  parse_auth_and_eef, open_auth, AuthAndEef,
}
use chrony_nts.NtsNtp.Fields.{fold_fields, walk_fields-encode}
use chrony_nts.NtsNtp.Auth.{auth_of, parse_auth_and_eef-auth_body, open_auth-auth_body}
use chrony_nts.NtsNtp.Responses.{AreFull, cookie_fields, length-cookie_fields}
use chrony_nts.NtsNtp.Client.{
  ClientInstance, store_cookie, extract_cookies, as_packet, Response, response_field, take_cookies,
  check_response_auth, equal_bytes,
}

-- The cookies, one after the other.
unfoldable pub store_all : List (List ℕ) → ClientInstance → ClientInstance
store_all [] c = c
store_all (b ∷ bs) c = store_all bs (store_cookie c b)

extract_cookies-encode :
    (fuel : ℕ) (before q : List ℕ) (len start : ℕ) (cs : List (List ℕ)) (c : ClientInstance)
    → take len q ≡ before ++ encode_fields (cookie_fields cs)
    → length before ≡ start
    → AreFull cs
    → version q ≡ 4
    → header_length ≤ start
    → start % 4 ≡ 0
    → start + 104 * length cs ≡ len
    → len ≤ packet_size
    → length cs < fuel
    → c.num_cookies + length cs ≤ max_cookies
    → extract_cookies fuel q len start c ≡ some (store_all cs c)
unfolding extract_cookies store_all store_cookie
extract_cookies-encode zero before q len start cs c e size full v4 headed aligned total fits few
      room =
    absurd (omega arith)
extract_cookies-encode (suc fuel) before q len start [] c e size full v4 headed aligned total fits
      few room =
    let same : start ≡ len = omega arith in
    let over : parse_field q len start ≡ stop =
      ap (parse_field q len) same ∙ parse_field-end q len v4 (omega arith) (omega arith) in
    rw (over, extract_cookies) refl
extract_cookies-encode (suc fuel) before q len start (b ∷ bs) c e size full v4 headed aligned total
      fits few room =
    let tail = encode_fields (cookie_fields bs) in
    let lb : length b ≡ 100 = full.0 in
    let assoc : before ++ (encode_field ef_cookie b ++ tail)
        ≡ (before ++ encode_field ef_cookie b) ++ tail =
      sym (append_assoc before (encode_field ef_cookie b) tail) in
    let found =
      parse_field-encode before tail q b len start ef_cookie e size
        (record { small_type = omega arith; aligned = omega arith; long = omega arith }) v4 headed
        aligned (omega arith) (omega arith) fits in
    let forward : leb (start + (4 + length b)) start ≡ false = ground arith in
    let kept : (leb max_cookies c.num_cookies || ltb 256 (length b)) ≡ false = ground arith in
    rw (found, extract_cookies)
      (rw forward (
        rw kept (
          extract_cookies-encode fuel (before ++ encode_field ef_cookie b) q len
            (start + (4 + length b)) bs (store_cookie c b) (e ∙ assoc)
            (omega (arith, length-append {0} before (encode_field ef_cookie b))) full.1 v4
            (omega arith) (omega arith) (omega arith) fits (omega arith) (omega arith))))

-- The loop starts before the header.
extract_cookies-stop :
    (fuel : ℕ) (q : List ℕ) (len : ℕ) (c : ClientInstance)
    → parse_field q len header_length ≡ stop
    → extract_cookies (suc fuel) q len 0 c ≡ some c
unfolding extract_cookies
extract_cookies-stop fuel q len c e = rw (parse_field-header q len ∙ e, extract_cookies) refl

extract_cookies-late :
    (fuel : ℕ) (q : List ℕ) (len : ℕ) (f : Field) (c : ClientInstance)
    → parse_field q len header_length ≡ field f
    → header_length < f.parsed
    → extract_cookies (suc fuel) q len 0 c ≡ extract_cookies (suc fuel) q len header_length c
unfolding extract_cookies
extract_cookies-late fuel q len f c e late =
    let first = parse_field-header q len ∙ e in
    let a : leb f.parsed 0 ≡ false = ground arith in
    let b : leb f.parsed header_length ≡ false = ground arith in
    rw (first, e, extract_cookies) (rw (a, b) refl)

abbrev blank_header : List ℕ → List ℕ
blank_header packet = as_packet packet []

-- The cookies that were decrypted are taken.
extract_cookies-as_packet :
    (packet : List ℕ) (cs : List (List ℕ)) (c : ClientInstance)
    → AreFull cs
    → version packet ≡ 4
    → c.num_cookies + length cs ≤ max_cookies
    → let plain = encode_fields (cookie_fields cs) in
      let len = header_length + length plain in
      extract_cookies (suc len) (as_packet packet plain) len 0 c ≡ some (store_all cs c)
unfolding store_all
extract_cookies-as_packet packet [] c full v4 room =
    extract_cookies-stop header_length (as_packet packet []) header_length c
      (parse_field-end (as_packet packet []) header_length v4 (omega arith) refl)
extract_cookies-as_packet packet (b ∷ bs) c full v4 room =
    let cs = b ∷ bs in
    let plain = encode_fields (cookie_fields cs) in
    let tail = encode_fields (cookie_fields bs) in
    let len = header_length + length plain in
    let q = as_packet packet plain in
    let lb : length b ≡ 100 = full.0 in
    let before = blank_header packet in
    let lp = length-cookie_fields cs full in
    let read : take len q ≡ before ++ plain =
      ap (take len) (sym (append-nil q)) ∙ take-append len q [] (omega arith) in
    let found =
      parse_field-encode before tail q b len header_length ef_cookie read refl
        (record { small_type = omega arith; aligned = omega arith; long = omega arith }) v4
        (omega arith) refl (omega arith) (omega arith) (omega arith) in
    extract_cookies-late len q len (field_of header_length ef_cookie b) c found (omega arith)
    ∙ extract_cookies-encode (suc len) before q len header_length cs c read refl full v4
        (omega arith) refl (omega arith) (omega arith) (omega arith) room

pub equal_bytes_refl : (xs : List ℕ) → equal_bytes xs xs ≡ true
equal_bytes_refl [] = refl
equal_bytes_refl (x ∷ xs) =
    let same : (x == x) ≡ true = ground arith in rw same (equal_bytes_refl xs)

response_field-auth :
    (siv : Siv) (c : ClientInstance) (packet plain : List ℕ) (len : ℕ) (r : Response) (f : Field)
    (auth : AuthAndEef)
    → f.field_type ≡ ef_auth_and_eef
    → f.parsed ≡ len
    → parse_auth_and_eef f ≡ some auth
    → 16 ≤ auth.ciphertext_length
    → auth.ciphertext_length ≤ 1092
    → open_auth siv c.siv_s2c packet len f auth ≡ going plain
    → response_field siv c packet len r f ≡ going (record r { plaintext = some plain })
unfolding response_field
response_field-auth siv c packet plain len r f auth t last p low high o =
    let at_end : not (f.parsed == len) ≡ false = ground arith in
    let sized : (ltb auth.ciphertext_length 16 || ltb 1092 auth.ciphertext_length) ≡ false =
      ground arith in
    let other : (f.field_type == ef_unique_identifier) ≡ false =
      ap (λ (n : ℕ). n == ef_unique_identifier) t in
    let mine : (f.field_type == ef_auth_and_eef) ≡ true = ap (λ (n : ℕ). n == ef_auth_and_eef) t in
    rw (other, mine, response_field) (rw at_end (rw p (rw sized (rw o refl))))

response_field-id :
    (siv : Siv) (c : ClientInstance) (packet uniq_id : List ℕ) (len start : ℕ) (r : Response)
    → length uniq_id ≡ 32
    → response_field siv c packet len r (field_of start ef_unique_identifier uniq_id)
      ≡ going (record r { has_uniq_id = true })
unfolding response_field
response_field-id siv c packet uniq_id len start r lu =
    let id_size : (length uniq_id == 32) ≡ true = ground arith in
    rw (id_size, equal_bytes_refl c.uniq_id) refl

-- The last field gives the text that was encrypted with the bytes before it.
response_field-sealed :
    (siv : Siv) (c : ClientInstance) (before nonce plain packet : List ℕ) (len start : ℕ)
    (r : Response)
    → IsSiv siv
    → length before ≡ start
    → length nonce ≡ 16
    → length plain % 4 ≡ 0
    → start + 40 + length plain ≡ len
    → length plain ≤ 832
    → let body = auth_body nonce (siv.encrypt c.siv_s2c nonce before plain) in
      Begins (before ++ encode_field ef_auth_and_eef body) packet len
      → len ≤ packet_size
      → response_field siv c packet len r (field_of start ef_auth_and_eef body)
        ≡ going (record r { plaintext = some plain })
response_field-sealed siv c before nonce plain packet len start r good at_start ln aligned total
      short h fits =
    let sealed = siv.encrypt c.siv_s2c nonce before plain in
    let ls : length sealed ≡ length plain + 16 = good.encrypt_length c.siv_s2c nonce before plain in
    let body_size = length-append {0} nonce sealed in
    let parsed =
      parse_auth_and_eef-auth_body start ef_auth_and_eef nonce sealed ln (omega arith)
        (omega arith) in
    let opened =
      open_auth-auth_body siv c.siv_s2c before packet nonce sealed len start ef_auth_and_eef h.same
        at_start ln (omega arith) h.full (omega arith) fits
      ∙ ap or_rejected (good.decrypt_encrypt c.siv_s2c nonce before plain) in
    response_field-auth siv c packet plain len r
      (field_of start ef_auth_and_eef (auth_body nonce sealed)) (auth_of start sealed) refl
      (omega arith) parsed (omega arith) (omega arith) opened

-- A client takes all the cookies of a response that the server made with the key and the ID of the
-- request.
pub check_response_auth-encode :
    (siv : Siv) (c : ClientInstance) (header uniq_id nonce r : List ℕ) (cs : List (List ℕ))
    (ext_fields : ℕ)
    → IsSiv siv
    → length header ≡ header_length
    → version header ≡ 4
    → length uniq_id ≡ 32
    → length nonce ≡ 16
    → AreFull cs
    → c.num_cookies + length cs ≤ max_cookies
    → 0 < ext_fields
    → let before = header ++ encode_field ef_unique_identifier uniq_id in
      let sealed = siv.encrypt c.siv_s2c nonce before (encode_fields (cookie_fields cs)) in
      let len = 124 + 104 * length cs in
      Begins (before ++ encode_field ef_auth_and_eef (auth_body nonce sealed)) r len
      → check_response_auth siv c true ext_fields r len ≡ going (store_all cs c)
unfolding check_response_auth take_cookies
check_response_auth-encode siv c header uniq_id nonce r cs ext_fields good lh v4 lu ln full room ext
      h =
    let before = header ++ encode_field ef_unique_identifier uniq_id in
    let plain = encode_fields (cookie_fields cs) in
    let sealed = siv.encrypt c.siv_s2c nonce before plain in
    let len = 124 + 104 * length cs in
    let lp = length-cookie_fields cs full in
    let ls : length sealed ≡ length plain + 16 = good.encrypt_length c.siv_s2c nonce before plain in
    let body = auth_body nonce sealed in
    let body_size = length-append {0} nonce sealed in
    let auth_field = encode_field ef_auth_and_eef body in
    let fields : List (ℕ × List ℕ) =
      (ef_unique_identifier, uniq_id) ∷ (ef_auth_and_eef, body) ∷ [] in
    let bytes : before ++ auth_field ≡ header ++ encode_fields fields =
      append_assoc header (encode_field ef_unique_identifier uniq_id) auth_field
      ∙ ap (λ (l : List ℕ). header ++ (encode_field ef_unique_identifier uniq_id ++ l))
          (sym (append-nil auth_field)) in
    let whole : Begins (header ++ encode_fields fields) r len =
      subst (λ l. Begins l r len) bytes h in
    let r_v4 : version r ≡ 4 =
      version-Begins header (encode_fields fields) r len whole (omega arith) ∙ v4 in
    let start = header_length + (4 + length uniq_id) in
    let at_start : length before ≡ start =
      omega (arith, length-append {0} header (encode_field ef_unique_identifier uniq_id)) in
    let empty : Response = record { has_uniq_id = false; plaintext = none } in
    let seen : Response = record { has_uniq_id = true; plaintext = none } in
    let first = response_field-id siv c r uniq_id len header_length empty lu in
    let second =
      response_field-sealed siv c before nonce plain r len start seen good at_start ln (omega arith)
        (omega arith) (omega arith) h (omega arith) in
    let walked =
      walk_fields-encode (response_field siv c r len) (suc len) header r len header_length fields
        empty whole.same lh
        (
          record { small_type = omega arith; aligned = omega arith; long = omega arith },
          (record { small_type = omega arith; aligned = omega arith; long = omega arith }, tt),
        )
        r_v4 (omega arith) refl h.whole whole.size (omega arith) (omega arith)
      ∙ ap
          (λ (x : Step Response).
            next x (λ a.
              fold_fields (response_field siv c r len) start ((ef_auth_and_eef, body) ∷ []) a))
          first
      ∙ ap (λ (x : Step Response). next x going) second in
    let accepted : (ext_fields == 0 || not true) ≡ false = ground arith in
    rw accepted (rw walked (rw (extract_cookies-as_packet r cs c full r_v4 room) refl))

pub num_cookies-store_all :
    (cs : List (List ℕ)) (c : ClientInstance)
    → (store_all cs c).num_cookies ≡ c.num_cookies + length cs
unfolding store_all store_cookie
num_cookies-store_all [] c = omega arith
num_cookies-store_all (b ∷ bs) c = omega (arith, num_cookies-store_all bs (store_cookie c b))
