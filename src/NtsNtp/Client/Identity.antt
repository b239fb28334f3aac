-- ===== src/NtsNtp/Client/Identity.antt =====
-- nts_ntp.c: the unique ID of a response, which NTS_CheckResponseAuth does not compare.
use chrony_nts.Prelude.{
  ℕ, zero, suc, ◌+◌, ◌≡◌, refl, ap, fun_ext, Bool, true, false, not, ◌||◌, List, Option, none, some,
  ltb, leb, ◌==◌, length, if◌then◌else◌, Bool-cases, inl, inr,
}
use chrony_nts.NtpExt.{header_length, Field, Parsed, stop, failed, field, parse_field}
use chrony_nts.NtsKe.{max_cookies}
use chrony_nts.NtsKe.Cookies.{Siv}
use chrony_nts.NtsNtp.{Step, rejected, broken, going, next, walk_fields}
use chrony_nts.NtsNtp.Client.{
  ClientInstance, store_cookie, extract_cookies, as_packet, Response, response_field, take_cookies,
  check_response_auth,
}
use chrony_nts.NtsNtp.Client.Receiving.{equal_bytes_refl}

-- The client with another ID.
abbrev pub with_id : List ℕ → ClientInstance → ClientInstance
with_id u c = record c { uniq_id = u }

abbrev pub map_step : {A B : Type 0} → (A → B) → Step A → Step B
map_step f rejected = rejected
map_step f broken = broken
map_step f (going a) = going (f a)

abbrev map_option : {A B : Type 0} → (A → B) → Option A → Option B
map_option f none = none
map_option f (some a) = some (f a)

response_field-with_id :
    (siv : Siv) (c : ClientInstance) (u packet : List ℕ) (len : ℕ) (r : Response) (f : Field)
    → response_field siv (with_id u c) packet len r f ≡ response_field siv c packet len r f
unfolding response_field
response_field-with_id siv c u packet len r f =
    rw (equal_bytes_refl u, equal_bytes_refl c.uniq_id) refl

extract_cookies-with_id :
    (fuel : ℕ) (packet u : List ℕ) (len parsed : ℕ) (c : ClientInstance)
    → extract_cookies fuel packet len parsed (with_id u c)
      ≡ map_option (with_id u) (extract_cookies fuel packet len parsed c)
unfolding extract_cookies store_cookie
extract_cookies-with_id zero packet u len parsed c = refl
extract_cookies-with_id (suc fuel) packet u len parsed c =
    found (parse_field packet len parsed) (λ p c'. extract_cookies-with_id fuel packet u len p c')
      refl
  where
    found :
        (p : Parsed)
        → ((next_at : ℕ) (c' : ClientInstance)
            → extract_cookies fuel packet len next_at (with_id u c')
              ≡ map_option (with_id u) (extract_cookies fuel packet len next_at c'))
        → parse_field packet len parsed ≡ p
        → extract_cookies (suc fuel) packet len parsed (with_id u c)
          ≡ map_option (with_id u) (extract_cookies (suc fuel) packet len parsed c)
    found stop again e = rw (e, extract_cookies) refl
    found failed again e = rw (e, extract_cookies) refl
    found (field f) again e =
        let a = again f.parsed c in
        let b = again f.parsed (store_cookie c f.body) in
        elim (Bool-cases (leb f.parsed parsed)) [
          | inl over ↦ rw (e, extract_cookies) (rw over refl)
          | inr on ↦ elim (Bool-cases (not (f.field_type == 516))) [
            | inl other ↦ rw (e, extract_cookies) (rw on (rw other a))
            | inr mine ↦
                elim (Bool-cases (leb max_cookies c.num_cookies || ltb 256 (length f.body))) [
                  | inl full ↦ rw (e, extract_cookies) (rw on (rw mine (rw full refl)))
                  | inr room ↦ rw (e, extract_cookies) (rw on (rw mine (rw room b)))
                ]
          ]
        ]

with_id-ended :
    (u : List ℕ) (o : Option ClientInstance) (seen : Bool)
    → (if seen
        then elim (map_option (with_id u) o) [ none ↦ broken | some t ↦ going t ]
        else rejected)
      ≡ map_step
          (with_id u)
          (if seen then elim o [ none ↦ broken | some t ↦ going t ] else rejected)
with_id-ended u none true = refl
with_id-ended u none false = refl
with_id-ended u (some t) true = refl
with_id-ended u (some t) false = refl

take_cookies-with_id :
    (c : ClientInstance) (u packet : List ℕ) (r : Response)
    → take_cookies (with_id u c) packet r ≡ map_step (with_id u) (take_cookies c packet r)
unfolding take_cookies
take_cookies-with_id c u packet r = taken r.plaintext refl
  where
    taken :
        (o : Option (List ℕ))
        → r.plaintext ≡ o
        → take_cookies (with_id u c) packet r ≡ map_step (with_id u) (take_cookies c packet r)
    taken none e = rw (e, take_cookies) refl
    taken (some plain) e =
        let len = header_length + length plain in
        let q = as_packet packet plain in
        rw (e, take_cookies)
          (rw (extract_cookies-with_id (suc len) q u len 0 c)
            (with_id-ended u (extract_cookies (suc len) q len 0 c) r.has_uniq_id))

-- Whether a client accepts a response does not depend on the unique ID of the client, and what it takes
-- from the response does not either: a client with any other ID does the same.
pub check_response_auth-with_id :
    (siv : Siv) (c : ClientInstance) (u packet : List ℕ) (from_server : Bool) (ext_fields len : ℕ)
    → check_response_auth siv (with_id u c) from_server ext_fields packet len
      ≡ map_step (with_id u) (check_response_auth siv c from_server ext_fields packet len)
unfolding check_response_auth
check_response_auth-with_id siv c u packet from_server ext_fields len =
    let start : Response = record { has_uniq_id = false; plaintext = none } in
    let same =
      ap (λ on_field. walk_fields on_field (suc len) packet len header_length start)
        (fun_ext (λ (r : Response).
          fun_ext (λ (f : Field). response_field-with_id siv c u packet len r f))) in
    elim (Bool-cases (ext_fields == 0 || not from_server)) [
      | inl refused ↦ rw refused refl
      | inr heard ↦ rw heard (
          rw same (
            walked (
              walk_fields (response_field siv c packet len) (suc len) packet len header_length
                start)))
    ]
  where
    walked :
        (w : Step Response)
        → next w (take_cookies (with_id u c) packet)
          ≡ map_step (with_id u) (next w (take_cookies c packet))
    walked rejected = refl
    walked broken = refl
    walked (going r) = take_cookies-with_id c u packet r
