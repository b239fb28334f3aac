-- ===== src/NtsNtp/Client/Total.antt =====
-- nts_ntp.c: the check of a response returns for every packet.
use chrony_nts.Prelude.{
  ℕ, zero, suc, ◌+◌, ◌%◌, ◌≤◌, ◌<◌, ◌≡◌, refl, arith, Bool, true, false, not, ◌||◌, List, Option,
  none, some, max, ltb, leb, ◌==◌, length, if◌then◌else◌, Bool-cases, inl, inr,
}
use chrony_nts.NtpExt.{Field, Parsed, stop, failed, field, parse_field, header_length}
use chrony_nts.NtpExt.Laws.{StopsOrAdvances, parse_field-StopsOrAdvances}
use chrony_nts.NtsKe.{max_cookies}
use chrony_nts.NtsKe.Cookies.{Siv}
use chrony_nts.NtsNtp.{
  Step, rejected, broken, going, next, or_rejected, walk_fields, AuthAndEef, parse_auth_and_eef,
  open_auth, siv_digest_size, ef_auth_and_eef, ef_unique_identifier, uniq_id_length,
}
use chrony_nts.NtsNtp.Total.{Returns, parse_auth_and_eef-bounds, walk_fields-Returns}
use chrony_nts.NtsNtp.Client.{
  ClientInstance, store_cookie, extract_cookies, as_packet, Response, response_field, take_cookies,
  check_response_auth, equal_bytes, max_extensions_length,
}

open_auth-Returns :
    (siv : Siv) (key packet : List ℕ) (len : ℕ) (f : Field) (auth : AuthAndEef)
    → 16 ≤ auth.ciphertext_length
    → auth.ciphertext + auth.ciphertext_length ≤ length packet
    → Returns (open_auth siv key packet len f auth)
unfolding open_auth
open_auth-Returns siv key packet len f auth low inside =
    let fine : (ltb auth.ciphertext_length 16
          || ltb (length packet) (auth.ciphertext + auth.ciphertext_length))
        ≡ false =
      ground arith in
    rw fine (either (siv.decrypt key _ _ _))
  where
    either : (o : Option (List ℕ)) → Returns (or_rejected o)
    either none = tt
    either (some plain) = tt

next-Returns :
    {A B : Type 0} (x : Step A) (f : A → Step B)
    → Returns x
    → ((a : A) → Returns (f a))
    → Returns (next x f)
next-Returns rejected f h k = tt
next-Returns broken f h k = h
next-Returns (going a) f h k = k a

response_field-Returns :
    (siv : Siv) (c : ClientInstance) (packet : List ℕ) (len : ℕ) (r : Response) (f : Field)
    → len + 4 ≤ length packet
    → length f.body ≤ f.parsed
    → f.parsed ≤ len
    → Returns (response_field siv c packet len r f)
unfolding response_field
response_field-Returns siv c packet len r f fits inside bound =
    elim (Bool-cases (f.field_type == ef_unique_identifier)) [
      | inl id ↦
          elim (Bool-cases
            (not (length f.body == uniq_id_length) || not (equal_bytes c.uniq_id c.uniq_id))) [
              | inl bad ↦ rw (id, response_field) (rw bad tt)
              | inr good ↦ rw (id, response_field) (rw good tt)
            ]
      | inr other ↦ elim (Bool-cases (f.field_type == ef_auth_and_eef)) [
        | inr more ↦ rw (other, more, response_field) tt
        | inl mine ↦ elim (Bool-cases (not (f.parsed == len))) [
          | inl early ↦ rw (other, mine, response_field) (rw early tt)
          | inr last ↦
              rw (other, mine, response_field) (rw last (opened (parse_auth_and_eef f) refl))
        ]
      ]
    ]
  where
    opened :
        (o : Option AuthAndEef)
        → parse_auth_and_eef f ≡ o
        → Returns (elim o [
          | none ↦ rejected
          | some auth ↦
              if ltb auth.ciphertext_length siv_digest_size
                || ltb max_extensions_length auth.ciphertext_length
              then rejected
              else next
                  (open_auth siv c.siv_s2c packet len f auth)
                  (λ plain. going (record r { plaintext = some plain }))
        ])
    opened none e = tt
    opened (some auth) e =
        let bounds = parse_auth_and_eef-bounds f auth inside e in
        elim (Bool-cases (
          ltb auth.ciphertext_length siv_digest_size
          || ltb max_extensions_length auth.ciphertext_length)) [
            | inl bad ↦ rw bad tt
            | inr good ↦
                let low : 16 ≤ auth.ciphertext_length = ground arith in
                rw good (
                  next-Returns (open_auth siv c.siv_s2c packet len f auth)
                    (λ plain. going (record r { plaintext = some plain }))
                    (open_auth-Returns siv c.siv_s2c packet len f auth low
                      (omega (arith, bounds.1)))
                    (λ plain. tt))
          ]

abbrev IsTaken : Option ClientInstance → Type 0
IsTaken none = ⊥
IsTaken (some c) = Unit

extract_cookies-IsTaken :
    (fuel : ℕ) (packet : List ℕ) (len parsed : ℕ) (c : ClientInstance)
    → len ≤ length packet
    → parsed % 4 ≡ 0
    → len < parsed + fuel
    → 0 < fuel
    → IsTaken (extract_cookies fuel packet len parsed c)
unfolding extract_cookies store_cookie
extract_cookies-IsTaken zero packet len parsed c inside aligned few some_left = absurd (omega arith)
extract_cookies-IsTaken (suc fuel) packet len parsed c inside aligned few some_left =
    found (parse_field packet len parsed) refl
      (parse_field-StopsOrAdvances packet len parsed inside aligned)
      (λ next_at t. extract_cookies-IsTaken fuel packet len next_at t inside)
  where
    found :
        (p : Parsed)
        → parse_field packet len parsed ≡ p
        → StopsOrAdvances (max parsed header_length) len p
        → ((next_at : ℕ) (t : ClientInstance)
            → next_at % 4 ≡ 0
            → len < next_at + fuel
            → 0 < fuel
            → IsTaken (extract_cookies fuel packet len next_at t))
        → IsTaken (extract_cookies (suc fuel) packet len parsed c)
    found stop e h later = rw (e, extract_cookies) tt
    found failed e h later = absurd h
    found (field f) e h later =
        let (far, bound, even, size) = h in
        let a = later f.parsed c even (omega arith) (omega arith) in
        let b = later f.parsed (store_cookie c f.body) even (omega arith) (omega arith) in
        elim (Bool-cases (leb f.parsed parsed)) [
          | inl over ↦ rw (e, extract_cookies) (rw over tt)
          | inr on ↦ elim (Bool-cases (not (f.field_type == 516))) [
            | inl other ↦ rw (e, extract_cookies) (rw on (rw other a))
            | inr mine ↦
                elim (Bool-cases (leb max_cookies c.num_cookies || ltb 256 (length f.body))) [
                  | inl full ↦ rw (e, extract_cookies) (rw on (rw mine (rw full tt)))
                  | inr room ↦ rw (e, extract_cookies) (rw on (rw mine (rw room b)))
                ]
          ]
        ]

take_cookies-Returns :
    (c : ClientInstance) (packet : List ℕ) (r : Response) → Returns (take_cookies c packet r)
unfolding take_cookies
take_cookies-Returns c packet r = taken r.plaintext refl
  where
    ended :
        (o : Option ClientInstance) (seen : Bool)
        → IsTaken o
        → Returns (if seen then elim o [ none ↦ broken | some t ↦ going t ] else rejected)
    ended none seen h = absurd h
    ended (some t) true h = tt
    ended (some t) false h = tt

    taken : (o : Option (List ℕ)) → r.plaintext ≡ o → Returns (take_cookies c packet r)
    taken none e = rw (e, take_cookies) tt
    taken (some plain) e =
        let len = header_length + length plain in
        rw (e, take_cookies)
          (ended (extract_cookies (suc len) (as_packet packet plain) len 0 c) r.has_uniq_id (
            extract_cookies-IsTaken (suc len) (as_packet packet plain) len 0 c (omega arith) refl
              (omega arith) (omega arith)))

-- Whatever a packet holds, a client accepts or rejects it: its loops end, no assertion fails, and it
-- reads nothing outside the packet and the 4 bytes after it. Condition: the packet has a header, and
-- its buffer 4 bytes more.
pub check_response_auth-Returns :
    (siv : Siv) (c : ClientInstance) (from_server : Bool) (ext_fields : ℕ) (packet : List ℕ)
    (len : ℕ)
    → header_length ≤ len
    → len + 4 ≤ length packet
    → Returns (check_response_auth siv c from_server ext_fields packet len)
unfolding check_response_auth
check_response_auth-Returns siv c from_server ext_fields packet len headed fits =
    let start : Response = record { has_uniq_id = false; plaintext = none } in
    let walked =
      walk_fields-Returns (response_field siv c packet len) (suc len) packet len header_length start
        (λ r f inside bound. response_field-Returns siv c packet len r f fits inside bound)
        (omega arith) refl (omega arith) headed (omega arith) in
    elim (Bool-cases (ext_fields == 0 || not from_server)) [
      | inl refused ↦ rw refused tt
      | inr heard ↦ rw heard (
          next-Returns
            (walk_fields (response_field siv c packet len) (suc len) packet len header_length start)
            (take_cookies c packet) walked (take_cookies-Returns c packet))
    ]
