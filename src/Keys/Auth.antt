-- ===== src/Keys/Auth.antt =====
-- keys.c: the decoding of passwords, and the authentication of data.
use chrony_nts.Prelude.{
  ℕ, ◌+◌, ◌-◌, ◌/◌, ◌%◌, ◌≤◌, ◌<◌, ◌≡◌, ◌↔◌, ◌∙◌, min, inl, inr, refl, true, false, ◌&&◌, List, [],
  ◌∷◌, ◌++◌, none, some, arith, Bool-cases, Option-cases, ◌==◌, ==_iff, sym, ap, length, get_elem?,
  take, length-take, if◌then◌else◌, subst, ltb,
}
use chrony_nts.Keys.{
  Key, Keys, Hash, hex_digit, strtol2, decode_hex, decode_password, after, hex_prefix, starts_with,
  check_ntp_auth, generate_auth, check_auth, get_key_by_id, lookup_key,
}
use chrony_nts.Keys.Lookup.{has_id}
use chrony_nts.Keys.Cache.{IsValid, get_key_by_id_lem}

-- A byte as two hexadecimal digits.
pub to_digit : ℕ → ℕ
to_digit x = if ltb x 10 then b'0' + x else b'A' + (x - 10)

pub encode_hex : List ℕ → List ℕ
unfolding to_digit
encode_hex [] = []
encode_hex (x ∷ bytes) = to_digit (x / 16) ∷ to_digit (x % 16) ∷ encode_hex bytes

abbrev pub AllBytes : List ℕ → Type 0
AllBytes [] = Unit
AllBytes (x ∷ bytes) = (x < 256) × AllBytes bytes

hex_digit-to_digit : (x : ℕ) → x < 16 → hex_digit (to_digit x) ≡ some x
unfolding hex_digit to_digit
hex_digit-to_digit x h = ground arith

decode_hex-encode_hex :
    (bytes : List ℕ) → AllBytes bytes → decode_hex (encode_hex bytes) ≡ some bytes
unfolding decode_hex strtol2 encode_hex
decode_hex-encode_hex [] h = refl
decode_hex-encode_hex (x ∷ bytes) h = ground (
  arith,
  hex_digit-to_digit (x / 16) (omega arith),
  hex_digit-to_digit (x % 16) (omega arith),
  decode_hex-encode_hex bytes h.1,
)

-- A key that is written in hexadecimal digits after the prefix is decoded to its bytes.
pub decode_password-encode_hex :
    (bytes : List ℕ) → AllBytes bytes → decode_password (hex_prefix ++ encode_hex bytes) ≡ bytes
unfolding decode_password after
decode_password-encode_hex bytes h = rw (decode_hex-encode_hex bytes h, decode_password) refl

starts_with_lem :
    (text prefix : List ℕ)
    → ((starts_with text prefix ≡ true) ↔ (prefix ≡ take (length prefix) text))
unfolding starts_with
starts_with_lem text [] = (λ h. refl, λ h. refl)
starts_with_lem [] (p ∷ prefix) = (λ h. cc, λ h. cc)
starts_with_lem (c ∷ text) (p ∷ prefix) = ground (arith, ==_iff p c, starts_with_lem text prefix)

-- A message authentication code is accepted exactly when it is the hash of the key and the data, cut
-- at the length to which such codes are truncated.
pub check_ntp_auth_lem :
    (hash : Hash) (hash_id : ℕ) (key text auth : List ℕ) (trunc_len : ℕ)
    → (check_ntp_auth hash hash_id key text auth trunc_len ≡ true)
      ↔ (auth ≡ take (min (length (hash hash_id key text 64)) trunc_len) (hash hash_id key text 64))
unfolding check_ntp_auth
check_ntp_auth_lem hash hash_id key text auth trunc_len =
    let d = hash hash_id key text 64 in
    let n = min (length d) trunc_len in
    let (to, from) = starts_with_lem d auth in
    (
      λ h.
          let same : n ≡ length auth = ground arith in
          let prefix : starts_with d auth ≡ true = ground arith in rw same (to prefix),
      λ h.
          let same : length auth ≡ n = ap length h ∙ length-take n d ∙ (omega arith) in
          let cut : auth ≡ take (length auth) d = h ∙ ap (λ (m : ℕ). take m d) (sym same) in
          ground (arith, from cut),
    )

take-length : (xs : List ℕ) → take (length xs) xs ≡ xs
take-length [] = refl
take-length (x ∷ xs) = rw (take-length xs)

hit :
    (s : Keys) (id : ℕ)
    → (s.cache_valid && id == s.cache_key_id) ≡ true
    → get_key_by_id s id ≡ (some s.cache_key_pos, s)
unfolding get_key_by_id
hit s id e = rw e refl

miss :
    (s : Keys) (id : ℕ)
    → (s.cache_valid && id == s.cache_key_id) ≡ false
    → get_key_by_id s id ≡ elim (lookup_key s.keys id) [
      | none ↦ (none, s)
      | some p ↦ (some p, record s { cache_valid = true; cache_key_pos = p; cache_key_id = id })
    ]
unfolding get_key_by_id
miss s id e = rw e refl

-- What was found is found again, through the cache.
get_key_by_id_again :
    (s t : Keys) (id p : ℕ) → get_key_by_id s id ≡ (some p, t) → get_key_by_id t id ≡ (some p, t)
get_key_by_id_again s t id p h = elim (Bool-cases (s.cache_valid && id == s.cache_key_id)) [
  | inl e ↦ subst (λ u. get_key_by_id u.1 id ≡ u) (sym (hit s id e) ∙ h) (hit s id e)
  | inr e ↦ elim (Option-cases (lookup_key s.keys id)) [
    | inl r ↦
        let none_found : get_key_by_id s id ≡ (none, s) = miss s id e ∙ (rw r refl) in
        absurd (cc (ap (λ u. u.0) (sym none_found ∙ h)))
    | inr (q, r) ↦
        let u = record s { cache_valid = true; cache_key_pos = q; cache_key_id = id } in
        let found : get_key_by_id s id ≡ (some q, u) = miss s id e ∙ (rw r refl) in
        subst (λ w. get_key_by_id w.1 id ≡ w) (sym found ∙ h) (hit u id (ground arith))
  ]
]

generated :
    (hash : Hash) (s : Keys) (id p : ℕ) (k : Key) (text : List ℕ) (n : ℕ)
    → (get_key_by_id s id).0 ≡ some p
    → get_elem? s.keys p ≡ some k
    → generate_auth hash s id text n ≡ (hash k.hash_id k.val text n, (get_key_by_id s id).1)
unfolding generate_auth
generated hash s id p k text n r h = rw (r, h) refl

checked :
    (hash : Hash) (t : Keys) (id p : ℕ) (k : Key) (text auth : List ℕ) (n : ℕ)
    → (get_key_by_id t id).0 ≡ some p
    → get_elem? t.keys p ≡ some k
    → (check_auth hash t id text auth n).0 ≡ check_ntp_auth hash k.hash_id k.val text auth n
unfolding check_auth
checked hash t id p k text auth n r h = rw (r, check_auth) (rw h refl)

-- The code that is generated for a known key is accepted with that key, also through the cache.
-- Conditions: the hash functions return no more bytes than they are asked for, and codes are not
-- truncated.
pub check_auth-generate_auth :
    (hash : Hash) (s : Keys) (id : ℕ) (text : List ℕ) (trunc_len : ℕ)
    → ((h : ℕ) (k t : List ℕ) (n : ℕ) → length (hash h k t n) ≤ n)
    → IsValid s
    → has_id id s.keys ≡ true
    → 64 ≤ trunc_len
    → (check_auth hash
        (generate_auth hash s id text 64).1
        id
        text
        (generate_auth hash s id text 64).0
        trunc_len).0
      ≡ true
check_auth-generate_auth hash s id text trunc_len bounded v known le =
    let (found, w, same) = get_key_by_id_lem s id v in
    let t = (get_key_by_id s id).1 in
    elim found [
      | inr (r, unknown) ↦ cc
      | inl (p, k, r, h, y) ↦
          let mac = hash k.hash_id k.val text 64 in
          let small : min (length mac) trunc_len ≡ length mac =
            omega (arith, bounded k.hash_id k.val text 64) in
          let cut : mac ≡ take (min (length mac) trunc_len) mac =
            sym (ap (λ (m : ℕ). take m mac) small ∙ take-length mac) in
          let at_p : get_elem? t.keys p ≡ some k = ap (λ ks. get_elem? ks p) same ∙ h in
          rw (generated hash s id p k text 64 r h) (
            checked hash t id p k text mac trunc_len
              (ap (λ u. u.0) (get_key_by_id_again s t id p (ap (λ o. (o, t)) r))) at_p
            ∙ (check_ntp_auth_lem hash k.hash_id k.val text mac trunc_len).1 cut)
    ]
