-- ===== src/Keys/Tests.antt =====
-- keys.c: keys at concrete values.
use chrony_nts.Prelude.{
  ℕ, ◌≤◌, ◌≡◌, ◌↔◌, ◌⊎◌, refl, true, false, List, [], ◌∷◌, ◌++◌, none, some, min, arith, length,
  take, length-take,
}
use chrony_nts.Keys.{
  decode_hex, Key, Keys, KeyLine, Hash, decode_password, hex_prefix, get_key_by_id, reload,
  parsed_keys, check_ntp_auth, check_auth, generate_auth,
}
use chrony_nts.Keys.Lookup.{Found, has_id}
use chrony_nts.Keys.Cache.{IsValid, get_key_by_id_lem, reload-IsValid}
use chrony_nts.Keys.Auth.{check_ntp_auth_lem, check_auth-generate_auth}

-- `strtol` takes a sign for a digit.
signed_password : decode_password (hex_prefix ++ b'+' ∷ b'5' ∷ b'f' ∷ b'F' ∷ []) ≡ 5 ∷ 255 ∷ []
unfolding decode_password decode_hex
signed_password = refl

odd_password : decode_password (hex_prefix ++ b'5' ∷ []) ≡ []
unfolding decode_password decode_hex
odd_password = refl

abbrev key : ℕ → Key
key id = record { id = id; val = id ∷ 7 ∷ []; hash_id = 1; auth_delay = 3 }

abbrev three : Keys
three = record {
  keys = key 2 ∷ key 5 ∷ key 9 ∷ [];
  cache_valid = true;
  cache_key_id = 5;
  cache_key_pos = 1;
}

three-IsValid : IsValid three
three-IsValid = record { sorted = omega arith; coherent = (key 5, refl, refl) }

get_key_by_id_lem_example :
    (Found three.keys 9 (get_key_by_id three 9).0
      ⊎ (((get_key_by_id three 9).0 ≡ none) × (has_id 9 three.keys ≡ false)))
    × IsValid (get_key_by_id three 9).1
    × ((get_key_by_id three 9).1.keys ≡ three.keys)
get_key_by_id_lem_example = get_key_by_id_lem three 9 three-IsValid

abbrev key_lines : List KeyLine
key_lines =
    record { key_id = 8; hash_id = some 1; password = b'k' ∷ [] }
    ∷ record { key_id = 3; hash_id = some 1; password = b'j' ∷ [] }
    ∷ record { key_id = 4; hash_id = none; password = b'j' ∷ [] }
    ∷ []

reload-IsValid_example :
    IsValid (reload (λ k. 10) key_lines three)
    × ((id : ℕ)
        → has_id id (reload (λ k. 10) key_lines three).keys ≡ has_id id (parsed_keys key_lines))
reload-IsValid_example = reload-IsValid (λ k. 10) key_lines three

-- A hash that joins the key and the data and cuts them.
abbrev joined : Hash
joined h k t n = take n (k ++ t)

joined_bounded : (h : ℕ) (k t : List ℕ) (n : ℕ) → length (joined h k t n) ≤ n
joined_bounded h k t n = omega (arith, length-take n (k ++ t))

check_ntp_auth_lem_example :
    (check_ntp_auth joined 1 (4 ∷ []) (6 ∷ 7 ∷ []) (4 ∷ 6 ∷ []) 2 ≡ true) ↔ (
      4 ∷ 6 ∷ []
      ≡ take
          (min (length (joined 1 (4 ∷ []) (6 ∷ 7 ∷ []) 64)) 2)
          (joined 1 (4 ∷ []) (6 ∷ 7 ∷ []) 64))
check_ntp_auth_lem_example = check_ntp_auth_lem joined 1 (4 ∷ []) (6 ∷ 7 ∷ []) (4 ∷ 6 ∷ []) 2

check_auth-generate_auth_example :
    (check_auth joined
      (generate_auth joined three 9 (6 ∷ []) 64).1
      9
      (6 ∷ [])
      (generate_auth joined three 9 (6 ∷ []) 64).0
      64).0
    ≡ true
check_auth-generate_auth_example =
    check_auth-generate_auth joined three 9 (6 ∷ []) 64 joined_bounded three-IsValid refl
      (omega arith)
