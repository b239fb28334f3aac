-- ===== src/NtsNtp/Tests.antt =====
-- nts_ntp.c: runs of the functions, and the theorems at a concrete client, server and packets.
use chrony_nts.Prelude.{
  ℕ, ◌+◌, ◌-◌, ◌*◌, ◌≡◌, refl, arith, true, false, List, [], ◌∷◌, ◌++◌, none, some, take, length,
  replicate,
}
use chrony_nts.NtpExt.{header_length}
use chrony_nts.NtpExt.Chain.{Begins}
use chrony_nts.NtsKe.{max_cookies}
use chrony_nts.NtsKe.Cookies.{ServerKeys, generate_cookie, decode_cookie}
use chrony_nts.NtsKe.Cookies.Rotation.{
  rotate, decode_cookie-generate_cookie, length-generate_cookie,
}
use chrony_nts.NtsKe.Cookies.Sample.{plain, plain-IsSiv, fresh_keys, fresh_keys-IsServerKeys}
use chrony_nts.NtsNtp.{going, ServerInstance, check_request_auth, generate_response_auth}
use chrony_nts.NtsNtp.Requests.{response_cookies}
use chrony_nts.NtsNtp.Exchange.{check_response_auth-generate_response_auth}
use chrony_nts.NtsNtp.Total.{Returns}
use chrony_nts.NtsNtp.Client.{ClientInstance, generate_request_auth, check_response_auth}
use chrony_nts.NtsNtp.Client.Sending.{cookie_of, used_cookie, request_length}
use chrony_nts.NtsNtp.Client.Receiving.{store_all}
use chrony_nts.NtsNtp.Client.Identity.{with_id, map_step, check_response_auth-with_id}
use chrony_nts.NtsNtp.Client.Total.{check_response_auth-Returns}
use chrony_nts.Prelude.{zero, suc, ◌%◌, ◌<◌, get_or, subst, some_inj}
use chrony_nts.NtsKe.Cookies.Rotation.{decode_cookie-current}
use chrony_nts.NtsNtp.Client.{no_cookie, NkeAnswer, prepare_for_auth}
use chrony_nts.NtsNtp.Client.Stock.{IsUsable, IsStocked, store_all-IsStocked}
use chrony_nts.NtsNtp.Client.Filling.{AreUsable, prepare_for_auth-IsStocked}

abbrev c2s : List ℕ
c2s = replicate 32 1

abbrev s2c : List ℕ
s2c = replicate 32 2

abbrev nonce_of : ℕ → List ℕ
nonce_of n = replicate 16 n

-- The keys of the server, one newer than the cookie.
abbrev keys_now : ServerKeys
keys_now = rotate ((5 ∷ [], 100) ∷ []) fresh_keys

abbrev cookie : List ℕ
cookie = generate_cookie plain fresh_keys (nonce_of 3) c2s s2c

-- A client with two cookies.
abbrev a_client : ClientInstance
a_client = record {
  has_nke = false;
  cookies = cookie ∷ cookie ∷ replicate 6 (replicate 100 0);
  num_cookies = 2;
  cookie_index = 0;
  siv_c2s = c2s;
  siv_s2c = s2c;
  nonce = nonce_of 4;
  uniq_id = replicate 32 5;
}

-- An NTPv4 header, and its buffer.
abbrev header : List ℕ
header = 35 ∷ replicate 47 0

abbrev buffer : List ℕ
buffer = header ++ replicate 1092 0

buffer-Begins : Begins header buffer header_length
buffer-Begins = record { same = refl; full = refl; size = refl; whole = refl; headed = omega arith }

abbrev eight_nonces : List (List ℕ)
eight_nonces = replicate 8 (nonce_of 6)

abbrev new_cookies : List (List ℕ)
new_cookies = response_cookies plain keys_now (take (max_cookies + 1 - 2) eight_nonces) c2s s2c

abbrev a_server : ServerInstance
a_server = record { siv_s2c = s2c; nonce = nonce_of 7; cookies = new_cookies }

cookie-decodes : decode_cookie plain keys_now (cookie_of a_client) ≡ some (c2s, s2c)
cookie-decodes =
    decode_cookie-generate_cookie plain fresh_keys (nonce_of 3) c2s s2c ((5 ∷ [], 100) ∷ [])
      plain-IsSiv fresh_keys-IsServerKeys refl refl refl (omega arith)

check_response_auth-generate_response_auth_example :
    (r : List ℕ) × (t : List ℕ) × (generate_request_auth plain a_client (buffer, header_length)
      ≡ some ((r, request_length a_client), used_cookie a_client))
    × (check_request_auth plain keys_now
          (nonce_of 7)
          eight_nonces
          true
          9
          r
          (request_length a_client)
        ≡ going a_server)
    × (generate_response_auth plain a_server true true r
          (request_length a_client)
          (buffer, header_length)
        ≡ going (t, 124 + 104 * length new_cookies))
    × (check_response_auth plain (used_cookie a_client) true 2 t (124 + 104 * length new_cookies)
        ≡ going (store_all new_cookies (used_cookie a_client)))
    × ((store_all new_cookies (used_cookie a_client)).num_cookies ≡ max_cookies)
check_response_auth-generate_response_auth_example =
    check_response_auth-generate_response_auth plain keys_now a_client header buffer header buffer
      (nonce_of 7) eight_nonces 9 2 plain-IsSiv buffer-Begins refl buffer-Begins refl refl refl refl
      (refl, (refl, (refl, (refl, (refl, (refl, (refl, (refl, tt)))))))) refl refl refl
      (length-generate_cookie plain fresh_keys (nonce_of 3) c2s s2c plain-IsSiv refl refl refl)
      cookie-decodes (omega arith) (omega arith) (omega arith) (omega arith)

check_response_auth-with_id_example :
    check_response_auth plain (with_id (replicate 32 9) a_client) true 2 buffer 1136
    ≡ map_step (with_id (replicate 32 9)) (check_response_auth plain a_client true 2 buffer 1136)
check_response_auth-with_id_example =
    check_response_auth-with_id plain a_client (replicate 32 9) buffer true 2 1136

check_response_auth-Returns_example :
    Returns (check_response_auth plain a_client true 2 buffer 1136)
check_response_auth-Returns_example =
    check_response_auth-Returns plain a_client true 2 buffer 1136 (omega arith) (omega arith)

cookie-IsUsable : IsUsable plain fresh_keys c2s s2c cookie
cookie-IsUsable = record {
  size = length-generate_cookie plain fresh_keys (nonce_of 3) c2s s2c plain-IsSiv refl refl refl;
  decodes =
      decode_cookie-current plain fresh_keys (nonce_of 3) c2s s2c plain-IsSiv
        fresh_keys-IsServerKeys refl refl refl;
}

a_client-IsStocked : IsStocked plain fresh_keys a_client
a_client-IsStocked = record {
  slots = refl;
  in_range = omega arith;
  few = omega arith;
  usable = usable_at;
}
  where
    usable_at :
        (k : ℕ)
        → k < 2
        → IsUsable plain fresh_keys c2s s2c
            (get_or a_client.cookies ((0 + k) % max_cookies) no_cookie)
    usable_at zero h = cookie-IsUsable
    usable_at (suc zero) h = cookie-IsUsable
    usable_at (suc (suc k)) h = absurd (omega arith)

store_all-IsStocked_example : IsStocked plain fresh_keys (
    store_all
      (response_cookies plain fresh_keys (nonce_of 6 ∷ nonce_of 8 ∷ []) c2s s2c)
      (used_cookie a_client))
store_all-IsStocked_example =
    store_all-IsStocked plain fresh_keys a_client (nonce_of 6 ∷ nonce_of 8 ∷ []) plain-IsSiv
      fresh_keys-IsServerKeys (refl, (refl, tt)) refl refl a_client-IsStocked (omega arith)
      (omega arith)

abbrev one_cookie : NkeAnswer
one_cookie = record {
  cookies = cookie ∷ [];
  is_closed = true;
  ntp_address = none;
  keys = some (c2s, s2c);
}

one_cookie-AreUsable : AreUsable plain fresh_keys one_cookie
one_cookie-AreUsable c s e k h =
    subst (λ keys. IsUsable plain fresh_keys keys.0 keys.1 (get_or (cookie ∷ []) k no_cookie))
      (some_inj e) (first k h)
  where
    first : (k : ℕ) → k < 1 → IsUsable plain fresh_keys c2s s2c (get_or (cookie ∷ []) k no_cookie)
    first zero h = cookie-IsUsable
    first (suc k) h = absurd (omega arith)

-- A client without cookies.
abbrev no_stock : ClientInstance
no_stock = record a_client { num_cookies = 0 }

no_stock-IsStocked : IsStocked plain fresh_keys no_stock
no_stock-IsStocked = record {
  slots = refl;
  in_range = omega arith;
  few = omega arith;
  usable = λ k h. absurd (omega arith);
}

prepare_for_auth-IsStocked_example :
    IsStocked plain fresh_keys
      (prepare_for_auth one_cookie (replicate 32 9) (nonce_of 9) no_stock).0
prepare_for_auth-IsStocked_example =
    prepare_for_auth-IsStocked plain fresh_keys one_cookie (replicate 32 9) (nonce_of 9) no_stock
      no_stock-IsStocked one_cookie-AreUsable
