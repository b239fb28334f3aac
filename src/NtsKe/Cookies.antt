-- ===== src/NtsKe/Cookies.antt =====
-- nts_ke.c: the keys of the server and the cookies that are made with them. AES-SIV-CMAC, which
-- siv_cmac.c or Nettle provides, is a parameter, and the random bytes are arguments.
pub mod Rotation
pub mod Sample
use chrony_nts.Prelude.{
  ℕ, zero, suc, ◌+◌, ◌*◌, ◌/◌, ◌%◌, ◌^◌, ◌≤◌, ◌<◌, ◌≡◌, Bool, not, List, [], ◌∷◌, ◌++◌, Option,
  none, some, ◌==◌, if◌then◌else◌, ◌>>=◌, length, get_or, set, take, drop,
}

-- Encryption of a message with its tag, and decryption, which checks the tag: key, nonce, associated
-- data, text.
pub record Siv : Type 0 where
  pub encrypt : List ℕ → List ℕ → List ℕ → List ℕ → List ℕ
  pub decrypt : List ℕ → List ℕ → List ℕ → List ℕ → Option (List ℕ)

-- What AES-SIV-CMAC promises: a tag of 16 bytes, and that decryption gives back the message.
pub record IsSiv (siv : Siv) : Type 0 where
  pub encrypt_length :
      (key nonce assoc text : List ℕ) → length (siv.encrypt key nonce assoc text) ≡ length text + 16
  pub decrypt_encrypt :
      (key nonce assoc text : List ℕ)
      → siv.decrypt key nonce assoc (siv.encrypt key nonce assoc text) ≡ some text

pub record ServerKey : Type 0 where
  pub id : ℕ
  pub siv_key : List ℕ

pub record ServerKeys : Type 0 where
  pub keys : List ServerKey
  pub current : ℕ

abbrev pub max_server_keys : ℕ
max_server_keys = 4

abbrev pub no_key : ServerKey
no_key = record { id = 0; siv_key = [] }

-- The key and the number that are drawn; the low bits of the ID are the index.
pub generate_server_key : List ℕ → ℕ → ServerKeys → ServerKeys
generate_server_key key random s =
    let next = (s.current + 1) % max_server_keys in
    record {
      keys = set s.keys next (record { id = random / 4 * 4 + next; siv_key = key });
      current = next;
    }

-- A 32-bit number in memory, on a little-endian machine.
abbrev pub le32 : ℕ → List ℕ
le32 n = n % 256 ∷ n / 2 ^ 8 % 256 ∷ n / 2 ^ 16 % 256 ∷ n / 2 ^ 24 % 256 ∷ []

abbrev pub read_le32 : List ℕ → ℕ
read_le32 (a ∷ b ∷ c ∷ d ∷ rest) = a + 2 ^ 8 * b + 2 ^ 16 * c + 2 ^ 24 * d
read_le32 _ = 0

-- The size of a `ServerCookie`: the ID, a nonce of 16 bytes, and two keys with a tag.
abbrev pub cookie_size : ℕ
cookie_size = 100

abbrev pub key_size : ℕ
key_size = 32

module _ (siv : Siv) where
  -- `NKE_GenerateCookie` from the two keys; the nonce is drawn.
  pub generate_cookie : ServerKeys → List ℕ → List ℕ → List ℕ → List ℕ
  generate_cookie s nonce c2s s2c =
      let key = get_or s.keys s.current no_key in
      le32 key.id ++ (nonce ++ siv.encrypt key.siv_key nonce [] (c2s ++ s2c))

  -- `NKE_DecodeCookie`: the two keys, or `none` for 0.
  pub decode_cookie : ServerKeys → List ℕ → Option (List ℕ × List ℕ)
  decode_cookie s cookie =
      let key_id = read_le32 cookie in
      let key = get_or s.keys (key_id % max_server_keys) no_key in
      let opened = siv.decrypt key.siv_key (take 16 (drop 4 cookie)) [] (drop 20 cookie) in
      if not (length cookie == cookie_size)
      then none
      else if not (key_id == key.id)
      then none
      else do text ← opened; some (take key_size text, take key_size (drop key_size text))
