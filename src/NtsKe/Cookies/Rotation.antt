-- ===== src/NtsKe/Cookies/Rotation.antt =====
-- nts_ke.c: a cookie gives its keys back until the key of the server that it was made with is replaced.
use chrony_nts.Prelude.{
  ℕ, suc, ◌+◌, ◌*◌, ◌/◌, ◌%◌, ◌^◌, ◌≤◌, ◌<◌, ◌≡◌, refl, ap, ◌∙◌, sym, arith, false, not, List, [],
  ◌∷◌, ◌++◌, Option, some, length, length-append, length-set, get_or, take, drop, drop-append,
  take-append, ◌==◌, ◌>>=◌,
}
use mathlib.Core.List.{append-nil}
use chrony_nts.Prelude.Slots.{get_or-set_self, get_or-set_ne}
use chrony_nts.NtsKe.Cookies.{
  Siv, IsSiv, ServerKey, ServerKeys, max_server_keys, no_key, generate_server_key, le32, read_le32,
  cookie_size, key_size, generate_cookie, decode_cookie,
}

abbrev pub current_key : ServerKeys → ServerKey
current_key s = get_or s.keys s.current no_key

-- There are four keys, and the ID of the current one fits in 32 bits and ends in its index.
pub record IsServerKeys (s : ServerKeys) : Type 0 where
  pub four : length s.keys ≡ max_server_keys
  pub in_range : s.current < max_server_keys
  pub indexed : (current_key s).id % max_server_keys ≡ s.current
  pub fits : (current_key s).id < 2 ^ 32

-- The keys that are generated one after the other, each with its random number.
pub rotate : List (List ℕ × ℕ) → ServerKeys → ServerKeys
rotate [] s = s
rotate ((key, random) ∷ rest) s = rotate rest (generate_server_key key random s)

-- A new key of the server keeps the keys in order.
pub generate_server_key-IsServerKeys :
    (key : List ℕ) (random : ℕ) (s : ServerKeys)
    → random < 2 ^ 32
    → IsServerKeys s
    → IsServerKeys (generate_server_key key random s)
unfolding generate_server_key
generate_server_key-IsServerKeys key random s h v =
    let next = (s.current + 1) % max_server_keys in
    let new : ServerKey = record { id = random / 4 * 4 + next; siv_key = key } in
    let inside : next < length s.keys = omega (arith, v.four) in
    let there = get_or-set_self s.keys next new no_key inside in
    record {
      four = length-set s.keys next new ∙ v.four;
      in_range = omega arith;
      indexed = rw there (omega arith);
      fits = rw there (omega arith);
    }

rotate-keeps :
    (rest : List (List ℕ × ℕ)) (s : ServerKeys) (c d : ℕ)
    → c < max_server_keys
    → (c + d) % max_server_keys ≡ s.current
    → d + length rest ≤ 3
    → get_or (rotate rest s).keys c no_key ≡ get_or s.keys c no_key
unfolding rotate generate_server_key
rotate-keeps [] s c d hc e few = refl
rotate-keeps ((key, random) ∷ rest) s c d hc e few =
    let next = (s.current + 1) % max_server_keys in
    rotate-keeps rest (generate_server_key key random s) c (d + 1) hc (omega arith) (omega arith)
    ∙ get_or-set_ne s.keys next c (record { id = random / 4 * 4 + next; siv_key = key }) no_key
        (λ same. omega arith)

read_le32-le32 : (n : ℕ) (rest : List ℕ) → n < 2 ^ 32 → read_le32 (le32 n ++ rest) ≡ n
read_le32-le32 n rest h = omega arith

abbrev split_keys : List ℕ → Option (List ℕ × List ℕ)
split_keys text = some (take key_size text, take key_size (drop key_size text))

decode_cookie-known :
    (siv : Siv) (t : ServerKeys) (key : ServerKey) (nonce sealed : List ℕ)
    → key.id < 2 ^ 32
    → get_or t.keys (key.id % max_server_keys) no_key ≡ key
    → length nonce ≡ 16
    → length sealed ≡ 80
    → decode_cookie siv t (le32 key.id ++ (nonce ++ sealed))
      ≡ (siv.decrypt key.siv_key nonce [] sealed >>= split_keys)
unfolding decode_cookie
decode_cookie-known siv t key nonce sealed h at_slot ln ls =
    let id = read_le32-le32 key.id (nonce ++ sealed) h in
    let whole : not (length (le32 key.id ++ (nonce ++ sealed)) == cookie_size) ≡ false =
      is_size (length (nonce ++ sealed)) (omega (arith, length-append {0} nonce sealed)) in
    let known : not (key.id == key.id) ≡ false = ground arith in
    let first = take-append 16 nonce sealed ln in
    let second = drop-append 16 nonce sealed ln in
    rw id (rw at_slot (rw whole (rw known (rw (first, second) refl))))
  where
    is_size : (n : ℕ) → n ≡ 96 → not (suc (suc (suc (suc n))) == cookie_size) ≡ false
    is_size n e = ground arith

-- Two keys come back from the cookie that was made from them, also after up to three newer keys of the
-- server. Conditions: the keys of the server are in order, the lengths of the nonce and the two keys
-- are 16, 32 and 32, and the cipher gives back what it encrypts.
pub decode_cookie-generate_cookie :
    (siv : Siv) (s : ServerKeys) (nonce c2s s2c : List ℕ) (newer : List (List ℕ × ℕ))
    → IsSiv siv
    → IsServerKeys s
    → length nonce ≡ 16
    → length c2s ≡ key_size
    → length s2c ≡ key_size
    → length newer ≤ 3
    → decode_cookie siv (rotate newer s) (generate_cookie siv s nonce c2s s2c) ≡ some (c2s, s2c)
unfolding generate_cookie
decode_cookie-generate_cookie siv s nonce c2s s2c newer good v ln lc ls few =
    let key = current_key s in
    let text = c2s ++ s2c in
    let sealed = siv.encrypt key.siv_key nonce [] text in
    let found : get_or (rotate newer s).keys (key.id % max_server_keys) no_key ≡ key =
      ap (λ (i : ℕ). get_or (rotate newer s).keys i no_key) v.indexed
      ∙ rotate-keeps newer s s.current 0 v.in_range (omega (arith, v.in_range)) (omega arith) in
    let first = take-append key_size c2s s2c lc in
    let second = drop-append key_size c2s s2c lc in
    let all : take key_size s2c ≡ s2c =
      ap (take key_size) (sym (append-nil s2c)) ∙ take-append key_size s2c [] ls in
    decode_cookie-known siv (rotate newer s) key nonce sealed v.fits found ln
      (omega (arith, good.encrypt_length key.siv_key nonce [] text, length-append {0} c2s s2c))
    ∙ ap (λ (o : Option (List ℕ)). o >>= split_keys)
        (good.decrypt_encrypt key.siv_key nonce [] text)
    ∙ (λ i. some (first i, take key_size (second i)))
    ∙ (λ i. some (c2s, all i))

-- The size of a cookie that is made.
pub length-generate_cookie :
    (siv : Siv) (s : ServerKeys) (nonce c2s s2c : List ℕ)
    → IsSiv siv
    → length nonce ≡ 16
    → length c2s ≡ key_size
    → length s2c ≡ key_size
    → length (generate_cookie siv s nonce c2s s2c) ≡ 100
unfolding generate_cookie
length-generate_cookie siv s nonce c2s s2c good ln lc ls =
    let key = current_key s in
    let sealed = siv.encrypt key.siv_key nonce [] (c2s ++ s2c) in
    omega (
      arith,
      length-append {0} nonce sealed,
      good.encrypt_length key.siv_key nonce [] (c2s ++ s2c),
      length-append {0} c2s s2c,
    )

pub decode_cookie-current :
    (siv : Siv) (s : ServerKeys) (nonce c2s s2c : List ℕ)
    → IsSiv siv
    → IsServerKeys s
    → length nonce ≡ 16
    → length c2s ≡ key_size
    → length s2c ≡ key_size
    → decode_cookie siv s (generate_cookie siv s nonce c2s s2c) ≡ some (c2s, s2c)
unfolding rotate
decode_cookie-current siv s nonce c2s s2c good v ln lc ls =
    decode_cookie-generate_cookie siv s nonce c2s s2c [] good v ln lc ls (omega arith)
