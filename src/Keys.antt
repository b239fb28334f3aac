-- ===== src/Keys.antt =====
-- keys.c: the symmetric keys, their decoding, the look-up with its cache, and the authentication of
-- data. Text is a list of character codes. The hash functions of hash.h are a parameter, and so is
-- the measured delay of a key; the lines of the key file come parsed.
pub mod Lookup
pub mod Cache
pub mod Auth
mod Tests
use chrony_nts.Prelude.{
  ℕ, zero, suc, ◌+◌, ◌-◌, ◌*◌, ◌/◌, ◌%◌, ◌^◌, min, Bool, true, false, not, ◌&&◌, ◌||◌, List, [],
  ◌∷◌, ◌++◌, Option, none, some, ltb, leb, ◌==◌, if◌then◌else◌, ◌>>=◌, length, get_elem?, get_or,
  set, take,
}

pub record Key : Type 0 where
  pub id : ℕ
  pub val : List ℕ
  pub hash_id : ℕ
  pub auth_delay : ℕ

pub record Keys : Type 0 where
  pub keys : List Key
  pub cache_valid : Bool
  pub cache_key_id : ℕ
  pub cache_key_pos : ℕ

pub free_keys : Keys → Keys
free_keys s = record s { keys = []; cache_valid = false }

-- The value of a hexadecimal digit.
pub hex_digit : ℕ → Option ℕ
hex_digit c =
    if leb b'0' c && leb c b'9'
    then some (c - b'0')
    else if leb b'a' c && leb c b'f'
    then some (c - b'a' + 10)
    else if leb b'A' c && leb c b'F'
    then some (c - b'A' + 10)
    else none

-- `strtol` in base 16 on two characters, as a byte, if it reads both. It takes a space or a sign
-- before a digit.
pub strtol2 : ℕ → ℕ → Option ℕ
unfolding hex_digit
strtol2 a b = elim (hex_digit a) [
  | some x ↦ do y ← hex_digit b; some (x * 16 + y)
  | none ↦ do
    y ← hex_digit b
    if a == b' ' || a == b'+' || leb 9 a && leb a 13
        then some y
        else if a == b'-'
        then some ((256 - y) % 256)
        else none
]

-- The loop over the pairs of digits; the result is empty if one cannot be read.
pub decode_hex : List ℕ → Option (List ℕ)
unfolding strtol2
decode_hex [] = some []
decode_hex (a ∷ []) = none
decode_hex (a ∷ b ∷ text) = do x ← strtol2 a b; rest ← decode_hex text; some (x ∷ rest)

-- What follows a prefix.
pub after : List ℕ → List ℕ → Option (List ℕ)
after [] text = some text
after (p ∷ prefix) [] = none
after (p ∷ prefix) (c ∷ text) = if p == c then after prefix text else none

abbrev pub ascii_prefix : List ℕ
ascii_prefix = b'A' ∷ b'S' ∷ b'C' ∷ b'I' ∷ b'I' ∷ b':' ∷ []

abbrev pub hex_prefix : List ℕ
hex_prefix = b'H' ∷ b'E' ∷ b'X' ∷ b':' ∷ []

-- Empty for a password that cannot be decoded.
pub decode_password : List ℕ → List ℕ
unfolding after
decode_password key = elim (after ascii_prefix key) [
  | some text ↦ text
  | none ↦ elim (after hex_prefix key) [
    | some digits ↦ elim (decode_hex digits) [ some bytes ↦ bytes | none ↦ [] ]
    | none ↦ key
  ]
]

-- `qsort` by the ID.
pub insert_key : Key → List Key → List Key
insert_key k [] = k ∷ []
insert_key k (x ∷ keys) = if leb k.id x.id then k ∷ x ∷ keys else x ∷ insert_key k keys

pub sort_keys : List Key → List Key
unfolding insert_key
sort_keys [] = []
sort_keys (k ∷ keys) = insert_key k (sort_keys keys)

-- `bsearch` by the ID, in the part from `lo` up to `hi`.
pub bsearch : ℕ → List Key → ℕ → ℕ → ℕ → Option ℕ
bsearch zero keys id lo hi = none
bsearch (suc fuel) keys id lo hi =
    let mid = (lo + hi) / 2 in
    if ltb lo hi
    then elim (get_elem? keys mid) [
      | none ↦ none
      | some k ↦
          let below = bsearch fuel keys id lo mid in
          let above = bsearch fuel keys id (mid + 1) hi in
          if ltb id k.id then below else if ltb k.id id then above else some mid
    ]
    else none

-- `none` for -1. The part that is searched shrinks in each round.
pub lookup_key : List Key → ℕ → Option ℕ
unfolding bsearch
lookup_key keys id = bsearch (length keys + 1) keys id 0 (length keys)

-- The position of the key.
pub get_key_by_id : Keys → ℕ → Option ℕ × Keys
get_key_by_id s key_id =
    if s.cache_valid && key_id == s.cache_key_id
    then (some s.cache_key_pos, s)
    else elim (lookup_key s.keys key_id) [
      | none ↦ (none, s)
      | some position ↦ (
        some position,
        record s { cache_valid = true; cache_key_pos = position; cache_key_id = key_id },
      )
    ]

abbrev pub key_at : Keys → Option ℕ → Option Key
key_at s found = do i ← found; get_elem? s.keys i

pub key_known : Keys → ℕ → Bool × Keys
key_known s key_id =
    let (found, t) = get_key_by_id s key_id in (elim found [ none ↦ false | some _ ↦ true ], t)

pub get_auth_delay : Keys → ℕ → ℕ × Keys
get_auth_delay s key_id =
    let (found, t) = get_key_by_id s key_id in
    (elim (key_at s found) [ none ↦ 0 | some k ↦ k.auth_delay ], t)

-- 80 bits are the minimum for a secure key.
pub check_key_length : Keys → ℕ → Bool × Keys
check_key_length s key_id =
    let (found, t) = get_key_by_id s key_id in
    (elim (key_at s found) [ none ↦ false | some k ↦ leb 10 (length k.val) ], t)

-- A line that `CPS_ParseKey` could parse, with the ID of its hash function, if there is one.
pub record KeyLine : Type 0 where
  pub key_id : ℕ
  pub hash_id : Option ℕ
  pub password : List ℕ

-- The keys of the parsed lines: an unknown hash function or a password that cannot be decoded
-- leaves a key out.
pub parsed_keys : List KeyLine → List Key
parsed_keys [] = []
parsed_keys (line ∷ lines) =
    let rest = parsed_keys lines in
    elim line.hash_id [
      | none ↦ rest
      | some h ↦ elim (decode_password line.password) [
        | [] ↦ rest
        | c ∷ text ↦ record { id = line.key_id; val = c ∷ text; hash_id = h; auth_delay = 0 } ∷ rest
      ]
    ]

-- The loop for the delays, which looks each key up by its ID.
pub measure_from : (Key → ℕ) → ℕ → ℕ → Keys → Keys
measure_from delay zero i s = s
measure_from delay (suc rounds) i s = elim (get_elem? s.keys i) [
  | none ↦ s
  | some k ↦
      let t = (get_key_by_id s k.id).1 in
      measure_from delay rounds (i + 1)
        (record t { keys = set t.keys i (record k { auth_delay = delay k }) })
]

pub reload : (Key → ℕ) → List KeyLine → Keys → Keys
reload delay lines s =
    let keys = sort_keys (parsed_keys lines) in
    measure_from delay (length keys) 0 (record (free_keys s) { keys = keys })

-- The hash of a key and data, with a hash function, in at most so many bytes.
abbrev pub Hash : Type 0
Hash = ℕ → List ℕ → List ℕ → ℕ → List ℕ

pub starts_with : List ℕ → List ℕ → Bool
starts_with text [] = true
starts_with [] (p ∷ prefix) = false
starts_with (c ∷ text) (p ∷ prefix) = p == c && starts_with text prefix

-- `MAX_HASH_LENGTH` is 64.
pub check_ntp_auth : Hash → ℕ → List ℕ → List ℕ → List ℕ → ℕ → Bool
check_ntp_auth hash hash_id key text auth trunc_len =
    let buf = hash hash_id key text 64 in
    min (length buf) trunc_len == length auth && starts_with buf auth

-- Empty for an unknown key.
pub generate_auth : Hash → Keys → ℕ → List ℕ → ℕ → List ℕ × Keys
generate_auth hash s key_id text auth_len =
    let (found, t) = get_key_by_id s key_id in
    (elim (key_at s found) [ none ↦ [] | some k ↦ hash k.hash_id k.val text auth_len ], t)

pub check_auth : Hash → Keys → ℕ → List ℕ → List ℕ → ℕ → Bool × Keys
check_auth hash s key_id text auth trunc_len =
    let (found, t) = get_key_by_id s key_id in
    (
      elim (key_at s found) [
        | none ↦ false
        | some k ↦ check_ntp_auth hash k.hash_id k.val text auth trunc_len
      ],
      t,
    )
