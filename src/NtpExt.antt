-- ===== src/NtpExt.antt =====
-- ntp_ext.c: the extension fields of an NTP packet, which is the list of its bytes.
pub mod Laws
pub mod Chain
mod Tests
use chrony_nts.Prelude.{
  ℕ, ◌+◌, ◌-◌, ◌*◌, ◌/◌, ◌%◌, Bool, not, ◌||◌, List, [], ◌∷◌, ◌++◌, Option, none, some, max, ltb,
  leb, ◌==◌, if◌then◌else◌, length, take, drop, get_or,
}

-- The header, and the header with 1024 + 4 + 64 bytes for extension fields and a MAC.
abbrev pub header_length : ℕ
header_length = 48

abbrev pub packet_size : ℕ
packet_size = 1140

abbrev pub min_ef_length : ℕ
min_ef_length = 16

abbrev pub max_v4_mac_length : ℕ
max_v4_mac_length = 24

abbrev pub version : List ℕ → ℕ
version packet = get_or packet 0 0 / 8 % 8

-- `htons`
abbrev pub be16 : ℕ → List ℕ
be16 n = n / 256 % 256 ∷ n % 256 ∷ []

-- Bytes written over others, from an offset on.
pub write_at : List ℕ → ℕ → List ℕ → List ℕ
write_at packet offset bytes = take offset packet ++ (bytes ++ drop (offset + length bytes) packet)

-- The packet and its length with the field, or `none` for 0.
pub add_field : List ℕ → ℕ → ℕ → List ℕ → Option (List ℕ × ℕ)
unfolding write_at
add_field packet len field_type body =
    if ltb len header_length || not (len % 4 == 0) || ltb packet_size (len + length body + 4)
    then none
    else some (
      write_at packet len (be16 field_type ++ (be16 (4 + length body) ++ body)),
      len + (4 + length body),
    )

-- A field that was parsed: its type, its body and where it ends.
pub record Field : Type 0 where
  pub field_type : ℕ
  pub body : List ℕ
  pub parsed : ℕ

-- `stop` is a result of 0, and `failed` a failed assertion.
pub data Parsed : Type 0 where
  stop failed : Parsed
  field : Field → Parsed

-- The type and the length in the header of a field, and the bytes after it.
unfoldable pub read_header : List ℕ → Option (ℕ × ℕ × List ℕ)
read_header (a ∷ b ∷ c ∷ d ∷ rest) = some (a * 256 + b, c * 256 + d, rest)
read_header _ = none

-- The part of `NEF_ParseField` from the header of the field on. A read past the packet would be a
-- failed access.
pub parse_at : List ℕ → ℕ → ℕ → Parsed
parse_at packet len start = elim (read_header (drop start packet)) [
  | none ↦ failed
  | some (field_type, ef_length, rest) ↦
      if ltb ef_length min_ef_length || ltb (len - start) ef_length || not (ef_length % 4 == 0)
      then stop
      else if ltb len (start + ef_length)
      then failed
      else field (record {
        field_type = field_type;
        body = take (ef_length - 4) rest;
        parsed = start + ef_length;
      })
]

pub parse_field : List ℕ → ℕ → ℕ → Parsed
parse_field packet len parsed =
    let start = max parsed header_length in
    if ltb len header_length || not (len % 4 == 0)
    then stop
    else if not (version packet == 4)
    then stop
    else if not (start % 4 == 0)
    then failed
    else if leb (len - start) max_v4_mac_length
    then stop
    else if not ((len - start) % 4 == 0) || ltb (len - start) min_ef_length
    then stop
    else parse_at packet len start
