-- ===== src/NtsKe/Records.antt =====
-- nts_ke.c: records that are added are read back.
use chrony_nts.Prelude.{
  ℕ, ◌+◌, ◌*◌, ◌/◌, ◌%◌, ◌^◌, ◌≤◌, ◌<◌, ◌≡◌, refl, ap, ◌∙◌, arith, false, List, [], ◌∷◌, ◌++◌, some,
  length, length-append, take, drop, drop-append, take-append, ltb, leb,
}
use chrony_nts.NtpExt.{be16, read_header}
use chrony_nts.NtsKe.{Message, KeRecord, record_critical_bit, flag_bit, get_record}

-- The bytes of a record, and of a sequence of records.
abbrev pub encode_record : KeRecord → List ℕ
encode_record r = be16 (flag_bit r.critical + r.record_type) ++ (be16 (length r.body) ++ r.body)

abbrev pub encode : List KeRecord → List ℕ
encode [] = []
encode (r ∷ rs) = encode_record r ++ encode rs

-- A record that can be encoded.
pub record IsRecord (r : KeRecord) : Type 0 where
  pub small_type : r.record_type < 2 ^ 15
  pub short : length r.body ≤ 65535

abbrev pub AreRecords : List KeRecord → Type 0
AreRecords [] = Unit {0}
AreRecords (r ∷ rs) = IsRecord r × AreRecords rs

pub read_header-be16 :
    (x y : ℕ) (rest : List ℕ)
    → x < 2 ^ 16
    → y < 2 ^ 16
    → read_header (be16 x ++ (be16 y ++ rest)) ≡ some (x, y, rest)
unfolding read_header
read_header-be16 x y rest hx hy =
    let first : x / 256 % 256 * 256 + x % 256 ≡ x = omega arith in
    let second : y / 256 % 256 * 256 + y % 256 ≡ y = omega arith in rw (first, second) refl

pub bits_small : (r : KeRecord) → IsRecord r → flag_bit r.critical + r.record_type < 2 ^ 16
bits_small r h = ground arith

-- A message that has the bytes and was read up to a position.
abbrev pub at : Message → List ℕ → ℕ → Message
at m bytes parsed = record m { data_bytes = bytes; parsed = parsed }

-- A record behind what was read is read, whatever follows it.
pub get_record-encode :
    (m : Message) (before after : List ℕ) (r : KeRecord)
    → IsRecord r
    → get_record (at m (before ++ (encode_record r ++ after)) (length before))
      ≡ some (
        r,
        at m (before ++ (encode_record r ++ after)) (length before + length (encode_record r)),
      )
unfolding get_record
get_record-encode m before after r h =
    let bytes = before ++ (encode_record r ++ after) in
    let bits = flag_bit r.critical + r.record_type in
    let split : encode_record r ++ after
        ≡ be16 bits ++ (be16 (length r.body) ++ (r.body ++ after)) =
      refl in
    let header : read_header (drop (length before) bytes)
        ≡ some (bits, length r.body, r.body ++ after) =
      ap read_header (drop-append (length before) before (encode_record r ++ after) refl)
      ∙ read_header-be16 bits (length r.body) (r.body ++ after) (bits_small r h) (omega arith) in
    let inside : ltb (length bytes) (length before + (4 + length r.body)) ≡ false =
      leb_false (length bytes) (length before + (4 + length r.body)) (
        omega (
          arith,
          length-append {0} before (encode_record r ++ after),
          length-append {0} r.body after,
        )) in
    let bit : leb record_critical_bit bits ≡ r.critical = flag_read r h in
    let low : bits % record_critical_bit ≡ r.record_type = type_read r h in
    let text : take (length r.body) (r.body ++ after) ≡ r.body =
      take-append (length r.body) r.body after refl in
    let size : length before + (4 + length r.body) ≡ length before + length (encode_record r) =
      omega arith in
    rw header (rw inside (rw (bit, low, text, size) refl))
  where
    leb_false : (a b : ℕ) → b ≤ a → ltb a b ≡ false
    leb_false a b h = ground arith

    flag_read :
        (r : KeRecord)
        → IsRecord r
        → leb record_critical_bit (flag_bit r.critical + r.record_type) ≡ r.critical
    flag_read r h = ground arith

    type_read :
        (r : KeRecord)
        → IsRecord r
        → (flag_bit r.critical + r.record_type) % record_critical_bit ≡ r.record_type
    type_read r h = ground arith
