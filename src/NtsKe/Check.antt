-- ===== src/NtsKe/Check.antt =====
-- nts_ke.c: the result of the check of the format of a message.
use chrony_nts.Prelude.{
  ℕ, ◌+◌, ◌≤◌, ◌<◌, ◌≡◌, refl, ◌∙◌, sym, arith, true, false, List, [], ◌∷◌, ◌++◌, Option, none,
  some, length, length-append, take, ltb, ◌==◌, ◌||◌, if◌then◌else◌, length-take, lt→ltb,
}
use mathlib.Core.List.{append-nil}
use chrony_nts.NtsKe.{
  Message, KeRecord, msg_incomplete, msg_error, msg_ok, check_message_format, is_end, read_records,
}
use chrony_nts.NtsKe.Records.{encode_record, encode, IsRecord, AreRecords, at}
use chrony_nts.NtsKe.Format.{nil-IsStuck, take-IsStuck, after_records, last_of, read_records-encode}

pub records-le-bytes : (rs : List KeRecord) → length rs ≤ length (encode rs)
records-le-bytes [] = omega arith
records-le-bytes (r ∷ rs) =
    omega (arith, records-le-bytes rs, length-append {0} (encode_record r) (encode rs))

last_of-append :
    (last : Option KeRecord) (rs : List KeRecord) (r : KeRecord)
    → last_of last (rs ++ r ∷ []) ≡ some r
last_of-append last [] r = refl
last_of-append last (q ∷ rs) r = last_of-append (some q) rs r

pub AreRecords-append :
    (rs : List KeRecord) (r : KeRecord) → AreRecords rs → IsRecord r → AreRecords (rs ++ r ∷ [])
AreRecords-append [] r h q = (q, tt)
AreRecords-append (p ∷ rs) r h q = (h.0, AreRecords-append rs r h.1 q)

encode-full : (rs : List KeRecord) (r : KeRecord) → 0 < length (encode (rs ++ r ∷ []))
encode-full [] r = omega arith
encode-full (q ∷ rs) r = omega (arith, length-append {0} (encode_record q) (encode (rs ++ r ∷ [])))

-- Whole records are a message exactly if the last one is the end of the message; otherwise they are
-- an error, also where more may follow.
pub check_message_format-whole :
    (m : Message) (rs : List KeRecord) (r : KeRecord) (p : ℕ)
    → AreRecords rs
    → IsRecord r
    → (check_message_format (at m (encode (rs ++ r ∷ [])) p)).0
      ≡ (if is_end r then msg_ok else msg_error)
unfolding check_message_format
check_message_format-whole m rs r p h q =
    let all = rs ++ r ∷ [] in
    let bytes = encode all in
    let same : encode all ++ [] ≡ bytes = append-nil bytes in
    let run =
      read_records-encode (length bytes) m [] [] all none (AreRecords-append rs r h q) nil-IsStuck
        (records-le-bytes all)
      ∙ (λ i. (after_records m [] [] all, last_of-append none rs r i)) in
    let back = sym same in
    let read =
      (λ i. read_records (length bytes) (at m (back i) 0) none)
      ∙ run
      ∙ (λ i. (at m (same i) (0 + length bytes), some r)) in
    let full : (length bytes == 0 || ltb (0 + length bytes) (length bytes)) ≡ false =
      filled (length bytes) (encode-full rs r) in
    rw read (rw full refl)
  where
    filled : (n : ℕ) → 0 < n → (n == 0 || ltb (0 + n) n) ≡ false
    filled n h = ground arith

-- Records and a part of another are no message: they are an error at the end of the data, and more
-- data is waited for before.
pub check_message_format-cut :
    (m : Message) (rs : List KeRecord) (r : KeRecord) (k p : ℕ)
    → AreRecords rs
    → IsRecord r
    → 0 < k
    → k < length (encode_record r)
    → (check_message_format (at m (encode rs ++ take k (encode_record r)) p)).0
      ≡ (if m.eof then msg_error else msg_incomplete)
unfolding check_message_format
check_message_format-cut m rs r k p h q some_bytes short =
    let tail = take k (encode_record r) in
    let bytes = encode rs ++ tail in
    let size = length-append {0} (encode rs) tail in
    let run =
      read_records-encode (length bytes) m [] tail rs none h (take-IsStuck r k q short)
        (omega (arith, size, records-le-bytes rs)) in
    let part : ltb (0 + length (encode rs)) (length bytes) ≡ true =
      lt→ltb _ _ (omega (arith, size, length-take {0} k (encode_record r))) in
    let undone : (length bytes == 0 || ltb (0 + length (encode rs)) (length bytes)) ≡ true =
      ground arith in
    rw run (rw undone refl)
