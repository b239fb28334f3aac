-- ===== src/NtsKe/Format.antt =====
-- nts_ke.c: what the check of the format of a message says of whole records, and of a message that ends
-- inside a record; and the loop over the records of a message.
use chrony_nts.Prelude.{
  ℕ, zero, suc, ◌+◌, ◌≤◌, ◌<◌, ◌≡◌, refl, inl, inr, ap, ◌∙◌, sym, arith, true, List, [], ◌∷◌, ◌++◌,
  Option, none, some, length, length-append, take, drop-append, ltb, if◌then◌else◌, length-take,
  Bool-cases, lt→ltb,
}
use mathlib.Core.List.{append_assoc}
use chrony_nts.NtpExt.{read_header}
use chrony_nts.NtsKe.{
  Message, KeRecord, KeError, is_none, get_record, read_records, fold_records, flag_bit,
}
use chrony_nts.NtsKe.Records.{
  encode_record, encode, IsRecord, AreRecords, at, get_record-encode, read_header-be16, bits_small,
}

-- No record can be read at these bytes, if no others follow.
abbrev pub IsStuck : List ℕ → Type 0
IsStuck tail =
    (m : Message) (before : List ℕ) → get_record (at m (before ++ tail) (length before)) ≡ none

get_record-short :
    (m : Message) (before tail : List ℕ)
    → read_header tail ≡ none
    → get_record (at m (before ++ tail) (length before)) ≡ none
unfolding get_record
get_record-short m before tail e = rw (drop-append (length before) before tail refl) (rw e refl)

get_record-cut :
    (m : Message) (before tail rest : List ℕ) (bits blen : ℕ)
    → read_header tail ≡ some (bits, blen, rest)
    → length tail < 4 + blen
    → get_record (at m (before ++ tail) (length before)) ≡ none
unfolding get_record
get_record-cut m before tail rest bits blen e short =
    let outside : ltb (length (before ++ tail)) (length before + (4 + blen)) ≡ true =
      lt→ltb _ _ (omega (arith, length-append {0} before tail)) in
    rw (drop-append (length before) before tail refl) (rw e (rw outside refl))

pub nil-IsStuck : IsStuck []
unfolding read_header
nil-IsStuck m before = get_record-short m before [] refl

-- A record that has not come whole cannot be read.
pub take-IsStuck :
    (r : KeRecord) (k : ℕ)
    → IsRecord r
    → k < length (encode_record r)
    → IsStuck (take k (encode_record r))
unfolding read_header
take-IsStuck r zero h short m before = get_record-short m before [] refl
take-IsStuck r (suc zero) h short m before = get_record-short m before _ refl
take-IsStuck r (suc (suc zero)) h short m before = get_record-short m before _ refl
take-IsStuck r (suc (suc (suc zero))) h short m before = get_record-short m before _ refl
take-IsStuck r (suc (suc (suc (suc k)))) h short m before =
    get_record-cut m before (take (suc (suc (suc (suc k)))) (encode_record r)) (take k r.body)
      (flag_bit r.critical + r.record_type) (length r.body)
      (read_header-be16 (flag_bit r.critical + r.record_type) (length r.body) (take k r.body)
        (bits_small r h) (omega (arith, h.short)))
      (omega (arith, length-take {0} k r.body))

-- The bytes of a record moved to those that were read.
shift :
    (before tail : List ℕ) (r : KeRecord) (rs : List KeRecord)
    → before ++ (encode (r ∷ rs) ++ tail) ≡ (before ++ encode_record r) ++ (encode rs ++ tail)
shift before tail r rs =
    ap (λ (l : List ℕ). before ++ l) (append_assoc (encode_record r) (encode rs) tail)
    ∙ sym (append_assoc before (encode_record r) (encode rs ++ tail))

-- The message after the records.
abbrev pub after_records : Message → List ℕ → List ℕ → List KeRecord → Message
after_records m before tail rs =
    at m (before ++ (encode rs ++ tail)) (length before + length (encode rs))

abbrev pub last_of : Option KeRecord → List KeRecord → Option KeRecord
last_of last [] = last
last_of last (r ∷ rs) = last_of (some r) rs

get_record_step :
    (m : Message) (before tail : List ℕ) (r : KeRecord) (rs : List KeRecord)
    → IsRecord r
    → get_record (at m (before ++ (encode (r ∷ rs) ++ tail)) (length before))
      ≡ some (
        r,
        at m
            ((before ++ encode_record r) ++ (encode rs ++ tail))
            (length (before ++ encode_record r)),
      )
get_record_step m before tail r rs h =
    let assoc = append_assoc (encode_record r) (encode rs) tail in
    let bytes = sym (append_assoc before (encode_record r) (encode rs ++ tail)) in
    let size = sym (length-append before (encode_record r)) in
    ap (λ (l : List ℕ). get_record (at m (before ++ l) (length before))) assoc
    ∙ get_record-encode m before (encode rs ++ tail) r h
    ∙ (λ i. some (r, at m (bytes i) (size i)))

pub read_records-encode :
    (fuel : ℕ) (m : Message) (before tail : List ℕ) (rs : List KeRecord) (last : Option KeRecord)
    → AreRecords rs
    → IsStuck tail
    → length rs ≤ fuel
    → read_records fuel (at m (before ++ (encode rs ++ tail)) (length before)) last
      ≡ (after_records m before tail rs, last_of last rs)
unfolding read_records
read_records-encode zero m before tail [] last h stuck enough =
    let size : length before + 0 ≡ length before = omega arith in rw size refl
read_records-encode (suc fuel) m before tail [] last h stuck enough =
    let size : length before + 0 ≡ length before = omega arith in
    rw (stuck m before, read_records) (rw size refl)
read_records-encode zero m before tail (r ∷ rs) last h stuck enough = absurd (omega arith)
read_records-encode (suc fuel) m before tail (r ∷ rs) last h stuck enough =
    let size : length (before ++ encode_record r) + length (encode rs)
        ≡ length before + length (encode (r ∷ rs)) =
      omega (
        arith,
        length-append {0} before (encode_record r),
        length-append {0} (encode_record r) (encode rs),
      ) in
    let bytes = sym (shift before tail r rs) in
    rw (get_record_step m before tail r rs h.0, read_records)
      (read_records-encode fuel m (before ++ encode_record r) tail rs (some r) h.1 stuck
          (omega arith)
        ∙ (λ i. (at m (bytes i) (size i), last_of (some r) rs)))

-- The records in turn, up to the first error.
abbrev pub fold_list {ℓ} : {A : Type ℓ} → (A → KeError) → (A → KeRecord → A) → List KeRecord → A → A
fold_list error_of on_record [] n = n
fold_list error_of on_record (r ∷ rs) n =
    if is_none (error_of n) then fold_list error_of on_record rs (on_record n r) else n

pub fold_records-encode {ℓ} :
    {A : Type ℓ} (error_of : A → KeError) (on_record : A → KeRecord → A) (fuel : ℕ) (m : Message)
    (before tail : List ℕ) (rs : List KeRecord) (n : A)
    → AreRecords rs
    → IsStuck tail
    → length rs < fuel
    → fold_records error_of on_record fuel (at m (before ++ (encode rs ++ tail)) (length before)) n
      ≡ fold_list error_of on_record rs n
unfolding fold_records
fold_records-encode error_of on_record zero m before tail rs n h stuck enough = absurd (omega arith)
fold_records-encode error_of on_record (suc fuel) m before tail [] n h stuck enough =
    elim (Bool-cases (is_none (error_of n))) [
      | inl e ↦ rw (e, fold_records) (rw (stuck m before) refl)
      | inr e ↦ rw (e, fold_records) refl
    ]
fold_records-encode error_of on_record (suc fuel) m before tail (r ∷ rs) n h stuck enough =
    elim (Bool-cases (is_none (error_of n))) [
      | inl e ↦
          rw (e, fold_records)
            (rw (get_record_step m before tail r rs h.0) (
              fold_records-encode error_of on_record fuel m (before ++ encode_record r) tail rs
                (on_record n r) h.1 stuck (omega arith)))
      | inr e ↦ rw (e, fold_records) refl
    ]
