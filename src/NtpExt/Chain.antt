-- ===== src/NtpExt/Chain.antt =====
-- ntp_ext.c: packets whose first bytes are known, the fields that are added to them, and what is parsed.
use chrony_nts.Prelude.{
  ℕ, zero, suc, ◌+◌, ◌-◌, ◌%◌, ◌≤◌, ◌<◌, ◌≡◌, refl, ap, ◌∙◌, sym, arith, true, false, not, ◌||◌,
  List, [], ◌∷◌, ◌++◌, some, ltb, leb, ◌==◌, length, take, drop, length-append, length-drop,
  take-append, drop-append, take-append-drop,
}
use mathlib.Core.List.{append_assoc, append-nil}
use chrony_nts.NtpExt.{
  be16, version, packet_size, header_length, add_field, write_at, Field, field, stop, parse_field,
  read_header, max,
}
use chrony_nts.NtpExt.Laws.{parse_at-found, parse_field-start, read_header-be16}

abbrev pub encode_field : ℕ → List ℕ → List ℕ
encode_field t b = be16 t ++ (be16 (4 + length b) ++ b)

abbrev pub encode_fields : List (ℕ × List ℕ) → List ℕ
encode_fields [] = []
encode_fields ((t, b) ∷ fs) = encode_field t b ++ encode_fields fs

-- The buffer of a packet of this length, which begins with these bytes.
pub record Begins (bytes q : List ℕ) (len : ℕ) : Type 0 where
  pub same : take len q ≡ bytes
  pub full : length q ≡ packet_size
  pub size : length bytes ≡ len
  pub whole : len % 4 ≡ 0
  pub headed : header_length ≤ len

pub record IsField (t : ℕ) (b : List ℕ) : Type 0 where
  pub small_type : t < 65536
  pub aligned : length b % 4 ≡ 0
  pub long : 24 ≤ length b

abbrev pub AreFields : List (ℕ × List ℕ) → Type 0
AreFields [] = Unit {0}
AreFields ((t, b) ∷ fs) = IsField t b × AreFields fs

-- A field that is added comes after the bytes that were there.
pub add_field-Begins :
    (bytes q b : List ℕ) (len t : ℕ)
    → Begins bytes q len
    → length b % 4 ≡ 0
    → len + length b + 4 ≤ packet_size
    → (r : List ℕ) × (add_field q len t b ≡ some (r, len + (4 + length b)))
      × Begins (bytes ++ encode_field t b) r (len + (4 + length b))
unfolding add_field write_at
add_field-Begins bytes q b len t h aligned fits =
    let encoded = encode_field t b in
    let rest = drop (len + length encoded) q in
    let r = take len q ++ (encoded ++ rest) in
    let goes : (ltb len 48 || not (len % 4 == 0) || ltb 1140 (len + length b + 4)) ≡ false =
      ground (arith, h.whole, h.headed) in
    let size : length (bytes ++ encoded) ≡ len + (4 + length b) =
      omega (arith, length-append {0} bytes encoded, h.size) in
    let front : r ≡ (bytes ++ encoded) ++ rest =
      ap (λ (l : List ℕ). l ++ (encoded ++ rest)) h.same ∙ sym (append_assoc bytes encoded rest) in
    (
      r,
      rw goes refl,
      record {
        same =
            ap (take (len + (4 + length b))) front
            ∙ take-append (len + (4 + length b)) (bytes ++ encoded) rest size;
        full = omega (
          arith,
          ap (λ (l : List ℕ). length l) front,
          length-append {0} (bytes ++ encoded) rest,
          size,
          length-drop (len + length encoded) q,
          h.full,
        );
        size = size;
        whole = omega (arith, h.whole);
        headed = omega (arith, h.headed);
      },
    )

abbrev pub field_of : ℕ → ℕ → List ℕ → Field
field_of start t b = record { field_type = t; body = b; parsed = start + (4 + length b) }

-- The bytes from a position on.
pub drop-Begins :
    (before after q : List ℕ) (len start : ℕ)
    → take len q ≡ before ++ after
    → length before ≡ start
    → drop start q ≡ after ++ drop len q
drop-Begins before after q len start e size =
    let split : q ≡ before ++ (after ++ drop len q) =
      sym (take-append-drop len q)
      ∙ ap (λ (l : List ℕ). l ++ drop len q) e
      ∙ append_assoc before after (drop len q) in
    ap (drop start) split ∙ drop-append start before (after ++ drop len q) size

pub take-Begins :
    (before after q : List ℕ) (len start : ℕ)
    → take len q ≡ before ++ after
    → length before ≡ start
    → take start q ≡ before
take-Begins before after q len start e size =
    let split : q ≡ before ++ (after ++ drop len q) =
      sym (take-append-drop len q)
      ∙ ap (λ (l : List ℕ). l ++ drop len q) e
      ∙ append_assoc before after (drop len q) in
    ap (take start) split ∙ take-append start before (after ++ drop len q) size

pub parse_field-encode :
    (before tail q b : List ℕ) (len start t : ℕ)
    → take len q ≡ before ++ (encode_field t b ++ tail)
    → length before ≡ start
    → IsField t b
    → version q ≡ 4
    → header_length ≤ start
    → start % 4 ≡ 0
    → len % 4 ≡ 0
    → start + (4 + length b) ≤ len
    → len ≤ packet_size
    → parse_field q len start ≡ field (field_of start t b)
parse_field-encode before tail q b len start t e size f v4 headed aligned whole inside fits =
    let rest = drop len q in
    let n = 4 + length b in
    let assoc : (b ++ tail) ++ rest ≡ b ++ (tail ++ rest) = append_assoc b tail rest in
    let header : read_header (drop start q) ≡ some (t, n, (b ++ tail) ++ rest) =
      ap read_header (drop-Begins before (encode_field t b ++ tail) q len start e size)
      ∙ read_header-be16 t n ((b ++ tail) ++ rest) f.small_type (omega arith) in
    let body : take (n - 4) ((b ++ tail) ++ rest) ≡ b =
      ap (take (n - 4)) assoc ∙ take-append (n - 4) b (tail ++ rest) (omega arith) in
    parse_field-start q len start v4 headed (omega (arith, f.long)) whole aligned
    ∙ parse_at-found q len start t n ((b ++ tail) ++ rest) header (omega (arith, f.long)) inside
        (omega (arith, f.aligned))
    ∙ ap (λ (bs : List ℕ). field (record { field_type = t; body = bs; parsed = start + n })) body

pub parse_field-end :
    (q : List ℕ) (len : ℕ)
    → version q ≡ 4
    → header_length ≤ len
    → len % 4 ≡ 0
    → parse_field q len len ≡ stop
unfolding parse_field
parse_field-end q len v4 headed whole =
    let same : max len 48 ≡ len = omega arith in
    let a : (ltb len 48 || not (len % 4 == 0)) ≡ false = ground arith in
    let b : not (version q == 4) ≡ false = ground arith in
    let c : not (len % 4 == 0) ≡ false = ground arith in
    let d : leb (len - len) 24 ≡ true = ground arith in rw same (rw a (rw b (rw c (rw d refl))))

-- The header is skipped.
pub parse_field-header :
    (q : List ℕ) (len : ℕ) → parse_field q len 0 ≡ parse_field q len header_length
unfolding parse_field
parse_field-header q len = refl

version-take : (q : List ℕ) (len : ℕ) → 0 < len → version q ≡ version (take len q)
version-take q zero h = absurd (omega arith)
version-take [] (suc len) h = refl
version-take (x ∷ q) (suc len) h = refl

version-append : (xs ys : List ℕ) → 0 < length xs → version (xs ++ ys) ≡ version xs
version-append [] ys h = absurd (omega arith)
version-append (x ∷ xs) ys h = refl

encode_fields-append :
    (fs gs : List (ℕ × List ℕ)) → encode_fields (fs ++ gs) ≡ encode_fields fs ++ encode_fields gs
encode_fields-append [] gs = refl
encode_fields-append ((t, b) ∷ fs) gs =
    ap (λ (l : List ℕ). encode_field t b ++ l) (encode_fields-append fs gs)
    ∙ sym (append_assoc (encode_field t b) (encode_fields fs) (encode_fields gs))

pub version-Begins :
    (header rest q : List ℕ) (len : ℕ)
    → Begins (header ++ rest) q len
    → 0 < length header
    → version q ≡ version header
version-Begins header rest q len h some_bytes =
    version-take q len (omega (arith, h.headed))
    ∙ ap version h.same
    ∙ version-append header rest some_bytes

pub encode_fields-last :
    (fs : List (ℕ × List ℕ)) (t : ℕ) (b : List ℕ)
    → encode_fields fs ++ encode_field t b ≡ encode_fields (fs ++ (t, b) ∷ [])
encode_fields-last fs t b =
    ap (λ (l : List ℕ). encode_fields fs ++ l) (sym (append-nil (encode_field t b)))
    ∙ sym (encode_fields-append fs ((t, b) ∷ []))
