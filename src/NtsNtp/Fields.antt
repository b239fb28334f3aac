-- ===== src/NtsNtp/Fields.antt =====
-- nts_ntp.c: the loop over the fields of a packet.
use chrony_nts.Prelude.{
  ℕ, zero, suc, ◌+◌, ◌%◌, ◌≤◌, ◌<◌, ◌≡◌, refl, ap, ◌∙◌, sym, fun_ext, arith, false, List, [], ◌∷◌,
  ◌++◌, ◌==◌, length, take, length-append,
}
use mathlib.Core.List.{append_assoc}
use chrony_nts.NtpExt.{version, packet_size, header_length, Field, stop, parse_field}
use chrony_nts.NtpExt.Chain.{
  encode_field, encode_fields, AreFields, field_of, parse_field-encode, parse_field-end,
  parse_field-header,
}
use chrony_nts.NtsNtp.{Step, going, next, walk_fields}

module _ {A : Type 0} (on_field : A → Field → Step A) where
  -- The switch on each field of a list, which starts at a position.
  abbrev pub fold_fields : ℕ → List (ℕ × List ℕ) → A → Step A
  fold_fields start [] a = going a
  fold_fields start ((t, b) ∷ fs) a =
      next (on_field a (field_of start t b)) (λ n. fold_fields (start + (4 + length b)) fs n)

  pub walk_fields-encode :
      (fuel : ℕ) (before q : List ℕ) (len start : ℕ) (fs : List (ℕ × List ℕ)) (a : A)
      → take len q ≡ before ++ encode_fields fs
      → length before ≡ start
      → AreFields fs
      → version q ≡ 4
      → header_length ≤ start
      → start % 4 ≡ 0
      → len % 4 ≡ 0
      → length (before ++ encode_fields fs) ≡ len
      → len ≤ packet_size
      → length fs < fuel
      → walk_fields on_field fuel q len start a ≡ fold_fields start fs a
  unfolding walk_fields
  walk_fields-encode zero before q len start fs a e size f v4 headed aligned whole total fits few =
      absurd (omega arith)
  walk_fields-encode (suc fuel) before q len start [] a e size f v4 headed aligned whole total fits
        few =
      let same : start ≡ len = omega (arith, length-append {0} before []) in
      let over : parse_field q len start ≡ stop =
        ap (parse_field q len) same ∙ parse_field-end q len v4 (omega arith) whole in
      let far : (start == 0) ≡ false = ground arith in rw (over, walk_fields) (rw far refl)
  walk_fields-encode (suc fuel) before q len start ((t, b) ∷ fs) a e size f v4 headed aligned whole
        total fits few =
      let tail = encode_fields fs in
      let assoc : before ++ (encode_field t b ++ tail) ≡ (before ++ encode_field t b) ++ tail =
        sym (append_assoc before (encode_field t b) tail) in
      let inside : start + (4 + length b) ≤ len = omega (
        arith,
        length-append {0} before (encode_field t b ++ tail),
        length-append {0} (encode_field t b) tail,
      ) in
      let found =
        parse_field-encode before tail q b len start t e size f.0 v4 headed aligned whole inside
          fits in
      let later : (n : A)
          → walk_fields on_field fuel q len (start + (4 + length b)) n
            ≡ fold_fields (start + (4 + length b)) fs n =
        λ n.
          walk_fields-encode fuel (before ++ encode_field t b) q len (start + (4 + length b)) fs n
            (e ∙ assoc) (omega (arith, length-append {0} before (encode_field t b), size)) f.1 v4
            (omega arith) (omega (arith, f.0.aligned)) whole
            (ap (λ (l : List ℕ). length l) (sym assoc) ∙ total) fits (omega arith) in
      rw (found, walk_fields) (ap (next (on_field a (field_of start t b))) (fun_ext later))

  -- The loop from the start of a packet that has fields after its header.
  pub walk_fields-all :
      (fuel : ℕ) (before q : List ℕ) (len t : ℕ) (b : List ℕ) (fs : List (ℕ × List ℕ)) (a : A)
      → take len q ≡ before ++ encode_fields ((t, b) ∷ fs)
      → length before ≡ header_length
      → AreFields ((t, b) ∷ fs)
      → version q ≡ 4
      → len % 4 ≡ 0
      → length (before ++ encode_fields ((t, b) ∷ fs)) ≡ len
      → len ≤ packet_size
      → length fs < fuel
      → walk_fields on_field (suc fuel) q len 0 a ≡ fold_fields header_length ((t, b) ∷ fs) a
  unfolding walk_fields
  walk_fields-all fuel before q len t b fs a e size f v4 whole total fits few =
      let tail = encode_fields fs in
      let inside : header_length + (4 + length b) ≤ len = omega (
        arith,
        length-append {0} before (encode_field t b ++ tail),
        length-append {0} (encode_field t b) tail,
      ) in
      let found =
        parse_field-encode before tail q b len header_length t e size f.0 v4 (omega arith) refl
          whole inside fits in
      let first = parse_field-header q len ∙ found in
      let same : walk_fields on_field (suc fuel) q len 0 a
          ≡ walk_fields on_field (suc fuel) q len header_length a =
        rw (first, found, walk_fields) refl in
      same
      ∙ walk_fields-encode (suc fuel) before q len header_length ((t, b) ∷ fs) a e size f v4
          (omega arith) refl whole total fits (omega arith)
