-- ===== src/NtsNtp/Auth.antt =====
-- nts_ntp.c: the field that authenticates a packet, as it is made and as it is read.
use chrony_nts.Prelude.{
  ℕ, ◌+◌, ◌-◌, ◌%◌, ◌≤◌, ◌<◌, ◌≡◌, refl, ap, ◌∙◌, sym, arith, false, ◌||◌, List, ◌++◌, some, ltb,
  length, take, drop, length-append, take-append,
}
use mathlib.Core.List.{append_assoc}
use chrony_nts.NtpExt.{be16, packet_size}
use chrony_nts.NtpExt.Laws.{read_header-be16}
use chrony_nts.NtpExt.Chain.{encode_field, field_of, drop-Begins, take-Begins}
use chrony_nts.NtsKe.Cookies.{Siv}
use chrony_nts.NtsNtp.{
  or_rejected, AuthAndEef, get_padded_length, parse_auth_and_eef, open_auth, auth_body, slice,
}

padded_same : (n : ℕ) → n % 4 ≡ 0 → get_padded_length n ≡ n
unfolding get_padded_length
padded_same n h = ground arith

abbrev pub auth_of : ℕ → List ℕ → AuthAndEef
auth_of start sealed = record {
  nonce = start + 8;
  nonce_length = 16;
  ciphertext = start + 8 + 16;
  ciphertext_length = length sealed;
}

pub parse_auth_and_eef-auth_body :
    (start t : ℕ) (nonce sealed : List ℕ)
    → length nonce ≡ 16
    → length sealed % 4 ≡ 0
    → length sealed < 65536
    → parse_auth_and_eef (field_of start t (auth_body nonce sealed)) ≡ some (auth_of start sealed)
unfolding parse_auth_and_eef
parse_auth_and_eef-auth_body start t nonce sealed ln aligned small =
    let header =
      read_header-be16 (length nonce) (length sealed) (nonce ++ sealed) (omega arith) small in
    let size = length-append {0} nonce sealed in
    let a : get_padded_length (length nonce) ≡ 16 = ap get_padded_length ln ∙ padded_same 16 refl in
    let b = padded_same (length sealed) aligned in
    let inside : ltb (length (auth_body nonce sealed)) (16 + length sealed) ≡ false =
      ground (arith, size) in
    let at_nonce : start
          + (4 + length (auth_body nonce sealed))
          - length (auth_body nonce sealed)
          + 4
        ≡ start + 8 =
      omega arith in
    rw header (
      rw (a, b)
        (rw inside (λ i. some (record {
          nonce = at_nonce i;
          nonce_length = ln i;
          ciphertext = at_nonce i + 16;
          ciphertext_length = length sealed;
        }))))

-- What is decrypted is what was encrypted, with the bytes before the field.
pub open_auth-auth_body :
    (siv : Siv) (key before q nonce sealed : List ℕ) (len start t : ℕ)
    → take len q ≡ before ++ encode_field t (auth_body nonce sealed)
    → length before ≡ start
    → length nonce ≡ 16
    → 16 ≤ length sealed
    → length q ≡ packet_size
    → start + (4 + length (auth_body nonce sealed)) ≡ len
    → len ≤ packet_size
    → open_auth siv key q len (field_of start t (auth_body nonce sealed)) (auth_of start sealed)
      ≡ or_rejected (siv.decrypt key nonce before sealed)
unfolding open_auth
open_auth-auth_body siv key before q nonce sealed len start t e size ln ls full total fits =
    let b = auth_body nonce sealed in
    let body_size = length-append {0} nonce sealed in
    let head = be16 t ++ (be16 (4 + length b) ++ (be16 (length nonce) ++ be16 (length sealed))) in
    let rest = drop len q in
    let split : take len q ≡ (before ++ head) ++ (nonce ++ sealed) =
      e ∙ sym (append_assoc before head (nonce ++ sealed)) in
    let at_nonce : drop (start + 8) q ≡ (nonce ++ sealed) ++ rest =
      drop-Begins (before ++ head) (nonce ++ sealed) q len (start + 8) split
        (omega (arith, length-append {0} before head)) in
    let split' : take len q ≡ ((before ++ head) ++ nonce) ++ sealed =
      split ∙ sym (append_assoc (before ++ head) nonce sealed) in
    let at_text : drop (start + 8 + 16) q ≡ sealed ++ rest =
      drop-Begins ((before ++ head) ++ nonce) sealed q len (start + 8 + 16) split'
        (omega (arith, length-append {0} before head, length-append {0} (before ++ head) nonce)) in
    let nonce_read : slice q (start + 8) 16 ≡ nonce =
      ap (take 16) (at_nonce ∙ append_assoc nonce sealed rest)
      ∙ take-append 16 nonce (sealed ++ rest) ln in
    let text_read : slice q (start + 8 + 16) (length sealed) ≡ sealed =
      ap (take (length sealed)) at_text ∙ take-append (length sealed) sealed rest refl in
    let at_start : len - length b - 4 ≡ start = omega arith in
    let assoc_read : take (len - length b - 4) q ≡ before =
      ap (λ (n : ℕ). take n q) at_start
      ∙ take-Begins before (encode_field t b) q len start e size in
    let inside : (ltb (length sealed) 16 || ltb (length q) (start + 8 + 16 + length sealed))
        ≡ false =
      ground (arith, body_size) in
    rw inside (rw (nonce_read, text_read, assoc_read) refl)
