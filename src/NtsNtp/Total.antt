-- ===== src/NtsNtp/Total.antt =====
-- nts_ntp.c: the loop over the fields of a packet ends, and the reads of a field stay within 4 bytes of
-- its end.
use chrony_nts.Prelude.{
  ℕ, zero, suc, ◌+◌, ◌-◌, ◌%◌, ◌≤◌, ◌<◌, ◌≡◌, refl, subst, arith, false, List, none, some, some_inj,
  max, ltb, ◌==◌, length, Bool-cases, inl, inr, >>=-eq-some,
}
use chrony_nts.NtpExt.{Field, Parsed, stop, failed, field, parse_field, read_header, header_length}
use chrony_nts.NtpExt.Laws.{StopsOrAdvances, parse_field-StopsOrAdvances}
use chrony_nts.NtsNtp.{
  Step, rejected, broken, going, next, walk_fields, AuthAndEef, get_padded_length,
  parse_auth_and_eef, body_at,
}

-- A function that returns 0 or goes on.
abbrev pub Returns {ℓ} : {A : Type ℓ} → Step A → Type 0
Returns rejected = Unit
Returns broken = ⊥
Returns (going a) = Unit

padded_le : (n : ℕ) → n ≤ get_padded_length n
unfolding get_padded_length
padded_le n = ground arith

abbrev Bounded : Field → AuthAndEef → Type 0
Bounded f auth =
    (auth.nonce + auth.nonce_length ≤ auth.ciphertext)
    × (auth.ciphertext + auth.ciphertext_length ≤ f.parsed + 4)

-- The nonce and the ciphertext come one after the other, and end at most 4 bytes behind the field.
pub parse_auth_and_eef-bounds :
    (f : Field) (auth : AuthAndEef)
    → length f.body ≤ f.parsed
    → parse_auth_and_eef f ≡ some auth
    → (auth.nonce + auth.nonce_length ≤ auth.ciphertext)
      × (auth.ciphertext + auth.ciphertext_length ≤ f.parsed + 4)
unfolding parse_auth_and_eef
parse_auth_and_eef-bounds f auth inside e =
    let ((nlen, clen, rest), h, found) = >>=-eq-some (read_header f.body) _ e in
    elim (Bool-cases (ltb (length f.body) (get_padded_length nlen + get_padded_length clen))) [
      | inl over ↦ let clash : none ≡ some auth = rw over at found in cc
      | inr fits ↦
          let same : some (given nlen clen) ≡ some auth = rw fits at found in
          subst (Bounded f) (some_inj same)
            (omega (arith, padded_le nlen), bounded nlen clen (padded_le clen) fits)
    ]
  where
    given : ℕ → ℕ → AuthAndEef
    given nlen clen = record {
      nonce = body_at f + 4;
      nonce_length = nlen;
      ciphertext = body_at f + 4 + get_padded_length nlen;
      ciphertext_length = clen;
    }

    bounded :
        (nlen clen : ℕ)
        → clen ≤ get_padded_length clen
        → ltb (length f.body) (get_padded_length nlen + get_padded_length clen) ≡ false
        → body_at f + 4 + get_padded_length nlen + clen ≤ f.parsed + 4
    bounded nlen clen h fits = ground arith

-- The loop returns if the switch does for every field inside the packet.
module _ {A : Type 0} (on_field : A → Field → Step A) where
  abbrev pub ReturnsInside : ℕ → Type 0
  ReturnsInside len =
      (a : A) (f : Field) → length f.body ≤ f.parsed → f.parsed ≤ len → Returns (on_field a f)

  pub walk_fields-Returns :
      (fuel : ℕ) (q : List ℕ) (len start : ℕ) (a : A)
      → ReturnsInside len
      → len ≤ length q
      → start % 4 ≡ 0
      → 0 < start
      → start ≤ len
      → len - start < fuel
      → Returns (walk_fields on_field fuel q len start a)
  unfolding walk_fields
  walk_fields-Returns zero q len start a on_field_returns inside aligned far bound few =
      absurd (omega arith)
  walk_fields-Returns (suc fuel) q len start a on_field_returns inside aligned far bound few =
      found (parse_field q len start) refl (parse_field-StopsOrAdvances q len start inside aligned)
        (λ parsed b. walk_fields-Returns fuel q len parsed b on_field_returns inside)
    where
      goes :
          (x : Step A) (parsed : ℕ)
          → Returns x
          → ((b : A) → Returns (walk_fields on_field fuel q len parsed b))
          → Returns (next x (λ b. walk_fields on_field fuel q len parsed b))
      goes rejected parsed h later = tt
      goes broken parsed h later = h
      goes (going b) parsed h later = later b

      found :
          (p : Parsed)
          → parse_field q len start ≡ p
          → StopsOrAdvances (max start header_length) len p
          → ((parsed : ℕ) (b : A)
              → parsed % 4 ≡ 0
              → 0 < parsed
              → parsed ≤ len
              → len - parsed < fuel
              → Returns (walk_fields on_field fuel q len parsed b))
          → Returns (walk_fields on_field (suc fuel) q len start a)
      found stop e h later =
          let late : (start == 0) ≡ false = ground arith in rw (e, walk_fields) (rw late tt)
      found failed e h later = absurd h
      found (field f) e h later =
          let (far_on, inside_f, aligned_f, size) = h in
          rw (e, walk_fields)
            (goes (on_field a f) f.parsed (on_field_returns a f (omega arith) inside_f)
              (λ b. later f.parsed b aligned_f (omega arith) inside_f (omega arith)))
