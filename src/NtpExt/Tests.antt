-- ===== src/NtpExt/Tests.antt =====
-- ntp_ext.c: an extension field in a packet of version 4 whose other bytes are 0.
use chrony_nts.Prelude.{
  ℕ, suc, ◌≡◌, refl, ap, List, ◌∷◌, some, max, arith, length, take, replicate, length-replicate,
}
use chrony_nts.NtpExt.{header_length, packet_size, version, add_field, field, parse_field}
use chrony_nts.NtpExt.Laws.{StopsOrAdvances, parse_field-add_field, parse_field-StopsOrAdvances}

blank : List ℕ
blank = 0x23 ∷ replicate 1139 0

length-blank : length blank ≡ packet_size
unfolding blank
length-blank = ap suc (length-replicate {A = ℕ} 1139 0)

version-blank : version blank ≡ 4
unfolding blank
version-blank = refl

abbrev cookie : List ℕ
cookie = replicate 24 7

parse_field-add_field_example :
    (q : List ℕ) × (add_field blank 48 0x0204 cookie ≡ some (q, 76))
    × (parse_field q 76 48 ≡ field (record { field_type = 0x0204; body = cookie; parsed = 76 }))
    × (take 48 q ≡ take 48 blank)
parse_field-add_field_example =
    parse_field-add_field blank 48 0x0204 cookie length-blank version-blank (omega arith)
      (omega arith) (omega arith) (omega arith) (omega arith) (omega arith)

parse_field-StopsOrAdvances_example :
    StopsOrAdvances (max 60 header_length) 100 (parse_field blank 100 60)
parse_field-StopsOrAdvances_example =
    parse_field-StopsOrAdvances blank 100 60 (omega (arith, length-blank)) (omega arith)
