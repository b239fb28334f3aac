-- ===== src/NtsKe/Cookies/Sample.antt =====
-- nts_ke.c: a cipher and keys of a server for tests.
use chrony_nts.Prelude.{refl, arith, [], ◌∷◌, ◌++◌, some, drop, replicate}
use chrony_nts.NtsKe.Cookies.{Siv, IsSiv, ServerKeys, no_key}
use chrony_nts.NtsKe.Cookies.Rotation.{IsServerKeys}

-- A cipher that adds a tag of zeros and hides nothing.
abbrev pub plain : Siv
plain = record {
  encrypt = λ key nonce assoc text. replicate 16 0 ++ text;
  decrypt = λ key nonce assoc text. some (drop 16 text);
}

pub plain-IsSiv : IsSiv plain
plain-IsSiv = record {
  encrypt_length = λ key nonce assoc text. omega arith;
  decrypt_encrypt = λ key nonce assoc text. refl;
}

abbrev pub fresh_keys : ServerKeys
fresh_keys = record {
  keys = no_key ∷ record { id = 9; siv_key = 7 ∷ [] } ∷ no_key ∷ no_key ∷ [];
  current = 1;
}

pub fresh_keys-IsServerKeys : IsServerKeys fresh_keys
fresh_keys-IsServerKeys = record {
  four = refl;
  in_range = omega arith;
  indexed = refl;
  fits = omega arith;
}
