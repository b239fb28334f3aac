-- ===== src/NtsNtp/Responses.antt =====
-- nts_ntp.c: the bytes of the response of a server.
use chrony_nts.Prelude.{
  ℕ, suc, ◌+◌, ◌-◌, ◌*◌, ◌≤◌, ◌<◌, ◌≡◌, refl, ap, ◌∙◌, sym, subst, arith, true, false, List, [],
  ◌∷◌, ◌++◌, some, map, ◌==◌, length, take, drop, length-append, replicate, length-replicate,
  length-take, take-append,
}
use mathlib.Core.List.{append-nil, append_assoc}
use chrony_nts.NtpExt.{packet_size, version, header_length}
use chrony_nts.NtpExt.Chain.{
  encode_field, encode_fields, Begins, AreFields, add_field-Begins, field_of, drop-Begins,
}
use chrony_nts.NtsKe.{max_cookies}
use chrony_nts.NtsKe.Cookies.{Siv, IsSiv}
use chrony_nts.NtsNtp.{
  Step, going, next, Packet, or_rejected, auth_body, ef_unique_identifier, ef_cookie,
  ef_auth_and_eef, ServerInstance, slice, copy_id, add_each, seal_response, generate_response_auth,
}
use chrony_nts.NtsNtp.Fields.{fold_fields, walk_fields-all}

-- Cookies of the size that a server makes.
abbrev pub AreFull : List (List ℕ) → Type 0
AreFull [] = Unit {0}
AreFull (c ∷ cs) = (length c ≡ 100) × AreFull cs

abbrev pub cookie_fields : List (List ℕ) → List (ℕ × List ℕ)
cookie_fields = map (λ (c : List ℕ). (ef_cookie, c))

abbrev pub HasNoId : List (ℕ × List ℕ) → Type 0
HasNoId [] = Unit {0}
HasNoId ((t, b) ∷ fs) = ((t == ef_unique_identifier) ≡ false) × HasNoId fs

fold-no_id :
    (start : ℕ) (fs : List (ℕ × List ℕ)) (p : Packet)
    → HasNoId fs
    → fold_fields copy_id start fs p ≡ going p
unfolding copy_id
fold-no_id start [] p h = refl
fold-no_id start ((t, b) ∷ fs) p h =
    rw (h.0, copy_id) (fold-no_id (start + (4 + length b)) fs p h.1)

add_each-Begins :
    (cs : List (List ℕ)) (bytes q : List ℕ) (len : ℕ)
    → Begins bytes q len
    → AreFull cs
    → len + 104 * length cs ≤ packet_size
    → (r : List ℕ) × (add_each ef_cookie cs (q, len) ≡ some (r, len + 104 * length cs))
      × Begins (bytes ++ encode_fields (cookie_fields cs)) r (len + 104 * length cs)
unfolding add_each
add_each-Begins [] bytes q len h full fits =
    let same : len ≡ len + 104 * 0 = omega arith in
    let all = sym (append-nil bytes) in
    (
      q,
      (λ i. some (q, same i)),
      subst (λ b. Begins b q (len + 104 * 0)) all (subst (Begins bytes q) same h),
    )
add_each-Begins (c ∷ cs) bytes q len h full fits =
    let size : length c ≡ 100 = full.0 in
    let (r, done, b) = add_field-Begins bytes q c len ef_cookie h (omega arith) (omega arith) in
    let (t, rest, d) =
      add_each-Begins cs (bytes ++ encode_field ef_cookie c) r (len + (4 + length c)) b full.1
        (omega arith) in
    let same : len + (4 + length c) + 104 * length cs ≡ len + 104 * suc (length cs) = omega arith in
    let assoc = append_assoc bytes (encode_field ef_cookie c) (encode_fields (cookie_fields cs)) in
    (
      t,
      rw done (rest ∙ (λ i. some (t, same i))),
      subst (λ l. Begins l t (len + 104 * suc (length cs))) assoc (subst (Begins _ t) same d),
    )

pub length-cookie_fields :
    (cs : List (List ℕ)) → AreFull cs → length (encode_fields (cookie_fields cs)) ≡ 104 * length cs
length-cookie_fields [] h = refl
length-cookie_fields (c ∷ cs) h = omega (
  arith,
  h.0,
  length-cookie_fields cs h.1,
  length-append {0} (encode_field ef_cookie c) (encode_fields (cookie_fields cs)),
)

-- What is encrypted, and the result with its tag.
abbrev pub sealed_response : Siv → ServerInstance → List ℕ → List ℕ
sealed_response siv s bytes =
    siv.encrypt s.siv_s2c s.nonce bytes (encode_fields (cookie_fields s.cookies))

seal_response-Begins :
    (siv : Siv) (s : ServerInstance) (bytes q : List ℕ) (len : ℕ)
    → IsSiv siv
    → Begins bytes q len
    → AreFull s.cookies
    → length s.nonce ≡ 16
    → len + 40 + 104 * length s.cookies ≤ packet_size
    → (r : List ℕ) × (seal_response siv s (q, len) ≡ going (r, len + 40 + 104 * length s.cookies))
      × Begins
          (bytes ++ encode_field ef_auth_and_eef (auth_body s.nonce (sealed_response siv s bytes)))
          r
          (len + 40 + 104 * length s.cookies)
unfolding seal_response
seal_response-Begins siv s bytes q len good h full ln fits =
    let no_byte : ℕ = 0 in
    let zeros : List ℕ = replicate packet_size no_byte in
    let zeros_size : length zeros ≡ packet_size = length-replicate packet_size no_byte in
    let blank : Begins (take len zeros) zeros len = record {
      same = refl;
      full = zeros_size;
      size = omega (arith, length-take len zeros);
      whole = h.whole;
      headed = h.headed;
    } in
    let n = 104 * length s.cookies in
    let cookies = encode_fields (cookie_fields s.cookies) in
    let (plain, built, b) =
      add_each-Begins s.cookies (take len zeros) zeros len blank full (omega arith) in
    let tail = drop-Begins (take len zeros) cookies plain (len + n) len b.same blank.size in
    let amount : len + n - len ≡ length cookies =
      omega (arith, length-cookie_fields s.cookies full) in
    let text : slice plain len (len + n - len) ≡ cookies =
      (λ i. take (amount i) (tail i))
      ∙ take-append (length cookies) cookies (drop (len + n) plain) refl in
    let sealed = sealed_response siv s bytes in
    let ls = good.encrypt_length s.siv_s2c s.nonce bytes cookies in
    let body = auth_body s.nonce sealed in
    let size = length-append {0} s.nonce sealed in
    let (r, done, d) =
      add_field-Begins bytes q body len ef_auth_and_eef h (omega arith) (omega arith) in
    let total : len + (4 + length body) ≡ len + 40 + n = omega arith in
    (r, rw (built, text, h.same) (rw done (λ i. going (r, total i))), subst (Begins _ r) total d)

-- The ID of the request, and the field that authenticates, after the header.
pub generate_response_auth-Begins :
    (siv : Siv) (s : ServerInstance) (header req uniq_id bytes q : List ℕ) (req_len : ℕ)
    (rest : List (ℕ × List ℕ))
    → IsSiv siv
    → Begins (header ++ encode_fields ((ef_unique_identifier, uniq_id) ∷ rest)) req req_len
    → length header ≡ header_length
    → version req ≡ 4
    → AreFields ((ef_unique_identifier, uniq_id) ∷ rest)
    → HasNoId rest
    → req_len ≤ packet_size
    → length rest < req_len
    → length uniq_id ≡ 32
    → Begins bytes q header_length
    → AreFull s.cookies
    → length s.cookies ≤ max_cookies
    → length s.nonce ≡ 16
    → let before = bytes ++ encode_field ef_unique_identifier uniq_id in
      (r : List ℕ) × (generate_response_auth siv s true true req req_len (q, header_length)
        ≡ going (r, 124 + 104 * length s.cookies))
      × Begins
          (before
            ++ encode_field ef_auth_and_eef (auth_body s.nonce (sealed_response siv s before)))
          r
          (124 + 104 * length s.cookies)
unfolding generate_response_auth copy_id
generate_response_auth-Begins siv s header req uniq_id bytes q req_len rest good h lh v4 are no_id
      fits few lu b full count ln =
    let (q1, copied, b1) =
      add_field-Begins bytes q uniq_id header_length ef_unique_identifier b (omega arith)
        (omega arith) in
    let len1 = header_length + (4 + length uniq_id) in
    let before = bytes ++ encode_field ef_unique_identifier uniq_id in
    let (r, sealed, d) = seal_response-Begins siv s before q1 len1 good b1 full ln (omega arith) in
    let first : copy_id (q, header_length) (field_of header_length ef_unique_identifier uniq_id)
        ≡ going (q1, len1) =
      ap or_rejected copied in
    let walked =
      walk_fields-all copy_id req_len header req req_len ef_unique_identifier uniq_id rest
        (q, header_length) h.same lh are v4 h.whole h.size fits few
      ∙ ap
          (λ (x : Step Packet).
            next x (λ p. fold_fields copy_id (header_length + (4 + length uniq_id)) rest p))
          first
      ∙ fold-no_id (header_length + (4 + length uniq_id)) rest (q1, len1) no_id in
    let total : len1 + 40 + 104 * length s.cookies ≡ 124 + 104 * length s.cookies = omega arith in
    (r, rw walked (sealed ∙ (λ i. going (r, total i))), subst (Begins _ r) total d)
