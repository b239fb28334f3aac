-- ===== src/NtpExt/Laws.antt =====
-- ntp_ext.c: the round trip of an extension field, and the bounds of the parser.
use chrony_nts.Prelude.{
  drop-append, take-append, ℕ, zero, suc, ◌+◌, ◌-◌, ◌*◌, ◌/◌, ◌%◌, ◌≤◌, ◌<◌, ◌≡◌, ◌∙◌, inl, inr,
  refl, true, false, not, ◌||◌, List, [], ◌∷◌, ◌++◌, some, arith, Bool-cases, max, ltb, leb, ◌==◌,
  sym, ap, length, take, drop, get_or, length-take, length-drop, subst,
}
use chrony_nts.NtpExt.{
  header_length, packet_size, version, be16, write_at, add_field, Parsed, stop, failed, field,
  read_header, parse_at, parse_field,
}

get_or-take-append :
    (n : ℕ) (xs ys : List ℕ) → n ≤ length xs → 0 < n → get_or (take n xs ++ ys) 0 0 ≡ get_or xs 0 0
get_or-take-append zero xs ys h p = absurd (omega arith)
get_or-take-append (suc n) [] ys h p = absurd (omega arith)
get_or-take-append (suc n) (x ∷ xs) ys h p = refl

pub parse_at-found :
    (q : List ℕ) (len start ty ef : ℕ) (rest : List ℕ)
    → read_header (drop start q) ≡ some (ty, ef, rest)
    → 16 ≤ ef
    → start + ef ≤ len
    → ef % 4 ≡ 0
    → parse_at q len start
      ≡ field (record { field_type = ty; body = take (ef - 4) rest; parsed = start + ef })
unfolding parse_at
parse_at-found q len start ty ef rest h a b c =
    let valid : (ltb ef 16 || ltb (len - start) ef || not (ef % 4 == 0)) ≡ false = ground arith in
    let inside : ltb len (start + ef) ≡ false = ground arith in
    rw (h, parse_at) (rw valid (rw inside refl))

-- The conditions under which the parser comes to the header of a field.
pub parse_field-start :
    (q : List ℕ) (len start : ℕ)
    → version q ≡ 4
    → 48 ≤ start
    → start + 24 < len
    → len % 4 ≡ 0
    → start % 4 ≡ 0
    → parse_field q len start ≡ parse_at q len start
unfolding parse_field
parse_field-start q len start v s l m k =
    let same : max start 48 ≡ start = omega arith in
    let a : (ltb len 48 || not (len % 4 == 0)) ≡ false = ground arith in
    let b : not (version q == 4) ≡ false = ground arith in
    let c : not (start % 4 == 0) ≡ false = ground arith in
    let d : leb (len - start) 24 ≡ false = ground arith in
    let e : (not ((len - start) % 4 == 0) || ltb (len - start) 16) ≡ false = ground arith in
    rw same (rw a (rw b (rw c (rw d (rw e refl)))))

pub read_header-be16 :
    (t n : ℕ) (rest : List ℕ)
    → t < 65536
    → n < 65536
    → read_header (be16 t ++ (be16 n ++ rest)) ≡ some (t, n, rest)
unfolding read_header
read_header-be16 t n rest h k =
    let a : t / 256 % 256 * 256 + t % 256 ≡ t = omega arith in
    let b : n / 256 % 256 * 256 + n % 256 ≡ n = omega arith in
    ap (λ (x : ℕ). some (x, n / 256 % 256 * 256 + n % 256, rest)) a
    ∙ ap (λ (x : ℕ). some (t, x, rest)) b

-- A field that is added is what the parser finds at the old end of the packet, up to the new end;
-- the bytes before it stay. Conditions: an NTPv4 packet of full size whose length is a multiple of 4
-- and covers the header, a 16-bit type, and a body whose length is a multiple of 4, at least 24
-- (or what remains could be a MAC) and fits in the packet.
pub parse_field-add_field :
    (packet : List ℕ) (len field_type : ℕ) (body : List ℕ)
    → length packet ≡ packet_size
    → version packet ≡ 4
    → header_length ≤ len
    → len % 4 ≡ 0
    → field_type < 65536
    → length body % 4 ≡ 0
    → 24 ≤ length body
    → len + length body + 4 ≤ packet_size
    → (q : List ℕ) × (add_field packet len field_type body ≡ some (q, len + (4 + length body)))
      × (parse_field q (len + (4 + length body)) len
          ≡ field
              (record { field_type = field_type; body = body; parsed = len + (4 + length body) }))
      × (take len q ≡ take len packet)
unfolding add_field write_at
parse_field-add_field packet len field_type body size v4 l m t bm b fits =
    let n = 4 + length body in
    let head = take len packet in
    let rest = drop (len + (4 + length body)) packet in
    let q = head ++ (be16 field_type ++ (be16 n ++ (body ++ rest))) in
    let at_len : length head ≡ len = omega (arith, length-take len packet) in
    let tail : drop len q ≡ be16 field_type ++ (be16 n ++ (body ++ rest)) =
      drop-append len head (be16 field_type ++ (be16 n ++ (body ++ rest))) at_len in
    let header : read_header (drop len q) ≡ some (field_type, n, body ++ rest) =
      ap read_header tail ∙ read_header-be16 field_type n (body ++ rest) t (omega arith) in
    let is_v4 : version q ≡ 4 =
      ap (λ (x : ℕ). x / 8 % 8)
        (get_or-take-append len packet (be16 field_type ++ (be16 n ++ (body ++ rest))) (omega arith)
          (omega arith))
      ∙ v4 in
    let whole : take (n - 4) (body ++ rest) ≡ body = take-append (n - 4) body rest (omega arith) in
    let sizes : suc (suc (suc (suc (length body)))) ≡ n = omega arith in
    let goes : (ltb len 48 || not (len % 4 == 0) || ltb 1140 (len + length body + 4)) ≡ false =
      ground arith in
    (
      q,
      rw goes (
          ap
            (λ (x : ℕ).
              some
                (head ++ (be16 field_type ++ (be16 n ++ (body ++ drop (len + x) packet))), len + n))
            sizes),
      parse_field-start q (len + n) len is_v4 l (omega arith) (omega arith) m
          ∙ parse_at-found q (len + n) len field_type n (body ++ rest) header (omega arith)
              (omega arith) (omega arith)
          ∙ ap (λ bs. field (record { field_type = field_type; body = bs; parsed = len + n }))
              whole,
      take-append len head (be16 field_type ++ (be16 n ++ (body ++ rest))) at_len,
    )

-- What the parser makes of a packet from a position on: it stops, or it gives a field that ends
-- after the position, inside the packet, at a multiple of 4.
abbrev pub StopsOrAdvances : ℕ → ℕ → Parsed → Type 0
StopsOrAdvances start len stop = Unit
StopsOrAdvances start len failed = ⊥
StopsOrAdvances start len (field f) =
    (start + 16 ≤ f.parsed)
    × (f.parsed ≤ len)
    × (f.parsed % 4 ≡ 0)
    × (start + 4 + length f.body ≡ f.parsed)

read_header_total :
    (bytes : List ℕ)
    → 4 ≤ length bytes
    → (ty : ℕ) × (ef : ℕ) × (rest : List ℕ) × (read_header bytes ≡ some (ty, ef, rest))
      × (length bytes ≡ 4 + length rest)
unfolding read_header
read_header_total [] h = absurd (omega arith)
read_header_total (a ∷ []) h = absurd (omega arith)
read_header_total (a ∷ b ∷ []) h = absurd (omega arith)
read_header_total (a ∷ b ∷ c ∷ []) h = absurd (omega arith)
read_header_total (a ∷ b ∷ c ∷ d ∷ rest) h = (a * 256 + b, c * 256 + d, rest, refl, omega arith)

parse_at-advances :
    (q : List ℕ) (len start : ℕ)
    → start + 4 ≤ len
    → len ≤ length q
    → start % 4 ≡ 0
    → StopsOrAdvances start len (parse_at q len start)
unfolding parse_at
parse_at-advances q len start h l m =
    let (ty, ef, rest, r, n) =
      read_header_total (drop start q) (omega (arith, length-drop start q)) in
    elim (Bool-cases (ltb ef 16 || ltb (len - start) ef || not (ef % 4 == 0))) [
      | inl e ↦ subst (StopsOrAdvances start len) (sym (stops ty ef rest r e)) tt
      | inr e ↦
          let inside : start + ef ≤ len = ground arith in
          let far : 16 ≤ ef = ground arith in
          let even : ef % 4 ≡ 0 = ground arith in
          subst (StopsOrAdvances start len)
            (sym (parse_at-found q len start ty ef rest r far inside even))
            (
              omega arith,
              inside,
              omega arith,
              omega (arith, length-take (ef - 4) rest, length-drop start q),
            )
    ]
  where
    stops :
        (ty ef : ℕ) (rest : List ℕ)
        → read_header (drop start q) ≡ some (ty, ef, rest)
        → (ltb ef 16 || ltb (len - start) ef || not (ef % 4 == 0)) ≡ true
        → parse_at q len start ≡ stop
    stops ty ef rest r e = rw (r, parse_at) (rw e refl)

-- Parsing never fails an assertion or reads outside the packet: it stops, or it gives a field of at
-- least 16 bytes that ends within the length given, at a multiple of 4, so that a loop over the
-- fields ends. Conditions: the length is within the packet, and the position is a multiple of 4.
pub parse_field-StopsOrAdvances :
    (q : List ℕ) (len parsed : ℕ)
    → len ≤ length q
    → parsed % 4 ≡ 0
    → StopsOrAdvances (max parsed header_length) len (parse_field q len parsed)
unfolding parse_field
parse_field-StopsOrAdvances q len parsed l m =
    let start = max parsed 48 in
    let aligned : not (start % 4 == 0) ≡ false = ground arith in
    elim (Bool-cases (ltb len 48 || not (len % 4 == 0))) [
      | inl a ↦ rw (a, StopsOrAdvances) tt
      | inr a ↦ elim (Bool-cases (not (version q == 4))) [
        | inl b ↦ rw a (rw b tt)
        | inr b ↦ elim (Bool-cases (leb (len - start) 24)) [
          | inl c ↦ rw a (rw b (rw aligned (rw c tt)))
          | inr c ↦ elim (Bool-cases (not ((len - start) % 4 == 0) || ltb (len - start) 16)) [
            | inl d ↦ rw a (rw b (rw aligned (rw c (rw d tt))))
            | inr d ↦ rw a (
                rw b (
                  rw aligned
                    (rw c (rw d (parse_at-advances q len start (ground arith) l (ground arith))))))
          ]
        ]
      ]
    ]
