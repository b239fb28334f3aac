-- ===== src/NtsNtp/Client/Filling.antt =====
-- nts_ntp.c: the cookies that a client gets from the key establishment.
use chrony_nts.Prelude.{
  ℕ, zero, suc, ◌+◌, ◌%◌, ◌<◌, ◌≡◌, refl, sym, subst, arith, false, List, [], ◌∷◌, ◌++◌, Option,
  none, some, length, length-append, length-take, length-drop, take, drop, get_or, ◌==◌, Bool-cases,
  inl, inr,
}
use chrony_nts.NtsKe.{max_cookies}
use chrony_nts.NtsKe.Cookies.{Siv, ServerKeys}
use chrony_nts.NtsNtp.Client.{
  ClientInstance, no_cookie, needs_nke, NkeAnswer, fill, get_nke_data, prepare_for_auth,
}
use chrony_nts.NtsNtp.Client.Stock.{IsUsable, IsStocked}

get_or-take-append {ℓ} :
    {A : Type ℓ} (n k : ℕ) (xs ys : List A) (d : A)
    → k < length (take n xs)
    → get_or (take n xs ++ ys) k d ≡ get_or xs k d
get_or-take-append zero k xs ys d h = absurd (omega arith)
get_or-take-append (suc n) k [] ys d h = absurd (omega arith)
get_or-take-append (suc n) zero (x ∷ xs) ys d h = refl
get_or-take-append (suc n) (suc k) (x ∷ xs) ys d h = get_or-take-append n k xs ys d (omega arith)

length-fill :
    (new old : List (List ℕ)) → length old ≡ max_cookies → length (fill new old) ≡ max_cookies
length-fill new old h = omega (
  arith,
  length-append (take max_cookies new) (drop (length (take max_cookies new)) old),
  length-drop (length (take max_cookies new)) old,
  length-take max_cookies new,
)

-- The cookies of the key establishment give the server its keys.
abbrev pub AreUsable : Siv → ServerKeys → NkeAnswer → Type 0
AreUsable siv s answer =
    (c2s s2c : List ℕ)
    → answer.keys ≡ some (c2s, s2c)
    → (k : ℕ) → k < length answer.cookies
    → IsUsable siv s c2s s2c (get_or answer.cookies k no_cookie)

get_nke_data-IsStocked :
    (siv : Siv) (s : ServerKeys) (answer : NkeAnswer) (c : ClientInstance)
    → length c.cookies ≡ max_cookies
    → AreUsable siv s answer
    → IsStocked siv s (get_nke_data answer c).0
unfolding get_nke_data
get_nke_data-IsStocked siv s answer c slots good =
    elim (Bool-cases (length (take max_cookies answer.cookies) == 0)) [
      | inl nothing ↦ rw nothing (record {
        slots = length-fill answer.cookies c.cookies slots;
        in_range = omega arith;
        few = omega (arith, length-take max_cookies answer.cookies);
        usable = λ k h. absurd (ground arith);
      })
      | inr got ↦ with_keys answer.keys refl got
    ]
  where
    with_keys :
        (o : Option (List ℕ × List ℕ))
        → answer.keys ≡ o
        → (length (take max_cookies answer.cookies) == 0) ≡ false
        → IsStocked siv s (get_nke_data answer c).0
    with_keys none e got = rw got (
        rw e (record {
          slots = length-fill answer.cookies c.cookies slots;
          in_range = omega arith;
          few = omega arith;
          usable = λ k h. absurd (ground arith);
        }))
    with_keys (some (c2s, s2c)) e got = rw got (
        rw e (record {
          slots = length-fill answer.cookies c.cookies slots;
          in_range = omega arith;
          few = omega (arith, length-take max_cookies answer.cookies);
          usable = λ k h.
              let first : k ≡ (0 + k) % max_cookies =
                omega (arith, length-take max_cookies answer.cookies) in
              let there =
                get_or-take-append max_cookies k answer.cookies
                  (drop (length (take max_cookies answer.cookies)) c.cookies) no_cookie h in
              subst
                (λ n. IsUsable siv s c2s s2c (get_or (fill answer.cookies c.cookies) n no_cookie))
                first
                (subst (IsUsable siv s c2s s2c) (sym there)
                  (good c2s s2c e k (omega (arith, length-take max_cookies answer.cookies))));
        }))

-- Before a request a client is stocked, whether it has cookies left or gets new ones: each cookie in its
-- ring gives the server the keys of the client. Conditions: it was stocked, and the cookies of the key
-- establishment give the server its keys.
pub prepare_for_auth-IsStocked :
    (siv : Siv) (s : ServerKeys) (answer : NkeAnswer) (uniq_id nonce : List ℕ) (c : ClientInstance)
    → IsStocked siv s c
    → AreUsable siv s answer
    → IsStocked siv s (prepare_for_auth answer uniq_id nonce c).0
unfolding prepare_for_auth
prepare_for_auth-IsStocked siv s answer uniq_id nonce c v good =
    let w = get_nke_data-IsStocked siv s answer c v.slots good in
    elim (Bool-cases (needs_nke c)) [
      | inr left ↦ rw left v
      | inl out ↦ elim (Bool-cases (needs_nke (get_nke_data answer c).0)) [
        | inl still ↦ rw out (rw still w)
        | inr filled ↦ rw out (
            rw filled
              (record { slots = w.slots; in_range = w.in_range; few = w.few; usable = w.usable }))
      ]
    ]
