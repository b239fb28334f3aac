-- ===== src/NtsNtp/Client/Stock.antt =====
-- nts_ntp.c: the ring of the cookies of a client: those that it has can be used, and stay so.
use chrony_nts.Prelude.{
  ℕ, suc, ◌+◌, ◌-◌, ◌%◌, ◌≤◌, ◌<◌, ◌≡◌, refl, ◌∙◌, sym, subst, arith, List, [], ◌∷◌, some, set,
  length, length-set, get_or,
}
use chrony_nts.Prelude.Slots.{get_or-set_self, get_or-set_ne}
use native.Mathlib.Decide.{ℕ_discrete}
use chrony_nts.NtsKe.{max_cookies}
use chrony_nts.NtsKe.Cookies.{
  Siv, IsSiv, ServerKeys, generate_cookie, decode_cookie, cookie_size, key_size,
}
use chrony_nts.NtsKe.Cookies.Rotation.{IsServerKeys, decode_cookie-current, length-generate_cookie}
use chrony_nts.NtsNtp.Requests.{response_cookies}
use chrony_nts.NtsNtp.Exchange.{AreNonces}
use chrony_nts.NtsNtp.Client.{ClientInstance, no_cookie, store_cookie}
use chrony_nts.NtsNtp.Client.Sending.{used_cookie}
use chrony_nts.NtsNtp.Client.Receiving.{store_all}

-- A cookie that gives the server the keys of the client.
pub record IsUsable (siv : Siv) (s : ServerKeys) (c2s s2c cookie : List ℕ) : Type 0 where
  pub size : length cookie ≡ cookie_size
  pub decodes : decode_cookie siv s cookie ≡ some (c2s, s2c)

-- The slots from the index on, around the ring, hold usable cookies.
pub record IsStocked (siv : Siv) (s : ServerKeys) (c : ClientInstance) : Type 0 where
  pub slots : length c.cookies ≡ max_cookies
  pub in_range : c.cookie_index < max_cookies
  pub few : c.num_cookies ≤ max_cookies
  pub usable :
      (k : ℕ)
      → k < c.num_cookies
      → IsUsable siv s c.siv_c2s c.siv_s2c
          (get_or c.cookies ((c.cookie_index + k) % max_cookies) no_cookie)

store_cookie-IsStocked :
    (siv : Siv) (s : ServerKeys) (c : ClientInstance) (b : List ℕ)
    → IsStocked siv s c
    → c.num_cookies < max_cookies
    → IsUsable siv s c.siv_c2s c.siv_s2c b
    → IsStocked siv s (store_cookie c b)
unfolding store_cookie
store_cookie-IsStocked siv s c b v room u =
    let i = (c.cookie_index + c.num_cookies) % max_cookies in
    let inside : i < length c.cookies = omega (arith, v.slots) in
    record {
      slots = length-set c.cookies i b ∙ v.slots;
      in_range = v.in_range;
      few = omega arith;
      usable = λ k h. elim (ℕ_discrete k c.num_cookies) [
        | yes e ↦
            subst
              (λ n.
                IsUsable siv s c.siv_c2s c.siv_s2c
                  (get_or (set c.cookies i b) ((c.cookie_index + n) % max_cookies) no_cookie))
              (sym e)
              (subst (IsUsable siv s c.siv_c2s c.siv_s2c)
                (sym (get_or-set_self c.cookies i b no_cookie inside)) u)
        | no ne ↦
            let before : k < c.num_cookies = omega (arith, h, ne) in
            let j = (c.cookie_index + k) % max_cookies in
            subst (IsUsable siv s c.siv_c2s c.siv_s2c)
              (sym (get_or-set_ne c.cookies i j b no_cookie (λ same. omega (arith, v.in_range))))
              (v.usable k before)
      ];
    }

used_cookie-IsStocked :
    (siv : Siv) (s : ServerKeys) (c : ClientInstance)
    → IsStocked siv s c
    → 0 < c.num_cookies
    → IsStocked siv s (used_cookie c)
used_cookie-IsStocked siv s c v some_left = record {
  slots = v.slots;
  in_range = omega arith;
  few = omega (arith, v.few);
  usable = λ k h.
      let same : (c.cookie_index + suc k) % max_cookies
          ≡ ((c.cookie_index + 1) % max_cookies + k) % max_cookies =
        omega arith in
      subst (λ n. IsUsable siv s c.siv_c2s c.siv_s2c (get_or c.cookies n no_cookie)) same
        (v.usable (suc k) (omega arith));
}

-- A client that uses a cookie and stores the ones of the response stays stocked: each cookie in its
-- ring, from the next one on, gives the server the keys of the client. Conditions: the client was
-- stocked and had a cookie, the response has no more cookies than there is room for, the cipher and
-- the keys of the server are in order, and the nonces and the two keys have their lengths.
pub store_all-IsStocked :
    (siv : Siv) (s : ServerKeys) (c : ClientInstance) (nonces : List (List ℕ))
    → IsSiv siv
    → IsServerKeys s
    → AreNonces nonces
    → length c.siv_c2s ≡ key_size
    → length c.siv_s2c ≡ key_size
    → IsStocked siv s c
    → 0 < c.num_cookies
    → c.num_cookies - 1 + length nonces ≤ max_cookies
    → IsStocked siv s
        (store_all (response_cookies siv s nonces c.siv_c2s c.siv_s2c) (used_cookie c))
unfolding store_all store_cookie
store_all-IsStocked siv s c nonces good keys ns lc ls v some_left room =
    all nonces (used_cookie c) ns refl refl (used_cookie-IsStocked siv s c v some_left) room
  where
    all :
        (ms : List (List ℕ)) (t : ClientInstance)
        → AreNonces ms
        → t.siv_c2s ≡ c.siv_c2s
        → t.siv_s2c ≡ c.siv_s2c
        → IsStocked siv s t
        → t.num_cookies + length ms ≤ max_cookies
        → IsStocked siv s (store_all (response_cookies siv s ms c.siv_c2s c.siv_s2c) t)
    all [] t h p q w fits = w
    all (m ∷ ms) t h p q w fits =
        let new = generate_cookie siv s m c.siv_c2s c.siv_s2c in
        let u : IsUsable siv s c.siv_c2s c.siv_s2c new = record {
          size = length-generate_cookie siv s m c.siv_c2s c.siv_s2c good h.0 lc ls;
          decodes = decode_cookie-current siv s m c.siv_c2s c.siv_s2c good keys h.0 lc ls;
        } in
        let u' : IsUsable siv s t.siv_c2s t.siv_s2c new =
          subst (λ k. IsUsable siv s k t.siv_s2c new) (sym p)
            (subst (λ k. IsUsable siv s c.siv_c2s k new) (sym q) u) in
        all ms (store_cookie t new) h.1 p q (store_cookie-IsStocked siv s t new w (omega arith) u')
          (omega arith)
