-- ===== src/NtpSources/Control/Laws.antt =====
-- ntp_sources.c: setting the connectivity of sources comes to the same as setting it source by source,
-- and a call for one address leaves the table valid.
use chrony_nts.Prelude.{
  ℕ, suc, ◌+◌, ◌≡◌, refl, ◌⊎◌, inl, inr, ap, ◌∙◌, arith, true, false, List, [], ◌∷◌, Option, none,
  some, set, Bool-cases, Bool,
}
use chrony_nts.Prelude.Slots.{slot_at}
use chrony_nts.Addressing.{IpAddr}
use chrony_nts.NtpSources.{SourceRecord}
use chrony_nts.NtpSources.Control.{
  Connectivity, Controls, concerns, on_instance, on_concerned, connect_from, connect_peer,
  connect_sources,
}

module _ {Instance Double Report : Type 0} (ncr : Controls Instance Double Report) where
  abbrev pub NoPeer : List (Option (SourceRecord Instance)) → Type 0
  NoPeer [] = Unit {0}
  NoPeer (none ∷ slots) = NoPeer slots
  NoPeer (some r ∷ slots) = (ncr.is_sync_peer r.instance_data ≡ false) × NoPeer slots

  -- At most one source is the sync peer.
  abbrev pub OnePeer : List (Option (SourceRecord Instance)) → Type 0
  OnePeer [] = Unit {0}
  OnePeer (none ∷ slots) = OnePeer slots
  OnePeer (some r ∷ slots) =
      NoPeer slots ⊎ ((ncr.is_sync_peer r.instance_data ≡ false) × OnePeer slots)

  module _ (mask address : IpAddr) (to : Connectivity) where
    abbrev one_by_one :
        List (Option (SourceRecord Instance)) → List (Option (SourceRecord Instance)) × Bool
    one_by_one = on_concerned mask address (ncr.set_connectivity to)

    -- The loop met no sync peer that is concerned, or it left out the one at `k`.
    abbrev Connects : ℕ → List (Option (SourceRecord Instance)) → Type 0
    Connects i xs =
        (connect_from ncr mask address to i xs ≡ ((one_by_one xs).0, none, (one_by_one xs).1))
        ⊎ ((k : ℕ) × (r : SourceRecord Instance) × (ys : List (Option (SourceRecord Instance)))
            × (connect_from ncr mask address to i xs ≡ (ys, some (i + k), (one_by_one xs).1))
            × (slot_at ys k ≡ some r)
            × (set ys k (some (on_instance (ncr.set_connectivity to) r)) ≡ (one_by_one xs).0))

    connect_from-NoPeer :
        (i : ℕ) (xs : List (Option (SourceRecord Instance)))
        → NoPeer xs
        → connect_from ncr mask address to i xs ≡ ((one_by_one xs).0, none, (one_by_one xs).1)
    unfolding connect_from on_concerned
    connect_from-NoPeer i [] h = refl
    connect_from-NoPeer i (none ∷ xs) h = rw (connect_from-NoPeer (i + 1) xs h) refl
    connect_from-NoPeer i (some r ∷ xs) h = elim (Bool-cases (concerns mask address r)) [
      | inl e ↦ rw e (rw h.0 (rw (connect_from-NoPeer (i + 1) xs h.1) refl))
      | inr e ↦ rw e (rw (connect_from-NoPeer (i + 1) xs h.1) refl)
    ]

    connect_from_lem :
        (i : ℕ) (xs : List (Option (SourceRecord Instance))) → OnePeer xs → Connects i xs
    unfolding connect_from on_concerned
    connect_from_lem i [] h = inl refl
    connect_from_lem i (none ∷ xs) h = elim (connect_from_lem (i + 1) xs h) [
      | inl e ↦ inl (rw e refl)
      | inr (k, r, ys, e, at, same) ↦ inr (
        suc k,
        r,
        none ∷ ys,
        rw e (ap (λ (j : ℕ). (none ∷ ys, some j, (one_by_one xs).1)) (omega arith)),
        at,
        ap (◌∷◌ none) same,
      )
    ]
    connect_from_lem i (some r ∷ xs) h =
        let rest : Connects (i + 1) xs = elim h [
          | inl no_peer ↦ inl (connect_from-NoPeer (i + 1) xs no_peer)
          | inr more ↦ connect_from_lem (i + 1) xs more.1
        ] in
        elim (Bool-cases (concerns mask address r)) [
          | inl e ↦ elim (Bool-cases (ncr.is_sync_peer r.instance_data)) [
            | inl p ↦
                let no_peer : NoPeer xs = elim h [ inl n ↦ n | inr more ↦ let q = more.0 in cc ] in
                let e' = connect_from-NoPeer (i + 1) xs no_peer in
                inr (
                  0,
                  r,
                  some r ∷ (one_by_one xs).0,
                  rw e (
                      rw p (
                        rw e' (
                          ap (λ (j : ℕ). (some r ∷ (one_by_one xs).0, some j, true))
                            (omega arith)))),
                  refl,
                  rw e refl,
                )
            | inr p ↦ elim rest [
              | inl e' ↦ inl (rw e (rw p (rw e' refl)))
              | inr (k, q, ys, e', at, same) ↦
                  let changed = some (on_instance (ncr.set_connectivity to) r) in
                  inr (
                    suc k,
                    q,
                    changed ∷ ys,
                    rw e
                        (rw p (rw e' (ap (λ (j : ℕ). (changed ∷ ys, some j, true)) (omega arith)))),
                    at,
                    rw e (ap (◌∷◌ changed) same),
                  )
            ]
          ]
          | inr e ↦ elim rest [
            | inl e' ↦ inl (rw e (rw e' refl))
            | inr (k, q, ys, e', at, same) ↦ inr (
              suc k,
              q,
              some r ∷ ys,
              rw e (rw e' (ap (λ (j : ℕ). (some r ∷ ys, some j, (one_by_one xs).1)) (omega arith))),
              at,
              rw e (ap (◌∷◌ (some r)) same),
            )
          ]
        ]

  connect_peer-none :
      (to : Connectivity) (ys : List (Option (SourceRecord Instance)))
      → connect_peer ncr to none ys ≡ ys
  unfolding connect_peer
  connect_peer-none to ys = refl

  connect_peer-at :
      (to : Connectivity) (ys : List (Option (SourceRecord Instance))) (k : ℕ)
      (r : SourceRecord Instance)
      → slot_at ys k ≡ some r
      → connect_peer ncr to (some k) ys ≡ set ys k (some (on_instance (ncr.set_connectivity to) r))
  unfolding connect_peer
  connect_peer-at to ys k r at = rw (at, connect_peer) refl

  -- Setting the connectivity, the sync peer last, sets that of the sources concerned and of no other,
  -- each once, and tells if there is any. Condition: at most one source is the sync peer.
  pub connect_sources_lem :
      (mask address : IpAddr) (to : Connectivity) (xs : List (Option (SourceRecord Instance)))
      → OnePeer xs
      → connect_sources ncr mask address to xs
        ≡ on_concerned mask address (ncr.set_connectivity to) xs
  unfolding connect_sources
  connect_sources_lem mask address to xs h = elim (connect_from_lem mask address to 0 xs h) [
    | inl e ↦ rw e (
        ap (λ (l : List (Option (SourceRecord Instance))). (l, (one_by_one mask address to xs).1))
          (connect_peer-none to (one_by_one mask address to xs).0))
    | inr (k, r, ys, e, at, same) ↦
        let from_zero : 0 + k ≡ k = omega arith in
        rw e (
          rw from_zero (
            ap
              (λ (l : List (Option (SourceRecord Instance))).
                (l, (one_by_one mask address to xs).1))
              (connect_peer-at to ys k r at ∙ same)))
  ]
