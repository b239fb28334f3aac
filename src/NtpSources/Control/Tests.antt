-- ===== src/NtpSources/Control/Tests.antt =====
-- ntp_sources.c: the connectivity of two sources, one of which is the sync peer.
use chrony_nts.Prelude.{ℕ, ◌≡◌, refl, inl, Bool, true, false, [], ◌∷◌, none, some, if◌then◌else◌}
use chrony_nts.Addressing.{unspec}
use chrony_nts.NtpSources.{SourceRecord}
use chrony_nts.NtpSources.Tests.{first, second}
use chrony_nts.NtpSources.Control.{
  Connectivity, offline, online, Controls, connect_sources, on_concerned, connect_from,
  connect_peer,
}
use chrony_nts.NtpSources.Control.Laws.{connect_sources_lem}

-- An instance is whether it is the sync peer, and whether it is online.
abbrev Switch : Type 0
Switch = Bool × Bool

abbrev is_online : Connectivity → Bool
is_online offline = false
is_online _ = true

abbrev switches : Controls Switch ℕ ℕ
switches = record {
  start_instance = λ i. i;
  is_sync_peer = λ i. i.0;
  set_connectivity = λ to i. (i.0, is_online to);
  params_connectivity = λ to params. params;
  reset_instance = λ i. i;
  reset_poll = λ i. i;
  slew_times = λ dfreq doffset i. i;
  modify_minpoll = λ value i. i;
  modify_maxpoll = λ value i. i;
  modify_maxdelay = λ value i. i;
  modify_maxdelayratio = λ value i. i;
  modify_maxdelaydevratio = λ value i. i;
  modify_minstratum = λ value i. i;
  modify_polltarget = λ value i. i;
  initiate_burst = λ good total i. i;
  local_refid = λ i. 0;
  report = λ i. 0;
  count_activity = λ i counts. counts;
}

abbrev a_switch : Bool → Bool → SourceRecord Switch
a_switch peer on = record {
  remote_addr = if peer then first else second;
  instance_data = (peer, on);
  name = none;
  pool = none;
  tentative = false;
}

both_online :
    connect_sources switches unspec unspec online
      (some (a_switch true false) ∷ none ∷ some (a_switch false false) ∷ [])
    ≡ (some (a_switch true true) ∷ none ∷ some (a_switch false true) ∷ [], true)
unfolding connect_sources connect_from connect_peer
both_online = refl

connect_sources_lem_example :
    connect_sources switches unspec unspec online
      (some (a_switch true false) ∷ none ∷ some (a_switch false false) ∷ [])
    ≡ on_concerned unspec unspec
        (switches.set_connectivity online)
        (some (a_switch true false) ∷ none ∷ some (a_switch false false) ∷ [])
connect_sources_lem_example =
    connect_sources_lem switches unspec unspec online
      (some (a_switch true false) ∷ none ∷ some (a_switch false false) ∷ []) (inl (refl, tt))
