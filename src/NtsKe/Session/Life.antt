-- ===== src/NtsKe/Session/Life.antt =====
-- nts_ke.c: the life of a connection over any sequence of events on its socket.
use chrony_nts.Prelude.{
  ◌≡◌, refl, ap, ◌∙◌, sym, subst, arith, Bool, true, false, not, List, [], ◌∷◌, Option, some,
  Bool-cases, if◌then◌else◌, ◌>>=◌, inr, inl,
}
use chrony_nts.NtsKe.{Message}
use chrony_nts.NtsKe.Negotiation.{ResponseInput}
use chrony_nts.NtsKe.Session.{
  Mode, State, wait_connect, handshake, send, receive, shutdown, closed, Connection,
  close_connection, session_timeout, Event, receive_all, read_write_in, read_write_socket,
  is_closed,
}
use chrony_nts.NtsKe.Session.States.{
  MayBe, is_open, IsConnection, Advances, Steps, opened, IsOpen, to_open, to_closed, as_opened,
  update_in-Steps, tls_step-Steps, sent_step-Steps, judge-Steps,
}

read_write_in-Steps :
    (input : ResponseInput) (e : Event) (state : State) (mode : Mode) (output : Bool) (m : Message)
    → IsOpen mode state
    → MayBe mode state
    → is_open state ≡ true
    → Steps (opened mode state output m) (read_write_in input e state (opened mode state output m))
unfolding read_write_in
read_write_in-Steps input e wait_connect mode output m h may o = elim (Bool-cases e.for_output) [
  | inr quiet ↦ (
    _,
    rw quiet refl,
    to_open mode wait_connect wait_connect output output m m may refl (omega arith),
  )
  | inl out ↦ elim (Bool-cases e.connected) [
    | inl up ↦ rw out (rw up (update_in-Steps input e.alpn mode wait_connect output m h))
    | inr down ↦ (_, rw out (rw down refl), to_closed mode wait_connect output output m m refl)
  ]
]
read_write_in-Steps input e handshake mode output m h may o =
    tls_step-Steps input e.alpn e.tls mode handshake output m h may refl
read_write_in-Steps input e send mode output m h may o =
    sent_step-Steps input e.alpn e.tls mode output m h may
read_write_in-Steps input e receive mode output m h may o =
    judge-Steps input e.alpn (receive_all e.received m).1 mode output m (receive_all e.received m).0
      h may
read_write_in-Steps input e shutdown mode output m h may o =
    tls_step-Steps input e.alpn e.tls mode shutdown output m h may refl
read_write_in-Steps input e closed mode output m h may o = absurd (ground arith)

IsOpen-of_MayBe :
    (mode : Mode) (state : State) → MayBe mode state → is_open state ≡ true → IsOpen mode state
IsOpen-of_MayBe mode wait_connect may o = may
IsOpen-of_MayBe mode handshake may o = may
IsOpen-of_MayBe mode send may o = may
IsOpen-of_MayBe mode receive may o = may
IsOpen-of_MayBe mode shutdown may o = may
IsOpen-of_MayBe mode closed may o = absurd (ground arith)

read_write_socket-Steps :
    (input : ResponseInput) (e : Event) (c : Connection)
    → IsConnection c
    → is_open c.state ≡ true
    → Steps c (read_write_socket input e c)
read_write_socket-Steps input e c v o =
    let same = as_opened c (v.socket ∙ o) (v.timeout ∙ o) in
    subst (λ x. Steps x (read_write_in input e c.state x)) (sym same)
      (read_write_in-Steps input e c.state c.mode c.output c.message
        (IsOpen-of_MayBe c.mode c.state v.may_be o) v.may_be o)

-- The events on the socket, which has a handler while the connection is open.
unfoldable pub run : ResponseInput → List Event → Connection → Option Connection
run input [] c = some c
run input (e ∷ es) c =
    let rest = read_write_socket input e c >>= run input es in
    if is_closed c.state then some c else rest

session_timeout-closes :
    (c : Connection)
    → IsConnection c
    → IsConnection (session_timeout c) × ((session_timeout c).state ≡ closed)
unfolding session_timeout close_connection
session_timeout-closes c v = elim (Bool-cases (is_closed c.state)) [
  | inr e ↦ rw e (record { may_be = tt; socket = refl; timeout = refl }, refl)
  | inl e ↦
      let none_queued : false ≡ is_open c.state = ground arith in
      rw e (
        record { may_be = v.may_be; socket = v.socket; timeout = none_queued },
        closed_state c.state e,
      )
]
  where
    closed_state : (s : State) → is_closed s ≡ true → s ≡ closed
    closed_state s e = ground arith

Advances-trans : (a b c : Connection) → Advances a b → Advances b c → Advances a c
Advances-trans a b c p q = record {
  valid = q.valid;
  same_mode = q.same_mode ∙ p.same_mode;
  forward = omega (arith, p.forward, q.forward);
}

run-forward :
    (input : ResponseInput) (events : List Event) (c : Connection)
    → IsConnection c
    → Steps c (run input events c)
unfolding run
run-forward input [] c v = (c, refl, record { valid = v; same_mode = refl; forward = omega arith })
run-forward input (e ∷ es) c v = elim (Bool-cases (is_closed c.state)) [
  | inl over ↦ (c, run_over over, record { valid = v; same_mode = refl; forward = omega arith })
  | inr more ↦
      let (s, step, a) = read_write_socket-Steps input e c v (ap not more) in
      let (t, rest, b) = run-forward input es s a.valid in
      (t, run_more more s step ∙ rest, Advances-trans c s t a b)
]
  where
    run_over : is_closed c.state ≡ true → run input (e ∷ es) c ≡ some c
    run_over over = ground arith

    run_more :
        is_closed c.state ≡ false
        → (s : Connection) → read_write_socket input e c ≡ some s
        → run input (e ∷ es) c ≡ run input es s
    run_more more s step = rw more (rw step refl)

-- Whatever the socket and gnutls answer, no assertion fails, and the connection keeps its mode and never
-- goes back: a server shakes hands, receives, sends and shuts down, a client connects, shakes hands,
-- sends, receives and shuts down. It has its socket and its timeout exactly while it is open, and the
-- timeout closes it. Condition: this holds at the start.
pub run-Advances :
    (input : ResponseInput) (events : List Event) (c : Connection)
    → IsConnection c
    → (t : Connection) × (run input events c ≡ some t)
      × Advances c t
      × IsConnection (session_timeout t)
      × ((session_timeout t).state ≡ closed)
run-Advances input events c v =
    let (t, done, a) = run-forward input events c v in
    let (valid, over) = session_timeout-closes t a.valid in (t, done, a, valid, over)
