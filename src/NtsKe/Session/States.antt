-- ===== src/NtsKe/Session/States.antt =====
-- nts_ke.c: the states that a connection goes through.
use chrony_nts.Prelude.{
  not, ℕ, ◌+◌, ◌≤◌, ◌≡◌, refl, inl, inr, sym, arith, Bool, true, false, Option, some, length, ltb,
  Bool-cases,
}
use chrony_nts.NtsKe.{
  Message, MsgFormat, msg_incomplete, msg_error, msg_ok, check_message_format, add_record,
  reset_message, not,
}
use chrony_nts.NtsKe.Negotiation.{ResponseInput, process_request, prepare_request}
use chrony_nts.NtsKe.Session.{
  tls_step, sent_step, judge, is_closed, server_received, client_received, Mode, unknown, server,
  client, State, wait_connect, handshake, send, receive, shutdown, closed, Connection,
  close_connection, update_in, Tls, done, again, fatal, Verdict, go_on, wait, broken,
}

-- The place of a state in the life of a connection.
abbrev pub rank : Mode → State → ℕ
rank mode wait_connect = 0
rank mode handshake = 1
rank server receive = 2
rank mode send = 3
rank mode receive = 4
rank mode shutdown = 5
rank mode closed = 6

-- A connection is closed or has a known mode, and only a client waits for the connection.
abbrev pub MayBe : Mode → State → Type 0
MayBe mode closed = Unit {0}
MayBe unknown state = ⊥
MayBe server wait_connect = ⊥
MayBe mode state = Unit {0}

abbrev pub is_open : State → Bool
is_open state = not (is_closed state)

-- The socket and the timeout are there exactly while the connection is open.
pub record IsConnection (c : Connection) : Type 0 where
  pub may_be : MayBe c.mode c.state
  pub socket : c.has_socket ≡ is_open c.state
  pub timeout : c.has_timeout ≡ is_open c.state

-- What an event makes of a connection: the mode stays, and it does not go back.
pub record Advances (c t : Connection) : Type 0 where
  pub valid : IsConnection t
  pub same_mode : t.mode ≡ c.mode
  pub forward : rank c.mode c.state ≤ rank t.mode t.state

abbrev pub Steps : Connection → Option Connection → Type 0
Steps c result = (t : Connection) × (result ≡ some t) × Advances c t

-- An open connection.
abbrev pub opened : Mode → State → Bool → Message → Connection
opened mode state output m = record {
  mode = mode;
  state = state;
  has_socket = true;
  has_timeout = true;
  output = output;
  message = m;
}

abbrev pub IsOpen : Mode → State → Type 0
IsOpen mode closed = ⊥
IsOpen mode state = MayBe mode state

rank-le : (mode : Mode) (state : State) → rank mode state ≤ 6
rank-le mode wait_connect = omega arith
rank-le mode handshake = omega arith
rank-le server receive = omega arith
rank-le client receive = omega arith
rank-le unknown receive = omega arith
rank-le mode send = omega arith
rank-le mode shutdown = omega arith
rank-le mode closed = omega arith

-- To another open state, or to the same.
pub to_open :
    (mode : Mode) (s t : State) (output output' : Bool) (m m' : Message)
    → MayBe mode t
    → is_open t ≡ true
    → rank mode s ≤ rank mode t
    → Advances (opened mode s output m) (opened mode t output' m')
to_open mode s t output output' m m' may e h = record {
  valid = record { may_be = may; socket = sym e; timeout = sym e };
  same_mode = refl;
  forward = h;
}

pub to_closed :
    (mode : Mode) (s : State) (output output' : Bool) (m m' : Message)
    → is_closed s ≡ false
    → Advances (opened mode s output m) (close_connection (opened mode s output' m'))
unfolding close_connection
to_closed mode s output output' m m' e = rw e (record {
  valid = record { may_be = tt; socket = refl; timeout = refl };
  same_mode = refl;
  forward = rank-le mode s;
})

server_receiving :
    (input : ResponseInput) (output : Bool) (m : Message) (found : MsgFormat × Message)
    → Advances
        (opened server receive output m)
        (server_received input (opened server receive output m) found)
server_receiving input output m (msg_incomplete, m') =
    to_open server receive receive output output m m' tt refl (omega arith)
server_receiving input output m (msg_error, m') = to_closed server receive output output m m' refl
server_receiving input output m (msg_ok, m') =
    to_open server receive send output true m (process_request input m') tt refl (omega arith)

client_receiving :
    (output : Bool) (m : Message) (found : MsgFormat × Message)
    → Advances
        (opened client receive output m)
        (client_received (opened client receive output m) found)
client_receiving output m (msg_incomplete, m') =
    to_open client receive receive output output m m' tt refl (omega arith)
client_receiving output m (msg_error, m') = to_closed client receive output output m m' refl
client_receiving output m (msg_ok, m') =
    to_open client receive shutdown output true m m' tt refl (omega arith)

-- The switches of `update_state` fail no assertion for an open connection.
pub update_in-Steps :
    (input : ResponseInput) (alpn : Bool) (mode : Mode) (state : State) (output : Bool)
    (m : Message)
    → IsOpen mode state
    → Steps
        (opened mode state output m)
        (update_in input alpn mode state (opened mode state output m))
unfolding update_in prepare_request add_record
update_in-Steps input true server handshake output m h =
    (_, refl, to_open server handshake receive output false m m tt refl (omega arith))
update_in-Steps input false server handshake output m h =
    (_, refl, to_closed server handshake output output m m refl)
update_in-Steps input alpn server receive output m h =
    (_, refl, server_receiving input output m (check_message_format m))
update_in-Steps input alpn server send output m h =
    (_, refl, to_open server send shutdown output true m m tt refl (omega arith))
update_in-Steps input alpn server shutdown output m h =
    (_, refl, to_closed server shutdown output output m m refl)
update_in-Steps input alpn client wait_connect output m h =
    (_, refl, to_open client wait_connect handshake output true m m tt refl (omega arith))
update_in-Steps input true client handshake output m h =
    (_, refl, to_open client handshake send output true m prepare_request.0 tt refl (omega arith))
update_in-Steps input false client handshake output m h =
    (_, refl, to_closed client handshake output output m m refl)
update_in-Steps input alpn client send output m h =
    (_, refl, to_open client send receive output false m reset_message tt refl (omega arith))
update_in-Steps input alpn client receive output m h =
    (_, refl, client_receiving output m (check_message_format m))
update_in-Steps input alpn client shutdown output m h =
    (_, refl, to_closed client shutdown output output m m refl)
update_in-Steps input alpn server wait_connect output m h = absurd h
update_in-Steps input alpn server closed output m h = absurd h
update_in-Steps input alpn client closed output m h = absurd h
update_in-Steps input alpn unknown wait_connect output m h = absurd h
update_in-Steps input alpn unknown handshake output m h = absurd h
update_in-Steps input alpn unknown send output m h = absurd h
update_in-Steps input alpn unknown receive output m h = absurd h
update_in-Steps input alpn unknown shutdown output m h = absurd h
update_in-Steps input alpn unknown closed output m h = absurd h

-- An open connection by its fields.
abbrev pub as_opened :
    (c : Connection)
    → c.has_socket ≡ true
    → c.has_timeout ≡ true
    → c ≡ opened c.mode c.state c.output c.message
as_opened c socket timeout = λ i. record c { has_socket = socket i; has_timeout = timeout i }

later :
    (mode : Mode) (s : State) (output : Bool) (m m' : Message) (result : Option Connection)
    → Steps (opened mode s output m') result
    → Steps (opened mode s output m) result
later mode s output m m' result (t, run, a) =
    (t, run, record { valid = a.valid; same_mode = a.same_mode; forward = a.forward })

pub tls_step-Steps :
    (input : ResponseInput) (alpn : Bool) (tls : Tls) (mode : Mode) (s : State) (output : Bool)
    (m : Message)
    → IsOpen mode s
    → MayBe mode s
    → is_open s ≡ true
    → Steps (opened mode s output m) (
        tls_step tls
          (opened mode s output m)
          (update_in input alpn mode s (opened mode s output m)))
tls_step-Steps input alpn (done n) mode s output m h may e =
    update_in-Steps input alpn mode s output m h
tls_step-Steps input alpn (again wants_output) mode s output m h may e =
    (_, refl, to_open mode s s output wants_output m m may e (omega arith))
tls_step-Steps input alpn fatal mode s output m h may e =
    (_, refl, to_closed mode s output output m m (closed_not s e))
  where
    closed_not : (s : State) → is_open s ≡ true → is_closed s ≡ false
    closed_not s e = ground arith

pub sent_step-Steps :
    (input : ResponseInput) (alpn : Bool) (tls : Tls) (mode : Mode) (output : Bool) (m : Message)
    → IsOpen mode send
    → MayBe mode send
    → Steps (opened mode send output m) (sent_step input alpn tls (opened mode send output m))
sent_step-Steps input alpn (done n) mode output m h may =
    let m' = record m { sent = m.sent + n } in
    elim (Bool-cases (ltb m'.sent (length m'.data_bytes))) [
      | inl e ↦ (_, rw e refl, to_open mode send send output output m m' may refl (omega arith))
      | inr e ↦
          rw e (later mode send output m m' _ (update_in-Steps input alpn mode send output m' h))
    ]
sent_step-Steps input alpn (again wants_output) mode output m h may =
    (_, refl, to_open mode send send output output m m may refl (omega arith))
sent_step-Steps input alpn fatal mode output m h may =
    (_, refl, to_closed mode send output output m m refl)

pub judge-Steps :
    (input : ResponseInput) (alpn : Bool) (verdict : Verdict) (mode : Mode) (output : Bool)
    (m m' : Message)
    → IsOpen mode receive
    → MayBe mode receive
    → Steps (opened mode receive output m) (
        judge verdict
          (opened mode receive output m')
          (update_in input alpn mode receive (opened mode receive output m')))
judge-Steps input alpn go_on mode output m m' h may =
    later mode receive output m m' _ (update_in-Steps input alpn mode receive output m' h)
judge-Steps input alpn wait mode output m m' h may =
    (_, refl, to_open mode receive receive output output m m' may refl (omega arith))
judge-Steps input alpn broken mode output m m' h may =
    (_, refl, to_closed mode receive output output m m' refl)
