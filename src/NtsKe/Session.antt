-- ===== src/NtsKe/Session.antt =====
-- nts_ke.c: the states of a connection, and the connections that a server accepts. What the socket and
-- gnutls answer at an event is an argument.
pub mod States
pub mod Life
pub mod Accepting
use chrony_nts.Prelude.{
  ℕ, zero, suc, ◌+◌, ◌-◌, Bool, true, false, not, ◌&&◌, ◌||◌, List, [], ◌∷◌, ◌++◌, Option, none,
  some, ltb, leb, ◌==◌, if◌then◌else◌, ◌>>=◌, length, get_or, set, take,
}
use chrony_nts.NtsKe.{
  Message, MsgFormat, msg_incomplete, msg_error, msg_ok, max_message_length, reset_message,
  check_message_format,
}
use chrony_nts.NtsKe.Negotiation.{prepare_request, ResponseInput, process_request}

-- `NtsKeMode` and `NtsKeState`
pub data Mode : Type 0 where
  unknown server client : Mode

pub data State : Type 0 where
  wait_connect handshake send receive shutdown closed : State

-- `struct NKE_Instance_Record`: whether it has a socket and a queued timeout, and whether it waits to
-- write.
pub record Connection : Type 0 where
  pub mode : Mode
  pub state : State
  pub has_socket : Bool
  pub has_timeout : Bool
  pub output : Bool
  pub message : Message

pub create_instance : Connection
create_instance = record {
  mode = unknown;
  state = closed;
  has_socket = false;
  has_timeout = false;
  output = false;
  message = reset_message;
}

abbrev pub is_closed : State → Bool
is_closed closed = true
is_closed _ = false

pub close_connection : Connection → Connection
close_connection c =
    if is_closed c.state
    then c
    else record c { has_timeout = false; has_socket = false; state = closed }

pub session_timeout : Connection → Connection
unfolding close_connection
session_timeout c = close_connection (record c { has_timeout = false })

-- A connection that was accepted, if the session could be made.
pub accept_server_connection : Connection → Connection
accept_server_connection c = record c {
  mode = server;
  state = handshake;
  has_socket = true;
  has_timeout = true;
  output = false;
  message = reset_message;
}

-- A connection to a server, if the socket and the session could be made. `none` is a failed assertion.
pub open_client_connection : Connection → Option Connection
open_client_connection c =
    if is_closed c.state
    then some (record c {
      mode = client;
      state = wait_connect;
      has_socket = true;
      has_timeout = true;
      output = true;
    })
    else none

abbrev move : Connection → State → Bool → Connection
move c state output = record c { state = state; output = output }

-- The end of a request that came whole, or not.
abbrev server_received : ResponseInput → Connection → MsgFormat × Message → Connection
server_received input c (msg_incomplete, m) = record c { message = m }
server_received input c (msg_error, m) = close_connection (record c { message = m })
server_received input c (msg_ok, m) =
    move (record c { message = process_request input m }) send true

abbrev client_received : Connection → MsgFormat × Message → Connection
client_received c (msg_incomplete, m) = record c { message = m }
client_received c (msg_error, m) = close_connection (record c { message = m })
client_received c (msg_ok, m) = move (record c { message = m }) shutdown true

-- The switches of `update_state`; `alpn` is whether the right protocol was negotiated. `none` is a
-- failed assertion.
pub update_in : ResponseInput → Bool → Mode → State → Connection → Option Connection
update_in input alpn server wait_connect c = some (move c handshake false)
update_in input alpn server handshake c =
    some (if alpn then move c receive false else close_connection c)
update_in input alpn server receive c =
    some (server_received input c (check_message_format c.message))
update_in input alpn server send c = some (move c shutdown true)
update_in input alpn server shutdown c = some (close_connection c)
update_in input alpn server closed c = none
update_in input alpn client wait_connect c = some (move c handshake true)
update_in input alpn client handshake c =
    let (m, done) = prepare_request in
    some (
      if alpn
      then if done
        then move (record c { message = m }) send true
        else close_connection (record c { message = m })
      else close_connection c)
update_in input alpn client send c =
    some (move (record c { message = reset_message }) receive false)
update_in input alpn client receive c = some (client_received c (check_message_format c.message))
update_in input alpn client shutdown c = some (close_connection c)
update_in input alpn client closed c = none
update_in input alpn unknown state c = none

abbrev pub update_state : ResponseInput → Bool → Connection → Option Connection
update_state input alpn c = update_in input alpn c.mode c.state c

-- A result of gnutls: it is done, with a number of bytes if it sent, it wants to be called again, when
-- it can write or read, or it failed.
pub data Tls : Type 0 where
  done : ℕ → Tls
  again : Bool → Tls
  fatal : Tls

-- A result of `gnutls_record_recv`: bytes, none at the end of the stream, or an error.
pub data Received : Type 0 where
  bytes : List ℕ → Received
  no_bytes : Bool → Received

-- What an event on the socket finds: whether it is for writing, whether `connect` succeeded, what
-- gnutls returns, and what it receives until nothing is pending.
pub record Event : Type 0 where
  pub for_output : Bool
  pub connected : Bool
  pub alpn : Bool
  pub tls : Tls
  pub received : List Received

pub data Verdict : Type 0 where
  go_on wait broken : Verdict

-- The loop that receives.
pub receive_all : List Received → Message → Message × Verdict
receive_all [] m = (m, go_on)
receive_all (no_bytes is_fatal ∷ rest) m =
    if leb max_message_length (length m.data_bytes)
    then (m, broken)
    else (m, if is_fatal then broken else wait)
receive_all (bytes got ∷ rest) m =
    let more = take (max_message_length - length m.data_bytes) got in
    let later =
      receive_all rest
        (record m { data_bytes = m.data_bytes ++ more; eof = m.eof || length got == 0 }) in
    if leb max_message_length (length m.data_bytes) then (m, broken) else later

-- After a call of gnutls that is not done.
abbrev pub tls_step : Tls → Connection → Option Connection → Option Connection
tls_step (done n) c next = next
tls_step (again wants_output) c next = some (record c { output = wants_output })
tls_step fatal c next = some (close_connection c)

abbrev judge : Verdict → Connection → Option Connection → Option Connection
judge go_on c next = next
judge wait c next = some c
judge broken c next = some (close_connection c)

abbrev pub sent_step : ResponseInput → Bool → Tls → Connection → Option Connection
sent_step input alpn (done n) c =
    let t = record c { message = record c.message { sent = c.message.sent + n } } in
    if ltb t.message.sent (length t.message.data_bytes) then some t else update_state input alpn t
sent_step input alpn (again wants_output) c = some c
sent_step input alpn fatal c = some (close_connection c)

-- The switch of `read_write_socket`.
pub read_write_in : ResponseInput → Event → State → Connection → Option Connection
unfolding update_in close_connection receive_all
read_write_in input e wait_connect c =
    if not e.for_output
    then some c
    else if e.connected
    then update_state input e.alpn c
    else some (close_connection c)
read_write_in input e handshake c = tls_step e.tls c (update_state input e.alpn c)
read_write_in input e send c = sent_step input e.alpn e.tls c
read_write_in input e receive c =
    let (m, verdict) = receive_all e.received c.message in
    let t = record c { message = m } in judge verdict t (update_state input e.alpn t)
read_write_in input e shutdown c = tls_step e.tls c (update_state input e.alpn c)
read_write_in input e closed c = none

abbrev pub read_write_socket : ResponseInput → Event → Connection → Option Connection
read_write_socket input e c = read_write_in input e c.state c

-- A slot of `server_instances`: NULL, an instance, or a pointer to one that was freed.
pub data Slot : Type 0 where
  empty freed : Slot
  live : Connection → Slot

pub max_server_instances : ℕ
max_server_instances = 10

-- The loop for a slot: the first that is empty or holds a closed connection. `none` is a read through
-- a pointer to freed memory.
unfoldable pub choose_slot : ℕ → List Slot → Option (Option ℕ)
choose_slot i [] = some none
choose_slot i (empty ∷ slots) = some (some i)
choose_slot i (freed ∷ slots) = none
choose_slot i (live c ∷ slots) =
    let rest = choose_slot (i + 1) slots in if is_closed c.state then some (some i) else rest

abbrev instance_at : Slot → Connection
instance_at (live c) = c
instance_at empty = create_instance
instance_at freed = create_instance

-- The slots with the connection, or with a pointer to one that was destroyed.
pub place : Bool → Bool → List Slot → Option ℕ → List Slot
unfolding accept_server_connection
place set_up session slots none = slots
place set_up session slots (some i) =
    let c = instance_at (get_or slots i empty) in
    set slots i
      (if not set_up then live c else if session then live (accept_server_connection c) else freed)

-- Whether access is allowed, the socket could be set up, and the session could be made.
pub accept_connection : Bool → Bool → Bool → List Slot → Option (List Slot)
accept_connection allowed set_up session slots =
    let accepted = choose_slot 0 slots >>= λ chosen. some (place set_up session slots chosen) in
    if allowed then accepted else some slots
