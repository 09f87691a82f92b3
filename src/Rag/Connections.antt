-- ===== src/Rag/Connections.antt =====
-- rag/rag-client.service.ts: the sockets to the server and the connection of each room.
use aura_new_live_server.Prelude.{
  ℕ, suc, String, Bool, true, false, Option, none, some, [], leb, ◌==◌, if◌then◌else◌, option_or,
  nat_eq, string_eq, Table, get, has, set, delete,
}

-- The states of a `WebSocket`: CONNECTING, OPEN, CLOSING and CLOSED.
pub data ReadyState : Type 0 where
  connecting opened closing closed : ReadyState

-- A socket, with the room in the closures of its handlers.
pub record Socket : Type 0 where
  pub room : String
  pub ready_state : ReadyState

-- The maps of connections and of reconnections. A timer of `reconnect_timers` is live: it leaves
-- the map when it fires and when it is cleared. It is kept as the number of the attempt.
pub record Links : Type 0 where
  pub next_socket : ℕ
  pub sockets : Table ℕ Socket
  pub connections : Table String ℕ
  pub reconnect_attempt_counts : Table String ℕ
  pub reconnect_timers : Table String ℕ

abbrev pub no_links : Links
no_links = record {
  next_socket = 0;
  sockets = [];
  connections = [];
  reconnect_attempt_counts = [];
  reconnect_timers = [];
}

abbrev pub max_reconnect_attempts : ℕ
max_reconnect_attempts = 3

abbrev pub is_opened : ReadyState → Bool
is_opened opened = true
is_opened _ = false

-- `ws.readyState === WebSocket.OPEN`
unfoldable pub is_ready : ℕ → Links → Bool
is_ready id l = elim (get id l.sockets) [ none ↦ false | some w ↦ is_opened w.ready_state ]

-- `isConnected`
unfoldable pub is_connected : String → Links → Bool
unfolding is_ready
is_connected room l = elim (get room l.connections) [ none ↦ false | some id ↦ is_ready id l ]

-- `connect`, until the constructor of the socket returns; none where it skips.
unfoldable pub connect : String → Links → Links × Option ℕ
unfolding is_connected
connect room l =
    if is_connected room l
    then (l, none)
    else let id = l.next_socket in
      let w : Socket = record { room = room; ready_state = connecting } in
      (record l { next_socket = suc id; sockets = set id w l.sockets }, some id)

abbrev pub put_state : ℕ → Socket → ReadyState → Links → Links
put_state id w state l = record l { sockets = set id (record w { ready_state = state }) l.sockets }

-- The timer of ten seconds of a socket, which closes it unless it is open.
unfoldable pub connection_timed_out : ℕ → Links → Links
connection_timed_out id l = elim (get id l.sockets) [
  | none ↦ l
  | some w ↦ elim w.ready_state [ connecting ↦ put_state id w closing l | _ ↦ l ]
]

-- `ws.on('open')`, but for the context of the connection and the flush of the statements
unfoldable pub socket_opened : ℕ → Links → Links
socket_opened id l = elim (get id l.sockets) [
  | none ↦ l
  | some w ↦
      let l' = put_state id w opened l in
      record l' {
        connections = set w.room id l'.connections;
        reconnect_attempt_counts = delete w.room l'.reconnect_attempt_counts;
      }
]

-- `scheduleReconnect`
unfoldable pub schedule_reconnect : String → Links → Links
schedule_reconnect room l =
    let attempts = option_or (get room l.reconnect_attempt_counts) 0 in
    if has room l.reconnect_timers
    then l
    else if leb max_reconnect_attempts attempts
    then record l {
      connections = delete room l.connections;
      reconnect_attempt_counts = delete room l.reconnect_attempt_counts;
    }
    else record l {
      reconnect_attempt_counts = set room (suc attempts) l.reconnect_attempt_counts;
      reconnect_timers = set room (suc attempts) l.reconnect_timers;
    }

-- The callback of that timer.
unfoldable pub reconnect_fires : String → Links → Links × Option ℕ
unfolding connect
reconnect_fires room l =
    connect room (record l { reconnect_timers = delete room l.reconnect_timers })

-- `ws.on('close')`
unfoldable pub socket_closed : ℕ → ℕ → Links → Links
unfolding schedule_reconnect
socket_closed id code l = elim (get id l.sockets) [
  | none ↦ l
  | some w ↦
      let l' = put_state id w closed l in
      if code == 1000
      then record l' { connections = delete w.room l'.connections }
      else schedule_reconnect w.room l'
]

-- `ws.close(1000)` in `disconnect`: the event of closing comes later.
unfoldable pub close_socket : ℕ → Links → Links
close_socket id l = elim (get id l.sockets) [
  | none ↦ l
  | some w ↦ elim w.ready_state [ closed ↦ l | _ ↦ put_state id w closing l ]
]

-- `disconnect`, as to the connections
unfoldable pub disconnect_links : String → Links → Links
unfolding close_socket
disconnect_links room l =
    let quiet = record l {
      reconnect_timers = delete room l.reconnect_timers;
      reconnect_attempt_counts = delete room l.reconnect_attempt_counts;
    } in
    elim (get room l.connections) [
      | none ↦ quiet
      | some id ↦
          let shut = close_socket id quiet in
          record shut { connections = delete room shut.connections }
    ]
