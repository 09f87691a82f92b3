-- ===== src/Rag/Outages.antt =====
-- rag/rag-client.service.ts: outages, in which every attempt to connect again fails.
use aura_new_live_server.Prelude.{
  ℕ, zero, suc, ◌∙◌, ◌+◌, ◌-◌, ◌≤◌, ◌<◌, ◌≡◌, refl, inl, inr, String, true, false, Option, none,
  some, leb, ◌==◌, option_or, arith, Bool-cases, Option-cases, nat_eq, string_eq, get, has, set,
  delete, get-set, get-set_self, get-delete_self, subst,
}
use aura_new_live_server.Rag.Connections.{
  Links, Socket, connecting, closed, is_ready, is_connected, connect, put_state, schedule_reconnect,
  reconnect_fires, socket_closed,
}

-- The socket of an attempt, if it made one, closes.
abbrev closes : Links × Option ℕ → Links
closes (l, none) = l
closes (l, some id) = socket_closed id 1006 l

-- A timer of reconnection fires, and the socket that it makes closes without opening.
unfoldable pub failed_attempt : String → Links → Links
unfolding reconnect_fires socket_closed
failed_attempt room l = closes (reconnect_fires room l)

-- The rounds of an outage: as long as there is a timer it fires, and the attempt fails.
unfoldable pub outage : ℕ → String → Links → Links
unfolding failed_attempt
outage zero room l = l
outage (suc fuel) room l = elim (has room l.reconnect_timers) [
  | true ↦ outage fuel room (failed_attempt room l)
  | false ↦ l
]

abbrev pub attempts : String → Links → ℕ
attempts room l = option_or (get room l.reconnect_attempt_counts) 0

abbrev pub IsDown : String → Links → Type 0
IsDown room l = is_connected room l ≡ false

-- A round without a connection makes a socket, and either counts it or gives up.
data Round (room : String) (l l' : Links) : Type 0 where
  again :
      attempts room l < 3
      → IsDown room l'
      → has room l'.reconnect_timers ≡ true
      → attempts room l' ≡ suc (attempts room l)
      → l'.next_socket ≡ suc l.next_socket
      → Round room l l'
  over :
      3 ≤ attempts room l
      → has room l'.reconnect_timers ≡ false
      → has room l'.connections ≡ false
      → attempts room l' ≡ 0
      → l'.next_socket ≡ suc l.next_socket
      → Round room l l'

abbrev with_socket : String → Links → Links
with_socket room l =
    let w : Socket = record { room = room; ready_state = connecting } in
    record l {
      next_socket = suc l.next_socket;
      sockets = set l.next_socket w l.sockets;
      reconnect_timers = delete room l.reconnect_timers;
    }

-- The state in which the socket of a round has closed and the next timer is not yet set.
abbrev closed_attempt : String → Links → Links
closed_attempt room l =
    let w : Socket = record { room = room; ready_state = connecting } in
    put_state l.next_socket w closed (with_socket room l)

connect_down :
    (room : String) (l : Links)
    → IsDown room l
    → let w : Socket = record { room = room; ready_state = connecting } in
      connect room l ≡ (
        record l { next_socket = suc l.next_socket; sockets = set l.next_socket w l.sockets },
        some l.next_socket,
      )
unfolding connect
connect_down room l down = rw (down, connect) refl

socket_closed_lem :
    (id : ℕ) (l : Links) {w : Socket}
    → get id l.sockets ≡ some w
    → socket_closed id 1006 l ≡ schedule_reconnect w.room (put_state id w closed l)
unfolding socket_closed
socket_closed_lem id l found = rw (found, socket_closed) refl

reconnect_fires_down :
    (room : String) (l : Links)
    → IsDown room l
    → reconnect_fires room l ≡ (with_socket room l, some l.next_socket)
unfolding reconnect_fires is_connected
reconnect_fires_down room l down =
    connect_down room (record l { reconnect_timers = delete room l.reconnect_timers }) down

failed_attempt_lem :
    (room : String) (l : Links)
    → IsDown room l
    → failed_attempt room l ≡ schedule_reconnect room (closed_attempt room l)
unfolding failed_attempt
failed_attempt_lem room l down =
    let w : Socket = record { room = room; ready_state = connecting } in
    rw (reconnect_fires_down room l down, failed_attempt)
      (socket_closed_lem l.next_socket (with_socket room l)
        (get-set_self l.next_socket w l.sockets))

-- The socket of the round connects no room.
closed_attempt-IsDown :
    (room : String) (l : Links) → IsDown room l → IsDown room (closed_attempt room l)
unfolding is_connected is_ready
closed_attempt-IsDown room l down =
    let n = l.next_socket in
    let w : Socket = record { room = room; ready_state = connecting } in
    let w' : Socket = record { room = room; ready_state = closed } in
    elim (Option-cases (get room l.connections)) [
      | inl gone ↦ rw (gone, is_connected) refl
      | inr (i, found) ↦
          let was = rw (found, is_connected) at down in
          let now = get-set n i w' (set n w l.sockets) in
          elim (Bool-cases (n == i)) [
            | inl same ↦ rw (found, is_connected) (rw (now, is_ready) (rw same refl))
            | inr other ↦
                rw (found, is_connected)
                  (rw (now, is_ready)
                    (rw other (rw (get-set n i w l.sockets, is_ready) (rw other was))))
          ]
    ]

module _ (room : String) (l : Links) (quiet : has room l.reconnect_timers ≡ false) where
  pub schedule_reconnect_again :
      attempts room l < 3
      → let n = attempts room l in
        schedule_reconnect room l ≡ record l {
          reconnect_attempt_counts = set room (suc n) l.reconnect_attempt_counts;
          reconnect_timers = set room (suc n) l.reconnect_timers;
        }
  unfolding schedule_reconnect
  schedule_reconnect_again few =
      let below : leb 3 (attempts room l) ≡ false = ground arith in
      rw (quiet, schedule_reconnect) (rw below refl)

  pub schedule_reconnect_over :
      3 ≤ attempts room l
      → schedule_reconnect room l ≡ record l {
        connections = delete room l.connections;
        reconnect_attempt_counts = delete room l.reconnect_attempt_counts;
      }
  unfolding schedule_reconnect
  schedule_reconnect_over many =
      let above : leb 3 (attempts room l) ≡ true = ground arith in
      rw (quiet, schedule_reconnect) (rw above refl)

-- What a round does, by the number of attempts before it.
failed_attempt-Round :
    (room : String) (l : Links) → IsDown room l → Round room l (failed_attempt room l)
unfolding is_connected
failed_attempt-Round room l down =
    let l' = closed_attempt room l in
    let quiet : has room l'.reconnect_timers ≡ false =
      rw (get-delete_self room l.reconnect_timers) refl in
    let step = failed_attempt_lem room l down in
    elim (Bool-cases (leb 3 (attempts room l))) [
      | inl many ↦
          let e = step ∙ schedule_reconnect_over room l' quiet (ground arith) in
          rw e (
            over (ground arith) quiet (rw (get-delete_self room l.connections) refl)
              (rw (get-delete_self room l.reconnect_attempt_counts) refl) refl)
      | inr few ↦
          let n = attempts room l in
          let e = step ∙ schedule_reconnect_again room l' quiet (ground arith) in
          rw e (
            again (ground arith) (closed_attempt-IsDown room l down)
              (rw (get-set_self room (suc n) (delete room l.reconnect_timers)) refl)
              (rw (get-set_self room (suc n) l.reconnect_attempt_counts) refl) refl)
    ]

-- The end of an outage.
pub record IsOver (room : String) (sockets : ℕ) (l : Links) : Type 0 where
  pub no_timer : has room l.reconnect_timers ≡ false
  pub no_connection : has room l.connections ≡ false
  pub no_attempts : attempts room l ≡ 0
  pub made : l.next_socket ≡ sockets

pub outage-quiet :
    (fuel : ℕ) (room : String) (l : Links)
    → has room l.reconnect_timers ≡ false
    → outage fuel room l ≡ l
unfolding outage
outage-quiet zero room l quiet = refl
outage-quiet (suc fuel) room l quiet = rw (quiet, outage) refl

outage-next :
    (fuel : ℕ) (room : String) (l : Links)
    → has room l.reconnect_timers ≡ true
    → outage (suc fuel) room l ≡ outage fuel room (failed_attempt room l)
unfolding outage
outage-next fuel room l armed = rw (armed, outage) refl

pub outage_rounds :
    (fuel : ℕ) (room : String) (l : Links)
    → IsDown room l
    → has room l.reconnect_timers ≡ true
    → attempts room l ≤ 3
    → 4 ≤ fuel + attempts room l
    → IsOver room (l.next_socket + (4 - attempts room l)) (outage fuel room l)
outage_rounds zero room l down armed few enough = absurd (omega arith)
outage_rounds (suc fuel) room l down armed few enough =
    rw (outage-next fuel room l armed) (elim (failed_attempt-Round room l down) [
      | again below down' armed' counted made ↦
          let l' = failed_attempt room l in
          let sum : l'.next_socket + (4 - attempts room l')
              ≡ l.next_socket + (4 - attempts room l) =
            omega (arith, counted, made, below) in
          subst (λ n. IsOver room n (outage fuel room l')) sum
            (outage_rounds fuel room l' down' armed' (omega (arith, counted, below))
              (omega (arith, counted, enough)))
      | over above quiet gone reset made ↦
          rw (outage-quiet fuel room (failed_attempt room l) quiet) (record {
            no_timer = quiet;
            no_connection = gone;
            no_attempts = reset;
            made = omega (arith, made, above, few);
          })
    ])
