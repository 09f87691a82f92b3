-- ===== src/Rag/Reconnection.antt =====
-- rag/rag-client.service.ts: outages from their first closing, and closings that come late.
use aura_new_live_server.Prelude.{
  ℕ, suc, ◌∙◌, ◌+◌, ◌-◌, ◌≤◌, ◌≡◌, refl, inl, inr, true, false, none, some, leb, ◌==◌, arith,
  Bool-cases, nat_eq, string_eq, get, has, set, delete, get-set_self, get-set_ne, get-delete_self,
  ◌≢◌, subst, ==_ne,
}
use aura_new_live_server.Rag.Connections.{
  Links, Socket, opened, closed, is_ready, is_connected, put_state, schedule_reconnect,
  socket_closed,
}
use aura_new_live_server.Rag.Outages.{
  outage, attempts, IsDown, IsOver, outage-quiet, outage_rounds, schedule_reconnect_over,
  schedule_reconnect_again,
}

abbrev closed_by : ℕ → Socket → Links → Links
closed_by id w l = put_state id w closed l

closed_by-IsDown :
    (id : ℕ) (w : Socket) (l : Links)
    → get w.room l.connections ≡ some id
    → IsDown w.room (closed_by id w l)
unfolding is_connected is_ready
closed_by-IsDown id w l own =
    rw (own, is_connected)
      (rw (get-set_self id (record w { ready_state = closed }) l.sockets, is_ready) refl)

-- After the connection of a room without a reconnection timer is closed with another code than
-- 1000, with at most three attempts counted, and while every attempt fails, the outage is over
-- after at most four rounds: each attempt that was left is one new socket, and then the room has no
-- connection, no timer and no count.
pub socket_closed-outage :
    (fuel id code : ℕ) (w : Socket) (l : Links)
    → get id l.sockets ≡ some w
    → get w.room l.connections ≡ some id
    → (code == 1000) ≡ false
    → has w.room l.reconnect_timers ≡ false
    → attempts w.room l ≤ 3
    → 4 ≤ fuel
    → IsOver w.room
        (l.next_socket + (3 - attempts w.room l))
        (outage fuel w.room (socket_closed id code l))
unfolding socket_closed is_connected is_ready
socket_closed-outage fuel id code w l found own abnormal quiet few enough =
    let l1 = closed_by id w l in
    let down = closed_by-IsDown id w l own in
    let step : socket_closed id code l ≡ schedule_reconnect w.room l1 =
      rw (found, socket_closed) (rw abnormal refl) in
    elim (Bool-cases (leb 3 (attempts w.room l))) [
      | inl many ↦
          let e = step ∙ schedule_reconnect_over w.room l1 quiet (ground arith) in
          let l2 = record l1 {
            connections = delete w.room l.connections;
            reconnect_attempt_counts = delete w.room l.reconnect_attempt_counts;
          } in
          rw e (
            rw (outage-quiet fuel w.room l2 quiet) (record {
              no_timer = quiet;
              no_connection = rw (get-delete_self w.room l.connections) refl;
              no_attempts = rw (get-delete_self w.room l.reconnect_attempt_counts) refl;
              made = ground arith;
            }))
      | inr fewer ↦
          let n = attempts w.room l in
          let l2 = record l1 {
            reconnect_attempt_counts = set w.room (suc n) l.reconnect_attempt_counts;
            reconnect_timers = set w.room (suc n) l.reconnect_timers;
          } in
          let e : socket_closed id code l ≡ l2 =
            step ∙ schedule_reconnect_again w.room l1 quiet (ground arith) in
          let counted : attempts w.room l2 ≡ suc n =
            rw (get-set_self w.room (suc n) l.reconnect_attempt_counts) refl in
          let sum : l.next_socket + (4 - attempts w.room l2) ≡ l.next_socket + (3 - n) =
            omega (arith, counted) in
          rw e (
            subst (λ k. IsOver w.room k (outage fuel w.room l2)) sum
              (outage_rounds fuel w.room l2 down
                (rw (get-set_self w.room (suc n) l.reconnect_timers) refl)
                (ground (arith, counted, fewer)) (ground (arith, counted))))
    ]

-- When the old socket of a room reports its closing with code 1000 after a newer one is open, the
-- room counts as not connected although the newer socket stays open.
pub socket_closed_late :
    (old new : ℕ) (w v : Socket) (l : Links)
    → get old l.sockets ≡ some w
    → get new l.sockets ≡ some v
    → old ≢ new
    → v.ready_state ≡ opened
    → get w.room l.connections ≡ some new
    → let l' = socket_closed old 1000 l in
      (is_connected w.room l ≡ true)
      × (get w.room l'.connections ≡ none)
      × (is_connected w.room l' ≡ false)
      × (get new l'.sockets ≡ some v)
unfolding socket_closed is_connected is_ready
socket_closed_late old new w v l found open_found other ready own =
    let gone = get-delete_self w.room l.connections in
    (
      rw (own, is_connected) (rw (open_found, is_ready) (rw ready refl)),
      rw (found, socket_closed) gone,
      rw (found, socket_closed) (rw (gone, is_connected) refl),
      rw (found, socket_closed)
          (get-set_ne old new (record w { ready_state = closed }) l.sockets (==_ne old new other)
            ∙ open_found),
    )
