-- ===== src/Rag/Histories.antt =====
-- rag/rag-client.service.ts: what holds whatever happens to the client.
use aura_new_live_server.Prelude.{
  Text, ℕ, ◌<◌, ◌≡◌, refl, inl, inr, String, Bool, true, false, ◌==◌, arith, Bool-cases,
  Option-cases, nat_eq, string_eq, list_eq, get, has, get-set,
}
use aura_new_live_server.Rag.Connections.{
  is_connected, connect, connection_timed_out, socket_closed, reconnect_fires,
}
use aura_new_live_server.Rag.{
  RagClient, Timer, new_client, timer_fires, start_request, send_text, open_context, send_question,
  send_question_with_sources, on_open, question_timer, sources_timer, report_timer,
}
use aura_new_live_server.Rag.Messages.{
  Incoming, handle_message, disconnect, request_report, report_post_failed,
}
use aura_new_live_server.Rag.Settling.{
  is_covered, Covers, Covers-trans, settle-Covers, with_links-Covers, on_open-Covers,
  change_context-Covers, without_report-Covers, handle_message-Covers, timer_fires-Covers,
  fired_settles, disconnect-Covers,
}

-- Every request that was made is covered.
abbrev pub IsOwed : RagClient → Type 0
IsOwed s = (id : ℕ) → id < s.next_request → is_covered id s ≡ true

pub new_client-IsOwed : IsOwed new_client
new_client-IsOwed id h = elim h [ ]

Covers-IsOwed : {s s' : RagClient} → Covers s s' → IsOwed s → IsOwed s'
Covers-IsOwed p v id h = p.covers id (v id (rw p.same_number at h))

start_request-IsOwed : (t : Timer) (s : RagClient) → IsOwed s → IsOwed (start_request t s)
unfolding start_request
start_request-IsOwed t s v id h =
    rw (get-set s.next_request id t s.timers) (elim (Bool-cases (s.next_request == id)) [
      | inl same ↦ rw same (ground arith)
      | inr other ↦ rw other (v id (ground arith))
    ])

send_text-Covers :
    (context : ℕ) (text : Text) (id : ℕ) (throws : Bool) (s : RagClient)
    → Covers s (send_text context text id throws s)
unfolding send_text
send_text-Covers context text id true s = settle-Covers id _ s
send_text-Covers context text id false s = record { same_number = refl; covers = λ id h. h }

send_question-IsOwed :
    (room : String) (text : Text) (throws : Bool) (s : RagClient)
    → IsOwed s
    → IsOwed (send_question room text throws s).0
unfolding send_question
send_question-IsOwed room text throws s v = elim (Option-cases (open_context room s)) [
  | inl gone ↦ rw (gone, send_question) v
  | inr (context, found) ↦
      rw (found, send_question)
        (Covers-IsOwed
          (Covers-trans (change_context-Covers context _ _)
            (send_text-Covers context text s.next_request throws _))
          (start_request-IsOwed (question_timer context text) s v))
]

send_question_with_sources-IsOwed :
    (room : String) (text : Text) (throws : Bool) (s : RagClient)
    → IsOwed s
    → IsOwed (send_question_with_sources room text throws s).0
unfolding send_question_with_sources
send_question_with_sources-IsOwed room text throws s v = elim (Option-cases (open_context room s)) [
  | inl gone ↦ rw (gone, send_question_with_sources) v
  | inr (context, found) ↦
      rw (found, send_question_with_sources)
        (Covers-IsOwed
          (Covers-trans (change_context-Covers context _ _)
            (send_text-Covers context text s.next_request throws _))
          (start_request-IsOwed (sources_timer context text) s v))
]

request_report-IsOwed :
    (room : String) (s : RagClient) → IsOwed s → IsOwed (request_report room s).0
unfolding request_report
request_report-IsOwed room s v = elim (Bool-cases (is_connected room s.links)) [
  | inl on ↦ elim (Bool-cases (has room s.pending_report_requests)) [
    | inl waiting ↦ rw (on, request_report) (rw waiting v)
    | inr idle ↦ rw (on, request_report) (rw idle (start_request-IsOwed (report_timer room) s v))
  ]
  | inr off ↦ rw (off, request_report) v
]

-- What happens to the client: its methods are called, the network acts, and timers fire.
pub data Step (s : RagClient) : RagClient → Type 0 where
  connects : (room : String) → Step s (record s { links = (connect room s.links).0 })
  connection_times_out : (id : ℕ) → Step s (record s { links = connection_timed_out id s.links })
  opens : (id : ℕ) → Step s (on_open id s)
  closes : (id code : ℕ) → Step s (record s { links = socket_closed id code s.links })
  reconnects : (room : String) → Step s (record s { links = (reconnect_fires room s.links).0 })
  asks : (room : String) (text : Text) (throws : Bool) → Step s (send_question room text throws s).0
  asks_with_sources :
      (room : String) (text : Text) (throws : Bool)
      → Step s (send_question_with_sources room text throws s).0
  requests_report : (room : String) → Step s (request_report room s).0
  report_post_fails : (room : String) → Step s (report_post_failed room s)
  receives : (room : String) (m : Incoming) → Step s (handle_message room m s)
  fires : (id : ℕ) → Step s (timer_fires id s)
  disconnects : (room : String) → Step s (disconnect room s)

pub data Reach : RagClient → Type 0 where
  here : Reach new_client
  next : {s s' : RagClient} → Reach s → Step s s' → Reach s'

Step-IsOwed : {s s' : RagClient} → Step s s' → IsOwed s → IsOwed s'
Step-IsOwed {s} (connects room) v = Covers-IsOwed (with_links-Covers (connect room s.links).0 s) v
Step-IsOwed {s} (connection_times_out id) v =
    Covers-IsOwed (with_links-Covers (connection_timed_out id s.links) s) v
Step-IsOwed {s} (opens id) v = Covers-IsOwed (on_open-Covers id s) v
Step-IsOwed {s} (closes id code) v =
    Covers-IsOwed (with_links-Covers (socket_closed id code s.links) s) v
Step-IsOwed {s} (reconnects room) v =
    Covers-IsOwed (with_links-Covers (reconnect_fires room s.links).0 s) v
Step-IsOwed {s} (asks room text throws) v = send_question-IsOwed room text throws s v
Step-IsOwed {s} (asks_with_sources room text throws) v =
    send_question_with_sources-IsOwed room text throws s v
Step-IsOwed {s} (requests_report room) v = request_report-IsOwed room s v
Step-IsOwed {s} (report_post_fails room) v = Covers-IsOwed (without_report-Covers room s) v
Step-IsOwed {s} (receives room m) v = Covers-IsOwed (handle_message-Covers room m s) v
Step-IsOwed {s} (fires id) v = Covers-IsOwed (timer_fires-Covers id s) v
Step-IsOwed {s} (disconnects room) v = Covers-IsOwed (disconnect-Covers room s) v

pub Reach-IsOwed : {s : RagClient} → Reach s → IsOwed s
Reach-IsOwed here = new_client-IsOwed
Reach-IsOwed (next r step) = Step-IsOwed step (Reach-IsOwed r)

-- On a client that is reached from a new one, every request that was made is settled at the latest
-- when its timer fires.
pub timer_fires_settles :
    {s : RagClient} (id : ℕ)
    → Reach s
    → id < s.next_request
    → has id (timer_fires id s).settled ≡ true
unfolding timer_fires
timer_fires_settles {s} id r made = elim (Option-cases (get id s.timers)) [
  | inl gone ↦
      let covered = Reach-IsOwed r id made in rw (gone, timer_fires) (ground (arith, covered, gone))
  | inr (t, found) ↦ rw (found, timer_fires) (fired_settles id t _)
]
