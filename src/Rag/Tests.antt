-- ===== src/Rag/Tests.antt =====
-- The client of the retrieval server at concrete inputs.
use aura_new_live_server.Prelude.{
  newest, map, Text, ℕ, ◌+◌, ◌*◌, ◌≡◌, ◌≢◌, refl, true, false, none, some, [], ◌∷◌, ◌==◌, ltb,
  arith, List, keep, any, nat_eq, string_eq, list_eq, list_beq, get, has, set, delete,
}
use aura_new_live_server.Rag.Connections.{
  Links, Socket, opened, closing, no_links, connect, socket_opened, socket_closed, disconnect_links,
  close_socket, is_connected, is_ready,
}
use aura_new_live_server.Rag.{
  RagClient, Context, request_timeout, report_timeout, new_client, on_open, open_context, settle,
  send_question, send_question_with_sources, timer_fires, change_context, start_request, send_text,
}
use aura_new_live_server.Rag.Messages.{
  RawReport, answer, meeting_report, handle_message, disconnect, reject_questions, reject_report,
  reject_all, request_report, already_requested, waits_for, report_post_failed,
}
use aura_new_live_server.Rag.Statements.{
  PendingStatement, Buffers, Sending, buffer_of, at_time, is_young, start_flush, Round,
  flush_rounds, add_to_statement_buffer, tries,
}
use aura_new_live_server.Rag.Outages.{outage, IsOver}
use aura_new_live_server.Rag.Reconnection.{socket_closed-outage, socket_closed_late}
use aura_new_live_server.Rag.Histories.{
  Reach, here, next, connects, opens, asks, disconnects, timer_fires_settles,
}
use aura_new_live_server.Rag.Repeated.{send_question_twice-timer}
use aura_new_live_server.Rag.Reports.{request_report-post_failed}
use aura_new_live_server.Rag.Disconnection.{disconnect-settled}
use aura_new_live_server.Rag.Flushes.{
  IsEnded, sending_of, statements_of, start_flush-flush_rounds, tries_end,
}

-- A room whose first socket is open.
abbrev linked : Links
linked = socket_opened 0 (connect "r" no_links).0

abbrev open_socket : Socket
open_socket = record { room = "r"; ready_state = opened }

socket_closed-outage_example : IsOver "r" (1 + 3) (outage 4 "r" (socket_closed 0 1006 linked))
unfolding socket_opened connect get set is_connected delete
socket_closed-outage_example =
    socket_closed-outage 4 0 1006 open_socket linked refl refl refl refl (omega arith) (omega arith)

-- The room has left, its socket is closing, and it is joined again.
abbrev joined_again : Links
joined_again = socket_opened 1 (connect "r" (disconnect_links "r" linked)).0

abbrev closing_socket : Socket
closing_socket = record { room = "r"; ready_state = closing }

socket_closed_late_example :
    (let l' = socket_closed 0 1000 joined_again in
      (is_connected "r" joined_again ≡ true)
      × (get "r" l'.connections ≡ none)
      × (is_connected "r" l' ≡ false)
      × (get 1 l'.sockets ≡ some open_socket))
unfolding socket_opened connect get set is_connected delete disconnect_links close_socket is_ready
socket_closed_late_example =
    socket_closed_late 0 1 closing_socket open_socket joined_again refl refl (omega arith) refl refl

-- A question is asked and the room leaves.
abbrev calling : RagClient
calling = record new_client { links = (connect "r" no_links).0 }

abbrev ready : RagClient
ready = on_open 0 calling

abbrev asking : RagClient
asking = (send_question "r" (97 ∷ []) false ready).0

abbrev asking_Reach : Reach (disconnect "r" asking)
asking_Reach =
    next (next (next (next here (connects "r")) (opens 0)) (asks "r" (97 ∷ []) false))
      (disconnects "r")

timer_fires_settles_example : has 0 (timer_fires 0 (disconnect "r" asking)).settled ≡ true
unfolding disconnect send_question on_open socket_opened connect reject_questions reject_report
    reject_all change_context settle get set delete is_connected is_ready open_context start_request
    send_text
timer_fires_settles_example = timer_fires_settles 0 asking_Reach (omega arith)

abbrev empty_context : Context
empty_context = record { pending_requests = []; pending_requests_with_sources = [] }

send_question_twice-timer_example :
    (let s' = timer_fires 0 (send_question "r" (97 ∷ []) false asking).0 in
      (handle_message "r" (answer (some (97 ∷ [])) (some (98 ∷ [])) []) s' ≡ s')
      × (get 1 s'.settled ≡ none)
      × (get 1 (timer_fires 1 s').settled ≡ some request_timeout))
unfolding on_open socket_opened connect get set delete is_connected is_ready open_context
send_question_twice-timer_example =
    send_question_twice-timer "r" 0 empty_context 97 [] (some (98 ∷ [])) [] ready refl refl refl
      refl refl

abbrev finished : RawReport
finished = record {
  status = some "success";
  meeting_title = none;
  summary_type = none;
  report_content = some "minutes";
}

request_report-post_failed_example :
    (let failed = report_post_failed "r" (request_report "r" ready).0 in
      let (again, request) = request_report "r" failed in
      let s' = timer_fires 0 again in
      (request ≡ waits_for 1)
      × (request_report "r" again ≡ (again, already_requested))
      × (handle_message "r" (meeting_report finished) s' ≡ s')
      × (get 1 s'.settled ≡ none)
      × (get 1 (timer_fires 1 s').settled ≡ some report_timeout))
unfolding on_open socket_opened connect get set delete is_connected is_ready
request_report-post_failed_example =
    request_report-post_failed "r" finished ready refl refl refl refl

-- A question waits, and a question with sources.
abbrev both : RagClient
both = (send_question_with_sources "r" (98 ∷ []) false asking).0

abbrev both_context : Context
both_context = record {
  pending_requests = (97 ∷ [], 0) ∷ [];
  pending_requests_with_sources = (98 ∷ [], 1) ∷ [];
}

disconnect-settled_example :
    (let s' = disconnect "r" both in
      (get "r" s'.links.connections ≡ none)
      × ((text : Text) (id : ℕ)
          → get text both_context.pending_requests ≡ some id
          → has id s'.settled ≡ true)
      × ((id : ℕ)
          → any (λ r. r.1 == id) both_context.pending_requests ≡ false
          → get "r" both.pending_report_requests ≢ some id
          → (get id s'.settled ≡ get id both.settled) × (get id s'.timers ≡ get id both.timers)))
unfolding send_question send_question_with_sources on_open socket_opened connect change_context get
    set delete is_connected is_ready open_context start_request send_text list_beq
disconnect-settled_example = disconnect-settled "r" 0 both_context both refl refl

abbrev said : ℕ → PendingStatement
said n = record {
  text = n ∷ [];
  speaker = 65 ∷ [];
  timestamp = n;
  start_time = none;
  end_time = none;
}

-- The first of four statements is older than a minute. The call for the third throws, and another
-- statement is sent before the fourth, by when the connection is lost.
abbrev kept_three : Buffers
kept_three = ("r", said 1 ∷ said 70000 ∷ said 70001 ∷ said 70002 ∷ []) ∷ []

abbrev three_rounds : List Round
three_rounds =
    record { statement = said 70000; now = 70010; connected = true; throws = false; others = [] }
    ∷ record {
      statement = said 70001;
      now = 70110;
      connected = true;
      throws = true;
      others = record { statement = said 70150; connected = false; throws = false } ∷ [];
    }
    ∷ record { statement = said 70002; now = 70210; connected = false; throws = false; others = [] }
    ∷ []

start_flush-flush_rounds_example :
    (let (rest, young) = start_flush "r" 70005 kept_three in
      let (after, sendings) = flush_rounds "r" three_rounds rest in
      (young ≡ keep (is_young 70005) (buffer_of "r" kept_three))
      × (sendings ≡ map sending_of three_rounds)
      × (buffer_of "r" after ≡ newest 100 (statements_of three_rounds)))
unfolding get start_flush keep
start_flush-flush_rounds_example = start_flush-flush_rounds "r" 70005 three_rounds kept_three refl

tries_end_example :
    (delays : List ℕ) × (last : Sending) × (tries 4 "r" (said 1) 0 (λ k. 10 * k) (λ k. ltb k 1) []
      ≡ some (add_to_statement_buffer "r" (at_time 0 (said 1)) [], delays, last))
    × IsEnded (said 1) (λ k. 10 * k) (λ k. ltb k 1) delays last
tries_end_example = tries_end "r" (said 1) (λ k. 10 * k) (λ k. ltb k 1) []
