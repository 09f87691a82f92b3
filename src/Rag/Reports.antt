-- ===== src/Rag/Reports.antt =====
-- rag/rag-client.service.ts: the timer of a report whose HTTP request failed.
use aura_new_live_server.Prelude.{
  ℕ, suc, ◌≡◌, refl, ◌∙◌, inl, inr, String, true, false, none, some, arith, Option-cases, nat_eq,
  string_eq, list_eq, get, has, set, delete, get-set_self, get-set_ne, get-delete_self,
  get-delete_ne,
}
use aura_new_live_server.Rag.Connections.{is_connected}
use aura_new_live_server.Rag.{
  RagClient, report_timeout, clear_timer, fired, timer_fires, start_request, report_timer,
  without_report,
}
use aura_new_live_server.Rag.Messages.{
  RawReport, meeting_report, handle_message, handle_report, request_report, already_requested,
  waits_for, report_post_failed,
}
use aura_new_live_server.Rag.Promises.{settle_lem, timer_fires_lem, get-timer_fires}

-- A state in which a report has just been requested.
abbrev requested : String → RagClient → RagClient
requested room s = record s {
  next_request = suc s.next_request;
  timers = set s.next_request (report_timer room) s.timers;
  pending_report_requests = set room s.next_request s.pending_report_requests;
}

request_report_lem :
    (room : String) (s : RagClient)
    → is_connected room s.links ≡ true
    → has room s.pending_report_requests ≡ false
    → request_report room s ≡ (requested room s, waits_for s.next_request)
unfolding request_report start_request
request_report_lem room s on idle = rw (on, request_report) (rw idle refl)

request_report_refused :
    (room : String) (s : RagClient)
    → is_connected room s.links ≡ true
    → has room s.pending_report_requests ≡ true
    → request_report room s ≡ (s, already_requested)
unfolding request_report
request_report_refused room s on waiting = rw (on, request_report) (rw waiting refl)

handle_message_report :
    (room : String) (r : RawReport) (s : RagClient)
    → get room s.pending_report_requests ≡ none
    → handle_message room (meeting_report r) s ≡ s
unfolding handle_message handle_report
handle_message_report room r s idle = elim (Option-cases (get room s.links.connections)) [
  | inl gone ↦ rw (gone, handle_message) refl
  | inr (context, found) ↦ elim (Option-cases (get context s.contexts)) [
    | inl lost ↦ rw (found, handle_message) (rw lost refl)
    | inr (c, kept) ↦ rw (found, handle_message) (rw kept (rw (idle, handle_report) refl))
  ]
]

abbrev timed_out_report : String → ℕ → RagClient → RagClient
timed_out_report room id s = record s {
  timers = delete id s.timers;
  pending_report_requests = delete room s.pending_report_requests;
  settled = set id report_timeout s.settled;
}

timer_fires_report :
    (room : String) (id : ℕ) (s : RagClient)
    → get id s.timers ≡ some (report_timer room)
    → has id s.settled ≡ false
    → timer_fires id s ≡ timed_out_report room id s
unfolding fired
timer_fires_report room id s armed new =
    timer_fires_lem id (report_timer room) s armed
    ∙ settle_lem id report_timeout (without_report room (clear_timer id s)) new

-- When the call for a report fails and a report is asked for again, the timer of the failed request
-- removes the newer one: while it waits a further request is refused, but after that timer its
-- report changes nothing and it times out.
pub request_report-post_failed :
    (room : String) (r : RawReport) (s : RagClient)
    → is_connected room s.links ≡ true
    → get room s.pending_report_requests ≡ none
    → get s.next_request s.settled ≡ none
    → get (suc s.next_request) s.settled ≡ none
    → let n = s.next_request in
      let failed = report_post_failed room (request_report room s).0 in
      let (again, request) = request_report room failed in
      let s' = timer_fires n again in
      (request ≡ waits_for (suc n))
      × (request_report room again ≡ (again, already_requested))
      × (handle_message room (meeting_report r) s' ≡ s')
      × (get (suc n) s'.settled ≡ none)
      × (get (suc n) (timer_fires (suc n) s').settled ≡ some report_timeout)
request_report-post_failed room r s on idle older newer =
    let n = s.next_request in
    let failed = report_post_failed room (requested room s) in
    let again = requested room failed in
    let first = request_report_lem room s on (rw idle refl) in
    let none_left = get-delete_self room (set room n s.pending_report_requests) in
    let second = request_report_lem room failed on (rw none_left refl) in
    let t = report_timer room in
    let v = timed_out_report room n again in
    let fires : timer_fires n again ≡ v =
      timer_fires_report room n again
        (get-set_ne (suc n) n t (set n t s.timers) (ground arith) ∙ get-set_self n t s.timers)
        (rw older refl) in
    let waits = get-set_ne n (suc n) report_timeout s.settled (ground arith) ∙ newer in
    let armed =
      get-delete_ne n (suc n) again.timers (ground arith)
      ∙ get-set_self (suc n) t (set n t s.timers) in
    let refused =
      request_report_refused room again on
        (rw (get-set_self room (suc n) failed.pending_report_requests) refl) in
    let lost =
      handle_message_report room r v (get-delete_self room again.pending_report_requests) in
    rw first (
      rw second (
        refl,
        refused,
        rw fires lost,
        rw fires waits,
        rw fires (get-timer_fires (suc n) t v armed (rw waits refl)),
      ))
