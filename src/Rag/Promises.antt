-- ===== src/Rag/Promises.antt =====
-- rag/rag-client.service.ts: which promise an answer, a timer or a disconnection settles.
use aura_new_live_server.Prelude.{
  Text, ℕ, suc, ◌≡◌, refl, inl, inr, String, false, Option, none, some, [], ◌∷◌, ◌++◌, ◌==◌,
  Bool-cases, Option-cases, List, nat_eq, string_eq, list_eq, get, has, set, get-set_self,
  get-set_ne,
}
use aura_new_live_server.Rag.Connections.{is_connected}
use aura_new_live_server.Rag.{
  RagClient, Context, Outcome, Timer, answered, request_timeout, report_timeout, settle,
  clear_timer, change_context, fired, timer_fires, start_request, send_text, open_context,
  send_question, question_timer, sources_timer, report_timer, without_question, without_sources,
  without_report, with_question,
}
use aura_new_live_server.Rag.Messages.{
  RawSource, answer, or_empty, finish, handle_answer, handle_message,
}

-- A state in which a question has just been sent.
abbrev pub asked : ℕ → Context → Text → RagClient → RagClient
asked context c text s = record s {
  contexts = set context (with_question text s.next_request c) s.contexts;
  next_request = suc s.next_request;
  timers = set s.next_request (question_timer context text) s.timers;
  sent = s.sent ++ (context, text) ∷ [];
}

pub send_question_lem :
    (room : String) (context : ℕ) (c : Context) (text : Text) (s : RagClient)
    → open_context room s ≡ some context
    → get context s.contexts ≡ some c
    → send_question room text false s ≡ (asked context c text s, some s.next_request)
unfolding send_question change_context start_request send_text
send_question_lem room context c text s on found =
    rw (on, send_question) (rw (found, change_context) refl)

pub open_context-connections :
    (room : String) (s : RagClient) {context : ℕ}
    → open_context room s ≡ some context
    → get room s.links.connections ≡ some context
unfolding open_context
open_context-connections room s on = elim (Bool-cases (is_connected room s.links)) [
  | inl ready ↦ rw (ready, open_context) at on
  | inr off ↦ let bad = rw (off, open_context) at on in cc
]

pub open_context_same :
    (room : String) (context : ℕ) (c : Context) (text : Text) (s : RagClient)
    → open_context room (asked context c text s) ≡ open_context room s
unfolding open_context
open_context_same room context c text s = refl

pub settle_lem :
    (id : ℕ) (o : Outcome) (s : RagClient)
    → has id s.settled ≡ false
    → settle id o s ≡ record s { settled = set id o s.settled }
unfolding settle
settle_lem id o s new = rw (new, settle) refl

pub get-settle_new :
    (id : ℕ) (o : Outcome) (s : RagClient)
    → has id s.settled ≡ false
    → get id (settle id o s).settled ≡ some o
get-settle_new id o s new = rw (settle_lem id o s new) (get-set_self id o s.settled)

pub get-settle_ne :
    (k id : ℕ) (o : Outcome) (s : RagClient)
    → (k == id) ≡ false
    → get id (settle k o s).settled ≡ get id s.settled
unfolding settle
get-settle_ne k id o s other = elim (Bool-cases (has k s.settled)) [
  | inl done ↦ rw (done, settle) refl
  | inr new ↦ rw (new, settle) (get-set_ne k id o s.settled other)
]

pub settle-timers : (k : ℕ) (o : Outcome) (s : RagClient) → (settle k o s).timers ≡ s.timers
unfolding settle
settle-timers k o s = elim (Bool-cases (has k s.settled)) [
  | inl done ↦ rw (done, settle) refl
  | inr new ↦ rw (new, settle) refl
]

module _ (context : ℕ) (f : Context → Context) (s : RagClient) where
  pub change_context-settled : (change_context context f s).settled ≡ s.settled
  unfolding change_context
  change_context-settled = elim (Option-cases (get context s.contexts)) [
    | inl gone ↦ rw (gone, change_context) refl
    | inr (c, found) ↦ rw (found, change_context) refl
  ]

  pub change_context-timers : (change_context context f s).timers ≡ s.timers
  unfolding change_context
  change_context-timers = elim (Option-cases (get context s.contexts)) [
    | inl gone ↦ rw (gone, change_context) refl
    | inr (c, found) ↦ rw (found, change_context) refl
  ]

-- With what a timer settles its request.
abbrev pub timer_outcome : Timer → Outcome
timer_outcome (question_timer context text) = request_timeout
timer_outcome (sources_timer context text) = request_timeout
timer_outcome (report_timer room) = report_timeout

get-fired :
    (id : ℕ) (t : Timer) (s : RagClient)
    → has id s.settled ≡ false
    → get id (fired t id s).settled ≡ some (timer_outcome t)
unfolding fired
get-fired id (question_timer context text) s new =
    get-settle_new id request_timeout _
      (rw (change_context-settled context (without_question text) s) new)
get-fired id (sources_timer context text) s new =
    get-settle_new id request_timeout _
      (rw (change_context-settled context (without_sources text) s) new)
get-fired id (report_timer room) s new =
    get-settle_new id report_timeout (without_report room s) new

pub timer_fires_lem :
    (id : ℕ) (t : Timer) (s : RagClient)
    → get id s.timers ≡ some t
    → timer_fires id s ≡ fired t id (clear_timer id s)
unfolding timer_fires
timer_fires_lem id t s armed = rw (armed, timer_fires) refl

pub get-timer_fires :
    (id : ℕ) (t : Timer) (s : RagClient)
    → get id s.timers ≡ some t
    → has id s.settled ≡ false
    → get id (timer_fires id s).settled ≡ some (timer_outcome t)
get-timer_fires id t s armed new =
    rw (timer_fires_lem id t s armed) (get-fired id t (clear_timer id s) new)

-- The answer to a question of which a newer copy waits.
module _ (room : String) (context : ℕ) (c : Context) (x : ℕ) (xs : Text) (reply : Option Text)
    (sources : List RawSource) (s : RagClient) where
  pub handle_message_answer :
      get room s.links.connections ≡ some context
      → get context s.contexts ≡ some c
      → get (x ∷ xs) c.pending_requests_with_sources ≡ none
      → handle_message room (answer (some (x ∷ xs)) reply sources) s
        ≡ (elim (get (x ∷ xs) c.pending_requests) [
          | none ↦ s
          | some id ↦
              finish id
                (answered (or_empty reply))
                (change_context context (without_question (x ∷ xs)) s)
        ])
  unfolding handle_message handle_answer
  handle_message_answer on found unsourced =
      rw (on, handle_message) (rw found (rw (unsourced, handle_answer) refl))
