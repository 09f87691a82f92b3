-- ===== src/Rag.antt =====
-- rag/rag-client.service.ts: the client of the retrieval server.
pub mod Connections
pub mod Statements
pub mod Messages
pub mod Outages
pub mod Reconnection
pub mod Settling
pub mod Histories
pub mod Promises
pub mod Repeated
pub mod Reports
pub mod Disconnection
pub mod Buffers
pub mod Flushes
mod Tests
use aura_new_live_server.Prelude.{
  Text, ℕ, suc, String, Bool, true, false, Option, none, some, List, [], ◌∷◌, ◌++◌, map, ◌==◌,
  if◌then◌else◌, option_or, nat_eq, string_eq, list_eq, Table, get, has, set, delete, keys, ◌>>=◌,
}
use Connections.{Links, no_links, is_connected, socket_opened, disconnect_links}

-- `ConnectionContext`, by the promises that its requests wait for. Its reconnection fields are
-- never read.
pub record Context : Type 0 where
  pub pending_requests : Table Text ℕ
  pub pending_requests_with_sources : Table Text ℕ

pub record Source : Type 0 where
  pub text : Text
  pub speaker : Option Text

-- The result of a report.
pub record Report : Type 0 where
  pub success : Bool
  pub status : Option String
  pub meeting_title : Option String
  pub summary_type : Option String
  pub report_content : Option String

-- What a promise is settled with.
pub data Outcome : Type 0 where
  answered : Text → Outcome
  answered_with_sources : Text → List Source → Outcome
  reported : Report → Outcome
  request_timeout report_timeout client_disconnected meeting_ended send_failed : Outcome

-- The closure of a live timer of a request.
pub data Timer : Type 0 where
  question_timer sources_timer : (context : ℕ) → (text : Text) → Timer
  report_timer : (room : String) → Timer

-- The state of `RagClientService` but for the statements. A context has the number of its socket,
-- a promise and its timer have the number of the request.
pub record RagClient : Type 0 where
  pub links : Links
  pub contexts : Table ℕ Context
  pub pending_report_requests : Table String ℕ
  pub next_request : ℕ
  pub timers : Table ℕ Timer
  pub settled : Table ℕ Outcome
  pub sent : List (ℕ × Text)

abbrev pub new_client : RagClient
new_client = record {
  links = no_links;
  contexts = [];
  pending_report_requests = [];
  next_request = 0;
  timers = [];
  settled = [];
  sent = [];
}

-- `resolve` or `reject`: a promise is settled once.
unfoldable pub settle : ℕ → Outcome → RagClient → RagClient
settle id o s = if has id s.settled then s else record s { settled = set id o s.settled }

-- `clearTimeout(pending.timer)`
abbrev pub clear_timer : ℕ → RagClient → RagClient
clear_timer id s = record s { timers = delete id s.timers }

unfoldable pub change_context : ℕ → (Context → Context) → RagClient → RagClient
change_context context f s = elim (get context s.contexts) [
  | none ↦ s
  | some c ↦ record s { contexts = set context (f c) s.contexts }
]

abbrev pub without_question : Text → Context → Context
without_question text c = record c { pending_requests = delete text c.pending_requests }

abbrev pub without_sources : Text → Context → Context
without_sources text c = record c {
  pending_requests_with_sources = delete text c.pending_requests_with_sources;
}

abbrev pub without_report : String → RagClient → RagClient
without_report room s = record s { pending_report_requests = delete room s.pending_report_requests }

-- `ws.on('open')`
unfoldable pub on_open : ℕ → RagClient → RagClient
unfolding socket_opened
on_open id s =
    let c : Context = record { pending_requests = []; pending_requests_with_sources = [] } in
    record s { links = socket_opened id s.links; contexts = set id c s.contexts }

-- The three kinds of timers, each when it fires.
unfoldable pub fired : Timer → ℕ → RagClient → RagClient
unfolding settle change_context
fired (question_timer context text) id s =
    settle id request_timeout (change_context context (without_question text) s)
fired (sources_timer context text) id s =
    settle id request_timeout (change_context context (without_sources text) s)
fired (report_timer room) id s = settle id report_timeout (without_report room s)

unfoldable pub timer_fires : ℕ → RagClient → RagClient
unfolding fired
timer_fires id s = elim (get id s.timers) [ none ↦ s | some t ↦ fired t id (clear_timer id s) ]

-- A new promise with its timer.
unfoldable pub start_request : Timer → RagClient → RagClient
start_request t s = record s {
  next_request = suc s.next_request;
  timers = set s.next_request t s.timers;
}

-- `context.ws.send`, which throws in the constructor of the promise or does not
unfoldable pub send_text : ℕ → Text → ℕ → Bool → RagClient → RagClient
unfolding settle
send_text context text id throws s =
    if throws then settle id send_failed s else record s { sent = s.sent ++ (context, text) ∷ [] }

abbrev pub with_question : Text → ℕ → Context → Context
with_question text id c = record c { pending_requests = set text id c.pending_requests }

abbrev pub with_sources : Text → ℕ → Context → Context
with_sources text id c = record c {
  pending_requests_with_sources = set text id c.pending_requests_with_sources;
}

-- The connection of a room, where it is open.
unfoldable pub open_context : String → RagClient → Option ℕ
open_context room s = if is_connected room s.links then get room s.links.connections else none

-- `sendQuestion`: the promise, none where it throws
unfoldable pub send_question : String → Text → Bool → RagClient → RagClient × Option ℕ
unfolding open_context start_request change_context send_text
send_question room text throws s = elim (open_context room s) [
  | none ↦ (s, none)
  | some context ↦ (
    send_text context text s.next_request throws (
        change_context context (with_question text s.next_request)
          (start_request (question_timer context text) s)),
    some s.next_request,
  )
]

-- `sendQuestionWithSources`
unfoldable pub send_question_with_sources : String → Text → Bool → RagClient → RagClient × Option ℕ
unfolding open_context start_request change_context send_text
send_question_with_sources room text throws s = elim (open_context room s) [
  | none ↦ (s, none)
  | some context ↦ (
    send_text context text s.next_request throws (
        change_context context (with_sources text s.next_request)
          (start_request (sources_timer context text) s)),
    some s.next_request,
  )
]
