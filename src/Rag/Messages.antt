-- ===== src/Rag/Messages.antt =====
-- rag/rag-client.service.ts: the messages of the server, disconnection, and reports.
use aura_new_live_server.Prelude.{
  Text, ℕ, ◌+◌, length, String, false, Option, none, some, List, [], ◌∷◌, map, ◌==◌, if◌then◌else◌,
  option_or, nat_eq, string_eq, list_eq, Table, get, has, set, delete, keys, ◌>>=◌,
}
use aura_new_live_server.Rag.Connections.{is_connected, disconnect_links}
use aura_new_live_server.Rag.Statements.{Buffers, buffer_of}
use aura_new_live_server.Rag.{
  RagClient, Context, Source, Report, Outcome, answered, answered_with_sources, reported,
  client_disconnected, meeting_ended, report_timer, settle, clear_timer, change_context,
  without_question, without_sources, without_report, start_request,
}

-- The sources as they arrive: an absent or empty text or speaker becomes "" or null.
abbrev pub or_empty : Option Text → Text
or_empty text = option_or text []

abbrev pub or_null : Option Text → Option Text
or_null none = none
or_null (some []) = none
or_null (some (c ∷ cs)) = some (c ∷ cs)

pub record RawSource : Type 0 where
  pub text : Option Text
  pub speaker : Option Text

abbrev pub normal_source : RawSource → Source
normal_source r = record { text = or_empty r.text; speaker = or_null r.speaker }

-- The fields of a report's message.
pub record RawReport : Type 0 where
  pub status : Option String
  pub meeting_title : Option String
  pub summary_type : Option String
  pub report_content : Option String

-- `status === 'success'`
abbrev pub normal_report : RawReport → Report
normal_report r = record {
  success = elim r.status [ none ↦ false | some status ↦ status == "success" ];
  status = r.status;
  meeting_title = r.meeting_title;
  summary_type = r.summary_type;
  report_content = r.report_content;
}

-- A message that `JSON.parse` accepts, by its `type`: types that only log are one.
pub data Incoming : Type 0 where
  answer : (text answer : Option Text) (sources : List RawSource) → Incoming
  meeting_report : RawReport → Incoming
  logged : Incoming

-- `message.text || 'unknown'`
abbrev pub request_key : Option Text → Text
request_key none = 117 ∷ 110 ∷ 107 ∷ 110 ∷ 111 ∷ 119 ∷ 110 ∷ []
request_key (some []) = 117 ∷ 110 ∷ 107 ∷ 110 ∷ 111 ∷ 119 ∷ 110 ∷ []
request_key (some (c ∷ cs)) = c ∷ cs

-- `delete(questionText)`, which deletes nothing where the message has no text
abbrev pub without_answered : (Text → Context → Context) → Option Text → Context → Context
without_answered remove none c = c
without_answered remove (some text) c = remove text c

-- The promise is resolved after its timer is cleared and its entry deleted.
abbrev pub finish : ℕ → Outcome → RagClient → RagClient
finish id o s = settle id o (clear_timer id s)

-- The branch of an answer.
unfoldable pub handle_answer :
    ℕ → Context → Option Text → Option Text → List RawSource → RagClient → RagClient
unfolding settle change_context
handle_answer context c text reply sources s =
    elim (text >>= λ question. get question c.pending_requests_with_sources) [
      | some id ↦
          finish id (answered_with_sources (or_empty reply) (map normal_source sources))
            (change_context context (without_answered without_sources text) s)
      | none ↦ elim (get (request_key text) c.pending_requests) [
        | none ↦ s
        | some id ↦
            finish id (answered (or_empty reply))
              (change_context context (without_answered without_question text) s)
      ]
    ]

-- The branch of a report.
unfoldable pub handle_report : String → RawReport → RagClient → RagClient
unfolding settle
handle_report room r s = elim (get room s.pending_report_requests) [
  | none ↦ s
  | some id ↦ finish id (reported (normal_report r)) (without_report room s)
]

-- `handleMessage`
unfoldable pub handle_message : String → Incoming → RagClient → RagClient
unfolding handle_answer handle_report
handle_message room m s = elim (get room s.links.connections) [
  | none ↦ s
  | some context ↦ elim (get context s.contexts) [
    | none ↦ s
    | some c ↦ elim m [
      | answer text reply sources ↦ handle_answer context c text reply sources s
      | meeting_report r ↦ handle_report room r s
      | logged ↦ s
    ]
  ]
]

-- `pending.reject` for each of the requests of a context
unfoldable pub reject_all : Table Text ℕ → RagClient → RagClient
unfolding settle
reject_all [] s = s
reject_all ((text, id) ∷ rest) s = reject_all rest (finish id client_disconnected s)

abbrev pub cleared : Context → Context
cleared c = record c { pending_requests = [] }

unfoldable pub reject_questions : ℕ → RagClient → RagClient
unfolding reject_all change_context
reject_questions context s = elim (get context s.contexts) [
  | none ↦ s
  | some c ↦ change_context context cleared (reject_all c.pending_requests s)
]

unfoldable pub reject_report : String → RagClient → RagClient
unfolding settle
reject_report room s = elim (get room s.pending_report_requests) [
  | none ↦ s
  | some id ↦ finish id meeting_ended (without_report room s)
]

-- `disconnect`, but for the statements
unfoldable pub disconnect : String → RagClient → RagClient
unfolding disconnect_links reject_questions reject_report
disconnect room s =
    let links = disconnect_links room s.links in
    elim (get room s.links.connections) [
      | none ↦ record s { links = links }
      | some context ↦ record (reject_report room (reject_questions context s)) { links = links }
    ]

-- What `requestReport` does at once.
pub data ReportRequest : Type 0 where
  not_connected already_requested : ReportRequest
  waits_for : (id : ℕ) → ReportRequest

-- `requestReport`, until its HTTP request is under way
unfoldable pub request_report : String → RagClient → RagClient × ReportRequest
unfolding start_request
request_report room s =
    if is_connected room s.links
    then if has room s.pending_report_requests then (s, already_requested) else (
      record (start_request (report_timer room) s) {
        pending_report_requests = set room s.next_request s.pending_report_requests;
      },
      waits_for s.next_request,
    )
    else (s, not_connected)

-- Its `catch`, at whatever time the HTTP request fails: the room's entry is deleted, be it another's by
-- then, the call fails, and the timer stays.
abbrev pub report_post_failed : String → RagClient → RagClient
report_post_failed room s = without_report room s

-- `disconnect`, as to the statements of a room that has a connection
unfoldable pub disconnect_buffers : String → RagClient → Buffers → Buffers
disconnect_buffers room s buffers =
    if has room s.links.connections
    then elim (buffer_of room buffers) [ [] ↦ buffers | (p ∷ ps) ↦ delete room buffers ]
    else buffers

unfoldable pub disconnect_all : List String → RagClient → RagClient
unfolding disconnect
disconnect_all [] s = s
disconnect_all (room ∷ rooms) s = disconnect_all rooms (disconnect room s)

-- `onModuleDestroy`: the buffers are all cleared
unfoldable pub on_module_destroy : RagClient → RagClient × Buffers
unfolding disconnect_all keys
on_module_destroy s =
    let quiet = record s {
      links = record s.links { reconnect_timers = []; reconnect_attempt_counts = [] };
    } in
    (disconnect_all (keys s.links.connections) quiet, [])

unfoldable pub total : Buffers → ℕ
total [] = 0
total ((room, buffer) ∷ rest) = length buffer + total rest

-- `getAllConnectionsStatus`: the number of connections, their rooms, and the number of statements
unfoldable pub get_all_connections_status : RagClient → Buffers → ℕ × List String × ℕ
unfolding keys total
get_all_connections_status s buffers =
    (length s.links.connections, keys s.links.connections, total buffers)
