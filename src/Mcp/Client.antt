-- ===== src/Mcp/Client.antt =====
-- mcp/client/mcp-client.service.ts: JSON-RPC over the standard streams of a server's process.
pub mod Requests
pub mod Framing
pub mod Steps
use aura_new_live_server.Prelude.{
  Text, is_space, ℕ, suc, String, Bool, true, false, ◌&&◌, ◌||◌, Option, none, some, List, [], ◌∷◌,
  ◌++◌, leb, ◌==◌, if◌then◌else◌, nat_eq, string_eq, Table, get, has, set, delete,
}
use aura_new_live_server.Mcp.Decoder.{to_string}

-- `McpConnectionState`
pub data ConnectionState : Type 0 where
  disconnected connecting connected error : ConnectionState

-- `JsonRpcResponse`; the result is kept as its text.
pub record Response : Type 0 where
  pub id : ℕ
  pub error : Option String
  pub result : String

-- How the promise of a request is settled.
pub data Outcome : Type 0 where
  resolved : String → Outcome
  remote_error : (message : String) → Outcome
  write_error : Outcome
  request_timeout : (method : String) → Outcome

-- `McpConnection`: texts are lists of code units, a pending request is kept by its method, and
-- `settled` has the promises of the requests that are no longer waited for.
pub record Connection : Type 0 where
  pub state : ConnectionState
  pub tools : List String
  pub pending_requests : Table ℕ String
  pub request_id : ℕ
  pub buffer : List ℕ
  pub settled : Table ℕ Outcome

abbrev pub new_connection : Connection
new_connection = record {
  state = connecting;
  tools = [];
  pending_requests = [];
  request_id = 0;
  buffer = [];
  settled = [];
}

-- `resolve` or `reject`: a promise is settled once, later calls do nothing.
unfoldable pub settle : ℕ → Outcome → Connection → Connection
settle id o c = if has id c.settled then c else record c { settled = set id o c.settled }

-- `sendRequest`: the identifier of the request, and the connection that waits for it
unfoldable pub send_request : String → Connection → ℕ × Connection
send_request method c =
    let id = suc c.request_id in
    (id, record c { request_id = id; pending_requests = set id method c.pending_requests })

abbrev pub drop_pending : ℕ → Connection → Connection
drop_pending id c = record c { pending_requests = delete id c.pending_requests }

-- The callback of `write`, on an error.
unfoldable pub write_failed : ℕ → Connection → Connection
unfolding settle
write_failed id c = settle id write_error (drop_pending id c)

-- The timer of thirty seconds.
unfoldable pub timed_out : ℕ → Connection → Connection
unfolding settle
timed_out id c = elim (get id c.pending_requests) [
  | none ↦ c
  | some method ↦ settle id (request_timeout method) (drop_pending id c)
]

abbrev pub outcome_of : Response → Outcome
outcome_of r = elim r.error [ none ↦ resolved r.result | some message ↦ remote_error message ]

-- `handleResponse`
unfoldable pub handle_response : Response → Connection → Connection
unfolding settle
handle_response r c = elim (get r.id c.pending_requests) [
  | none ↦ c
  | some method ↦ settle r.id (outcome_of r) (drop_pending r.id c)
]

glue : ℕ → List (List ℕ) × List ℕ → List (List ℕ) × List ℕ
glue c ([], last) = ([], c ∷ last)
glue c (l ∷ ls, last) = ((c ∷ l) ∷ ls, last)

-- `text.split('\n')`, as its last part and those before
unfoldable pub split_lines : List ℕ → List (List ℕ) × List ℕ
unfolding glue
split_lines [] = ([], [])
split_lines (c ∷ cs) =
    let (ls, last) = split_lines cs in if c == 10 then ([] ∷ ls, last) else glue c (ls, last)

-- `!line.trim()`
unfoldable pub is_blank : List ℕ → Bool
is_blank [] = true
is_blank (c ∷ cs) = is_space c && is_blank cs

-- `JSON.parse` on a line, none where it throws. It is the language's, and not modelled.
module _ (parse : List ℕ → Option Response) where
  -- A line of the loop in `handleStdout`.
  unfoldable pub handle_line : List ℕ → Connection → Connection
  unfolding is_blank
  handle_line line c =
      if is_blank line then c else elim (parse line) [ none ↦ c | some r ↦ handle_response r c ]

  unfoldable pub handle_lines : List (List ℕ) → Connection → Connection
  unfolding handle_line
  handle_lines [] c = c
  handle_lines (l ∷ ls) c = handle_lines ls (handle_line l c)

  -- `handleStdout`, after the text of the buffer is known
  unfoldable pub handle_text : Text → Connection → Connection
  unfolding handle_lines
  handle_text text c =
      let (ls, last) = split_lines (c.buffer ++ text) in
      handle_lines ls (record c { buffer = last })

  -- `handleStdout`, on the connection of the server, with the bytes of the buffer
  unfoldable pub handle_stdout : List ℕ → Connection → Connection
  unfolding handle_text
  handle_stdout bytes c = handle_text (to_string bytes) c
