-- ===== src/Mcp/Servers/Lifecycle.antt =====
-- mcp/client/: failed connections, and the output of processes that were disconnected.
use aura_new_live_server.Prelude.{
  ℕ, suc, ◌≡◌, refl, String, false, Option, none, some, List, [], ◌∷◌, set, delete, ◌∙◌, ap, ◌==◌,
  nat_eq, string_eq, get, has, get-set_self, get-delete_self, get-set, Bool-cases, inl, inr,
}
use aura_new_live_server.Mcp.Client.{
  connecting, error, Response, Connection, send_request, outcome_of, settle, handle_response,
  split_lines, is_blank, handle_line, handle_lines, handle_text, handle_stdout,
}
use aura_new_live_server.Mcp.Decoder.{to_string}
use aura_new_live_server.Mcp.Servers.{
  Clients, started, handle_output, update, get_connection, connect, connect_failed, disconnect,
  get_connection_state, output_arrives,
}

-- A name without a connection gets a new one.
connect-new :
    (name : String) (s : Clients)
    → has name s.connections ≡ false
    → (get name (connect name s).1.connections ≡ some (suc s.allocated))
      × (get (suc s.allocated) (connect name s).1.objects ≡ some started)
unfolding connect send_request
connect-new name s fresh = rw fresh (
  get-set_self name (suc s.allocated) s.connections,
  get-set_self (suc s.allocated) started s.objects,
)

connect-known :
    (name : String) (i : ℕ) (s : Clients)
    → get name s.connections ≡ some i
    → connect name s ≡ (none, s)
unfolding connect
connect-known name i s known = rw known refl

update-object :
    (name : String) (i : ℕ) (f : Connection → Connection) (s : Clients) (c : Connection)
    → get name s.connections ≡ some i
    → get i s.objects ≡ some c
    → (get name (update i f s).connections ≡ some i) × (get i (update i f s).objects ≡ some (f c))
unfolding update
update-object name i f s c used object =
    (rw (object, update) used, rw (object, update) (get-set_self i (f c) s.objects))

get_connection-object :
    (name : String) (i : ℕ) (s : Clients) (c : Connection)
    → get name s.connections ≡ some i
    → get i s.objects ≡ some c
    → get_connection name s ≡ some c
unfolding get_connection
get_connection-object name i s c used object = rw (used, object) refl

state-object :
    (name : String) (i : ℕ) (s : Clients) (c : Connection)
    → get name s.connections ≡ some i
    → get i s.objects ≡ some c
    → get_connection_state name s ≡ c.state
unfolding get_connection_state
state-object name i s c used object =
    rw (get_connection-object name i s c used object, get_connection_state) refl

-- Connecting after a disconnection.
connect-disconnected :
    (name : String) (s : Clients)
    → (let again = (connect name (disconnect name s)).1 in
        (get name again.connections ≡ some (suc s.allocated))
        × (get (suc s.allocated) again.objects ≡ some started))
unfolding disconnect
connect-disconnected name s =
    connect-new name (disconnect name s) (rw (get-delete_self name s.connections) refl)

-- Once the handshake of a new connection has failed, connecting to the server again returns at once
-- and changes nothing, and its state remains that of an error; after a disconnection it begins
-- anew.
pub connect_failed-connect :
    (name : String) (s : Clients)
    → has name s.connections ≡ false
    → (let failed = connect_failed (suc s.allocated) (connect name s).1 in
        (connect name failed ≡ (none, failed))
        × (get_connection_state name failed ≡ error)
        × (get_connection_state name (connect name (disconnect name failed)).1 ≡ connecting))
unfolding connect_failed send_request
connect_failed-connect name s fresh =
    let i = suc s.allocated in
    let begun = (connect name s).1 in
    let fail : Connection → Connection = λ c. record c { state = error } in
    let failed = update i fail begun in
    let (used, object) = connect-new name s fresh in
    let (kept, marked) = update-object name i fail begun started used object in
    let (anew, made) = connect-disconnected name failed in
    (
      connect-known name i failed kept,
      state-object name i failed (record started { state = error }) kept marked,
      state-object name (suc failed.allocated) (connect name (disconnect name failed)).1 started
          anew made,
    )

-- A process that is there stays, whatever happens to the name that it was started for.
process_kept :
    (name : String) (old : ℕ) (s : Clients)
    → get old s.processes ≡ some name
    → get old (connect name (disconnect name s)).1.processes ≡ some name
unfolding connect disconnect
process_kept name old s known =
    rw (get-delete_self name s.connections) (elim (Bool-cases (suc s.allocated == old)) [
      | inl same ↦ rw (get-set (suc s.allocated) old name s.processes) (rw same refl)
      | inr other ↦ rw (get-set (suc s.allocated) old name s.processes) (rw other known)
    ])

-- The answer to the first request, alone on its line.
handle_stdout-started :
    (parse : List ℕ → Option Response) (bytes line : List ℕ) (r : Response)
    → split_lines (to_string bytes) ≡ (line ∷ [], [])
    → is_blank line ≡ false
    → parse line ≡ some r
    → r.id ≡ 1
    → let c = handle_stdout parse bytes started in
      (get 1 c.settled ≡ some (outcome_of r)) × (get 1 c.pending_requests ≡ none)
unfolding handle_stdout handle_text handle_lines handle_line handle_response settle send_request get
    set delete
handle_stdout-started parse bytes line r split text read first =
    rw split (rw text (rw read (rw first (refl, refl))))

-- After a disconnection and a new connection of a name, a line with a response to the identifier 1
-- from a process that was started before for that name settles the first request of the new
-- connection, which was waiting, with its result or error.
pub output_arrives-reconnected :
    (parse : List ℕ → Option Response) (name : String) (old : ℕ) (bytes line : List ℕ)
    (r : Response) (s : Clients)
    → get old s.processes ≡ some name
    → split_lines (to_string bytes) ≡ (line ∷ [], [])
    → is_blank line ≡ false
    → parse line ≡ some r
    → r.id ≡ 1
    → let again = (connect name (disconnect name s)).1 in
      (c : Connection) × (get_connection name (output_arrives parse old bytes again) ≡ some c)
      × (get_connection name again ≡ some started)
      × (get 1 started.settled ≡ none)
      × (get 1 c.settled ≡ some (outcome_of r))
      × (get 1 c.pending_requests ≡ none)
unfolding output_arrives handle_output send_request get
output_arrives-reconnected parse name old bytes line r s known split text read first =
    let again = (connect name (disconnect name s)).1 in
    let i = suc s.allocated in
    let (used, object) = connect-disconnected name s in
    let (kept, heard) =
      update-object name i (handle_stdout parse bytes) again started used object in
    let after : output_arrives parse old bytes again ≡ update i (handle_stdout parse bytes) again =
      rw (process_kept name old s known, output_arrives) (rw (used, handle_output) refl) in
    let (settled, dropped) = handle_stdout-started parse bytes line r split text read first in
    (
      handle_stdout parse bytes started,
      ap (get_connection name) after
          ∙ get_connection-object name i (update i (handle_stdout parse bytes) again)
              (handle_stdout parse bytes started) kept heard,
      get_connection-object name i again started used object,
      refl,
      settled,
      dropped,
    )
