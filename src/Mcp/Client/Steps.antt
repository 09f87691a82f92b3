-- ===== src/Mcp/Client/Steps.antt =====
-- mcp/client/mcp-client.service.ts: the histories of a connection.
use aura_new_live_server.Prelude.{
  ℕ, ◌≤◌, ◌<◌, ◌≡◌, inl, inr, String, true, Option, some, List, ◌++◌, arith, nat_eq, Option-cases,
  get, has,
}
use aura_new_live_server.Mcp.Client.{
  Response, Outcome, request_timeout, Connection, new_connection, send_request, drop_pending,
  write_failed, timed_out, handle_text, handle_stdout, split_lines,
}
use aura_new_live_server.Mcp.Decoder.{to_string}
use aura_new_live_server.Mcp.Client.Requests.{
  IsConnection, new_connection-IsConnection, send_request-IsConnection, finish-IsConnection,
  timed_out-IsConnection, handle_response-IsConnection, has-settle, settle-keeps,
  handle_response-keeps, handle_lines_induction,
}

module _ (parse : List ℕ → Option Response) where
  -- What the program and the runtime do to a connection: a request is sent, the write of one that was
  -- sent fails, its timer fires, or output arrives.
  pub data Step (c : Connection) : Connection → Type 0 where
    sends : (method : String) → Step c (send_request method c).1
    write_fails : (id : ℕ) → 0 < id → id ≤ c.request_id → Step c (write_failed id c)
    times_out : (id : ℕ) → Step c (timed_out id c)
    receives : (bytes : List ℕ) → Step c (handle_stdout parse bytes c)

  pub data Reach (c : Connection) : Connection → Type 0 where
    here : Reach c c
    next : {d e : Connection} → Reach c d → Step d e → Reach c e

  Step-IsConnection : {c d : Connection} → Step c d → IsConnection c → IsConnection d
  unfolding write_failed handle_text handle_stdout
  Step-IsConnection {c} (sends method) v = send_request-IsConnection method c v
  Step-IsConnection {c} (write_fails id positive given) v =
      finish-IsConnection id _ c positive given v
  Step-IsConnection {c} (times_out id) v = timed_out-IsConnection id c v
  Step-IsConnection {c} (receives bytes) v =
      handle_lines_induction IsConnection parse handle_response-IsConnection
        (split_lines (c.buffer ++ to_string bytes)).0
        (record c { buffer = (split_lines (c.buffer ++ to_string bytes)).1 })
        (record {
          owed = v.owed;
          unissued_pending = v.unissued_pending;
          unissued_settled = v.unissued_settled;
        })

  -- On every connection that is reached from a new one, an identifier that was given out belongs to
  -- a request that is waited for or to one that is settled, not to both, and no other identifier
  -- belongs to a request.
  pub Reach-IsConnection : {c : Connection} → Reach new_connection c → IsConnection c
  Reach-IsConnection here = new_connection-IsConnection
  Reach-IsConnection (next r s) = Step-IsConnection s (Reach-IsConnection r)

  Step-keeps :
      {c d : Connection} (id : ℕ) (o : Outcome)
      → Step c d
      → get id c.settled ≡ some o
      → get id d.settled ≡ some o
  unfolding send_request write_failed timed_out handle_text handle_stdout
  Step-keeps id o (sends method) found = found
  Step-keeps {c} id o (write_fails i positive given) found = settle-keeps i id o _ _ found
  Step-keeps {c} id o (times_out i) found = elim (Option-cases (get i c.pending_requests)) [
    | inl gone ↦ rw (gone, timed_out) found
    | inr (method, waiting) ↦ rw (waiting, timed_out) (settle-keeps i id o _ _ found)
  ]
  Step-keeps {c} id o (receives bytes) found =
      handle_lines_induction (λ d. get id d.settled ≡ some o) parse
        (λ r d. handle_response-keeps id o r d) (split_lines (c.buffer ++ to_string bytes)).0
        (record c { buffer = (split_lines (c.buffer ++ to_string bytes)).1 }) found

  -- What a request was settled with stays, whatever steps follow.
  pub Reach-keeps :
      {c d : Connection} (id : ℕ) (o : Outcome)
      → Reach c d
      → get id c.settled ≡ some o
      → get id d.settled ≡ some o
  Reach-keeps id o here found = found
  Reach-keeps id o (next r s) found = Step-keeps id o s (Reach-keeps id o r found)

  -- On a reachable connection a request that was sent is settled at the latest when its timer
  -- fires.
  pub timed_out_settles :
      {c : Connection} (id : ℕ)
      → Reach new_connection c
      → 0 < id
      → id ≤ c.request_id
      → has id (timed_out id c).settled ≡ true
  unfolding timed_out
  timed_out_settles {c} id r positive given =
      let v = Reach-IsConnection r in
      elim (Option-cases (get id c.pending_requests)) [
        | inl gone ↦ rw (gone, timed_out) (ground (arith, v.owed id))
        | inr (method, waiting) ↦
            rw (waiting, timed_out) (has-settle id (request_timeout method) (drop_pending id c))
      ]
