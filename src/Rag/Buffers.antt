-- ===== src/Rag/Buffers.antt =====
-- rag/rag-client.service.ts: what the buffers keep and what is sent.
use aura_new_live_server.Prelude.{
  ◌≡◌, refl, sym, ◌∙◌, ap, String, Bool, true, false, [], ◌∷◌, ◌++◌, arith, List, nat_eq, string_eq,
  get-set_self, map, append-nil, append_assoc, newest, push_bounded, push_bounded-newest,
}
use aura_new_live_server.Rag.Statements.{
  PendingStatement, Buffers, buffer_of, add_to_statement_buffer, send_statement, Call, send_all,
}

-- A first call keeps its statement, whatever becomes of the message.
pub send_statement-kept :
    (room : String) (p : PendingStatement) (connected throws : Bool) (buffers : Buffers)
    → (send_statement room p 0 connected throws buffers).0 ≡ add_to_statement_buffer room p buffers
unfolding send_statement
send_statement-kept room p true true buffers = refl
send_statement-kept room p true false buffers = refl
send_statement-kept room p false throws buffers = refl

pub buffer_of-add :
    (room : String) (p : PendingStatement) (buffers : Buffers)
    → buffer_of room (add_to_statement_buffer room p buffers)
      ≡ push_bounded 100 p (buffer_of room buffers)
unfolding add_to_statement_buffer
buffer_of-add room p buffers =
    rw (get-set_self room (push_bounded 100 p (buffer_of room buffers)) buffers) refl

pub buffer_of-send_statement :
    (room : String) (p : PendingStatement) (connected throws : Bool) (xs : List PendingStatement)
    (buffers : Buffers)
    → buffer_of room buffers ≡ newest 100 xs
    → buffer_of room (send_statement room p 0 connected throws buffers).0
      ≡ newest 100 (xs ++ p ∷ [])
buffer_of-send_statement room p connected throws xs buffers h =
    ap (buffer_of room) (send_statement-kept room p connected throws buffers)
    ∙ buffer_of-add room p buffers
    ∙ ap (push_bounded 100 p) h
    ∙ push_bounded-newest 100 p xs (omega arith)

pub buffer_of-send_all :
    (room : String) (cs : List Call) (xs : List PendingStatement) (buffers : Buffers)
    → buffer_of room buffers ≡ newest 100 xs
    → buffer_of room (send_all room cs buffers) ≡ newest 100 (xs ++ map (λ c. c.statement) cs)
unfolding send_all
buffer_of-send_all room [] xs buffers h = h ∙ ap (newest 100) (sym (append-nil xs))
buffer_of-send_all room (c ∷ cs) xs buffers h =
    let after = send_statement room c.statement 0 c.connected c.throws buffers in
    let first = buffer_of-send_statement room c.statement c.connected c.throws xs buffers h in
    buffer_of-send_all room cs (xs ++ c.statement ∷ []) after.0 first
    ∙ ap (newest 100) (append_assoc xs (c.statement ∷ []) (map (λ d. d.statement) cs))

-- The buffer of a room after its first statements.
pub send_all-newest :
    (room : String) (cs : List Call) (buffers : Buffers)
    → buffer_of room buffers ≡ []
    → buffer_of room (send_all room cs buffers) ≡ newest 100 (map (λ c. c.statement) cs)
unfolding newest
send_all-newest room cs buffers h = buffer_of-send_all room cs [] buffers h
