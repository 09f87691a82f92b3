-- ===== src/Rag/Statements.antt =====
-- rag/rag-client.service.ts: the buffers of statements, and the sending of statements.
use aura_new_live_server.Prelude.{
  Text, ℕ, zero, suc, ◌-◌, ◌*◌, String, Bool, true, Option, none, some, List, [], ◌∷◌, ◌++◌, map,
  length, keep, leb, ltb, ◌==◌, if◌then◌else◌, option_or, nat_eq, string_eq, Table, get, set,
  delete, push_bounded,
}

-- `PendingStatement`; its `retryCount` is 0 in each buffer, and is not kept.
pub record PendingStatement : Type 0 where
  pub text : Text
  pub speaker : Text
  pub timestamp : ℕ
  pub start_time : Option ℕ
  pub end_time : Option ℕ

-- `statementBuffers`
abbrev pub Buffers : Type 0
Buffers = Table String (List PendingStatement)

abbrev pub statement_buffer_max_size : ℕ
statement_buffer_max_size = 100

abbrev pub statement_buffer_max_age : ℕ
statement_buffer_max_age = 60000

abbrev pub max_statement_retry : ℕ
max_statement_retry = 3

-- `this.statementBuffers.get(roomId)`, empty where there is none
abbrev pub buffer_of : String → Buffers → List PendingStatement
buffer_of room buffers = option_or (get room buffers) []

-- `addToStatementBuffer`
unfoldable pub add_to_statement_buffer : String → PendingStatement → Buffers → Buffers
unfolding push_bounded
add_to_statement_buffer room p buffers =
    set room (push_bounded statement_buffer_max_size p (buffer_of room buffers)) buffers

-- The message of a statement, without its constant fields.
pub record Statement : Type 0 where
  pub text : Text
  pub speaker : Text
  pub start_time : ℕ
  pub end_time : Option ℕ

-- The message, on a statement with the time of the call
abbrev pub message_of : PendingStatement → Statement
message_of p = record {
  text = p.text;
  speaker = p.speaker;
  start_time = option_or p.start_time p.timestamp;
  end_time = p.end_time;
}

-- What an attempt to send a statement does next: nothing without a connection or when the attempts
-- are used up, a message on the socket, or the same call again after a delay.
pub data Sending : Type 0 where
  stays_in_buffer : Sending
  is_sent : Statement → Sending
  is_tried_again : (retry_count delay : ℕ) → Sending
  is_given_up : Sending

-- `Math.min(1000 * Math.pow(2, retryCount), 5000)`
abbrev pub doubled : ℕ → ℕ
doubled n = elim n [ zero ↦ 1000 | suc (k → d) ↦ 2 * d ]

unfoldable pub retry_delay : ℕ → ℕ
retry_delay n = if leb (doubled n) 5000 then doubled n else 5000

-- `sendStatement` at the time of the statement, on a socket that throws or does not
unfoldable pub send_statement :
    String → PendingStatement → ℕ → Bool → Bool → Buffers → Buffers × Sending
unfolding add_to_statement_buffer retry_delay
send_statement room p retry_count connected throws buffers =
    let kept = if retry_count == 0 then add_to_statement_buffer room p buffers else buffers in
    if connected
    then if throws
      then if ltb retry_count max_statement_retry
        then (kept, is_tried_again (suc retry_count) (retry_delay retry_count))
        else (kept, is_given_up)
      else (kept, is_sent (message_of p))
    else (kept, stays_in_buffer)

-- `now - stmt.timestamp <= this.STATEMENT_BUFFER_MAX_AGE`
abbrev pub is_young : ℕ → PendingStatement → Bool
is_young now p = leb (now - p.timestamp) statement_buffer_max_age

-- `flushStatementBuffer`, until its loop: the statements to send. The buffer is deleted, unless it
-- was empty.
unfoldable pub start_flush : String → ℕ → Buffers → Buffers × List PendingStatement
unfolding keep
start_flush room now buffers = elim (buffer_of room buffers) [
  | [] ↦ (buffers, [])
  | (p ∷ ps) ↦ (delete room buffers, keep (is_young now) (p ∷ ps))
]

-- A round of its loop, at a later time: the statement gets that time.
abbrev pub at_time : ℕ → PendingStatement → PendingStatement
at_time now p = record p { timestamp = now }

-- A statement with the state of the connection and of the socket when it is first sent.
pub record Call : Type 0 where
  pub statement : PendingStatement
  pub connected : Bool
  pub throws : Bool

unfoldable pub send_all : String → List Call → Buffers → Buffers
unfolding send_statement
send_all room [] buffers = buffers
send_all room (c ∷ cs) buffers =
    send_all room cs (send_statement room c.statement 0 c.connected c.throws buffers).0

-- A round of the loop: its call, and the other statements that are sent while it waits.
pub record Round : Type 0 where
  pub statement : PendingStatement
  pub now : ℕ
  pub connected : Bool
  pub throws : Bool
  pub others : List Call

-- The loop of `flushStatementBuffer`
unfoldable pub flush_rounds : String → List Round → Buffers → Buffers × List Sending
unfolding send_statement send_all
flush_rounds room [] buffers = (buffers, [])
flush_rounds room (r ∷ rest) buffers =
    let (kept, sending) =
      send_statement room (at_time r.now r.statement) 0 r.connected r.throws buffers in
    let (last, sendings) = flush_rounds room rest (send_all room r.others kept) in
    (last, sending ∷ sendings)

-- `injectMockStatements`
unfoldable pub inject_mock_statements : String → List PendingStatement → Buffers → Buffers
inject_mock_statements room ps buffers = set room (buffer_of room buffers ++ ps) buffers

-- `getFormattedTranscript`
abbrev pub transcript_line : PendingStatement → Text
transcript_line p = p.speaker ++ 58 ∷ 32 ∷ p.text

unfoldable pub join_lines : List Text → Text
join_lines [] = []
join_lines (l ∷ ls) = elim ls [ [] ↦ l | (m ∷ ms) ↦ l ++ 10 ∷ join_lines ls ]

unfoldable pub get_formatted_transcript : String → Buffers → Text
unfolding join_lines
get_formatted_transcript room buffers = join_lines (map transcript_line (buffer_of room buffers))

-- `clearBuffer`
abbrev pub clear_buffer : String → Buffers → Buffers
clear_buffer room buffers = delete room buffers

-- `getBufferStatus`: the number, and the age of the oldest unless its time is 0
unfoldable pub get_buffer_status : String → ℕ → Buffers → ℕ × Option ℕ
get_buffer_status room now buffers = elim (buffer_of room buffers) [
  | [] ↦ (0, none)
  | (p ∷ ps) ↦ (length (p ∷ ps), if p.timestamp == 0 then none else some (now - p.timestamp))
]

abbrev pub delayed : ℕ → Option (Buffers × List ℕ × Sending) → Option (Buffers × List ℕ × Sending)
delayed delay none = none
delayed delay (some (buffers, delays, last)) = some (buffers, delay ∷ delays, last)

abbrev pub follow :
    (ℕ → Buffers → Option (Buffers × List ℕ × Sending))
    → Buffers × Sending
    → Option (Buffers × List ℕ × Sending)
follow again (kept, is_tried_again k delay) = delayed delay (again k kept)
follow again (kept, stays_in_buffer) = some (kept, [], stays_in_buffer)
follow again (kept, is_sent m) = some (kept, [], is_sent m)
follow again (kept, is_given_up) = some (kept, [], is_given_up)

-- The attempts that follow one another by their timers, while the connection lasts, with the times
-- of the attempts: the delays, and what came of the last attempt; none without fuel.
unfoldable pub tries :
    ℕ
    → String
    → PendingStatement
    → ℕ
    → (ℕ → ℕ)
    → (ℕ → Bool)
    → Buffers
    → Option (Buffers × List ℕ × Sending)
unfolding send_statement
tries zero room p retry_count time throws buffers = none
tries (suc fuel) room p retry_count time throws buffers =
    follow (λ k kept. tries fuel room p k time throws kept)
      (send_statement room (at_time (time retry_count) p) retry_count true (throws retry_count)
        buffers)
