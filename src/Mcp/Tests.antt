-- ===== src/Mcp/Tests.antt =====
-- The clients of the tool servers at concrete inputs.
use aura_new_live_server.Prelude.{
  ℕ, zero, suc, ◌-◌, ◌≡◌, refl, true, Option, none, some, List, [], ◌∷◌, ◌++◌, arith, has, get, set,
  any, list_beq, list_eq, delete, nat_eq, string_eq,
}
use aura_new_live_server.Mcp.Client.{
  Response, resolved, remote_error, Connection, new_connection, send_request, timed_out, settle,
  handle_response, outcome_of, handle_text, handle_stdout, handle_lines, handle_line, is_blank,
  split_lines,
}
use aura_new_live_server.Mcp.Decoder.{to_string, feed, next_byte, first_byte, cut_off, utf16}
use aura_new_live_server.Mcp.Diagrams.{Execution, returned, success, cached, generate_diagram}
use aura_new_live_server.Mcp.Diagrams.Cache.{generate_diagram_again}
use aura_new_live_server.Mcp.Servers.{
  no_clients, started, connect, disconnect, get_connection, output_arrives,
}
use aura_new_live_server.Mcp.Servers.Lifecycle.{output_arrives-reconnected}
use aura_new_live_server.Mcp.Client.Framing.{handle_stdout-append}
use aura_new_live_server.Mcp.Client.Requests.{IsConnection, get-handle_response}
use aura_new_live_server.Mcp.Client.Steps.{
  Reach, here, next, sends, Reach-IsConnection, timed_out_settles,
}

-- A server whose answer to a request is a line with the digit of its identifier.
unfoldable read : List ℕ → Option Response
read [] = none
read (c ∷ _) = some (record { id = c - 48; error = none; result = "answer" })

abbrev two_sent : Connection
two_sent = (send_request "tools/list" (send_request "initialize" new_connection).1).1

abbrev two_sent_Reach : Reach read new_connection two_sent
two_sent_Reach = next (next here (sends "initialize")) (sends "tools/list")

-- The line "2" in two pieces, and the start of another.
abbrev answered : Connection
answered = handle_stdout read (10 ∷ 49 ∷ []) (handle_stdout read (50 ∷ []) two_sent)

answered_settled : get 2 answered.settled ≡ some (resolved "answer")
unfolding handle_stdout handle_text to_string feed next_byte first_byte cut_off handle_lines
    handle_line is_blank split_lines read handle_response settle send_request get set delete
answered_settled = refl

answered_buffer : answered.buffer ≡ 49 ∷ []
unfolding handle_stdout handle_text to_string feed next_byte first_byte cut_off handle_lines
    handle_line is_blank split_lines read handle_response settle send_request get set delete
answered_buffer = refl

-- Three bytes are one character, which two buffers do not give.
decodes_syllable : to_string (234 ∷ 176 ∷ 128 ∷ []) ≡ 44032 ∷ []
unfolding to_string feed next_byte first_byte cut_off utf16
decodes_syllable = refl

decodes_parts : to_string (234 ∷ []) ++ to_string (176 ∷ 128 ∷ []) ≡ 65533 ∷ 65533 ∷ 65533 ∷ []
unfolding to_string feed next_byte first_byte cut_off
decodes_parts = refl

-- The first buffer ends with that character.
handle_stdout-append_example :
    handle_stdout read (50 ∷ 234 ∷ 176 ∷ 128 ∷ 10 ∷ 49 ∷ []) two_sent
    ≡ handle_stdout read (10 ∷ 49 ∷ []) (handle_stdout read (50 ∷ 234 ∷ 176 ∷ 128 ∷ []) two_sent)
unfolding feed next_byte first_byte
handle_stdout-append_example =
    handle_stdout-append read (50 ∷ 234 ∷ 176 ∷ 128 ∷ []) (10 ∷ 49 ∷ []) two_sent refl

Reach-IsConnection_example : IsConnection two_sent
Reach-IsConnection_example = Reach-IsConnection read two_sent_Reach

abbrev failure : Response
failure = record { id = 1; error = some "no such method"; result = "" }

get-handle_response_example :
    get 1 (handle_response failure two_sent).settled ≡ some (remote_error "no such method")
unfolding send_request get set
get-handle_response_example =
    get-handle_response failure 1 two_sent (Reach-IsConnection read two_sent_Reach)

timed_out_settles_example : has 1 (timed_out 1 two_sent).settled ≡ true
unfolding send_request
timed_out_settles_example = timed_out_settles read 1 two_sent_Reach (omega arith) (omega arith)

-- Two transcripts of 102 units that differ in the last one.
unfoldable repeat : ℕ → List ℕ → List ℕ
repeat zero end = end
repeat (suc n) end = 97 ∷ repeat n end

abbrev kanban : List ℕ
kanban = 107 ∷ 97 ∷ 110 ∷ 98 ∷ 97 ∷ 110 ∷ []

-- A tool whose diagram is the transcript.
abbrev copy : List ℕ → List ℕ → ℕ → Execution
copy tool transcript now = returned transcript

abbrev show : ℕ → List ℕ
show n = n ∷ []

abbrev said : ℕ → List ℕ
said last = repeat 101 (last ∷ [])

generate_diagram_again_example :
    (let (result, after) = generate_diagram show copy kanban (said 98) 1000 2000 [] in
      (result ≡ success (said 98))
      × (generate_diagram show copy kanban (said 99) 3000 4000 after ≡ (success (said 98), after)))
unfolding repeat any list_beq cached get
generate_diagram_again_example =
    generate_diagram_again show copy kanban (said 98) (said 99) (said 98) 1000 2000 3000 4000 []
      refl refl refl refl refl (omega arith)

-- The line "1" of the first process, and the second one's connection.
abbrev first_answer : Response
first_answer = record { id = 1; error = none; result = "answer" }

line_of_first : split_lines (to_string (49 ∷ 10 ∷ [])) ≡ ((49 ∷ []) ∷ [], [])
unfolding to_string feed next_byte first_byte cut_off split_lines
line_of_first = refl

output_arrives-reconnected_example :
    let s = (connect "fs" no_clients).1 in
    let again = (connect "fs" (disconnect "fs" s)).1 in
    (c : Connection) × (get_connection "fs" (output_arrives read 1 (49 ∷ 10 ∷ []) again) ≡ some c)
    × (get_connection "fs" again ≡ some started)
    × (get 1 started.settled ≡ none)
    × (get 1 c.settled ≡ some (outcome_of first_answer))
    × (get 1 c.pending_requests ≡ none)
unfolding connect get set read is_blank
output_arrives-reconnected_example =
    output_arrives-reconnected read "fs" 1 (49 ∷ 10 ∷ []) (49 ∷ []) first_answer
      (connect "fs" no_clients).1 refl line_of_first refl refl refl
