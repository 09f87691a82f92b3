-- ===== src/Lib.antt =====
-- Verification of the AURA live server: the timer tool, the perplexity mode, the clients of the MCP
-- servers and the diagram cache, the study mode, the guards of the routes, the filters of the
-- proactive insights and the opinions, the client of the retrieval server, what the voice bot keeps of
-- a room, the recordings, and parts of the intent classifier.
--
-- The parts of the program and the files that model them (paths from the repository's root):
--
-- - Timer: the timers of the rooms in src/mcp/tools/timer.tool.ts. Its state `Timers` has the two
--   module-level maps `timerStore` and `timerIntervals`, the live intervals of the runtime by their
--   handle (`setInterval` adds one, `clearInterval` removes it) and the calls of the notify callback.
--   `start_timer`, `pause_timer`, `resume_timer`, `extend_timer`, `stop_timer` and `get_timer_status`
--   are the functions of these names, `tick` is the callback that three of them give to
--   `setInterval`, and `fire` is the runtime's call of it. Timer.Command has `timerTool.execute`, the
--   defaults of its options included. Timer.Intervals, Timer.Invariant and Timer.Ticks are about
--   its invariant, Timer.Histories runs any sequence of commands and rounds, Timer.Countdown and
--   Timer.Endings follow one timer from its start to its end, Timer.Commands compares commands.
-- - Perplexity: the types of src/perplexity/perplexity.types.ts. Perplexity.Wfc (with Cells and
--   Collapse) and Perplexity.Propagate (with Choice and Cooldown) have the functions and the rules of
--   src/perplexity/wfc-engine.service.ts; Perplexity.Service (with Transcripts, Sessions, Handlers and
--   Limits) and Perplexity.Messages (with Absent and Histories) those of
--   src/perplexity/perplexity.service.ts. The state `Perplexity` has the map of the sessions and the
--   rules, whose `lastTriggered` the engine writes; a session is one record that the service
--   replaces where the source writes its fields.
-- - Mcp.Client: one connection of src/mcp/client/mcp-client.service.ts, from the request that is sent to
--   the promise that is settled: `send_request`, `write_failed` and `timed_out` (the two callbacks of
--   `sendRequest`), `handle_stdout` and `handle_response`. Mcp.Decoder has the decoding of the bytes of
--   one buffer, Mcp.Client.Framing is about the lines of the output, Mcp.Client.Requests and
--   Mcp.Client.Steps about the requests. Mcp.Servers has the connections by name with `connect`,
--   `disconnect` and the handlers of the processes, each with the name that it was started for, and
--   the configured servers of src/mcp/client/mcp-config.service.ts; Mcp.Diagrams has the cache of
--   src/mcp/mcp.service.ts.
-- - Study: src/study/study-mode.service.ts. Contexts are objects with a reference, since a call that
--   waits for the language model keeps the context it began with. Such a call is two operations, the
--   checks before the request (`ask_quiz`, `ask_surprise_quiz`) and the writes after the answer
--   (`quiz_answered`, `follow_up_asked`, `follow_up_evaluated`), so that calls may overlap.
--   Study.Answers has the answers, the follow-up questions and the report.
-- - Auth: src/auth/guards/jwt-auth.guard.ts, src/auth/guards/room-access.guard.ts and
--   src/auth/services/room-access.service.ts, from a request to its user or to the exception.
-- - Proactive: the filter and the cooldowns of src/agent/proactive/proactive-analysis.service.ts.
-- - Opinion: src/agent/evidence/opinion.service.ts, with the best match of the evidence repository as an
--   argument. Opinion.Cooldown is about single calls, Opinion.Repeats about sequences of them.
-- - Rag: src/rag/rag-client.service.ts. Rag.Connections has the sockets by an identifier, the connection,
--   the count of attempts and the reconnection timer of each room; each event of a socket and each
--   firing of a timer is an operation. Rag has the promises, by an identifier, with their timers and
--   what they are settled with, and the requests that each socket's context waits for; Rag.Messages
--   has the answers, the reports and the disconnection. Rag.Statements has the buffer of the statements
--   with its flush and the attempts to send one. Rag.Outages and Rag.Reconnection are
--   about outages, Rag.Settling and Rag.Histories about the promises of every reachable client,
--   Rag.Promises, Rag.Repeated, Rag.Reports and Rag.Disconnection about single requests, Rag.Buffers
--   and Rag.Flushes about the statements.
-- - Voice: parts of src/livekit/voice-bot.service.ts, each with the fields of the room's context that it
--   uses: Voice.Conversation the history of the conversation (about it Voice.Turns), Voice.Screens the
--   captures of the screen (Voice.Captures), Voice.Speaking the speaking statistics (Voice.Alerts),
--   Voice.Silence the check for silent participants (Voice.Silences), Voice.Wav the header of a sound
--   file (Voice.Waves), Voice.Diagrams the contexts of the diagrams (Voice.Statements).
-- - Recording: src/recording/recording.service.ts, with the recordings that run on the server;
--   Recording.Metadata has what is stored beside a recording, Recording.Overlaps is about overlapping
--   starts, with the stops that wait for the server.
-- - Intent: parts of src/intent/intent-classifier.service.ts. Intent.Patterns is the fragment of regular
--   expressions that the timer commands of Intent.Commands use, with the order in which a match is
--   tried; Intent.Durations is about a command with a number. Intent.Hangul takes syllables apart and
--   compares texts by their letters, Intent.Similarity is about that.
-- - Prelude: tests, equality as an interface, list functions on native numbers, and the language's `Map`
--   as a table of entries in order of insertion. The modules Tests of each part evaluate the
--   definitions at concrete inputs.
--
-- How the parts interact: the perplexity service runs the engine's rules after each message, within the
-- limit of half a second for each session; the MCP service asks the clients by the name of a server; the
-- timer tool is one of the tools of the MCP service; the voice bot hashes with the proactive analysis
-- and sends statements and questions to the client of the retrieval server. The other services of the
-- program call these ones over their public functions only.
--
-- Numbers: minutes, seconds, milliseconds, counts and points are natural numbers without an upper bound;
-- where the source goes below zero (`remainingSeconds--`) the model tests the value before. Options of
-- the timer tool are natural numbers, and 0 is as good as missing, as with `||`. Differences of times
-- stop at 0: no clock goes backward. The entropy of a cell is its number of sixths; confidences and the
-- entropy of a session are ratios, so that the rounding of floating point is left out: a comparison
-- agrees with the source's except at a tie that rounding moves. Texts that are taken apart are lists of
-- UTF-16 code units, others are strings. All recursion is on lists and on counts of rounds, but for two
-- loops over timers that run on fuel: an outage (`outage` of Rag.Outages), for which four rounds
-- are enough, as at most three attempts are made, and the attempts to send a statement (`tries` of
-- Rag.Statements), of which there are at most four.
--
-- Parameters, for what is not the program's: the answers of the language model (`ask` of
-- Perplexity.Messages, trimmed and cut to a line, and the answers given to the operations of Study and
-- Proactive), `JSON.parse` on a line (`parse` of Mcp.Client), the way a number is written (`show` of
-- Mcp.Diagrams), `jwt.verify` and the service of the rooms (Auth). The execution of a diagram tool is
-- the parameter `execute` of Mcp.Diagrams. The sockets of the retrieval server are modelled by their
-- events; whether a call of `send` throws is an argument, as is whether a request to the object store
-- fails. The hash of the texts (`md5` of Voice.Screens) and the lower case of a text (`to_lower_case` of
-- Voice.Diagrams) are parameters too.
--
-- Not modelled: the prompts and the logs; of the voice bot the audio streams, the states of the bot
-- and its timers, vision and standby; of the intent classifier the other regular expressions; the
-- room controllers, speech in and out, the generated protocol code, the agent router, the evidence
-- repository, vision, search, calendar, translation and upload, which are large services around
-- network calls; the HTTP calls of the retrieval client; the settings of a recording on the server;
-- the diagram tools; the keyword detection of the study mode and the sentence of its report, which
-- rest on regular expressions and on rounding.
pub mod Prelude
pub mod Timer
pub mod Perplexity
pub mod Mcp
pub mod Study
pub mod Auth
pub mod Proactive
pub mod Opinion
pub mod Rag
pub mod Voice
pub mod Intent
pub mod Recording
