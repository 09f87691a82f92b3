-- ===== src/Perplexity/Messages/Histories.antt =====
-- perplexity/perplexity.service.ts: sequences of messages, arrivals and departures, over any rooms.
use aura_new_live_server.Prelude.{
  ℕ, ◌≡◌, ◌≢◌, refl, inl, inr, String, Option, none, some, List, [], ◌∷◌, nat_eq, string_eq,
  Option-cases, get, AllValues-get,
}
use aura_new_live_server.Perplexity.{
  CognitiveState, PerplexityAction, PerplexitySession, PropagationResult,
}
use aura_new_live_server.Perplexity.Service.{
  Perplexity, init, add_participant, remove_participant, end_session,
}
use aura_new_live_server.Perplexity.Messages.Absent.{handle_message_absent, get-end_session}
use aura_new_live_server.Perplexity.Service.Sessions.{
  IsSession, IsService, start_session-IsService, end_session-IsService,
}
use aura_new_live_server.Perplexity.Service.Handlers.{
  handle_state_update-IsService, handle_entropy_report-IsService, add_transcript-IsService,
  entropy_propagated-IsService, add_participant-IsService, remove_participant-IsService,
}
use aura_new_live_server.Perplexity.Messages.{
  Message, perplexity_start, perplexity_end, state_update, entropy_report, transcript, unhandled,
  answer, after_transcript, handle_message,
}

pub data Happening : Type 0 where
  says : (room : String) → Message → (now : ℕ) → Happening
  joins : (room id name : String) (now : ℕ) → Happening
  leaves : (room id : String) → Happening

module _ (ask : PerplexitySession → PerplexityAction → Option String) where
  answer-state :
      (room : String) (r : Option PropagationResult × Perplexity) → (answer ask room r).1 ≡ r.1
  unfolding answer
  answer-state room (none, p) = refl
  answer-state room (some r, p) = refl

  after_transcript-IsService :
      (room : String) (now : ℕ) (r : Option CognitiveState × Perplexity)
      → IsService r.1
      → IsService (after_transcript ask room now r).1
  unfolding after_transcript
  after_transcript-IsService room now (none, p) h = h
  after_transcript-IsService room now (some state, p) h =
      elim (Option-cases (get room p.sessions)) [
        | inl missing ↦ rw (missing, after_transcript) h
        | inr (s, found) ↦
            rw (found, after_transcript)
              (rw (answer-state room _) (entropy_propagated-IsService room now p s found h))
      ]

  -- Every message keeps the sessions well formed.
  pub handle_message-IsService :
      (room : String) (m : Message) (now : ℕ) (p : Perplexity)
      → IsService p
      → IsService (handle_message ask room m now p).1
  unfolding handle_message
  handle_message-IsService room perplexity_start now p h = start_session-IsService room now p h
  handle_message-IsService room perplexity_end now p h = end_session-IsService room p h
  handle_message-IsService room (state_update u) now p h =
      rw (answer-state room _) (handle_state_update-IsService room u now p h)
  handle_message-IsService room (entropy_report us) now p h =
      rw (answer-state room _) (handle_entropy_report-IsService room us now p h)
  handle_message-IsService room (transcript id text) now p h =
      after_transcript-IsService room now _ (add_transcript-IsService room id text now p h)
  handle_message-IsService room unhandled now p h = h

  -- After the end of a session, every message for the room but the one that starts a session
  -- answers nothing and changes nothing.
  pub handle_message_ended :
      (room : String) (m : Message) (now : ℕ) (p : Perplexity)
      → m ≢ perplexity_start
      → let p' = (end_session room p).1 in handle_message ask room m now p' ≡ (none, p')
  handle_message_ended room m now p other =
      handle_message_absent ask room m now (end_session room p).1 (get-end_session room p) other

  unfoldable pub step : Perplexity → Happening → Perplexity
  step p (says room m now) = (handle_message ask room m now p).1
  step p (joins room id name now) = add_participant room id name now p
  step p (leaves room id) = remove_participant room id p

  unfoldable pub run : Perplexity → List Happening → Perplexity
  run p [] = p
  run p (h ∷ hs) = run (step p h) hs

  step-IsService : (p : Perplexity) (h : Happening) → IsService p → IsService (step p h)
  unfolding step
  step-IsService p (says room m now) v = handle_message-IsService room m now p v
  step-IsService p (joins room id name now) v = add_participant-IsService room id name now p v
  step-IsService p (leaves room id) v = remove_participant-IsService room id p v

  run-IsService : (p : Perplexity) (hs : List Happening) → IsService p → IsService (run p hs)
  unfolding run
  run-IsService p [] v = v
  run-IsService p (h ∷ hs) v = run-IsService (step p h) hs (step-IsService p h v)

  -- Whatever messages, arrivals and departures follow the start, every session keeps at most 50
  -- transcripts, its entropy is at most 1, and the possible states of each participant are
  -- distinct, with an entropy that is their number in sixths, or 0 where one state is left.
  pub run-IsSession :
      (hs : List Happening) (room : String) (s : PerplexitySession)
      → get room (run init hs).sessions ≡ some s
      → IsSession s
  run-IsSession hs room s found =
      AllValues-get IsSession room (run init hs).sessions (run-IsService init hs tt) found
