-- ===== src/Perplexity/Messages/Absent.antt =====
-- perplexity/perplexity.service.ts: messages for a room that has no session.
use aura_new_live_server.Prelude.{
  ℕ, ◌≡◌, ◌≢◌, refl, inl, inr, String, Option, none, Option-cases, get, get-delete_self, nat_eq,
  string_eq,
}
use aura_new_live_server.Perplexity.{PerplexityAction, PerplexitySession}
use aura_new_live_server.Perplexity.Service.{
  Perplexity, end_session, ended_session, handle_state_update, handle_entropy_report, on_active,
}
use aura_new_live_server.Perplexity.Service.Transcripts.{add_transcript}
use aura_new_live_server.Perplexity.Messages.{
  Message, perplexity_start, perplexity_end, state_update, entropy_report, transcript, unhandled,
  answer, after_transcript, handle_message,
}

pub get-end_session :
    (room : String) (p : Perplexity) → get room (end_session room p).1.sessions ≡ none
unfolding end_session
get-end_session room p = elim (Option-cases (get room p.sessions)) [
  | inl missing ↦ rw (missing, ended_session) missing
  | inr (s, found) ↦ rw (found, ended_session) (get-delete_self room p.sessions)
]

module _ (ask : PerplexitySession → PerplexityAction → Option String) where
  pub handle_message_absent :
      (room : String) (m : Message) (now : ℕ) (p : Perplexity)
      → get room p.sessions ≡ none
      → m ≢ perplexity_start
      → handle_message ask room m now p ≡ (none, p)
  unfolding handle_message answer after_transcript end_session handle_state_update
      handle_entropy_report add_transcript
  handle_message_absent room perplexity_start now p missing other = absurd (other refl)
  handle_message_absent room perplexity_end now p missing other = rw (missing, ended_session)
  handle_message_absent room (state_update u) now p missing other = rw (missing, on_active)
  handle_message_absent room (entropy_report us) now p missing other = rw (missing, on_active)
  handle_message_absent room (transcript id text) now p missing other = rw (missing, on_active)
  handle_message_absent room unhandled now p missing other = refl
