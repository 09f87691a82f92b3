-- ===== src/Perplexity/Service/Handlers.antt =====
-- perplexity/perplexity.service.ts: the invariant of the sessions through each handler.
use aura_new_live_server.Prelude.{
  ℕ, ◌≤◌, ◌≡◌, refl, inl, inr, String, Option, none, some, List, [], ◌∷◌, ◌++◌, arith, nat_eq,
  string_eq, Bool-cases, Option-cases, length, length-append, drop, has, get, AllValues-set,
  AllValues-delete, AllValues-get,
}
use aura_new_live_server.Perplexity.{
  CognitiveState, Transcript, PerplexitySession, StateUpdate, ReportedState,
}
use aura_new_live_server.Perplexity.Wfc.{update_session_entropy}
use aura_new_live_server.Perplexity.Wfc.Cells.{
  IsCell, collapse_state-IsCell, create_participant_cell-IsCell,
}
use aura_new_live_server.Perplexity.Service.{
  Perplexity, add_participant, with_participant, remove_participant, propagated, state_update,
  on_active, handle_state_update, handle_entropy_report,
}
use aura_new_live_server.Perplexity.Service.Transcripts.{
  max_transcripts, keep_transcript, speak, transcribed, add_transcript, infer_state_from_transcript,
  speak,
}
use aura_new_live_server.Perplexity.Service.Sessions.{
  IsSession, IsService, put_session-IsService, with_cells, observe-IsSession,
  report_cells-IsSession, update_session_entropy-IsSession, propagated-IsService,
}

-- A handler that keeps the service well formed on an active session does so in general.
on_active-IsService {ℓ} :
    {A : Type ℓ} (found : Option PerplexitySession) (p : Perplexity)
    (f : PerplexitySession → Option A × Perplexity)
    → IsService p
    → ((s : PerplexitySession) → found ≡ some s → IsService (f s).1)
    → IsService (on_active found p f).1
unfolding on_active
on_active-IsService none p f h k = h
on_active-IsService (some s) p f h k = elim (Bool-cases s.is_active) [
  | inl on ↦ simp on (k s refl)
  | inr off ↦ simp off h
]

pub handle_state_update-IsService :
    (room : String) (u : StateUpdate) (now : ℕ) (p : Perplexity)
    → IsService p
    → IsService (handle_state_update room u now p).1
unfolding handle_state_update
handle_state_update-IsService room u now p h =
    on_active-IsService (get room p.sessions) p _ h λ s e.
      let v = AllValues-get IsSession room p.sessions h e in
      elim (Option-cases (get u.participant_id s.participants)) [
        | inl missing ↦ rw (missing, state_update) h
        | inr (cell, found) ↦
            rw (found, state_update)
              (propagated-IsService room _ now p
                (observe-IsSession u.participant_id cell u.state u.confidence now s
                  (AllValues-get IsCell u.participant_id s.participants v.cells found) v)
                h)
      ]

pub handle_entropy_report-IsService :
    (room : String) (us : List ReportedState) (now : ℕ) (p : Perplexity)
    → IsService p
    → IsService (handle_entropy_report room us now p).1
unfolding handle_entropy_report
handle_entropy_report-IsService room us now p h =
    on_active-IsService (get room p.sessions) p _ h λ s e.
      propagated-IsService room _ now p
        (update_session_entropy-IsSession _
          (report_cells-IsSession us now s (AllValues-get IsSession room p.sessions h e)))
        h

length-drop_one :
    (t : Transcript) (ts : List Transcript) → length (drop 1 (ts ++ t ∷ [])) ≡ length ts
length-drop_one t [] = refl
length-drop_one t (x ∷ ts) = omega (arith, length-append ts (t ∷ []))

length-keep_transcript :
    (t : Transcript) (ts : List Transcript)
    → length ts ≤ max_transcripts
    → length (keep_transcript t ts) ≤ max_transcripts
unfolding keep_transcript
length-keep_transcript t ts h = ground (arith, length-drop_one t ts, length-append ts (t ∷ []))

speak-IsSession :
    (id : String) (state : Option CognitiveState) (now : ℕ) (s : PerplexitySession)
    → IsSession s
    → IsSession (speak id state now s)
unfolding speak
speak-IsSession id none now s v = v
speak-IsSession id (some state) now s v = elim (Option-cases (get id s.participants)) [
  | inl missing ↦ rw (missing, speak) v
  | inr (cell, found) ↦
      let c =
        collapse_state-IsCell cell state (record { num = 9; den = 10 }) now
          (AllValues-get IsCell id s.participants v.cells found) in
      rw (found, speak)
        (with_cells _ s
          (AllValues-set IsCell id _ s.participants
            (record { distinct = c.distinct; measured = c.measured }) v.cells)
          v)
]

transcribed-IsSession :
    (id text : String) (now : ℕ) (s : PerplexitySession)
    → IsSession s
    → IsSession (transcribed id text now s)
unfolding transcribed
transcribed-IsSession id text now s v =
    speak-IsSession id (infer_state_from_transcript text) now _ (record {
      cells = v.cells;
      bounded = length-keep_transcript _ s.recent_transcripts v.bounded;
      unit = v.unit;
    })

pub add_transcript-IsService :
    (room id text : String) (now : ℕ) (p : Perplexity)
    → IsService p
    → IsService (add_transcript room id text now p).1
unfolding add_transcript
add_transcript-IsService room id text now p h =
    on_active-IsService (get room p.sessions) p _ h λ s e.
      put_session-IsService room _ p
        (transcribed-IsSession id text now s (AllValues-get IsSession room p.sessions h e)) h

pub entropy_propagated-IsService :
    (room : String) (now : ℕ) (p : Perplexity) (s : PerplexitySession)
    → get room p.sessions ≡ some s
    → IsService p
    → IsService (propagated room (update_session_entropy s) now p).1
entropy_propagated-IsService room now p s e h =
    propagated-IsService room _ now p
      (update_session_entropy-IsSession s (AllValues-get IsSession room p.sessions h e)) h

pub add_participant-IsService :
    (room id name : String) (now : ℕ) (p : Perplexity)
    → IsService p
    → IsService (add_participant room id name now p)
unfolding add_participant with_participant
add_participant-IsService room id name now p h = elim (Option-cases (get room p.sessions)) [
  | inl missing ↦ rw (missing, add_participant) h
  | inr (s, found) ↦
      let v = AllValues-get IsSession room p.sessions h found in
      elim (Bool-cases (has id s.participants)) [
        | inl old ↦ rw (found, add_participant) (rw old (put_session-IsService room s p v h))
        | inr new ↦
            rw (found, add_participant)
              (rw new (
                put_session-IsService room _ p
                  (with_cells _ s
                    (AllValues-set IsCell id _ s.participants
                      (create_participant_cell-IsCell id name now) v.cells)
                    v)
                  h))
      ]
]

pub remove_participant-IsService :
    (room id : String) (p : Perplexity) → IsService p → IsService (remove_participant room id p)
unfolding remove_participant
remove_participant-IsService room id p h = elim (Option-cases (get room p.sessions)) [
  | inl missing ↦ rw (missing, remove_participant) h
  | inr (s, found) ↦
      let v = AllValues-get IsSession room p.sessions h found in
      rw (found, remove_participant)
        (put_session-IsService room _ p
          (with_cells _ s (AllValues-delete IsCell id s.participants v.cells) v) h)
]
