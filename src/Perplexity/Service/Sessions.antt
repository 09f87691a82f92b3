-- ===== src/Perplexity/Service/Sessions.antt =====
-- perplexity/perplexity.service.ts: the invariant of the sessions.
use aura_new_live_server.Prelude.{
  ℕ, ◌+◌, ◌≤◌, ◌≡◌, refl, inl, inr, String, Option, none, some, List, [], ◌∷◌, arith, ltb, nat_eq,
  string_eq, Bool-cases, Option-cases, length, Table, get, AllValues, AllValues-set,
  AllValues-delete, AllValues-get,
}
use aura_new_live_server.Perplexity.{
  CognitiveState, Ratio, ParticipantCell, PerplexitySession, ReportedState,
}
use aura_new_live_server.Perplexity.Wfc.{update_session_entropy}
use aura_new_live_server.Perplexity.Wfc.Cells.{IsCell, collapse_state-IsCell}
use aura_new_live_server.Perplexity.Wfc.Collapse.{calculate_session_entropy-le}
use aura_new_live_server.Perplexity.Service.{
  Perplexity, put_session, start_session, end_session, ended_session, propagated, observe,
  report_cell, report_cells, is_protected,
}
use aura_new_live_server.Perplexity.Service.Transcripts.{max_transcripts}

-- The cells are well formed, at most 50 transcripts are kept, and the entropy is at most 1.
pub record IsSession (s : PerplexitySession) : Type 0 where
  pub cells : AllValues IsCell s.participants
  pub bounded : length s.recent_transcripts ≤ max_transcripts
  pub unit : s.session_entropy.num ≤ s.session_entropy.den

abbrev pub IsService : Perplexity → Type 0
IsService p = AllValues IsSession p.sessions

pub put_session-IsService :
    (room : String) (s : PerplexitySession) (p : Perplexity)
    → IsSession s
    → IsService p
    → IsService (put_session room s p)
put_session-IsService room s p v h = AllValues-set IsSession room s p.sessions v h

pub start_session-IsService :
    (room : String) (now : ℕ) (p : Perplexity)
    → IsService p
    → IsService (start_session room now p).1
unfolding start_session
start_session-IsService room now p h =
    put_session-IsService room _ p
      (record { cells = tt; bounded = omega arith; unit = omega arith }) h

pub end_session-IsService :
    (room : String) (p : Perplexity) → IsService p → IsService (end_session room p).1
unfolding end_session
end_session-IsService room p h = elim (Option-cases (get room p.sessions)) [
  | inl missing ↦ rw (missing, ended_session) h
  | inr (s, found) ↦ rw (found, ended_session) (AllValues-delete IsSession room p.sessions h)
]

-- A change of the cells by cells that are well formed.
pub with_cells :
    (m : Table String ParticipantCell) (s : PerplexitySession)
    → AllValues IsCell m
    → IsSession s
    → IsSession (record s { participants = m })
with_cells m s h v = record { cells = h; bounded = v.bounded; unit = v.unit }

pub observe-IsSession :
    (id : String) (cell : ParticipantCell) (state : Option CognitiveState) (confidence : Ratio)
    (now : ℕ) (s : PerplexitySession)
    → IsCell cell
    → IsSession s
    → IsSession (observe id cell state confidence now s)
unfolding observe
observe-IsSession id cell none confidence now s c v = v
observe-IsSession id cell (some state) confidence now s c v =
    with_cells _ s
      (AllValues-set IsCell id _ s.participants (collapse_state-IsCell cell state confidence now c)
        v.cells)
      v

report_cell-IsSession :
    (found : Option ParticipantCell) (u : ReportedState) (now : ℕ) (s : PerplexitySession)
    → get u.participant_id s.participants ≡ found
    → IsSession s
    → IsSession (report_cell found u now s)
unfolding report_cell
report_cell-IsSession none u now s e v = v
report_cell-IsSession (some cell) u now s e v = elim (Bool-cases (is_protected cell now)) [
  | inl guarded ↦ rw guarded v
  | inr free ↦ rw free (
      observe-IsSession u.participant_id cell u.state _ now s
        (AllValues-get IsCell u.participant_id s.participants v.cells e) v)
]

pub report_cells-IsSession :
    (us : List ReportedState) (now : ℕ) (s : PerplexitySession)
    → IsSession s
    → IsSession (report_cells us now s)
unfolding report_cells
report_cells-IsSession [] now s v = v
report_cells-IsSession (u ∷ us) now s v =
    report_cells-IsSession us now _ (report_cell-IsSession _ u now s refl v)

pub update_session_entropy-IsSession :
    (s : PerplexitySession) → IsSession s → IsSession (update_session_entropy s)
unfolding update_session_entropy
update_session_entropy-IsSession s v = record {
  cells = v.cells;
  bounded = v.bounded;
  unit = (calculate_session_entropy-le s v.cells).0;
}

pub propagated-IsService :
    (room : String) (s : PerplexitySession) (now : ℕ) (p : Perplexity)
    → IsSession s
    → IsService p
    → IsService (propagated room s now p).1
unfolding propagated
propagated-IsService room s now p v h = elim (Bool-cases (ltb now (s.last_propagation + 500))) [
  | inl soon ↦ rw soon (put_session-IsService room s p v h)
  | inr later ↦ rw later (
      put_session-IsService room _ p
        (record { cells = v.cells; bounded = v.bounded; unit = v.unit }) h)
]
