-- ===== src/Perplexity/Service/Limits.antt =====
-- perplexity/perplexity.service.ts: the limit of `tryPropagate` and the protection of states that a text
-- has shown.
use aura_new_live_server.Prelude.{
  ℕ, ◌+◌, ◌<◌, ◌≡◌, refl, sym, ◌∙◌, ap, inl, inr, String, true, false, Option, none, some, List, [],
  ◌∷◌, arith, ltb, ◌==◌, nat_eq, string_eq, Bool-cases, get, get-set_ne, get-set_self,
}
use aura_new_live_server.Perplexity.{
  CognitiveState, Ratio, ParticipantCell, PerplexitySession, WfcConstraint, PropagationResult,
  ReportedState,
}
use aura_new_live_server.Perplexity.Wfc.{update_session_entropy}
use aura_new_live_server.Perplexity.Service.{
  Perplexity, try_propagate, propagated, observe, on_active, report_cell, report_cells,
  handle_entropy_report, is_protected,
}

-- After a propagation, every attempt on the session within the next half second answers nothing and
-- changes nothing, whatever the rules are then.
pub try_propagate_twice :
    (s : PerplexitySession) (now later : ℕ) (rules rules' : List WfcConstraint)
    (r : PropagationResult)
    → (try_propagate s now rules).0 ≡ some r
    → later < now + 500
    → let s' = (try_propagate s now rules).1 in try_propagate s' later rules' ≡ (none, s', rules')
unfolding try_propagate
try_propagate_twice s now later rules rules' r ran soon =
    elim (Bool-cases (ltb now (s.last_propagation + 500))) [
      | inl early ↦ absurd (ground arith)
      | inr due ↦ rw due (let again : ltb later (now + 500) ≡ true = ground arith in rw again)
    ]

observe-protected :
    (id j : String) (cell c : ParticipantCell) (state : Option CognitiveState) (confidence : Ratio)
    (now : ℕ) (s : PerplexitySession)
    → get j s.participants ≡ some c
    → (id == j) ≡ false
    → get j (observe id cell state confidence now s).participants ≡ some c
unfolding observe
observe-protected id j cell c none confidence now s found other = found
observe-protected id j cell c (some state) confidence now s found other =
    get-set_ne id j _ s.participants other ∙ found

report_cell-protected :
    (j : String) (c : ParticipantCell) (reported : Option ParticipantCell) (u : ReportedState)
    (now : ℕ) (s : PerplexitySession)
    → get u.participant_id s.participants ≡ reported
    → get j s.participants ≡ some c
    → is_protected c now ≡ true
    → get j (report_cell reported u now s).participants ≡ some c
unfolding report_cell
report_cell-protected j c none u now s e found guarded = found
report_cell-protected j c (some cell) u now s e found guarded =
    elim (Bool-cases (is_protected cell now)) [
      | inl held ↦ rw held found
      | inr free ↦ rw free (elim (Bool-cases (u.participant_id == j)) [
        | inl same ↦
            let same_id : u.participant_id ≡ j = (string_eq.equals_iff u.participant_id j).0 same in
            let same_cell : some cell ≡ some c =
              sym e ∙ ap (λ k. get k s.participants) same_id ∙ found in
            absurd (ground arith)
        | inr other ↦ observe-protected u.participant_id j cell c u.state _ now s found other
      ])
    ]

report_cells-protected :
    (us : List ReportedState) (j : String) (c : ParticipantCell) (now : ℕ) (s : PerplexitySession)
    → get j s.participants ≡ some c
    → is_protected c now ≡ true
    → get j (report_cells us now s).participants ≡ some c
unfolding report_cells
report_cells-protected [] j c now s found guarded = found
report_cells-protected (u ∷ us) j c now s found guarded =
    report_cells-protected us j c now _ (report_cell-protected j c _ u now s refl found guarded)
      guarded

propagated-participants :
    (room : String) (s : PerplexitySession) (now : ℕ) (p : Perplexity)
    → (s' : PerplexitySession) × (get room (propagated room s now p).1.sessions ≡ some s')
      × (s'.participants ≡ s.participants)
unfolding propagated try_propagate
propagated-participants room s now p =
    ((try_propagate s now p.rules).1, get-set_self room _ p.sessions, ground arith)

-- A report of an active session leaves the cell of a participant whose text has shown a state less
-- than five seconds ago, whatever is reported and for whomever.
pub handle_entropy_report_protected :
    (room j : String) (us : List ReportedState) (now : ℕ) (p : Perplexity) (s : PerplexitySession)
    (c : ParticipantCell)
    → get room p.sessions ≡ some s
    → s.is_active ≡ true
    → get j s.participants ≡ some c
    → is_protected c now ≡ true
    → (s' : PerplexitySession) × (get room (handle_entropy_report room us now p).1.sessions
        ≡ some s')
      × (get j s'.participants ≡ some c)
unfolding handle_entropy_report update_session_entropy
handle_entropy_report_protected room j us now p s c found active held guarded =
    let kept = report_cells-protected us j c now s held guarded in
    let (s', stored, same) =
      propagated-participants room (update_session_entropy (report_cells us now s)) now p in
    (s', rw (found, on_active) (simp active stored), ap (λ m. get j m) same ∙ kept)
