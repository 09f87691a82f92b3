-- ===== src/Study/Ranking.antt =====
-- study/study-mode.service.ts: the order of the participants in a report.
use mathlib.Core.List.{Perm}
use aura_new_live_server.Prelude.{
  IsSorted, sort_by-IsSorted, sort_by-perm, ℕ, ◌≤◌, ◌≡◌, refl, String, some, List, arith, ltb,
  values, string_eq, nat_eq,
}
use aura_new_live_server.Study.{StudyParticipant, StudyContext, Study, get_study_context}
use aura_new_live_server.Study.Answers.{by_score, Report, report_of, generate_report}

-- Every participant has the score of each one after it at least.
abbrev pub IsRanked : List StudyParticipant → Type 0
IsRanked = IsSorted (λ (p q : StudyParticipant). q.score ≤ p.score)

by_score-IsRanked : (ps : List StudyParticipant) → IsRanked (by_score ps)
unfolding by_score
by_score-IsRanked ps =
    sort_by-IsSorted (λ (p q : StudyParticipant). q.score ≤ p.score)
      (λ p q r a b. omega (arith, a, b)) (λ p q. ltb p.score q.score) (λ p q h. ground (arith, h))
      (λ p q h. ground (arith, h)) ps

by_score-perm : (ps : List StudyParticipant) → Perm (by_score ps) ps
unfolding by_score
by_score-perm ps = sort_by-perm (λ p q. ltb p.score q.score) ps

-- The report of a room with a context has each participant of that context once, by falling score,
-- and the quizzes of its history.
pub generate_report-IsRanked :
    (room : String) (now i : ℕ) (s : Study) (c : StudyContext)
    → get_study_context room s ≡ some (i, c)
    → (r : Report) × (generate_report room now s ≡ some r)
      × IsRanked r.participants
      × Perm r.participants (values c.participants)
      × (r.quizzes ≡ c.quiz_history)
unfolding generate_report report_of
generate_report-IsRanked room now i s c h = (
  report_of now c,
  rw (h, generate_report) refl,
  by_score-IsRanked (values c.participants),
  by_score-perm (values c.participants),
  refl,
)
