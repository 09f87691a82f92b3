-- ===== src/Study/Scores.antt =====
-- study/study-mode.service.ts: what answers score.
use aura_new_live_server.Prelude.{
  ℕ, zero, suc, ◌+◌, ◌*◌, ◌≡◌, refl, ap, inl, inr, String, true, some, arith, nat_eq, string_eq,
  if◌then◌else◌, Bool-cases, get-set_self, ◌-◌,
}
use aura_new_live_server.Study.{StudyQuiz, StudyParticipant, Study, update, get_study_context}
use aura_new_live_server.Study.Answers.{
  is_right, streak_bonus, score_answer, answering, put_participant, process_answer,
}
use aura_new_live_server.Study.Answers.{AnswerResult, answer_result}
use aura_new_live_server.Study.Histories.{answering-Answers}

-- The participant's new state is read back through the room.
answering-process_answer :
    (room id : String) (a : ℕ) (s : Study) (i : ℕ) (q : StudyQuiz) (p : StudyParticipant)
    → answering room id s ≡ some (i, (q, p))
    → answering room id (process_answer room id a s).0 ≡ some (i, (q, score_answer q a p))
unfolding process_answer answering get_study_context update
answering-process_answer room id a s i q p h =
    let at = answering-Answers room id s i q p h in
    let after = score_answer q a p in
    rw
      (
        h,
        process_answer,
        at.object,
        update,
        at.in_use,
        get-set_self i (put_participant id after at.context) s.objects,
        at.quiz,
        get-set_self id after at.context.participants,
      )
      refl

score_answer-score :
    (q : StudyQuiz) (a : ℕ) (p : StudyParticipant)
    → (score_answer q a p).score ≡ p.score + (answer_result q a (score_answer q a p)).points
unfolding score_answer answer_result
score_answer-score q a p = elim (Bool-cases (is_right q a)) [
  | inl right ↦ rw right (omega arith)
  | inr wrong ↦ rw wrong (omega arith)
]

score_answer-streak :
    (q : StudyQuiz) (a : ℕ) (p : StudyParticipant)
    → (score_answer q a p).streak
      ≡ (if (answer_result q a (score_answer q a p)).is_correct then suc p.streak else 0)
unfolding score_answer answer_result
score_answer-streak q a p = elim (Bool-cases (is_right q a)) [
  | inl right ↦ rw right refl
  | inr wrong ↦ rw wrong refl
]

-- A participant that answers a quiz right again and again.
unfoldable pub repeat_answer : String → String → ℕ → ℕ → Study → Study
repeat_answer room id a zero s = s
repeat_answer room id a (suc n) s = (process_answer room id a (repeat_answer room id a n s)).0

-- Twice the bonuses of the first right answers in a row.
abbrev pub bonuses : ℕ → ℕ
bonuses n = 50 * (n - 1) * (n - 2)

bonuses-suc : (n : ℕ) → bonuses (suc n) ≡ bonuses n + 2 * streak_bonus (suc n)
unfolding streak_bonus
bonuses-suc zero = refl
bonuses-suc (suc zero) = refl
bonuses-suc (suc (suc n)) = grind arith

score_answer-right :
    (q : StudyQuiz) (a : ℕ) (p : StudyParticipant)
    → is_right q a ≡ true
    → ((score_answer q a p).streak ≡ suc p.streak)
      × ((score_answer q a p).score ≡ p.score + q.points + streak_bonus (suc p.streak))
unfolding score_answer
score_answer-right q a p right = rw right (refl, refl)

-- A participant without a streak that answers the current quiz of a hundred points right n times in
-- a row scores n times a hundred points and the bonuses, which make 25 (n - 1) (n - 2), though the
-- quiz is the same one each time.
pub repeat_answer-score :
    (room id : String) (a n : ℕ) (s : Study) (i : ℕ) (q : StudyQuiz) (p : StudyParticipant)
    → answering room id s ≡ some (i, (q, p))
    → is_right q a ≡ true
    → q.points ≡ 100
    → p.streak ≡ 0
    → (p' : StudyParticipant) × (answering room id (repeat_answer room id a n s)
        ≡ some (i, (q, p')))
      × (p'.streak ≡ n)
      × (2 * p'.score ≡ 2 * (p.score + 100 * n) + bonuses n)
unfolding repeat_answer
repeat_answer-score room id a zero s i q p h right worth fresh = (p, h, fresh, omega arith)
repeat_answer-score room id a (suc n) s i q p h right worth fresh =
    let (before, found, streak, score) =
      repeat_answer-score room id a n s i q p h right worth fresh in
    let (longer, more) = score_answer-right q a before right in
    (
      score_answer q a before,
      answering-process_answer room id a (repeat_answer room id a n s) i q before found,
      omega (arith, longer, streak),
      omega (arith, more, score, worth, bonuses-suc n, ap (λ k. streak_bonus (suc k)) streak),
    )

-- Where an answer is accepted, the points that are reported are those that the participant gains,
-- and a right answer makes the streak longer by one while a wrong one ends it.
pub process_answer-score :
    (room id : String) (a : ℕ) (s : Study) (i : ℕ) (q : StudyQuiz) (p : StudyParticipant)
    → answering room id s ≡ some (i, (q, p))
    → (r : AnswerResult) × (p' : StudyParticipant) × ((process_answer room id a s).1 ≡ some r)
      × (answering room id (process_answer room id a s).0 ≡ some (i, (q, p')))
      × (p'.score ≡ p.score + r.points)
      × (p'.streak ≡ (if r.is_correct then suc p.streak else 0))
unfolding process_answer
process_answer-score room id a s i q p h =
    let after = score_answer q a p in
    (
      answer_result q a after,
      after,
      rw (h, process_answer) refl,
      answering-process_answer room id a s i q p h,
      score_answer-score q a p,
      score_answer-streak q a p,
    )
