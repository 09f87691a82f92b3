-- ===== src/Study/Answers.antt =====
-- study/study-mode.service.ts: answers to a quiz, follow-up questions and the report.
use aura_new_live_server.Prelude.{
  sort_by, place, ℕ, suc, ◌+◌, ◌-◌, ◌*◌, ◌/◌, ◌%◌, String, Bool, true, false, Option, none, some,
  List, [], ◌∷◌, ltb, leb, ◌==◌, if◌then◌else◌, nat_eq, string_eq, Table, get, set, delete, values,
  ◌>>=◌,
}
use aura_new_live_server.Study.{
  StudyQuiz, StudyParticipant, StudyContext, Study, update, get_study_context,
}

pub record AnswerResult : Type 0 where
  pub is_correct : Bool
  pub points : ℕ
  pub explanation : String

abbrev pub is_right : StudyQuiz → ℕ → Bool
is_right quiz answer_index = elim quiz.correct_index [ none ↦ false | some i ↦ answer_index == i ]

-- The bonus of three or more right answers in a row.
unfoldable pub streak_bonus : ℕ → ℕ
streak_bonus streak = if leb 3 streak then 50 * (streak - 2) else 0

-- What `processAnswer` writes to the participant.
unfoldable pub score_answer : StudyQuiz → ℕ → StudyParticipant → StudyParticipant
unfolding streak_bonus
score_answer quiz answer_index p =
    let streak = suc p.streak in
    if is_right quiz answer_index
    then record p {
      total_answers = suc p.total_answers;
      correct_answers = suc p.correct_answers;
      score = p.score + quiz.points + streak_bonus streak;
      streak = streak;
      last_answer_correct = true;
    }
    else record p { total_answers = suc p.total_answers; streak = 0; last_answer_correct = false }

-- What it returns, for the participant that was written.
unfoldable pub answer_result : StudyQuiz → ℕ → StudyParticipant → AnswerResult
unfolding streak_bonus
answer_result quiz answer_index p = record {
  is_correct = is_right quiz answer_index;
  points = if is_right quiz answer_index then quiz.points + streak_bonus p.streak else 0;
  explanation = quiz.explanation;
}

-- The context, the quiz and the participant of an answer, none where `processAnswer` returns null.
unfoldable pub answering : String → String → Study → Option (ℕ × (StudyQuiz × StudyParticipant))
unfolding get_study_context
answering room id s = do
  (i, c) ← get_study_context room s
  quiz ← c.current_quiz
  p ← get id c.participants
  some (i, (quiz, p))

abbrev pub put_participant : String → StudyParticipant → StudyContext → StudyContext
put_participant id p c = record c { participants = set id p c.participants }

-- `processAnswer`
unfoldable pub process_answer : String → String → ℕ → Study → Study × Option AnswerResult
unfolding answering update score_answer answer_result
process_answer room id answer_index s = elim (answering room id s) [
  | none ↦ (s, none)
  | some (i, (quiz, p)) ↦
      let after = score_answer quiz answer_index p in
      (update i (put_participant id after) s, some (answer_result quiz answer_index after))
]

-- `generateFollowUpQuestion` once the language model has answered: the question, where it says that
-- one should be asked.
unfoldable pub follow_up_asked : ℕ → Option String → Study → Study
unfolding update
follow_up_asked i none s = s
follow_up_asked i (some question) s =
    update i (λ c. record c { follow_up_question = some question }) s

-- The points go to the participant that joined last.
unfoldable pub reward_last : ℕ → Table String StudyParticipant → Table String StudyParticipant
reward_last points [] = []
reward_last points ((id, p) ∷ ps) = elim ps [
  | [] ↦ (id, record p { score = p.score + points }) ∷ []
  | q ∷ qs ↦ (id, p) ∷ reward_last points ps
]

-- `evaluateFollowUpAnswer` once the language model has answered with a judgement.
unfoldable pub follow_up_evaluated : ℕ → ℕ → Study → Study
unfolding update reward_last
follow_up_evaluated i points s =
    update i
      (λ c. record c {
        participants = reward_last points c.participants;
        follow_up_question = none;
      })
      s

-- `participants.sort((a, b) => b.score - a.score)`
unfoldable pub by_score : List StudyParticipant → List StudyParticipant
unfolding sort_by place
by_score ps = sort_by (λ p q. ltb p.score q.score) ps

pub record Report : Type 0 where
  pub title : String
  pub minutes : ℕ
  pub seconds : ℕ
  pub participants : List StudyParticipant
  pub quizzes : List StudyQuiz

unfoldable pub report_of : ℕ → StudyContext → Report
unfolding by_score
report_of now c =
    let elapsed = now - c.start_time in
    record {
      title = c.topic;
      minutes = elapsed / 60000;
      seconds = elapsed % 60000 / 1000;
      participants = by_score (values c.participants);
      quizzes = c.quiz_history;
    }

-- `generateReport`, without the sentence of its summary
unfoldable pub generate_report : String → ℕ → Study → Option Report
unfolding get_study_context report_of
generate_report room now s = do (i, c) ← get_study_context room s; some (report_of now c)

-- `cleanup`
unfoldable pub cleanup : String → Study → Study
cleanup room s = record s { study_contexts = delete room s.study_contexts }
