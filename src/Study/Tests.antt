-- ===== src/Study/Tests.antt =====
-- Study rooms at concrete inputs.
use aura_new_live_server.Prelude.{
  ℕ, ◌+◌, ◌*◌, ◌≡◌, refl, ap, false, Option, none, some, List, [], ◌∷◌, arith, get, set, string_eq,
  nat_eq, if◌then◌else◌,
}
use aura_new_live_server.Study.{
  StudyQuiz, StudyParticipant, StudyContext, Study, new_context, QuizData, init, update,
  get_study_context, start_study_mode, add_participant, ask_quiz, quiz_answered, join,
}
use aura_new_live_server.Study.Answers.{answering, process_answer, AnswerResult, score_answer}
use aura_new_live_server.Study.Invariant.{IsStudy}
use aura_new_live_server.Study.Histories.{
  Happening, starts, joins, quiz_arrives, answers, run, step, run-IsStudy,
}
use aura_new_live_server.Study.Scores.{
  repeat_answer, bonuses, repeat_answer-score, process_answer-score,
}
use aura_new_live_server.Study.Quizzes.{
  Round, generate_quizzes, IsLimited, generate_quizzes-IsLimited,
}

abbrev question : QuizData
question = record {
  question = "What is a heap?";
  options = "a tree" ∷ "a list" ∷ [];
  correct_index = some 0;
  explanation = "a tree whose parents are smaller";
  topic = none;
}

abbrev history : List Happening
history =
    starts "room" "heaps" 300 100000
    ∷ joins "room" "ann" "Ann"
    ∷ joins "room" "bob" "Bob"
    ∷ quiz_arrives 1 none (some question) 200000
    ∷ answers "room" "ann" 1
    ∷ answers "room" "bob" 0
    ∷ []

abbrev session : Study
session = run init history

run-IsStudy_example : IsStudy session
run-IsStudy_example = run-IsStudy history

abbrev quiz : StudyQuiz
quiz = record {
  id = 200000;
  question = question.question;
  options = question.options;
  correct_index = some 0;
  explanation = question.explanation;
  points = 100;
  topic = "heaps";
}

abbrev ann : StudyParticipant
ann = record {
  participant_id = "ann";
  participant_name = "Ann";
  score = 0;
  correct_answers = 0;
  total_answers = 1;
  streak = 0;
  last_answer_correct = false;
}

answering-ann : answering "room" "ann" session ≡ some (1, (quiz, ann))
unfolding run step start_study_mode add_participant quiz_answered process_answer answering
    get_study_context update join score_answer get set
answering-ann = refl

repeat_answer-score_example :
    (p : StudyParticipant) × (answering "room" "ann" (repeat_answer "room" "ann" 0 4 session)
      ≡ some (1, (quiz, p)))
    × (p.streak ≡ 4)
    × (2 * p.score ≡ 2 * (0 + 100 * 4) + bonuses 4)
repeat_answer-score_example =
    repeat_answer-score "room" "ann" 0 4 session 1 quiz ann answering-ann refl refl refl

process_answer-score_example :
    (r : AnswerResult) × (p : StudyParticipant) × ((process_answer "room" "ann" 0 session).1
      ≡ some r)
    × (answering "room" "ann" (process_answer "room" "ann" 0 session).0 ≡ some (1, (quiz, p)))
    × (p.score ≡ 0 + r.points)
    × (p.streak ≡ (if r.is_correct then 1 else 0))
process_answer-score_example = process_answer-score "room" "ann" 0 session 1 quiz ann answering-ann

unfoldable context_of : Option (ℕ × StudyContext) → StudyContext
context_of none = new_context "" 0 0
context_of (some (i, c)) = c

abbrev context : StudyContext
context = context_of (get_study_context "room" session)

in_room : get_study_context "room" session ≡ some (1, context)
unfolding run step start_study_mode add_participant quiz_answered process_answer answering
    get_study_context update join score_answer get set context_of
in_room = refl

admitted : ask_quiz "room" 300000 session ≡ some 1
unfolding run step start_study_mode add_participant quiz_answered process_answer answering
    get_study_context update join score_answer get set ask_quiz
admitted = refl

abbrev another : Round
another = record { asked = 300000; answer = some question; answered = 301000 }

session-IsLimited : IsLimited "room" session
unfolding run step start_study_mode add_participant quiz_answered process_answer answering
    get_study_context update join score_answer get set context_of
session-IsLimited i c h =
    let counted : 1 ≡ c.quiz_count = ap (λ o. (context_of o).quiz_count) h in omega (arith, counted)

generate_quizzes-IsLimited_example :
    IsLimited "room" (generate_quizzes "room" (another ∷ another ∷ []) session)
generate_quizzes-IsLimited_example =
    generate_quizzes-IsLimited "room" (another ∷ another ∷ []) session session-IsLimited
