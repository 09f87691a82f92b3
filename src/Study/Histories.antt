-- ===== src/Study/Histories.antt =====
-- study/study-mode.service.ts: any sequence of calls and of answers of the language model.
use aura_new_live_server.Prelude.{
  ℕ, ◌≡◌, refl, sym, ap, ◌∙◌, inl, inr, String, false, Option, none, some, List, [], ◌∷◌, arith,
  length, nat_eq, string_eq, Option-cases, bind-some, get, get-delete, AllValues, AllValues-set,
  AllValues-get,
}
use aura_new_live_server.Study.{
  StudyQuiz, StudyParticipant, StudyContext, Study, QuizData, init, get_study_context,
  start_study_mode, end_study_mode, join, add_participant, new_quiz, with_quiz, quiz_answered,
}
use aura_new_live_server.Study.Answers.{
  score_answer, answering, put_participant, process_answer, follow_up_asked, reward_last,
  follow_up_evaluated, cleanup,
}
use aura_new_live_server.Study.Invariant.{
  IsParticipant, IsContext, IsStudy, init-IsStudy, score_answer-IsParticipant, update-IsStudy,
  in_room-IsStudy, start_study_mode-IsStudy, join-IsContext, with_quiz-IsContext,
  reward_last-IsParticipant,
}

-- What an answer refers to.
pub record Answers (room id : String) (s : Study) (i : ℕ) (q : StudyQuiz) (p : StudyParticipant)
    : Type 0 where
  pub context : StudyContext
  pub in_use : get room s.study_contexts ≡ some i
  pub object : get i s.objects ≡ some context
  pub quiz : context.current_quiz ≡ some q
  pub participant : get id context.participants ≡ some p

pub answering-Answers :
    (room id : String) (s : Study) (i : ℕ) (q : StudyQuiz) (p : StudyParticipant)
    → answering room id s ≡ some (i, (q, p))
    → Answers room id s i q p
unfolding answering get_study_context
answering-Answers room id s i q p h =
    let ((j, c), (found, h1)) = bind-some (get_study_context room s) _ h in
    let (j', (in_use, f1)) = bind-some (get room s.study_contexts) _ found in
    let (c', (object, f2)) = bind-some (get j' s.objects) _ f1 in
    let (r, (quiz, h2)) = bind-some c.current_quiz _ h1 in
    let (t, (participant, h3)) = bind-some (get id c.participants) _ h2 in
    record { context = c; in_use = cc; object = cc; quiz = cc; participant = cc }

put_answer-IsContext :
    (id : String) (q : StudyQuiz) (a : ℕ) (p : StudyParticipant) (c : StudyContext)
    → c.current_quiz ≡ some q
    → get id c.participants ≡ some p
    → IsContext c
    → IsContext (put_participant id (score_answer q a p) c)
put_answer-IsContext id q a p c quiz participant v = record {
  counted = v.counted;
  worth = v.worth;
  scored =
      AllValues-set IsParticipant id (score_answer q a p) c.participants
        (score_answer-IsParticipant q a p (v.worth q quiz)
          (AllValues-get IsParticipant id c.participants v.scored participant))
        v.scored;
}

process_answer-IsStudy :
    (room id : String) (a : ℕ) (s : Study) → IsStudy s → IsStudy (process_answer room id a s).0
unfolding process_answer
process_answer-IsStudy room id a s v = elim (Option-cases (answering room id s)) [
  | inl refused ↦ rw (refused, process_answer) v
  | inr ((i, (q, p)), accepted) ↦
      let at = answering-Answers room id s i q p accepted in
      rw (accepted, process_answer)
        (update-IsStudy i (put_participant id (score_answer q a p)) s
          (λ c found w.
            let same : at.context ≡ c = cc in put_answer-IsContext id q a p c (cc) (cc) w)
          v)
]

-- What happens to the service: a call that does not wait, or the answer of the language model to a call
-- that began with the context of a reference, at any time and in any order.
pub data Happening : Type 0 where
  starts : (room topic : String) → (duration_seconds now : ℕ) → Happening
  ends : (room : String) → Happening
  joins : (room id name : String) → Happening
  quiz_arrives : (i : ℕ) → (keyword : Option String) → Option QuizData → (now : ℕ) → Happening
  answers : (room id : String) → (answer_index : ℕ) → Happening
  follow_up_arrives : (i : ℕ) → Option String → Happening
  judgement_arrives : (i points : ℕ) → Happening
  cleans : (room : String) → Happening

unfoldable pub step : Study → Happening → Study
step s (starts room topic duration now) = start_study_mode room topic duration now s
step s (ends room) = end_study_mode room s
step s (joins room id name) = add_participant room id name s
step s (quiz_arrives i keyword answer now) = quiz_answered i keyword answer now s
step s (answers room id a) = (process_answer room id a s).0
step s (follow_up_arrives i question) = follow_up_asked i question s
step s (judgement_arrives i points) = follow_up_evaluated i points s
step s (cleans room) = cleanup room s

unfoldable pub run : Study → List Happening → Study
run s [] = s
run s (h ∷ hs) = run (step s h) hs

-- A change of the other fields.
same-IsContext :
    (c d : StudyContext)
    → c.quiz_count ≡ d.quiz_count
    → c.quiz_history ≡ d.quiz_history
    → c.current_quiz ≡ d.current_quiz
    → AllValues IsParticipant d.participants
    → IsContext c
    → IsContext d
same-IsContext c d count history quiz scored v = record {
  counted = sym count ∙ v.counted ∙ ap length history;
  worth = λ q h. v.worth q (quiz ∙ h);
  scored = scored;
}

step-IsStudy : (s : Study) (h : Happening) → IsStudy s → IsStudy (step s h)
unfolding step end_study_mode add_participant quiz_answered follow_up_asked follow_up_evaluated
    cleanup
step-IsStudy s (starts room topic duration now) v =
    start_study_mode-IsStudy room topic duration now s v
step-IsStudy s (ends room) v =
    in_room-IsStudy room (λ c. record c { is_active = false }) s
      (λ c w. same-IsContext c (record c { is_active = false }) refl refl refl w.scored w) v
step-IsStudy s (joins room id name) v =
    in_room-IsStudy room (join id name) s (join-IsContext id name) v
step-IsStudy s (quiz_arrives i keyword none now) v = v
step-IsStudy s (quiz_arrives i keyword (some answer) now) v =
    update-IsStudy i (λ c. with_quiz (new_quiz keyword answer now c) now c) s
      (λ c _. with_quiz-IsContext keyword answer now c) v
step-IsStudy s (answers room id a) v = process_answer-IsStudy room id a s v
step-IsStudy s (follow_up_arrives i none) v = v
step-IsStudy s (follow_up_arrives i (some question)) v =
    update-IsStudy i (λ c. record c { follow_up_question = some question }) s
      (λ c _ w.
        same-IsContext c (record c { follow_up_question = some question }) refl refl refl w.scored
          w)
      v
step-IsStudy s (judgement_arrives i points) v =
    update-IsStudy i
      (λ c. record c {
        participants = reward_last points c.participants;
        follow_up_question = none;
      })
      s
      (λ c _ w.
        same-IsContext c
          (record c { participants = reward_last points c.participants; follow_up_question = none })
          refl refl refl (reward_last-IsParticipant points c.participants w.scored) w)
      v
step-IsStudy s (cleans room) v = record {
  sound = v.sound;
  known = λ r i h. ground (arith, get-delete room r s.study_contexts, v.known r i);
}

run-valid : (s : Study) (hs : List Happening) → IsStudy s → IsStudy (run s hs)
unfolding run
run-valid s [] v = v
run-valid s (h ∷ hs) v = run-valid (step s h) hs (step-IsStudy s h v)

-- Whatever is called and whenever the language model answers, in every context the number of
-- quizzes is the length of their history, a current quiz is worth a hundred points, and each
-- participant has no more right answers than answers, no longer a streak than right answers, a
-- hundred points for each right answer at least, and an answer marked as right last exactly during
-- a streak; and the context of every room exists.
pub run-IsStudy : (hs : List Happening) → IsStudy (run init hs)
run-IsStudy hs = run-valid init hs init-IsStudy
