-- ===== src/Study/Invariant.antt =====
-- study/study-mode.service.ts: the invariant of the contexts and the operations.
use aura_new_live_server.Prelude.{
  ℕ, suc, ◌*◌, ◌≤◌, ◌≡◌, refl, inl, inr, String, true, Option, some, [], ◌∷◌, arith, length,
  length-append, leb, nat_eq, string_eq, Bool-cases, Option-cases, Table, get, has, get-set,
  AllValues, AllValues-set, AllValues-get,
}
use aura_new_live_server.Study.{
  StudyQuiz, StudyParticipant, StudyContext, Study, QuizData, init, update, start_study_mode,
  in_room, new_context, new_participant, join, new_quiz, with_quiz,
}
use aura_new_live_server.Study.Answers.{is_right, score_answer, reward_last}

-- The counts of a participant fit together, and a right answer is worth a hundred points at least.
pub record IsParticipant (p : StudyParticipant) : Type 0 where
  pub answered : p.correct_answers ≤ p.total_answers
  pub streaked : p.streak ≤ p.correct_answers
  pub earned : 100 * p.correct_answers ≤ p.score
  pub last : p.last_answer_correct ≡ leb 1 p.streak

pub record IsContext (c : StudyContext) : Type 0 where
  pub counted : c.quiz_count ≡ length c.quiz_history
  pub worth : (q : StudyQuiz) → c.current_quiz ≡ some q → q.points ≡ 100
  pub scored : AllValues IsParticipant c.participants

pub record IsStudy (s : Study) : Type 0 where
  pub sound : AllValues IsContext s.objects
  pub known : (room : String) (i : ℕ) → get room s.study_contexts ≡ some i → has i s.objects ≡ true

pub init-IsStudy : IsStudy init
unfolding get
init-IsStudy = record { sound = tt; known = λ room i h. cc }

pub score_answer-IsParticipant :
    (q : StudyQuiz) (a : ℕ) (p : StudyParticipant)
    → q.points ≡ 100
    → IsParticipant p
    → IsParticipant (score_answer q a p)
unfolding score_answer
score_answer-IsParticipant q a p worth v = elim (Bool-cases (is_right q a)) [
  | inl right ↦ rw right (record {
    answered = omega (arith, v.answered);
    streaked = omega (arith, v.streaked);
    earned = omega (arith, v.earned, worth);
    last = ground arith;
  })
  | inr wrong ↦ rw wrong (record {
    answered = omega (arith, v.answered);
    streaked = omega arith;
    earned = v.earned;
    last = refl;
  })
]

pub update-IsStudy :
    (i : ℕ) (f : StudyContext → StudyContext) (s : Study)
    → ((c : StudyContext) → get i s.objects ≡ some c → IsContext c → IsContext (f c))
    → IsStudy s
    → IsStudy (update i f s)
unfolding update
update-IsStudy i f s keeps v = elim (Option-cases (get i s.objects)) [
  | inl missing ↦ rw (missing, update) v
  | inr (c, found) ↦
      rw (found, update)
        (record {
          sound =
              AllValues-set IsContext i (f c) s.objects
                (keeps c found (AllValues-get IsContext i s.objects v.sound found)) v.sound;
          known = λ room j h. ground (arith, get-set i j (f c) s.objects, v.known room j h);
        })
]

pub in_room-IsStudy :
    (room : String) (f : StudyContext → StudyContext) (s : Study)
    → ((c : StudyContext) → IsContext c → IsContext (f c))
    → IsStudy s
    → IsStudy (in_room room f s)
in_room-IsStudy room f s keeps v = elim (Option-cases (get room s.study_contexts)) [
  | inl missing ↦ rw (missing, in_room) v
  | inr (i, found) ↦ rw (found, in_room) (update-IsStudy i f s (λ c _. keeps c) v)
]

pub start_study_mode-IsStudy :
    (room topic : String) (duration now : ℕ) (s : Study)
    → IsStudy s
    → IsStudy (start_study_mode room topic duration now s)
unfolding start_study_mode
start_study_mode-IsStudy room topic duration now s v =
    let i = suc s.allocated in
    let c = new_context topic duration now in
    record {
      sound =
          AllValues-set IsContext i c s.objects
            (record { counted = refl; worth = λ q h. cc; scored = tt }) v.sound;
      known = λ r j h.
          ground (arith, get-set room r i s.study_contexts, get-set i j c s.objects, v.known r j);
    }

pub join-IsContext :
    (id name : String) (c : StudyContext) → IsContext c → IsContext (join id name c)
unfolding join
join-IsContext id name c v = elim (Bool-cases (has id c.participants)) [
  | inl there ↦ rw there v
  | inr new ↦ rw new (record {
    counted = v.counted;
    worth = v.worth;
    scored =
        AllValues-set IsParticipant id (new_participant id name) c.participants
          (record {
            answered = omega arith;
            streaked = omega arith;
            earned = omega arith;
            last = refl;
          })
          v.scored;
  })
]

pub with_quiz-IsContext :
    (keyword : Option String) (answer : QuizData) (now : ℕ) (c : StudyContext)
    → IsContext c
    → IsContext (with_quiz (new_quiz keyword answer now c) now c)
with_quiz-IsContext keyword answer now c v = record {
  counted =
      omega (arith, v.counted, length-append c.quiz_history (new_quiz keyword answer now c ∷ []));
  worth = λ q h. cc;
  scored = v.scored;
}

pub reward_last-IsParticipant :
    (points : ℕ) (ps : Table String StudyParticipant)
    → AllValues IsParticipant ps
    → AllValues IsParticipant (reward_last points ps)
unfolding reward_last
reward_last-IsParticipant points [] v = tt
reward_last-IsParticipant points ((id, p) ∷ []) v = (
  record {
    answered = v.0.answered;
    streaked = v.0.streaked;
    earned = omega (arith, v.0.earned);
    last = v.0.last;
  },
  tt,
)
reward_last-IsParticipant points ((id, p) ∷ q ∷ qs) v =
    (v.0, reward_last-IsParticipant points (q ∷ qs) v.1)
