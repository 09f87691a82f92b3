-- ===== src/Rag/Settling.antt =====
-- rag/rag-client.service.ts: every request is settled, whatever happens to its connection.
use aura_new_live_server.Prelude.{
  Text, ℕ, ◌≡◌, refl, ◌∙◌, inl, inr, String, Bool, true, false, ◌||◌, Option, [], ◌∷◌, ◌==◌, arith,
  Bool-cases, Option-cases, ==_refl, ==_eq, List, nat_eq, string_eq, list_eq, Table, get, has,
  get-set, get-delete, ◌>>=◌, subst,
}
use aura_new_live_server.Rag.Connections.{Links, disconnect_links}
use aura_new_live_server.Rag.{
  RagClient, Context, Outcome, Timer, settle, clear_timer, change_context, fired, timer_fires,
  on_open, question_timer, sources_timer, report_timer, without_question, without_sources,
  without_report,
}
use aura_new_live_server.Rag.Messages.{
  Incoming, RawReport, answer, meeting_report, logged, RawSource, finish, handle_answer,
  handle_message, handle_report, reject_all, reject_questions, reject_report, disconnect, cleared,
  request_key,
}

-- A request that is settled or whose timer is live.
abbrev pub is_covered : ℕ → RagClient → Bool
is_covered id s = has id s.settled || has id s.timers

-- No request is added, and the requests that are covered stay covered.
pub record Covers (s s' : RagClient) : Type 0 where
  pub same_number : s'.next_request ≡ s.next_request
  pub covers : (id : ℕ) → is_covered id s ≡ true → is_covered id s' ≡ true

pub Covers-trans : {s s' s'' : RagClient} → Covers s s' → Covers s' s'' → Covers s s''
Covers-trans p q = record {
  same_number = q.same_number ∙ p.same_number;
  covers = λ id h. q.covers id (p.covers id h);
}

Covers-self : (s : RagClient) → Covers s s
Covers-self s = record { same_number = refl; covers = λ id h. h }

-- What was covered is, after `resolve` or `reject` and after a cleared timer.
settle-covers :
    (k id : ℕ) (o : Outcome) (s : RagClient)
    → is_covered id s ≡ true
    → is_covered id (settle k o s) ≡ true
unfolding settle
settle-covers k id o s h = elim (Bool-cases (has k s.settled)) [
  | inl done ↦ rw (done, settle) h
  | inr new ↦ rw (new, settle) (rw (get-set k id o s.settled) (ground arith))
]

pub has-settle : (id : ℕ) (o : Outcome) (s : RagClient) → has id (settle id o s).settled ≡ true
unfolding settle
has-settle id o s = elim (Bool-cases (has id s.settled)) [
  | inl done ↦ rw (done, settle) done
  | inr new ↦ rw (new, settle) (rw (get-set id id o s.settled) (rw (==_refl id) refl))
]

pub settle-Covers : (k : ℕ) (o : Outcome) (s : RagClient) → Covers s (settle k o s)
unfolding settle
settle-Covers k o s = record {
  same_number = elim (Bool-cases (has k s.settled)) [
    | inl done ↦ rw (done, settle) refl
    | inr new ↦ rw (new, settle) refl
  ];
  covers = λ id h. settle-covers k id o s h;
}

pub change_context-Covers :
    (context : ℕ) (f : Context → Context) (s : RagClient) → Covers s (change_context context f s)
unfolding change_context
change_context-Covers context f s = elim (Option-cases (get context s.contexts)) [
  | inl gone ↦ rw (gone, change_context) (Covers-self s)
  | inr (c, found) ↦ rw (found, change_context) (record { same_number = refl; covers = λ id h. h })
]

pub without_report-Covers : (room : String) (s : RagClient) → Covers s (without_report room s)
without_report-Covers room s = record { same_number = refl; covers = λ id h. h }

-- The same but for one request, until that is settled.
record CoversBut (k : ℕ) (s s' : RagClient) : Type 0 where
  pub same_number : s'.next_request ≡ s.next_request
  pub covers : (id : ℕ) → (k == id) ≡ false → is_covered id s ≡ true → is_covered id s' ≡ true

clear_timer-CoversBut : (k : ℕ) (s : RagClient) → CoversBut k s (clear_timer k s)
clear_timer-CoversBut k s = record {
  same_number = refl;
  covers = λ id other h. rw (get-delete k id s.timers) (rw other h);
}

CoversBut-Covers :
    {k : ℕ} {s s' s'' : RagClient} → CoversBut k s s' → Covers s' s'' → CoversBut k s s''
CoversBut-Covers p q = record {
  same_number = q.same_number ∙ p.same_number;
  covers = λ id other h. q.covers id (p.covers id other h);
}

Covers-settle :
    {k : ℕ} {s s' : RagClient} (o : Outcome) → CoversBut k s s' → Covers s (settle k o s')
Covers-settle {k} {s} {s'} o p = record {
  same_number = (settle-Covers k o s').same_number ∙ p.same_number;
  covers = λ id h. elim (Bool-cases (k == id)) [
    | inl same ↦
        subst (λ i. is_covered i (settle k o s') ≡ true) (==_eq k id same)
          (rw (has-settle k o s') refl)
    | inr other ↦ settle-covers k id o s' (p.covers id other h)
  ];
}

finish-Covers : (k : ℕ) (o : Outcome) (s : RagClient) → Covers s (finish k o s)
finish-Covers k o s = Covers-settle o (clear_timer-CoversBut k s)

-- The timers.
fired-Covers : (id : ℕ) (t : Timer) (s : RagClient) → Covers s (fired t id (clear_timer id s))
unfolding fired
fired-Covers id (question_timer context text) s = Covers-settle _ (
    CoversBut-Covers (clear_timer-CoversBut id s)
      (change_context-Covers context (without_question text) (clear_timer id s)))
fired-Covers id (sources_timer context text) s = Covers-settle _ (
    CoversBut-Covers (clear_timer-CoversBut id s)
      (change_context-Covers context (without_sources text) (clear_timer id s)))
fired-Covers id (report_timer room) s =
    Covers-settle _ (
      CoversBut-Covers (clear_timer-CoversBut id s) (without_report-Covers room (clear_timer id s)))

pub fired_settles : (id : ℕ) (t : Timer) (s : RagClient) → has id (fired t id s).settled ≡ true
unfolding fired
fired_settles id (question_timer context text) s = has-settle id _ _
fired_settles id (sources_timer context text) s = has-settle id _ _
fired_settles id (report_timer room) s = has-settle id _ _

pub timer_fires-Covers : (id : ℕ) (s : RagClient) → Covers s (timer_fires id s)
unfolding timer_fires
timer_fires-Covers id s = elim (Option-cases (get id s.timers)) [
  | inl gone ↦ rw (gone, timer_fires) (Covers-self s)
  | inr (t, found) ↦ rw (found, timer_fires) (fired-Covers id t s)
]

-- The messages of the server.
handle_answer-Covers :
    (context : ℕ) (c : Context) (text reply : Option Text) (sources : List RawSource)
    (s : RagClient)
    → Covers s (handle_answer context c text reply sources s)
unfolding handle_answer
handle_answer-Covers context c text reply sources s =
    let hit = text >>= λ question. get question c.pending_requests_with_sources in
    elim (Option-cases hit) [
      | inr (id, found) ↦
          rw (found, handle_answer)
            (Covers-trans (change_context-Covers context _ s) (finish-Covers id _ _))
      | inl none_sourced ↦ elim (Option-cases (get (request_key text) c.pending_requests)) [
        | inl gone ↦ rw (none_sourced, handle_answer) (rw gone (Covers-self s))
        | inr (id, found) ↦
            rw (none_sourced, handle_answer)
              (rw found (Covers-trans (change_context-Covers context _ s) (finish-Covers id _ _)))
      ]
    ]

handle_report-Covers :
    (room : String) (r : RawReport) (s : RagClient) → Covers s (handle_report room r s)
unfolding handle_report
handle_report-Covers room r s = elim (Option-cases (get room s.pending_report_requests)) [
  | inl gone ↦ rw (gone, handle_report) (Covers-self s)
  | inr (id, found) ↦
      rw (found, handle_report) (Covers-trans (without_report-Covers room s) (finish-Covers id _ _))
]

pub handle_message-Covers :
    (room : String) (m : Incoming) (s : RagClient) → Covers s (handle_message room m s)
unfolding handle_message
handle_message-Covers room m s = elim (Option-cases (get room s.links.connections)) [
  | inl gone ↦ rw (gone, handle_message) (Covers-self s)
  | inr (context, found) ↦ elim (Option-cases (get context s.contexts)) [
    | inl lost ↦ rw (found, handle_message) (rw lost (Covers-self s))
    | inr (c, kept) ↦ rw (found, handle_message) (rw kept (by_type context c m))
  ]
]
  where
    by_type :
        (context : ℕ) (c : Context) (m : Incoming)
        → Covers s (elim m [
          | answer text reply sources ↦ handle_answer context c text reply sources s
          | meeting_report r ↦ handle_report room r s
          | logged ↦ s
        ])
    by_type context c (answer text reply sources) =
        handle_answer-Covers context c text reply sources s
    by_type context c (meeting_report r) = handle_report-Covers room r s
    by_type context c logged = Covers-self s

-- A disconnection.
reject_all-Covers : (pending : Table Text ℕ) (s : RagClient) → Covers s (reject_all pending s)
unfolding reject_all
reject_all-Covers [] s = Covers-self s
reject_all-Covers ((text, id) ∷ rest) s =
    Covers-trans (finish-Covers id _ s) (reject_all-Covers rest _)

reject_questions-Covers : (context : ℕ) (s : RagClient) → Covers s (reject_questions context s)
unfolding reject_questions
reject_questions-Covers context s = elim (Option-cases (get context s.contexts)) [
  | inl gone ↦ rw (gone, reject_questions) (Covers-self s)
  | inr (c, found) ↦
      rw (found, reject_questions)
        (Covers-trans (reject_all-Covers c.pending_requests s)
          (change_context-Covers context cleared _))
]

reject_report-Covers : (room : String) (s : RagClient) → Covers s (reject_report room s)
unfolding reject_report
reject_report-Covers room s = elim (Option-cases (get room s.pending_report_requests)) [
  | inl gone ↦ rw (gone, reject_report) (Covers-self s)
  | inr (id, found) ↦
      rw (found, reject_report) (Covers-trans (without_report-Covers room s) (finish-Covers id _ _))
]

pub with_links-Covers : (links : Links) (s : RagClient) → Covers s (record s { links = links })
with_links-Covers links s = record { same_number = refl; covers = λ id h. h }

pub disconnect-Covers : (room : String) (s : RagClient) → Covers s (disconnect room s)
unfolding disconnect
disconnect-Covers room s =
    let links = disconnect_links room s.links in
    elim (Option-cases (get room s.links.connections)) [
      | inl gone ↦ rw (gone, disconnect) (with_links-Covers links s)
      | inr (context, found) ↦
          let rejected = reject_report room (reject_questions context s) in
          rw (found, disconnect)
            (Covers-trans
              (Covers-trans (reject_questions-Covers context s) (reject_report-Covers room _))
              (with_links-Covers links rejected))
    ]

pub on_open-Covers : (id : ℕ) (s : RagClient) → Covers s (on_open id s)
unfolding on_open
on_open-Covers id s = record { same_number = refl; covers = λ id h. h }
