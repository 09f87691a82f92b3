-- ===== src/Rag/Disconnection.antt =====
-- rag/rag-client.service.ts: which requests a disconnection settles.
use aura_new_live_server.Prelude.{
  Text, ℕ, ◌≡◌, ◌≢◌, refl, sym, ◌∙◌, ap, inl, inr, String, true, false, none, some, [], ◌∷◌, ◌==◌,
  arith, Bool-cases, Option-cases, ==_eq, ==_ne, nat_eq, string_eq, list_eq, Table, get, has,
  get-delete_self, get-delete_ne, subst, any,
}
use aura_new_live_server.Rag.Connections.{Links, disconnect_links}
use aura_new_live_server.Rag.{
  RagClient, Context, Outcome, client_disconnected, meeting_ended, settle, clear_timer,
  change_context, without_report,
}
use aura_new_live_server.Rag.Messages.{
  finish, reject_all, reject_questions, reject_report, disconnect, cleared,
}
use aura_new_live_server.Rag.Settling.{has-settle}
use aura_new_live_server.Rag.Promises.{
  get-settle_ne, settle-timers, change_context-settled, change_context-timers,
}

-- What was settled stays so.
has-settle_other :
    (k id : ℕ) (o : Outcome) (s : RagClient)
    → has id s.settled ≡ true
    → has id (settle k o s).settled ≡ true
has-settle_other k id o s done = elim (Bool-cases (k == id)) [
  | inl same ↦ subst (λ i. has i (settle k o s).settled ≡ true) (==_eq k id same) (has-settle k o s)
  | inr other ↦ rw (get-settle_ne k id o s other) done
]

has-reject_all :
    (id : ℕ) (pending : Table Text ℕ) (s : RagClient)
    → has id s.settled ≡ true
    → has id (reject_all pending s).settled ≡ true
unfolding reject_all
has-reject_all id [] s done = done
has-reject_all id ((text, k) ∷ rest) s done =
    has-reject_all id rest (finish k client_disconnected s)
      (has-settle_other k id client_disconnected (clear_timer k s) done)

reject_all_settles :
    (text : Text) (id : ℕ) (pending : Table Text ℕ) (s : RagClient)
    → get text pending ≡ some id
    → has id (reject_all pending s).settled ≡ true
unfolding reject_all get
reject_all_settles text id [] s found = cc
reject_all_settles text id ((t, k) ∷ rest) s found = elim (Bool-cases (t == text)) [
  | inl same ↦
      let here : k ≡ id = ground arith in
      rw here (
        has-reject_all id rest (finish id client_disconnected s)
          (has-settle id client_disconnected (clear_timer id s)))
  | inr other ↦ reject_all_settles text id rest (finish k client_disconnected s) (rw other at found)
]

-- The reports are not touched before `reject_report`.
settle-reports :
    (k : ℕ) (o : Outcome) (s : RagClient)
    → (settle k o s).pending_report_requests ≡ s.pending_report_requests
unfolding settle
settle-reports k o s = elim (Bool-cases (has k s.settled)) [
  | inl done ↦ rw (done, settle) refl
  | inr new ↦ rw (new, settle) refl
]

reject_all-reports :
    (pending : Table Text ℕ) (s : RagClient)
    → (reject_all pending s).pending_report_requests ≡ s.pending_report_requests
unfolding reject_all
reject_all-reports [] s = refl
reject_all-reports ((text, k) ∷ rest) s =
    reject_all-reports rest (finish k client_disconnected s)
    ∙ settle-reports k client_disconnected (clear_timer k s)

change_context-reports :
    (context : ℕ) (f : Context → Context) (s : RagClient)
    → (change_context context f s).pending_report_requests ≡ s.pending_report_requests
unfolding change_context
change_context-reports context f s = elim (Option-cases (get context s.contexts)) [
  | inl gone ↦ rw (gone, change_context) refl
  | inr (c, found) ↦ rw (found, change_context) refl
]

-- A request that is left as it is.
abbrev Same : ℕ → RagClient → RagClient → Type 0
Same id s s' = (get id s'.settled ≡ get id s.settled) × (get id s'.timers ≡ get id s.timers)

finish_others :
    (k id : ℕ) (o : Outcome) (s : RagClient) → (k == id) ≡ false → Same id s (finish k o s)
finish_others k id o s other = (
  get-settle_ne k id o (clear_timer k s) other,
  rw (settle-timers k o (clear_timer k s)) (get-delete_ne k id s.timers other),
)

reject_all_others :
    (id : ℕ) (pending : Table Text ℕ) (s : RagClient)
    → any (λ r. r.1 == id) pending ≡ false
    → Same id s (reject_all pending s)
unfolding reject_all any
reject_all_others id [] s absent = (refl, refl)
reject_all_others id ((text, k) ∷ rest) s absent =
    let other : (k == id) ≡ false = ground arith in
    let later : any (λ r. r.1 == id) rest ≡ false = ground arith in
    let (settled, timer) = finish_others k id client_disconnected s other in
    let (settled', timer') = reject_all_others id rest (finish k client_disconnected s) later in
    (settled' ∙ settled, timer' ∙ timer)

reject_report_others :
    (room : String) (id : ℕ) (s : RagClient)
    → get room s.pending_report_requests ≢ some id
    → Same id s (reject_report room s)
unfolding reject_report
reject_report_others room id s absent = elim (Option-cases (get room s.pending_report_requests)) [
  | inl gone ↦ rw (gone, reject_report) (refl, refl)
  | inr (k, found) ↦
      let other = ==_ne k id (λ e. absent (found ∙ ap some e)) in
      rw (found, reject_report) (finish_others k id meeting_ended (without_report room s) other)
]

has-reject_report :
    (room : String) (id : ℕ) (s : RagClient)
    → has id s.settled ≡ true
    → has id (reject_report room s).settled ≡ true
unfolding reject_report
has-reject_report room id s done = elim (Option-cases (get room s.pending_report_requests)) [
  | inl gone ↦ rw (gone, reject_report) done
  | inr (k, found) ↦
      rw (found, reject_report)
        (has-settle_other k id meeting_ended (clear_timer k (without_report room s)) done)
]

-- The state of the requests after a disconnection.
abbrev rejected : String → ℕ → Context → RagClient → RagClient
rejected room context c s =
    reject_report room (change_context context cleared (reject_all c.pending_requests s))

disconnect_lem :
    (room : String) (context : ℕ) (c : Context) (s : RagClient)
    → get room s.links.connections ≡ some context
    → get context s.contexts ≡ some c
    → disconnect room s
      ≡ record (rejected room context c s) { links = disconnect_links room s.links }
unfolding disconnect reject_questions
disconnect_lem room context c s on found = rw (on, disconnect) (rw (found, reject_questions) refl)

disconnect_links-connections :
    (room : String) (l : Links) → get room (disconnect_links room l).connections ≡ none
unfolding disconnect_links
disconnect_links-connections room l = elim (Option-cases (get room l.connections)) [
  | inl gone ↦ rw (gone, disconnect_links) gone
  | inr (id, found) ↦ rw (found, disconnect_links) (get-delete_self room _)
]

-- A disconnection leaves the room without a connection and settles each of its plain questions, but
-- a request of another kind that is not the report of the room stays as it was, settled or not,
-- with its timer.
pub disconnect-settled :
    (room : String) (context : ℕ) (c : Context) (s : RagClient)
    → get room s.links.connections ≡ some context
    → get context s.contexts ≡ some c
    → let s' = disconnect room s in
      (get room s'.links.connections ≡ none)
      × ((text : Text) (id : ℕ) → get text c.pending_requests ≡ some id → has id s'.settled ≡ true)
      × ((id : ℕ)
          → any (λ r. r.1 == id) c.pending_requests ≡ false
          → get room s.pending_report_requests ≢ some id
          → (get id s'.settled ≡ get id s.settled) × (get id s'.timers ≡ get id s.timers))
disconnect-settled room context c s on found = rw (disconnect_lem room context c s on found) (
  disconnect_links-connections room s.links,
  λ text id waiting.
      has-reject_report room id closed_context
        (rw settled_same (reject_all_settles text id c.pending_requests s waiting)),
  λ id absent no_report.
      let (settled, timer) = reject_all_others id c.pending_requests s absent in
      let (settled', timer') =
        reject_report_others room id closed_context
          (λ e. no_report (ap (get room) (sym reports_same) ∙ e)) in
      (settled' ∙ ap (get id) settled_same ∙ settled, timer' ∙ ap (get id) timers_same ∙ timer),
)
  where
    questions : RagClient
    questions = reject_all c.pending_requests s

    closed_context : RagClient
    closed_context = change_context context cleared questions

    settled_same : closed_context.settled ≡ questions.settled
    settled_same = change_context-settled context cleared questions

    timers_same : closed_context.timers ≡ questions.timers
    timers_same = change_context-timers context cleared questions

    reports_same : closed_context.pending_report_requests ≡ s.pending_report_requests
    reports_same =
        change_context-reports context cleared questions ∙ reject_all-reports c.pending_requests s
