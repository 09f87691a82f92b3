-- ===== src/Rag/Repeated.antt =====
-- rag/rag-client.service.ts: two questions with one text that wait at the same time.
use aura_new_live_server.Prelude.{
  Text, ℕ, suc, ◌≡◌, refl, ◌∙◌, ap, String, false, Option, none, some, ◌∷◌, arith, List, nat_eq,
  string_eq, list_eq, get, has, set, delete, get-set_self, get-set_ne, get-delete_self,
  get-delete_ne,
}
use aura_new_live_server.Rag.{
  RagClient, Context, answered, request_timeout, settle, clear_timer, change_context, fired,
  timer_fires, open_context, send_question, question_timer, without_question, with_question,
}
use aura_new_live_server.Rag.Messages.{RawSource, answer, or_empty, finish, handle_message}
use aura_new_live_server.Rag.Promises.{
  asked, send_question_lem, open_context-connections, open_context_same, settle_lem, get-settle_new,
  get-settle_ne, settle-timers, change_context-settled, change_context-timers, timer_fires_lem,
  get-timer_fires, handle_message_answer,
}

change_context_lem :
    (context : ℕ) (f : Context → Context) (c : Context) (s : RagClient)
    → get context s.contexts ≡ some c
    → change_context context f s ≡ record s { contexts = set context (f c) s.contexts }
unfolding change_context
change_context_lem context f c s found = rw (found, change_context) refl

abbrev asked_twice : ℕ → Context → Text → RagClient → RagClient
asked_twice context c q s = asked context (with_question q s.next_request c) q (asked context c q s)

module _ (room : String) (context : ℕ) (c : Context) (x : ℕ) (xs : Text) (s : RagClient) where
  send_question_again :
      open_context room s ≡ some context
      → get context s.contexts ≡ some c
      → let q = x ∷ xs in
        (send_question room q false (send_question room q false s).0).0 ≡ asked_twice context c q s
  send_question_again on found =
      let q = x ∷ xs in
      let s1 = asked context c q s in
      let c1 = with_question q s.next_request c in
      rw (send_question_lem room context c q s on found) (
        ap (λ (r : RagClient × Option ℕ). r.0)
          (send_question_lem room context c1 q s1 (open_context_same room context c q s ∙ on)
            (get-set_self context c1 s.contexts)))

  -- The newer question's timer, and the older one's.
  get-asked_twice-timers :
      let q = x ∷ xs in
      let t = question_timer context q in
      let n = s.next_request in
      (get n (asked_twice context c q s).timers ≡ some t)
      × (get (suc n) (asked_twice context c q s).timers ≡ some t)
  get-asked_twice-timers =
      let n = s.next_request in
      let t = question_timer context (x ∷ xs) in
      (
        get-set_ne (suc n) n t (set n t s.timers) (ground arith) ∙ get-set_self n t s.timers,
        get-set_self (suc n) t (set n t s.timers),
      )

  -- The answer comes before either timer fires.
  module _ (reply : Option Text) (sources : List RawSource) where
    abbrev answered_twice : RagClient
    answered_twice =
        let q = x ∷ xs in
        let n = suc s.next_request in
        finish n (answered (or_empty reply))
          (change_context context (without_question q) (asked_twice context c q s))

    handle_message_newer :
        open_context room s ≡ some context
        → get (x ∷ xs) c.pending_requests_with_sources ≡ none
        → handle_message room
            (answer (some (x ∷ xs)) reply sources)
            (asked_twice context c (x ∷ xs) s)
          ≡ answered_twice
    handle_message_newer on unsourced =
        let q = x ∷ xs in
        let n = s.next_request in
        let s2 = asked_twice context c q s in
        let c2 = with_question q (suc n) (with_question q n c) in
        handle_message_answer room context c2 x xs reply sources s2
          (open_context-connections room s on)
          (get-set_self context c2 (set context (with_question q n c) s.contexts)) unsourced
        ∙ rw (get-set_self q (suc n) (set q n c.pending_requests)) refl

    answered_twice-settled :
        get s.next_request s.settled ≡ none
        → get (suc s.next_request) s.settled ≡ none
        → let n = s.next_request in
          (get n answered_twice.settled ≡ none)
          × (get (suc n) answered_twice.settled ≡ some (answered (or_empty reply)))
          × (get n answered_twice.timers ≡ some (question_timer context (x ∷ xs)))
    answered_twice-settled older newer =
        let q = x ∷ xs in
        let n = s.next_request in
        let o = answered (or_empty reply) in
        let s2 = asked_twice context c q s in
        let s3 = change_context context (without_question q) s2 in
        let same = change_context-settled context (without_question q) s2 in
        let s4 = clear_timer (suc n) s3 in
        let new : has (suc n) s4.settled ≡ false = rw same (rw newer refl) in
        (
          get-settle_ne (suc n) n o s4 (ground arith) ∙ (rw same older),
          get-settle_new (suc n) o s4 new,
          rw (settle-timers (suc n) o s4) (
              get-delete_ne (suc n) n s3.timers (ground arith)
              ∙ (rw (change_context-timers context (without_question q) s2)
                  get-asked_twice-timers.0)),
        )

-- The answer to the text settles the newer question, and the older one ends with its timer.
pub send_question_twice-answer :
    (room : String) (context : ℕ) (c : Context) (x : ℕ) (xs : Text) (reply : Option Text)
    (sources : List RawSource) (s : RagClient)
    → open_context room s ≡ some context
    → get context s.contexts ≡ some c
    → get (x ∷ xs) c.pending_requests_with_sources ≡ none
    → get s.next_request s.settled ≡ none
    → get (suc s.next_request) s.settled ≡ none
    → let q = x ∷ xs in
      let n = s.next_request in
      let asked = (send_question room q false (send_question room q false s).0).0 in
      let s' = handle_message room (answer (some q) reply sources) asked in
      (get n s'.settled ≡ none)
      × (get (suc n) s'.settled ≡ some (answered (or_empty reply)))
      × (get n (timer_fires n s').settled ≡ some request_timeout)
send_question_twice-answer room context c x xs reply sources s on found unsourced older newer =
    let n = s.next_request in
    let u = answered_twice room context c x xs s reply sources in
    let (waits, settled, armed) =
      answered_twice-settled room context c x xs s reply sources older newer in
    rw (send_question_again room context c x xs s on found) (
      rw (handle_message_newer room context c x xs s reply sources on unsourced) (
        waits,
        settled,
        get-timer_fires n (question_timer context (x ∷ xs)) u armed (rw waits refl),
      ))

-- The timer of the older question has fired before the answer comes.
module _ (room : String) (context : ℕ) (c : Context) (x : ℕ) (xs : Text) (s : RagClient)
    (older : get s.next_request s.settled ≡ none) where
  abbrev older_fired : RagClient
  older_fired =
      let q = x ∷ xs in
      let n = s.next_request in
      let s2 = asked_twice context c q s in
      let c2 = with_question q (suc n) (with_question q n c) in
      record s2 {
        timers = delete n s2.timers;
        contexts = set context (without_question q c2) s2.contexts;
        settled = set n request_timeout s.settled;
      }

  timer_fires_older : timer_fires s.next_request (asked_twice context c (x ∷ xs) s) ≡ older_fired
  unfolding fired
  timer_fires_older =
      let q = x ∷ xs in
      let n = s.next_request in
      let s2 = asked_twice context c q s in
      let c1 = with_question q n c in
      let c2 = with_question q (suc n) c1 in
      let s3 = record s2 { timers = delete n s2.timers } in
      let s4 = record s3 { contexts = set context (without_question q c2) s2.contexts } in
      timer_fires_lem n (question_timer context q) s2
        (get-asked_twice-timers room context c x xs s).0
      ∙ ap (settle n request_timeout) (
          change_context_lem context (without_question q) c2 s3
            (get-set_self context c2 (set context c1 s.contexts)))
      ∙ settle_lem n request_timeout s4 (rw older refl)

-- When one text is asked twice over an open connection and the timer of the older question fires
-- before the answer, the answer changes nothing and the newer question times out.
pub send_question_twice-timer :
    (room : String) (context : ℕ) (c : Context) (x : ℕ) (xs : Text) (reply : Option Text)
    (sources : List RawSource) (s : RagClient)
    → open_context room s ≡ some context
    → get context s.contexts ≡ some c
    → get (x ∷ xs) c.pending_requests_with_sources ≡ none
    → get s.next_request s.settled ≡ none
    → get (suc s.next_request) s.settled ≡ none
    → let q = x ∷ xs in
      let n = s.next_request in
      let asked = (send_question room q false (send_question room q false s).0).0 in
      let s' = timer_fires n asked in
      (handle_message room (answer (some q) reply sources) s' ≡ s')
      × (get (suc n) s'.settled ≡ none)
      × (get (suc n) (timer_fires (suc n) s').settled ≡ some request_timeout)
send_question_twice-timer room context c x xs reply sources s on found unsourced older newer =
    let q = x ∷ xs in
    let n = s.next_request in
    let s' = older_fired room context c x xs s older in
    let s2 = asked_twice context c q s in
    let c2 = with_question q (suc n) (with_question q n c) in
    let c3 = without_question q c2 in
    let waits : get (suc n) s'.settled ≡ none =
      get-set_ne n (suc n) request_timeout s.settled (ground arith) ∙ newer in
    let armed : get (suc n) s'.timers ≡ some (question_timer context q) =
      get-delete_ne n (suc n) s2.timers (ground arith)
      ∙ (get-asked_twice-timers room context c x xs s).1 in
    let ignored =
      handle_message_answer room context c3 x xs reply sources s'
        (open_context-connections room s on) (get-set_self context c3 s2.contexts) unsourced
      ∙ rw (get-delete_self q c2.pending_requests) refl in
    rw (send_question_again room context c x xs s on found) (
      rw (timer_fires_older room context c x xs s older) (
        ignored,
        waits,
        get-timer_fires (suc n) (question_timer context q) s' armed (rw waits refl),
      ))
