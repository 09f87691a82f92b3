-- ===== src/Rag/Flushes.antt =====
-- rag/rag-client.service.ts: the flush of a buffer, and the attempts to send a statement.
use aura_new_live_server.Prelude.{
  ℕ, suc, ◌<◌, ◌≡◌, ◌⊎◌, refl, sym, ◌∙◌, ap, inl, inr, String, Bool, true, false, some, [], ◌∷◌,
  ◌++◌, arith, Bool-cases, List, length, keep, nat_eq, string_eq, get-delete_self, map, append-nil,
  append_assoc, newest, if◌then◌else◌,
}
use aura_new_live_server.Rag.Statements.{
  PendingStatement, Buffers, buffer_of, add_to_statement_buffer, Sending, is_given_up, is_sent,
  message_of, send_statement, retry_delay, is_young, start_flush, at_time, flush_rounds, tries,
  follow, delayed, Call, Round, send_all, is_tried_again, stays_in_buffer,
}
use aura_new_live_server.Rag.Buffers.{buffer_of-send_statement, buffer_of-send_all}

abbrev pub in_round : Round → PendingStatement
in_round r = at_time r.now r.statement

-- What comes of a round's call: without a connection nothing, and a call that throws is made again
-- after a second.
abbrev pub sending_of : Round → Sending
sending_of r =
    if r.connected
    then if r.throws then is_tried_again 1 1000 else is_sent (message_of (in_round r))
    else stays_in_buffer

-- All statements of the rounds, in the order in which they are sent.
abbrev pub statements_of : List Round → List PendingStatement
statements_of [] = []
statements_of (r ∷ rest) = in_round r ∷ map (λ c. c.statement) r.others ++ statements_of rest

send_statement-sending_of :
    (room : String) (r : Round) (buffers : Buffers)
    → (send_statement room (in_round r) 0 r.connected r.throws buffers).1 ≡ sending_of r
unfolding send_statement retry_delay
send_statement-sending_of room r buffers = elim (Bool-cases r.connected) [
  | inr off ↦ rw off refl
  | inl on ↦
      rw on (elim (Bool-cases r.throws) [ inl thrown ↦ rw thrown refl | inr sent ↦ rw sent refl ])
]

flush_rounds_lem :
    (room : String) (rounds : List Round) (xs : List PendingStatement) (buffers : Buffers)
    → buffer_of room buffers ≡ newest 100 xs
    → (buffer_of room (flush_rounds room rounds buffers).0
        ≡ newest 100 (xs ++ statements_of rounds))
      × ((flush_rounds room rounds buffers).1 ≡ map sending_of rounds)
unfolding flush_rounds
flush_rounds_lem room [] xs buffers h = (h ∙ ap (newest 100) (sym (append-nil xs)), refl)
flush_rounds_lem room (r ∷ rest) xs buffers h =
    let called = send_statement room (in_round r) 0 r.connected r.throws buffers in
    let others = map (λ (c : Call). c.statement) r.others in
    let first = buffer_of-send_statement room (in_round r) r.connected r.throws xs buffers h in
    let between = buffer_of-send_all room r.others (xs ++ in_round r ∷ []) called.0 first in
    let (later, sendings) =
      flush_rounds_lem room rest ((xs ++ in_round r ∷ []) ++ others)
        (send_all room r.others called.0) between in
    (
      later
          ∙ ap (newest 100) (
              append_assoc (xs ++ in_round r ∷ []) others (statements_of rest)
              ∙ append_assoc xs (in_round r ∷ []) (others ++ statements_of rest)),
      λ i. send_statement-sending_of room r buffers i ∷ sendings i,
    )

start_flush_lem :
    (room : String) (now : ℕ) (buffers : Buffers)
    → ((start_flush room now buffers).1 ≡ keep (is_young now) (buffer_of room buffers))
      × (buffer_of room (start_flush room now buffers).0 ≡ [])
unfolding start_flush keep
start_flush_lem room now buffers = elim (List-cases (buffer_of room buffers)) [
  | inl empty ↦ (rw (empty, start_flush) refl, rw (empty, start_flush) empty)
  | inr (p, ps, full) ↦
      (rw (full, start_flush) refl, rw (full, start_flush) (rw (get-delete_self room buffers) refl))
]
  where
    List-cases :
        (xs : List PendingStatement)
        → (xs ≡ []) ⊎ ((p : PendingStatement) × (ps : List PendingStatement) × (xs ≡ p ∷ ps))
    List-cases [] = inl refl
    List-cases (p ∷ ps) = inr (p, ps, refl)

-- A flush calls for each statement of the last minute once, in order: without a connection at its
-- round nothing is sent, a call that throws is made again after a second, and otherwise the message
-- is sent. Whatever becomes of the calls, while the buffer of the room is only changed by sending
-- further statements between the rounds, it has afterwards the newest 100 of all these statements
-- in the order of their calls, the flushed ones at their new times.
pub start_flush-flush_rounds :
    (room : String) (now : ℕ) (rounds : List Round) (buffers : Buffers)
    → map (λ r. r.statement) rounds ≡ (start_flush room now buffers).1
    → let (rest, young) = start_flush room now buffers in
      let (after, sendings) = flush_rounds room rounds rest in
      (young ≡ keep (is_young now) (buffer_of room buffers))
      × (sendings ≡ map sending_of rounds)
      × (buffer_of room after ≡ newest 100 (statements_of rounds))
unfolding newest
start_flush-flush_rounds room now rounds buffers listed =
    let (young, empty) = start_flush_lem room now buffers in
    let (kept, sendings) = flush_rounds_lem room rounds [] (start_flush room now buffers).0 empty in
    (young, sendings, kept)

-- What came of the attempts: all four threw, or one of them sent the message.
abbrev pub IsEnded : PendingStatement → (ℕ → ℕ) → (ℕ → Bool) → List ℕ → Sending → Type 0
IsEnded p time throws delays last =
    ((last ≡ is_given_up)
      × (throws 0 ≡ true)
      × (throws 1 ≡ true)
      × (throws 2 ≡ true)
      × (throws 3 ≡ true)
      × (delays ≡ 1000 ∷ 2000 ∷ 4000 ∷ []))
    ⊎ ((k : ℕ) × (k < 4)
        × (throws k ≡ false)
        × (length delays ≡ k)
        × (last ≡ is_sent (message_of (at_time (time k) p))))

module _ (room : String) (p : PendingStatement) (time : ℕ → ℕ) (throws : ℕ → Bool) where
  -- An attempt whose call of `send` returns is the last.
  tries_sent :
      (fuel n : ℕ) (buffers : Buffers)
      → throws n ≡ false
      → tries (suc fuel) room p n time throws buffers
        ≡ some (
          (send_statement room (at_time (time n) p) n true false buffers).0,
          [],
          is_sent (message_of (at_time (time n) p)),
        )
  unfolding tries send_statement
  tries_sent fuel n buffers sent =
      ap
        (λ b.
          follow (λ k kept. tries fuel room p k time throws kept)
            (send_statement room (at_time (time n) p) n true b buffers))
        sent

  tries_thrown :
      (fuel n : ℕ) (buffers : Buffers)
      → throws n ≡ true
      → tries (suc fuel) room p n time throws buffers
        ≡ follow
            (λ k kept. tries fuel room p k time throws kept)
            (send_statement room (at_time (time n) p) n true true buffers)
  unfolding tries
  tries_thrown fuel n buffers thrown =
      ap
        (λ b.
          follow (λ k kept. tries fuel room p k time throws kept)
            (send_statement room (at_time (time n) p) n true b buffers))
        thrown

-- Whatever attempts throw, sending a statement over an open connection ends after at most four
-- attempts, by one that sends it or by giving up after the delays of 1, 2 and 4 seconds, and the
-- statement is added to the buffer once.
pub tries_end :
    (room : String) (p : PendingStatement) (time : ℕ → ℕ) (throws : ℕ → Bool) (buffers : Buffers)
    → (delays : List ℕ) × (last : Sending) × (tries 4 room p 0 time throws buffers
        ≡ some (add_to_statement_buffer room (at_time (time 0) p) buffers, delays, last))
      × IsEnded p time throws delays last
unfolding send_statement retry_delay
tries_end room p time throws buffers =
    let first = add_to_statement_buffer room (at_time (time 0) p) buffers in
    let sends = λ (k : ℕ). is_sent (message_of (at_time (time k) p)) in
    elim (Bool-cases (throws 0)) [
      | inr sent ↦ (
        [],
        sends 0,
        tries_sent room p time throws 3 0 buffers sent,
        inr (0, omega arith, sent, refl, refl),
      )
      | inl thrown ↦
          let step = tries_thrown room p time throws 3 0 buffers thrown in
          elim (Bool-cases (throws 1)) [
            | inr sent ↦ (
              1000 ∷ [],
              sends 1,
              step ∙ ap (delayed 1000) (tries_sent room p time throws 2 1 first sent),
              inr (1, omega arith, sent, refl, refl),
            )
            | inl thrown1 ↦
                let step1 =
                  step ∙ ap (delayed 1000) (tries_thrown room p time throws 2 1 first thrown1) in
                elim (Bool-cases (throws 2)) [
                  | inr sent ↦ (
                    1000 ∷ 2000 ∷ [],
                    sends 2,
                    step1
                        ∙ ap (λ r. delayed 1000 (delayed 2000 r))
                            (tries_sent room p time throws 1 2 first sent),
                    inr (2, omega arith, sent, refl, refl),
                  )
                  | inl thrown2 ↦
                      let step2 =
                        step1
                        ∙ ap (λ r. delayed 1000 (delayed 2000 r))
                            (tries_thrown room p time throws 1 2 first thrown2) in
                      elim (Bool-cases (throws 3)) [
                        | inr sent ↦ (
                          1000 ∷ 2000 ∷ 4000 ∷ [],
                          sends 3,
                          step2
                              ∙ ap (λ r. delayed 1000 (delayed 2000 (delayed 4000 r)))
                                  (tries_sent room p time throws 0 3 first sent),
                          inr (3, omega arith, sent, refl, refl),
                        )
                        | inl thrown3 ↦ (
                          1000 ∷ 2000 ∷ 4000 ∷ [],
                          is_given_up,
                          step2
                              ∙ ap (λ r. delayed 1000 (delayed 2000 (delayed 4000 r)))
                                  (tries_thrown room p time throws 0 3 first thrown3),
                          inl (refl, thrown, thrown1, thrown2, thrown3, refl),
                        )
                      ]
                ]
          ]
    ]
