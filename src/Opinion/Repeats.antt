-- ===== src/Opinion/Repeats.antt =====
-- agent/evidence/opinion.service.ts: sequences of calls, and the clearing of a room.
use aura_new_live_server.Prelude.{
  Text, starts_with, ℕ, ◌+◌, ◌<◌, ◌≡◌, ◌≢◌, refl, inl, inr, true, false, Option, none, some, List,
  [], ◌∷◌, ◌++◌, ◌==◌, nat_eq, list_eq, get, keep, arith, Bool-cases, ==_eq,
}
use aura_new_live_server.Opinion.{
  OpinionConfig, EvidenceMatch, RecentOpinions, OpinionResult, speaks, opinion_key, is_on_cooldown,
  analyze_and_respond, clear_room_history,
}
use aura_new_live_server.Opinion.Cooldown.{
  cooling-found, analyze_and_respond-kept, analyze_and_respond-recorded,
  analyze_and_respond-cooling,
}

-- A call of the service.
pub record Call : Type 0 where
  pub config : OpinionConfig
  pub room : Text
  pub trimmed_length : ℕ
  pub best : Option EvidenceMatch
  pub now : ℕ

unfoldable pub call : Call → RecentOpinions → OpinionResult × RecentOpinions
unfolding analyze_and_respond
call c recent = analyze_and_respond c.config c.room c.trimmed_length c.best c.now recent

unfoldable pub run : List Call → RecentOpinions → RecentOpinions
unfolding call
run [] recent = recent
run (c ∷ cs) recent = run cs (call c recent).1

abbrev pub IsBefore : ℕ → List Call → Type 0
IsBefore limit [] = Unit
IsBefore limit (c ∷ cs) = (c.now < limit) × IsBefore limit cs

run-kept :
    (key : Text) (time : ℕ) (cs : List Call) (recent : RecentOpinions)
    → get key recent ≡ some time
    → IsBefore (time + 300000) cs
    → get key (run cs recent) ≡ some time
unfolding run call
run-kept key time [] recent found before = found
run-kept key time (c ∷ cs) recent found before =
    run-kept key time cs (call c recent).1
      (analyze_and_respond-kept c.config c.room c.trimmed_length c.best key time c.now recent found
        before.0)
      before.1

-- After an opinion was given in a room, and any calls that begin less than five minutes after it,
-- for whatever rooms and with whatever settings, a call for that room that begins less than five
-- minutes after it does not give an opinion on the same evidence again.
pub call-repeated :
    (c d : Call) (best again : EvidenceMatch) (cs : List Call) (recent : RecentOpinions)
    → c.best ≡ some best
    → d.best ≡ some again
    → d.room ≡ c.room
    → again.evidence_id ≡ best.evidence_id
    → (call c recent).0 ≡ speaks best
    → IsBefore (c.now + 300000) cs
    → d.now < c.now + 300000
    → (call d (run cs (call c recent).1)).0 ≢ speaks again
unfolding call analyze_and_respond
call-repeated c d best again cs recent first second room same spoke before soon spoken =
    let key = opinion_key c.room best.evidence_id in
    let found : get key (call c recent).1 ≡ some c.now = rw first (
      analyze_and_respond-recorded c.config c.room c.trimmed_length best c.now recent
        (rw first at spoke)) in
    let kept = run-kept key c.now cs (call c recent).1 found before in
    analyze_and_respond-cooling d.config d.room d.trimmed_length again d.now
      (run cs (call c recent).1)
      (cooling-found d.room again.evidence_id c.now d.now (run cs (call c recent).1)
        (rw (room, same) kept) soon)
      (rw second at spoken)

starts_with-append : (room rest : Text) → starts_with (room ++ 58 ∷ rest) (room ++ 58 ∷ []) ≡ true
unfolding starts_with
starts_with-append [] rest = refl
starts_with-append (c ∷ cs) rest = ground (arith, starts_with-append cs rest)

get-clear_room_history :
    (room evidence_id : Text) (recent : RecentOpinions)
    → get (opinion_key room evidence_id) (clear_room_history room recent) ≡ none
unfolding clear_room_history keep get
get-clear_room_history room evidence_id [] = refl
get-clear_room_history room evidence_id ((k, t) ∷ rest) =
    let below = get-clear_room_history room evidence_id rest in
    elim (Bool-cases (k == opinion_key room evidence_id)) [
      | inl same ↦
          let starts : starts_with k (room ++ 58 ∷ []) ≡ true =
            rw (==_eq k (opinion_key room evidence_id) same)
              (starts_with-append room evidence_id) in
          rw starts below
      | inr other ↦ elim (Bool-cases (starts_with k (room ++ 58 ∷ []))) [
        | inl starts ↦ rw starts below
        | inr stays ↦ rw stays (rw other below)
      ]
    ]

-- Once the history of a room is cleared no evidence is on cooldown in that room.
pub clear_room_history-cooldown :
    (room evidence_id : Text) (now : ℕ) (recent : RecentOpinions)
    → is_on_cooldown room evidence_id now (clear_room_history room recent) ≡ false
unfolding is_on_cooldown
clear_room_history-cooldown room evidence_id now recent =
    rw (get-clear_room_history room evidence_id recent, is_on_cooldown) refl
