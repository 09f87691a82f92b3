-- ===== src/Voice/Turns.antt =====
-- livekit/voice-bot.service.ts: the history of the conversation is short, recent and in order.
use aura_new_live_server.Prelude.{
  Text, ℕ, zero, suc, ◌-◌, ◌≤◌, ◌<◌, ◌≡◌, refl, inl, inr, Bool, Option, none, some, List, [], ◌∷◌,
  ◌++◌, length, keep, drop, newest, length-newest, leb, ltb, arith, Bool-cases,
}
use aura_new_live_server.Voice.Conversation.{
  Role, user, assistant, ConversationTurn, clean_for_history, is_recent, push_turn, limited,
  update_conversation_history, host_query_turn,
}

-- The times of the turns rise from one time to another.
abbrev pub IsOrdered : ℕ → List ConversationTurn → ℕ → Type 0
IsOrdered from [] to = from ≤ to
IsOrdered from (t ∷ ts) to = (from ≤ t.timestamp) × IsOrdered t.timestamp ts to

-- Every turn is younger than five minutes.
abbrev pub AreRecent : ℕ → List ConversationTurn → Type 0
AreRecent now [] = Unit {0}
AreRecent now (t ∷ ts) = (now - t.timestamp < 300000) × AreRecent now ts

IsOrdered-earlier :
    (from start : ℕ) (ts : List ConversationTurn) (to : ℕ)
    → from ≤ start
    → IsOrdered start ts to
    → IsOrdered from ts to
IsOrdered-earlier from start [] to h o = omega (arith, h, o)
IsOrdered-earlier from start (t ∷ ts) to h o = (omega (arith, h, o.0), o.1)

IsOrdered-append :
    (from : ℕ) (ts : List ConversationTurn) (to : ℕ) (t : ConversationTurn)
    → IsOrdered from ts to
    → to ≤ t.timestamp
    → IsOrdered from (ts ++ t ∷ []) t.timestamp
IsOrdered-append from [] to t o h = (omega (arith, h, o), omega arith)
IsOrdered-append from (u ∷ ts) to t o h = (o.0, IsOrdered-append u.timestamp ts to t o.1 h)

IsOrdered-later :
    (from : ℕ) (ts : List ConversationTurn) (to end : ℕ)
    → IsOrdered from ts to
    → to ≤ end
    → IsOrdered from ts end
IsOrdered-later from [] to end o h = omega (arith, o, h)
IsOrdered-later from (t ∷ ts) to end o h = (o.0, IsOrdered-later t.timestamp ts to end o.1 h)

keep-IsOrdered :
    (p : ConversationTurn → Bool) (from : ℕ) (ts : List ConversationTurn) (to : ℕ)
    → IsOrdered from ts to
    → IsOrdered from (keep p ts) to
unfolding keep
keep-IsOrdered p from [] to o = o
keep-IsOrdered p from (t ∷ ts) to o = elim (Bool-cases (p t)) [
  | inl yes' ↦ rw yes' (o.0, keep-IsOrdered p t.timestamp ts to o.1)
  | inr no' ↦ rw no' (
      IsOrdered-earlier from t.timestamp (keep p ts) to o.0
        (keep-IsOrdered p t.timestamp ts to o.1))
]

drop-IsOrdered :
    (n from : ℕ) (ts : List ConversationTurn) (to : ℕ)
    → IsOrdered from ts to
    → IsOrdered from (drop n ts) to
drop-IsOrdered zero from ts to o = o
drop-IsOrdered (suc n) from [] to o = o
drop-IsOrdered (suc n) from (t ∷ ts) to o =
    IsOrdered-earlier from t.timestamp (drop n ts) to o.0 (drop-IsOrdered n t.timestamp ts to o.1)

keep-AreRecent : (now : ℕ) (ts : List ConversationTurn) → AreRecent now (keep (is_recent now) ts)
unfolding keep
keep-AreRecent now [] = tt
keep-AreRecent now (t ∷ ts) = elim (Bool-cases (is_recent now t)) [
  | inl young ↦ rw young (ground arith, keep-AreRecent now ts)
  | inr old ↦ rw old (keep-AreRecent now ts)
]

drop-AreRecent :
    (n now : ℕ) (ts : List ConversationTurn) → AreRecent now ts → AreRecent now (drop n ts)
drop-AreRecent zero now ts r = r
drop-AreRecent (suc n) now [] r = tt
drop-AreRecent (suc n) now (t ∷ ts) r = drop-AreRecent n now ts r.1

AreRecent-append :
    (now : ℕ) (ts : List ConversationTurn) (t : ConversationTurn)
    → AreRecent now ts
    → t.timestamp ≡ now
    → AreRecent now (ts ++ t ∷ [])
AreRecent-append now [] t r e = (omega (arith, e), tt)
AreRecent-append now (u ∷ ts) t r e = (r.0, AreRecent-append now ts t r.1 e)

-- What holds of a history at a time.
record IsHistory (now : ℕ) (ts : List ConversationTurn) : Type 0 where
  ordered : IsOrdered 0 ts now
  recent : AreRecent now ts

push_turn-IsHistory :
    (role : Role) (cleaned : Text) (now : ℕ) (speaker : Option Text) (ts : List ConversationTurn)
    → IsHistory now ts
    → IsHistory now (push_turn role cleaned now speaker ts)
unfolding push_turn
push_turn-IsHistory role cleaned now speaker ts h = elim (Bool-cases (leb 3 (length cleaned))) [
  | inl long ↦ rw long (record {
    ordered = IsOrdered-append 0 ts now _ h.ordered (omega arith);
    recent = AreRecent-append now ts _ h.recent refl;
  })
  | inr short ↦ rw short h
]

shortened-IsHistory :
    (n now : ℕ) (ts : List ConversationTurn) → IsHistory now ts → IsHistory now (drop n ts)
shortened-IsHistory n now ts h = record {
  ordered = drop-IsOrdered n 0 ts now h.ordered;
  recent = drop-AreRecent n now ts h.recent;
}

limited-IsHistory :
    (now : ℕ) (ts : List ConversationTurn) → IsHistory now ts → IsHistory now (limited ts)
unfolding limited newest
limited-IsHistory now ts h = elim (Bool-cases (ltb 60 (length ts))) [
  | inl long ↦ rw long (shortened-IsHistory (length ts - 60) now ts h)
  | inr short ↦ rw short h
]

length-limited : (ts : List ConversationTurn) → length (limited ts) ≤ 60
unfolding limited
length-limited ts = elim (Bool-cases (ltb 60 (length ts))) [
  | inl long ↦ rw long (length-newest 60 ts)
  | inr short ↦ rw short (ground arith)
]

module _ (user_message bot_response user_id : Text) (now : ℕ)
    (history : List ConversationTurn) where
  update-IsHistory :
      IsOrdered 0 history now
      → IsHistory now (update_conversation_history user_message bot_response user_id now history)
  unfolding update_conversation_history
  update-IsHistory o =
      let recent = keep (is_recent now) history in
      let kept : IsHistory now recent = record {
        ordered = keep-IsOrdered (is_recent now) 0 history now o;
        recent = keep-AreRecent now history;
      } in
      let asked =
        push_turn-IsHistory user (clean_for_history user_message) now (some user_id) recent kept in
      let told = push_turn-IsHistory assistant (clean_for_history bot_response) now none _ asked in
      limited-IsHistory now _ told

  length-update :
      length (update_conversation_history user_message bot_response user_id now history) ≤ 60
  unfolding update_conversation_history
  length-update =
      let recent = keep (is_recent now) history in
      let asked = push_turn user (clean_for_history user_message) now (some user_id) recent in
      length-limited (push_turn assistant (clean_for_history bot_response) now none asked)

-- What adds to the history: the answer to a participant, or the query of a host.
pub data Happening : Type 0 where
  replies : (user_message bot_response user_id : Text) → Happening
  hosts_query : (query host : Text) → Happening

unfoldable pub step : ℕ → Happening → List ConversationTurn → List ConversationTurn
unfolding update_conversation_history
step now (replies user_message bot_response user_id) history =
    update_conversation_history user_message bot_response user_id now history
step now (hosts_query query host) history = host_query_turn query host now history

unfoldable pub run : List (ℕ × Happening) → List ConversationTurn → List ConversationTurn
unfolding step
run [] history = history
run ((now, h) ∷ hs) history = run hs (step now h history)

abbrev pub IsTimely : ℕ → List (ℕ × Happening) → ℕ → Type 0
IsTimely from [] to = from ≤ to
IsTimely from ((now, h) ∷ hs) to = (from ≤ now) × IsTimely now hs to

step-IsOrdered :
    (from now : ℕ) (h : Happening) (history : List ConversationTurn)
    → from ≤ now
    → IsOrdered 0 history from
    → IsOrdered 0 (step now h history) now
unfolding step
step-IsOrdered from now (replies user_message bot_response user_id) history later o =
    (update-IsHistory user_message bot_response user_id now history
      (IsOrdered-later 0 history from now o later)).ordered
step-IsOrdered from now (hosts_query query host) history later o =
    IsOrdered-append 0 history from _ o later

run-IsOrdered :
    (from : ℕ) (hs : List (ℕ × Happening)) (to : ℕ) (history : List ConversationTurn)
    → IsTimely from hs to
    → IsOrdered 0 history from
    → IsOrdered 0 (run hs history) to
unfolding run
run-IsOrdered from [] to history timely o = IsOrdered-later 0 history from to o timely
run-IsOrdered from ((now, h) ∷ hs) to history timely o =
    run-IsOrdered now hs to (step now h history) timely.1
      (step-IsOrdered from now h history timely.0 o)

-- Whatever answers and queries of hosts, in the order of their times, come before it, an answer
-- leaves a history of at most 60 turns, in the order of their times, none older than five minutes.
pub run-update :
    (hs : List (ℕ × Happening)) (user_message bot_response user_id : Text) (now : ℕ)
    → IsTimely 0 hs now
    → let history = update_conversation_history user_message bot_response user_id now (run hs []) in
      (length history ≤ 60) × IsOrdered 0 history now × AreRecent now history
run-update hs user_message bot_response user_id now timely =
    let o = run-IsOrdered 0 hs now [] timely (omega arith) in
    let h = update-IsHistory user_message bot_response user_id now (run hs []) o in
    (length-update user_message bot_response user_id now (run hs []), h.ordered, h.recent)
