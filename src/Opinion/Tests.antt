-- ===== src/Opinion/Tests.antt =====
-- Opinions at concrete inputs.
use aura_new_live_server.Prelude.{
  ℕ, ◌≡◌, ◌≢◌, refl, true, some, [], ◌∷◌, arith, get, list_eq, nat_eq,
}
use aura_new_live_server.Opinion.{
  EvidenceMatch, speaks, is_on_cooldown, decide, analyze_and_respond,
}
use aura_new_live_server.Opinion.Repeats.{Call, call, run, call-repeated}

abbrev match : ℕ → EvidenceMatch
match id = record { evidence_id = id ∷ []; confidence = 97 }

abbrev asks : ℕ → ℕ → ℕ → Call
asks room id now = record {
  config = record { enabled = true; min_confidence_threshold = 95 };
  room = room ∷ [];
  trimmed_length = 20;
  best = some (match id);
  now = now;
}

first_speaks : (call (asks 1 7 1000) []).0 ≡ speaks (match 7)
unfolding call analyze_and_respond decide is_on_cooldown get
first_speaks = refl

call-repeated_example :
    (call (asks 1 7 9000) (run (asks 2 7 2000 ∷ asks 1 8 3000 ∷ []) (call (asks 1 7 1000) []).1)).0
    ≢ speaks (match 7)
call-repeated_example =
    call-repeated (asks 1 7 1000) (asks 1 7 9000) (match 7) (match 7)
      (asks 2 7 2000 ∷ asks 1 8 3000 ∷ []) [] refl refl refl refl first_speaks
      (omega arith, (omega arith, tt)) (omega arith)
