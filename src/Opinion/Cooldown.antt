-- ===== src/Opinion/Cooldown.antt =====
-- agent/evidence/opinion.service.ts: how often an opinion is given, and the clearing of a room.
use aura_new_live_server.Prelude.{
  Text, ℕ, ◌-◌, ◌+◌, ◌≤◌, ◌<◌, ◌≡◌, ◌≢◌, ap, inl, inr, true, false, not, Option, none, some, [],
  ◌∷◌, ltb, ◌==◌, nat_eq, list_eq, get, set, keep, arith, Bool-cases, get-set, get-set_self, ==_eq,
}
use aura_new_live_server.Opinion.{
  OpinionConfig, EvidenceMatch, RecentOpinions, speaks, opinion_key, is_on_cooldown,
  cleanup_old_records, register_opinion, decide, analyze_and_respond,
}

-- A record of at most ten minutes stays.
get-cleanup_old_records :
    (key : Text) (time now : ℕ) (recent : RecentOpinions)
    → get key recent ≡ some time
    → now ≤ time + 600000
    → get key (cleanup_old_records now recent) ≡ some time
unfolding cleanup_old_records keep get
get-cleanup_old_records key time now [] found young = cc
get-cleanup_old_records key time now ((k, t) ∷ rest) found young = elim (Bool-cases (k == key)) [
  | inl same ↦
      let here : t ≡ time = ground arith in
      let stays : ltb 600000 (now - t) ≡ false = ground (arith, here, young) in
      rw stays (rw same (ap some here))
  | inr other ↦
      let later : get key rest ≡ some time = rw other at found in
      let below = get-cleanup_old_records key time now rest later young in
      elim (Bool-cases (ltb 600000 (now - t))) [
        | inl old ↦ rw old below
        | inr young' ↦ rw young' (rw other below)
      ]
]

pub cooling-found :
    (room evidence_id : Text) (time now : ℕ) (recent : RecentOpinions)
    → get (opinion_key room evidence_id) recent ≡ some time
    → now < time + 300000
    → is_on_cooldown room evidence_id now recent ≡ true
unfolding is_on_cooldown
cooling-found room evidence_id time now recent found soon =
    rw (found, is_on_cooldown) (ground arith)

-- A call leaves the record of an opinion that is less than five minutes old.
decide-kept :
    (config : OpinionConfig) (room : Text) (best : Option EvidenceMatch) (key : Text) (time now : ℕ)
    (recent : RecentOpinions)
    → get key recent ≡ some time
    → now < time + 300000
    → get key (decide config room best now recent).1 ≡ some time
unfolding decide register_opinion
decide-kept config room none key time now recent found soon = found
decide-kept config room (some best) key time now recent found soon =
    let own = opinion_key room best.evidence_id in
    elim (Bool-cases (ltb best.confidence config.min_confidence_threshold)) [
      | inl low ↦ rw low found
      | inr enough ↦ elim (Bool-cases (is_on_cooldown room best.evidence_id now recent)) [
        | inl cooling ↦ rw (enough, cooling) found
        | inr warm ↦ elim (Bool-cases (own == key)) [
          | inl same ↦ absurd (
              let mine : get own recent ≡ some time = rw (==_eq own key same) found in
              let cooling = cooling-found room best.evidence_id time now recent mine soon in cc)
          | inr other ↦
              rw (enough, warm)
                (get-cleanup_old_records key time now (set own now recent)
                  (rw (get-set own key now recent, other) found) (omega (arith, soon)))
        ]
      ]
    ]

pub analyze_and_respond-kept :
    (config : OpinionConfig) (room : Text) (trimmed_length : ℕ) (best : Option EvidenceMatch)
    (key : Text) (time now : ℕ) (recent : RecentOpinions)
    → get key recent ≡ some time
    → now < time + 300000
    → get key (analyze_and_respond config room trimmed_length best now recent).1 ≡ some time
unfolding analyze_and_respond
analyze_and_respond-kept config room n best key time now recent found soon =
    elim (Bool-cases (not config.enabled)) [
      | inl off ↦ rw off found
      | inr on ↦ elim (Bool-cases (ltb n 10)) [
        | inl short ↦ rw (on, short) found
        | inr long ↦ rw (on, long) (decide-kept config room best key time now recent found soon)
      ]
    ]

-- An opinion that is given is recorded with its time.
decide-recorded :
    (config : OpinionConfig) (room : Text) (best : EvidenceMatch) (now : ℕ)
    (recent : RecentOpinions)
    → (decide config room (some best) now recent).0 ≡ speaks best
    → get (opinion_key room best.evidence_id) (decide config room (some best) now recent).1
      ≡ some now
unfolding decide register_opinion
decide-recorded config room best now recent spoke =
    let own = opinion_key room best.evidence_id in
    elim (Bool-cases (ltb best.confidence config.min_confidence_threshold)) [
      | inl low ↦ absurd (let bad = rw low at spoke in cc)
      | inr enough ↦ elim (Bool-cases (is_on_cooldown room best.evidence_id now recent)) [
        | inl cooling ↦ absurd (let bad = rw (enough, cooling) at spoke in cc)
        | inr warm ↦
            rw (enough, warm)
              (get-cleanup_old_records own now now (set own now recent)
                (get-set_self own now recent) (omega arith))
      ]
    ]

pub analyze_and_respond-recorded :
    (config : OpinionConfig) (room : Text) (n : ℕ) (best : EvidenceMatch) (now : ℕ)
    (recent : RecentOpinions)
    → (analyze_and_respond config room n (some best) now recent).0 ≡ speaks best
    → get
        (opinion_key room best.evidence_id)
        (analyze_and_respond config room n (some best) now recent).1
      ≡ some now
unfolding analyze_and_respond
analyze_and_respond-recorded config room n best now recent spoke =
    elim (Bool-cases (not config.enabled)) [
      | inl off ↦ absurd (let bad = rw off at spoke in cc)
      | inr on ↦ elim (Bool-cases (ltb n 10)) [
        | inl short ↦ absurd (let bad = rw (on, short) at spoke in cc)
        | inr long ↦
            rw (on, long) (decide-recorded config room best now recent (rw (on, long) at spoke))
      ]
    ]

decide-cooling :
    (config : OpinionConfig) (room : Text) (best : EvidenceMatch) (now : ℕ)
    (recent : RecentOpinions)
    → is_on_cooldown room best.evidence_id now recent ≡ true
    → (decide config room (some best) now recent).0 ≢ speaks best
unfolding decide
decide-cooling config room best now recent cooling spoke =
    elim (Bool-cases (ltb best.confidence config.min_confidence_threshold)) [
      | inl low ↦ let bad = rw low at spoke in cc
      | inr enough ↦ let bad = rw (enough, cooling) at spoke in cc
    ]

pub analyze_and_respond-cooling :
    (config : OpinionConfig) (room : Text) (n : ℕ) (best : EvidenceMatch) (now : ℕ)
    (recent : RecentOpinions)
    → is_on_cooldown room best.evidence_id now recent ≡ true
    → (analyze_and_respond config room n (some best) now recent).0 ≢ speaks best
unfolding analyze_and_respond
analyze_and_respond-cooling config room n best now recent cooling spoke =
    elim (Bool-cases (not config.enabled)) [
      | inl off ↦ let bad = rw off at spoke in cc
      | inr on ↦ elim (Bool-cases (ltb n 10)) [
        | inl short ↦ let bad = rw (on, short) at spoke in cc
        | inr long ↦ decide-cooling config room best now recent cooling (rw (on, long) at spoke)
      ]
    ]
