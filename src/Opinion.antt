-- ===== src/Opinion.antt =====
-- agent/evidence/opinion.service.ts: when an opinion is given, and what is remembered of it.
pub mod Cooldown
pub mod Repeats
mod Tests
use aura_new_live_server.Prelude.{
  Text, starts_with, ℕ, ◌-◌, ◌*◌, String, Bool, true, false, not, ◌&&◌, ◌||◌, Option, none, some,
  List, [], ◌∷◌, ◌++◌, length, ltb, ◌==◌, if◌then◌else◌, nat_eq, list_eq, Table, get, set, keep,
}

-- The parts of `OpinionConfig` that the service reads.
pub record OpinionConfig : Type 0 where
  pub enabled : Bool
  pub min_confidence_threshold : ℕ

-- `EvidenceMatchResult`, by the identifier of its evidence
pub record EvidenceMatch : Type 0 where
  pub evidence_id : Text
  pub confidence : ℕ

-- `recentOpinions`, by its keys and times
abbrev pub RecentOpinions : Type 0
RecentOpinions = Table Text ℕ

-- `OpinionResult`
pub data OpinionResult : Type 0 where
  feature_disabled text_too_short no_evidence : OpinionResult
  confidence_too_low on_cooldown : (confidence : ℕ) → OpinionResult
  speaks : EvidenceMatch → OpinionResult

abbrev pub opinion_cooldown_ms : ℕ
opinion_cooldown_ms = 300000

-- `${roomId}:${evidenceId}`
abbrev pub opinion_key : Text → Text → Text
opinion_key room evidence_id = room ++ 58 ∷ evidence_id

-- `isOnCooldown`
unfoldable pub is_on_cooldown : Text → Text → ℕ → RecentOpinions → Bool
is_on_cooldown room evidence_id now recent = elim (get (opinion_key room evidence_id) recent) [
  | none ↦ false
  | some time ↦ ltb (now - time) opinion_cooldown_ms
]

-- `cleanupOldRecords`
unfoldable pub cleanup_old_records : ℕ → RecentOpinions → RecentOpinions
unfolding keep
cleanup_old_records now recent = keep (λ r. not (ltb (opinion_cooldown_ms * 2) (now - r.1))) recent

-- `registerOpinion`
unfoldable pub register_opinion : Text → Text → ℕ → RecentOpinions → RecentOpinions
unfolding cleanup_old_records
register_opinion room evidence_id now recent =
    cleanup_old_records now (set (opinion_key room evidence_id) now recent)

-- From the first of the matches that the evidence repository found, by falling confidence.
unfoldable pub decide :
    OpinionConfig
    → Text
    → Option EvidenceMatch
    → ℕ
    → RecentOpinions
    → OpinionResult × RecentOpinions
unfolding is_on_cooldown register_opinion
decide config room none now recent = (no_evidence, recent)
decide config room (some best) now recent =
    if ltb best.confidence config.min_confidence_threshold
    then (confidence_too_low best.confidence, recent)
    else if is_on_cooldown room best.evidence_id now recent
    then (on_cooldown best.confidence, recent)
    else (speaks best, register_opinion room best.evidence_id now recent)

-- `analyzeAndRespond`, for a text that has this length when it is trimmed
unfoldable pub analyze_and_respond :
    OpinionConfig
    → Text
    → ℕ
    → Option EvidenceMatch
    → ℕ
    → RecentOpinions
    → OpinionResult × RecentOpinions
unfolding decide
analyze_and_respond config room trimmed_length best now recent =
    if not config.enabled
    then (feature_disabled, recent)
    else if ltb trimmed_length 10
    then (text_too_short, recent)
    else decide config room best now recent

-- `clearRoomHistory`
unfoldable pub clear_room_history : Text → RecentOpinions → RecentOpinions
unfolding keep starts_with
clear_room_history room recent = keep (λ r. not (starts_with r.0 (room ++ 58 ∷ []))) recent

-- `setConfidenceThreshold`, on a number that is not negative, none where it throws
unfoldable pub set_confidence_threshold : ℕ → OpinionConfig → Option OpinionConfig
set_confidence_threshold threshold config =
    if ltb 100 threshold
    then none
    else some (record config { min_confidence_threshold = threshold })

-- `setEnabled`
abbrev pub set_enabled : Bool → OpinionConfig → OpinionConfig
set_enabled enabled config = record config { enabled = enabled }
