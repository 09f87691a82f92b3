-- ===== src/Voice/Alerts.antt =====
-- livekit/voice-bot.service.ts: when the hosts are alerted.
use native.Mathlib.Nat
use native.Mathlib.Nat.{div-mul-le_self}
use aura_new_live_server.Prelude.{
  ℕ, ◌+◌, ◌*◌, ◌/◌, ◌≤◌, ◌≡◌, refl, sym, inl, inr, Bool, true, false, ◌&&◌, ◌||◌, List, [], ◌∷◌,
  ◌++◌, length, any, leb, ltb, ◌==◌, nat_eq, list_eq, arith, Bool-cases, sort_by, place, IsSorted,
  AllAfter, sort_by-IsSorted, subst,
}
use aura_new_live_server.Voice.Speaking.{
  StatsTable, total_duration, speaking_percent, StatsRow, stats_rows, stats_array, Notice,
  participant_stats, dominant_speaker_alert, Coaching, has_hosts, dominant_alert, dominant_reset,
  stats_round, speaks_less,
}

-- A share that is rounded to sixty hundredths or more.
speaking_percent-le : (d total : ℕ) → 60 ≤ speaking_percent d total → 119 * total ≤ 200 * d
unfolding speaking_percent
speaking_percent-le d total h = elim (Bool-cases (total == 0)) [
  | inl none_spoken ↦ ground arith
  | inr spoken ↦
      let q = (200 * d + total) / (2 * total) in
      let many : 60 ≤ q = rw (spoken, speaking_percent) at h in
      let whole = div-mul-le_self (200 * d + total) (2 * total) in
      let times : 60 * (2 * total) ≤ q * (2 * total) = Nat.mul-le-mul_right (2 * total) many in
      omega (arith, whole, times)
]

-- The rows are by falling duration, and each has the share of its participant.
abbrev pub IsLongest : StatsRow → List StatsRow → Type 0
IsLongest top rows =
    AllAfter (λ (a b : StatsRow). b.speaking_duration_ms ≤ a.speaking_duration_ms) top rows

stats_array-IsSorted :
    (stats : StatsTable)
    → IsSorted
        (λ (a b : StatsRow). b.speaking_duration_ms ≤ a.speaking_duration_ms)
        (stats_array stats)
unfolding stats_array
stats_array-IsSorted stats =
    sort_by-IsSorted (λ (a b : StatsRow). b.speaking_duration_ms ≤ a.speaking_duration_ms)
      (λ a b c p q. omega (arith, p, q)) speaks_less (λ a b h. ground (arith, h))
      (λ a b h. ground (arith, h)) (stats_rows (total_duration stats) stats)

abbrev HasShare : ℕ → StatsRow → Type 0
HasShare total row = row.speaking_percent_of ≡ speaking_percent row.speaking_duration_ms total

abbrev AllShares : ℕ → List StatsRow → Type 0
AllShares total [] = Unit {0}
AllShares total (row ∷ rows) = HasShare total row × AllShares total rows

stats_rows-AllShares : (total : ℕ) (stats : StatsTable) → AllShares total (stats_rows total stats)
unfolding stats_rows
stats_rows-AllShares total [] = tt
stats_rows-AllShares total ((id, s) ∷ rest) = (refl, stats_rows-AllShares total rest)

place-AllShares :
    (total : ℕ) (row : StatsRow) (rows : List StatsRow)
    → HasShare total row
    → AllShares total rows
    → AllShares total (place speaks_less row rows)
unfolding place
place-AllShares total row [] h hs = (h, tt)
place-AllShares total row (r ∷ rows) h hs = elim (Bool-cases (speaks_less row r)) [
  | inl less ↦ rw less (hs.0, place-AllShares total row rows h hs.1)
  | inr more ↦ rw more (h, hs)
]

sort_by-AllShares :
    (total : ℕ) (rows : List StatsRow)
    → AllShares total rows
    → AllShares total (sort_by speaks_less rows)
unfolding sort_by
sort_by-AllShares total [] hs = tt
sort_by-AllShares total (row ∷ rows) hs =
    place-AllShares total row (sort_by speaks_less rows) hs.0 (sort_by-AllShares total rows hs.1)

stats_array-AllShares : (stats : StatsTable) → AllShares (total_duration stats) (stats_array stats)
unfolding stats_array
stats_array-AllShares stats =
    sort_by-AllShares (total_duration stats) (stats_rows (total_duration stats) stats)
      (stats_rows-AllShares (total_duration stats) stats)

-- What an alert says: a share of nearly sixty hundredths, and the longest time.
record IsDominant (total : ℕ) (rows : List StatsRow) (row : StatsRow) : Type 0 where
  share : 119 * total ≤ 200 * row.speaking_duration_ms
  longest : IsLongest row rows

dominant_alert-IsDominant :
    (total : ℕ) (rows : List StatsRow) (sent : Bool) (row : StatsRow) (more : List Notice)
    → (dominant_alert rows sent).0 ≡ dominant_speaker_alert row ∷ more
    → AllShares total rows
    → IsSorted (λ (a b : StatsRow). b.speaking_duration_ms ≤ a.speaking_duration_ms) rows
    → (sent ≡ false)
      × (dominant_reset rows (dominant_alert rows sent).1 ≡ true)
      × IsDominant total rows row
unfolding dominant_alert dominant_reset
dominant_alert-IsDominant total [] sent row more h shares sorted = absurd (cc)
dominant_alert-IsDominant total (top ∷ []) sent row more h shares sorted = absurd (cc)
dominant_alert-IsDominant total (top ∷ second ∷ rest) true row more h shares sorted = absurd (cc)
dominant_alert-IsDominant total (top ∷ second ∷ rest) false row more h shares sorted =
    elim (Bool-cases (leb 60 top.speaking_percent_of)) [
      | inr low ↦ absurd (let bad = rw (low, dominant_alert) at h in cc)
      | inl high ↦
          let e = rw (high, dominant_alert) at h in
          let same : top ≡ row = cc in
          let much : 60 ≤ speaking_percent top.speaking_duration_ms total =
            ground (arith, high, shares.0) in
          let kept : ltb top.speaking_percent_of 50 ≡ false = ground (arith, high) in
          (
            refl,
            rw (high, dominant_alert) (rw kept refl),
            subst (IsDominant total (top ∷ second ∷ rest)) same (record {
              share = speaking_percent-le top.speaking_duration_ms total much;
              longest = (omega arith, sorted.0);
            }),
          )
    ]

-- What the hosts are told of a room whose first speaker has so much.
pub stats_round-alert :
    (c : Coaching) (rows : List StatsRow) (total : ℕ) (row : StatsRow) (more : List Notice)
    → (stats_round c).1 ≡ participant_stats rows total ∷ dominant_speaker_alert row ∷ more
    → (has_hosts c ≡ true)
      × (c.dominant_alert_sent ≡ false)
      × ((stats_round c).0.dominant_alert_sent ≡ true)
      × (total ≡ total_duration c.participant_speaking_stats)
      × (119 * total ≤ 200 * row.speaking_duration_ms)
      × IsLongest row rows
unfolding stats_round
stats_round-alert c rows total row more h =
    let stats = c.participant_speaking_stats in
    let found = stats_array stats in
    let spoken = total_duration stats in
    elim (Bool-cases (has_hosts c && ltb 0 (length stats))) [
      | inr quiet ↦ absurd (let bad = rw (quiet, stats_round) at h in cc)
      | inl told ↦
          let e = rw (told, stats_round) at h in
          let same_rows : found ≡ rows = cc in
          let same_total : spoken ≡ total = cc in
          let alert : (dominant_alert found c.dominant_alert_sent).0
              ≡ dominant_speaker_alert row ∷ more =
            cc in
          let (fresh, sent, dominant) =
            dominant_alert-IsDominant spoken found c.dominant_alert_sent row more alert
              (stats_array-AllShares stats) (stats_array-IsSorted stats) in
          (
            ground (arith, told),
            fresh,
            rw (told, stats_round) sent,
            sym same_total,
            subst (λ n. 119 * n ≤ 200 * row.speaking_duration_ms) same_total dominant.share,
            subst (IsLongest row) same_rows dominant.longest,
          )
    ]

pub is_alert : Notice → Bool
is_alert (dominant_speaker_alert row) = true
is_alert (participant_stats rows total) = false

-- The first of the rows has half of the time, or there are not two.
abbrev pub IsHigh : List StatsRow → Type 0
IsHigh [] = Unit {0}
IsHigh (top ∷ []) = Unit {0}
IsHigh (top ∷ second ∷ rest) = 50 ≤ top.speaking_percent_of

-- Rounds with the statistics at the time of each, and what is sent in all.
unfoldable pub stats_rounds : List StatsTable → Coaching → Coaching × List Notice
unfolding stats_round
stats_rounds [] c = (c, [])
stats_rounds (stats ∷ rest) c =
    let (c', first) = stats_round (record c { participant_speaking_stats = stats }) in
    let (last, later) = stats_rounds rest c' in (last, first ++ later)

abbrev pub AllHigh : List StatsTable → Type 0
AllHigh [] = Unit {0}
AllHigh (stats ∷ rest) = IsHigh (stats_array stats) × AllHigh rest

dominant_alert_sent_before : (rows : List StatsRow) → dominant_alert rows true ≡ ([], true)
unfolding dominant_alert
dominant_alert_sent_before [] = refl
dominant_alert_sent_before (top ∷ []) = refl
dominant_alert_sent_before (top ∷ second ∷ rest) = refl

dominant_reset_high : (rows : List StatsRow) → IsHigh rows → dominant_reset rows true ≡ true
unfolding dominant_reset
dominant_reset_high [] h = refl
dominant_reset_high (top ∷ []) h = refl
dominant_reset_high (top ∷ second ∷ rest) h =
    let kept : ltb top.speaking_percent_of 50 ≡ false = ground (arith, h) in rw kept refl

stats_round_high :
    (c : Coaching)
    → c.dominant_alert_sent ≡ true
    → IsHigh (stats_array c.participant_speaking_stats)
    → (any is_alert (stats_round c).1 ≡ false) × ((stats_round c).0.dominant_alert_sent ≡ true)
unfolding stats_round any is_alert
stats_round_high c sent high =
    let rows = stats_array c.participant_speaking_stats in
    let none_new : dominant_alert rows c.dominant_alert_sent ≡ ([], true) =
      rw sent (dominant_alert_sent_before rows) in
    elim (Bool-cases (has_hosts c && ltb 0 (length c.participant_speaking_stats))) [
      | inr quiet ↦ rw (quiet, stats_round) (refl, sent)
      | inl told ↦ rw (told, stats_round) (rw none_new (refl, dominant_reset_high rows high))
    ]

any-append : (xs ys : List Notice) → any is_alert (xs ++ ys) ≡ (any is_alert xs || any is_alert ys)
unfolding any
any-append [] ys = refl
any-append (x ∷ xs) ys = ground (arith, any-append xs ys)

stats_rounds_high :
    (tables : List StatsTable) (c : Coaching)
    → c.dominant_alert_sent ≡ true
    → AllHigh tables
    → any is_alert (stats_rounds tables c).1 ≡ false
unfolding stats_rounds any
stats_rounds_high [] c sent high = refl
stats_rounds_high (stats ∷ rest) c sent high =
    let now = record c { participant_speaking_stats = stats } in
    let (none_now, still) = stats_round_high now sent high.0 in
    let later = stats_rounds_high rest (stats_round now).0 still high.1 in
    rw (any-append (stats_round now).1 (stats_rounds rest (stats_round now).0).1)
      (rw (none_now, later) refl)

-- After a round that sent the alert of a dominant speaker, no alert is sent in any rounds in which
-- the first speaker has at least half of the time.
pub stats_round-stats_rounds :
    (c : Coaching) (rows : List StatsRow) (total : ℕ) (row : StatsRow) (more : List Notice)
    (tables : List StatsTable)
    → (stats_round c).1 ≡ participant_stats rows total ∷ dominant_speaker_alert row ∷ more
    → AllHigh tables
    → any is_alert (stats_rounds tables (stats_round c).0).1 ≡ false
stats_round-stats_rounds c rows total row more tables h high =
    let (hosts, fresh, sent, spoken, share, longest) = stats_round-alert c rows total row more h in
    stats_rounds_high tables (stats_round c).0 sent high
