-- ===== src/Recording/Overlaps.antt =====
-- recording/recording.service.ts: a recording that is started twice.
use aura_new_live_server.Prelude.{
  ℕ, ◌≡◌, ◌≢◌, refl, sym, ◌∙◌, ap, inl, inr, String, true, false, ◌||◌, some, List, [], ◌∷◌, ◌++◌,
  keep, any, ◌==◌, ==_eq, ==_ne, if◌then◌else◌, nat_eq, string_eq, subst, AllValues, AllValues-set,
  AllValues-delete, AllValues-get, arith, Bool-cases,
}
use aura_new_live_server.Recording.{
  Recording, Recorder, recording_started, stop_recording, recording_stopped, stop_failed,
}

-- The service with the stops that are under way: each has read its recording, and waits for the
-- server.
pub record Service : Type 0 where
  pub recorder : Recorder
  pub stops : List (String × Recording)

-- No stop that is under way is for this recording.
abbrev pub NoStop : ℕ → List (String × Recording) → Type 0
NoStop id [] = Unit {0}
NoStop id ((room, v) ∷ rest) = (v.egress_id ≢ id) × NoStop id rest

-- A recording that no room has any more, and no stop.
pub record IsLost (id : ℕ) (s : Service) : Type 0 where
  pub runs_on : any (λ j. j == id) s.recorder.running ≡ true
  pub no_room : AllValues (λ (v : Recording). v.egress_id ≢ id) s.recorder.active_recordings
  pub no_stop : NoStop id s.stops

any-append :
    (id : ℕ) (xs ys : List ℕ)
    → any (λ j. j == id) (xs ++ ys) ≡ (any (λ j. j == id) xs || any (λ j. j == id) ys)
unfolding any
any-append id [] ys = refl
any-append id (x ∷ xs) ys = ground (arith, any-append id xs ys)

-- What happens later: an answer to a start, with a new identifier, the call of a stop, and an answer
-- to a stop, whatever the room has by then.
pub data Later (id : ℕ) (s : Service) : Service → Type 0 where
  starts :
      (room : String) (egress_id now : ℕ)
      → egress_id ≢ id
      → Later id s (record s { recorder = recording_started room egress_id now s.recorder })
  stop_begins :
      (room : String) (recording : Recording)
      → stop_recording room s.recorder ≡ some recording
      → Later id s (record s { stops = (room, recording) ∷ s.stops })
  stop_ends :
      (room : String) (recording : Recording) (now : ℕ) (before after : List (String × Recording))
      → s.stops ≡ before ++ (room, recording) ∷ after
      → Later id s (record {
        recorder = (recording_stopped room recording now s.recorder).0;
        stops = before ++ after;
      })
  stop_fails :
      (room : String) (recording : Recording) (before after : List (String × Recording))
      → s.stops ≡ before ++ (room, recording) ∷ after
      → Later id s (record { recorder = stop_failed room s.recorder; stops = before ++ after })

pub data Runs (id : ℕ) (s : Service) : Service → Type 0 where
  here : Runs id s s
  next : {t u : Service} → Runs id s t → Later id t u → Runs id s u

any-keep :
    (id other : ℕ) (ids : List ℕ)
    → other ≢ id
    → any (λ j. j == id) (keep (λ j. if j == other then false else true) ids)
      ≡ any (λ j. j == id) ids
unfolding any keep
any-keep id other [] ne = refl
any-keep id other (j ∷ ids) ne = elim (Bool-cases (j == other)) [
  | inl same ↦
      let differs : (j == id) ≡ false = ==_ne j id (λ e. ne (sym (==_eq j other same) ∙ e)) in
      rw same (rw differs (any-keep id other ids ne))
  | inr differs ↦ rw differs (ap (λ b. (j == id) || b) (any-keep id other ids ne))
]

NoStop-middle :
    (id : ℕ) (before : List (String × Recording)) (room : String) (v : Recording)
    (after : List (String × Recording))
    → NoStop id (before ++ (room, v) ∷ after)
    → (v.egress_id ≢ id) × NoStop id (before ++ after)
NoStop-middle id [] room v after h = h
NoStop-middle id ((q, w) ∷ before) room v after h =
    let (other, rest) = NoStop-middle id before room v after h.1 in (other, (h.0, rest))

Later-IsLost : {id : ℕ} {s t : Service} → Later id s t → IsLost id s → IsLost id t
unfolding recording_started recording_stopped stop_failed stop_recording
Later-IsLost {id} {s} (starts room egress_id now other) h = record {
  runs_on = rw (any-append id s.recorder.running (egress_id ∷ [])) (ground (arith, h.runs_on));
  no_room =
      AllValues-set (λ (v : Recording). v.egress_id ≢ id) room _ s.recorder.active_recordings other
        h.no_room;
  no_stop = h.no_stop;
}
Later-IsLost {id} {s} (stop_begins room recording found) h = record {
  runs_on = h.runs_on;
  no_room = h.no_room;
  no_stop = (
    AllValues-get (λ (v : Recording). v.egress_id ≢ id) room s.recorder.active_recordings h.no_room
        found,
    h.no_stop,
  );
}
Later-IsLost {id} {s} (stop_ends room recording now before after listed) h =
    let (other, rest) =
      NoStop-middle id before room recording after (subst (NoStop id) listed h.no_stop) in
    record {
      runs_on = any-keep id recording.egress_id s.recorder.running other ∙ h.runs_on;
      no_room =
          AllValues-delete (λ (v : Recording). v.egress_id ≢ id) room s.recorder.active_recordings
            h.no_room;
      no_stop = rest;
    }
Later-IsLost {id} {s} (stop_fails room recording before after listed) h = record {
  runs_on = h.runs_on;
  no_room =
      AllValues-delete (λ (v : Recording). v.egress_id ≢ id) room s.recorder.active_recordings
        h.no_room;
  no_stop = (NoStop-middle id before room recording after (subst (NoStop id) listed h.no_stop)).1;
}

pub Runs-IsLost : {id : ℕ} {s t : Service} → Runs id s t → IsLost id s → IsLost id t
Runs-IsLost here h = h
Runs-IsLost (next runs l) h = Later-IsLost l (Runs-IsLost runs h)
