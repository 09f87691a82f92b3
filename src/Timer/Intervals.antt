-- ===== src/Timer/Intervals.antt =====
-- mcp/tools/timer.tool.ts: the intervals by room and the live handles of the runtime.
use aura_new_live_server.Prelude.{
  ℕ, ◌<◌, ◌≡◌, inl, inr, String, Bool, false, Option, none, some, arith, ◌==◌, if◌then◌else◌,
  nat_eq, string_eq, Option-cases, ==_refl, get, get-set, get-delete,
}
use aura_new_live_server.Timer.{
  TimerData, Timers, counts, clear_interval, stop_timer_interval, start_interval,
}

-- Whether the room's timer, if it has one, counts.
abbrev pub is_counting : Option TimerData → Bool
is_counting none = false
is_counting (some t) = counts t.timer_state

-- A handle is live for a room exactly if the map has it for that room, and handles are new.
pub record IsWired (s : Timers) : Type 0 where
  pub known : (h : ℕ) (r : String) → get h s.live ≡ some r → get r s.timer_intervals ≡ some h
  pub alive : (h : ℕ) (r : String) → get r s.timer_intervals ≡ some h → get h s.live ≡ some r
  pub fresh : (h : ℕ) (r : String) → get h s.live ≡ some r → h < s.next_handle

pub stop_timer_interval-IsWired :
    (room : String) (s : Timers) → IsWired s → IsWired (stop_timer_interval room s)
unfolding stop_timer_interval clear_interval
stop_timer_interval-IsWired room s w = elim (Option-cases (get room s.timer_intervals)) [
  | inl missing ↦ rw (missing, clear_interval) w
  | inr (h₀, found) ↦
      rw (found, clear_interval)
        (record {
          known = λ h r e. ground (
            arith,
            get-delete h₀ h s.live,
            get-delete room r s.timer_intervals,
            w.known h r,
            string_eq.equals_iff room r,
          );
          alive = λ h r e. ground (
            arith,
            get-delete h₀ h s.live,
            get-delete room r s.timer_intervals,
            w.alive h r,
            w.alive h₀ room found,
            string_eq.equals_iff room r,
            ==_refl room,
          );
          fresh = λ h r e. ground (arith, get-delete h₀ h s.live, w.fresh h r);
        })
]

pub start_interval-IsWired :
    (room : String) (s : Timers)
    → get room s.timer_intervals ≡ none
    → IsWired s
    → IsWired (start_interval room s)
unfolding start_interval
start_interval-IsWired room s empty w = record {
  known = λ h r e. ground (
    arith,
    get-set s.next_handle h room s.live,
    get-set room r s.next_handle s.timer_intervals,
    w.known h r,
    string_eq.equals_iff room r,
    ==_refl room,
  );
  alive = λ h r e. ground (
    arith,
    get-set s.next_handle h room s.live,
    get-set room r s.next_handle s.timer_intervals,
    w.alive h r,
    w.fresh h r,
    string_eq.equals_iff room r,
  );
  fresh = λ h r e. ground (arith, get-set s.next_handle h room s.live, w.fresh h r);
}

-- What stopping leaves: the room's interval is gone, all else is as it was.
pub get-stop_timer_interval :
    (room r : String) (s : Timers)
    → get r (stop_timer_interval room s).timer_intervals
      ≡ (if room == r then none else get r s.timer_intervals)
unfolding stop_timer_interval clear_interval
get-stop_timer_interval room r s = elim (Option-cases (get room s.timer_intervals)) [
  | inl missing ↦ rw (missing, clear_interval) (ground (arith, string_eq.equals_iff room r))
  | inr (h₀, found) ↦ rw (found, clear_interval) (get-delete room r s.timer_intervals)
]

pub stop_timer_interval-timer_store :
    (room : String) (s : Timers) → (stop_timer_interval room s).timer_store ≡ s.timer_store
unfolding stop_timer_interval clear_interval
stop_timer_interval-timer_store room s = ground arith

pub stop_timer_interval-sent :
    (room : String) (s : Timers)
    → ((stop_timer_interval room s).sent ≡ s.sent)
      × ((stop_timer_interval room s).notify_callback ≡ s.notify_callback)
unfolding stop_timer_interval clear_interval
stop_timer_interval-sent room s = ground arith

pub get-start_interval :
    (room r : String) (s : Timers)
    → get r (start_interval room s).timer_intervals
      ≡ (if room == r then some s.next_handle else get r s.timer_intervals)
unfolding start_interval
get-start_interval room r s = get-set room r s.next_handle s.timer_intervals
