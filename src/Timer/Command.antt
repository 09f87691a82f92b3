-- ===== src/Timer/Command.antt =====
-- mcp/tools/timer.tool.ts: `timerTool.execute`, its defaults and its refusals.
use aura_new_live_server.Prelude.{
  ℕ, ◌/◌, ◌%◌, String, Option, none, some, ◌==◌, if◌then◌else◌, nat_eq, string_eq, Bool-cases, inl,
  inr,
}
use aura_new_live_server.Timer.{
  TimerState, TimerData, Timers, start_timer, pause_timer, resume_timer, extend_timer, stop_timer,
  get_timer_status,
}

-- `options`: the action's text, and numbers that may be missing.
pub record Options : Type 0 where
  pub action : String
  pub target_minutes : Option ℕ
  pub warning_minutes : Option ℕ
  pub minutes : Option ℕ

-- The `markdown` text of the reply, by the values that it shows.
pub data Message : Type 0 where
  started : ℕ → ℕ → Message
  was_paused nothing_running : Message
  was_resumed nothing_paused : Message
  was_extended : ℕ → Message
  was_stopped no_timer : Message
  showing : ℕ → ℕ → TimerState → Message
  nothing_set : Message

pub data ToolError : Type 0 where
  room_id_required unknown_action : ToolError

pub data Reply : Type 0 where
  ok : Option TimerData → Message → Reply
  err : ToolError → Reply

-- `x || fallback`: a missing number and 0 give the fallback.
abbrev pub or_default : Option ℕ → ℕ → ℕ
or_default none d = d
or_default (some n) d = if n == 0 then d else n

abbrev either_message : Option TimerData → Message → Message → Message
either_message none here missing = missing
either_message (some t) here missing = here

abbrev status_message : Option TimerData → Message
status_message none = nothing_set
status_message (some t) =
    showing (t.remaining_seconds / 60) (t.remaining_seconds % 60) t.timer_state

-- The reply to an action that may find no timer: `result ? here : missing`.
found_reply : Message → Message → Option TimerData × Timers → Reply × Timers
found_reply here missing (t, s) = (ok t (either_message t here missing), s)

start_reply : String → Options → ℕ → Timers → Reply × Timers
start_reply room o now s =
    let target = or_default o.target_minutes 30 in
    let warning_at = or_default o.warning_minutes 5 in
    let (t, s') = start_timer room target warning_at now s in
    (ok (some t) (started target warning_at), s')

extend_reply : String → Options → ℕ → Timers → Reply × Timers
unfolding found_reply
extend_reply room o now s =
    let minutes = or_default o.minutes 10 in
    found_reply (was_extended minutes) no_timer (extend_timer room minutes now s)

-- The `switch (action)`.
unfoldable pub dispatch : String → Options → ℕ → Timers → Reply × Timers
unfolding start_reply extend_reply found_reply
dispatch room o now s =
    if o.action == "start"
    then start_reply room o now s
    else if o.action == "pause"
    then found_reply was_paused nothing_running (pause_timer room s)
    else if o.action == "resume"
    then found_reply was_resumed nothing_paused (resume_timer room now s)
    else if o.action == "extend"
    then extend_reply room o now s
    else if o.action == "stop"
    then found_reply was_stopped no_timer (stop_timer room s)
    else if o.action == "status"
    then (let t = get_timer_status room s in (ok t (status_message t), s))
    else (err unknown_action, s)

-- `timerTool.execute`; a missing room and the empty one are refused.
unfoldable pub execute : Option String → Options → ℕ → Timers → Reply × Timers
unfolding dispatch
execute none o now s = (err room_id_required, s)
execute (some room) o now s =
    if room == "" then (err room_id_required, s) else dispatch room o now s

-- What holds after each operation, and of the state itself, holds after any action.
pub dispatch_rule {ℓ} :
    (P : Timers → Type ℓ) (room : String) (o : Options) (now : ℕ) (s : Timers)
    → ((target warning_at : ℕ) → P (start_timer room target warning_at now s).1)
    → P (pause_timer room s).1
    → P (resume_timer room now s).1
    → ((minutes : ℕ) → P (extend_timer room minutes now s).1)
    → P (stop_timer room s).1
    → P s
    → P (dispatch room o now s).1
unfolding dispatch
dispatch_rule P room o now s start pause resume extend stop rest =
    elim (Bool-cases (o.action == "start")) [
      | inl e ↦ rw e (start _ _)
      | inr e ↦ rw e (elim (Bool-cases (o.action == "pause")) [
        | inl e ↦ rw e pause
        | inr e ↦ rw e (elim (Bool-cases (o.action == "resume")) [
          | inl e ↦ rw e resume
          | inr e ↦ rw e (elim (Bool-cases (o.action == "extend")) [
            | inl e ↦ rw e (extend _)
            | inr e ↦ rw e (elim (Bool-cases (o.action == "stop")) [
              | inl e ↦ rw e stop
              | inr e ↦ rw e (elim (Bool-cases (o.action == "status")) [
                | inl e ↦ rw e rest
                | inr e ↦ rw e rest
              ])
            ])
          ])
        ])
      ])
    ]
