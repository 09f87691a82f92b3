-- ===== src/Intent/Commands.antt =====
-- intent/intent-classifier.service.ts: the timer commands that are found in a text.
use mathlib.Core.Option
use aura_new_live_server.Prelude.{
  Text, ℕ, ◌+◌, ◌*◌, ◌-◌, Bool, true, false, ◌&&◌, Option, none, some, List, [], ◌∷◌, leb, ltb,
  if◌then◌else◌, nat_eq,
}
use aura_new_live_server.Intent.Patterns.{
  letters, spaces, Piece, atom, one_of, maybe_of, digits, exec, first_of,
}

-- `timerAction`
pub data TimerAction : Type 0 where
  start pause resume extend stop status : TimerAction

-- An entry of `TIMER_PATTERNS`
pub record TimerPattern : Type 0 where
  pub pattern : List Piece
  pub action : TimerAction
  pub extract_minutes : Bool

-- 'timer N minutes'
abbrev pub timer_for_minutes : List Piece
timer_for_minutes =
    atom (letters "타이머")
    ∷ atom spaces
    ∷ digits
    ∷ atom spaces
    ∷ atom (letters "분")
    ∷ atom spaces
    ∷ maybe_of (
        (letters "시작" ∷ [])
        ∷ (letters "켜" ∷ [])
        ∷ (letters "설정" ∷ [])
        ∷ (letters "맞춰" ∷ [])
        ∷ (letters "해" ∷ [])
        ∷ (letters "해줘" ∷ [])
        ∷ [])
    ∷ []

-- `TIMER_PATTERNS`, the first apart
unfoldable pub more_timer_patterns : List TimerPattern
more_timer_patterns =
    record {
      pattern =
          digits
          ∷ atom spaces
          ∷ atom (letters "분")
          ∷ atom spaces
          ∷ atom (letters "타이머")
          ∷ atom spaces
          ∷ maybe_of (
              (letters "시작" ∷ [])
              ∷ (letters "켜" ∷ [])
              ∷ (letters "설정" ∷ [])
              ∷ (letters "맞춰" ∷ [])
              ∷ (letters "해" ∷ [])
              ∷ (letters "해줘" ∷ [])
              ∷ [])
          ∷ [];
      action = start;
      extract_minutes = true;
    }
    ∷ record {
      pattern =
          atom (letters "회의")
          ∷ atom spaces
          ∷ atom (letters "시간")
          ∷ atom spaces
          ∷ digits
          ∷ atom spaces
          ∷ atom (letters "분")
          ∷ atom spaces
          ∷ maybe_of ((letters "으로" ∷ []) ∷ [])
          ∷ atom spaces
          ∷ maybe_of (
              (letters "설정" ∷ [])
              ∷ (letters "맞춰" ∷ [])
              ∷ (letters "해" ∷ [])
              ∷ (letters "해줘" ∷ [])
              ∷ [])
          ∷ [];
      action = start;
      extract_minutes = true;
    }
    ∷ record {
      pattern =
          atom (letters "타이머")
          ∷ atom spaces
          ∷ one_of (
              (letters "시작" ∷ [])
              ∷ (letters "켜" ∷ [])
              ∷ (letters "설정" ∷ [])
              ∷ (letters "맞춰" ∷ [])
              ∷ [])
          ∷ [];
      action = start;
      extract_minutes = false;
    }
    ∷ record {
      pattern =
          atom (letters "타이머")
          ∷ atom spaces
          ∷ one_of (
              (letters "일시" ∷ spaces ∷ letters "정지" ∷ [])
              ∷ (letters "멈춰" ∷ [])
              ∷ (letters "중지" ∷ [])
              ∷ (letters "정지" ∷ [])
              ∷ (letters "잠깐" ∷ spaces ∷ letters "멈춰" ∷ [])
              ∷ (letters "스톱" ∷ [])
              ∷ (letters "pause" ∷ [])
              ∷ [])
          ∷ [];
      action = pause;
      extract_minutes = false;
    }
    ∷ record {
      pattern =
          one_of (
            (letters "일시" ∷ spaces ∷ letters "정지" ∷ [])
            ∷ (letters "멈춰" ∷ [])
            ∷ (letters "중지" ∷ [])
            ∷ (letters "정지" ∷ [])
            ∷ [])
          ∷ atom spaces
          ∷ atom (letters "타이머")
          ∷ [];
      action = pause;
      extract_minutes = false;
    }
    ∷ record {
      pattern =
          atom (letters "타이머")
          ∷ atom spaces
          ∷ one_of (
              (letters "다시" ∷ spaces ∷ letters "시작" ∷ [])
              ∷ (letters "재개" ∷ [])
              ∷ (letters "계속" ∷ [])
              ∷ (letters "이어서" ∷ [])
              ∷ (letters "resume" ∷ [])
              ∷ [])
          ∷ [];
      action = resume;
      extract_minutes = false;
    }
    ∷ record {
      pattern =
          one_of (
            (letters "다시" ∷ spaces ∷ letters "시작" ∷ [])
            ∷ (letters "재개" ∷ [])
            ∷ (letters "계속" ∷ [])
            ∷ [])
          ∷ atom spaces
          ∷ atom (letters "타이머")
          ∷ [];
      action = resume;
      extract_minutes = false;
    }
    ∷ record {
      pattern =
          digits
          ∷ atom spaces
          ∷ atom (letters "분")
          ∷ atom spaces
          ∷ one_of (
              (letters "더" ∷ [])
              ∷ (letters "연장" ∷ [])
              ∷ (letters "추가" ∷ [])
              ∷ (letters "늘려" ∷ [])
              ∷ (letters "늘려줘" ∷ [])
              ∷ [])
          ∷ [];
      action = extend;
      extract_minutes = true;
    }
    ∷ record {
      pattern =
          one_of ((letters "시간" ∷ []) ∷ (letters "타이머" ∷ []) ∷ [])
          ∷ atom spaces
          ∷ digits
          ∷ atom spaces
          ∷ atom (letters "분")
          ∷ atom spaces
          ∷ one_of ((letters "연장" ∷ []) ∷ (letters "추가" ∷ []) ∷ (letters "늘려" ∷ []) ∷ [])
          ∷ [];
      action = extend;
      extract_minutes = true;
    }
    ∷ record {
      pattern =
          digits
          ∷ atom spaces
          ∷ atom (letters "분")
          ∷ atom spaces
          ∷ maybe_of ((letters "만큼" ∷ []) ∷ [])
          ∷ atom spaces
          ∷ one_of (
              (letters "연장" ∷ [])
              ∷ (letters "추가" ∷ [])
              ∷ (letters "늘려" ∷ [])
              ∷ (letters "더" ∷ [])
              ∷ [])
          ∷ [];
      action = extend;
      extract_minutes = true;
    }
    ∷ record {
      pattern =
          atom (letters "시간")
          ∷ atom spaces
          ∷ maybe_of ((letters "좀" ∷ []) ∷ [])
          ∷ atom spaces
          ∷ one_of ((letters "더" ∷ []) ∷ (letters "늘려" ∷ []) ∷ (letters "연장" ∷ []) ∷ [])
          ∷ atom spaces
          ∷ digits
          ∷ atom spaces
          ∷ maybe_of ((letters "분" ∷ []) ∷ [])
          ∷ [];
      action = extend;
      extract_minutes = true;
    }
    ∷ record {
      pattern =
          atom (letters "타이머")
          ∷ atom spaces
          ∷ one_of (
              (letters "종료" ∷ [])
              ∷ (letters "끝" ∷ [])
              ∷ (letters "끄기" ∷ [])
              ∷ (letters "꺼" ∷ [])
              ∷ (letters "해제" ∷ [])
              ∷ (letters "취소" ∷ [])
              ∷ (letters "off" ∷ [])
              ∷ [])
          ∷ [];
      action = stop;
      extract_minutes = false;
    }
    ∷ record {
      pattern =
          one_of (
            (letters "종료" ∷ [])
            ∷ (letters "끝" ∷ [])
            ∷ (letters "끄기" ∷ [])
            ∷ (letters "꺼" ∷ [])
            ∷ (letters "해제" ∷ [])
            ∷ (letters "취소" ∷ [])
            ∷ [])
          ∷ atom spaces
          ∷ atom (letters "타이머")
          ∷ [];
      action = stop;
      extract_minutes = false;
    }
    ∷ record {
      pattern =
          atom (letters "타이머")
          ∷ atom spaces
          ∷ one_of (
              (letters "상태" ∷ [])
              ∷ (letters "확인" ∷ [])
              ∷ (letters "얼마나" ∷ spaces ∷ letters "남았" ∷ [])
              ∷ (letters "몇" ∷ spaces ∷ letters "분" ∷ spaces ∷ letters "남았" ∷ [])
              ∷ [])
          ∷ [];
      action = status;
      extract_minutes = false;
    }
    ∷ record {
      pattern =
          one_of (
            (letters "남은" ∷ spaces ∷ letters "시간" ∷ [])
            ∷ (letters "얼마나" ∷ spaces ∷ letters "남았" ∷ [])
            ∷ (letters "몇" ∷ spaces ∷ letters "분" ∷ spaces ∷ letters "남았" ∷ [])
            ∷ [])
          ∷ [];
      action = status;
      extract_minutes = false;
    }
    ∷ []

abbrev pub timer_patterns : List TimerPattern
timer_patterns =
    record { pattern = timer_for_minutes; action = start; extract_minutes = true }
    ∷ more_timer_patterns

-- `parseInt(digits, 10)`
unfoldable pub parse_int : ℕ → Text → ℕ
parse_int n [] = n
parse_int n (c ∷ cs) = parse_int (10 * n + (c - 48)) cs

-- The first captured number from 1 to 180. Groups of words give no number.
unfoldable pub minutes_of : List Text → Option ℕ
unfolding parse_int
minutes_of [] = none
minutes_of (t ∷ ts) =
    let later = minutes_of ts in
    let n = parse_int 0 t in if ltb 0 n && leb n 180 then some n else later

-- `timerAction` and `timerMinutes`; none where `isTimerIntent` is false.
unfoldable pub timer_intent : List TimerPattern → Text → Option (TimerAction × Option ℕ)
unfolding exec minutes_of first_of
timer_intent [] text = none
timer_intent (p ∷ ps) text =
    first_of
      (Option.map
        (λ (captured : List Text).
          (p.action, if p.extract_minutes then minutes_of captured else none))
        (exec p.pattern text))
      (timer_intent ps text)
