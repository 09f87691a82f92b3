-- ===== src/Auth/Tests.antt =====
-- The guards at concrete requests.
use aura_new_live_server.Prelude.{
  Text, starts_with, ◌≡◌, refl, String, true, Option, none, some, [], ◌∷◌, ◌==◌, string_eq, nat_eq,
  if◌then◌else◌,
}
use aura_new_live_server.Auth.{
  Request, User, passes, denied, access_denied, Verification, verified, expired, invalid,
  AccessAnswer, jwt_auth_guard, room_access_guard, extract_token, with_payload, admit, enter_room,
  check_room_access,
}
use aura_new_live_server.Auth.Access.{IsAdmitted, room_access_guard-passes}

-- Tokens that begin with "a" are those of a user, any others are out of date.
unfoldable verify : Text → Verification
verify [] = invalid
verify (c ∷ cs) = if c == 97 then verified (record { sub = "u1"; nick_name = "ann" }) else expired

unfoldable ask_access : String → Text → Option AccessAnswer
ask_access room token =
    if room == "down" then none else some (record { ok = true; has_access = room == "r1" })

abbrev request : String → Request
request room = record {
  authorization = some (66 ∷ 101 ∷ 97 ∷ 114 ∷ 101 ∷ 114 ∷ 32 ∷ 97 ∷ []);
  query_token = none;
  room_id = some room;
}

abbrev ann : User
ann = record { user_id = "u1"; nick_name = "ann" }

enters : room_access_guard verify ask_access (request "r1") ≡ passes ann
unfolding room_access_guard extract_token starts_with with_payload admit enter_room
    check_room_access verify ask_access
enters = refl

fails_closed : room_access_guard verify ask_access (request "down") ≡ denied access_denied
unfolding room_access_guard extract_token starts_with with_payload admit enter_room
    check_room_access verify ask_access
fails_closed = refl

room_access_guard-passes_example :
    (room_access_guard verify ask_access (request "r1") ≡ passes ann
      → IsAdmitted verify ask_access (request "r1") ann
        × (jwt_auth_guard verify (request "r1") ≡ passes ann))
    × (IsAdmitted verify ask_access (request "r1") ann
        → room_access_guard verify ask_access (request "r1") ≡ passes ann)
room_access_guard-passes_example = room_access_guard-passes verify ask_access (request "r1") ann
