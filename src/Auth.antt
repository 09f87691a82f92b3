-- ===== src/Auth.antt =====
-- auth/: the guards of the routes, from a request to its user or to the exception thrown.
pub mod Access
mod Tests
use aura_new_live_server.Prelude.{
  Text, starts_with, ℕ, String, Bool, true, false, ◌&&◌, Option, none, some, List, [], ◌∷◌, ◌==◌,
  if◌then◌else◌, nat_eq, string_eq, drop,
}

-- The parts of a request that the guards read.
pub record Request : Type 0 where
  pub authorization : Option Text
  pub query_token : Option Text
  pub room_id : Option String

-- `JwtPayload`, without its times, which only the verification reads.
pub record JwtPayload : Type 0 where
  pub sub : String
  pub nick_name : String

-- `request.user`
pub record User : Type 0 where
  pub user_id : String
  pub nick_name : String

-- The exceptions, by what their messages say.
pub data Denial : Type 0 where
  token_missing token_expired token_invalid room_missing access_denied : Denial

pub data Passage : Type 0 where
  passes : User → Passage
  denied : Denial → Passage

abbrev pub bearer : Text
bearer = 66 ∷ 101 ∷ 97 ∷ 114 ∷ 101 ∷ 114 ∷ 32 ∷ []

abbrev pub non_empty : Option Text → Option Text
non_empty none = none
non_empty (some []) = none
non_empty (some (c ∷ cs)) = some (c ∷ cs)

-- `extractToken`, the same in both guards
unfoldable pub extract_token : Request → Option Text
unfolding starts_with
extract_token r = elim r.authorization [
  | none ↦ non_empty r.query_token
  | some header ↦
      if starts_with header bearer then some (drop 7 header) else non_empty r.query_token
]

-- What `jwt.verify` does with a token and the configured secret.
pub data Verification : Type 0 where
  verified : JwtPayload → Verification
  expired : Verification
  invalid : Verification

abbrev pub user_of : JwtPayload → User
user_of p = record { user_id = p.sub; nick_name = p.nick_name }

-- The answer of the service of the rooms.
pub record AccessAnswer : Type 0 where
  pub ok : Bool
  pub has_access : Bool

-- The outcomes of the verification.
unfoldable pub admit : Verification → (JwtPayload → Passage) → Passage
admit (verified payload) next = next payload
admit expired next = denied token_expired
admit invalid next = denied token_invalid

-- The guards go on with the payload of a token that is there and that verifies.
unfoldable pub with_payload :
    (Text → Verification) → Option Text → (Text → JwtPayload → Passage) → Passage
unfolding admit
with_payload verify none next = denied token_missing
with_payload verify (some token) next = admit (verify token) (next token)

-- `jwt.verify` with the secret.
module _ (verify : Text → Verification) where
  -- `JwtAuthGuard.canActivate`
  unfoldable pub jwt_auth_guard : Request → Passage
  unfolding extract_token with_payload
  jwt_auth_guard r =
      with_payload verify (non_empty (extract_token r)) (λ token payload. passes (user_of payload))

-- The request to the service of the rooms, none where it throws.
module _ (ask_access : String → Text → Option AccessAnswer) where
  -- `RoomAccessService.checkRoomAccess`
  unfoldable pub check_room_access : String → Text → Bool
  check_room_access room token = elim (ask_access room token) [
    | none ↦ false
    | some answer ↦ answer.ok && answer.has_access
  ]

  unfoldable pub enter_room : Option String → Text → JwtPayload → Passage
  unfolding check_room_access
  enter_room none token payload = denied room_missing
  enter_room (some room) token payload =
      if room == ""
      then denied room_missing
      else (if check_room_access room token then passes (user_of payload) else denied access_denied)

module _ (verify : Text → Verification) (ask_access : String → Text → Option AccessAnswer) where
  -- `RoomAccessGuard.canActivate`
  unfoldable pub room_access_guard : Request → Passage
  unfolding extract_token with_payload enter_room
  room_access_guard r =
      with_payload verify (non_empty (extract_token r))
        (λ token payload. enter_room ask_access r.room_id token payload)
