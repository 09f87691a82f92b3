-- ===== src/Auth/Access.antt =====
-- auth/guards/: when a request passes.
use aura_new_live_server.Prelude.{
  Text, ◌≡◌, ◌≢◌, refl, inl, inr, String, true, ◌&&◌, Option, none, some, [], ◌∷◌, arith, ◌==◌,
  nat_eq, string_eq, Bool-cases, Option-cases, ==_ne, ap, ◌∙◌,
}
use aura_new_live_server.Auth.{
  Request, JwtPayload, User, Passage, passes, Verification, verified, expired, invalid,
  AccessAnswer, extract_token, non_empty, user_of, admit, with_payload, jwt_auth_guard,
  check_room_access, enter_room, room_access_guard,
}

non_empty-some :
    (o : Option Text) (token : Text) → non_empty o ≡ some token → (o ≡ some token) × (token ≢ [])
non_empty-some none token h = absurd cc
non_empty-some (some []) token h = absurd cc
non_empty-some (some (c ∷ cs)) token h = (h, λ e. cc)

some-non_empty : (token : Text) → token ≢ [] → non_empty (some token) ≡ some token
some-non_empty [] h = absurd (h refl)
some-non_empty (c ∷ cs) h = refl

admit-passes :
    (v : Verification) (next : JwtPayload → Passage) (u : User)
    → admit v next ≡ passes u
    → (payload : JwtPayload) × (v ≡ verified payload) × (next payload ≡ passes u)
unfolding admit
admit-passes (verified payload) next u h = (payload, refl, h)
admit-passes expired next u h = absurd cc
admit-passes invalid next u h = absurd cc

with_payload-passes :
    (verify : Text → Verification) (o : Option Text) (next : Text → JwtPayload → Passage) (u : User)
    → with_payload verify o next ≡ passes u
    → (token : Text) × (payload : JwtPayload) × (o ≡ some token)
      × (verify token ≡ verified payload)
      × (next token payload ≡ passes u)
unfolding with_payload
with_payload-passes verify none next u h = absurd cc
with_payload-passes verify (some token) next u h =
    let (payload, genuine, entered) = admit-passes (verify token) (next token) u h in
    (token, payload, refl, genuine, entered)

module _ (verify : Text → Verification) (ask_access : String → Text → Option AccessAnswer) where
  -- What lets a request into a room.
  pub record IsAdmitted (r : Request) (u : User) : Type 0 where
    pub token : Text
    pub payload : JwtPayload
    pub room : String
    pub answer : AccessAnswer
    pub carried : extract_token r ≡ some token
    pub present : token ≢ []
    pub genuine : verify token ≡ verified payload
    pub user : user_of payload ≡ u
    pub named : r.room_id ≡ some room
    pub given : room ≢ ""
    pub answered : ask_access room token ≡ some answer
    pub ok : answer.ok ≡ true
    pub has_access : answer.has_access ≡ true

  check_room_access-answer :
      (room : String) (token : Text)
      → check_room_access ask_access room token ≡ true
      → (answer : AccessAnswer) × (ask_access room token ≡ some answer)
        × (answer.ok ≡ true)
        × (answer.has_access ≡ true)
  unfolding check_room_access
  check_room_access-answer room token h = elim (Option-cases (ask_access room token)) [
    | inl failed ↦ absurd (ground (arith, failed))
    | inr (answer, answered) ↦
        let both : (answer.ok && answer.has_access) ≡ true =
          rw (answered, check_room_access) at h in
        (answer, answered, ground arith, ground arith)
  ]

  enter_room-passes :
      (room_id : Option String) (token : Text) (payload : JwtPayload) (u : User)
      → enter_room ask_access room_id token payload ≡ passes u
      → (room : String) × (room_id ≡ some room)
        × (room ≢ "")
        × (check_room_access ask_access room token ≡ true)
        × (user_of payload ≡ u)
  unfolding enter_room
  enter_room-passes none token payload u h = absurd cc
  enter_room-passes (some room) token payload u h = elim (Bool-cases (room == "")) [
    | inl blank ↦ absurd (let h' = rw (blank, enter_room) at h in cc)
    | inr given ↦ elim (Bool-cases (check_room_access ask_access room token)) [
      | inl allowed ↦ (
        room,
        refl,
        (λ e. absurd (let bad = rw e at given in cc)),
        allowed,
        (let h' = rw (given, allowed, enter_room) at h in cc),
      )
      | inr refused ↦ absurd (let h' = rw (given, refused, enter_room) at h in cc)
    ]
  ]

  enter_room-admits :
      (room : String) (token : Text) (payload : JwtPayload) (answer : AccessAnswer)
      → room ≢ ""
      → ask_access room token ≡ some answer
      → answer.ok ≡ true
      → answer.has_access ≡ true
      → enter_room ask_access (some room) token payload ≡ passes (user_of payload)
  unfolding enter_room check_room_access
  enter_room-admits room token payload answer given answered ok has_access =
      rw (==_ne room "" given, check_room_access, answered, ok, has_access) refl

  -- A request passes the guard of a room exactly when it carries a non-empty token that verifies,
  -- its user is the one of the token, it names a room, and the service of the rooms answered with a
  -- good status that the user has access; and then the other guard lets it pass as the same user.
  pub room_access_guard-passes :
      (r : Request) (u : User)
      → (room_access_guard verify ask_access r ≡ passes u
          → IsAdmitted r u × (jwt_auth_guard verify r ≡ passes u))
        × (IsAdmitted r u → room_access_guard verify ask_access r ≡ passes u)
  unfolding room_access_guard jwt_auth_guard
  room_access_guard-passes r u = (
    λ h.
        let (token, payload, present, genuine, entered) =
          with_payload-passes verify (non_empty (extract_token r)) _ u h in
        let (carried, filled) = non_empty-some (extract_token r) token present in
        let (room, named, given, allowed, user) =
          enter_room-passes r.room_id token payload u entered in
        let (answer, answered, ok, has_access) = check_room_access-answer room token allowed in
        (
          record {
            token = token;
            payload = payload;
            room = room;
            answer = answer;
            carried = carried;
            present = filled;
            genuine = genuine;
            user = user;
            named = named;
            given = given;
            answered = answered;
            ok = ok;
            has_access = has_access;
          },
          rw (present, genuine) (ap passes user),
        ),
    λ a.
        let present = ap non_empty a.carried ∙ some-non_empty a.token a.present in
        rw (present, a.genuine, a.named)
          (enter_room-admits a.room a.token a.payload a.answer a.given a.answered a.ok a.has_access
            ∙ ap passes a.user),
  )
