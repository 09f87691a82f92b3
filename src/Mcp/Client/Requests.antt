-- ===== src/Mcp/Client/Requests.antt =====
-- mcp/client/mcp-client.service.ts: the requests that are waited for and those that are settled.
use aura_new_live_server.Prelude.{
  ℕ, suc, ◌≤◌, ◌<◌, ◌≡◌, refl, sym, inl, inr, String, true, false, not, ◌&&◌, Option, some, List,
  [], ◌∷◌, arith, ◌==◌, if◌then◌else◌, nat_eq, Bool-cases, Option-cases, get, has, get-set,
  get-delete, ==_eq, Table,
}
use aura_new_live_server.Mcp.Client.{
  Response, Outcome, request_timeout, Connection, new_connection, settle, send_request,
  drop_pending, timed_out, outcome_of, handle_response, handle_line, handle_lines, is_blank,
}

-- An identifier that was given out belongs to a request that is waited for or to one that is settled,
-- and not to both; any other belongs to none.
pub record IsConnection (c : Connection) : Type 0 where
  pub owed :
      (id : ℕ) → 0 < id → id ≤ c.request_id → has id c.pending_requests ≡ not (has id c.settled)
  pub unissued_pending :
      (id : ℕ) → has id c.pending_requests ≡ true → (0 < id) × (id ≤ c.request_id)
  pub unissued_settled : (id : ℕ) → has id c.settled ≡ true → (0 < id) × (id ≤ c.request_id)

pub new_connection-IsConnection : IsConnection new_connection
unfolding get
new_connection-IsConnection = record {
  owed = λ id p q. absurd (omega arith);
  unissued_pending = λ id h. cc;
  unissued_settled = λ id h. cc;
}

pub send_request-IsConnection :
    (method : String) (c : Connection) → IsConnection c → IsConnection (send_request method c).1
unfolding send_request
send_request-IsConnection method c v = record {
  owed = λ id p q. ground (
    arith,
    get-set (suc c.request_id) id method c.pending_requests,
    v.owed id,
    v.unissued_settled id,
  );
  unissued_pending = λ id h.
      ground
        (arith, get-set (suc c.request_id) id method c.pending_requests, v.unissued_pending id);
  unissued_settled = λ id h. ground (arith, v.unissued_settled id);
}

-- Settling a request that was given out, and no longer waiting for it.
pub finish-IsConnection :
    (i : ℕ) (o : Outcome) (c : Connection)
    → 0 < i
    → i ≤ c.request_id
    → IsConnection c
    → IsConnection (settle i o (drop_pending i c))
unfolding settle
finish-IsConnection i o c positive given v = elim (Bool-cases (has i c.settled)) [
  | inl before ↦ rw before (record {
    owed = λ id p q. ground (arith, get-delete i id c.pending_requests, v.owed id);
    unissued_pending =
        λ id h. ground (arith, get-delete i id c.pending_requests, v.unissued_pending id);
    unissued_settled = v.unissued_settled;
  })
  | inr first ↦ rw first (record {
    owed = λ id p q.
        ground (arith, get-delete i id c.pending_requests, get-set i id o c.settled, v.owed id);
    unissued_pending =
        λ id h. ground (arith, get-delete i id c.pending_requests, v.unissued_pending id);
    unissued_settled = λ id h. ground (arith, get-set i id o c.settled, v.unissued_settled id);
  })
]

pub timed_out-IsConnection :
    (id : ℕ) (c : Connection) → IsConnection c → IsConnection (timed_out id c)
unfolding timed_out
timed_out-IsConnection id c v = elim (Option-cases (get id c.pending_requests)) [
  | inl gone ↦ rw (gone, timed_out) v
  | inr (method, waiting) ↦
      let issued = v.unissued_pending id (rw waiting refl) in
      rw (waiting, timed_out)
        (finish-IsConnection id (request_timeout method) c issued.0 issued.1 v)
]

pub handle_response-IsConnection :
    (r : Response) (c : Connection) → IsConnection c → IsConnection (handle_response r c)
unfolding handle_response
handle_response-IsConnection r c v = elim (Option-cases (get r.id c.pending_requests)) [
  | inl unknown ↦ rw (unknown, handle_response) v
  | inr (method, waiting) ↦
      let issued = v.unissued_pending r.id (rw waiting refl) in
      rw (waiting, handle_response) (finish-IsConnection r.id (outcome_of r) c issued.0 issued.1 v)
]

-- Settling leaves the request settled.
pub has-settle : (i : ℕ) (o : Outcome) (c : Connection) → has i (settle i o c).settled ≡ true
unfolding settle
has-settle i o c = ground (arith, get-set i i o c.settled)

get-settle :
    (i id : ℕ) (o : Outcome) (c : Connection)
    → has i c.settled ≡ false
    → get id (settle i o c).settled ≡ (if i == id then some o else get id c.settled)
unfolding settle
get-settle i id o c first = rw first (get-set i id o c.settled)

pub settle-keeps :
    (i id : ℕ) (o o' : Outcome) (c : Connection)
    → get id c.settled ≡ some o
    → get id (settle i o' c).settled ≡ some o
unfolding settle
settle-keeps i id o o' c found = ground (arith, get-set i id o' c.settled)

pub handle_response-keeps :
    (id : ℕ) (o : Outcome) (r : Response) (c : Connection)
    → get id c.settled ≡ some o
    → get id (handle_response r c).settled ≡ some o
unfolding handle_response
handle_response-keeps id o r c found = elim (Option-cases (get r.id c.pending_requests)) [
  | inl unknown ↦ rw (unknown, handle_response) found
  | inr (method, waiting) ↦ rw (waiting, handle_response) (settle-keeps r.id id o _ _ found)
]

-- What handling each response preserves, receiving output preserves.
module _ {ℓ} (P : Connection → Type ℓ) (parse : List ℕ → Option Response)
    (step : (r : Response) (c : Connection) → P c → P (handle_response r c)) where
  handle_line_induction : (l : List ℕ) (c : Connection) → P c → P (handle_line parse l c)
  unfolding handle_line
  handle_line_induction l c p = elim (Bool-cases (is_blank l)) [
    | inl blank ↦ rw blank p
    | inr text ↦ rw text (elim (Option-cases (parse l)) [
      | inl broken ↦ rw broken p
      | inr (r, read) ↦ rw read (step r c p)
    ])
  ]

  pub handle_lines_induction :
      (ls : List (List ℕ)) (c : Connection) → P c → P (handle_lines parse ls c)
  unfolding handle_lines
  handle_lines_induction [] c p = p
  handle_lines_induction (l ∷ ls) c p =
      handle_lines_induction ls (handle_line parse l c) (handle_line_induction l c p)

-- A test that decides a choice may be dropped beside one that implies it.
if-same_key {ℓ} :
    {A : Type ℓ} (i id : ℕ) (t : Table ℕ String) (x y : A)
    → has i t ≡ true
    → (if i == id && has id t then x else y) ≡ (if i == id then x else y)
if-same_key i id t x y found = elim (Bool-cases (i == id)) [
  | inl same ↦ rw (same, sym (==_eq i id same), found) refl
  | inr other ↦ rw other refl
]

if-missing_key {ℓ} :
    {A : Type ℓ} (i id : ℕ) (t : Table ℕ String) (x y : A)
    → has i t ≡ false
    → (if i == id && has id t then x else y) ≡ y
if-missing_key i id t x y missing = elim (Bool-cases (i == id)) [
  | inl same ↦ rw (same, sym (==_eq i id same), missing) refl
  | inr other ↦ rw other refl
]

-- On a connection each of whose identifiers is that of a request waited for or settled, not both, a
-- response settles the request that it names, if that is waited for, with the result or the error
-- that it carries, and no other request.
pub get-handle_response :
    (r : Response) (id : ℕ) (c : Connection)
    → IsConnection c
    → get id (handle_response r c).settled
      ≡ (if r.id == id && has id c.pending_requests then some (outcome_of r) else get id c.settled)
unfolding handle_response
get-handle_response r id c v = elim (Option-cases (get r.id c.pending_requests)) [
  | inl unknown ↦
      rw (unknown, handle_response)
        (sym (if-missing_key r.id id c.pending_requests _ _ (rw unknown refl)))
  | inr (method, waiting) ↦
      let issued = v.unissued_pending r.id (rw waiting refl) in
      let first : has r.id c.settled ≡ false = ground (arith, v.owed r.id) in
      rw (waiting, handle_response)
        (rw (get-settle r.id id (outcome_of r) (drop_pending r.id c) first)
          (sym (if-same_key r.id id c.pending_requests _ _ (rw waiting refl))))
]
