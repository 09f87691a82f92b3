-- ===== src/Mcp/Client/Framing.antt =====
-- mcp/client/mcp-client.service.ts: the lines of the output.
use aura_new_live_server.Prelude.{
  ℕ, ◌≡◌, refl, sym, ◌∙◌, ap, inl, inr, false, Option, List, [], ◌∷◌, ◌++◌, append_assoc, arith,
  ◌==◌, nat_eq, Bool-cases, Option-cases, get,
}
use aura_new_live_server.Mcp.Client.{
  Response, Outcome, Connection, settle, handle_response, glue, split_lines, is_blank, handle_line,
  handle_lines, handle_text, handle_stdout,
}
use aura_new_live_server.Mcp.Decoder.{idle, end_of, to_string, to_string-append}

abbrev set_buffer : List ℕ → Connection → Connection
set_buffer b c = record c { buffer = b }

-- The parts of a text that goes on after the parts of a first text.
abbrev split_rest : List (List ℕ) × List ℕ → List ℕ → List (List ℕ) × List ℕ
split_rest (ls, last) b = (ls ++ (split_lines (last ++ b)).0, (split_lines (last ++ b)).1)

glue-split_rest :
    (c : ℕ) (r : List (List ℕ) × List ℕ) (b : List ℕ)
    → (c == 10) ≡ false
    → glue c (split_rest r b) ≡ split_rest (glue c r) b
unfolding split_lines
glue-split_rest c ([], last) b h = rw h
glue-split_rest c (l ∷ ls, last) b h = refl

-- Splitting a text and another is splitting the first, and then what it left with the other.
split_lines-append : (a b : List ℕ) → split_lines (a ++ b) ≡ split_rest (split_lines a) b
unfolding split_lines
split_lines-append [] b = refl
split_lines-append (c ∷ a) b = elim (Bool-cases (c == 10)) [
  | inl newline ↦ rw newline (rw (split_lines-append a b))
  | inr other ↦ rw other (rw (split_lines-append a b) (glue-split_rest c (split_lines a) b other))
]

set_buffer-settle :
    (b : List ℕ) (id : ℕ) (o : Outcome) (c : Connection)
    → settle id o (set_buffer b c) ≡ set_buffer b (settle id o c)
unfolding settle
set_buffer-settle b id o c = ground arith

set_buffer-handle_response :
    (b : List ℕ) (r : Response) (c : Connection)
    → handle_response r (set_buffer b c) ≡ set_buffer b (handle_response r c)
unfolding handle_response
set_buffer-handle_response b r c = elim (Option-cases (get r.id c.pending_requests)) [
  | inl unknown ↦ rw (unknown, handle_response)
  | inr (method, waiting) ↦ rw (waiting, handle_response) (set_buffer-settle b r.id _ _)
]

module _ (parse : List ℕ → Option Response) where
  set_buffer-handle_line :
      (b l : List ℕ) (c : Connection)
      → handle_line parse l (set_buffer b c) ≡ set_buffer b (handle_line parse l c)
  unfolding handle_line
  set_buffer-handle_line b l c = elim (Bool-cases (is_blank l)) [
    | inl blank ↦ rw blank
    | inr text ↦ rw text (elim (Option-cases (parse l)) [
      | inl broken ↦ rw broken
      | inr (r, read) ↦ rw read (set_buffer-handle_response b r c)
    ])
  ]

  set_buffer-handle_lines :
      (b : List ℕ) (ls : List (List ℕ)) (c : Connection)
      → handle_lines parse ls (set_buffer b c) ≡ set_buffer b (handle_lines parse ls c)
  unfolding handle_lines
  set_buffer-handle_lines b [] c = refl
  set_buffer-handle_lines b (l ∷ ls) c =
      rw (set_buffer-handle_line b l c) (set_buffer-handle_lines b ls (handle_line parse l c))

  handle_lines-append :
      (ls ms : List (List ℕ)) (c : Connection)
      → handle_lines parse (ls ++ ms) c ≡ handle_lines parse ms (handle_lines parse ls c)
  unfolding handle_lines
  handle_lines-append [] ms c = refl
  handle_lines-append (l ∷ ls) ms c = handle_lines-append ls ms (handle_line parse l c)

  handle_text-append :
      (a b : List ℕ) (c : Connection)
      → handle_text parse (a ++ b) c ≡ handle_text parse b (handle_text parse a c)
  unfolding handle_text
  handle_text-append a b c =
      let (la, ra) = split_lines (c.buffer ++ a) in
      let (lb, rb) = split_lines (ra ++ b) in
      let cut = ap split_lines (sym (append_assoc c.buffer a b)) ∙ split_lines-append _ b in
      ap (λ r. handle_lines parse r.0 (set_buffer r.1 c)) cut
      ∙ handle_lines-append la lb _
      ∙ ap (handle_lines parse lb) (set_buffer-handle_lines rb la c)
      ∙ ap (handle_text parse b) (sym (set_buffer-handle_lines ra la c))

  -- Where the bytes of a first buffer of output end with the last byte of a character, receiving
  -- that buffer and then another leaves the connection as receiving both at once does.
  pub handle_stdout-append :
      (a b : List ℕ) (c : Connection)
      → end_of a ≡ idle
      → handle_stdout parse (a ++ b) c ≡ handle_stdout parse b (handle_stdout parse a c)
  unfolding handle_stdout
  handle_stdout-append a b c whole =
      ap (λ text. handle_text parse text c) (to_string-append a b whole)
      ∙ handle_text-append (to_string a) (to_string b) c
