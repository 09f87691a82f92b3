-- ===== src/Mcp/Decoder.antt =====
-- `data.toString()` of mcp/client/mcp-client.service.ts: the runtime decodes each buffer by itself.
use aura_new_live_server.Prelude.{
  Text, ℕ, ◌+◌, ◌-◌, ◌*◌, ◌/◌, ◌%◌, ◌≡◌, refl, sym, ◌∙◌, ap, ◌&&◌, List, [], ◌∷◌, ◌++◌,
  append_assoc, append-nil, leb, ltb, ◌==◌, if◌then◌else◌, nat_eq,
}

-- Between two characters, or within one: its value so far, how many bytes it still needs, and the
-- limits of the next one.
pub data Decoder : Type 0 where
  idle : Decoder
  within : (code needed lowest highest : ℕ) → Decoder

-- The code units of a character
unfoldable pub utf16 : ℕ → Text
utf16 code =
    if ltb code 65536
    then code ∷ []
    else (55296 + (code - 65536) / 1024) ∷ (56320 + (code - 65536) % 1024) ∷ []

-- The replacement character
abbrev pub replacement : Text
replacement = 65533 ∷ []

-- The first byte of a character
unfoldable pub first_byte : ℕ → Text × Decoder
first_byte b =
    if leb b 127
    then (b ∷ [], idle)
    else if leb 194 b && leb b 223
    then ([], within (b - 192) 1 128 191)
    else if leb 224 b && leb b 239
    then ([], within (b - 224) 2 (if b == 224 then 160 else 128) (if b == 237 then 159 else 191))
    else if leb 240 b && leb b 244
    then ([], within (b - 240) 3 (if b == 240 then 144 else 128) (if b == 244 then 143 else 191))
    else (replacement, idle)

-- A byte: one that does not go on with a character ends it as a replacement, and begins another.
unfoldable pub next_byte : Decoder → ℕ → Text × Decoder
unfolding first_byte utf16
next_byte idle b = first_byte b
next_byte (within code needed lowest highest) b =
    let code' = 64 * code + (b - 128) in
    let (t, d) = first_byte b in
    if leb lowest b && leb b highest
    then if needed == 1 then (utf16 code', idle) else ([], within code' (needed - 1) 128 191)
    else (replacement ++ t, d)

unfoldable pub feed : Decoder → List ℕ → Text × Decoder
unfolding next_byte
feed d [] = ([], d)
feed d (b ∷ bs) = let (t, d') = next_byte d b in let (ts, last) = feed d' bs in (t ++ ts, last)

-- A character that the buffer cuts off
unfoldable pub cut_off : Decoder → Text
cut_off idle = []
cut_off (within code needed lowest highest) = replacement

-- `data.toString()`
unfoldable pub to_string : List ℕ → Text
unfolding feed cut_off
to_string bytes = let (t, d) = feed idle bytes in t ++ cut_off d

-- Where the bytes end: `idle` after the last byte of a character.
abbrev pub end_of : List ℕ → Decoder
end_of bytes = (feed idle bytes).1

feed-append :
    (d : Decoder) (a b : List ℕ)
    → feed d (a ++ b) ≡ ((feed d a).0 ++ (feed (feed d a).1 b).0, (feed (feed d a).1 b).1)
unfolding feed
feed-append d [] b = refl
feed-append d (x ∷ a) b =
    let (t, d') = next_byte d x in
    let (rest, last) = feed d' a in
    ap (λ (r : Text × Decoder). (t ++ r.0, r.1)) (feed-append d' a b)
    ∙ ap (λ (u : Text). (u, (feed last b).1)) (sym (append_assoc t rest (feed last b).0))

-- Bytes that end with a character are decoded apart from those that follow.
pub to_string-append :
    (a b : List ℕ) → end_of a ≡ idle → to_string (a ++ b) ≡ to_string a ++ to_string b
unfolding to_string
to_string-append a b whole =
    let (t, d) = feed idle a in
    ap (λ (r : Text × Decoder). r.0 ++ cut_off r.1) (feed-append idle a b)
    ∙ ap (λ (e : Decoder). (t ++ (feed e b).0) ++ cut_off (feed e b).1) whole
    ∙ append_assoc t (feed idle b).0 (cut_off (feed idle b).1)
    ∙ ap (λ (u : Text). u ++ to_string b) (sym (append-nil t))
    ∙ ap (λ (e : Decoder). (t ++ cut_off e) ++ to_string b) (sym whole)
