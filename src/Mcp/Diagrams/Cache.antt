-- ===== src/Mcp/Diagrams/Cache.antt =====
-- mcp/mcp.service.ts: when the cache answers, and with what.
use aura_new_live_server.Prelude.{
  Text, ℕ, ◌-◌, ◌+◌, ◌<◌, ◌≡◌, refl, true, none, some, length, arith, ltb, nat_eq, list_eq, set,
  get-set_self,
}
use aura_new_live_server.Mcp.Diagrams.{
  Execution, returned, InternalToolResult, success, DiagramCache, take, is_tool, cache_key, cached,
  generated, generate_diagram,
}

cached-set :
    (key output : Text) (now again : ℕ) (cache : DiagramCache)
    → again < now + 300000
    → cached key again (set key (record { result = success output; timestamp = now }) cache)
      ≡ some (success output)
unfolding cached
cached-set key output now again cache soon =
    let fresh : ltb (again - now) 300000 ≡ true = ground arith in
    rw (get-set_self key (record { result = success output; timestamp = now }) cache, cached, fresh)
      refl

module _ (show : ℕ → Text) (execute : Text → Text → ℕ → Execution) where
  generate_diagram-miss :
      (tool transcript output : Text) (now later : ℕ) (cache : DiagramCache)
      → is_tool tool ≡ true
      → cached (cache_key show tool transcript) now cache ≡ none
      → execute tool transcript now ≡ returned output
      → generate_diagram show execute tool transcript now later cache ≡ (
        success output,
        set
            (cache_key show tool transcript)
            (record { result = success output; timestamp = later })
            cache,
      )
  unfolding generate_diagram generated
  generate_diagram-miss tool transcript output now later cache known cold ran =
      rw (known, cold, ran) refl

  generate_diagram-hit :
      (tool transcript : Text) (result : InternalToolResult) (now later : ℕ) (cache : DiagramCache)
      → is_tool tool ≡ true
      → cached (cache_key show tool transcript) now cache ≡ some result
      → generate_diagram show execute tool transcript now later cache ≡ (result, cache)
  unfolding generate_diagram
  generate_diagram-hit tool transcript result now later cache known hit = rw (known, hit) refl

  -- The diagram that a tool generated answers, until five minutes after it arrived, each call of
  -- the same tool with a transcript of the same length and the same first hundred units, though the
  -- rest of that transcript be different.
  pub generate_diagram_again :
      (tool transcript other output : Text) (now later again n : ℕ) (cache : DiagramCache)
      → is_tool tool ≡ true
      → cached (cache_key show tool transcript) now cache ≡ none
      → execute tool transcript now ≡ returned output
      → take 100 other ≡ take 100 transcript
      → length other ≡ length transcript
      → again < later + 300000
      → (let (result, after) = generate_diagram show execute tool transcript now later cache in
          (result ≡ success output)
          × (generate_diagram show execute tool other again n after ≡ (success output, after)))
  generate_diagram_again tool transcript other output now later again n cache known cold ran first
        long soon =
      let key = cache_key show tool transcript in
      let stored = set key (record { result = success output; timestamp = later }) cache in
      let same : cache_key show tool other ≡ key = rw (first, long) refl in
      let hit = cached-set key output later again cache soon in
      rw (generate_diagram-miss tool transcript output now later cache known cold ran)
        (refl, generate_diagram-hit tool other (success output) again n stored known (rw same hit))
