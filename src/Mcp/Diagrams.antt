-- ===== src/Mcp/Diagrams.antt =====
-- mcp/mcp.service.ts: the cache of the generated diagrams.
pub mod Cache
use aura_new_live_server.Prelude.{
  Text, starts_with, ℕ, zero, suc, ◌-◌, ◌<◌, String, Bool, true, false, Option, none, some, List,
  [], ◌∷◌, ◌++◌, length, ltb, any, ◌==◌, if◌then◌else◌, nat_eq, list_eq, Table, get, set, delete,
}

-- What the execution of a tool returns or throws.
pub data Execution : Type 0 where
  returned : Text → Execution
  thrown : (message : String) → Execution

-- `InternalToolResult`
pub data InternalToolResult : Type 0 where
  success : (output : Text) → InternalToolResult
  failure : (error : String) → InternalToolResult
  unknown_tool : InternalToolResult

-- `DiagramCacheEntry`; its hash is a part of its key.
pub record DiagramCacheEntry : Type 0 where
  pub result : InternalToolResult
  pub timestamp : ℕ

abbrev pub DiagramCache : Type 0
DiagramCache = Table Text DiagramCacheEntry

abbrev pub cache_ttl : ℕ
cache_ttl = 300000

-- `cleanupCache`, each ten minutes
unfoldable pub cleanup_cache : ℕ → DiagramCache → DiagramCache
cleanup_cache now [] = []
cleanup_cache now ((key, entry) ∷ cache) =
    let rest = cleanup_cache now cache in
    if ltb cache_ttl (now - entry.timestamp) then rest else (key, entry) ∷ rest

-- `slice(0, n)`
abbrev pub take : ℕ → Text → Text
take zero text = []
take (suc n) [] = []
take (suc n) (c ∷ cs) = c ∷ take n cs

-- The names of `allTools`: flowchart, sequence, erd, architecture, kanban and timer.
abbrev pub tool_names : List Text
tool_names =
    (102 ∷ 108 ∷ 111 ∷ 119 ∷ 99 ∷ 104 ∷ 97 ∷ 114 ∷ 116 ∷ [])
    ∷ (115 ∷ 101 ∷ 113 ∷ 117 ∷ 101 ∷ 110 ∷ 99 ∷ 101 ∷ [])
    ∷ (101 ∷ 114 ∷ 100 ∷ [])
    ∷ (97 ∷ 114 ∷ 99 ∷ 104 ∷ 105 ∷ 116 ∷ 101 ∷ 99 ∷ 116 ∷ 117 ∷ 114 ∷ 101 ∷ [])
    ∷ (107 ∷ 97 ∷ 110 ∷ 98 ∷ 97 ∷ 110 ∷ [])
    ∷ (116 ∷ 105 ∷ 109 ∷ 101 ∷ 114 ∷ [])
    ∷ []

-- How the language writes a number.
module _ (show : ℕ → Text) where
  -- `hashTranscript`
  abbrev pub hash_transcript : Text → Text
  hash_transcript transcript = take 100 transcript ++ 95 ∷ show (length transcript)

  abbrev pub cache_key : Text → Text → Text
  cache_key tool_name transcript = tool_name ++ 95 ∷ hash_transcript transcript

abbrev pub is_tool : Text → Bool
is_tool tool_name = any (λ name. name == tool_name) tool_names

unfoldable pub cached : Text → ℕ → DiagramCache → Option InternalToolResult
cached key now cache = elim (get key cache) [
  | none ↦ none
  | some entry ↦ if ltb (now - entry.timestamp) cache_ttl then some entry.result else none
]

unfoldable pub generated : Text → Execution → ℕ → DiagramCache → InternalToolResult × DiagramCache
generated key (returned output) now cache =
    (success output, set key (record { result = success output; timestamp = now }) cache)
generated key (thrown message) now cache = (failure message, cache)

-- How a tool generates a diagram from a transcript at a time.
module _ (show : ℕ → Text) (execute : Text → Text → ℕ → Execution) where
  -- `generateDiagram`, called at one time and answered by the tool at another
  unfoldable pub generate_diagram :
      Text → Text → ℕ → ℕ → DiagramCache → InternalToolResult × DiagramCache
  unfolding cached generated
  generate_diagram tool_name transcript now later cache =
      let key = cache_key show tool_name transcript in
      if is_tool tool_name
      then (elim (cached key now cache) [
        | some result ↦ (result, cache)
        | none ↦ generated key (execute tool_name transcript now) later cache
      ])
      else (unknown_tool, cache)
