-- ===== src/Mcp/Servers.antt =====
-- mcp/client/: the connections by name of server, in mcp-client.service.ts, and the configured servers,
-- in mcp-config.service.ts.
pub mod Lifecycle
use aura_new_live_server.Prelude.{
  ℕ, suc, String, Bool, true, false, not, Option, none, some, List, [], ◌∷◌, ◌++◌, keep, any, find,
  is_some, ◌==◌, if◌then◌else◌, nat_eq, string_eq, Table, get, has, set, delete, ◌>>=◌,
}
use aura_new_live_server.Mcp.Client.{
  ConnectionState, disconnected, connecting, connected, error, Response, Connection, new_connection,
  send_request, handle_stdout,
}

-- Connections are objects, and a name has the reference of one. The process of a connection has the
-- same number; its handlers of `close` and `error` keep the connection, that of `data` only the name
-- that it was started for.
pub record Clients : Type 0 where
  pub objects : Table ℕ Connection
  pub processes : Table ℕ String
  pub connections : Table String ℕ
  pub allocated : ℕ

abbrev pub no_clients : Clients
no_clients = record { objects = []; processes = []; connections = []; allocated = 0 }

unfoldable pub update : ℕ → (Connection → Connection) → Clients → Clients
update i f s = elim (get i s.objects) [
  | none ↦ s
  | some c ↦ record s { objects = set i (f c) s.objects }
]

unfoldable pub get_connection : String → Clients → Option Connection
get_connection name s = do i ← get name s.connections; get i s.objects

-- The connection whose handshake has begun: `initialize` sends its request before it waits.
abbrev pub started : Connection
started = (send_request "initialize" new_connection).1

-- `connect` up to the answer of the handshake: the connection that it goes on with, none where it
-- returns at once.
unfoldable pub connect : String → Clients → Option ℕ × Clients
unfolding send_request
connect name s =
    let i = suc s.allocated in
    if has name s.connections then (none, s) else (
      some i,
      record {
        objects = set i started s.objects;
        processes = set i name s.processes;
        connections = set name i s.connections;
        allocated = i;
      },
    )

-- The rest of `connect`: the server is initialized, its tools are known, or one of the two failed.
unfoldable pub initialized : ℕ → Clients → Clients
unfolding update
initialized i s = update i (λ c. record c { state = connected }) s

unfoldable pub tools_listed : ℕ → List String → Clients → Clients
unfolding update
tools_listed i tools s = update i (λ c. record c { tools = tools }) s

unfoldable pub connect_failed : ℕ → Clients → Clients
unfolding update
connect_failed i s = update i (λ c. record c { state = error }) s

-- The handlers of `close` and `error` of a process.
unfoldable pub process_closed : ℕ → Clients → Clients
unfolding update
process_closed i s = update i (λ c. record c { state = disconnected }) s

unfoldable pub process_failed : ℕ → Clients → Clients
unfolding update
process_failed i s = update i (λ c. record c { state = error }) s

-- `disconnect`
unfoldable pub disconnect : String → Clients → Clients
disconnect name s = record s { connections = delete name s.connections }

-- `onModuleDestroy`
unfoldable pub close_all : Clients → Clients
close_all s = record s { connections = [] }

-- `getConnectionState`
unfoldable pub get_connection_state : String → Clients → ConnectionState
unfolding get_connection
get_connection_state name s = elim (get_connection name s) [
  | none ↦ disconnected
  | some c ↦ c.state
]

-- The request of `callTool` and of the handshake, none where the promise is rejected at once.
unfoldable pub request : String → String → Clients → Option ℕ × Clients
unfolding get_connection update send_request
request name method s = elim (get name s.connections) [
  | none ↦ (none, s)
  | some i ↦ elim (get i s.objects) [
    | none ↦ (none, s)
    | some c ↦ (some (send_request method c).0, update i (λ c. (send_request method c).1) s)
  ]
]

-- `data` of a process arrives: its handler looks up the connection by name.
module _ (parse : List ℕ → Option Response) where
  unfoldable pub handle_output : String → List ℕ → Clients → Clients
  unfolding update handle_stdout
  handle_output name bytes s = elim (get name s.connections) [
    | none ↦ s
    | some i ↦ update i (handle_stdout parse bytes) s
  ]

  unfoldable pub output_arrives : ℕ → List ℕ → Clients → Clients
  unfolding handle_output
  output_arrives process bytes s = elim (get process s.processes) [
    | none ↦ s
    | some name ↦ handle_output name bytes s
  ]

-- `McpServerConfig`, by the name and the command
pub record ServerConfig : Type 0 where
  pub name : String
  pub command : String

abbrev pub is_named : String → ServerConfig → Bool
is_named name config = config.name == name

-- `addServer`
unfoldable pub add_server : ServerConfig → List ServerConfig → List ServerConfig
add_server config servers =
    if is_some (find (is_named config.name) servers) then servers else servers ++ config ∷ []

-- `removeServer`
unfoldable pub remove_server : String → List ServerConfig → Clients → List ServerConfig × Clients
unfolding disconnect
remove_server name servers s = (keep (λ c. not (is_named name c)) servers, disconnect name s)

-- `connectServer` up to the handshake, none where the server is not configured
unfoldable pub connect_server : String → List ServerConfig → Clients → Option (Option ℕ × Clients)
unfolding connect
connect_server name servers s = do
  config ← find (is_named name) servers
  some (connect config.name s)
