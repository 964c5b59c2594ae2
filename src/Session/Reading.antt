-- ===== src/Session/Reading.antt =====
-- ReadPackets of session/session.go: two loops, one for each connection of a session, whose steps come
-- in any order. A closed connection takes no packet; whether a read from it still gives one is left open.
pub mod Silence
use gobds.Base.{Bool, true, false, List, [], ◌∷◌, ◌++◌, ◌≡◌, if◌then◌else◌}
use gobds.Session.Packets.{Packet, World, State, Verdict, sends, drops, stops, handle_packet}

-- A session with its two connections: what was sent on over each, whether it is open, and whether the
-- loop that reads from it still runs.
pub record Connections : Type 0 where
  pub state : State
  pub to_server : List Packet
  pub to_client : List Packet
  pub client_open : Bool
  pub server_open : Bool
  pub client_reads : Bool
  pub server_reads : Bool

-- conn.WritePacket
abbrev pub sent_over : Bool → List Packet → Packet → List Packet
sent_over is_open packets p = if is_open then packets ++ p ∷ [] else packets

-- The end of the loop that reads from the client, which closes the connection to the server.
unfoldable pub end_client : Connections → Connections
end_client c = record c { client_reads = false; server_open = false }

-- The end of the other loop.
unfoldable pub end_server : Connections → Connections
end_server c = record c { server_reads = false; client_open = false }

-- What the loop of the client does with the answer of handlePacket. An error comes with Disconnect,
-- which closes the connection to the client.
unfoldable pub follow_client : Connections → State × Verdict → Connections
follow_client c (t, sends p) = record c {
  state = t;
  to_server = sent_over c.server_open c.to_server p;
}
follow_client c (t, drops) = record c { state = t }
follow_client c (t, stops) = end_client (record c { state = t; client_open = false })

unfoldable pub follow_server : Connections → State × Verdict → Connections
follow_server c (t, sends p) = record c {
  state = t;
  to_client = sent_over c.client_open c.to_client p;
}
follow_server c (t, drops) = record c { state = t }
follow_server c (t, stops) = end_server (record c { state = t; client_open = false })

-- One step of one of the loops that run: a packet, or the end of the reading.
pub data Step : Connections → Connections → Type 1 where
  client_packet :
      {c : Connections} (w : World) (p : Packet)
      → c.client_reads ≡ true
      → Step c (follow_client c (handle_packet w true p c.state))
  client_ends : {c : Connections} → c.client_reads ≡ true → Step c (end_client c)
  server_packet :
      {c : Connections} (w : World) (p : Packet)
      → c.server_reads ≡ true
      → Step c (follow_server c (handle_packet w false p c.state))
  server_ends : {c : Connections} → c.server_reads ≡ true → Step c (end_server c)

pub data Run : Connections → Connections → Type 1 where
  stay : {c : Connections} → Run c c
  step : {c d e : Connections} → Step c d → Run d e → Run c e

-- The two loops, as they start.
abbrev pub opened : State → Connections
opened t = record {
  state = t;
  to_server = [];
  to_client = [];
  client_open = true;
  server_open = true;
  client_reads = true;
  server_reads = true;
}
