-- ===== src/Session/Reading/Silence.antt =====
-- What becomes of a session whose client sent a malformed packet (session/session.go).
use gobds.Base.{
  String, subst, ◌⊎◌, inl, inr, ◌≡◌, refl, sym, ◌∙◌, Bool, true, false, List, [], ◌∷◌, ◌++◌,
}
use gobds.Session.State.{Written, disconnect}
use gobds.Session.Handlers.Handling.{Handled, forwarded, cancelled, malformed, failed, panicked}
use gobds.Session.Packets.{
  Packet, World, State, Answer, Verdict, sends, drops, stops, handle, settle, handle_packet,
}
use gobds.Session.Reading.{
  Connections, Step, client_packet, client_ends, server_packet, server_ends, Run, stay, step,
  end_client, end_server, follow_client, follow_server, sent_over,
}

-- Both connections are closed, and the loop of the client has ended.
pub record IsClosed (c : Connections) : Type 0 where
  pub client_open : c.client_open ≡ false
  pub server_open : c.server_open ≡ false
  pub client_reads : c.client_reads ≡ false

-- Nothing was sent on from one to the other.
pub record Silent (c d : Connections) : Type 0 where
  pub to_server : d.to_server ≡ c.to_server
  pub to_client : d.to_client ≡ c.to_client

sent_over_closed :
    (is_open : Bool) (ps : List Packet) (p : Packet) → is_open ≡ false → sent_over is_open ps p ≡ ps
sent_over_closed true ps p h = absurd (cc)
sent_over_closed false ps p h = refl

follow_server-IsClosed :
    (c : Connections) (r : State × Verdict)
    → IsClosed c
    → IsClosed (follow_server c r) × Silent c (follow_server c r)
unfolding follow_server end_server
follow_server-IsClosed c (t, sends p) h = (
  record {
    client_open = h.client_open;
    server_open = h.server_open;
    client_reads = h.client_reads;
  },
  record {
    to_server = refl;
    to_client = sent_over_closed c.client_open c.to_client p h.client_open;
  },
)
follow_server-IsClosed c (t, drops) h = (
  record {
    client_open = h.client_open;
    server_open = h.server_open;
    client_reads = h.client_reads;
  },
  record { to_server = refl; to_client = refl },
)
follow_server-IsClosed c (t, stops) h = (
  record { client_open = refl; server_open = h.server_open; client_reads = h.client_reads },
  record { to_server = refl; to_client = refl },
)

refuse : {b : Bool} → b ≡ true → b ≡ false → ⊥
refuse e f = absurd (cc)

Step-IsClosed : {c d : Connections} → Step c d → IsClosed c → IsClosed d × Silent c d
unfolding end_server
Step-IsClosed (client_packet w p reads) h = absurd (refuse reads h.client_reads)
Step-IsClosed (client_ends reads) h = absurd (refuse reads h.client_reads)
Step-IsClosed (server_packet {c} w p reads) h = follow_server-IsClosed c _ h
Step-IsClosed (server_ends reads) h = (
  record { client_open = refl; server_open = h.server_open; client_reads = h.client_reads },
  record { to_server = refl; to_client = refl },
)

Run-Silent : {c d : Connections} → Run c d → IsClosed c → Silent c d
Run-Silent stay h = record { to_server = refl; to_client = refl }
Run-Silent (step s run) h =
    let (k, first) = Step-IsClosed s h in
    let later = Run-Silent run k in
    record {
      to_server = later.to_server ∙ first.to_server;
      to_client = later.to_client ∙ first.to_client;
    }

-- The handler called the packet malformed, or it panicked.
abbrev pub IsMalformed : Handled → Type 0
IsMalformed o = ((reason : String) × (o ≡ malformed reason)) ⊎ (o ≡ panicked)

-- The last thing that a session wrote is the message that disconnects the client.
abbrev pub IsDismissed : State → Type 0
IsDismissed t =
    (ws : List Written) × (t.0.written ≡ ws ++ disconnect "Malformed client packet." ∷ [])

malformed_answer :
    (a : Answer) → IsMalformed a.1 → ((settle a).1 ≡ stops) × IsDismissed (settle a).0
unfolding settle
malformed_answer (((s, r), p), forwarded) (inl (reason, e)) = absurd (cc)
malformed_answer (((s, r), p), forwarded) (inr e) = absurd (cc)
malformed_answer (((s, r), p), cancelled) (inl (reason, e)) = absurd (cc)
malformed_answer (((s, r), p), cancelled) (inr e) = absurd (cc)
malformed_answer (((s, r), p), malformed reason) h = (refl, (s.written, refl))
malformed_answer (((s, r), p), failed reason) (inl (other, e)) = absurd (cc)
malformed_answer (((s, r), p), failed reason) (inr e) = absurd (cc)
malformed_answer (((s, r), p), panicked) h = (refl, (s.written, refl))

stopped_client :
    (c : Connections) (t : State) (v : Verdict)
    → v ≡ stops
    → IsClosed (follow_client c (t, v))
      × Silent c (follow_client c (t, v))
      × ((follow_client c (t, v)).state ≡ t)
unfolding follow_client end_client
stopped_client c t (sends p) e = absurd (cc)
stopped_client c t drops e = absurd (cc)
stopped_client c t stops e = (
  record { client_open = refl; server_open = refl; client_reads = refl },
  record { to_server = refl; to_client = refl },
  refl,
)

-- A malformed packet of the client, or one whose handler panics, is not sent on. The session tells the
-- client that it is disconnected. However the two loops go on after that, no packet is sent on any more,
-- to the server or to the client.
pub malformed_packet-Silent :
    {c d : Connections} (w : World) (p : Packet)
    → IsMalformed (handle w true p c.state).1
    → Run (follow_client c (handle_packet w true p c.state)) d
    → Silent c d × IsDismissed (follow_client c (handle_packet w true p c.state)).state
unfolding handle_packet
malformed_packet-Silent {c} w p h run =
    let (e, told) = malformed_answer (handle w true p c.state) h in
    let (t, v) = settle (handle w true p c.state) in
    let (closed, first, same) = stopped_client c t v e in
    let later = Run-Silent run closed in
    (
      record {
        to_server = later.to_server ∙ first.to_server;
        to_client = later.to_client ∙ first.to_client;
      },
      subst IsDismissed (sym same) told,
    )
