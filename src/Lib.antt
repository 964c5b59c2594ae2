-- ===== src/Lib.antt =====
-- GoBDS is a proxy between Minecraft Bedrock clients and dedicated servers. It reads every packet of a
-- player, lets some pass, changes some and drops some. This library models the parts that decide: the
-- land claims and who may act in them, the world border, the entities of a session, the limits on
-- what a client may send, the handling of a player's input, who may join and who is kicked for idling.
--
-- How the parts interact. gobds/gobds.go reserves the XUID of a connection with the server where
-- duplicate XUIDs are refused (Server), admits it (Admission) and makes a session for it
-- (Session/State). The server's claim factory fetches the
-- claims over HTTP and publishes a snapshot of them (Claim). The handlers of a session ask the factory
-- for the snapshot, look up the claims at a position and decide by the policy of the one they find
-- (Session/Claims, Policy). Every few seconds gobds/afk.go warns and kicks idle players (Afk). Each
-- packet of a player, and each of the server, goes through the dispatch of Session/Packets to its
-- handler; Session/Reading has the two loops that read them.
--
-- The files, and the code that they model. A definition has the name of the Go function or type in
-- this library's spelling.
-- - Base and its children: tests as Booleans, lists, integers, association lists, results.
-- - Float, Clock: the float32 and float64 values, times and durations that the code uses.
-- - Geometry: the tests on positions of gobds/session/util.go and
--   gobds/session/util_claim_action.go.
-- - Area: gobds/util/area/area2d.go; Area/Chunks compares the border on chunks with that on blocks.
-- - Claim/Model, Claim/Status, Claim/Dimension, Claim/Snapshot and its children:
--   gobds/claim/model.go and gobds/claim/snapshot.go. A snapshot is an immutable value; Validate
--   copies and checks the claims, Cells and Index enter them into the spatial index, Build is
--   BuildSnapshot with the queries.
-- - Claim/Metrics: gobds/claim/metrics.go. Claim/Service: gobds/claim/service.go. Claim/Factory:
--   gobds/claim/factory.go, whose lock makes a refresh one step.
-- - Policy: ClaimActionPermitted of gobds/session/util_claim_action.go with all that it calls;
--   Policy/Rules states its rules as a data type.
-- - Session/Claims: claimActionPermitted and singleClaimAt of the same file. Session/Dimension,
--   Session/Positions: gobds/session/util.go. Session/Data: gobds/session/data.go.
-- - Session/State, Session/Afk, Session/Corrective: gobds/session/session.go. What a session writes to
--   its connections is a list in its state.
-- - Session/Handlers: gobds/session/handler_*.go, one module for a handler or for a group of short ones:
--   Actors (the entities), Player (the player's rank, mode and place, the items, the level chunks),
--   AuthInput, AvailableCommands, CommandRequest, Inventory, ItemStack, ModalForm, SubChunk, Text.
-- - Session/Packets: handlePacket of gobds/session/session.go, with the handler of each kind of packet.
--   Session/Reading: ReadPackets of the same file, whose two loops take their steps in any order.
-- - Commands: gobds/cmd. Forms: gobds/util/formutil. Translations: gobds/util/translator.
-- - Strings: the functions of Go's strings and strconv packages that the code calls.
-- - Traffic: gobds/session/traffic.go.
-- - Entity: gobds/entity.
-- - LogFilter: filterlog.go.
-- - Services: gobds/service, the clients of the VPN and the authentication service.
-- - Server: gobds/server.go. Admission: accept of gobds/gobds.go and gobds/whitelist. Afk:
--   gobds/afk.go.
-- - Tests: concrete data, and the theorems applied to it.
--
-- Choices. Numbers are natural numbers and integers; uint64 counters and int32 coordinates wrap round
-- as in Go, and what int32 makes of a float that it cannot hold is a function `wild`, since Go leaves
-- it open. A finite float32 is exact, as a multiple of 2^-149; tokens are multiples of 2^-1074, and
-- the one operation on them that rounds is an argument. The order in which Go iterates the map of
-- claims is that of an association list. The loops over the cells of a claim and over the attempts of
-- a fetch have a counter of the rounds that are left: the number of cells of the side, and the number
-- of attempts (four for the claims and for the authentication, two for the VPN), so they never end
-- early. One packet is handled at one reading of the clock. The HTTP client, the block registry, the
-- comparisons of the mgl32 library and the constants of the protocol library are arguments, gathered
-- in Session/State.Platform.
--
-- JSON, the files of resource packs, the encoding of chunks and the parsing of addresses are arguments
-- too. A text is a sequence of Unicode characters, whose length is that of its UTF-8; upper case is
-- mapped for the ASCII letters alone. In gobds/cmd and the handler of the available commands, a map
-- that Go iterates in any order is a list.
--
-- Not modelled: sockets, files, what becomes of a log record that passes the filter, encryption, the
-- reading of the configuration, the registration of custom blocks, and the tickers that start the
-- periodic work.
pub mod Base
pub mod Strings
pub mod Float
pub mod Clock
pub mod Area
pub mod Geometry
pub mod Claim
pub mod LogFilter
pub mod Policy
pub mod Entity
pub mod Commands
pub mod Forms
pub mod Translations
pub mod Traffic
pub mod Session
pub mod Server
pub mod Services
pub mod Admission
pub mod Afk
pub mod Tests
