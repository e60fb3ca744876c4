-- ===== src/Lib.antt =====
-- A verification library of agentmsg, the messaging program of this repository: agents exchange
-- signed messages over one MQTT topic; a resident daemon per agent verifies what arrives, stores it,
-- and serves a command line over a local socket.
--
-- The parts, with the files that model them:
-- - Base and its children: lists, texts as UTF-8 bytes, integers, results, maps, which the others
--   share. A `usize`, `i64` or row id is not bounded, except where the source casts or wraps.
-- - Errors (src/error.rs, exit codes of src/cli.rs), with the texts in Errors/Display.
-- - Wire (src/wire.rs) and Docs (the other JSON documents): the envelope, key ids, codecs.
-- - External: the third-party crates (base64, hex, sha2, crc32fast, serde_json, ml_dsa, ml_kem,
--   aes_gcm, time, toml) as the parameter `Env`, with their documented behaviour in `IsLawful`.
-- - Crypto (src/crypto.rs, src/kem.rs), Identity (src/identity.rs), Trust (src/trust.rs), Config
--   (src/config.rs), Token (src/token.rs, src/authority.rs), Grant (src/grant.rs).
-- - Message (src/message.rs): `build` and `build_pair` in Build, `verify_incoming` in Verify,
--   `verify_pair` in Pairing; what acceptance proves in Authentic and Sound, that a built message is
--   accepted in Deliver and Sealed.
-- - Pair (src/pair.rs): the short authentication string.
-- - Store (src/store.rs): the tables as a record `Db` of lists and maps, one function per method. The
--   errors of SQLite that a request to send, to pair or to acknowledge answers, and those that `send`
--   passes over, are a part of the `Moment`; others are not modelled. Row ids come from a counter that
--   may skip.
-- - Ipc (src/ipc.rs): requests, responses, and the framing of the socket's bytes.
-- - Files: the data directory as a record of file contents, with the loading, saving and backup of
--   src/config.rs, src/trust.rs, src/identity.rs and src/authority.rs. Which writes fail, and what a
--   failed one leaves in the file, is part of the record; the restriction of permissions after a write
--   is the last step of it.
-- - Mqtt (src/mqtt.rs): the checks and the session options of `start`, the event loop over what the
--   client reports, its backoff, and the interruptible sleep in Mqtt/Sleep.
-- - Daemon (src/daemon.rs): the shared state; the ingest closure of `connect` in Ingest, `send` and
--   its kin in Outgoing, the outbox pump in Outgoing/Pump, the bounded channels of subscribers in
--   Stream, `handle` in Requests, the frames of `serve_subscribe` in Subscribe, the presence timer in
--   Heartbeat, and all of them as the actions of one system in System. A handling is one step: the
--   interleaving of threads inside of one is not modelled. What the clock, the generator and the
--   broker give is a `Moment`.
-- - Cli (src/cli.rs): a command reads the files and the input of a `Shell`, calls the daemon of a
--   `Machine` over `ipc::call`, and gives what it prints and its exit. The key commands are in Keys,
--   the authority and grant commands in Authorities, `config` in Settings, the message commands in
--   Calls and Reading, presence, pairing and status in Peers, `daemon start` in Starting, the dispatch
--   in Run.
-- - Example: concrete functions for the crates, and each theorem at a concrete input.
--
-- Fuel: `trim_bytes` takes one round more than there are rows, which is enough since each round but
-- the last deletes a row. `sleep_interruptible` takes one round more than the milliseconds to sleep,
-- since a round sleeps one at least. The wait of `read` and of `daemon start` takes one round more
-- than the pauses that fit before the deadline (4 and 5 a second).
--
-- Not modelled: the rumqttc client behind src/mqtt.rs with its thread, the argument parsing of clap,
-- the spawning of the daemon's process, what a daemon in the foreground does as one process (the end
-- of `daemon run` is given), the listener, the automatic connection at the start, file locations
-- (src/paths.rs), what permissions do, logging, SQLite's migrations, and failures of the file system
-- in a read beyond what a load gives.
pub mod Base
pub mod Errors
pub mod Wire
pub mod Docs
pub mod External
pub mod Crypto
pub mod Identity
pub mod Trust
pub mod Config
pub mod Token
pub mod Grant
pub mod Message
pub mod Pair
pub mod Store
pub mod Example
pub mod Ipc
pub mod Files
pub mod Mqtt
pub mod Daemon
pub mod Cli
