-- ===== src/Lib.antt =====
-- A model of the native core of Conest, a messenger that works over relays, Tor and nearby radios,
-- with theorems about it. The program's own logic in Rust is under native/.
--
-- Ble models the Bluetooth mesh of native/conest_native/src/ble. The operating system's back ends
-- call one shared `Core` (ble/core.rs): they reserve a link before they dial, tell it when the
-- link is ready, hand it the bytes that arrive, and ask it for the bytes to write; the application
-- polls it for events. Core models it: `reserve`, `admit_peripheral`, `ready`, `remove`,
-- `clear_links`, `expire`, `enqueue`, `broadcast`, `take_write`, `receive`, `poll` and the
-- readers, under their own names. Link has what concerns one link, Backoff the table of peers that
-- failed, LinkId the text of an id, Reassembler the cutting of bytes into packets and Packet the
-- length fields of one. DropGuard is that of ble/mod.rs.
--
-- Relay models the queue of native/conest_relay/src/main.rs, which devices reach over the network:
-- a client stores an envelope in a mailbox, and the mailbox's owner fetches it, at once for good
-- or with a lease that it acknowledges. Peers has the network of an address and its slots, Table
-- the table `queue_entries` and the SQL statements on it, Windows a mailbox's throughput, Store
-- `store_from` with its quotas and evictions, Fetch `take_queue` and `acknowledge_lease`, History
-- all of them in any order with restarts, Wait the two halves of a long poll with the calls of
-- other threads between its steps, and Budget the limit of requests with the soft ban and the
-- budget of stores. Store's loops run on fuel: one round
-- more than the table has rows, which the theorems show to be enough, since every round deletes a
-- row.
--
-- Beam models native/conest_native/src/beam.rs: the header of a frame that a camera reads, which
-- is checked before the application sees it.
--
-- Transfer models native/conest_native/src/transfer.rs: a file is cut into blocks that its manifest
-- fixes; the sender seals each block in a frame, and the receiver writes what opens into a partial
-- file and keeps a journal of the blocks that are on disk. Manifest has `validate`,
-- `expected_plaintext_len` and `digest`, Frame `encrypt`, `decrypt`, `encode` and `decode`, Journal
-- `append` and `load_journal_records`, and Partial `PartialTransfer` with all its calls. A file is
-- what a read gives with what has been synced; where a write or an append stops is given to each
-- call, and a crash keeps of each unsynced byte the old or the new. The hash, the keyed hash and
-- the authenticated cipher are an interface with their documented laws.
--
-- Supervisor models native/conest_relay_supervisor/src/main.rs, a process that keeps a relay running
-- and up to date. Stage has `check_and_stage_update` with what it calls up to the network, Update
-- `apply_staged_and_verify`, `rollback_binary`, the command `rollback` and the parts of `serve` that
-- start and update the relay, Health `wait_for_health`, whose rounds are a list of attempts. The
-- bundle directory is its four binaries, and which calls of the system fail is given. A failing
-- write of the state leaves the old state file; the start time and the process id are left out.
--
-- Updater models the copy of native/conest_updater/src/main.rs: `sync_directories` with what it
-- calls, and the attempts of `run`. A directory is a list of named entries, and an attempt that
-- fails leaves any bundle.
--
-- Audio models `AdaptiveBitrate` of native/conest_native/src/audio.rs and the rates that the capture
-- thread sets by it.
--
-- Base has what the components share: tests, lists over the native numbers, saturating words,
-- ordered maps and sets, big-endian bytes, texts, maps by texts and results.
--
-- A byte is a number, a slice, a text and a queue are lists. An operation takes the state and
-- returns the new one with its result. Unsigned subtraction that the source saturates is the
-- natural one; additions that the source saturates are cut at the word's largest number. A slice
-- or an index out of range is a result of its own, a panic, and the theorems show that there is
-- none. Loops are structural but for the relay's. Times are numbers that the caller gives, as in
-- the source; nothing is assumed of their order unless a theorem says so.
--
-- SQLite is taken to do what its statements say, and its errors are not modelled. Which of several
-- largest holders it picks, the JSON library, the base64 encoding of an event's bytes and the
-- decoding of a frame's text are parameters. The supervisor's network, parsers and
-- signature scheme are parameters too. Not modelled: the relay's protocol and statistics; the
-- supervisor's command line and its service installation; the updater's command line, its wait for
-- the lock file and its launch of the program;
-- locks, threads, the operating system's Bluetooth, audio, cameras, files and sockets; and the
-- parts of native/ that are not named above.
pub mod Audio
pub mod Base
pub mod Beam
pub mod Ble
pub mod Relay
pub mod Supervisor
pub mod Transfer
pub mod Updater
