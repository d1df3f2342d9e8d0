-- ===== src/Lib.antt =====
-- mpx-cli, the companion program that binds a machine to the Multiplex app: `mpx bind` publishes an
-- offer and enrolls the app's SSH key over an encrypted handshake, `mpx unbind` revokes such keys.
--
-- The parts, and how they interact. `bind` (src/main.rs) reads what the machine says of itself
-- (src/hostinfo.rs), makes an offer, announces it (src/announce.rs), encodes it as a URL
-- (src/payload.rs), prints that as a QR code (src/qr.rs) or copies it (src/clip.rs), and runs the
-- accept loop (src/server.rs). Each connection is a handshake of frames (src/frame.rs): INTRO, a
-- sealed HELLO with a credential, OFFER, ENROLL and DONE. A key that the operator accepts is appended
-- to authorized_keys (src/authkeys.rs) under a comment with a marker, by which `unbind` finds it again.
-- An offline bind makes the key itself and publishes its seed, with no handshake.
--
-- Prelude: Boolean tests and bytes on the native numbers, big-endian words, list lemmas.
-- Text: what the code uses of Rust's `str`: UTF-8, `lines`, `trim`, `split_whitespace`,
--   `strip_prefix`. A text is its list of code points.
-- Payload models src/payload.rs: the record `Payload`, `encode` and `decode`; Reader is `Reader`,
--   Name is `truncated_name`, and Url is `to_url` and `from_url`. The proofs of Reads and Fields say
--   what each field's reader does with what its writer wrote.
-- Frame models src/frame.rs: Io has `FrameError`, `read_frame` and `write_frame` over any stream,
--   Channel is `Channel` with its four operations and `pin_proof`, Value has the look-ups in CBOR
--   messages, and Shown the texts of errors. A Result has a third case, a panic.
-- Authkeys models src/authkeys.rs: `marked_keys`, `ensure_line` and `remove_marked`; Path is
--   `default_path`, Line `parse_line`, and Disk is `write_atomically` on a disk of a directory,
--   the file and the scratch file, where any call may fail as a `Faults` says.
--   Nothing else writes to it meanwhile. Kept is the file as `remove_marked` sees it,
--   with LineText on what its lines are made of. Store is the abstract view, rows that are enrolled and
--   revoked; Refines and History are about whole sequences of requests.
-- Util models src/util.rs: Hex, Slug, and Console with the messages to the operator.
-- Server models src/server.rs: Conn is a connection with its clock, the bytes that arrive and when,
--   how writes go, the operator and the disk; Exchange is `exchange`, cut into one function for each
--   phase, and `handle`; Run is `run`, one `Tick` for each round of its loop. Exchange.Heard says
--   what a peer has sent, and Exchange.Walk takes a property through the first phase. Conn.Stream compares
--   the timed reads with reads of the bytes in a row; Exchange.Timed, Exchange.Quick and
--   Exchange.Duration say what each step costs in time; Exchange.Phone, Exchange.Protocol and
--   Exchange.Enrolling and Exchange.Honest follow a phone that keeps to the protocol, Run.Enrolls
--   takes it to the loop. Exchange.Fine, Exchange.Bodies and Exchange.Panics are about
--   panics, with Run.Panics for the loop; Run.Signals is about a cancel, Run.Stops says what ends
--   the loop, and Run.Expiry by when.
-- Hostinfo models `local_addrs` of src/hostinfo.rs, and Keys the rest of that file.
-- Clip models src/clip.rs, over what the system has and how its programs and terminal behave.
-- Announce models src/announce.rs, and Qr src/qr.rs.
-- Cancel models src/cancel.rs: the flag, and its handlers on top of what libc and the kernel do with
--   signals. A round of the accept loop is told what a poll of the flag returns; Cli.Bind.Canceled
--   joins the two: it applies the `install` that stands before the loop in `bind`.
-- Cli models src/main.rs. `unbind` and what `bind` decides stand in the parent, and Told has what
--   `unbind` prints; Machine has the arguments, all that the machine answers, the test hooks and the
--   prompt; Messages has the texts of `bind`, Publish is `publish_payload`, Offline `bind_offline`
--   and Bind `bind`. A `World` is the disk, what is printed, what is handed over for a
--   clipboard, and what is announced and withdrawn.
--   Bind.Scan is a bind whose code a phone scans, and Bind.Undone and Revert the `unbind` after it.
-- Vectors models src/examples/gen_vectors.rs: Rng is `FixedRng`, Frames the messages that it writes
--   by hand, and Agree compares them with those of Server.
--
-- Crates are parameters: HKDF and the AEAD (Frame.Channel.Ciphers, with the law IsAead where a
-- theorem needs it), the CBOR codec (Frame.Value.Cbor), base64 (Payload.Url.Base64, with its round
-- trip), X25519 and the SSH key parser (Server.Conn.Crates), the fingerprints of SSH keys
-- (Hostinfo.Keys.Keys), the QR code (Qr.QrCrate), mDNS (Announce.Daemon), libc and the kernel's signals
-- (Cancel.Libc), and what the random number generator gives (Cli.Machine.Machine). Vectors.Toolbox has
-- what the generator of the vectors calls.
--
-- Bounds. The readers recurse on counts or on what is left to read, and the accept loop on the list
-- of its rounds, which stands for as long as it has run; Run.Stops and Cli.Bind.Ends say how many are
-- enough. Two definitions count down from a bound that is enough: a number is printed with twenty
-- digits at most, as many as a `u64` has, and a suffix is taken away from the host name as often as
-- the name has characters. Counters wrap at their width, and the reader's index is checked against
-- that of `usize` at 64 bits. The law IsAead says that nothing opens that was not sealed so and that
-- one key never gives one ciphertext under two nonces, which holds of the cipher but for a negligible
-- chance; that opening inverts sealing holds of it always.
--
-- Not modelled: clap and the dispatch of `main`, what the prompt prints, a panic of the printing
-- macros where the output is closed, one of the random source, threads,
-- symbolic links on the way to a path, and the variants for other systems than Unix.
pub mod Prelude
pub mod Text
pub mod Payload
pub mod Frame
pub mod Authkeys
pub mod Util
pub mod Server
pub mod Clip
pub mod Announce
pub mod Qr
pub mod Cancel
pub mod Cli
pub mod Vectors
pub mod Hostinfo
