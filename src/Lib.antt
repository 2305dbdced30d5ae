-- ===== src/Lib.antt =====
-- lich, an inline session manager: a server process holds a pseudo-terminal on which a command runs,
-- keeps the last part of its output, and serves clients over a Unix socket. Clients attach to the
-- session, dump its output, or send it keys. The whole program is src/main.rs.
--
-- The parts and their files:
--   Prelude        shared names: Boolean tests, lists, `Result`, little-endian numbers, texts as bytes.
--   Protocol       the MSG_ constants, `Packet`, `packet_bytes`, `pop_packet`, `recv_packet_blocking`,
--                  `read_u32`, `read_u64`; below it the framing, the loop over `pop_packet`, and the
--                  reading of a stream that comes in pieces.
--   History        `History`: what an attach and a dump replay.
--   Stream         `fd_write_all`, `send_packet_blocking` and the loops of reads: a stream carries the
--                  answers that the kernel gives to its next calls.
--   Server.Client  `Client`, `try_flush_client`, `send_packet_nonblocking`, `send_history`,
--                  `broadcast_content`; Server.Client.Outbound: what is committed to a client.
--   Server.Packets `read_client_packets`: the packets of one client and the calls on the pty.
--   Server.Tick    `server_loop`: its body is `tick`, and a `Round` holds what the operating system does
--                  in one round (signals, connections, the child's status, the clock); below it
--                  Follower: what a statement has to keep, to hold of every client through the rounds;
--                  Broadcast and Told: the history, and the output that every client is sent; Apart:
--                  the loop with and without a client that sends nothing; Alone: the input of the one
--                  client of a loop; Shutdown: the loop at a signal.
--   Dump           `dump_session`, `tail_line_start`.
--   Keys           `key_token_bytes`, `send_keys_session`.
--   Attach         `attach_session`, `client_loop`: a `Wake` holds what wakes the loop; Attach.Typed: what is
--                  typed, on its way to the pty; Attach.Live: the client on a server in its loop.
--   Files          the file system, as the program uses it through the standard library.
--   Paths          `hostname`, `socket_base_dir`, `socket_path`, `derive_server_log_path`.
--   Clock          `format_iso_local`, `iso_utc_now`, the line of `server_log`.
--   Log            SERVER_LOG_PATH, `server_log`, the lines that the server logs, that of the panic hook included.
--   Listing        `list_sessions`.
--   Sessions       `connect_session`, `session_alive`, `create_session`, `read_startup_status`, `run_server`
--                  around its loop, `SocketGuard`.
--   Daemon         the server process from its fork in `create_session` to its exit: the signal handlers and
--                  their flags, the title, the log and `redirect_stdio_to_null`.
--   Title          `proc_self_argv_region`, `shorten_server_proctitle`.
--   Tty            `current_winsize`, `env_u16`, `RawMode`.
--   Cli            `parse_args`, `parse_size`, `parse_detach_key`; Cli.Task: `command_args`, and what `real_main`
--                  decides to do.
--   Main           `main` and `real_main`: a run of the program, from the arguments to the exit code, with what is
--                  printed and the messages on stderr.
-- The server appends what it reads from the pty to the history and broadcasts it (Server.Tick.pump); a
-- client's packets read the history (attach, dump) or write to the pty (input); the dump, keys and
-- attach clients are the other ends of these streams.
--
-- How the code is modelled. A function that changes its argument returns the new value. A byte is a
-- number below 256, and a stream the list of its bytes; u16, u32 and u64 are numbers with their ranges
-- as hypotheses or as `% 2 ^ 32` where the code casts. The machine is little-endian. The answers of
-- read and write are lists in the order of the calls; at the end of a list the call would block. How
-- the deque of the send queue lies in memory is not modelled: a write may take any front part of the
-- queue. The clock is in milliseconds. The status macros of libc are fields of `Os`.
-- The file system is a function from paths to what stands there, with the paths that may not be changed;
-- memory is a function from addresses to bytes, and a flag word one from its bits. The constants of
-- libc are parameters.
--
-- Fuel: the loop over `pop_packet` and the loop over chunks run on the length of their buffer, and the
-- loop of `dump_session` on the length of what is received and one more; each of their steps takes at
-- least one byte. `trim_end_matches` runs on the length of its text, and the decimal digits on the number.
--
-- Not modelled: symbolic links, and `..`, `.` and doubled slashes inside paths, which are compared as
-- texts; names that are not UTF-8; the file of the log among the other files, since its text and what
-- the kernel takes of it stand in `Log` (Log.antt) and not in `World` (Files.antt); the buffer of stdout:
-- a text that stdout does not take counts as a failure of the run, also where the program would only
-- lose the rest of it at its exit; a terminal whose modes can be set at the one call of tcsetattr and
-- not at the other; the unwinding of a panic; the texts of the
-- errors of the system, which stand as their kinds; fork, exec and the other calls of libc themselves. Error kinds that the code
-- does not tell apart are `other`.
pub mod Prelude
pub mod Protocol
pub mod History
pub mod Stream
pub mod Server
pub mod Dump
pub mod Keys
pub mod Files
pub mod Paths
pub mod Clock
pub mod Log
pub mod Listing
pub mod Sessions
pub mod Daemon
pub mod Title
pub mod Cli
pub mod Attach
pub mod Tty
pub mod Main
