-- ===== src/Main/Dumped.antt =====
-- A run of the program of src/main.rs that dumps the output of a session.
use abduco_inline.Prelude.{
  ℕ, ◌≤◌, ◌≡◌, ◌∙◌, List, [], ◌++◌, length, drop, All, arith, true, some, ok, Bool,
}
use abduco_inline.Prelude.Bytes.{Bytes}
use abduco_inline.History.{History, snapshot, history_cap}
use abduco_inline.Stream.{write_loop, send_packet_blocking}
use abduco_inline.Stream.Writing.{wire-whole, write_loop-Wrote}
use abduco_inline.Server.Client.Outbound.{committed}
use abduco_inline.Server.Client.Outbound.Healthy.{IsHealthy}
use abduco_inline.Server.Packets
use abduco_inline.Server.Tick.{Os, Accepted, new_client, pid_packet}
use abduco_inline.Server.Tick.Sound.{IsFresh}
use abduco_inline.Dump.{dump_start, dump_request, dump_session}
use abduco_inline.Dump.Chosen.{Chosen, dump_start-Chosen}
use abduco_inline.Dump.Whole.{dump_prints_history}
use abduco_inline.Cli.{Opts, parsed, dump, parse_args}
use abduco_inline.Cli.Task
use abduco_inline.Cli.Task.{Env, plan, without_terminal}
use abduco_inline.Files.{World, socket, is_absolute, connect}
use abduco_inline.Sessions.{connect_session, connect_path}
use abduco_inline.Sessions.Cleanup.{absolute_lem}
use abduco_inline.Sessions.Refused.{connect_session_of_absolute}
use abduco_inline.Main.Program.{Machine, ended, run_task, main}
use abduco_inline.Main.Shown.{main_of_plan}

-- Whether or not stdin is a terminal, a dump is planned as it was asked for.
plan-dump :
    (env : Env) (tty : Bool) (o : Opts) (p : Bytes)
    → o.action ≡ some dump
    → o.name ≡ some p
    → plan env tty o ≡ ok (Task.dump_session p o.max_bytes o.max_lines)
unfolding plan without_terminal
plan-dump env tty o p a n = ground (arith, a, n)

pub connected :
    (m : Machine) (w : World) (p incoming : Bytes)
    → is_absolute p ≡ true
    → w.kind p ≡ some (socket (some incoming))
    → connect_session m.setting.env w p ≡ (ok incoming, w)
unfolding connect_path connect
connected m w p incoming ab there =
    ground (arith, connect_session_of_absolute m.setting.env w p ab, absolute_lem w p ab, there)

run_dump :
    (m : Machine) (w : World) (p incoming out : Bytes) (max_bytes max_lines : ℕ)
    → is_absolute p ≡ true
    → w.kind p ≡ some (socket (some incoming))
    → dump_session m.terminal.stream incoming max_bytes max_lines ≡ ok out
    → (write_loop m.terminal.stdout.writes out m.terminal.stdout.wire).result ≡ ok tt
    → run_task m (Task.dump_session p max_bytes max_lines) w
      ≡ ended 0 [] (m.terminal.stdout.wire ++ out) w
unfolding run_task
run_dump m w p incoming out max_bytes max_lines ab there dumped takes =
    let printed =
      wire-whole out m.terminal.stdout.wire _
        (write_loop-Wrote m.terminal.stdout.writes out m.terminal.stdout.wire) takes in
    ground (arith, connected m w p incoming ab there, dumped, takes, printed)

-- From the command line to what is printed: a run that is asked to dump a session by the absolute path of its
-- socket prints, of the history, the last bytes and of these the last lines, as many as the limits say,
-- all of them where there is no limit and a newline at the very end counted to the last line, whether or
-- not it has a terminal, and exits with 0 and without a message. What comes on the connection is what the
-- server has committed when it has handled the request; the server's connection takes the pid packet and
-- does not break afterwards, however little of each write it takes; the request can be sent, and stdout
-- takes what is written to it; and the history is within HISTORY_CAP.
pub main_dumps_history :
    (os : Os) (a : Accepted) (now : ℕ) (h : History) (m : Machine) (args : List Bytes) (o : Opts)
    (w : World) (p : Bytes)
    → parse_args args ≡ parsed o
    → o.action ≡ some dump
    → o.name ≡ some p
    → is_absolute p ≡ true
    → w.kind p
      ≡ some (
          socket (
            some (
              committed (
                Packets.dump now
                  (new_client (send_packet_blocking a.stream (pid_packet os)).1)
                  h))))
    → IsFresh os a
    → All IsHealthy (send_packet_blocking a.stream (pid_packet os)).1.writes
    → length (snapshot h) ≤ history_cap
    → (send_packet_blocking m.terminal.stream dump_request).0 ≡ ok tt
    → (write_loop m.terminal.stdout.writes
        (drop (dump_start (snapshot h) o.max_bytes o.max_lines) (snapshot h))
        m.terminal.stdout.wire).result
      ≡ ok tt
    → (printed : Bytes) × Chosen (snapshot h) o.max_bytes o.max_lines printed
      × (main m args w ≡ ended 0 [] (m.terminal.stdout.wire ++ printed) w)
main_dumps_history os a now h m args o w p parse action name ab there fresh healthy le sent takes =
    let out = drop (dump_start (snapshot h) o.max_bytes o.max_lines) (snapshot h) in
    (
      out,
      dump_start-Chosen (snapshot h) o.max_bytes o.max_lines,
      main_of_plan m args w o (Task.dump_session p o.max_bytes o.max_lines) parse
            (plan-dump m.env m.setting.tty.isatty o p action name)
          ∙ run_dump m w p _ out o.max_bytes o.max_lines ab there
              (dump_prints_history os a now h m.terminal.stream o.max_bytes o.max_lines fresh
                healthy le sent)
              takes,
    )
