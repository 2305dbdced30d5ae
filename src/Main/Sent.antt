-- ===== src/Main/Sent.antt =====
-- A run of the program of src/main.rs that sends keys to a session.
use abduco_inline.Prelude.{
  ℕ, ◌<◌, ◌≤◌, ◌≡◌, ◌∙◌, List, [], ◌++◌, length, All, arith, true, some, ok, Bool,
}
use abduco_inline.Prelude.Bytes.{Bytes}
use abduco_inline.Protocol.{max_payload}
use abduco_inline.History.{History}
use abduco_inline.Server.Client.{Client, chunks}
use abduco_inline.Server.Packets.{Pty, may_write}
use abduco_inline.Server.Packets.Delivery.{TakesAll}
use abduco_inline.Server.Packets.Rounds.Reading.{IsIntact, data_of, pauses}
use abduco_inline.Server.Packets.Rounds.Pieces.{read_rounds}
use abduco_inline.Keys.{encode_keys, send_keys_session}
use abduco_inline.Keys.Sent.{spelled, keys_reach_pty}
use abduco_inline.Cli.{Opts, parsed, send_keys, parse_args}
use abduco_inline.Cli.Task
use abduco_inline.Cli.Task.{Env, plan, without_terminal}
use abduco_inline.Files.{World, socket, is_absolute}
use abduco_inline.Main.Program.{Machine, ended, run_task, main}
use abduco_inline.Main.Shown.{main_of_plan}
use abduco_inline.Main.Dumped.{connected}

-- Whether or not stdin is a terminal, keys are sent as it was asked for.
plan-send_keys :
    (env : Env) (tty : Bool) (o : Opts) (p : Bytes)
    → o.action ≡ some send_keys
    → o.name ≡ some p
    → plan env tty o ≡ ok (Task.send_keys_session p o.rest o.literal)
unfolding plan without_terminal
plan-send_keys env tty o p a n = ground (arith, a, n)

run_keys :
    (m : Machine) (w : World) (p incoming : Bytes) (keys : List Bytes) (literal : Bool)
    → is_absolute p ≡ true
    → w.kind p ≡ some (socket (some incoming))
    → (send_keys_session m.terminal.stream incoming keys literal).0 ≡ ok tt
    → run_task m (Task.send_keys_session p keys literal) w ≡ ended 0 [] m.terminal.stdout.wire w
unfolding run_task
run_keys m w p incoming keys literal ab there done =
    ground (arith, connected m w p incoming ab there, done)

-- From the command line to the pty: a run that is asked to send keys to a session by the absolute path of its
-- socket, whether or not it has a terminal, exits with 0 and without a message, and what it has
-- written to its new connection puts exactly the keys on the pty, in literal mode joined by single
-- spaces, and else each key's encoding or, where it has none, the key itself, one behind the other,
-- however the connection cuts it into pieces and in however many rounds of the server they come, its
-- end with the last of them or later, once there was a round more than reads that would block. A packet
-- comes on the connection and the keys can be sent; on the side of the server the client may write and
-- its reads do not fail; and the pty takes each payload at once.
pub main_sends_keys :
    (m : Machine) (args : List Bytes) (o : Opts) (w : World) (p incoming : Bytes)
    (rounds : List (ℕ × History)) (c : Client) (pty : Pty)
    → parse_args args ≡ parsed o
    → o.action ≡ some send_keys
    → o.name ≡ some p
    → is_absolute p ≡ true
    → w.kind p ≡ some (socket (some incoming))
    → m.terminal.stream.wire ≡ []
    → (send_keys_session m.terminal.stream incoming o.rest o.literal).0 ≡ ok tt
    → c.buf ≡ []
    → data_of c.stream.reads
      ≡ (send_keys_session m.terminal.stream incoming o.rest o.literal).1.wire
    → IsIntact c.stream.reads
    → pauses c.stream.reads < length rounds
    → may_write c ≡ true
    → All TakesAll pty.writes
    → length (chunks max_payload (encode_keys o.literal 0 o.rest [])) ≤ length pty.writes
    → (main m args w ≡ ended 0 [] m.terminal.stdout.wire w)
      × ((read_rounds rounds c pty).1.written ≡ pty.written ++ spelled o.literal o.rest)
main_sends_keys m args o w p incoming rounds c pty parse action name ab there fresh done empty same
      arrives enough writer takes room =
    (
      main_of_plan m args w o (Task.send_keys_session p o.rest o.literal) parse
            (plan-send_keys m.env m.setting.tty.isatty o p action name)
          ∙ run_keys m w p incoming o.rest o.literal ab there done,
      keys_reach_pty m.terminal.stream incoming o.rest o.literal rounds c pty fresh done empty same
          arrives enough writer takes room,
    )
