-- ===== src/Main/Shown.antt =====
-- A run of the program of src/main.rs that attaches to a session.
use abduco_inline.Prelude.{
  ℕ, ◌+◌, ◌^◌, ◌≤◌, ◌<◌, ◌≡◌, refl, sym, ap, ◌∙◌, subst, List, [], ◌∷◌, ◌++◌, length, concat, true,
  false, All, arith, some, ok, Bool, ◌⊎◌,
}
use abduco_inline.Prelude.Bytes.{Bytes}
use abduco_inline.Prelude.Text.{codes}
use abduco_inline.Protocol.{max_payload, packet_bytes}
use abduco_inline.History.{History, snapshot}
use abduco_inline.Stream.{ReadAnswer, send_packet_blocking}
use abduco_inline.Server.Client.{send_queue_cap}
use abduco_inline.Server.Client.Outbound.{committed}
use abduco_inline.Server.Packets.Delivery.{TakesAll}
use abduco_inline.Server.Tick.{Os, Accepted, queue_exit, exit_packet}
use abduco_inline.Server.Tick.Sound.{IsFresh}
use abduco_inline.Server.Tick.Output.{outputs}
use abduco_inline.Log.{i32_text}
use abduco_inline.Cli.{
  Action, Opts, parsed, attach, attach_or_create, default_opts, parse_args, parse_loop, parse_step,
  check_opts,
}
use abduco_inline.Cli.Task
use abduco_inline.Cli.Task.{Env, AttachOpts, plan, without_terminal, task_of, command_args}
use abduco_inline.Files.{World, socket, is_absolute, connect}
use abduco_inline.Sessions.{connect_path, session_alive, greets}
use abduco_inline.Sessions.Cleanup.{absolute_lem}
use abduco_inline.Sessions.Refused.{connect_session_of_absolute}
use abduco_inline.Attach.{Terminal, Progress, attach_session, attach_request, resize_packet}
use abduco_inline.Attach.Exit.{FromSocket}
use abduco_inline.Attach.Whole.{framed, served, pieces, session_is_shown}
use abduco_inline.Main.{Setting, saves_modes, run_attach}
use abduco_inline.Main.Attached.{CanStart, attach_or_create-Attaches}
use abduco_inline.Main.Program.{Machine, info, ended, finish_attach, finish_ran, run_task, main}

-- The options of a run without any.
abbrev pub plain : AttachOpts
plain = record { flags = 0; quiet = false; passthrough = false; detach_key = 0x1c }

-- The options that `flag` and a path stand for.
abbrev chosen : Action → Bytes → Opts
chosen action p = record default_opts { action = some action; name = some p }

-- A path begins with a slash, and so is no option.
slash_first :
    (P : Bytes → Type 0) (p : Bytes) → is_absolute p ≡ true → ((xs : Bytes) → P (b'/' ∷ xs)) → P p
slash_first P [] ab each = absurd cc
slash_first P (x ∷ xs) ab each =
    let slash : x ≡ b'/' = ground (arith, ab) in subst (λ (y : ℕ). P (y ∷ xs)) (sym slash) (each xs)

parse_args-attach :
    (p : Bytes) → is_absolute p ≡ true → parse_args (codes "-a" ∷ p ∷ []) ≡ parsed (chosen attach p)
unfolding parse_args parse_loop parse_step check_opts
parse_args-attach p ab =
    slash_first (λ (p : Bytes). parse_args (codes "-a" ∷ p ∷ []) ≡ parsed (chosen attach p)) p ab
      (λ xs. refl)

parse_args-attach_or_create :
    (p : Bytes)
    → is_absolute p ≡ true
    → parse_args (codes "-A" ∷ p ∷ []) ≡ parsed (chosen attach_or_create p)
unfolding parse_args parse_loop parse_step check_opts
parse_args-attach_or_create p ab =
    slash_first
      (λ (p : Bytes). parse_args (codes "-A" ∷ p ∷ []) ≡ parsed (chosen attach_or_create p)) p ab
      (λ xs. refl)

plan-chosen :
    (env : Env) (tty : Bool) (action : Action) (p : Bytes)
    → tty ≡ true
    → plan env tty (chosen action p) ≡ ok (task_of env (chosen action p) action p)
unfolding plan without_terminal
plan-chosen env tty action p e = ap (λ (b : Bool). plan env b (chosen action p)) e

pub run_attach_of_answer :
    (m : Setting) (o : AttachOpts) (s : Terminal) (w : World) (p incoming : Bytes)
    → is_absolute p ≡ true
    → w.kind p ≡ some (socket (some incoming))
    → run_attach m o s w p
      ≡ (attach_session o m.size (saves_modes m o) m.wakes (record s { incoming = incoming }), w)
unfolding run_attach connect_path connect
run_attach_of_answer m o s w p incoming ab there =
    let at_p = absolute_lem w p ab in
    ground (arith, connect_session_of_absolute m.env w p ab, at_p, there)

-- A run does what is planned for its options.
pub main_of_plan :
    (m : Machine) (args : List Bytes) (w : World) (o : Opts) (task : Task.Task)
    → parse_args args ≡ parsed o
    → plan m.env m.setting.tty.isatty o ≡ ok task
    → main m args w ≡ run_task m task w
unfolding main
main_of_plan m args w o task e planned = rw (main, e, planned) refl

-- `lich -a` with the path of a session.
pub main-attach :
    (m : Machine) (w : World) (p incoming : Bytes)
    → is_absolute p ≡ true
    → m.setting.tty.isatty ≡ true
    → w.kind p ≡ some (socket (some incoming))
    → main m (codes "-a" ∷ p ∷ []) w
      ≡ finish_attach plain p
          (attach_session plain m.setting.size
            (saves_modes m.setting plain)
            m.setting.wakes
            (record (m.terminal) { incoming = incoming }))
          w
unfolding run_task
main-attach m w p incoming ab tty there =
    main_of_plan m (codes "-a" ∷ p ∷ []) w (chosen attach p) (Task.attach_session p plain)
      (parse_args-attach p ab) (plan-chosen m.env m.setting.tty.isatty attach p tty)
    ∙ ap (λ (t : Progress × World). finish_attach plain p t.0 t.1)
        (run_attach_of_answer m.setting plain m.terminal w p incoming ab there)

-- `lich -A`, on a terminal, with the absolute path of a session's socket ends in an attachment to a session that
-- answers with its process id: to the session that is there, or else to a new one, where a session
-- answers at the path or can be started.
pub main_attaches_or_creates :
    (os : Os) (m : Machine) (w : World) (p : Bytes)
    → is_absolute p ≡ true
    → m.setting.tty.isatty ≡ true
    → (session_alive m.setting.env w p ≡ (true, w)) ⊎ CanStart os m.setting w p
    → (incoming : Bytes) × (w' : World) × (main m (codes "-A" ∷ p ∷ []) w
        ≡ finish_attach plain p
            (attach_session plain m.setting.size
              (saves_modes m.setting plain)
              m.setting.wakes
              (record (m.terminal) { incoming = incoming }))
            w')
      × (greets incoming ≡ true)
unfolding run_task finish_ran command_args
main_attaches_or_creates os m w p ab tty there =
    let cmd = command_args m.env (chosen attach_or_create p) in
    let (incoming, w', run, greeted) =
      attach_or_create-Attaches os m.setting plain m.terminal w p ab there in
    (
      incoming,
      w',
      main_of_plan m (codes "-A" ∷ p ∷ []) w (chosen attach_or_create p)
            (Task.attach_or_create_session p cmd plain) (parse_args-attach_or_create p ab)
            (plan-chosen m.env m.setting.tty.isatty attach_or_create p tty)
          ∙ ap (finish_ran plain p m.terminal.stdout.wire) run,
      greeted,
    )

-- From the command line to the exit code: `lich -a`, on a terminal, with the absolute path of a session's
-- socket, prints the history at its attach followed by all the output read from the pty since, nothing
-- lost and nothing twice, where the modes of the terminal can be read between the clearing of the screen
-- and the showing of the cursor, says on stderr with which status the session has terminated, and exits
-- with that status. What comes on the connection is all that the server has committed to it; its
-- connection takes the pid packet and both requests; on the server it is not given up and its queue has
-- room for the exit packet; the pty is read in pieces of MAX_PAYLOAD at most; and its terminal takes each
-- payload at once. While it runs nothing is typed and no signal comes, such as that the size of its
-- terminal has changed: what wakes it is its socket alone, as often as packets come.
pub main_shows_session :
    (os : Os) (a : Accepted) (m : Machine) (w : World) (p : Bytes) (h : History)
    (rs : List ReadAnswer) (now status : ℕ)
    → is_absolute p ≡ true
    → m.setting.tty.isatty ≡ true
    → w.kind p ≡ some (socket (some (committed (queue_exit now status (served os a plain h rs)))))
    → IsFresh os a
    → (served os a plain h rs).disconnected ≡ false
    → length (served os a plain h rs).send_queue + length (packet_bytes (exit_packet status))
      ≤ send_queue_cap
    → All (λ d. length d ≤ max_payload) (outputs rs)
    → status < 2 ^ 32
    → (send_packet_blocking m.terminal.stream (attach_request 0)).0 ≡ ok tt
    → (send_packet_blocking
        (send_packet_blocking m.terminal.stream (attach_request 0)).1
        (resize_packet m.setting.size)).0
      ≡ ok tt
    → All TakesAll m.terminal.stdout.writes
    → length (pieces h rs) ≤ length m.terminal.stdout.writes
    → All FromSocket m.setting.wakes
    → length (pieces h rs) < length m.setting.wakes
    → main m (codes "-a" ∷ p ∷ []) w
      ≡ ended status
          (info p (codes "session terminated with exit status " ++ i32_text status) ∷ [])
          (m.terminal.stdout.wire
            ++ framed (saves_modes m.setting plain) (snapshot h ++ concat (outputs rs)))
          w
unfolding finish_attach
main_shows_session os a m w p h rs now status ab tty there fresh up room fits lt sent sent' takes
      enough from woken =
    let incoming = committed (queue_exit now status (served os a plain h rs)) in
    let said = info p (codes "session terminated with exit status " ++ i32_text status) ∷ [] in
    let (s', shown, printed) =
      session_is_shown os a plain m.setting.size (saves_modes m.setting plain) h rs now status
        m.setting.wakes (record (m.terminal) { incoming = incoming }) fresh up room refl fits lt
        refl sent sent' takes enough from woken in
    main-attach m w p incoming ab tty there
    ∙ ap (λ (r : Progress). finish_attach plain p r w) shown
    ∙ ap (λ (out : Bytes). ended status said out w) printed
