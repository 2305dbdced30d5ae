-- ===== src/Main/Attached.antt =====
-- To attach or create, in src/main.rs, ends in a session that is attached to.
use abduco_inline.Prelude.{
  ◌≡◌, refl, sym, ap, ap₂, ◌∙◌, subst, List, true, false, Result, ok, err, arith, ◌⊎◌, inl, inr,
}
use abduco_inline.Prelude.Bytes.{Bytes}
use abduco_inline.Protocol.{packet_bytes}
use abduco_inline.Stream.{ReadAnswer}
use abduco_inline.Server.Tick.{Os, pid_packet}
use abduco_inline.Cli.Task.{AttachOpts}
use abduco_inline.Files.{World, is_absolute}
use abduco_inline.Sessions.{
  Fork, forked, Started, started, greets, connect_session, session_alive, listen, create_session,
  read_startup_status,
}
use abduco_inline.Sessions.Created.{created_session_is_alive}
use abduco_inline.Attach.{Terminal, attach_session}
use abduco_inline.Main.{
  Setting, saves_modes, Ran, attached, run_attach, run_create_attach, run_attach_or_create,
}

-- A session answers: a connection is made and begins with the process id of its server.
connected_lem :
    (m : Setting) (o : AttachOpts) (s : Terminal) (w : World) (p : Bytes)
    (out : Result Bytes × World)
    → connect_session m.env w p ≡ out
    → session_alive m.env w p ≡ (true, w)
    → (incoming : Bytes) × (run_attach m o s w p
        ≡ (attach_session o m.size (saves_modes m o) m.wakes (record s { incoming = incoming }), w))
      × (greets incoming ≡ true)
unfolding run_attach session_alive
connected_lem m o s w p (ok incoming, w') e alive =
    (incoming, ground (arith, e, alive), ground (arith, e, alive))
connected_lem m o s w p (err kind, w') e alive = absurd (ground (arith, e, alive))

-- No session answers at the path, and none when asked again, and one can be started there: the path
-- can be listened on, nothing is reported on the pipe, and the server leaves the socket's entry as it
-- was made.
pub record CanStart (os : Os) (m : Setting) (w : World) (p : Bytes) : Type 0 where
  pub serve : World → World
  pub reads : List ReadAnswer
  pub greeting : m.greeting ≡ packet_bytes (pid_packet os)
  pub fork : m.fork ≡ forked serve reads
  pub dead : (session_alive m.env w p).0 ≡ false
  pub still_dead : (session_alive m.env (session_alive m.env w p).1 p).0 ≡ false
  pub free : (listen m.greeting (session_alive m.env (session_alive m.env w p).1 p).1 p).0 ≡ ok tt
  pub reported : read_startup_status reads ≡ started
  pub kept : (v : World) → ((serve v).kind p ≡ v.kind p) × ((serve v).mode p ≡ v.mode p)

-- What a run has come to: it attaches to a session that answers.
abbrev pub Attaches : Setting → AttachOpts → Terminal → Ran × World → Type 0
Attaches m o s out =
    (incoming : Bytes) × (w' : World) × (out ≡ (
      attached
          (attach_session o m.size (saves_modes m o) m.wakes (record s { incoming = incoming })),
      w',
    ))
    × (greets incoming ≡ true)

created-Attaches :
    (m : Setting) (o : AttachOpts) (s : Terminal) (w : World) (p : Bytes)
    → let out = create_session m.env m.greeting m.fork w p in
      out.0 ≡ started
      → session_alive m.env out.1 p ≡ (true, out.1)
      → Attaches m o s (run_create_attach m o s w p)
unfolding run_create_attach
created-Attaches m o s w p up alive =
    let v = (create_session m.env m.greeting m.fork w p).1 in
    let (incoming, run, greeted) = connected_lem m o s v p _ refl alive in
    (incoming, v, ground (arith, up, run), greeted)

-- To attach or create ends in an attachment to a session that answers with its process id: to the
-- session that is there, or else to a new one, where the path is absolute and a session answers at it or
-- can be started.
pub attach_or_create-Attaches :
    (os : Os) (m : Setting) (o : AttachOpts) (s : Terminal) (w : World) (p : Bytes)
    → is_absolute p ≡ true
    → (session_alive m.env w p ≡ (true, w)) ⊎ CanStart os m w p
    → Attaches m o s (run_attach_or_create m o s w p)
unfolding run_attach_or_create
attach_or_create-Attaches os m o s w p ab (inl alive) =
    let (incoming, run, greeted) = connected_lem m o s w p _ refl alive in
    (incoming, w, ground (arith, alive, run), greeted)
attach_or_create-Attaches os m o s w p ab (inr start) =
    let w1 = (session_alive m.env w p).1 in
    let same : create_session m.env m.greeting m.fork w1 p
        ≡ create_session m.env (packet_bytes (pid_packet os)) (forked start.serve start.reads) w1
            p =
      ap₂ (λ (g : Bytes) (f : Fork). create_session m.env g f w1 p) start.greeting start.fork in
    let free : (listen (packet_bytes (pid_packet os)) (session_alive m.env w1 p).1 p).0 ≡ ok tt =
      ap (λ (g : Bytes). (listen g (session_alive m.env w1 p).1 p).0) (sym start.greeting)
      ∙ start.free in
    let (up, alive, _) =
      created_session_is_alive os m.env start.serve start.reads w1 p ab start.still_dead free
        start.reported start.kept in
    let (incoming, w', run, greeted) =
      created-Attaches m o s w1 p (ap (λ (out : Started × World). out.0) same ∙ up) (
        subst (λ (out : Started × World). session_alive m.env out.1 p ≡ (true, out.1)) (sym same)
          alive) in
    (incoming, w', ground (arith, start.dead, run), greeted)
