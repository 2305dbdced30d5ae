-- ===== src/Sessions/Created.antt =====
-- A session that `create_session` of src/main.rs has started, or has failed to start.
use abduco_inline.Prelude.{
  ℕ, ◌≡◌, ◌⊎◌, refl, sym, ap, ◌∙◌, subst, [], append-nil, Bool, inl, inr, true, false, Option, none,
  some, Result, ok, err, arith, IoError, List,
}
use abduco_inline.Prelude.Bytes.{Bytes}
use abduco_inline.Prelude.Text.{eq_bytes_refl}
use abduco_inline.Protocol.{packet_bytes}
use abduco_inline.Protocol.Framing.{recv_packet_blocking-packet_bytes}
use abduco_inline.Stream.{ReadAnswer}
use abduco_inline.Server.Tick.{Os, pid_packet}
use abduco_inline.Server.Tick.Sound.{pid_packet-IsPacket}
use abduco_inline.Files.{World, socket, is_absolute, put, remove_file, bind, set_permissions}
use abduco_inline.Paths.{PathEnv}
use abduco_inline.Sessions.{
  Fork, forked, Started, started, greets, session_alive, listen, await_server, create_session,
  read_startup_status, Run, child, startup_report, run_server, server_process,
}
use abduco_inline.Sessions.Startup.{Delivers, reported, startup_is_reported}
use abduco_inline.Sessions.Cleanup.{absolute_lem, run_server-keeps}
use abduco_inline.Sessions.Refused.{socket_path_of_absolute, session_alive_of_answer}

bind_lem :
    (w : World) (p greeting : Bytes)
    → is_absolute p ≡ true
    → (bind w p greeting).0 ≡ ok tt
    → (bind w p greeting).1.kind p ≡ some (socket (some greeting))
unfolding bind put
bind_lem w p greeting ab h = ground (arith, absolute_lem w p ab, eq_bytes_refl p, h)

set_permissions_lem :
    (w : World) (p g : Bytes) (bits : ℕ)
    → is_absolute p ≡ true
    → w.kind p ≡ some (socket (some g))
    → ((set_permissions w p bits).kind p ≡ some (socket (some g)))
      × ((set_permissions w p bits).mode p ≡ some bits)
unfolding set_permissions
set_permissions_lem w p g bits ab k = ground (arith, absolute_lem w p ab, eq_bytes_refl p, k)

bound_step :
    (p greeting : Bytes) (out : Result (Unit {0}) × World)
    → is_absolute p ≡ true
    → (out.0 ≡ ok tt → out.1.kind p ≡ some (socket (some greeting)))
    → let next : Result (Unit {0}) × World = elim out.0 [
      | err kind ↦ (err kind, out.1)
      | ok _ ↦ (ok tt, set_permissions out.1 p 0o600)
    ] in
      next.0 ≡ ok tt
      → (next.1.kind p ≡ some (socket (some greeting))) × (next.1.mode p ≡ some 0o600)
bound_step p greeting (ok u, w) ab k h = set_permissions_lem w p greeting 0o600 ab (k refl)
bound_step p greeting (err e, w) ab k h = cc

made_step :
    (p greeting : Bytes) (above : Result (Unit {0}) × World)
    → is_absolute p ≡ true
    → let next : Result (Unit {0}) × World = elim above.0 [
      | err kind ↦ (err kind, above.1)
      | ok _ ↦
          (let (bound, w') = bind (remove_file above.1 p).1 p greeting in
            elim bound [ err kind ↦ (err kind, w') | ok _ ↦ (ok tt, set_permissions w' p 0o600) ])
    ] in
      next.0 ≡ ok tt
      → (next.1.kind p ≡ some (socket (some greeting))) × (next.1.mode p ≡ some 0o600)
made_step p greeting (ok u, w) ab h =
    bound_step p greeting (bind (remove_file w p).1 p greeting) ab
      (bind_lem (remove_file w p).1 p greeting ab) h
made_step p greeting (err e, w) ab h = cc

-- The socket is there, answers with the greeting, and is the user's alone.
listen_lem :
    (greeting : Bytes) (w : World) (p : Bytes)
    → is_absolute p ≡ true
    → (listen greeting w p).0 ≡ ok tt
    → ((listen greeting w p).1.kind p ≡ some (socket (some greeting)))
      × ((listen greeting w p).1.mode p ≡ some 0o600)
unfolding listen
listen_lem greeting w p ab h = made_step p greeting _ ab h

greets-pid_packet : (os : Os) → greets (packet_bytes (pid_packet os)) ≡ true
unfolding greets pid_packet
greets-pid_packet os =
    let received = recv_packet_blocking-packet_bytes (pid_packet os) [] (pid_packet-IsPacket os) in
    ground (arith, received, append-nil (packet_bytes (pid_packet os)))

-- What `create_session` does with a path on which no session answers, and can listen on.
create_session_of_absolute :
    (e : PathEnv) (greeting : Bytes) (fork : Fork) (w : World) (p : Bytes)
    → is_absolute p ≡ true
    → (session_alive e w p).0 ≡ false
    → (listen greeting (session_alive e w p).1 p).0 ≡ ok tt
    → create_session e greeting fork w p
      ≡ await_server fork (listen greeting (session_alive e w p).1 p).1 p
unfolding create_session
create_session_of_absolute e greeting fork w p ab dead free =
    ground (arith, socket_path_of_absolute e (session_alive e w p).1 p ab, dead, free)

-- A session that has been started is alive, and its socket is open to its user alone, as long as the
-- server leaves the socket's entry as it was made.
pub created_session_is_alive :
    (os : Os) (e : PathEnv) (serve : World → World) (reads : List ReadAnswer) (w : World)
    (p : Bytes)
    → is_absolute p ≡ true
    → (session_alive e w p).0 ≡ false
    → (listen (packet_bytes (pid_packet os)) (session_alive e w p).1 p).0 ≡ ok tt
    → read_startup_status reads ≡ started
    → ((v : World) → ((serve v).kind p ≡ v.kind p) × ((serve v).mode p ≡ v.mode p))
    → let out = create_session e (packet_bytes (pid_packet os)) (forked serve reads) w p in
      (out.0 ≡ started) × (session_alive e out.1 p ≡ (true, out.1)) × (out.1.mode p ≡ some 0o600)
unfolding await_server
created_session_is_alive os e serve reads w p ab dead free up keeps =
    let greeting = packet_bytes (pid_packet os) in
    let v = (listen greeting (session_alive e w p).1 p).1 in
    let made = listen_lem greeting (session_alive e w p).1 p ab free in
    let created : create_session e greeting (forked serve reads) w p ≡ (started, serve v) =
      create_session_of_absolute e greeting (forked serve reads) w p ab dead free
      ∙ ground (arith, up) in
    let there : (serve v).kind p ≡ some (socket (some greeting)) = (keeps v).0 ∙ made.0 in
    let alive : session_alive e (serve v) p ≡ (true, serve v) =
      session_alive_of_answer e (serve v) p greeting ab there
      ∙ ap (λ (b : Bool). (b, serve v)) (greets-pid_packet os) in
    (
      ap (λ (out : Started × World). out.0) created,
      subst (λ (u : World). session_alive e u p ≡ (true, u))
          (sym (ap (λ (out : Started × World). out.1) created)) alive,
      ap (λ (out : Started × World). out.1.mode p) created ∙ (keeps v).1 ∙ made.1,
    )

-- No socket is at `p`, or one that may be removed.
record Removable (p : Bytes) (w : World) : Type 0 where
  kind : (w.kind p ≡ none) ⊎ ((g : Option Bytes) × (w.kind p ≡ some (socket g)))
  denied : w.denied p ≡ false

remove_file_clears :
    (p : Bytes) (w : World)
    → is_absolute p ≡ true
    → Removable p w
    → ((remove_file w p).1.kind p ≡ none) × ((remove_file w p).1.denied p ≡ false)
unfolding remove_file put
remove_file_clears p w ab r = ground (arith, absolute_lem w p ab, eq_bytes_refl p)

-- The process has ended, and the guard has removed the socket, or it runs.
ended_step :
    (p : Bytes) (w cleared : World) (result : Option (Result (Unit {0})))
    → Removable p w
    → Removable p cleared
    → let next : Option ℕ × World = elim result [
      | none ↦ (none, w)
      | some (ok _) ↦ (some 0, cleared)
      | some (err _) ↦ (some 1, cleared)
    ] in
      Removable p next.1
ended_step p w cleared none before after = before
ended_step p w cleared (some (ok u)) before after = after
ended_step p w cleared (some (err e)) before after = after

server_process-Removable :
    (p : Bytes) (r : Run) (w : World)
    → is_absolute p ≡ true
    → Removable p w
    → Removable p (server_process p r w).1
unfolding server_process
server_process-Removable p r w ab v =
    let ran = run_server-keeps p p r w in
    let after : Removable p (run_server p r w).1 = ground (arith, ran) in
    let cleared = remove_file_clears p (run_server p r w).1 ab after in
    ended_step p _ _ (run_server p r w).0 after
      (record { kind = inl cleared.0; denied = cleared.1 })

-- Where the command cannot be run, the caller of `create_session` gets the message that says so, and no
-- socket is left, whether or not the server has ended by then.
pub failed_start_leaves_nothing :
    (describe : IoError → Bytes) (program : Bytes) (error : IoError) (e : PathEnv)
    (greeting : Bytes) (r : Run) (reads : List ReadAnswer) (w : World) (p : Bytes)
    → is_absolute p ≡ true
    → (session_alive e w p).0 ≡ false
    → (listen greeting (session_alive e w p).1 p).0 ≡ ok tt
    → (listen greeting (session_alive e w p).1 p).1.denied p ≡ false
    → r.forkpty ≡ child (some error)
    → Delivers reads (startup_report describe program r.forkpty)
    → let out = create_session e greeting (forked (λ v. (server_process p r v).1) reads) w p in
      (out.0 ≡ reported describe program (child (some error))) × (out.1.kind p ≡ none)
unfolding await_server
failed_start_leaves_nothing describe program error e greeting r reads w p ab dead free may x d =
    let serve : World → World = λ v. (server_process p r v).1 in
    let v = (listen greeting (session_alive e w p).1 p).1 in
    let made = listen_lem greeting (session_alive e w p).1 p ab free in
    let before : Removable p v = record { kind = inr (some greeting, made.0); denied = may } in
    let after = server_process-Removable p r v ab before in
    let cleared = remove_file_clears p (serve v) ab after in
    let told = startup_is_reported describe program r.forkpty reads d in
    let created = create_session_of_absolute e greeting (forked serve reads) w p ab dead free in
    ground (arith, created, told, x, cleared)
