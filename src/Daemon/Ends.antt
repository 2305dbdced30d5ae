-- ===== src/Daemon/Ends.antt =====
-- The end of a server process of src/main.rs: by a signal.
use abduco_inline.Prelude.{
  ℕ, ◌+◌, ◌≤◌, ◌≡◌, refl, sym, ap, ◌∙◌, subst, List, [], ◌∷◌, ◌++◌, All, true, false, Option, some,
  none, ok, arith, IoError, Bool, if◌then◌else◌,
}
use mathlib.Core.Option
use abduco_inline.Prelude.Bytes.{Bytes}
use abduco_inline.Prelude.Text.{eq_bytes_refl}
use abduco_inline.Files.{World, socket, is_absolute}
use abduco_inline.Paths.{PathEnv, derive_server_log_path}
use abduco_inline.Sessions.Refused.{session_alive_of_nothing}
use abduco_inline.Server.Tick.{
  Os, Server, Round, tick, Outcome, running, finished, check_finished, server_loop, start,
  exit_drain_deadline,
}
use abduco_inline.Server.Tick.Exit.{ClosedBy}
use abduco_inline.Server.Tick.Returns.{continue}
use abduco_inline.Server.Tick.Sound.{server_of}
use abduco_inline.Server.Tick.Shutdown.{shutdown_ends_session}
use abduco_inline.Sessions.{
  session_alive, child, Run, set_both_nonblocking, run_server, server_process,
}
use abduco_inline.Sessions.Cleanup.{server_process-kind}
use abduco_inline.Log.{
  LogEntry, Log, set_log_path, server_log, log_all, start_entry, clean_entry, loop_entries,
}
use abduco_inline.Log.Exit.{Says, log_tells_the_end}
use abduco_inline.Daemon.{
  ServerProcess, Life, run_of, deliver, take_shutdown_requested, handle_shutdown_signal,
  become_server, set_signals, signal, write_log, redirect_stdio_to_null, serve, server_main,
}
use abduco_inline.Daemon.Signals.{AsksToEnd, deliver-noted}

-- A loop over rounds after which it still runs goes on with the rounds that follow.
goes_on :
    (os : Os) (rs later : List Round) (o : Outcome) (s : Server)
    → ((t : Server)
        → server_loop os rs t ≡ running s
        → server_loop os (rs ++ later) t ≡ server_loop os later s)
    → continue os rs o ≡ running s
    → continue os (rs ++ later) o ≡ server_loop os later s
goes_on os rs later (running t) s ih e = ih t e
goes_on os rs later (finished code t) s ih e = cc

pub server_loop-append :
    (os : Os) (rs later : List Round) (t s : Server)
    → server_loop os rs t ≡ running s
    → server_loop os (rs ++ later) t ≡ server_loop os later s
unfolding server_loop
server_loop-append os [] later t s e = ap (λ (o : Outcome). server_loop os later (server_of o)) e
server_loop-append os (r ∷ rs) later t s e =
    goes_on os rs later (check_finished (tick os r t)) s
      (λ u f. server_loop-append os rs later u s f) e

-- A server whose loop has returned.
returned_lem :
    (path : Bytes) (r : Run) (w : World) (x : Option IoError) (code : ℕ) (s : Server)
    → r.forkpty ≡ child x
    → set_both_nonblocking r ≡ ok tt
    → r.loop ≡ finished code s
    → (server_process path r w).0 ≡ some 0
unfolding server_process run_server
returned_lem path r w x code s f n l = ground (arith, f, n, l)

serve-log :
    (os : Os) (l : Life) (p : ServerProcess) (x : Option IoError)
    → l.forkpty ≡ child x
    → set_both_nonblocking (run_of os l) ≡ ok tt
    → (serve os l p).log
      ≡ log_all os.pid (loop_entries os l.fcntl_error l.rounds (start l.read_pty l.pty)) p.log
unfolding serve write_log redirect_stdio_to_null
serve-log os l p x f n = ground (arith, f, n)

become_server-log :
    (pid : ℕ) (name path : Bytes) (p : ServerProcess)
    → (become_server pid name path p).log
      ≡ server_log pid (start_entry pid name) (set_log_path (derive_server_log_path path) p.log)
unfolding become_server write_log log_all set_signals signal
become_server-log pid name path p = refl

-- From end to end: when SIGTERM or SIGINT arrives at a server process whose child runs, and no new
-- connections come any more, the process exits with 0, its socket is gone, the session is no longer alive,
-- and the loop has returned with 143, at the latest in the first round whose flush comes
-- EXIT_DRAIN_DEADLINE after the clients' closing was decided. The entries that the process hands to
-- server_log, from the one at its start on, end in the one that says 143; in the file stand these as far
-- as it could be opened and has taken each. The process has come as far as its loop, the round after the
-- signal takes the flag that the handler has set, and the path of the socket is absolute and may be
-- removed.
pub signal_ends_server :
    (env : PathEnv) (os : Os) (l : Life) (sig : ℕ) (name path : Bytes) (p p' : ServerProcess)
    (w : World) (g : Option Bytes) (t : ℕ) (first last : Round) (before waits rest : List Round)
    (s : Server)
    → AsksToEnd sig
    → deliver sig (become_server os.pid name path p) ≡ some p'
    → first.shutdown_requested ≡ (take_shutdown_requested p').0
    → l.forkpty ≡ child none
    → set_both_nonblocking (run_of os l) ≡ ok tt
    → l.rounds ≡ before ++ first ∷ (waits ++ last ∷ rest)
    → server_loop os before (start l.read_pty l.pty) ≡ running s
    → s.child_exit ≡ none
    → All (λ c. ClosedBy t c.close_after_drain) s.clients
    → All (λ r. r.accepted ≡ []) (first ∷ waits)
    → last.accepted ≡ []
    → first.packets_at ≤ t
    → first.exit_at ≤ t
    → t + exit_drain_deadline ≤ last.drain_at
    → is_absolute path ≡ true
    → w.kind path ≡ some (socket g)
    → w.denied path ≡ false
    → let out = server_main os l name path p w in
      (out.0 ≡ some 0)
      × (out.1.1.kind path ≡ none)
      × (session_alive env out.1.1 path ≡ (false, out.1.1))
      × ((s' : Server) × (server_loop os l.rounds (start l.read_pty l.pty) ≡ finished 143 s'))
      × ((es : List LogEntry) × (out.1.0.log
            ≡ log_all os.pid
                (start_entry os.pid name ∷ es ++ clean_entry 143 ∷ [])
                (set_log_path (derive_server_log_path path) p.log)))
unfolding server_main handle_shutdown_signal take_shutdown_requested log_all
signal_ends_server env os l sig name path p p' w g t first last before waits rest s ends arrives
      taken forked up rounds comes alive stamps quiet none_new p_at e_at late ab there may =
    let server = become_server os.pid name path p in
    let s0 = start l.read_pty l.pty in
    let noted : some p' ≡ some (handle_shutdown_signal server) =
      sym arrives ∙ deliver-noted os.pid sig name path p ends in
    let requested : first.shutdown_requested ≡ true =
      taken ∙ ap (λ (o : Option ServerProcess). (Option.get_or o p).shutdown_requested) noted in
    let (s', done, _, _) =
      shutdown_ends_session os t first last waits rest s alive requested stamps quiet none_new p_at
        e_at late in
    let loop : server_loop os l.rounds s0 ≡ finished 143 s' =
      ap (λ (rs : List Round). server_loop os rs s0) rounds
      ∙ server_loop-append os before (first ∷ (waits ++ last ∷ rest)) s0 s comes
      ∙ done in
    let code = returned_lem path (run_of os l) w none 143 s' forked up loop in
    let (es, last_line, _) =
      subst (λ (o : Outcome). Says o (loop_entries os l.fcntl_error l.rounds s0)) loop
        (log_tells_the_end os l.fcntl_error l.rounds s0) in
    let gone : (server_process path (run_of os l) w).1.kind path ≡ none =
      server_process-kind path path (run_of os l) w _ g 0 ab there may
        (ap (λ (c : Option ℕ). (c, (server_process path (run_of os l) w).1)) code)
      ∙ ap (λ (b : Bool). if b then none else w.kind path) (eq_bytes_refl path) in
    (
      code,
      gone,
      session_alive_of_nothing env _ path ab gone,
      (s', loop),
      (
        es,
        serve-log os l server none forked up
            ∙ ap (λ (log : Log). log_all os.pid (loop_entries os l.fcntl_error l.rounds s0) log)
                (become_server-log os.pid name path p)
            ∙ ap
                (λ (lines : List LogEntry).
                  log_all os.pid (start_entry os.pid name ∷ lines)
                    (set_log_path (derive_server_log_path path) p.log))
                last_line,
      ),
    )
