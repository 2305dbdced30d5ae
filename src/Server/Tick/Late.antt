-- ===== src/Server/Tick/Late.antt =====
-- Output that comes to the pty between the reads of a round of `server_loop` in src/main.rs and the look
-- for the child's exit in the same round.
use abduco_inline.Prelude.{
  ℕ, ◌≡◌, refl, ap, ◌∙◌, List, [], ◌∷◌, true, false, none, some, arith, would_block, if◌then◌else◌,
  Bool, Option,
}
use abduco_inline.History.{snapshot}
use abduco_inline.Stream.{ReadAnswer, read_failed}
use abduco_inline.Server.Tick.{
  Os, Server, Accepted, Round, shutdown, accept_all, pump, read_output, reap, read_packets, settle,
  tick, finished, check_finished, server_loop, exit_status,
}
use abduco_inline.Server.Tick.Sound.{reads-read_all}
use abduco_inline.Server.Tick.Returns.{continue, server_loop-cons}

-- A read of the pty that finds nothing.
dry_read :
    (s : Server) (later : List ReadAnswer)
    → s.read_pty ≡ true
    → s.pty.reads ≡ read_failed would_block ∷ later
    → read_output s ≡ record s { pty = record (s.pty) { reads = later } }
unfolding read_output pump
dry_read s later on dry =
    ap (λ (b : Bool). if b then pump s.pty.reads s else s) on
    ∙ ap (λ (rs : List ReadAnswer). pump rs s) dry

reap_now :
    (os : Os) (waited : Option ℕ) (s : Server) (status : ℕ)
    → s.child_exit ≡ none
    → waited ≡ some status
    → reap os waited s ≡ record s { child_exit = some (exit_status os status); socket_mode = 0o610 }
unfolding reap
reap_now os waited s status e w = ground (arith, e, w)

-- The server before it reads the clients: the output that comes later waits in the pty.
abbrev noticed : Os → ℕ → List ReadAnswer → Server → Server
noticed os status later s = record s {
  pty = record (s.pty) { reads = later };
  child_exit = some (exit_status os status);
  socket_mode = 0o610;
}

tick-noticed :
    (os : Os) (r : Round) (s : Server) (status : ℕ) (later : List ReadAnswer)
    → s.child_exit ≡ none
    → r.shutdown_requested ≡ false
    → r.accepted ≡ []
    → s.read_pty ≡ true
    → s.pty.reads ≡ read_failed would_block ∷ later
    → r.waited ≡ some status
    → tick os r s ≡ settle r (read_packets r.packets_at (noticed os status later s))
unfolding tick shutdown accept_all
tick-noticed os r s status later alive calm none_new on dry w =
    let rest =
      λ (t : Server). settle r (read_packets r.packets_at (reap os r.waited (read_output t))) in
    ap (λ (b : Bool). rest (accept_all os (shutdown b s) r.accepted)) calm
    ∙ ap (λ (a : List Accepted). rest (accept_all os s a)) none_new
    ∙ ap (λ (t : Server). settle r (read_packets r.packets_at (reap os r.waited t)))
        (dry_read s later on dry)
    ∙ ap (λ (t : Server). settle r (read_packets r.packets_at t))
        (reap_now os r.waited _ status alive w)

settled-kept :
    (r : Round) (s : Server)
    → let t = settle r (read_packets r.packets_at s) in
      (t.pty.reads ≡ s.pty.reads) × (t.history ≡ s.history) × (t.child_exit ≡ s.child_exit)
unfolding settle read_packets
settled-kept r s = (reads-read_all r.packets_at s.history s.clients s.pty, refl, refl)

-- Output that the child writes after the server has found the pty empty, but exits before the same
-- round looks for its exit, is lost where the clients take the exit packet at once: the loop returns at
-- the end of this round, no client is left, and the output is neither in the history nor read from the
-- pty at all.
pub late_output_is_lost :
    (os : Os) (r : Round) (rest : List Round) (s : Server) (status : ℕ) (later : List ReadAnswer)
    → s.child_exit ≡ none
    → r.shutdown_requested ≡ false
    → r.accepted ≡ []
    → s.read_pty ≡ true
    → s.pty.reads ≡ read_failed would_block ∷ later
    → r.waited ≡ some status
    → (tick os r s).clients ≡ []
    → (s' : Server) × (server_loop os (r ∷ rest) s ≡ finished (exit_status os status) s')
      × (s'.clients ≡ [])
      × (snapshot s'.history ≡ snapshot s.history)
      × (s'.pty.reads ≡ later)
unfolding check_finished
late_output_is_lost os r rest s status later alive calm none_new on dry w drained =
    let t = tick os r s in
    let same = tick-noticed os r s status later alive calm none_new on dry w in
    let (reads, history, code) = settled-kept r (noticed os status later s) in
    let known : t.child_exit ≡ some (exit_status os status) =
      ap (λ (u : Server). u.child_exit) same ∙ code in
    let done : check_finished t ≡ finished (exit_status os status) t =
      ground (arith, known, drained) in
    (
      t,
      server_loop-cons os r rest s ∙ ap (continue os rest) done,
      drained,
      ap (λ (u : Server). snapshot u.history) same ∙ ap snapshot history,
      ap (λ (u : Server). u.pty.reads) same ∙ reads,
    )
