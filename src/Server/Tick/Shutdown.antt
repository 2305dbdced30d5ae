-- ===== src/Server/Tick/Shutdown.antt =====
-- SIGTERM and SIGINT at the server, as `server_loop` in src/main.rs deals with them.
use abduco_inline.Prelude.{
  ℕ, ◌+◌, ◌≤◌, ◌≡◌, refl, sym, ap, ◌∙◌, subst, List, [], ◌∷◌, ◌++◌, true, none, some, arith, All,
  Bool, Option-cases, inl, inr, ◌⊎◌,
}
use abduco_inline.Server.Packets.{Pty, PtyCall, term_group}
use abduco_inline.Server.Tick.{
  Os, Server, Round, shutdown, tick, Outcome, finished, check_finished, server_loop, sigterm,
  exit_drain_deadline, start,
}
use abduco_inline.Server.Tick.Exit.{ClosedBy}
use abduco_inline.Server.Tick.Returns.{continue, server_loop-cons, server_loop_returns}
use abduco_inline.Server.Tick.Sound.{server_of}
use abduco_inline.Server.Tick.Signals.{
  terms, terms-append, settled, tick-shutdown, terms-settled, child_exit-settled, server_loop-keeps,
}

-- The child has exited, with so many signals sent.
abbrev pub Over : ℕ → ℕ → Server → Type 0
Over code n s = (s.child_exit ≡ some code) × (terms s.pty.calls ≡ n)

shutdown-Over :
    (requested : Bool) (code n : ℕ) (s : Server)
    → Over code n s
    → Over code n (shutdown requested s)
unfolding shutdown
shutdown-Over requested code n s (e, t) = ground arith

tick-Over :
    (os : Os) (code n : ℕ) (r : Round) (s : Server) → Over code n s → Over code n (tick os r s)
unfolding tick
tick-Over os code n r s v =
    let (e, t) = shutdown-Over r.shutdown_requested code n s v in
    let s1 = shutdown r.shutdown_requested s in
    (child_exit-settled os r s1 code e, terms-settled os r s1 ∙ t)

-- At most one signal, and none while the child runs.
record IsTold (s : Server) : Type 0 where
  once : terms s.pty.calls ≤ 1
  running_child : s.child_exit ≡ none → terms s.pty.calls ≡ 0

one_more : (calls : List PtyCall) → terms (calls ++ term_group ∷ []) ≡ 1 + terms calls
one_more calls = omega (arith, terms-append calls (term_group ∷ []))

shutdown-IsTold : (requested : Bool) (s : Server) → IsTold s → IsTold (shutdown requested s)
unfolding shutdown
shutdown-IsTold requested s v = record {
  once = ground (arith, v.once, v.running_child, one_more s.pty.calls);
  running_child = ground (arith, v.running_child);
}

settled-IsTold : (os : Os) (r : Round) (s : Server) → IsTold s → IsTold (settled os r s)
settled-IsTold os r s v = record {
  once = omega (arith, terms-settled os r s, v.once);
  running_child = λ none_yet. elim (Option-cases s.child_exit) [
    | inl e ↦ terms-settled os r s ∙ v.running_child e
    | inr (code, e) ↦ absurd (ground (arith, none_yet, child_exit-settled os r s code e))
  ];
}

tick-IsTold : (os : Os) (r : Round) (s : Server) → IsTold s → IsTold (tick os r s)
unfolding tick
tick-IsTold os r s v =
    settled-IsTold os r (shutdown r.shutdown_requested s) (shutdown-IsTold r.shutdown_requested s v)

-- In every state that the server comes to from its start, either its child still runs and the process
-- group of the session has not been told to terminate, or the child's exit is known, by a signal or from
-- `waitpid`, and the group has been told at most once; and then, whatever rounds follow, that exit stands
-- and the group is not told again.
pub terminated_at_most_once :
    (os : Os) (rs later : List Round) (read_pty : Bool) (pty : Pty)
    → pty.calls ≡ []
    → let s = server_of (server_loop os rs (start read_pty pty)) in
      let s' = server_of (server_loop os later s) in
      ((s.child_exit ≡ none) × (terms s.pty.calls ≡ 0))
      ⊎ ((code : ℕ) × (s.child_exit ≡ some code)
          × (terms s.pty.calls ≤ 1)
          × (s'.child_exit ≡ some code)
          × (terms s'.pty.calls ≡ terms s.pty.calls))
terminated_at_most_once os rs later read_pty pty fresh =
    let none_sent = ap terms fresh in
    let s = server_of (server_loop os rs (start read_pty pty)) in
    let v =
      server_loop-keeps IsTold os (tick-IsTold os) rs (start read_pty pty)
        (record { once = omega (arith, none_sent); running_child = λ _. none_sent }) in
    elim (Option-cases s.child_exit) [
      | inl e ↦ inl (e, v.running_child e)
      | inr (code, e) ↦
          let n = terms s.pty.calls in
          let over = server_loop-keeps (Over code n) os (tick-Over os code n) later s (e, refl) in
          inr (code, e, v.once, over.0, over.1)
    ]

shutdown-Over_now :
    (s : Server)
    → s.child_exit ≡ none
    → Over (128 + sigterm) (1 + terms s.pty.calls) (shutdown true s)
unfolding shutdown
shutdown-Over_now s e = ground (arith, e, one_more s.pty.calls)

clients-shutdown : (requested : Bool) (s : Server) → (shutdown requested s).clients ≡ s.clients
unfolding shutdown
clients-shutdown requested s = ground arith

-- A SIGTERM or SIGINT at the server, while the child runs, ends the session: the process group of the child
-- is told to terminate, once, and where no new connections come the loop returns with 143 and no clients
-- left, at the latest in the first round whose flush comes EXIT_DRAIN_DEADLINE after the clients'
-- closing was decided.
pub shutdown_ends_session :
    (os : Os) (t : ℕ) (first last : Round) (waits rest : List Round) (s : Server)
    → s.child_exit ≡ none
    → first.shutdown_requested ≡ true
    → All (λ c. ClosedBy t c.close_after_drain) s.clients
    → All (λ r. r.accepted ≡ []) (first ∷ waits)
    → last.accepted ≡ []
    → first.packets_at ≤ t
    → first.exit_at ≤ t
    → t + exit_drain_deadline ≤ last.drain_at
    → (s' : Server) × (server_loop os (first ∷ waits ++ last ∷ rest) s ≡ finished 143 s')
      × (s'.clients ≡ [])
      × (terms s'.pty.calls ≡ 1 + terms s.pty.calls)
shutdown_ends_session os t first last waits rest s alive requested stamps quiet none_new p_at e_at
      late =
    let rounds = first ∷ waits ++ last ∷ rest in
    let down = shutdown true s in
    let over = shutdown-Over_now s alive in
    let (s', done, gone) =
      server_loop_returns os t (128 + sigterm) first last waits rest down over.0
        (subst (All (λ c. ClosedBy t c.close_after_drain)) (sym (clients-shutdown true s)) stamps)
        quiet none_new p_at e_at late in
    let same : server_loop os rounds s ≡ server_loop os rounds down =
      server_loop-cons os first (waits ++ last ∷ rest) s
      ∙ ap (λ (u : Server). continue os (waits ++ last ∷ rest) (check_finished u))
          (sym (tick-shutdown os first s requested))
      ∙ sym (server_loop-cons os first (waits ++ last ∷ rest) down) in
    let told_once =
      server_loop-keeps (Over (128 + sigterm) (1 + terms s.pty.calls)) os
        (tick-Over os (128 + sigterm) (1 + terms s.pty.calls)) rounds down over in
    (
      s',
      same ∙ done,
      gone,
      sym (ap (λ (o : Outcome). terms (server_of o).pty.calls) done) ∙ told_once.1,
    )
