-- ===== src/Server/Tick/Ending.antt =====
-- The rounds of `server_loop` in src/main.rs after the child's exit, up to the drain deadline.
use abduco_inline.Prelude.{
  ℕ, ◌+◌, ◌≤◌, ◌≡◌, refl, sym, ap, ◌∙◌, subst, List, [], ◌∷◌, Bool, true, Option, none, some, arith,
  All, inl, inr,
}
use abduco_inline.Server.Client.{Client}
use abduco_inline.Server.Tick.{
  Os, Server, Round, shutdown, accept_all, read_output, reap, read_packets, queue_exit,
  flush_client, close_drained, for_clients, retain_connected, queue_exits, settle, tick, pump,
  exit_drain_deadline,
}
use abduco_inline.Server.Tick.Stamps.{read_all-keeps, pump-keeps, child_exit-pump}
use abduco_inline.Server.Tick.Exit.{
  ClosedBy, IsClosing, Leaves, queue_exit-Leaves, queue_exit-closing, flush_client-Leaves,
  close_drained-Leaves, disconnected-close_drained,
}

pub for_clients-All :
    (P Q : Client → Type 0) (f : Client → Client) (cs : List Client)
    → ((c : Client) → P c → Q (f c))
    → All P cs
    → All Q (for_clients f cs)
unfolding for_clients
for_clients-All P Q f [] step ps = tt
for_clients-All P Q f (c ∷ cs) step (p, ps) = (step c p, for_clients-All P Q f cs step ps)

retain_connected-closing :
    (t : ℕ) (cs : List Client)
    → All (Leaves t) cs
    → All (λ c. IsClosing t c.close_after_drain) (retain_connected cs)
unfolding retain_connected
retain_connected-closing t [] ls = tt
retain_connected-closing t (c ∷ cs) (l, ls) =
    let rest = retain_connected-closing t cs ls in
    elim l [ inl gone ↦ ground (arith, rest) | inr closing ↦ ground (arith, rest, closing) ]

retain_connected-nil :
    (cs : List Client) → All (λ c. c.disconnected ≡ true) cs → retain_connected cs ≡ []
unfolding retain_connected
retain_connected-nil [] gone = refl
retain_connected-nil (c ∷ cs) (g, gone) = ground (arith, retain_connected-nil cs gone)

-- The child has exited with this code, and every client's stamp satisfies `P`.
pub record Exited (P : Option ℕ → Type 0) (code : ℕ) (s : Server) : Type 0 where
  pub child_exit : s.child_exit ≡ some code
  pub stamps : All (λ c. P c.close_after_drain) s.clients

-- The part of a round before `settle`.
abbrev unsettled : Os → Round → Server → Server
unsettled os r s =
    let s1 = shutdown r.shutdown_requested s in
    let s2 = accept_all os s1 r.accepted in
    let s3 = read_output s2 in let s4 = reap os r.waited s3 in read_packets r.packets_at s4

module _ (P : Option ℕ → Type 0) (code : ℕ) where
  shutdown-Exited :
      (requested : Bool) (s : Server) → Exited P code s → Exited P code (shutdown requested s)
  unfolding shutdown
  shutdown-Exited requested s e = ground arith

  read_output-Exited : (s : Server) → Exited P code s → Exited P code (read_output s)
  unfolding read_output
  read_output-Exited s e =
      let pumped : Exited P code (pump s.pty.reads s) = record {
        child_exit = child_exit-pump s.pty.reads s ∙ e.child_exit;
        stamps = pump-keeps P s.pty.reads s e.stamps;
      } in
      ground (arith, pumped, e)

  reap-Exited :
      (os : Os) (waited : Option ℕ) (s : Server)
      → Exited P code s
      → Exited P code (reap os waited s)
  unfolding reap
  reap-Exited os waited s e = ground arith

  read_packets-Exited :
      (now : ℕ) (s : Server)
      → (P none → P (some now))
      → Exited P code s
      → Exited P code (read_packets now s)
  unfolding read_packets
  read_packets-Exited now s stamped e = record {
    child_exit = e.child_exit;
    stamps = read_all-keeps P now stamped s.history s.clients s.pty e.stamps;
  }

  unsettled-Exited :
      (os : Os) (r : Round) (s : Server)
      → r.accepted ≡ []
      → (P none → P (some r.packets_at))
      → Exited P code s
      → Exited P code (unsettled os r s)
  unfolding accept_all
  unsettled-Exited os r s none_new stamped e =
      let s1 = shutdown r.shutdown_requested s in
      let same : accept_all os s1 r.accepted ≡ s1 = ap (accept_all os s1) none_new in
      read_packets-Exited r.packets_at _ stamped (
        reap-Exited os r.waited _ (
          read_output-Exited _
            (subst (Exited P code) (sym same) (shutdown-Exited r.shutdown_requested s e))))

-- The clients after the exit was queued and the queues were flushed.
abbrev flushed_clients : Round → ℕ → List Client → List Client
flushed_clients r code cs = for_clients flush_client (for_clients (queue_exit r.exit_at code) cs)

clients-settle :
    (r : Round) (code : ℕ) (s : Server)
    → s.child_exit ≡ some code
    → (settle r s).clients
      ≡ retain_connected (for_clients (close_drained r.drain_at) (flushed_clients r code s.clients))
unfolding settle queue_exits
clients-settle r code s e = ground (arith, e)

-- The clients of a server whose child has exited leave in the round or are to be closed.
module _ (t : ℕ) (r : Round) (code : ℕ) (P : Option ℕ → Type 0)
    (exit_leaves : (c : Client)
      → P c.close_after_drain
      → Leaves t (queue_exit r.exit_at code c)) where
  flushed_clients-Leaves :
      (cs : List Client)
      → All (λ c. P c.close_after_drain) cs
      → All (Leaves t) (flushed_clients r code cs)
  flushed_clients-Leaves cs ps =
      for_clients-All (Leaves t) (Leaves t) flush_client _ (flush_client-Leaves t) (
        for_clients-All (λ c. P c.close_after_drain) (Leaves t) (queue_exit r.exit_at code) cs
          exit_leaves ps)

  settle-Exited : (s : Server) → Exited P code s → Exited (IsClosing t) code (settle r s)
  unfolding settle
  settle-Exited s e = record {
    child_exit = e.child_exit;
    stamps =
        subst (All (λ c. IsClosing t c.close_after_drain))
          (sym (clients-settle r code s e.child_exit))
          (retain_connected-closing t _ (
            for_clients-All (Leaves t) (Leaves t) (close_drained r.drain_at) _
              (close_drained-Leaves t r.drain_at) (flushed_clients-Leaves s.clients e.stamps)));
  }

  settle-nil :
      (s : Server)
      → t + exit_drain_deadline ≤ r.drain_at
      → Exited P code s
      → (settle r s).clients ≡ []
  settle-nil s late e =
      clients-settle r code s e.child_exit
      ∙ retain_connected-nil _ (
          for_clients-All (Leaves t) (λ c. c.disconnected ≡ true) (close_drained r.drain_at) _
            (λ c. disconnected-close_drained t r.drain_at c late)
            (flushed_clients-Leaves s.clients e.stamps))

-- The first round after the exit gives every client that stays a time to leave.
pub first_round :
    (os : Os) (t code : ℕ) (r : Round) (s : Server)
    → r.accepted ≡ []
    → r.packets_at ≤ t
    → r.exit_at ≤ t
    → Exited (ClosedBy t) code s
    → Exited (IsClosing t) code (tick os r s)
unfolding tick
first_round os t code r s none_new p_at e_at e =
    settle-Exited t r code (ClosedBy t) (λ c. queue_exit-Leaves t r.exit_at code c e_at) _
      (unsettled-Exited (ClosedBy t) code os r s none_new (λ _. p_at) e)

pub later_round :
    (os : Os) (t code : ℕ) (r : Round) (s : Server)
    → r.accepted ≡ []
    → Exited (IsClosing t) code s
    → Exited (IsClosing t) code (tick os r s)
unfolding tick
later_round os t code r s none_new e =
    settle-Exited t r code (IsClosing t) (queue_exit-closing t r.exit_at code) _
      (unsettled-Exited (IsClosing t) code os r s none_new (λ p. absurd p) e)

pub last_round :
    (os : Os) (t code : ℕ) (r : Round) (s : Server)
    → r.accepted ≡ []
    → t + exit_drain_deadline ≤ r.drain_at
    → Exited (IsClosing t) code s
    → (tick os r s).clients ≡ []
unfolding tick
last_round os t code r s none_new late e =
    settle-nil t r code (IsClosing t) (queue_exit-closing t r.exit_at code) _ late
      (unsettled-Exited (IsClosing t) code os r s none_new (λ p. absurd p) e)
