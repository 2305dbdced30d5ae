-- ===== src/Server/Tick/Alone/Whole.antt =====
-- From the start of `server_loop` in src/main.rs with one client, that connects in the first round and
-- stays: what it has sent reaches the pty.
use abduco_inline.Prelude.{
  ℕ, suc, ◌≤◌, ◌≡◌, ◌≢◌, sym, ap, ◌∙◌, subst, List, [], ◌∷◌, length, Bool-cases, inl, inr, Option,
  All, arith, Bool,
}
use abduco_inline.Protocol.{Packet}
use abduco_inline.Server.Client.{Client}
use abduco_inline.Server.Packets.{Pty}
use abduco_inline.Server.Packets.Delivery.{TakesAll, inputs}
use abduco_inline.Server.Packets.Rounds.{Handled}
use abduco_inline.Server.Packets.Rounds.Pieces.{Awaits, then_later, room_left}
use abduco_inline.Server.Tick.{
  Os, Server, Accepted, Round, shutdown, accept_all, read_output, reap, read_all, read_packets,
  queue_exits, flush_client, close_drained, for_clients, retain_connected, settle, tick, Outcome,
  running, finished, check_finished, server_loop,
}
use abduco_inline.Server.Tick.Sound.{server_of, server_of-check_finished}
use abduco_inline.Server.Tick.Output.{outputs, hear, clients-pump}
use abduco_inline.Server.Tick.Alone.{IsUnwritten}
use abduco_inline.Server.Tick.Alone.Loop.{serve_round, Handled-IsUnwritten, serve_round-Stays}

-- Without clients and new connections nobody is served.
read_output-nil : (s : Server) → s.clients ≡ [] → (read_output s).clients ≡ []
unfolding read_output for_clients
read_output-nil s e = elim (Bool-cases s.read_pty) [
  | inl on ↦ simp on (clients-pump s.pty.reads s ∙ ap (for_clients (hear (outputs s.pty.reads))) e)
  | inr off ↦ simp off e
]

pub clients-shutdown : (requested : Bool) (s : Server) → (shutdown requested s).clients ≡ s.clients
unfolding shutdown
clients-shutdown requested s = ground arith

clients-reap : (os : Os) (waited : Option ℕ) (s : Server) → (reap os waited s).clients ≡ s.clients
unfolding reap
clients-reap os waited s = ground arith

queue_exits-nil : (now : ℕ) (child_exit : Option ℕ) → queue_exits now child_exit [] ≡ []
unfolding queue_exits for_clients
queue_exits-nil now child_exit = ground arith

read_packets-nil : (now : ℕ) (s : Server) → s.clients ≡ [] → (read_packets now s).clients ≡ []
unfolding read_packets read_all
read_packets-nil now s e = ap (λ (cs : List Client). (read_all now s.history cs s.pty).0) e

settle-nil : (r : Round) (s : Server) → s.clients ≡ [] → (settle r s).clients ≡ []
unfolding settle for_clients retain_connected
settle-nil r s e =
    ap
      (λ (cs : List Client). retain_connected (
        for_clients (close_drained r.drain_at)
          (for_clients flush_client (queue_exits r.exit_at s.child_exit cs))))
      e
    ∙ ap
        (λ (cs : List Client).
          retain_connected (for_clients (close_drained r.drain_at) (for_clients flush_client cs)))
        (queue_exits-nil r.exit_at s.child_exit)

tick-nil :
    (os : Os) (r : Round) (s : Server)
    → r.accepted ≡ []
    → s.clients ≡ []
    → (tick os r s).clients ≡ []
unfolding tick accept_all
tick-nil os r s quiet e =
    let s1 = shutdown r.shutdown_requested s in
    let s2 = accept_all os s1 r.accepted in
    let e2 : s2.clients ≡ [] =
      ap (λ (more : List Accepted). (accept_all os s1 more).clients) quiet
      ∙ clients-shutdown r.shutdown_requested s
      ∙ e in
    settle-nil r _ (
      read_packets-nil r.packets_at _
        (clients-reap os r.waited (read_output s2) ∙ read_output-nil s2 e2))

-- The loop goes on with what a round gives.
abbrev on_with : Os → List Round → Outcome → Outcome
on_with os rs o = elim o [ running t ↦ server_loop os rs t | finished code t ↦ finished code t ]

on_with-nil :
    (os : Os) (rs : List Round) (o : Outcome)
    → (server_of o).clients ≡ []
    → ((t : Server) → t.clients ≡ [] → (server_of (server_loop os rs t)).clients ≡ [])
    → (server_of (on_with os rs o)).clients ≡ []
on_with-nil os rs (running t) e later = later t e
on_with-nil os rs (finished code t) e later = e

server_loop-nil :
    (os : Os) (rs : List Round) (s : Server)
    → All (λ r. r.accepted ≡ []) rs
    → s.clients ≡ []
    → (server_of (server_loop os rs s)).clients ≡ []
unfolding server_loop
server_loop-nil os [] s quiet e = e
server_loop-nil os (r ∷ rs) s (q, quiet) e =
    on_with-nil os rs (check_finished (tick os r s))
      (ap (λ (t : Server). t.clients) (server_of-check_finished (tick os r s))
        ∙ tick-nil os r s q e)
      (λ t e'. server_loop-nil os rs t quiet e')

check_finished-cons : (t : Server) (c : Client) → t.clients ≡ c ∷ [] → check_finished t ≡ running t
unfolding check_finished
check_finished-cons t c e = ground (arith, e)

-- What has been handled when the loop has gone through its rounds.
abbrev pub Delivered : Os → List Round → Server → List Packet → Pty → Type 0
Delivered os rs s ps pty = Handled (inputs ps) pty (server_of (server_loop os rs s)).pty

-- One round, that serves `c` alone, and then the rest of the loop.
pub round_then_loop :
    (os : Os) (r : Round) (rs : List Round) (ps : List Packet) (s u : Server) (c : Client)
    → tick os r s ≡ serve_round os r u
    → u.clients ≡ c ∷ []
    → IsUnwritten s.pty u.pty
    → Awaits (suc (length rs)) ps c
    → All TakesAll s.pty.writes
    → length (inputs ps) ≤ length s.pty.writes
    → All (λ r. r.accepted ≡ []) rs
    → (server_of (server_loop os (r ∷ rs) s)).clients ≢ []
    → ((t : Server) (qs : List Packet) (d : Client)
        → t.clients ≡ d ∷ []
        → Awaits (length rs) qs d
        → All TakesAll t.pty.writes
        → length (inputs qs) ≤ length t.pty.writes
        → (server_of (server_loop os rs t)).clients ≢ []
        → Delivered os rs t qs t.pty)
    → Delivered os (r ∷ rs) s ps s.pty
unfolding server_loop
round_then_loop os r rs ps s u c same e un w t le quiet stays later =
    let v = serve_round os r u in
    let t' = subst (All TakesAll) (sym un.writes) t in
    let le' : length (inputs ps) ≤ length u.pty.writes = ground (arith, un.writes, le) in
    let goes_on : on_with os rs (check_finished (tick os r s)) ≡ on_with os rs (check_finished v) =
      ap (λ (x : Server). on_with os rs (check_finished x)) same in
    elim (serve_round-Stays os (length rs) r ps u c e w t' le') [
      | inl gone ↦ absurd (
          stays (
            ap (λ (o : Outcome). (server_of o).clients) goes_on
            ∙ on_with-nil os rs (check_finished v)
                (ap (λ (t : Server). t.clients) (server_of-check_finished v) ∙ gone)
                (λ t e'. server_loop-nil os rs t quiet e')))
      | inr st ↦
          let on : on_with os rs (check_finished (tick os r s)) ≡ server_loop os rs v =
            goes_on ∙ ap (on_with os rs) (check_finished-cons v st.client st.clients) in
          let rest =
            later v st.later st.client st.clients st.awaits st.handled.answers
              (room_left ps st.whole st.later u.pty v.pty st.packets st.handled le')
              (λ nil. stays (ap (λ (o : Outcome). (server_of o).clients) on ∙ nil)) in
          subst (λ (o : Outcome). Handled (inputs ps) s.pty (server_of o).pty) (sym on)
            (Handled-IsUnwritten (inputs ps) s.pty u.pty _ un
              (then_later ps st.whole st.later u.pty v.pty _ st.packets st.handled rest))
    ]
