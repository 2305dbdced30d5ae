-- ===== src/Server/Tick/Rounds.antt =====
-- The rounds of the loop of the server in src/main.rs, and the output of the pty in them: what follows it.
use abduco_inline.Prelude.{
  ℕ, ◌≡◌, sym, subst, List, [], ◌∷◌, ◌++◌, append-nil, append_assoc, get_elem?, some, All, zero,
  suc, arith,
}
use abduco_inline.Prelude.Bytes.{Bytes}
use abduco_inline.Server.Client.{Client}
use abduco_inline.Server.Tick.{
  Os, Server, Accepted, Round, shutdown, accept_all, read_output, reap, read_packets, tick, Outcome,
  running, finished, check_finished, server_loop,
}
use abduco_inline.Server.Tick.Sound.{server_of, server_of-check_finished}
use abduco_inline.Server.Tick.Follower.{Follower}
use abduco_inline.Server.Tick.Held.{
  Refines, output_of, read_output-Refines, accept_all-Refines, shutdown-Refines, reap-Refines,
  read_packets-Refines, settle-Refines,
}

-- The server when it has read the packets of a round.
abbrev pub read_round : Os → Round → Server → Server
read_round os r s =
    read_packets r.packets_at
      (reap os r.waited (read_output (accept_all os (shutdown r.shutdown_requested s) r.accepted)))

-- The output that the pty gives in a round.
unfoldable pub round_output : Os → Round → Server → Bytes
round_output os r s = output_of (accept_all os (shutdown r.shutdown_requested s) r.accepted)

-- The output that the pty gives in all the rounds of a loop.
unfoldable pub loop_output : Os → List Round → Server → Bytes
loop_output os [] s = []
loop_output os (r ∷ rs) s =
    let later : Bytes = elim (check_finished (tick os r s)) [
      | running t ↦ loop_output os rs t
      | finished code t ↦ []
    ] in
    round_output os r s ++ later

module _ {os : Os} {Comes : Accepted → Type 0} {Fits : Bytes → Type 0} {P : Bytes → Client → Type 0}
    (f : Follower os Comes Fits P) where
  pub read_round-Refines :
      (r : Round) (s : Server) (out : Bytes)
      → All Comes r.accepted
      → Refines Fits P out s
      → Refines Fits P (out ++ round_output os r s) (read_round os r s)
  unfolding round_output
  read_round-Refines r s out come v =
      let s1 = shutdown r.shutdown_requested s in
      let s2 = accept_all os s1 r.accepted in
      let listening =
        accept_all-Refines f s1 r.accepted out come
          (shutdown-Refines f r.shutdown_requested s out v) in
      read_packets-Refines f r.packets_at _ _
        (reap-Refines f r.waited _ _ (read_output-Refines f s2 out listening))

  tick-Refines :
      (r : Round) (s : Server) (out : Bytes)
      → All Comes r.accepted
      → Refines Fits P out s
      → Refines Fits P (out ++ round_output os r s) (tick os r s)
  unfolding tick
  tick-Refines r s out come v =
      settle-Refines f r (read_round os r s) _ (read_round-Refines r s out come v)

  loop_step-Refines :
      (rs : List Round) (o : Outcome) (out : Bytes)
      → Refines Fits P out (server_of o)
      → ((t : Server)
          → Refines Fits P out t
          → Refines Fits P (out ++ loop_output os rs t) (server_of (server_loop os rs t)))
      → let later : Bytes = elim o [ running t ↦ loop_output os rs t | finished code t ↦ [] ] in
        let next : Outcome = elim o [
          | running t ↦ server_loop os rs t
          | finished code t ↦ finished code t
        ] in
        Refines Fits P (out ++ later) (server_of next)
  loop_step-Refines rs (running t) out v later = later t v
  loop_step-Refines rs (finished code t) out v later =
      subst (λ (o : Bytes). Refines Fits P o t) (sym (append-nil out)) v

  pub server_loop-Refines :
      (rs : List Round) (s : Server) (out : Bytes)
      → All (λ r. All Comes r.accepted) rs
      → Refines Fits P out s
      → Refines Fits P (out ++ loop_output os rs s) (server_of (server_loop os rs s))
  unfolding server_loop loop_output
  server_loop-Refines [] s out come v =
      subst (λ (o : Bytes). Refines Fits P o s) (sym (append-nil out)) v
  server_loop-Refines (r ∷ rs) s out (come, comes) v =
      let t = tick os r s in
      let out' = out ++ round_output os r s in
      let next =
        loop_step-Refines rs (check_finished t) out'
          (subst (Refines Fits P out') (sym (server_of-check_finished t))
            (tick-Refines r s out come v))
          (λ u w. server_loop-Refines rs u out' comes w) in
      subst (λ (o : Bytes). Refines Fits P o (server_of (server_loop os (r ∷ rs) s)))
        (append_assoc out (round_output os r s) _) next

pub All-get_elem? :
    (P : Client → Type 0) (cs : List Client) (i : ℕ) (c : Client)
    → All P cs
    → get_elem? cs i ≡ some c
    → P c
All-get_elem? P [] i c v e = absurd cc
All-get_elem? P (d ∷ cs) zero c (w, v) e = subst P (ground (arith, e)) w
All-get_elem? P (d ∷ cs) (suc i) c (w, v) e = All-get_elem? P cs i c v e
