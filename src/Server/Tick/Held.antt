-- ===== src/Server/Tick/Held.antt =====
-- The log of the output through the parts of a round of `server_loop` in src/main.rs.
use abduco_inline.Prelude.{
  ℕ, ◌≡◌, sym, ap, ◌∙◌, subst, List, [], ◌∷◌, ◌++◌, append-nil, append_assoc, take_last,
  take_last-append, concat, if◌then◌else◌, Bool, Bool-cases, inl, inr, Option, none, some, IoError,
  All, All-append, arith,
}
use abduco_inline.Prelude.Bytes.{Bytes}
use abduco_inline.History
use abduco_inline.History.{History, snapshot, history_cap}
use abduco_inline.History.Window.{snapshot-append}
use abduco_inline.Stream.{ReadAnswer, read_ok, read_failed}
use abduco_inline.Server.Client.{Client, broadcast_content}
use abduco_inline.Server.Packets.{Pty, read_client_packets}
use abduco_inline.Server.Tick.{
  Os, Server, Accepted, Round, shutdown, accept_one, accept_all, pump, read_output, reap, read_all,
  queue_exit, queue_exits, read_packets, flush_client, close_drained, retain_connected, settle,
}
use abduco_inline.Server.Tick.Ending.{for_clients-All}
use abduco_inline.Server.Tick.Output.{outputs}
use abduco_inline.Server.Tick.Follower.{Gives, Follower}
use abduco_inline.Server.Tick.Sound.{reads-read_all}
use abduco_inline.Server.Tick.Follow.{
  read_client_packets-Follows, queue_exit-Follows, flush_client-Follows, close_drained-Follows,
}

-- The log `out` is held: the history is its last part, every client follows it, and the pty goes on to
-- give what fits.
pub record Refines (Fits : Bytes → Type 0) (P : Bytes → Client → Type 0) (out : Bytes) (s : Server)
    : Type 0 where
  pub history : snapshot s.history ≡ take_last history_cap out
  pub clients : All (P out) s.clients
  pub reads : All (Gives Fits) s.pty.reads

retain_connected-any :
    (P : Client → Type 0) (cs : List Client) → All P cs → All P (retain_connected cs)
unfolding retain_connected
retain_connected-any P [] v = tt
retain_connected-any P (c ∷ cs) (w, v) = ground (arith, w, retain_connected-any P cs v)

-- The output that a server reads in a round.
abbrev pub output_of : Server → Bytes
output_of s = if s.read_pty then concat (outputs s.pty.reads) else []

module _ {os : Os} {Comes : Accepted → Type 0} {Fits : Bytes → Type 0} {P : Bytes → Client → Type 0}
    (f : Follower os Comes Fits P) where
  broadcast_content-Follows :
      (out d : Bytes) (cs : List Client)
      → Fits d
      → All (P out) cs
      → All (P (out ++ d)) (broadcast_content cs d)
  unfolding broadcast_content
  broadcast_content-Follows out d [] fit v = tt
  broadcast_content-Follows out d (c ∷ cs) fit (w, v) =
      (f.heard out d c fit w, broadcast_content-Follows out d cs fit v)

  pump-Refines :
      (rs : List ReadAnswer) (s : Server) (out : Bytes)
      → All (Gives Fits) rs
      → snapshot s.history ≡ take_last history_cap out
      → All (P out) s.clients
      → Refines Fits P (out ++ concat (outputs rs)) (pump rs s)
  unfolding pump outputs
  pump-Refines [] s out g h v =
      subst (λ (o : Bytes). Refines Fits P o (pump [] s)) (sym (append-nil out))
        (record { history = h; clients = v; reads = tt })
  pump-Refines (read_ok [] ∷ rs) s out (fit, g) h v =
      subst (λ (o : Bytes). Refines Fits P o (pump (read_ok [] ∷ rs) s)) (sym (append-nil out))
        (record { history = h; clients = v; reads = g })
  pump-Refines (read_ok (b ∷ bs) ∷ rs) s out (fit, g) h v =
      let s' : Server = record s {
        history = History.append s.history (b ∷ bs);
        clients = broadcast_content s.clients (b ∷ bs);
      } in
      subst (λ (o : Bytes). Refines Fits P o (pump rs s'))
        (append_assoc out (b ∷ bs) (concat (outputs rs)))
        (pump-Refines rs s' (out ++ b ∷ bs) g
          (snapshot-append s.history (b ∷ bs)
            ∙ ap (λ (c : Bytes). take_last history_cap (c ++ b ∷ bs)) h
            ∙ take_last-append history_cap out (b ∷ bs))
          (broadcast_content-Follows out (b ∷ bs) s.clients fit v))
  pump-Refines (read_failed IoError.interrupted ∷ rs) s out (fit, g) h v =
      pump-Refines rs s out g h v
  pump-Refines (read_failed e ∷ rs) s out (fit, g) h v =
      subst (λ (o : Bytes). Refines Fits P o (pump (read_failed e ∷ rs) s)) (sym (append-nil out))
        (record { history = h; clients = v; reads = g })

  pub read_output-Refines :
      (s : Server) (out : Bytes)
      → Refines Fits P out s
      → Refines Fits P (out ++ output_of s) (read_output s)
  unfolding read_output
  read_output-Refines s out v = elim (Bool-cases s.read_pty) [
    | inl e ↦ simp e (pump-Refines s.pty.reads s out v.reads v.history v.clients)
    | inr e ↦ simp e (subst (λ (o : Bytes). Refines Fits P o s) (sym (append-nil out)) v)
  ]

  accept_one-Refines :
      (s : Server) (a : Accepted) (out : Bytes)
      → Comes a
      → Refines Fits P out s
      → Refines Fits P out (accept_one os s a)
  unfolding accept_one
  accept_one-Refines s a out come v = elim (Bool-cases a.nonblocking) [
    | inl e ↦ simp e (record {
      history = v.history;
      clients = All-append (P out) s.clients _ v.clients (f.accepted out a come, tt);
      reads = v.reads;
    })
    | inr e ↦ simp e v
  ]

  pub accept_all-Refines :
      (s : Server) (more : List Accepted) (out : Bytes)
      → All Comes more
      → Refines Fits P out s
      → Refines Fits P out (accept_all os s more)
  unfolding accept_all
  accept_all-Refines s [] out come v = v
  accept_all-Refines s (a ∷ more) out (come, comes) v =
      accept_all-Refines (accept_one os s a) more out comes (accept_one-Refines s a out come v)

  pub shutdown-Refines :
      (requested : Bool) (s : Server) (out : Bytes)
      → Refines Fits P out s
      → Refines Fits P out (shutdown requested s)
  unfolding shutdown
  shutdown-Refines requested s out v = ground (arith, v)

  pub reap-Refines :
      (waited : Option ℕ) (s : Server) (out : Bytes)
      → Refines Fits P out s
      → Refines Fits P out (reap os waited s)
  unfolding reap
  reap-Refines waited s out v = ground (arith, v)

  read_all-Follows :
      (out : Bytes) (now : ℕ) (h : History) (cs : List Client) (pty : Pty)
      → snapshot h ≡ take_last history_cap out
      → All (P out) cs
      → All (P out) (read_all now h cs pty).0
  unfolding read_all
  read_all-Follows out now h [] pty e v = tt
  read_all-Follows out now h (c ∷ cs) pty e (w, v) = (
    read_client_packets-Follows f out now h c pty e w,
    read_all-Follows out now h cs (read_client_packets now h c pty).1 e v,
  )

  pub read_packets-Refines :
      (now : ℕ) (s : Server) (out : Bytes)
      → Refines Fits P out s
      → Refines Fits P out (read_packets now s)
  unfolding read_packets
  read_packets-Refines now s out v = record {
    history = v.history;
    clients = read_all-Follows out now s.history s.clients s.pty v.history v.clients;
    reads = subst (All (Gives Fits)) (sym (reads-read_all now s.history s.clients s.pty)) v.reads;
  }

  queue_exits-Follows :
      (out : Bytes) (now : ℕ) (child_exit : Option ℕ) (cs : List Client)
      → All (P out) cs
      → All (P out) (queue_exits now child_exit cs)
  unfolding queue_exits
  queue_exits-Follows out now none cs v = v
  queue_exits-Follows out now (some status) cs v =
      for_clients-All (P out) (P out) (queue_exit now status) cs
        (queue_exit-Follows f out now status) v

  pub settle-Refines :
      (r : Round) (s : Server) (out : Bytes)
      → Refines Fits P out s
      → Refines Fits P out (settle r s)
  unfolding settle
  settle-Refines r s out v =
      let exits = queue_exits-Follows out r.exit_at s.child_exit s.clients v.clients in
      let flushed =
        for_clients-All (P out) (P out) flush_client _ (flush_client-Follows f out) exits in
      let closed =
        for_clients-All (P out) (P out) (close_drained r.drain_at) _
          (close_drained-Follows f out r.drain_at) flushed in
      record {
        history = v.history;
        clients = retain_connected-any (P out) _ closed;
        reads = v.reads;
      }
