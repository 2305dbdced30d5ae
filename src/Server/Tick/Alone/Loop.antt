-- ===== src/Server/Tick/Alone/Loop.antt =====
-- The loop of `server_loop` in src/main.rs with one client, that stays: what the client has sent reaches
-- the pty.
use abduco_inline.Prelude.{
  ℕ, suc, ◌≤◌, ◌≡◌, refl, sym, ap, ◌∙◌, subst, List, [], ◌∷◌, ◌++◌, length, Bool-cases, inl, inr,
  ◌⊎◌, Option, none, some, All, arith, concat,
}
use abduco_inline.Prelude.Bytes.{Bytes}
use abduco_inline.Protocol.{Packet}
use abduco_inline.Server.Client.{Client}
use abduco_inline.Server.Packets.{Pty, read_client_packets}
use abduco_inline.Server.Packets.Delivery.{TakesAll, inputs}
use abduco_inline.Server.Packets.Rounds.{Handled}
use abduco_inline.Server.Packets.Rounds.Pieces.{Awaits, Advances, read_client_packets-Advances}
use abduco_inline.Server.Tick.{
  Os, Server, Round, read_output, reap, read_all, read_packets, queue_exit, queue_exits,
  flush_client, close_drained, for_clients, retain_connected, settle,
}
use abduco_inline.Server.Tick.Alone.{
  Keeps, trans-Keeps, queue_exit-Keeps, flush_client-Keeps, close_drained-Keeps, Awaits-Keeps,
  IsUnwritten, read_output-Alone, reap-Alone,
}

-- A round behind the connections of new clients.
abbrev pub serve_round : Os → Round → Server → Server
serve_round os r u = settle r (read_packets r.packets_at (reap os r.waited (read_output u)))

retained :
    (c d : Client)
    → Keeps c d
    → (retain_connected (d ∷ []) ≡ [])
      ⊎ ((e : Client) × (retain_connected (d ∷ []) ≡ e ∷ []) × Keeps c e)
unfolding retain_connected
retained c d k = elim (Bool-cases d.disconnected) [
  | inl gone ↦ inl (ground (arith, gone))
  | inr up ↦ inr (d, ground (arith, up), k)
]

-- What is left of one client at the end of a round.
settled :
    (r : Round) (child_exit : Option ℕ) (c : Client)
    → let cs = retain_connected (
        for_clients
          (close_drained r.drain_at)
          (for_clients flush_client (queue_exits r.exit_at child_exit (c ∷ [])))) in
      (cs ≡ []) ⊎ ((d : Client) × (cs ≡ d ∷ []) × Keeps c d)
unfolding for_clients queue_exits
settled r none c =
    retained c (close_drained r.drain_at (flush_client c))
      (trans-Keeps c (flush_client c) _ (flush_client-Keeps c) (close_drained-Keeps r.drain_at _))
settled r (some status) c =
    let d = queue_exit r.exit_at status c in
    retained c (close_drained r.drain_at (flush_client d)) (
      trans-Keeps c d _ (queue_exit-Keeps r.exit_at status c) (
        trans-Keeps d (flush_client d) _ (flush_client-Keeps d) (close_drained-Keeps r.drain_at _)))

-- A round that has handled front packets of the client, which stays.
pub record Stays (n : ℕ) (ps : List Packet) (pty : Pty) (s : Server) : Type 0 where
  pub client : Client
  pub clients : s.clients ≡ client ∷ []
  pub whole : List Packet
  pub later : List Packet
  pub packets : ps ≡ whole ++ later
  pub awaits : Awaits n later client
  pub handled : Handled (inputs whole) pty s.pty

pub Handled-IsUnwritten :
    (texts : List Bytes) (pty pty' pty'' : Pty)
    → IsUnwritten pty pty'
    → Handled texts pty' pty''
    → Handled texts pty pty''
Handled-IsUnwritten texts pty pty' pty'' u h = record {
  written = h.written ∙ ap (λ (b : Bytes). b ++ concat texts) u.written;
  answers = h.answers;
  left = ground (arith, u.writes, h.left);
}

read_packets-Alone :
    (now : ℕ) (s : Server) (c : Client)
    → s.clients ≡ c ∷ []
    → let out = read_client_packets now s.history c s.pty in
      read_packets now s ≡ record s { clients = out.0 ∷ []; pty = out.1 }
unfolding read_packets read_all
read_packets-Alone now s c e =
    ap
      (λ (cs : List Client). record s {
        clients = (read_all now s.history cs s.pty).0;
        pty = (read_all now s.history cs s.pty).1;
      })
      e

settle-Stays :
    (n : ℕ) (r : Round) (ps : List Packet) (pty : Pty) (s : Server) (c : Client)
    (a : Advances n ps pty (c, s.pty))
    → s.clients ≡ c ∷ []
    → ((settle r s).clients ≡ []) ⊎ Stays n ps pty (settle r s)
unfolding settle
settle-Stays n r ps pty s c a e =
    let same =
      ap
        (λ (cs : List Client). retain_connected (
          for_clients (close_drained r.drain_at)
            (for_clients flush_client (queue_exits r.exit_at s.child_exit cs))))
        e in
    elim (settled r s.child_exit c) [
      | inl gone ↦ inl (same ∙ gone)
      | inr (d, there, k) ↦ inr (record {
        client = d;
        clients = same ∙ there;
        whole = a.whole;
        later = a.later;
        packets = a.packets;
        awaits = Awaits-Keeps n a.later c d k a.awaits;
        handled = a.handled;
      })
    ]

pub serve_round-Stays :
    (os : Os) (n : ℕ) (r : Round) (ps : List Packet) (u : Server) (c : Client)
    → u.clients ≡ c ∷ []
    → Awaits (suc n) ps c
    → All TakesAll u.pty.writes
    → length (inputs ps) ≤ length u.pty.writes
    → ((serve_round os r u).clients ≡ []) ⊎ Stays n ps u.pty (serve_round os r u)
serve_round-Stays os n r ps u c e w t le =
    let s = reap os r.waited (read_output u) in
    let a = reap-Alone os r.waited c u.pty (read_output u) (read_output-Alone c u e) in
    let t' = subst (All TakesAll) (sym a.unwritten.writes) t in
    let next =
      read_client_packets-Advances n r.packets_at s.history ps a.client s.pty
        (Awaits-Keeps (suc n) ps c a.client a.keeps w) t'
        (ground (arith, a.unwritten.writes, le)) in
    let (c', pty') = read_client_packets r.packets_at s.history a.client s.pty in
    subst (λ (v : Server). ((settle r v).clients ≡ []) ⊎ Stays n ps u.pty (settle r v))
      (sym (read_packets-Alone r.packets_at s a.client a.clients))
      (settle-Stays n r ps u.pty (record s { clients = c' ∷ []; pty = pty' }) c'
        (record {
          whole = next.whole;
          later = next.later;
          packets = next.packets;
          awaits = next.awaits;
          handled =
              Handled-IsUnwritten (inputs next.whole) u.pty s.pty pty' a.unwritten next.handled;
        })
        refl)
