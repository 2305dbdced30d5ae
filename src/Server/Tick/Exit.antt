-- ===== src/Server/Tick/Exit.antt =====
-- The parts of a round of `server_loop` in src/main.rs that drain and close the clients after the
-- child's exit.
use abduco_inline.Prelude.{
  ℕ, ◌+◌, ◌≤◌, ◌≡◌, refl, sym, ◌∙◌, subst, Bool, true, false, ◌||◌, not, if◌then◌else◌, Option,
  none, some, is_none, arith, inl, inr, ◌⊎◌,
}
use abduco_inline.Server.Client.{Client}
use abduco_inline.Server.Client.Outbound.{try_flush_client-Sends, send_packet_nonblocking-Send}
use abduco_inline.Server.Tick.{
  queue_exit, flush_client, close_drained, exit_packet, exit_drain_deadline,
}

-- The client may still be open, but if it is to be closed, the decision is not later than `t`.
abbrev pub ClosedBy : ℕ → Option ℕ → Type 0
ClosedBy t none = Unit
ClosedBy t (some u) = u ≤ t

-- The client is to be closed, and that was decided not later than `t`.
abbrev pub IsClosing : ℕ → Option ℕ → Type 0
IsClosing t none = ⊥
IsClosing t (some u) = u ≤ t

-- The client leaves now, or is to be closed.
abbrev pub Leaves : ℕ → Client → Type 0
Leaves t c = (c.disconnected ≡ true) ⊎ IsClosing t c.close_after_drain

stamp_closes :
    (t now : ℕ) (gone : Bool) (o : Option ℕ)
    → now ≤ t
    → ClosedBy t o
    → (gone ≡ true) ⊎ IsClosing t (if gone || not (is_none o) then o else some now)
stamp_closes t now true o le p = inl refl
stamp_closes t now false none le p = inr le
stamp_closes t now false (some u) le p = inr p

pub state-queue_exit :
    (now status : ℕ) (c : Client)
    → ((queue_exit now status c).disconnected ≡ c.disconnected)
      × ((queue_exit now status c).close_after_drain ≡ (
          if c.disconnected || not (is_none c.close_after_drain)
          then c.close_after_drain
          else some now))
unfolding queue_exit
state-queue_exit now status c =
    ground (arith, (send_packet_nonblocking-Send c (exit_packet status)).connected)

pub queue_exit-Leaves :
    (t now status : ℕ) (c : Client)
    → now ≤ t
    → ClosedBy t c.close_after_drain
    → Leaves t (queue_exit now status c)
queue_exit-Leaves t now status c le p =
    let (up, stamp) = state-queue_exit now status c in
    elim (stamp_closes t now c.disconnected c.close_after_drain le p) [
      | inl gone ↦ inl (up ∙ gone)
      | inr closing ↦ inr (subst (IsClosing t) (sym stamp) closing)
    ]

state-flush_client :
    (c : Client)
    → (c.disconnected ≡ true → (flush_client c).disconnected ≡ true)
      × ((flush_client c).close_after_drain ≡ c.close_after_drain)
unfolding flush_client
state-flush_client c = ground (arith, (try_flush_client-Sends c).close_after_drain)

pub flush_client-Leaves : (t : ℕ) (c : Client) → Leaves t c → Leaves t (flush_client c)
flush_client-Leaves t c l =
    let (gone, stamp) = state-flush_client c in
    elim l [ inl e ↦ inl (gone e) | inr closing ↦ inr (subst (IsClosing t) (sym stamp) closing) ]

-- A client whose deadline has passed is given up, whatever its queue holds.
overdue :
    (t now : ℕ) (c : Client) (o : Option ℕ)
    → c.close_after_drain ≡ o
    → t + exit_drain_deadline ≤ now
    → IsClosing t o
    → (close_drained now c).disconnected ≡ true
unfolding close_drained
overdue t now c none e le p = absurd p
overdue t now c (some u) e le p = ground arith

close_drained-gone :
    (now : ℕ) (c : Client) → c.disconnected ≡ true → (close_drained now c).disconnected ≡ true
unfolding close_drained
close_drained-gone now c e = ground arith

pub disconnected-close_drained :
    (t now : ℕ) (c : Client)
    → t + exit_drain_deadline ≤ now
    → Leaves t c
    → (close_drained now c).disconnected ≡ true
disconnected-close_drained t now c le l = elim l [
  | inl e ↦ close_drained-gone now c e
  | inr p ↦ overdue t now c c.close_after_drain refl le p
]

stamp-close_drained :
    (now : ℕ) (c : Client) → (close_drained now c).close_after_drain ≡ c.close_after_drain
unfolding close_drained
stamp-close_drained now c = ground arith

pub close_drained-Leaves : (t now : ℕ) (c : Client) → Leaves t c → Leaves t (close_drained now c)
close_drained-Leaves t now c l = elim l [
  | inl e ↦ inl (close_drained-gone now c e)
  | inr p ↦ inr (subst (IsClosing t) (sym (stamp-close_drained now c)) p)
]

still_closing :
    (t now : ℕ) (gone : Bool) (o : Option ℕ)
    → IsClosing t o
    → IsClosing t (if gone || not (is_none o) then o else some now)
still_closing t now gone none p = absurd p
still_closing t now true (some u) p = p
still_closing t now false (some u) p = p

-- A client that is being closed gets no second exit packet's stamp.
pub queue_exit-closing :
    (t now status : ℕ) (c : Client)
    → IsClosing t c.close_after_drain
    → Leaves t (queue_exit now status c)
queue_exit-closing t now status c p =
    let (_, stamp) = state-queue_exit now status c in
    inr (subst (IsClosing t) (sym stamp) (still_closing t now c.disconnected c.close_after_drain p))
