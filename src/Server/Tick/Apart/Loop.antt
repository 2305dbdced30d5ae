-- ===== src/Server/Tick/Apart/Loop.antt =====
-- `server_loop` in src/main.rs with a client that sends nothing, and without it.
use abduco_inline.Prelude.{
  ℕ, ◌≡◌, refl, sym, ap, subst, List, [], ◌∷◌, Bool, true, false, if◌then◌else◌, Option, none, some,
  IoError, is_empty, is_none, ◌&&◌,
}
use abduco_inline.History
use abduco_inline.Stream.{ReadAnswer, read_ok, read_failed}
use abduco_inline.Server.Client.{Client, broadcast_content}
use abduco_inline.Server.Packets.{Pty}
use abduco_inline.Server.Tick.{
  Os, Server, Round, Accepted, shutdown, accept_one, accept_all, pump, read_output, reap, read_all,
  read_packets, settle, tick, Outcome, running, finished, check_finished, server_loop,
}
use abduco_inline.Server.Tick.Returns.{continue, check_finished-exited}
use abduco_inline.Server.Tick.Signals.{child_exit-tick}
use abduco_inline.Server.Tick.Apart.{
  Without, keep, skip, none_left, Without-append, Without-broadcast_content, Without-settle,
  Without-read_all,
}

-- Two servers that differ in silent clients of the first alone.
pub record Apart (s t : Server) : Type 0 where
  pub clients : Without s.clients t.clients
  pub rest : t ≡ record s { clients = t.clients }

-- An operation that keeps two servers apart where they differ so.
abbrev Separates : (Server → Server) → Type 0
Separates f =
    (s : Server) (ds : List Client)
    → Without s.clients ds
    → Apart (f s) (f (record s { clients = ds }))

separate : (f : Server → Server) (s t : Server) → Separates f → Apart s t → Apart (f s) (f t)
separate f s t h a =
    subst (λ (u : Server). Apart (f s) (f u)) (sym a.rest) (h s t.clients a.clients)

branch :
    (b : Bool) {s s' t t' : Server}
    → Apart s t
    → Apart s' t'
    → Apart (if b then s else s') (if b then t else t')
branch true a a' = a
branch false a a' = a'

shutdown-Separates : (requested : Bool) → Separates (shutdown requested)
unfolding shutdown
shutdown-Separates requested s ds w =
    branch (requested && is_none s.child_exit) (record { clients = w; rest = refl })
      (record { clients = w; rest = refl })

accept_one-Separates : (os : Os) (a : Accepted) → Separates (λ s. accept_one os s a)
unfolding accept_one
accept_one-Separates os a s ds w =
    branch a.nonblocking (record { clients = Without-append _ w; rest = refl })
      (record { clients = w; rest = refl })

accept_all-Separates : (os : Os) (more : List Accepted) → Separates (λ s. accept_all os s more)
unfolding accept_all
accept_all-Separates os [] s ds w = record { clients = w; rest = refl }
accept_all-Separates os (a ∷ more) s ds w =
    separate (λ t. accept_all os t more) _ _ (accept_all-Separates os more)
      (accept_one-Separates os a s ds w)

pump-Separates : (rs : List ReadAnswer) → Separates (pump rs)
unfolding pump
pump-Separates [] s ds w = record { clients = w; rest = refl }
pump-Separates (read_ok [] ∷ rs) s ds w = record { clients = w; rest = refl }
pump-Separates (read_ok (b ∷ bs) ∷ rs) s ds w =
    pump-Separates rs
      (record s {
        history = History.append s.history (b ∷ bs);
        clients = broadcast_content s.clients (b ∷ bs);
      })
      (broadcast_content ds (b ∷ bs)) (Without-broadcast_content (b ∷ bs) w)
pump-Separates (read_failed IoError.would_block ∷ rs) s ds w = record { clients = w; rest = refl }
pump-Separates (read_failed IoError.interrupted ∷ rs) s ds w = pump-Separates rs s ds w
pump-Separates (read_failed e ∷ rs) s ds w = record { clients = w; rest = refl }

read_output-Separates : Separates read_output
unfolding read_output
read_output-Separates s ds w =
    branch s.read_pty (pump-Separates s.pty.reads s ds w) (record { clients = w; rest = refl })

reap-Separates : (os : Os) (waited : Option ℕ) → Separates (reap os waited)
unfolding reap
reap-Separates os none s ds w =
    branch (is_none s.child_exit) (record { clients = w; rest = refl })
      (record { clients = w; rest = refl })
reap-Separates os (some status) s ds w =
    branch (is_none s.child_exit) (record { clients = w; rest = refl })
      (record { clients = w; rest = refl })

read_packets-Separates : (now : ℕ) → Separates (read_packets now)
unfolding read_packets
read_packets-Separates now s ds w =
    let (v, same) = Without-read_all now s.history s.pty w in
    record {
      clients = v;
      rest =
          ap (λ (p : Pty). record s { clients = (read_all now s.history ds s.pty).0; pty = p })
            same;
    }

settle-Separates : (r : Round) → Separates (settle r)
unfolding settle
settle-Separates r s ds w = record { clients = Without-settle r s ds w; rest = refl }

tick-Apart : (os : Os) (r : Round) (s t : Server) → Apart s t → Apart (tick os r s) (tick os r t)
unfolding tick
tick-Apart os r s t a =
    let a1 =
      separate (shutdown r.shutdown_requested) s t (shutdown-Separates r.shutdown_requested) a in
    let a2 =
      separate (λ u. accept_all os u r.accepted) _ _ (accept_all-Separates os r.accepted) a1 in
    let a3 = separate read_output _ _ read_output-Separates a2 in
    let a4 = separate (reap os r.waited) _ _ (reap-Separates os r.waited) a3 in
    let a5 = separate (read_packets r.packets_at) _ _ (read_packets-Separates r.packets_at) a4 in
    separate (settle r) _ _ (settle-Separates r) a5

-- How far two loops have come: both go on apart, both have returned with the same code, or the one
-- without the silent clients has returned and the other one knows the same exit of the child.
abbrev pub Beside : Outcome → Outcome → Type 0
Beside (running s) (running t) = Apart s t
Beside (running s) (finished code t) = s.child_exit ≡ some code
Beside (finished code s) (running t) = ⊥
Beside (finished code s) (finished code' t) = code ≡ code'

closing-Beside :
    (code : ℕ) (s t : Server) {cs ds : List Client}
    → s.child_exit ≡ some code
    → Apart s t
    → Without cs ds
    → Beside
        (if is_empty cs then finished code s else running s)
        (if is_empty ds then finished code t else running t)
closing-Beside code s t e a none_left = refl
closing-Beside code s t e a (keep c w) = a
closing-Beside code s t e a (skip {ds = []} c q w) = e
closing-Beside code s t e a (skip {ds = d ∷ ds} c q w) = a

exit-Beside :
    (child_exit : Option ℕ) (s t : Server)
    → s.child_exit ≡ child_exit
    → Apart s t
    → let o : Outcome = elim child_exit [
      | none ↦ running s
      | some code ↦ if is_empty s.clients then finished code s else running s
    ] in
      let p : Outcome = elim child_exit [
        | none ↦ running t
        | some code ↦ if is_empty t.clients then finished code t else running t
      ] in
      Beside o p
exit-Beside none s t e a = a
exit-Beside (some code) s t e a = closing-Beside code s t e a a.clients

checked-Beside : (s t : Server) → Apart s t → Beside (check_finished s) (check_finished t)
unfolding check_finished
checked-Beside s t a =
    subst (λ (u : Server). Beside (check_finished s) (check_finished u)) (sym a.rest)
      (exit-Beside s.child_exit s (record s { clients = t.clients }) refl
        (record { clients = a.clients; rest = refl }))

ended_round :
    (os : Os) (rs : List Round) (code : ℕ) (s t : Server) (none_left : Bool)
    → Beside (server_loop os rs s) (finished code t)
    → Beside (continue os rs (if none_left then finished code s else running s)) (finished code t)
ended_round os rs code s t true later = refl
ended_round os rs code s t false later = later

-- A loop that knows the exit of the child can return with nothing else.
ended-Beside :
    (os : Os) (rs : List Round) (code : ℕ) (s t : Server)
    → s.child_exit ≡ some code
    → Beside (server_loop os rs s) (finished code t)
unfolding server_loop
ended-Beside os [] code s t e = e
ended-Beside os (r ∷ rs) code s t e =
    let s' = tick os r s in
    let e' = child_exit-tick os r s code e in
    subst (λ (o : Outcome). Beside (continue os rs o) (finished code t))
      (sym (check_finished-exited code s' e'))
      (ended_round os rs code s' t (is_empty s'.clients) (ended-Beside os rs code s' t e'))

continue-Beside :
    (os : Os) (rs : List Round) (o p : Outcome)
    → ((s t : Server) → Apart s t → Beside (server_loop os rs s) (server_loop os rs t))
    → Beside o p
    → Beside (continue os rs o) (continue os rs p)
continue-Beside os rs (running s) (running t) later b = later s t b
continue-Beside os rs (running s) (finished code t) later b = ended-Beside os rs code s t b
continue-Beside os rs (finished code s) (running t) later b = absurd b
continue-Beside os rs (finished code s) (finished code' t) later b = b

server_loop-Beside :
    (os : Os) (rs : List Round) (s t : Server)
    → Apart s t
    → Beside (server_loop os rs s) (server_loop os rs t)
unfolding server_loop
server_loop-Beside os [] s t a = a
server_loop-Beside os (r ∷ rs) s t a =
    continue-Beside os rs (check_finished (tick os r s)) (check_finished (tick os r t))
      (server_loop-Beside os rs) (checked-Beside _ _ (tick-Apart os r s t a))

-- A client that never sends a byte, however slowly it reads, whether or not its connection breaks, changes
-- nothing for the others. Through any rounds, a server with some such clients and the same server
-- without them agree in everything else: in the history, in all that is written to the pty and all
-- calls made on it, in the exit and the mode of the socket, and in the whole state of every other
-- client. Only the end can differ: the one without them may return earlier, when the other one knows
-- the same exit of the child; and where both return they return with the same code.
pub silent_clients_change_nothing :
    (os : Os) (rs : List Round) (s : Server) (others : List Client)
    → Without s.clients others
    → Beside (server_loop os rs s) (server_loop os rs (record s { clients = others }))
silent_clients_change_nothing os rs s others w =
    server_loop-Beside os rs s (record s { clients = others }) (record { clients = w; rest = refl })
