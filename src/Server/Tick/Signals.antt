-- ===== src/Server/Tick/Signals.antt =====
-- The signals that `server_loop` in src/main.rs sends to the processes of the session.
use abduco_inline.Prelude.{
  ℕ, ◌+◌, ◌≡◌, refl, sym, ap, ◌∙◌, subst, List, [], ◌∷◌, ◌++◌, true, some, arith, Bool, Option,
  IoError,
}
use abduco_inline.Prelude.Bytes.{Bytes}
use abduco_inline.History.{History}
use abduco_inline.Stream.{ReadAnswer, read_ok, read_failed}
use abduco_inline.Server.Client.{Client}
use abduco_inline.Server.Packets.Input.{read_client_packets-pty}
use abduco_inline.Server.Packets.{
  Pty, PtyCall, term_group, set_winsize, winch_group, fd_write_all, resize, read_client_packets,
}
use abduco_inline.Server.Tick.{
  Os, Server, Round, Accepted, shutdown, accept_one, accept_all, pump, read_output, reap, read_all,
  read_packets, settle, tick, Outcome, running, finished, check_finished, server_loop,
}
use abduco_inline.Server.Tick.Sound.{server_of, server_of-check_finished}

-- The second look at a request for a shutdown does nothing.
pub shutdown_again : (s : Server) → shutdown true (shutdown true s) ≡ shutdown true s
unfolding shutdown
shutdown_again s = ground arith

-- A round behind its look at the request.
abbrev pub settled : Os → Round → Server → Server
settled os r s1 =
    let s2 = accept_all os s1 r.accepted in
    let s4 = reap os r.waited (read_output s2) in settle r (read_packets r.packets_at s4)

pub tick-shutdown :
    (os : Os) (r : Round) (s : Server)
    → r.shutdown_requested ≡ true
    → tick os r (shutdown true s) ≡ tick os r s
unfolding tick
tick-shutdown os r s requested =
    ap (λ (b : Bool). settled os r (shutdown b (shutdown true s))) requested
    ∙ ap (settled os r) (shutdown_again s)
    ∙ ap (λ (b : Bool). settled os r (shutdown b s)) (sym requested)

-- How often the process group of the session has been told to terminate.
abbrev pub terms : List PtyCall → ℕ
terms [] = 0
terms (term_group ∷ calls) = 1 + terms calls
terms (call ∷ calls) = terms calls

pub terms-append : (xs ys : List PtyCall) → terms (xs ++ ys) ≡ terms xs + terms ys
terms-append [] ys = omega arith
terms-append (term_group ∷ xs) ys = omega (arith, terms-append xs ys)
terms-append (winch_group ∷ xs) ys = terms-append xs ys
terms-append (set_winsize r c ∷ xs) ys = terms-append xs ys

terms-resize : (pty : Pty) (buf : Bytes) → terms (resize pty buf).calls ≡ terms pty.calls
unfolding resize
terms-resize pty buf =
    terms-append pty.calls _ ∙ ap (λ (n : ℕ). terms pty.calls + n) refl ∙ omega arith

terms-read_client_packets :
    (now : ℕ) (h : History) (c : Client) (pty : Pty)
    → terms (read_client_packets now h c pty).1.calls ≡ terms pty.calls
unfolding fd_write_all
terms-read_client_packets now h c pty =
    read_client_packets-pty (λ (p : Pty). terms p.calls ≡ terms pty.calls) (λ p buf e. e)
      (λ p buf e. terms-resize p buf ∙ e) now h c pty refl

terms-read_all :
    (now : ℕ) (h : History) (cs : List Client) (pty : Pty)
    → terms (read_all now h cs pty).1.calls ≡ terms pty.calls
unfolding read_all
terms-read_all now h [] pty = refl
terms-read_all now h (c ∷ cs) pty =
    terms-read_all now h cs (read_client_packets now h c pty).1
    ∙ terms-read_client_packets now h c pty

-- The exit of the child, as the server knows it, and the signals to terminate.
abbrev told : Server → Option ℕ × ℕ
told s = (s.child_exit, terms s.pty.calls)

told-accept_all :
    (os : Os) (s : Server) (more : List Accepted) → told (accept_all os s more) ≡ told s
unfolding accept_all accept_one
told-accept_all os s [] = refl
told-accept_all os s (a ∷ more) = told-accept_all os (accept_one os s a) more ∙ ground arith

told-pump : (rs : List ReadAnswer) (s : Server) → told (pump rs s) ≡ told s
unfolding pump
told-pump [] s = refl
told-pump (read_ok [] ∷ rs) s = refl
told-pump (read_ok (b ∷ bs) ∷ rs) s = told-pump rs _
told-pump (read_failed IoError.would_block ∷ rs) s = refl
told-pump (read_failed IoError.interrupted ∷ rs) s = told-pump rs s
told-pump (read_failed e ∷ rs) s = refl

told-read_output : (s : Server) → told (read_output s) ≡ told s
unfolding read_output
told-read_output s = ground (arith, told-pump s.pty.reads s)

-- Once the exit of the child is known it stays, and the process group gets no signal to terminate.
reap-told :
    (os : Os) (waited : Option ℕ) (s : Server) (code : ℕ)
    → s.child_exit ≡ some code
    → told (reap os waited s) ≡ told s
unfolding reap
reap-told os waited s code e = ground (arith, e)

terms-reap :
    (os : Os) (waited : Option ℕ) (s : Server)
    → terms (reap os waited s).pty.calls ≡ terms s.pty.calls
unfolding reap
terms-reap os waited s = ground arith

told-listening :
    (os : Os) (r : Round) (s : Server) → told (read_output (accept_all os s r.accepted)) ≡ told s
told-listening os r s = told-read_output _ ∙ told-accept_all os s r.accepted

pub terms-settled :
    (os : Os) (r : Round) (s : Server) → terms (settled os r s).pty.calls ≡ terms s.pty.calls
unfolding settle read_packets
terms-settled os r s =
    let s3 = read_output (accept_all os s r.accepted) in
    let s4 = reap os r.waited s3 in
    terms-read_all r.packets_at s4.history s4.clients s4.pty
    ∙ terms-reap os r.waited s3
    ∙ ap (λ (t : Option ℕ × ℕ). t.1) (told-listening os r s)

pub child_exit-settled :
    (os : Os) (r : Round) (s : Server) (code : ℕ)
    → s.child_exit ≡ some code
    → (settled os r s).child_exit ≡ some code
unfolding settle read_packets
child_exit-settled os r s code e =
    let s3 = read_output (accept_all os s r.accepted) in
    let known = ap (λ (t : Option ℕ × ℕ). t.0) (told-listening os r s) ∙ e in
    ap (λ (t : Option ℕ × ℕ). t.0) (reap-told os r.waited s3 code known) ∙ known

child_exit-shutdown :
    (requested : Bool) (s : Server) (code : ℕ) → s.child_exit ≡ some code → shutdown requested s ≡ s
unfolding shutdown
child_exit-shutdown requested s code e = ground (arith, e)

pub child_exit-tick :
    (os : Os) (r : Round) (s : Server) (code : ℕ)
    → s.child_exit ≡ some code
    → (tick os r s).child_exit ≡ some code
unfolding tick
child_exit-tick os r s code e =
    child_exit-settled os r (shutdown r.shutdown_requested s) code
      (ap (λ (t : Server). t.child_exit) (child_exit-shutdown r.shutdown_requested s code e) ∙ e)

-- What every round keeps, the loop keeps.
module _ (P : Server → Type 0) (os : Os)
    (keep : (r : Round) (s : Server) → P s → P (tick os r s)) where
  goes_on :
      (rs : List Round) (o : Outcome)
      → P (server_of o)
      → ((s : Server) → P s → P (server_of (server_loop os rs s)))
      → let next : Outcome = elim o [
        | running t ↦ server_loop os rs t
        | finished code t ↦ finished code t
      ] in
        P (server_of next)
  goes_on rs (running t) v later = later t v
  goes_on rs (finished code t) v later = v

  pub server_loop-keeps : (rs : List Round) (s : Server) → P s → P (server_of (server_loop os rs s))
  unfolding server_loop
  server_loop-keeps [] s v = v
  server_loop-keeps (r ∷ rs) s v =
      goes_on rs (check_finished (tick os r s))
        (subst P (sym (server_of-check_finished (tick os r s))) (keep r s v))
        (λ t w. server_loop-keeps rs t w)
