-- ===== src/Server/Tick/Returns.antt =====
-- The loop of `server_loop` in src/main.rs over its rounds, after the child's exit.
use abduco_inline.Prelude.{
  ℕ, ◌+◌, ◌≤◌, ◌≡◌, refl, sym, ap, ◌∙◌, subst, List, [], ◌∷◌, ◌++◌, Bool, true, false,
  if◌then◌else◌, is_empty, some, arith, All, Bool-cases, inl, inr, ◌⊎◌,
}
use abduco_inline.Server.Client.{Client}
use abduco_inline.Server.Tick.{
  Os, Server, Round, tick, Outcome, running, finished, check_finished, server_loop,
  exit_drain_deadline,
}
use abduco_inline.Server.Tick.Exit.{ClosedBy, IsClosing}
use abduco_inline.Server.Tick.Ending.{Exited, first_round, later_round, last_round}

-- The loop has returned after the child's exit with this code.
abbrev pub Finishes : ℕ → Outcome → Type 0
Finishes code o = (s : Server) × (o ≡ finished code s) × (s.clients ≡ [])

pub check_finished-exited :
    (code : ℕ) (s : Server)
    → s.child_exit ≡ some code
    → check_finished s ≡ (if is_empty s.clients then finished code s else running s)
unfolding check_finished
check_finished-exited code s e = ground (arith, e)

is_empty→nil : (cs : List Client) → is_empty cs ≡ true → cs ≡ []
is_empty→nil [] h = refl
is_empty→nil (c ∷ cs) h = cc

-- The loop goes on with what a round's check gives.
abbrev pub continue : Os → List Round → Outcome → Outcome
continue os rs o = elim o [ running t ↦ server_loop os rs t | finished code t ↦ finished code t ]

pub server_loop-cons :
    (os : Os) (r : Round) (rs : List Round) (s : Server)
    → server_loop os (r ∷ rs) s ≡ continue os rs (check_finished (tick os r s))
unfolding server_loop
server_loop-cons os r rs s = refl

-- One more round, where the child has exited by the round's end: the loop returns, or goes on.
round_cases :
    (os : Os) (r : Round) (rs : List Round) (code : ℕ) (s : Server)
    → (tick os r s).child_exit ≡ some code
    → Finishes code (server_loop os (r ∷ rs) s)
      ⊎ ((is_empty (tick os r s).clients ≡ false)
          × (server_loop os (r ∷ rs) s ≡ server_loop os rs (tick os r s)))
round_cases os r rs code s e =
    let t = tick os r s in
    let checked =
      server_loop-cons os r rs s ∙ ap (continue os rs) (check_finished-exited code t e) in
    elim (Bool-cases (is_empty t.clients)) [
      | inl none_left ↦ inl (
        t,
        checked
            ∙ ap (λ (b : Bool). continue os rs (if b then finished code t else running t))
                none_left,
        is_empty→nil t.clients none_left,
      )
      | inr some_left ↦ inr (
        some_left,
        checked
            ∙ ap (λ (b : Bool). continue os rs (if b then finished code t else running t))
                some_left,
      )
    ]

waiting_rounds :
    (os : Os) (t code : ℕ) (last : Round) (rest waits : List Round) (s : Server)
    → Exited (IsClosing t) code s
    → All (λ r. r.accepted ≡ []) waits
    → last.accepted ≡ []
    → t + exit_drain_deadline ≤ last.drain_at
    → Finishes code (server_loop os (waits ++ last ∷ rest) s)
waiting_rounds os t code last rest [] s e quiet none_new late =
    elim (round_cases os last rest code s (later_round os t code last s none_new e).child_exit) [
      | inl done ↦ done
      | inr (some_left, _) ↦
          absurd (ground (arith, some_left, last_round os t code last s none_new late e))
    ]
waiting_rounds os t code last rest (r ∷ waits) s e (q, quiet) none_new late =
    let e' = later_round os t code r s q e in
    elim (round_cases os r (waits ++ last ∷ rest) code s e'.child_exit) [
      | inl done ↦ done
      | inr (_, same) ↦
          subst (Finishes code) (sym same)
            (waiting_rounds os t code last rest waits (tick os r s) e' quiet none_new late)
    ]

-- Once the child has exited and no new connections come, the loop returns with the child's exit code
-- and no clients left, at the latest in the first round whose flush comes EXIT_DRAIN_DEADLINE after
-- the clients' closing was decided: no client, however slow, keeps the server alive.
pub server_loop_returns :
    (os : Os) (t code : ℕ) (first last : Round) (waits rest : List Round) (s : Server)
    → s.child_exit ≡ some code
    → All (λ c. ClosedBy t c.close_after_drain) s.clients
    → All (λ r. r.accepted ≡ []) (first ∷ waits)
    → last.accepted ≡ []
    → first.packets_at ≤ t
    → first.exit_at ≤ t
    → t + exit_drain_deadline ≤ last.drain_at
    → Finishes code (server_loop os (first ∷ waits ++ last ∷ rest) s)
server_loop_returns os t code first last waits rest s x stamps (q, quiet) none_new p_at e_at late =
    let e' =
      first_round os t code first s q p_at e_at (record { child_exit = x; stamps = stamps }) in
    elim (round_cases os first (waits ++ last ∷ rest) code s e'.child_exit) [
      | inl done ↦ done
      | inr (_, same) ↦
          subst (Finishes code) (sym same)
            (waiting_rounds os t code last rest waits (tick os first s) e' quiet none_new late)
    ]
