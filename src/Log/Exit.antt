-- ===== src/Log/Exit.antt =====
-- What the entries that the server of src/main.rs hands to `server_log` say of the end of its loop.
use abduco_inline.Prelude.{
  ℕ, ◌≡◌, ◌≢◌, refl, sym, ap, ◌∙◌, List, [], ◌∷◌, ◌++◌, append_assoc, All, All-append,
  if◌then◌else◌, Bool, true, false, arith, get_or, Bool-cases, inl, inr, is_none, ◌&&◌,
}
use abduco_inline.Prelude.Bytes.{Bytes}
use abduco_inline.Server.Tick.{
  Os, Server, Accepted, Round, tick, Outcome, running, finished, check_finished, server_loop,
}
use abduco_inline.Log.{
  LogEntry, clean_entry, accept_entries, round_entries, loop_entries, signal_entry, accept_entry,
}

-- The entry is not the one of a clean end.
abbrev pub IsOpen : LogEntry → Type 0
IsOpen e = (code : ℕ) → e ≢ clean_entry code

signal_entry-IsOpen : IsOpen signal_entry
signal_entry-IsOpen code e = absurd (omega (arith, ap (λ (e : LogEntry). get_or e.msg 0 0) e))

accept_entry-IsOpen : (error : Bytes) → IsOpen (accept_entry error)
accept_entry-IsOpen error code e =
    absurd (omega (arith, ap (λ (e : LogEntry). get_or e.kind 0 0) e))

signalled-IsOpen : (b : Bool) → All IsOpen (if b then signal_entry ∷ [] else [])
signalled-IsOpen true = (signal_entry-IsOpen, tt)
signalled-IsOpen false = tt

accept_entries-IsOpen :
    (error : Bytes) (more : List Accepted) → All IsOpen (accept_entries error more)
accept_entries-IsOpen error [] = tt
accept_entries-IsOpen error (a ∷ more) = elim (Bool-cases a.nonblocking) [
  | inl e ↦ rw e (accept_entries-IsOpen error more)
  | inr e ↦ rw e (accept_entry-IsOpen error, accept_entries-IsOpen error more)
]

round_entries-IsOpen :
    (error : Bytes) (r : Round) (s : Server) → All IsOpen (round_entries error r s)
unfolding round_entries
round_entries-IsOpen error r s =
    All-append IsOpen
      (if r.shutdown_requested && is_none s.child_exit then signal_entry ∷ [] else [])
      (accept_entries error r.accepted)
      (signalled-IsOpen (r.shutdown_requested && is_none s.child_exit))
      (accept_entries-IsOpen error r.accepted)

-- What the entries of a loop say of where it has come to: as long as it runs, nothing of a clean end;
-- and when it has returned, that it has, with which code, in the last entry and nowhere else.
abbrev pub Says : Outcome → List LogEntry → Type 0
Says (running s) es = All IsOpen es
Says (finished code s) es =
    (before : List LogEntry) × (es ≡ before ++ clean_entry code ∷ []) × All IsOpen before

prepend-Says :
    (front es : List LogEntry) (o : Outcome) → All IsOpen front → Says o es → Says o (front ++ es)
prepend-Says front es (running s) f v = All-append IsOpen front es f v
prepend-Says front es (finished code s) f (before, e, v) = (
  front ++ before,
  ap (◌++◌ front) e ∙ sym (append_assoc front before _),
  All-append IsOpen front before f v,
)

checked-Says :
    (os : Os) (error : Bytes) (rs : List Round) (o : Outcome)
    → ((s : Server) → Says (server_loop os rs s) (loop_entries os error rs s))
    → let later : List LogEntry = elim o [
      | running t ↦ loop_entries os error rs t
      | finished code t ↦ clean_entry code ∷ []
    ] in
      let next : Outcome = elim o [
        | running t ↦ server_loop os rs t
        | finished code t ↦ finished code t
      ] in
      Says next later
checked-Says os error rs (running t) later = later t
checked-Says os error rs (finished code t) later = ([], refl, tt)

-- Through any rounds: as long as the loop runs, no entry handed to server_log says that it has ended; when
-- it has returned, the last one does, with the code that the loop returns, and none before it.
pub log_tells_the_end :
    (os : Os) (error : Bytes) (rs : List Round) (s : Server)
    → Says (server_loop os rs s) (loop_entries os error rs s)
unfolding server_loop loop_entries
log_tells_the_end os error [] s = tt
log_tells_the_end os error (r ∷ rs) s =
    prepend-Says (round_entries error r s) _ _ (round_entries-IsOpen error r s)
      (checked-Says os error rs (check_finished (tick os r s)) (log_tells_the_end os error rs))
