-- ===== src/Sessions/Startup.antt =====
-- The pipe over which the start of a session is reported: `run_server` and `read_startup_status` in
-- src/main.rs.
use abduco_inline.Prelude.{
  ◌≡◌, refl, sym, ap, ◌∙◌, List, [], ◌∷◌, ◌++◌, append_assoc, append-nil, none, some, ok, IoError,
  arith,
}
use abduco_inline.Prelude.Bytes.{Bytes}
use abduco_inline.Prelude.Text.{codes}
use abduco_inline.Stream.{ReadAnswer, read_ok, read_failed}
use abduco_inline.Sessions.{
  trim_end, Started, started, refused, read_pipe, read_startup_status, Forkpty, forkpty_failed,
  child, startup_report,
}

-- The reads give the text in some pieces and then the end of the pipe, and may be interrupted.
abbrev pub Delivers : List ReadAnswer → Bytes → Type 0
Delivers [] text = text ≡ []
Delivers (read_ok [] ∷ rs) text = text ≡ []
Delivers (read_ok (b ∷ bs) ∷ rs) text =
    (rest : Bytes) × (text ≡ (b ∷ bs) ++ rest) × Delivers rs rest
Delivers (read_failed IoError.interrupted ∷ rs) text = Delivers rs text
Delivers (read_failed e ∷ rs) text = ⊥

read_pipe-Delivers :
    (rs : List ReadAnswer) (text buf : Bytes)
    → Delivers rs text
    → read_pipe rs buf ≡ ok (buf ++ text)
unfolding read_pipe
read_pipe-Delivers [] text buf d = ap ok (sym (append-nil buf) ∙ ap (◌++◌ buf) (sym d))
read_pipe-Delivers (read_ok [] ∷ rs) text buf d =
    ap ok (sym (append-nil buf) ∙ ap (◌++◌ buf) (sym d))
read_pipe-Delivers (read_ok (b ∷ bs) ∷ rs) text buf (rest, e, d) =
    read_pipe-Delivers rs rest (buf ++ b ∷ bs) d
    ∙ ap ok (append_assoc buf (b ∷ bs) rest ∙ ap (◌++◌ buf) (sym e))
read_pipe-Delivers (read_failed IoError.interrupted ∷ rs) text buf d =
    read_pipe-Delivers rs text buf d
read_pipe-Delivers (read_failed e ∷ rs) text buf d = absurd d

trim_end-newline : (xs : Bytes) → trim_end (xs ++ b'\n' ∷ []) ≡ trim_end xs
unfolding trim_end
trim_end-newline [] = refl
trim_end-newline (x ∷ xs) = ground (arith, trim_end-newline xs)

-- What the caller is to learn of the start.
abbrev pub reported : (IoError → Bytes) → Bytes → Forkpty → Started
reported describe program (forkpty_failed e) =
    refused (trim_end (codes "server-forkpty: " ++ describe e))
reported describe program (child none) = started
reported describe program (child (some e)) =
    refused (trim_end (codes "server-execvp: " ++ (program ++ (codes ": " ++ describe e))))

-- However the pipe is read, the caller learns exactly what became of the start: that the command runs,
-- or which step failed, for which program and with which error.
pub startup_is_reported :
    (describe : IoError → Bytes) (program : Bytes) (f : Forkpty) (reads : List ReadAnswer)
    → Delivers reads (startup_report describe program f)
    → read_startup_status reads ≡ reported describe program f
unfolding read_startup_status startup_report
startup_is_reported describe program (forkpty_failed e) reads d =
    rw (read_pipe-Delivers reads _ [] d, read_startup_status)
      (ap refused (trim_end-newline (codes "server-forkpty: " ++ describe e)))
startup_is_reported describe program (child none) reads d =
    rw (read_pipe-Delivers reads _ [] d, read_startup_status) refl
startup_is_reported describe program (child (some e)) reads d =
    let text = codes "server-execvp: " ++ (program ++ (codes ": " ++ describe e)) in
    let regroup : codes "server-execvp: " ++ (program ++ (codes ": " ++ (describe e ++ b'\n' ∷ [])))
        ≡ text ++ b'\n' ∷ [] =
      simp append_assoc refl in
    rw (read_pipe-Delivers reads _ [] d, read_startup_status)
      (ap refused (ap trim_end regroup ∙ trim_end-newline text))
