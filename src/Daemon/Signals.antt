-- ===== src/Daemon/Signals.antt =====
-- Signals at the server process of src/main.rs.
use abduco_inline.Prelude.{ℕ, ◌≡◌, refl, ap, ◌∙◌, ◌⊎◌, inl, inr, some}
use abduco_inline.Prelude.Bytes.{Bytes}
use abduco_inline.Server.Tick.{sigterm}
use abduco_inline.Daemon.{
  ServerProcess, ignored, shutdown_handler, sighup, sigint, sigpipe, signal, deliver,
  handle_shutdown_signal, set_signals, write_log, become_server,
}

-- How the server process takes the four signals that it deals with.
pub record IsReady (p : ServerProcess) : Type 0 where
  pub term : p.dispositions sigterm ≡ shutdown_handler
  pub int : p.dispositions sigint ≡ shutdown_handler
  pub hup : p.dispositions sighup ≡ ignored
  pub pipe : p.dispositions sigpipe ≡ ignored

pub become_server-IsReady :
    (pid : ℕ) (name path : Bytes) (p : ServerProcess) → IsReady (become_server pid name path p)
unfolding become_server set_signals signal write_log
become_server-IsReady pid name path p = record { term = refl; int = refl; hup = refl; pipe = refl }

-- A signal that asks the server to end.
abbrev pub AsksToEnd : ℕ → Type 0
AsksToEnd sig = (sig ≡ sigterm) ⊎ (sig ≡ sigint)

deliver-shutdown :
    (sig : ℕ) (p : ServerProcess)
    → p.dispositions sig ≡ shutdown_handler
    → deliver sig p ≡ some (handle_shutdown_signal p)
unfolding deliver
deliver-shutdown sig p e = rw (deliver, e) refl

ends-handled :
    (sig : ℕ) (p : ServerProcess)
    → IsReady p
    → AsksToEnd sig
    → p.dispositions sig ≡ shutdown_handler
ends-handled sig p ready (inl e) = ap p.dispositions e ∙ ready.term
ends-handled sig p ready (inr e) = ap p.dispositions e ∙ ready.int

-- A process that has become the server handles such a signal: it goes on, with the request noted.
pub deliver-noted :
    (pid sig : ℕ) (name path : Bytes) (p : ServerProcess)
    → AsksToEnd sig
    → let server = become_server pid name path p in
      deliver sig server ≡ some (handle_shutdown_signal server)
deliver-noted pid sig name path p ends =
    let server = become_server pid name path p in
    deliver-shutdown sig server
      (ends-handled sig server (become_server-IsReady pid name path p) ends)
