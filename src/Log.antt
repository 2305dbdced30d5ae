-- ===== src/Log.antt =====
-- src/main.rs: SERVER_LOG_PATH, `server_log`, and what the server logs. The clock, and whether the
-- file can be opened and how much of the line is written, are answers of the system.
pub mod Exit
mod Tests
use abduco_inline.Prelude.{
  ℕ, ◌-◌, ◌^◌, List, [], ◌∷◌, ◌++◌, take, ltb, is_none, if◌then◌else◌, Bool, ◌&&◌, Option, none,
  some,
}
use mathlib.Core.Option
use abduco_inline.Prelude.Bytes.{Bytes}
use abduco_inline.Prelude.Text.{codes}
use abduco_inline.Prelude.Decimal.{decimal}
use abduco_inline.Clock.{Time, log_line}
use abduco_inline.Server.Tick.{
  Os, Server, Accepted, Round, tick, Outcome, running, finished, check_finished,
}

-- `opened now n`: the clock gives `now`, the file is opened, and the first `n` bytes are written.
pub data Append : Type 0 where
  not_opened : Append
  opened : Option Time → ℕ → Append

-- `path` is SERVER_LOG_PATH, and `text` what the file holds.
pub record Log : Type 0 where
  pub path : Option Bytes
  pub text : Bytes
  pub appends : List Append

-- `OnceLock::set`: the first path stands.
unfoldable pub set_log_path : Bytes → Log → Log
set_log_path p log = record log { path = if is_none log.path then some p else log.path }

pub record LogEntry : Type 0 where
  pub kind : Bytes
  pub msg : Bytes

abbrev append_to : List Append → ℕ → LogEntry → Log → Log
append_to [] pid e log = log
append_to (not_opened ∷ more) pid e log = record log { appends = more }
append_to (opened now n ∷ more) pid e log = record log {
  text = log.text ++ take n (log_line now pid e.kind e.msg);
  appends = more;
}

unfoldable pub server_log : ℕ → LogEntry → Log → Log
server_log pid e log = if is_none log.path then log else append_to log.appends pid e log

unfoldable pub log_all : ℕ → List LogEntry → Log → Log
log_all pid [] log = log
log_all pid (e ∷ es) log = log_all pid es (server_log pid e log)

-- `{}` of an i32, which is its 32-bit pattern.
abbrev pub i32_text : ℕ → Bytes
i32_text n = if ltb n (2 ^ 31) then decimal n else b'-' ∷ decimal (2 ^ 32 - n)

abbrev pub start_entry : ℕ → Bytes → LogEntry
start_entry pid name = record {
  kind = codes "start";
  msg = codes "pid=" ++ (decimal pid ++ (codes " session=" ++ name));
}

abbrev pub signal_entry : LogEntry
signal_entry = record { kind = codes "shutdown"; msg = codes "signal-requested SIGTERM/SIGINT" }

abbrev pub accept_entry : Bytes → LogEntry
accept_entry error = record {
  kind = codes "accept-error";
  msg = codes "set_nonblocking failed: " ++ error;
}

abbrev pub clean_entry : ℕ → LogEntry
clean_entry code = record {
  kind = codes "shutdown";
  msg = codes "clean child_exit=" ++ (i32_text code ++ codes " clients=0");
}

abbrev pub exit_error_entry : Bytes → LogEntry
exit_error_entry error = record { kind = codes "exit-error"; msg = error }

-- The closure of `install_server_panic_hook`, on the place and the payload of a panic.
unfoldable pub panic_entry : Option (Bytes × ℕ) → Option Bytes → LogEntry
panic_entry location payload =
    let place : Bytes = elim location [
      | none ↦ codes "?"
      | some (file, line) ↦ file ++ b':' ∷ decimal line
    ] in
    record {
      kind = codes "panic";
      msg =
          codes "at "
          ++ (place
              ++ (codes " payload=" ++ Option.get_or payload (codes "<non-string panic payload>")));
    }

abbrev pub accept_entries : Bytes → List Accepted → List LogEntry
accept_entries error [] = []
accept_entries error (a ∷ more) =
    let rest = accept_entries error more in
    if a.nonblocking then rest else accept_entry error ∷ rest

-- What a round of `server_loop` logs up to its last check.
unfoldable pub round_entries : Bytes → Round → Server → List LogEntry
round_entries error r s =
    (if r.shutdown_requested && is_none s.child_exit then signal_entry ∷ [] else [])
    ++ accept_entries error r.accepted

-- What `server_loop` logs, with the text of the error where a connection is not made non-blocking.
unfoldable pub loop_entries : Os → Bytes → List Round → Server → List LogEntry
loop_entries os error [] s = []
loop_entries os error (r ∷ rs) s =
    let later : List LogEntry = elim (check_finished (tick os r s)) [
      | running t ↦ loop_entries os error rs t
      | finished code t ↦ clean_entry code ∷ []
    ] in
    round_entries error r s ++ later
