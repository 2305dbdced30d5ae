-- ===== src/Listing.antt =====
-- src/main.rs: `list_sessions`.
pub mod Live
mod Tests
use mathlib.Core.Option
use abduco_inline.Prelude.{
  ℕ, List, [], ◌∷◌, ◌++◌, ◌==◌, if◌then◌else◌, Option, none, some, Result, ok, err,
}
use abduco_inline.Prelude.Bytes.{Bytes}
use abduco_inline.Prelude.Text.{codes}
use abduco_inline.Prelude.Decimal.{decimal}
use abduco_inline.Protocol.{Packet, recv_packet_blocking, read_u64, msg_pid}
use abduco_inline.Clock.{Time, format_iso_local}
use abduco_inline.Files.{World}
use abduco_inline.Paths.{PathEnv, hostname, socket_base_dir, session_of}

-- A file in the directory of sockets: its name, what comes from a connection to it if there is one,
-- and its time of modification, in local time, if the file system gives one.
pub record Entry : Type 0 where
  pub name : Bytes
  pub incoming : Option Bytes
  pub modified : Option (Option Time)

abbrev tab : Bytes → Bytes
tab rest = b'\t' ∷ rest

unfoldable pub session_line : Entry → Bytes → Bytes → Bytes
session_line e payload session =
    let mtime : Bytes = elim e.modified [ none ↦ codes "unknown" | some t ↦ format_iso_local t ] in
    codes "  ?"
    ++ tab
        (mtime ++ tab (decimal (Option.get_or (read_u64 payload) 0) ++ tab (session ++ b'\n' ∷ [])))

-- The body of the loop over the files.
unfoldable pub list_entry : Bytes → Entry → Bytes
list_entry host e = elim (session_of host e.name) [
  | none ↦ []
  | some session ↦ elim e.incoming [
    | none ↦ []
    | some bytes ↦ elim (recv_packet_blocking bytes) [
      | err _ ↦ []
      | ok (pkt, _) ↦ if pkt.typ == msg_pid then session_line e pkt.payload session else []
    ]
  ]
]

-- The loop over the files, and what it prints: it ends at an entry that cannot be read.
unfoldable pub list_entries : Bytes → List (Result Entry) → Result (Unit {0}) × Bytes
list_entries host [] = (ok tt, [])
list_entries host (err kind ∷ es) = (err kind, [])
list_entries host (ok e ∷ es) =
    let (result, printed) = list_entries host es in (result, list_entry host e ++ printed)

abbrev pub header : Bytes → Bytes
header host = codes "Active sessions (on host " ++ (host ++ codes ")\n")

-- The result, what goes to stdout, and the file system: `read_dir` gives the files of a directory.
unfoldable pub list_sessions :
    PathEnv → (Bytes → Result (List (Result Entry))) → World → Result (Unit {0}) × Bytes × World
list_sessions env read_dir w =
    let (base, w') = socket_base_dir env w in
    let host = hostname env.host in
    elim base [
      | err kind ↦ (err kind, [], w')
      | ok dir ↦ elim (read_dir dir) [
        | err kind ↦ (err kind, header host, w')
        | ok es ↦
            (let (result, printed) = list_entries host es in (result, header host ++ printed, w'))
      ]
    ]
