-- ===== src/Listing/Tests.antt =====
-- Lists of sessions of src/main.rs.
use abduco_inline.Prelude.{
  ◌≡◌, refl, List, [], ◌∷◌, ◌++◌, true, none, some, Result, ok, err, other, false, arith,
}
use abduco_inline.Prelude.Bytes.{Bytes}
use abduco_inline.Prelude.Text.{codes}
use abduco_inline.Protocol.{packet_bytes}
use abduco_inline.Server.Tick.{Os, pid_packet}
use abduco_inline.Clock.{Time, format_iso_local, iso_minutes, padded, iso_utc_now, log_line}
use abduco_inline.Listing.{Entry, list_entry, list_entries, header, list_sessions}
use abduco_inline.Files.{World, folder, create_dir_all, set_permissions}
use abduco_inline.Paths.{
  PathEnv, hostname, until_nul, candidates, first_created, socket_base_dir, session_of,
}
use abduco_inline.Prelude.Decimal.{decimal, digits_loop}
use abduco_inline.Listing.Live.{printed, session_is_in_list}

abbrev noon : Time
noon = record { year = 2026; month = 5; day = 17; hour = 12; minute = 4; second = 9 }

a_log_line :
    log_line (some noon) 815 (codes "start") (codes "ok")
    ≡ codes "2026-05-17T12:04:09Z 815 start ok\n"
unfolding log_line iso_utc_now iso_minutes padded decimal digits_loop
a_log_line = refl

abbrev server : Os
server = record {
  pid = 815;
  wifexited = λ n. true;
  wexitstatus = λ n. 0;
  wifsignaled = λ n. false;
  wtermsig = λ n. 0;
}

-- What comes behind the pid packet is not read.
abbrev web : Entry
web = record {
  name = codes "web@box";
  incoming = some (packet_bytes (pid_packet server) ++ 1 ∷ 2 ∷ []);
  modified = some (some noon);
}

-- A file of another host, one behind which nobody listens, and one that cannot be read.
abbrev files : List (Result Entry)
files =
    ok (record web { name = codes "web@other" })
    ∷ ok (record web { incoming = none })
    ∷ err other
    ∷ ok web
    ∷ []

listing_that_fails : list_entries (codes "box") files ≡ (err other, [])
unfolding list_entries list_entry session_of
listing_that_fails = refl

abbrev environment : PathEnv
environment = record {
  user = none;
  uid = codes "1000";
  socket_dir = some (codes "/run/lich");
  home = none;
  tmpdir = none;
  host = some (codes "box" ++ 0 ∷ []);
}

-- Every path is a directory.
abbrev folders : World
folders = record { kind = λ p. some folder; mode = λ p. none; denied = λ p. false; cwd = codes "/" }

-- The server's socket between a log and a socket without a server.
abbrev in_run : Bytes → Result (List (Result Entry))
in_run dir = ok (
    ok (record web { name = codes "web@box.log" })
    ∷ ok web
    ∷ ok (record web { incoming = none })
    ∷ [])

session_is_in_list_example : list_sessions environment in_run folders ≡ (
  ok tt,
  header (codes "box")
      ++ (printed (codes "box") (record web { name = codes "web@box.log" } ∷ [])
          ++ ((codes "  ?\t"
                ++ (format_iso_local (some noon)
                    ++ b'\t' ∷ (decimal 815 ++ b'\t' ∷ (codes "web" ++ b'\n' ∷ []))))
              ++ printed (codes "box") (record web { incoming = none } ∷ []))),
  set_permissions folders (codes "/run/lich") 0o700,
)
unfolding hostname until_nul socket_base_dir candidates first_created create_dir_all
session_is_in_list_example =
    session_is_in_list server environment in_run folders
      (set_permissions folders (codes "/run/lich") 0o700) (codes "/run/lich") (codes "web")
      (1 ∷ 2 ∷ []) (record web { name = codes "web@box.log" } ∷ [])
      (record web { incoming = none } ∷ []) web noon refl refl (omega arith) refl refl refl refl
