-- ===== src/Listing/Live.antt =====
-- A session with a live server in the output of `list_sessions` in src/main.rs.
use mathlib.Core.List.{map}
use abduco_inline.Prelude.{
  List, Result, concat, append_assoc, sym, ok, ◌∙◌, refl, ℕ, ◌^◌, ◌/◌, ◌%◌, ◌<◌, ◌≡◌, ap, [], ◌∷◌,
  ◌++◌, false, some, arith,
}
use abduco_inline.Prelude.Bytes.{Bytes, u64_to_ne_bytes, from-to_ne_bytes}
use abduco_inline.Prelude.Text.{codes, ends_with}
use abduco_inline.Prelude.Decimal.{decimal}
use abduco_inline.Protocol.{packet_bytes, read_u64}
use abduco_inline.Protocol.Framing.{recv_packet_blocking-packet_bytes}
use abduco_inline.Server.Tick.{Os, pid_packet}
use abduco_inline.Server.Tick.Sound.{pid_packet-IsPacket}
use abduco_inline.Clock.{Time, format_iso_local}
use abduco_inline.Paths.Listed.{suffix, listed_under_its_name}
use abduco_inline.Files.{World}
use abduco_inline.Paths.{PathEnv, hostname, socket_base_dir}
use abduco_inline.Listing.{Entry, session_line, list_entry, list_entries, header, list_sessions}

pub read_u64-u64_to_ne_bytes : (n : ℕ) → n < 2 ^ 64 → read_u64 (u64_to_ne_bytes n) ≡ some n
unfolding read_u64
read_u64-u64_to_ne_bytes n lt =
    ap some (omega (arith, from-to_ne_bytes (n % 2 ^ 32), from-to_ne_bytes (n / 2 ^ 32)))

-- A server that answers is listed by one line with the time, its process id and the session's name,
-- where the name does not itself end in `@` and the host.
pub live_session_is_listed :
    (os : Os) (host name rest : Bytes) (e : Entry) (t : Time)
    → os.pid < 2 ^ 64
    → ends_with name (suffix host) ≡ false
    → e.name ≡ name ++ suffix host
    → e.incoming ≡ some (packet_bytes (pid_packet os) ++ rest)
    → e.modified ≡ some (some t)
    → list_entry host e
      ≡ codes "  ?\t"
        ++ (format_iso_local (some t) ++ b'\t' ∷ (decimal os.pid ++ b'\t' ∷ (name ++ b'\n' ∷ [])))
unfolding list_entry session_line pid_packet
live_session_is_listed os host name rest e t lt plain named answers time =
    let listed = listed_under_its_name host name plain in
    let received =
      recv_packet_blocking-packet_bytes (pid_packet os) rest (pid_packet-IsPacket os) in
    let pid = read_u64-u64_to_ne_bytes os.pid lt in
    ground (arith, listed, received, pid, named, answers, time)

-- What is printed for files that can all be read.
abbrev pub printed : Bytes → List Entry → Bytes
printed host es = concat (map (list_entry host) es)

list_entries-map :
    (host : Bytes) (es : List Entry) → list_entries host (map ok es) ≡ (ok tt, printed host es)
unfolding list_entries
list_entries-map host [] = refl
list_entries-map host (e ∷ es) =
    ap (λ (out : Result (Unit {0}) × Bytes). (out.0, list_entry host e ++ out.1))
      (list_entries-map host es)

printed-append :
    (host : Bytes) (before after : List Entry)
    → printed host (before ++ after) ≡ printed host before ++ printed host after
printed-append host [] after = refl
printed-append host (e ∷ before) after =
    ap (◌++◌ (list_entry host e)) (printed-append host before after)
    ∙ sym (append_assoc (list_entry host e) (printed host before) (printed host after))

list_sessions_lem :
    (env : PathEnv) (read_dir : Bytes → Result (List (Result Entry))) (w w' : World) (dir : Bytes)
    (es : List Entry)
    → socket_base_dir env w ≡ (ok dir, w')
    → read_dir dir ≡ ok (map ok es)
    → list_sessions env read_dir w
      ≡ (ok tt, header (hostname env.host) ++ printed (hostname env.host) es, w')
unfolding list_sessions
list_sessions_lem env read_dir w w' dir es base files =
    let all = list_entries-map (hostname env.host) es in ground (arith, base, files, all)

-- Among the files of the directory of sockets, all of which can be read, a session whose server answers
-- is listed in its place by one line with the time, its process id and its name, where the name does not
-- itself end in `@` and the host.
pub session_is_in_list :
    (os : Os) (env : PathEnv) (read_dir : Bytes → Result (List (Result Entry))) (w w' : World)
    (dir name rest : Bytes) (before after : List Entry) (e : Entry) (t : Time)
    → socket_base_dir env w ≡ (ok dir, w')
    → read_dir dir ≡ ok (map ok (before ++ e ∷ after))
    → os.pid < 2 ^ 64
    → ends_with name (suffix (hostname env.host)) ≡ false
    → e.name ≡ name ++ suffix (hostname env.host)
    → e.incoming ≡ some (packet_bytes (pid_packet os) ++ rest)
    → e.modified ≡ some (some t)
    → let host = hostname env.host in
      let line =
        codes "  ?\t"
        ++ (format_iso_local (some t)
            ++ b'\t' ∷ (decimal os.pid ++ b'\t' ∷ (name ++ b'\n' ∷ []))) in
      list_sessions env read_dir w
      ≡ (ok tt, header host ++ (printed host before ++ (line ++ printed host after)), w')
session_is_in_list os env read_dir w w' dir name rest before after e t base files lt plain named
      answers time =
    let host = hostname env.host in
    let line = live_session_is_listed os host name rest e t lt plain named answers time in
    list_sessions_lem env read_dir w w' dir (before ++ e ∷ after) base files
    ∙ ap (λ (b : Bytes). (ok tt, header host ++ b, w'))
        (printed-append host before (e ∷ after)
          ∙ ap (λ (b : Bytes). printed host before ++ (b ++ printed host after)) line)
