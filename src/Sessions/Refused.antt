-- ===== src/Sessions/Refused.antt =====
-- Sessions that answer, orphaned sockets and new sessions: `connect_session` and `create_session` in
-- src/main.rs.
use abduco_inline.Prelude.{
  ◌≡◌, refl, ◌∙◌, true, false, none, some, ok, err, arith, connection_refused, addr_in_use,
}
use abduco_inline.Prelude.Bytes.{Bytes}
use abduco_inline.Files.{World, socket, file, is_absolute, put, remove_file, connect}
use abduco_inline.Paths.{PathEnv, socket_path}
use abduco_inline.Sessions.{
  Fork, failed, connect_path, connect_session, greets, session_alive, create_session,
}
use abduco_inline.Sessions.Cleanup.{absolute_lem}

pub socket_path_of_absolute :
    (e : PathEnv) (w : World) (p : Bytes) → is_absolute p ≡ true → socket_path e w p ≡ (ok p, w)
unfolding socket_path
socket_path_of_absolute e w p ab = rw ab refl

pub connect_session_of_absolute :
    (e : PathEnv) (w : World) (p : Bytes)
    → is_absolute p ≡ true
    → connect_session e w p ≡ connect_path w p
unfolding connect_session
connect_session_of_absolute e w p ab = ground (arith, socket_path_of_absolute e w p ab)

-- To connect to a file that is no socket removes the file.
pub connect_session_removes_file :
    (e : PathEnv) (w : World) (p : Bytes)
    → is_absolute p ≡ true
    → w.kind p ≡ some file
    → w.denied p ≡ false
    → connect_session e w p ≡ (err connection_refused, put w p none)
unfolding connect_path connect remove_file
connect_session_removes_file e w p ab k d =
    let at_p = absolute_lem w p ab in
    connect_session_of_absolute e w p ab ∙ ground (arith, at_p, k, d)

pub session_alive_of_answer :
    (e : PathEnv) (w : World) (p incoming : Bytes)
    → is_absolute p ≡ true
    → w.kind p ≡ some (socket (some incoming))
    → session_alive e w p ≡ (greets incoming, w)
unfolding session_alive connect_path connect
session_alive_of_answer e w p incoming ab k =
    let at_p = absolute_lem w p ab in ground (arith, connect_session_of_absolute e w p ab, at_p, k)

-- Where there is nothing, no session is alive.
pub session_alive_of_nothing :
    (e : PathEnv) (w : World) (p : Bytes)
    → is_absolute p ≡ true
    → w.kind p ≡ none
    → session_alive e w p ≡ (false, w)
unfolding session_alive connect_path connect
session_alive_of_nothing e w p ab k =
    let at_p = absolute_lem w p ab in ground (arith, connect_session_of_absolute e w p ab, at_p, k)

-- A session whose server answers with its process id is not started again, and nothing is removed.
pub live_session_is_kept :
    (e : PathEnv) (greeting : Bytes) (fork : Fork) (w : World) (p incoming : Bytes)
    → is_absolute p ≡ true
    → w.kind p ≡ some (socket (some incoming))
    → greets incoming ≡ true
    → create_session e greeting fork w p ≡ (failed addr_in_use, w)
unfolding create_session
live_session_is_kept e greeting fork w p incoming ab k g =
    ground (arith, session_alive_of_answer e w p incoming ab k, g)
