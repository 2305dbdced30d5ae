-- ===== src/Sessions/Cleanup.antt =====
-- The socket's file at the end of a server process: `SocketGuard` in src/main.rs.
use abduco_inline.Prelude.{
  ℕ, ◌≡◌, refl, ap, ◌∙◌, if◌then◌else◌, true, false, Option, none, some, ok, arith, IoError, Bool,
  false,
}
use abduco_inline.Prelude.Bytes.{Bytes}
use abduco_inline.Prelude.Text.{codes, eq_bytes, eq_bytes_refl}
use abduco_inline.Files.{
  World, socket, is_absolute, absolute, join, put, remove_file, set_permissions,
}
use abduco_inline.Paths.{derive_server_log_path}
use abduco_inline.Sessions.{Run, child, run_server, server_process}

pub absolute_lem : (w : World) (p : Bytes) → is_absolute p ≡ true → absolute w p ≡ p
absolute_lem w p h = rw h refl

-- What is no directory is removed where that is not denied.
pub remove_file_lem :
    (w : World) (p : Bytes) (g : Option Bytes)
    → w.kind (absolute w p) ≡ some (socket g)
    → w.denied (absolute w p) ≡ false
    → remove_file w p ≡ (ok tt, put w (absolute w p) none)
unfolding remove_file
remove_file_lem w p g k d = ground (arith, k, d)

pub set_permissions-keeps :
    (w : World) (p q : Bytes) (bits : ℕ)
    → ((set_permissions w p bits).kind q ≡ w.kind q)
      × ((set_permissions w p bits).denied q ≡ w.denied q)
      × ((set_permissions w p bits).cwd ≡ w.cwd)
unfolding set_permissions
set_permissions-keeps w p q bits = ground arith

-- The loop and the calls around it leave the entries alone.
pub run_server-keeps :
    (p q : Bytes) (r : Run) (w : World)
    → ((run_server p r w).1.kind q ≡ w.kind q) × ((run_server p r w).1.denied q ≡ w.denied q)
unfolding run_server
run_server-keeps p q r w =
    ground (arith, set_permissions-keeps (record w { cwd = codes "/" }) p q 0o610)

-- What the guard does with the entries, once the server process has ended.
pub server_process-kind :
    (p q : Bytes) (r : Run) (w w' : World) (g : Option Bytes) (code : ℕ)
    → is_absolute p ≡ true
    → w.kind p ≡ some (socket g)
    → w.denied p ≡ false
    → server_process p r w ≡ (some code, w')
    → w'.kind q ≡ (if eq_bytes q p then none else w.kind q)
unfolding server_process put
server_process-kind p q r w w' g code ab k d h =
    let ran = run_server-keeps p p r w in
    let ran' = run_server-keeps p q r w in
    let at_p = absolute_lem (run_server p r w).1 p ab in
    let removed =
      remove_file_lem (run_server p r w).1 p g (ground (arith, ran, k, at_p))
        (ground (arith, ran, d, at_p)) in
    ground (arith, removed, ran', at_p, h)

-- When the server process has ended, whether its loop has returned or a step before it failed, its
-- socket is gone and every other entry, but for the file of its log, is as it was, where the path of
-- the socket is absolute and may be removed.
pub server_process_removes_socket :
    (p q : Bytes) (r : Run) (w w' : World) (g : Option Bytes) (code : ℕ)
    → is_absolute p ≡ true
    → w.kind p ≡ some (socket g)
    → w.denied p ≡ false
    → eq_bytes q p ≡ false
    → eq_bytes q (derive_server_log_path p) ≡ false
    → server_process p r w ≡ (some code, w')
    → (w'.kind p ≡ none) × (w'.kind q ≡ w.kind q)
server_process_removes_socket p q r w w' g code ab k d other no_log h = (
  server_process-kind p p r w w' g code ab k d h
      ∙ ap (λ (b : Bool). if b then none else w.kind p) (eq_bytes_refl p),
  server_process-kind p q r w w' g code ab k d h
      ∙ ap (λ (b : Bool). if b then none else w.kind q) other,
)

remove_file-elsewhere :
    (w : World) (p q : Bytes)
    → eq_bytes q (absolute w p) ≡ false
    → (remove_file w p).1.kind q ≡ w.kind q
unfolding remove_file put
remove_file-elsewhere w p q ne = ground (arith, ne)

cwd-run_server :
    (p : Bytes) (r : Run) (w : World) (x : Option IoError)
    → r.forkpty ≡ child x
    → (run_server p r w).1.cwd ≡ codes "/"
unfolding run_server
cwd-run_server p r w x e =
    ground (arith, e, set_permissions-keeps (record w { cwd = codes "/" }) p p 0o610)

-- A socket with a relative path, as a relative ABDUCO_SOCKET_DIR gives, outlives its server: the server
-- has changed to the root directory, and its guard looks for the socket there.
pub relative_socket_is_left :
    (p : Bytes) (r : Run) (w w' : World) (x : Option IoError) (code : ℕ)
    → is_absolute p ≡ false
    → r.forkpty ≡ child x
    → eq_bytes (absolute w p) (join (codes "/") p) ≡ false
    → server_process p r w ≡ (some code, w')
    → w'.kind (absolute w p) ≡ w.kind (absolute w p)
unfolding server_process
relative_socket_is_left p r w w' x code rel e ne h =
    let v = (run_server p r w).1 in
    let ran = run_server-keeps p (absolute w p) r w in
    let moved : absolute v p ≡ join (codes "/") p =
      ap (λ (d : Bytes). join d p) (cwd-run_server p r w x e) in
    let elsewhere =
      remove_file-elsewhere v p (absolute w p) (ap (eq_bytes (absolute w p)) moved ∙ ne) in
    ground (arith, elsewhere, ran, h)
