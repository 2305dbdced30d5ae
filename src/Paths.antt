-- ===== src/Paths.antt =====
-- src/main.rs: where a session's files are: `hostname`, `socket_base_dir`, `socket_path` and
-- `derive_server_log_path`, and the names that `list_sessions` prints. Names are UTF-8, so that the
-- lossy conversions keep them. A path is a text: doubled slashes, `.` and `..` inside it stay as they are.
pub mod Sockets
pub mod Logs
pub mod Listed
mod Tests
use abduco_inline.Prelude.{
  ℕ, zero, suc, ◌-◌, List, [], ◌∷◌, ◌++◌, length, take, if◌then◌else◌, is_empty, is_none, ◌==◌,
  Bool, true, false, ◌&&◌, ◌||◌, not, Option, none, some, Result, ok, err, not_found,
}
use mathlib.Core.Option
use abduco_inline.Prelude.Bytes.{Bytes}
use abduco_inline.Prelude.Text.{codes, eq_bytes, starts_with, ends_with, split_last}
use abduco_inline.Files.{World, join, create_dir_all, set_permissions}

-- The bytes before the first NUL.
unfoldable pub until_nul : Bytes → Bytes
until_nul [] = []
until_nul (b ∷ bs) = if b == 0 then [] else b ∷ until_nul bs

-- The buffer that `gethostname` fills, unless it fails.
unfoldable pub hostname : Option Bytes → Bytes
hostname none = codes "localhost"
hostname (some buf) = until_nul buf

-- The environment that the paths depend on, and the user id in decimal.
pub record PathEnv : Type 0 where
  pub user : Option Bytes
  pub uid : Bytes
  pub socket_dir : Option Bytes
  pub home : Option Bytes
  pub tmpdir : Option Bytes
  pub host : Option Bytes

unfoldable pub candidates : PathEnv → List (Option Bytes)
candidates e =
    let user = Option.get_or e.user e.uid in
    e.socket_dir
    ∷ Option.map (λ home. join home (codes ".lich")) e.home
    ∷ Option.map (λ tmp. join (join tmp (codes "lich")) user) e.tmpdir
    ∷ some (join (join (codes "/tmp") (codes "lich")) user)
    ∷ []

-- The loop over the candidates.
unfoldable pub first_created : List (Option Bytes) → World → Result Bytes × World
first_created [] w = (err not_found, w)
first_created (none ∷ more) w = first_created more w
first_created (some dir ∷ more) w =
    let (created, w') = create_dir_all w dir in
    elim created [ ok _ ↦ (ok dir, set_permissions w' dir 0o700) | err _ ↦ first_created more w' ]

unfoldable pub socket_base_dir : PathEnv → World → Result Bytes × World
socket_base_dir e w = first_created (candidates e) w

-- The name of a session's file in the directory of sockets.
abbrev pub file_of : PathEnv → Bytes → Bytes
file_of e name = name ++ b'@' ∷ hostname e.host

abbrev pub is_relative : Bytes → Bool
is_relative name = starts_with name (codes "./") || starts_with name (codes "../")

unfoldable pub socket_path : PathEnv → World → Bytes → Result Bytes × World
socket_path e w name =
    if starts_with name (codes "/")
    then (ok name, w)
    else if is_relative name
    then (ok (join w.cwd name), w)
    else (let (base, w') = socket_base_dir e w in
        elim base [ ok dir ↦ (ok (join dir (file_of e name)), w') | err kind ↦ (err kind, w') ])

-- A path without the slashes and `.` components at its end, as `Path::components` reads it.
unfoldable pub trim : Bytes → Bytes
trim [] = []
trim (x ∷ xs) =
    let rest = trim xs in
    if x == b'/' && (is_empty rest || eq_bytes rest (codes ".")) then [] else x ∷ rest

-- `Path::parent`
unfoldable pub parent : Bytes → Option Bytes
parent p = elim (split_last b'/' (trim p)) [
  | none ↦ if is_empty (trim p) then none else some []
  | some (dir, _) ↦ some (if is_empty dir then codes "/" else dir)
]

-- The component behind the last slash.
unfoldable pub last_component : Bytes → Bytes
last_component p = elim (split_last b'/' (trim p)) [ none ↦ trim p | some (_, last) ↦ last ]

-- `Path::file_name`
unfoldable pub file_name : Bytes → Option Bytes
file_name p =
    let last = last_component p in
    if is_empty last || eq_bytes last (codes ".") || eq_bytes last (codes "..")
    then none
    else some last

-- `PathBuf::set_file_name`
unfoldable pub set_file_name : Bytes → Bytes → Bytes
set_file_name p new_name =
    if is_none (file_name p) then join p new_name else join (Option.get_or (parent p) []) new_name

unfoldable pub derive_server_log_path : Bytes → Bytes
derive_server_log_path p =
    set_file_name p (elim (file_name p) [ some s ↦ s ++ codes ".log" | none ↦ codes "lich.log" ])

-- `str::trim_end_matches`, with fuel: each round takes the suffix off.
unfoldable pub trim_loop : ℕ → Bytes → Bytes → Bytes
trim_loop zero xs suffix = xs
trim_loop (suc fuel) xs suffix =
    let rest = trim_loop fuel (take (length xs - length suffix) xs) suffix in
    if ends_with xs suffix then rest else xs

unfoldable pub trim_end_matches : Bytes → Bytes → Bytes
trim_end_matches xs suffix = trim_loop (length xs) xs suffix

-- The session that `list_sessions` prints for a file of the directory, if it prints one.
unfoldable pub session_of : Bytes → Bytes → Option Bytes
session_of host name =
    if ends_with name (b'@' ∷ host) then some (trim_end_matches name (b'@' ∷ host)) else none
