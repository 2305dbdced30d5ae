-- ===== src/Paths/Tests.antt =====
-- Sockets, logs and listed names of src/main.rs at concrete paths.
use abduco_inline.Prelude.{
  arith, ◌≡◌, refl, [], ◌∷◌, ◌++◌, true, false, none, some, ok, err, not_found,
}
use abduco_inline.Prelude.Bytes.{Bytes}
use abduco_inline.Prelude.Text.{codes, split_last}
use abduco_inline.Files.{World, folder, create_dir_all, set_permissions}
use abduco_inline.Paths.{
  PathEnv, hostname, until_nul, set_file_name, file_name, last_component, trim, candidates,
  first_created, socket_base_dir, socket_path, derive_server_log_path, session_of,
}
use abduco_inline.Paths.Sockets.{IsPlain, socket_path_injective}
use abduco_inline.Paths.Listed.{listed_under_another_name}

abbrev host : Bytes
host = codes "box"

abbrev env : PathEnv
env = record {
  user = some (codes "ann");
  uid = codes "1000";
  socket_dir = none;
  home = some (codes "/home/ann");
  tmpdir = some (codes "/tmp");
  host = some (codes "box" ++ 0 ∷ 0 ∷ []);
}

-- Every path is a directory.
abbrev all_folders : World
all_folders = record {
  kind = λ p. some folder;
  mode = λ p. none;
  denied = λ p. false;
  cwd = codes "/work";
}

-- No path is there, and none can be made.
abbrev nothing : World
nothing = record all_folders { kind = λ p. none; denied = λ p. true }

-- What is left of `all_folders` when the directory of sockets is open to its user alone.
abbrev private_dir : World
private_dir = set_permissions all_folders (codes "/home/ann/.lich") 0o700

plain_name :
    socket_path env all_folders (codes "web") ≡ (ok (codes "/home/ann/.lich/web@box"), private_dir)
unfolding socket_path socket_base_dir first_created candidates create_dir_all hostname until_nul
plain_name = refl

relative_name :
    socket_path env all_folders (codes "./web") ≡ (ok (codes "/work/./web"), all_folders)
unfolding socket_path
relative_name = refl

no_directory : (socket_path env nothing (codes "web")).0 ≡ err not_found
unfolding socket_path socket_base_dir first_created candidates create_dir_all
no_directory = refl

log_of_directory : derive_server_log_path (codes "/run/..") ≡ codes "/run/../lich.log"
unfolding derive_server_log_path set_file_name file_name last_component split_last trim
log_of_directory = refl

no_session : session_of host (codes "web@other") ≡ none
unfolding session_of
no_session = refl

web_IsPlain : IsPlain (codes "web")
web_IsPlain = record {
  not_absolute = refl;
  not_relative = refl;
  one_component = (omega arith, (omega arith, (omega arith, tt)));
}

socket_path_injective_example : codes "web" ≡ codes "web"
socket_path_injective_example =
    socket_path_injective env all_folders private_dir private_dir (codes "web") (codes "web")
      (codes "/home/ann/.lich/web@box") (web_IsPlain) (web_IsPlain) plain_name plain_name

listed_under_another_name_example :
    session_of host (codes "web@box@box") ≡ session_of host (codes "web@box")
listed_under_another_name_example = listed_under_another_name host (codes "web")
