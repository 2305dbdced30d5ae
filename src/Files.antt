-- ===== src/Files.antt =====
-- The file system as src/main.rs uses it through the standard library: what stands at a path, and
-- the calls that change it. Paths are compared as texts, made absolute by the working directory;
-- `denied` says where the process cannot create or remove an entry.
use abduco_inline.Prelude.{
  ℕ, [], ◌∷◌, ◌++◌, if◌then◌else◌, is_empty, is_none, Bool, ◌&&◌, ◌||◌, Option, none, some, Result,
  ok, err, not_found, connection_refused, addr_in_use, other,
}
use abduco_inline.Prelude.Bytes.{Bytes}
use abduco_inline.Prelude.Text.{codes, eq_bytes, starts_with, ends_with}

-- `socket (some g)`: a process listens there, and first sends the bytes `g` to whoever connects. With
-- `none` no process listens any more.
pub data Kind : Type 0 where
  file folder : Kind
  socket : Option Bytes → Kind

-- `mode` holds the permission bits that the program has set.
pub record World : Type 0 where
  pub kind : Bytes → Option Kind
  pub mode : Bytes → Option ℕ
  pub denied : Bytes → Bool
  pub cwd : Bytes

abbrev pub is_absolute : Bytes → Bool
is_absolute p = starts_with p (codes "/")

-- `Path::join`
abbrev pub join : Bytes → Bytes → Bytes
join base p =
    if is_absolute p
    then p
    else if is_empty base || ends_with base (codes "/")
    then base ++ p
    else base ++ b'/' ∷ p

abbrev pub absolute : World → Bytes → Bytes
absolute w p = join w.cwd p

unfoldable pub put : World → Bytes → Option Kind → World
put w at_ kind = record w {
  kind = λ p. if eq_bytes p at_ then kind else w.kind p;
  mode = λ p. if eq_bytes p at_ then none else w.mode p;
}

unfoldable pub remove_file : World → Bytes → Result (Unit {0}) × World
remove_file w p =
    let at_ = absolute w p in
    elim (w.kind at_) [
      | none ↦ (err not_found, w)
      | some folder ↦ (err other, w)
      | some file ↦ if w.denied at_ then (err other, w) else (ok tt, put w at_ none)
      | some (socket g) ↦ if w.denied at_ then (err other, w) else (ok tt, put w at_ none)
    ]

-- A file that is no socket, and a socket with no listener, refuse the connection, as on Linux.
unfoldable pub connect : World → Bytes → Result Bytes
connect w p = elim (w.kind (absolute w p)) [
  | none ↦ err not_found
  | some (socket (some greeting)) ↦ ok greeting
  | some (socket none) ↦ err connection_refused
  | some file ↦ err connection_refused
  | some folder ↦ err connection_refused
]

unfoldable pub bind : World → Bytes → Bytes → Result (Unit {0}) × World
bind w p greeting =
    let at_ = absolute w p in
    if is_none (w.kind at_)
    then (if w.denied at_
        then (err other, w)
        else (ok tt, put w at_ (some (socket (some greeting)))))
    else (err addr_in_use, w)

unfoldable pub set_permissions : World → Bytes → ℕ → World
set_permissions w p bits =
    let at_ = absolute w p in
    if is_none (w.kind at_)
    then w
    else record w { mode = λ q. if eq_bytes q at_ then some bits else w.mode q }

-- `p` is `at_` or a directory above it.
abbrev pub is_above : Bytes → Bytes → Bool
is_above p at_ = eq_bytes p at_ || starts_with at_ (p ++ b'/' ∷ [])

-- The directory and the missing ones above it. The empty path asks for nothing.
unfoldable pub create_dir_all : World → Bytes → Result (Unit {0}) × World
create_dir_all w p =
    let at_ = absolute w p in
    if is_empty p then (ok tt, w) else elim (w.kind at_) [
      | some folder ↦ (ok tt, w)
      | some file ↦ (err other, w)
      | some (socket g) ↦ (err other, w)
      | none ↦ if w.denied at_ then (err other, w) else (
        ok tt,
        record w {
          kind = λ q. if is_none (w.kind q) && is_above q at_ then some folder else w.kind q;
        },
      )
    ]
