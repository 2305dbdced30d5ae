-- ===== src/Paths/Logs.antt =====
-- The log beside a session's socket: `derive_server_log_path` and `list_sessions` in src/main.rs.
use abduco_inline.Prelude.{
  ℕ, ◌≡◌, ◌≢◌, refl, ap, ◌∙◌, [], ◌∷◌, ◌++◌, append_assoc, length, length-append, is_empty,
  if◌then◌else◌, Bool-cases, inl, inr, false, Option, some, none, arith, All-append,
}
use abduco_inline.Prelude.Bytes.{Bytes}
use abduco_inline.Prelude.Text.{
  codes, eq_bytes, ends_with, ends_with_sound, Free, split_last, split_last-some,
}
use abduco_inline.Files.{join, is_absolute}
use abduco_inline.Paths.{
  trim, parent, last_component, file_name, set_file_name, derive_server_log_path, session_of,
}
use abduco_inline.Paths.Listed.{suffix}

-- A component that is a name of its own.
pub record IsName (base : Bytes) : Type 0 where
  pub one_component : Free b'/' base
  pub not_empty : is_empty base ≡ false
  pub not_dot : eq_bytes base (codes ".") ≡ false
  pub not_dots : eq_bytes base (codes "..") ≡ false

trim-Free : (base : Bytes) → Free b'/' base → trim base ≡ base
unfolding trim
trim-Free [] h = refl
trim-Free (x ∷ base) (ne, h) = ground (arith, trim-Free base h)

trim-cons :
    (x : ℕ) (xs : Bytes)
    → trim xs ≡ xs
    → is_empty xs ≡ false
    → eq_bytes xs (codes ".") ≡ false
    → trim (x ∷ xs) ≡ x ∷ xs
unfolding trim
trim-cons x xs e ne nd = ground (arith, e, ne, nd)

append-not_empty : (dir base : Bytes) → is_empty (dir ++ b'/' ∷ base) ≡ false
append-not_empty [] base = refl
append-not_empty (x ∷ dir) base = refl

append-not_dot : (dir base : Bytes) → eq_bytes (dir ++ b'/' ∷ base) (codes ".") ≡ false
append-not_dot [] base = refl
append-not_dot (x ∷ []) base = ground arith
append-not_dot (x ∷ y ∷ dir) base = ground arith

trim-name : (dir base : Bytes) → IsName base → trim (dir ++ b'/' ∷ base) ≡ dir ++ b'/' ∷ base
trim-name [] base h = trim-cons b'/' base (trim-Free base h.one_component) h.not_empty h.not_dot
trim-name (x ∷ dir) base h =
    trim-cons x (dir ++ b'/' ∷ base) (trim-name dir base h) (append-not_empty dir base)
      (append-not_dot dir base)

split_last-name :
    (dir base : Bytes)
    → IsName base
    → split_last b'/' (trim (dir ++ b'/' ∷ base)) ≡ some (dir, base)
split_last-name dir base h =
    ap (split_last b'/') (trim-name dir base h) ∙ split_last-some b'/' dir base h.one_component

file_name-name : (dir base : Bytes) → IsName base → file_name (dir ++ b'/' ∷ base) ≡ some base
unfolding file_name last_component
file_name-name dir base h =
    ground (arith, split_last-name dir base h, h.not_empty, h.not_dot, h.not_dots)

parent-name :
    (dir base : Bytes)
    → IsName base
    → parent (dir ++ b'/' ∷ base) ≡ some (if is_empty dir then codes "/" else dir)
unfolding parent
parent-name dir base h = ground (arith, split_last-name dir base h)

join-plain :
    (dir p : Bytes)
    → is_absolute p ≡ false
    → is_empty dir ≡ false
    → ends_with dir (codes "/") ≡ false
    → join dir p ≡ dir ++ b'/' ∷ p
join-plain dir p h ne closed = rw (h, ne, closed) refl

is_absolute-append :
    (base behind : Bytes)
    → Free b'/' base
    → is_empty base ≡ false
    → is_absolute (base ++ behind) ≡ false
is_absolute-append [] behind h ne = cc
is_absolute-append (x ∷ base) behind (ne, h) e = ground arith

-- The log of a socket stands in the same directory, under the name of the socket with `.log` behind it.
pub log_is_beside_socket :
    (dir base : Bytes)
    → IsName base
    → is_empty dir ≡ false
    → ends_with dir (codes "/") ≡ false
    → derive_server_log_path (dir ++ b'/' ∷ base) ≡ dir ++ b'/' ∷ (base ++ codes ".log")
unfolding derive_server_log_path set_file_name
log_is_beside_socket dir base h ne closed =
    let named = file_name-name dir base h in
    let above = parent-name dir base h in
    let relative = is_absolute-append base (codes ".log") h.one_component h.not_empty in
    rw (named, above, ne) (join-plain dir (base ++ codes ".log") relative ne closed)

behind_lem :
    (o o' : Option (Bytes × Bytes)) (a b c d : Bytes)
    → o ≡ some (a, b)
    → o' ≡ some (c, d)
    → o ≡ o'
    → b ≡ d
behind_lem o o' a b c d e f g = ground (arith, e, f, g)

log_suffix :
    (name host before : Bytes)
    → Free b'@' host
    → before ++ suffix host ≡ (name ++ suffix host) ++ codes ".log"
    → ⊥
log_suffix name host before free h =
    let free' = All-append (λ x. x ≢ b'@') host (codes ".log") free (omega arith) in
    let one = split_last-some b'@' before host free in
    let two = split_last-some b'@' name (host ++ codes ".log") free' in
    let regroup = append_assoc name (suffix host) (codes ".log") in
    let same =
      behind_lem _ _ before host name (host ++ codes ".log") one two
        (ap (split_last b'@') (h ∙ regroup)) in
    omega (arith, ap (length {A = ℕ}) same, length-append host (codes ".log"))

-- The log of a session is not listed as a session of its own, on a host without an `@` in its name.
pub log_is_not_listed :
    (name host : Bytes)
    → Free b'@' host
    → session_of host ((name ++ suffix host) ++ codes ".log") ≡ none
unfolding session_of
log_is_not_listed name host free =
    let log = (name ++ suffix host) ++ codes ".log" in
    elim (Bool-cases (ends_with log (suffix host))) [
      | inl e ↦ absurd (log_suffix name host _ free (ends_with_sound log (suffix host) e).0)
      | inr e ↦ rw e refl
    ]
