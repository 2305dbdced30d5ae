-- ===== src/Paths/Sockets.antt =====
-- `socket_path` in src/main.rs for different sessions.
use abduco_inline.Prelude.{
  ℕ, ◌≡◌, ◌≢◌, All, refl, sym, ap, ◌∙◌, [], ◌∷◌, ◌++◌, append_assoc, length, take, take-append,
  length-append, if◌then◌else◌, is_empty, ◌||◌, Bool-cases, inl, inr, false, Result, ok, err, arith,
}
use abduco_inline.Prelude.Bytes.{Bytes}
use abduco_inline.Prelude.Text.{codes, starts_with, ends_with}
use abduco_inline.Files.{World, is_absolute, join}
use abduco_inline.Paths.{PathEnv, file_of, is_relative, socket_base_dir, socket_path, hostname}

-- A name that is not a path: one component, without a slash.
pub record IsPlain (name : Bytes) : Type 0 where
  pub not_absolute : starts_with name (codes "/") ≡ false
  pub not_relative : is_relative name ≡ false
  pub one_component : All (λ c. c ≢ b'/') name

append_cancel_left : (xs ys zs : Bytes) → xs ++ ys ≡ xs ++ zs → ys ≡ zs
append_cancel_left [] ys zs h = h
append_cancel_left (x ∷ xs) ys zs h = append_cancel_left xs ys zs (ground (arith, h))

append_cancel_right : (xs ys zs : Bytes) → xs ++ zs ≡ ys ++ zs → xs ≡ ys
append_cancel_right xs ys zs h =
    let same : length xs ≡ length ys =
      omega (arith, ap (length {A = ℕ}) h, length-append xs zs, length-append ys zs) in
    sym (take-append (length xs) xs zs refl)
    ∙ ap (take (length xs)) h
    ∙ take-append (length xs) ys zs same

pub starts_with-append :
    (name behind : Bytes) (c d : ℕ)
    → starts_with name (c ∷ []) ≡ false
    → d ≢ c
    → starts_with (name ++ d ∷ behind) (c ∷ []) ≡ false
starts_with-append [] behind c d h ne = ground (arith, ne)
starts_with-append (x ∷ name) behind c d h ne = ground (arith, h)

-- What `join` puts in front of a name that is not absolute.
abbrev front : Bytes → Bytes
front dir = if is_empty dir || ends_with dir (codes "/") then dir else dir ++ b'/' ∷ []

join-front : (dir p : Bytes) → is_absolute p ≡ false → join dir p ≡ front dir ++ p
join-front dir p h = elim (Bool-cases (is_empty dir || ends_with dir (codes "/"))) [
  | inl e ↦ rw (h, e) refl
  | inr e ↦ rw (h, e) (sym (append_assoc dir (b'/' ∷ []) p))
]

base_step :
    (e : PathEnv) (name p : Bytes) (w' : World) (base : Result Bytes × World)
    → let path : Result Bytes × World = elim base.0 [
      | ok dir ↦ (ok (join dir (file_of e name)), base.1)
      | err kind ↦ (err kind, base.1)
    ] in
      path ≡ (ok p, w') → (dir : Bytes) × (base.0 ≡ ok dir) × (p ≡ join dir (file_of e name))
base_step e name p w' (ok dir, w1) h = (dir, refl, ground (arith, h))
base_step e name p w' (err kind, w1) h = absurd (ground (arith, h))

-- A session with a plain name has its socket in the directory of sockets.
pub socket_path_of_IsPlain :
    (e : PathEnv) (w w' : World) (name p : Bytes)
    → IsPlain name
    → socket_path e w name ≡ (ok p, w')
    → (dir : Bytes) × ((socket_base_dir e w).0 ≡ ok dir) × (p ≡ join dir (file_of e name))
unfolding socket_path
socket_path_of_IsPlain e w w' name p plain h =
    base_step e name p w' (socket_base_dir e w)
      (ground (arith, h, plain.not_absolute, plain.not_relative))

-- Two names without a slash that get the same socket are the same: different sessions have different
-- sockets.
pub socket_path_injective :
    (e : PathEnv) (w w1 w2 : World) (n m p : Bytes)
    → IsPlain n
    → IsPlain m
    → socket_path e w n ≡ (ok p, w1)
    → socket_path e w m ≡ (ok p, w2)
    → n ≡ m
socket_path_injective e w w1 w2 n m p pn pm hn hm =
    let (dir, en, jn) = socket_path_of_IsPlain e w w1 n p pn hn in
    let (dir', em, jm) = socket_path_of_IsPlain e w w2 m p pm hm in
    let same : dir ≡ dir' = ground (arith, en, em) in
    let behind = b'@' ∷ hostname e.host in
    let fn =
      join-front dir (file_of e n)
        (starts_with-append n _ b'/' b'@' pn.not_absolute (omega arith)) in
    let fm =
      join-front dir (file_of e m)
        (starts_with-append m _ b'/' b'@' pm.not_absolute (omega arith)) in
    append_cancel_right n m behind (
      append_cancel_left (front dir) (file_of e n) (file_of e m)
        (sym fn ∙ sym jn ∙ jm ∙ ap (λ (d : Bytes). join d (file_of e m)) (sym same) ∙ fm))
