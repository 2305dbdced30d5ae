-- ===== src/Paths/Listed.antt =====
-- The names of sessions that `list_sessions` in src/main.rs takes from the files.
use abduco_inline.Prelude.{
  ℕ, zero, suc, ◌-◌, ◌≤◌, ◌<◌, ◌≡◌, refl, sym, ap, ◌∙◌, [], ◌∷◌, ◌++◌, length, take, length-take,
  length-append, take-append, Bool-cases, inl, inr, false, some, arith,
}
use abduco_inline.Prelude.Bytes.{Bytes}
use abduco_inline.Prelude.Text.{ends_with, ends_with-append}
use abduco_inline.Paths.{trim_loop, trim_end_matches, session_of}

-- `@` and the host.
abbrev pub suffix : Bytes → Bytes
suffix host = b'@' ∷ host

trim_loop-fuel :
    (fuel fuel' : ℕ) (xs s : Bytes)
    → length xs ≤ fuel
    → length xs ≤ fuel'
    → 0 < length s
    → trim_loop fuel xs s ≡ trim_loop fuel' xs s
unfolding trim_loop
trim_loop-fuel zero zero xs s f f' pos = refl
trim_loop-fuel zero (suc fuel') [] s f f' pos = ground arith
trim_loop-fuel zero (suc fuel') (x ∷ xs) s f f' pos = absurd (omega arith)
trim_loop-fuel (suc fuel) zero [] s f f' pos = ground arith
trim_loop-fuel (suc fuel) zero (x ∷ xs) s f f' pos = absurd (omega arith)
trim_loop-fuel (suc fuel) (suc fuel') xs s f f' pos =
    let shorter = length-take (length xs - length s) xs in
    elim (Bool-cases (ends_with xs s)) [
      | inl e ↦ rw e (
          trim_loop-fuel fuel fuel' (take (length xs - length s) xs) s (ground (arith, shorter, e))
            (ground (arith, shorter, e)) pos)
      | inr e ↦ rw e refl
    ]

trim_loop-append :
    (fuel : ℕ) (xs s : Bytes) → trim_loop (suc fuel) (xs ++ s) s ≡ trim_loop fuel xs s
unfolding trim_loop
trim_loop-append fuel xs s = rw (ends_with-append xs s) (
    ap (λ (b : Bytes). trim_loop fuel b s)
      (take-append (length (xs ++ s) - length s) xs s (omega (arith, length-append xs s))))

trim_end_matches-append :
    (xs s : Bytes) → 0 < length s → trim_end_matches (xs ++ s) s ≡ trim_end_matches xs s
unfolding trim_end_matches
trim_end_matches-append xs s pos =
    let long = length-append xs s in
    trim_loop-fuel (length (xs ++ s)) (suc (length (xs ++ s))) (xs ++ s) s (omega arith)
      (omega arith) pos
    ∙ trim_loop-append (length (xs ++ s)) xs s
    ∙ trim_loop-fuel (length (xs ++ s)) (length xs) xs s (omega (arith, long)) (omega arith) pos

session_of-append :
    (host name : Bytes)
    → session_of host (name ++ suffix host) ≡ some (trim_end_matches name (suffix host))
unfolding session_of
session_of-append host name =
    rw (ends_with-append name (suffix host))
      (ap some (trim_end_matches-append name (suffix host) (omega arith)))

trim_loop_keeps : (fuel : ℕ) (xs s : Bytes) → ends_with xs s ≡ false → trim_loop fuel xs s ≡ xs
unfolding trim_loop
trim_loop_keeps zero xs s h = refl
trim_loop_keeps (suc fuel) xs s h = rw h refl

-- A session whose name does not itself end in `@` and the host is listed under its name.
pub listed_under_its_name :
    (host name : Bytes)
    → ends_with name (suffix host) ≡ false
    → session_of host (name ++ suffix host) ≡ some name
unfolding trim_end_matches
listed_under_its_name host name h =
    session_of-append host name ∙ ap some (trim_loop_keeps (length name) name (suffix host) h)

-- A session whose name ends in `@` and the host is listed as the session without that ending.
pub listed_under_another_name :
    (host name : Bytes)
    → session_of host ((name ++ suffix host) ++ suffix host) ≡ session_of host (name ++ suffix host)
listed_under_another_name host name =
    session_of-append host (name ++ suffix host)
    ∙ ap some (trim_end_matches-append name (suffix host) (omega arith))
    ∙ sym (session_of-append host name)
