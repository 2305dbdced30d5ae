-- ===== src/Tty/Modes.antt =====
-- The modes of the client's terminal: `RawMode` in src/main.rs.
use abduco_inline.Prelude.{
  ℕ, ◌≡◌, ◌≢◌, refl, ◌++◌, append_assoc, Bool, Bool-cases, inl, inr, true, false, none, some, arith,
}
use abduco_inline.Prelude.Bytes.{Bytes}
use abduco_inline.Attach.{clear_screen, show_cursor}
use abduco_inline.Tty.{
  Constants, Termios, Tty, RawMode, raw_of, tcsetattr, print_text, enter, leave,
}

-- What is on the screen when `out` has been printed in between.
abbrev pub framed : RawMode → Bytes → Bytes
framed none out = out
framed (some saved) out = clear_screen ++ (out ++ show_cursor)

modes-leave :
    (t : Tty) (raw : Termios) (out : Bytes)
    → (leave (some t.modes) (print_text (print_text (tcsetattr t raw) clear_screen) out)).modes
      ≡ t.modes
unfolding leave tcsetattr
modes-leave t raw out = ground arith

printed-leave :
    (t : Tty) (raw : Termios) (out : Bytes)
    → (leave (some t.modes) (print_text (print_text (tcsetattr t raw) clear_screen) out)).printed
      ≡ t.printed ++ (clear_screen ++ (out ++ show_cursor))
unfolding leave tcsetattr
printed-leave t raw out = elim (Bool-cases t.settable) [
  | inl e ↦ rw e (simp append_assoc refl)
  | inr e ↦ rw e (simp append_assoc refl)
]

-- Whatever the terminal is, and whether or not its modes can be read and set: when the client has
-- entered the raw mode, printed its output and left again, the modes are those from before, and the
-- output stands between the clearing of the screen and the showing of the cursor, or alone where the
-- modes were left untouched.
pub modes_are_restored :
    (k : Constants) (passthrough : Bool) (t : Tty) (out : Bytes)
    → let (saved, t1) = enter k passthrough t in
      let t2 = leave saved (print_text t1 out) in
      (t2.modes ≡ t.modes) × (t2.printed ≡ t.printed ++ framed saved out)
unfolding enter leave
modes_are_restored k passthrough t out =
    let modes = modes-leave t (raw_of k t.modes) out in
    let printed = printed-leave t (raw_of k t.modes) out in ground (arith, modes, printed)

-- In the raw mode input comes byte by byte, unechoed, without line editing, without keys for signals,
-- and with returns as they are typed, in characters of the size CS8: on a terminal whose modes
-- can be read and set, outside pass-through mode, where VMIN and VTIME differ.
pub input_is_raw :
    (k : Constants) (t : Tty) (echo icanon isig icrnl csize : ℕ)
    → t.isatty ≡ true
    → t.readable ≡ true
    → t.settable ≡ true
    → k.vmin ≢ k.vtime
    → k.echo echo ≡ true
    → k.icanon icanon ≡ true
    → k.isig isig ≡ true
    → k.icrnl icrnl ≡ true
    → k.csize csize ≡ true
    → let modes = (enter k false t).1.modes in
      (modes.c_cc k.vmin ≡ 1)
      × (modes.c_cc k.vtime ≡ 0)
      × (modes.c_lflag echo ≡ false)
      × (modes.c_lflag icanon ≡ false)
      × (modes.c_lflag isig ≡ false)
      × (modes.c_iflag icrnl ≡ false)
      × (modes.c_cflag csize ≡ k.cs8 csize)
unfolding enter tcsetattr raw_of
input_is_raw k t echo icanon isig icrnl csize tty readable settable differ h1 h2 h3 h4 h5 =
    rw (tty, readable, settable) (ground arith)
