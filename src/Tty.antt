-- ===== src/Tty.antt =====
-- src/main.rs: the terminal of the attach client: `current_winsize`, `env_u16` and `RawMode`.
pub mod Size
pub mod Modes
mod Tests
use mathlib.Core.Option
use abduco_inline.Prelude.{
  ℕ, ◌^◌, List, [], ◌∷◌, ◌++◌, ◌==◌, if◌then◌else◌, Bool, true, false, ◌&&◌, ◌||◌, not, Option,
  none, some,
}
use abduco_inline.Prelude.Bytes.{Bytes}
use abduco_inline.Prelude.Text.{codes}
use abduco_inline.Prelude.Decimal.{parse_uint}
use abduco_inline.Attach.{Winsize, clear_screen, show_cursor}

-- The value of a variable of the environment that is a u16 other than 0.
unfoldable pub env_u16 : Option Bytes → Option ℕ
env_u16 none = none
env_u16 (some text) = elim (parse_uint (2 ^ 16) text) [
  | none ↦ none
  | some v ↦ if v == 0 then none else some v
]

abbrev pub size_of_env : Option Bytes → Option Bytes → Winsize
size_of_env rows cols = record {
  rows = Option.get_or (env_u16 rows) 25;
  cols = Option.get_or (env_u16 cols) 80;
}

-- What TIOCGWINSZ gives, unless it fails, and LICH_ROWS and LICH_COLS.
unfoldable pub current_winsize : Option Winsize → Option Bytes → Option Bytes → Winsize
current_winsize none rows cols = size_of_env rows cols
current_winsize (some ws) rows cols =
    if ws.rows == 0 || ws.cols == 0 then size_of_env rows cols else ws

-- The bits of a flag word.
abbrev pub Flags : Type 0
Flags = ℕ → Bool

abbrev pub clear : Flags → Flags → Flags
clear word mask = λ bit. word bit && not (mask bit)

abbrev pub set : Flags → Flags → Flags
set word mask = λ bit. word bit || mask bit

-- The flags of a list, joined by `|`.
abbrev pub join_flags : List Flags → Flags
join_flags [] = λ bit. false
join_flags (f ∷ fs) = λ bit. f bit || join_flags fs bit

-- The constants of libc.
pub record Constants : Type 0 where
  pub ignbrk : Flags
  pub brkint : Flags
  pub parmrk : Flags
  pub istrip : Flags
  pub inlcr : Flags
  pub igncr : Flags
  pub icrnl : Flags
  pub ixon : Flags
  pub ixoff : Flags
  pub opost : Flags
  pub echo : Flags
  pub echonl : Flags
  pub icanon : Flags
  pub isig : Flags
  pub iexten : Flags
  pub csize : Flags
  pub parenb : Flags
  pub cs8 : Flags
  pub vmin : ℕ
  pub vtime : ℕ

-- `struct termios`
pub record Termios : Type 0 where
  pub c_iflag : Flags
  pub c_oflag : Flags
  pub c_cflag : Flags
  pub c_lflag : Flags
  pub c_cc : ℕ → ℕ

unfoldable pub raw_of : Constants → Termios → Termios
raw_of k t = record {
  c_iflag = clear t.c_iflag (
      join_flags (
        k.ignbrk ∷ k.brkint ∷ k.parmrk ∷ k.istrip ∷ k.inlcr ∷ k.igncr ∷ k.icrnl ∷ k.ixon ∷ k.ixoff
        ∷ []));
  c_oflag = clear t.c_oflag k.opost;
  c_lflag = clear t.c_lflag (join_flags (k.echo ∷ k.echonl ∷ k.icanon ∷ k.isig ∷ k.iexten ∷ []));
  c_cflag = set (clear t.c_cflag (join_flags (k.csize ∷ k.parenb ∷ []))) k.cs8;
  c_cc = λ i. if i == k.vtime then 0 else if i == k.vmin then 1 else t.c_cc i;
}

-- A terminal: whether stdin is one, its modes, whether `tcgetattr` and `tcsetattr` succeed, and what
-- `print!` has put on stdout.
pub record Tty : Type 0 where
  pub isatty : Bool
  pub modes : Termios
  pub readable : Bool
  pub settable : Bool
  pub printed : Bytes

-- `settable` says whether the call succeeds, at every call alike.
unfoldable pub tcsetattr : Tty → Termios → Tty
tcsetattr t modes = if t.settable then record t { modes = modes } else t

abbrev pub print_text : Tty → Bytes → Tty
print_text t text = record t { printed = t.printed ++ text }

-- `RawMode`: the modes that are to be restored.
abbrev pub RawMode : Type 0
RawMode = Option Termios

-- `RawMode::enter`, which does not fail.
unfoldable pub enter : Constants → Bool → Tty → RawMode × Tty
enter k passthrough t =
    if passthrough || not t.isatty
    then (none, t)
    else if not t.readable
    then (none, t)
    else (some t.modes, print_text (tcsetattr t (raw_of k t.modes)) clear_screen)

-- The drop of a `RawMode`.
unfoldable pub leave : RawMode → Tty → Tty
leave none t = t
leave (some saved) t = print_text (tcsetattr t saved) show_cursor
