-- ===== src/Tty/Tests.antt =====
-- The terminal of the attach client of src/main.rs, with the constants of Linux.
use abduco_inline.Prelude.{
  ℕ, ◌<◌, ◌≡◌, refl, [], ◌∷◌, ◌++◌, ◌==◌, ◌||◌, true, false, none, some, arith,
}
use abduco_inline.Prelude.Text.{codes}
use abduco_inline.Prelude.Decimal.{parse_uint, parse_digits}
use abduco_inline.History
use abduco_inline.Server.Client.{Client}
use abduco_inline.Server.Packets.{Pty, set_winsize, winch_group, handle_packet}
use abduco_inline.Server.Tick.{new_client}
use abduco_inline.Attach.{Winsize, resize_packet}
use abduco_inline.Attach.{clear_screen, show_cursor}
use abduco_inline.Tty.{Flags, Constants, Tty, env_u16, current_winsize, print_text, enter, leave}
use abduco_inline.Tty.Size.{size_reaches_pty}
use abduco_inline.Tty.Modes.{modes_are_restored, input_is_raw}

abbrev bit : ℕ → Flags
bit n = λ i. i == n

abbrev linux : Constants
linux = record {
  ignbrk = bit 0;
  brkint = bit 1;
  parmrk = bit 3;
  istrip = bit 5;
  inlcr = bit 6;
  igncr = bit 7;
  icrnl = bit 8;
  ixon = bit 10;
  ixoff = bit 12;
  opost = bit 0;
  echo = bit 3;
  echonl = bit 6;
  icanon = bit 1;
  isig = bit 0;
  iexten = bit 15;
  csize = λ i. i == 4 || i == 5;
  parenb = bit 8;
  cs8 = λ i. i == 4 || i == 5;
  vmin = 6;
  vtime = 5;
}

-- A terminal in cooked mode.
abbrev xterm : Tty
xterm = record {
  isatty = true;
  modes = record {
    c_iflag = bit 8;
    c_oflag = bit 0;
    c_cflag = bit 4;
    c_lflag = λ i. i == 0 || (i == 1 || i == 3);
    c_cc = λ i. 4;
  };
  readable = true;
  settable = true;
  printed = codes "$ ";
}

modes_are_restored_example :
    let (saved, raw) = enter linux false xterm in
    let after = leave saved (print_text raw (codes "hi")) in
    (after.modes ≡ xterm.modes)
    × (after.printed ≡ codes "$ " ++ (clear_screen ++ (codes "hi" ++ show_cursor)))
unfolding enter
modes_are_restored_example = modes_are_restored linux false xterm (codes "hi")

input_is_raw_example :
    let modes = (enter linux false xterm).1.modes in
    (modes.c_cc 6 ≡ 1)
    × (modes.c_cc 5 ≡ 0)
    × (modes.c_lflag 3 ≡ false)
    × (modes.c_lflag 1 ≡ false)
    × (modes.c_lflag 0 ≡ false)
    × (modes.c_iflag 8 ≡ false)
    × (modes.c_cflag 5 ≡ true)
input_is_raw_example =
    input_is_raw linux xterm 3 1 0 8 5 refl refl refl (omega arith) refl refl refl refl refl

size_of_environment :
    current_winsize none (some (codes "50")) (some (codes "0")) ≡ record { rows = 50; cols = 80 }
unfolding current_winsize env_u16 parse_uint parse_digits
size_of_environment = refl

number_too_large : env_u16 (some (codes "65536")) ≡ none
unfolding env_u16 parse_uint parse_digits
number_too_large = refl

abbrev tiny : Winsize
tiny = record { rows = 0; cols = 132 }

abbrev pty : Pty
pty = record { written = []; writes = []; reads = []; calls = [] }

abbrev somebody : Client
somebody = new_client (record { wire = []; writes = []; reads = [] })

size_reaches_pty_example :
    let ws = current_winsize (some tiny) (some (codes "50")) none in
    (handle_packet 0 History.new (somebody, pty) (resize_packet ws)
      ≡ (somebody, record pty { calls = set_winsize 50 80 ∷ winch_group ∷ [] }))
    × (0 < ws.rows)
    × (0 < ws.cols)
unfolding current_winsize env_u16 parse_uint parse_digits
size_reaches_pty_example =
    size_reaches_pty (some tiny) (some (codes "50")) none 0 History.new somebody pty
      (omega arith, omega arith)
