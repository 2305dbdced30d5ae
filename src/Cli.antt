-- ===== src/Cli.antt =====
-- src/main.rs: the command line (`Action`, `Opts`, `parse_args`, `parse_size`, `parse_detach_key`). An
-- argument is the list of its bytes.
pub mod Ranges
pub mod Accepted
pub mod Request
pub mod Written
pub mod Task
pub mod Plan
mod Tests
use abduco_inline.Prelude.{
  ℕ, zero, suc, ◌+◌, ◌-◌, ◌*◌, ◌^◌, List, [], ◌∷◌, ◌++◌, length, get_or, drop, is_empty, ltb, leb,
  ◌==◌, if◌then◌else◌, Bool, true, false, ◌&&◌, ◌||◌, not, Option, none, some, is_none, bit_and,
  bit_or, Result, ok, err, ◌>>=◌, invalid_input,
}
use abduco_inline.Prelude.Bytes.{Bytes}
use abduco_inline.Prelude.Decimal.{parse_uint}
use abduco_inline.Prelude.Text.{codes, eq_bytes, starts_with}
use abduco_inline.Server.Packets.{client_readonly}

abbrev pub client_lowpriority : ℕ
client_lowpriority = 2

pub data Action : Type 0 where
  attach attach_or_create create_attach create dump send_keys : Action

pub record Opts : Type 0 where
  pub action : Option Action
  pub name : Option Bytes
  pub rest : List Bytes
  pub literal : Bool
  pub max_bytes : ℕ
  pub max_lines : ℕ
  pub flags : ℕ
  pub quiet : Bool
  pub force : Bool
  pub passthrough : Bool
  pub detach_key : ℕ

abbrev pub default_opts : Opts
default_opts = record {
  action = none;
  name = none;
  rest = [];
  literal = false;
  max_bytes = 0;
  max_lines = 0;
  flags = 0;
  quiet = false;
  force = false;
  passthrough = false;
  detach_key = 0x1c;
}

unfoldable pub parse_size : Option Bytes → Option ℕ
parse_size none = none
parse_size (some value) = parse_uint (2 ^ 64) value

unfoldable pub parse_detach_key : Bytes → ℕ
parse_detach_key key =
    if leb 2 (length key) && get_or key 0 0 == b'^'
    then bit_and (get_or key 1 0) 0x1f
    else get_or key 0 0x1c

-- What one argument does: it ends the options, it goes on with new options (with or without the next
-- argument used up), it is refused, or it asks for the version.
pub data Step : Type 0 where
  positional usage version : Step
  one two : Opts → Step

-- A size that is set by the next argument, and one that stands in the same argument.
abbrev pub sized : Option ℕ → (ℕ → Step) → Step
sized none step = usage
sized (some n) step = step n

abbrev pub keyed : Option Bytes → (Bytes → Step) → Step
keyed none step = usage
keyed (some key) step = step key

-- The body of the loop of `parse_args`: the arms of the match in their order.
unfoldable pub parse_step : Bytes → Option Bytes → Opts → Step
parse_step arg next o =
    if not (starts_with arg (codes "-")) || eq_bytes arg (codes "-")
    then positional
    else if eq_bytes arg (codes "-a")
    then one (record o { action = some attach })
    else if eq_bytes arg (codes "-A")
    then one (record o { action = some attach_or_create })
    else if eq_bytes arg (codes "-c")
    then one (record o { action = some create_attach })
    else if eq_bytes arg (codes "-n")
    then one (record o { action = some create })
    else if eq_bytes arg (codes "-d")
    then one (record o { action = some dump })
    else if eq_bytes arg (codes "-K")
    then one (record o { action = some send_keys })
    else if eq_bytes arg (codes "-x")
    then one (record o { literal = true })
    else if eq_bytes arg (codes "-q")
    then one (record o { quiet = true })
    else if eq_bytes arg (codes "-f")
    then one (record o { force = true })
    else if eq_bytes arg (codes "-p")
    then one (record o { passthrough = true })
    else if eq_bytes arg (codes "-r")
    then one (record o { flags = bit_or o.flags client_readonly })
    else if eq_bytes arg (codes "-l")
    then one (record o { flags = bit_or o.flags client_lowpriority })
    else if eq_bytes arg (codes "-v")
    then version
    else if eq_bytes arg (codes "-N")
    then sized (parse_size next) (λ n. two (record o { max_bytes = n }))
    else if eq_bytes arg (codes "-L")
    then sized (parse_size next) (λ n. two (record o { max_lines = n }))
    else if eq_bytes arg (codes "-e")
    then keyed next (λ key. two (record o { detach_key = parse_detach_key key }))
    else if starts_with arg (codes "-N") && ltb 2 (length arg)
    then sized (parse_size (some (drop 2 arg))) (λ n. one (record o { max_bytes = n }))
    else if starts_with arg (codes "-L") && ltb 2 (length arg)
    then sized (parse_size (some (drop 2 arg))) (λ n. one (record o { max_lines = n }))
    else usage

-- The options, the usage error, or the version line and exit status 0.
pub data Parsed : Type 0 where
  parsed : Opts → Parsed
  usage_err print_version : Parsed

-- The first positional argument is the name, and what is left is not looked at.
abbrev pub with_name : Opts → Bytes → List Bytes → Parsed
with_name o arg args = parsed (record o { name = some arg; rest = o.rest ++ args })

unfoldable pub parse_loop : List Bytes → Opts → Parsed
parse_loop [] o = parsed o
parse_loop (arg ∷ []) o = elim (parse_step arg none o) [
  | positional ↦ with_name o arg []
  | usage ↦ usage_err
  | version ↦ print_version
  | one o' ↦ parsed o'
  | two o' ↦ parsed o'
]
parse_loop (arg ∷ next ∷ args) o = elim (parse_step arg (some next) o) [
  | positional ↦ with_name o arg (next ∷ args)
  | usage ↦ usage_err
  | version ↦ print_version
  | one o' ↦ parse_loop (next ∷ args) o'
  | two o' ↦ parse_loop args o'
]

abbrev pub is_action : Action → Action → Bool
is_action attach attach = true
is_action attach_or_create attach_or_create = true
is_action create_attach create_attach = true
is_action create create = true
is_action dump dump = true
is_action send_keys send_keys = true
is_action _ _ = false

-- `opts.action == Some(a)`
abbrev pub has_action : Opts → Action → Bool
has_action o a = elim o.action [ none ↦ false | some b ↦ is_action b a ]

-- The five tests behind the loop.
unfoldable pub check_opts : Opts → Parsed
check_opts o =
    let bytes_given = not (o.max_bytes == 0) in
    let lines_given = not (o.max_lines == 0) in
    if bytes_given && lines_given
    then usage_err
    else if not (has_action o dump) && (bytes_given || lines_given)
    then usage_err
    else if not (has_action o send_keys) && o.literal
    then usage_err
    else if has_action o dump && not (is_empty o.rest)
    then usage_err
    else if has_action o send_keys && is_empty o.rest
    then usage_err
    else parsed o

abbrev pub then_check : Parsed → Parsed
then_check (parsed o) = check_opts o
then_check usage_err = usage_err
then_check print_version = print_version

unfoldable pub parse_args : List Bytes → Parsed
parse_args args = then_check (parse_loop args default_opts)
