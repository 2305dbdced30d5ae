-- ===== src/Cli/Tests.antt =====
-- Runs of the command line of src/main.rs.
use abduco_inline.Cli.Request.{Request, opts_of}
use abduco_inline.Cli.Written.{parse_args-args_of}
use abduco_inline.Prelude.{inl, inr, List, false, arith, ◌≡◌, refl, [], ◌∷◌, true, none, some}
use abduco_inline.Prelude.Decimal.{decimal, digits_loop, parse_uint, parse_digits}
use abduco_inline.Prelude.Bytes.{Bytes}
use abduco_inline.Prelude.Text.{codes}
use abduco_inline.Cli.{
  dump, Opts, default_opts, parsed, usage_err, parse_step, parse_size, parse_loop, check_opts,
  parse_args,
}
use abduco_inline.Cli.Task.{Env}
use abduco_inline.Cli.Accepted.{IsConsistent, parse_args_sound}
use abduco_inline.Cli.Ranges.{InRange}

abbrev dump_opts : Opts
dump_opts = record default_opts { action = some dump; name = some (codes "work"); max_lines = 20 }

dump_command : parse_args (codes "-d" ∷ codes "-L20" ∷ codes "work" ∷ []) ≡ parsed dump_opts
unfolding parse_args parse_loop parse_step parse_size parse_uint parse_digits check_opts
dump_command = refl

both_limits :
    parse_args (codes "-d" ∷ codes "-L" ∷ codes "2" ∷ codes "-N1" ∷ codes "work" ∷ []) ≡ usage_err
unfolding parse_args parse_loop parse_step parse_size parse_uint parse_digits check_opts
both_limits = refl

parse_args_sound_example : IsConsistent dump_opts × InRange dump_opts
parse_args_sound_example =
    parse_args_sound (codes "-d" ∷ codes "-L20" ∷ codes "work" ∷ []) dump_opts dump_command

abbrev no_env : Env
no_env = record { abduco_cmd = none; shell = none }

abbrev named : Opts
named = record default_opts { name = some (codes "work") }

abbrev last_lines : Request
last_lines = record {
  action = some dump;
  name = codes "work";
  rest = [];
  literal = false;
  max_bytes = 0;
  max_lines = 20;
  readonly = true;
  lowpriority = false;
  quiet = true;
  force = false;
  passthrough = false;
  detach_key = 0x1c;
}

abbrev written_last_lines : List Bytes
written_last_lines =
    codes "-d"
    ∷ codes "-r"
    ∷ codes "-q"
    ∷ codes "-N"
    ∷ codes "0"
    ∷ codes "-L"
    ∷ codes "20"
    ∷ codes "-e"
    ∷ (0x1c ∷ [])
    ∷ codes "work"
    ∷ []

parse_args-args_of_example : parse_args written_last_lines ≡ parsed (opts_of last_lines)
unfolding decimal digits_loop
parse_args-args_of_example =
    parse_args-args_of last_lines
      (record {
        one_limit = inl refl;
        limits_dump = inr refl;
        literal_keys = inl refl;
        dump_alone = inr refl;
        keys_given = inl refl;
      })
      (omega arith) (omega arith) refl
