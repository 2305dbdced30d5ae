-- ===== src/Cli/Written.antt =====
-- A command line for every consistent request, as `parse_args` of src/main.rs reads it.
use abduco_inline.Prelude.{
  ℕ, ◌^◌, ◌<◌, ◌≡◌, refl, ap, ◌∙◌, List, [], ◌∷◌, ◌++◌, is_empty, if◌then◌else◌, Bool, true, false,
  ◌&&◌, ◌||◌, not, Option, none, some, arith, bit_or, ◌⊎◌, ◌≢◌, inl, inr,
}
use abduco_inline.Prelude.Bytes.{Bytes}
use abduco_inline.Prelude.Decimal.{decimal, parse_uint-decimal}
use abduco_inline.Prelude.Text.{codes, eq_bytes, starts_with}
use abduco_inline.Server.Packets.{client_readonly}
use abduco_inline.Cli.Accepted.{IsConsistent}
use abduco_inline.Cli.{
  Action, attach, attach_or_create, create_attach, create, dump, send_keys, Opts, default_opts,
  parsed, has_action, parse_loop, parse_step, check_opts, then_check, parse_args, parse_size,
  parse_detach_key, one, two, positional, client_lowpriority,
}
use abduco_inline.Cli.Request.{Request, flag, action_args, args_of, flags_of, opts_of}

one_lem :
    (arg : Bytes) (args : List Bytes) (o o' : Opts)
    → ((next : Option Bytes) → parse_step arg next o ≡ one o')
    → parse_loop (arg ∷ args) o ≡ parse_loop args o'
unfolding parse_loop
one_lem arg [] o o' h = ground (arith, h none)
one_lem arg (next ∷ args) o o' h = ground (arith, h (some next))

two_lem :
    (arg next : Bytes) (args : List Bytes) (o o' : Opts)
    → parse_step arg (some next) o ≡ two o'
    → parse_loop (arg ∷ next ∷ args) o ≡ parse_loop args o'
unfolding parse_loop
two_lem arg next args o o' h = ground (arith, h)

action_lem :
    (action : Option Action) (args : List Bytes)
    → parse_loop (action_args action ++ args) default_opts
      ≡ parse_loop args (record default_opts { action = action })
unfolding parse_step
action_lem none args = refl
action_lem (some attach) args = one_lem (codes "-a") args default_opts _ (λ next. refl)
action_lem (some attach_or_create) args = one_lem (codes "-A") args default_opts _ (λ next. refl)
action_lem (some create_attach) args = one_lem (codes "-c") args default_opts _ (λ next. refl)
action_lem (some create) args = one_lem (codes "-n") args default_opts _ (λ next. refl)
action_lem (some dump) args = one_lem (codes "-d") args default_opts _ (λ next. refl)
action_lem (some send_keys) args = one_lem (codes "-K") args default_opts _ (λ next. refl)

-- An argument that stands there or not, and sets a field to `b`.
flag_lem :
    (b : Bool) (arg : Bytes) (args : List Bytes) (set : Bool → Opts)
    → ((next : Option Bytes) → parse_step arg next (set false) ≡ one (set true))
    → parse_loop (flag b arg ++ args) (set false) ≡ parse_loop args (set b)
flag_lem true arg args set h = one_lem arg args (set false) (set true) h
flag_lem false arg args set h = refl

bytes_lem :
    (n : ℕ) (args : List Bytes) (o : Opts)
    → n < 2 ^ 64
    → parse_loop (codes "-N" ∷ decimal n ∷ args) o ≡ parse_loop args (record o { max_bytes = n })
unfolding parse_step parse_size
bytes_lem n args o lt =
    two_lem (codes "-N") (decimal n) args o _ (ground (arith, parse_uint-decimal (2 ^ 64) n lt))

lines_lem :
    (n : ℕ) (args : List Bytes) (o : Opts)
    → n < 2 ^ 64
    → parse_loop (codes "-L" ∷ decimal n ∷ args) o ≡ parse_loop args (record o { max_lines = n })
unfolding parse_step parse_size
lines_lem n args o lt =
    two_lem (codes "-L") (decimal n) args o _ (ground (arith, parse_uint-decimal (2 ^ 64) n lt))

key_lem :
    (key : ℕ) (args : List Bytes) (o : Opts)
    → parse_loop (codes "-e" ∷ (key ∷ []) ∷ args) o
      ≡ parse_loop args (record o { detach_key = key })
unfolding parse_step parse_detach_key
key_lem key args o = two_lem (codes "-e") (key ∷ []) args o _ (ground arith)

-- A name that is no option.
abbrev pub is_name : Bytes → Bool
is_name name = not (starts_with name (codes "-")) || eq_bytes name (codes "-")

name_step :
    (name : Bytes) (next : Option Bytes) (o : Opts)
    → is_name name ≡ true
    → parse_step name next o ≡ positional
unfolding parse_step
name_step name next o h = rw (parse_step, h) refl

name_lem :
    (name : Bytes) (rest : List Bytes) (o : Opts)
    → is_name name ≡ true
    → o.rest ≡ []
    → parse_loop (name ∷ rest) o ≡ parsed (record o { name = some name; rest = rest })
unfolding parse_loop
name_lem name [] o h e = ground (arith, name_step name none o h, e)
name_lem name (next ∷ rest) o h e = ground (arith, name_step name (some next) o h, e)

keys_step :
    (keys : Bool) (rest : List Bytes)
    → (keys ≡ false) ⊎ (rest ≢ [])
    → (keys && is_empty rest) ≡ false
keys_step false rest h = refl
keys_step true [] (inl h) = cc
keys_step true [] (inr h) = absurd (h refl)
keys_step true (r ∷ rest) h = refl

-- Consistent options pass the tests behind the loop.
check_opts-of_IsConsistent : (o : Opts) → IsConsistent o → check_opts o ≡ parsed o
unfolding check_opts
check_opts-of_IsConsistent o v =
    let keys = keys_step (has_action o send_keys) o.rest v.keys_given in
    ground (arith, v.one_limit, v.limits_dump, v.literal_keys, v.dump_alone, keys)

-- The options through the flags that stand alone.
flags_lem :
    (q : Request) (args : List Bytes)
    → parse_loop
        (flag q.literal (codes "-x")
          ++ (flag q.readonly (codes "-r")
              ++ (flag q.lowpriority (codes "-l")
                  ++ (flag q.quiet (codes "-q")
                      ++ (flag q.force (codes "-f")
                          ++ (flag q.passthrough (codes "-p") ++ args))))))
        (record default_opts { action = q.action })
      ≡ parse_loop args (record default_opts {
        action = q.action;
        literal = q.literal;
        flags = flags_of q.readonly q.lowpriority;
        quiet = q.quiet;
        force = q.force;
        passthrough = q.passthrough;
      })
unfolding parse_step
flags_lem q args =
    let o1 : Opts = record default_opts { action = q.action } in
    let o2 : Opts = record o1 { literal = q.literal } in
    let r : ℕ = if q.readonly then bit_or 0 client_readonly else 0 in
    let o3 : Opts = record o2 { flags = r } in
    let o4 : Opts = record o3 { flags = flags_of q.readonly q.lowpriority } in
    let o5 : Opts = record o4 { quiet = q.quiet } in
    let o6 : Opts = record o5 { force = q.force } in
    flag_lem q.literal (codes "-x") _ (λ b. record o1 { literal = b }) (λ next. refl)
    ∙ flag_lem q.readonly (codes "-r") _
        (λ b. record o2 { flags = if b then bit_or 0 client_readonly else 0 }) (λ next. refl)
    ∙ flag_lem q.lowpriority (codes "-l") _
        (λ b. record o3 { flags = if b then bit_or r client_lowpriority else r }) (λ next. refl)
    ∙ flag_lem q.quiet (codes "-q") _ (λ b. record o4 { quiet = b }) (λ next. refl)
    ∙ flag_lem q.force (codes "-f") _ (λ b. record o5 { force = b }) (λ next. refl)
    ∙ flag_lem q.passthrough (codes "-p") _ (λ b. record o6 { passthrough = b }) (λ next. refl)

-- Every consistent request can be written as a command line, and is read back from it: its limits are
-- u64 values, and its name is no option.
pub parse_args-args_of :
    (q : Request)
    → IsConsistent (opts_of q)
    → q.max_bytes < 2 ^ 64
    → q.max_lines < 2 ^ 64
    → is_name q.name ≡ true
    → parse_args (args_of q) ≡ parsed (opts_of q)
unfolding parse_args
parse_args-args_of q v bytes lines named =
    let o : Opts = record (opts_of q) {
      name = none;
      rest = [];
      max_bytes = 0;
      max_lines = 0;
      detach_key = 0x1c;
    } in
    let o1 : Opts = record o { max_bytes = q.max_bytes } in
    let o2 : Opts = record o1 { max_lines = q.max_lines } in
    let o3 : Opts = record o2 { detach_key = q.detach_key } in
    let loop : parse_loop (args_of q) default_opts ≡ parsed (opts_of q) =
      action_lem q.action _
      ∙ flags_lem q _
      ∙ bytes_lem q.max_bytes _ o bytes
      ∙ lines_lem q.max_lines _ o1 lines
      ∙ key_lem q.detach_key _ o2
      ∙ name_lem q.name q.rest o3 named refl in
    ap then_check loop ∙ check_opts-of_IsConsistent (opts_of q) v
