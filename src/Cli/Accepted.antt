-- ===== src/Cli/Accepted.antt =====
-- What the command line of src/main.rs accepts.
use abduco_inline.Prelude.{
  ◌≡◌, ◌≢◌, refl, subst, List, [], ◌∷◌, is_empty, Bool, true, false, ◌&&◌, none, some, arith, ◌⊎◌,
  inl, inr,
}
use abduco_inline.Prelude.Bytes.{Bytes}
use abduco_inline.Cli.{
  dump, send_keys, Opts, Parsed, parsed, usage_err, print_version, parse_loop, check_opts,
  then_check, with_name, parse_args, default_opts, has_action, Step, one, two, positional, usage,
  version,
}
use abduco_inline.Cli.Ranges.{InRange, StepInRange, one-InRange, two-InRange, parse_step-InRange}

-- What holds of the options that the command line accepts.
pub record IsConsistent (o : Opts) : Type 0 where
  pub one_limit : (o.max_bytes ≡ 0) ⊎ (o.max_lines ≡ 0)
  pub limits_dump : ((o.max_bytes ≡ 0) × (o.max_lines ≡ 0)) ⊎ (o.action ≡ some dump)
  pub literal_keys : (o.literal ≡ false) ⊎ (o.action ≡ some send_keys)
  pub dump_alone : (has_action o dump ≡ false) ⊎ (o.rest ≡ [])
  pub keys_given : (has_action o send_keys ≡ false) ⊎ (o.rest ≢ [])

check_opts-same : (o o' : Opts) → check_opts o ≡ parsed o' → o ≡ o'
unfolding check_opts
check_opts-same o o' h = ground arith

keys_given_lem :
    (keys : Bool) (rest : List Bytes)
    → (keys && is_empty rest) ≡ false
    → (keys ≡ false) ⊎ (rest ≢ [])
keys_given_lem false rest h = inl refl
keys_given_lem true [] h = cc
keys_given_lem true (r ∷ rest) h = inr (λ e. cc)

check_opts-IsConsistent : (o o' : Opts) → check_opts o ≡ parsed o' → IsConsistent o
unfolding check_opts
check_opts-IsConsistent o o' h = record {
  one_limit = ground arith;
  limits_dump = ground arith;
  literal_keys = ground arith;
  dump_alone = ground arith;
  keys_given = keys_given_lem (has_action o send_keys) o.rest (ground arith);
}

then_check-IsConsistent : (p : Parsed) (o : Opts) → then_check p ≡ parsed o → IsConsistent o
then_check-IsConsistent (parsed o') o h =
    subst IsConsistent (check_opts-same o' o h) (check_opts-IsConsistent o' o h)
then_check-IsConsistent usage_err o h = cc
then_check-IsConsistent print_version o h = cc

-- The options that a parse gives are in range.
data ParsedInRange : Parsed → Type 0 where
  parsed-InRange : (o : Opts) → InRange o → ParsedInRange (parsed o)
  usage_err-InRange : ParsedInRange usage_err
  print_version-InRange : ParsedInRange print_version

last_step-InRange :
    (arg : Bytes) (o : Opts) (step : Step)
    → InRange o
    → StepInRange step
    → let p : Parsed = elim step [
      | positional ↦ with_name o arg []
      | usage ↦ usage_err
      | version ↦ print_version
      | one o' ↦ parsed o'
      | two o' ↦ parsed o'
    ] in
      ParsedInRange p
last_step-InRange arg o positional v s =
    parsed-InRange _
      (record { max_bytes_fits = v.max_bytes_fits; max_lines_fits = v.max_lines_fits })
last_step-InRange arg o usage v s = usage_err-InRange
last_step-InRange arg o version v s = print_version-InRange
last_step-InRange arg o (one o') v (one-InRange _ b l) =
    parsed-InRange o' (record { max_bytes_fits = b; max_lines_fits = l })
last_step-InRange arg o (two o') v (two-InRange _ b l) =
    parsed-InRange o' (record { max_bytes_fits = b; max_lines_fits = l })

next_step-InRange :
    (arg next : Bytes) (args : List Bytes) (o : Opts) (step : Step)
    → InRange o
    → StepInRange step
    → ((o' : Opts) → InRange o' → ParsedInRange (parse_loop (next ∷ args) o'))
    → ((o' : Opts) → InRange o' → ParsedInRange (parse_loop args o'))
    → let p : Parsed = elim step [
      | positional ↦ with_name o arg (next ∷ args)
      | usage ↦ usage_err
      | version ↦ print_version
      | one o' ↦ parse_loop (next ∷ args) o'
      | two o' ↦ parse_loop args o'
    ] in
      ParsedInRange p
next_step-InRange arg next args o positional v s after_one after_two =
    parsed-InRange _
      (record { max_bytes_fits = v.max_bytes_fits; max_lines_fits = v.max_lines_fits })
next_step-InRange arg next args o usage v s after_one after_two = usage_err-InRange
next_step-InRange arg next args o version v s after_one after_two = print_version-InRange
next_step-InRange arg next args o (one o') v (one-InRange _ b l) after_one after_two =
    after_one o' (record { max_bytes_fits = b; max_lines_fits = l })
next_step-InRange arg next args o (two o') v (two-InRange _ b l) after_one after_two =
    after_two o' (record { max_bytes_fits = b; max_lines_fits = l })

parse_loop-InRange : (args : List Bytes) (o : Opts) → InRange o → ParsedInRange (parse_loop args o)
unfolding parse_loop
parse_loop-InRange [] o v = parsed-InRange o v
parse_loop-InRange (arg ∷ []) o v = last_step-InRange arg o _ v (parse_step-InRange arg none o v)
parse_loop-InRange (arg ∷ next ∷ args) o v =
    next_step-InRange arg next args o _ v (parse_step-InRange arg (some next) o v)
      (parse_loop-InRange (next ∷ args)) (parse_loop-InRange args)

then_check_sound :
    (p : Parsed) (o : Opts) → ParsedInRange p → then_check p ≡ parsed o → IsConsistent o × InRange o
then_check_sound (parsed o') o (parsed-InRange o'' v) h =
    (then_check-IsConsistent (parsed o') o h, subst InRange (check_opts-same o' o h) v)
then_check_sound usage_err o v h = cc
then_check_sound print_version o v h = cc

-- The options that the command line accepts are consistent: at most one limit, a limit only for a
-- dump, the literal mode only for keys, nothing behind the name of a dump, and keys behind the name
-- for keys. Their limits are u64 values.
pub parse_args_sound :
    (args : List Bytes) (o : Opts) → parse_args args ≡ parsed o → IsConsistent o × InRange o
unfolding parse_args
parse_args_sound args o h =
    then_check_sound (parse_loop args default_opts) o
      (parse_loop-InRange args default_opts (omega arith)) h
