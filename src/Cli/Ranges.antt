-- ===== src/Cli/Ranges.antt =====
-- The ranges of the limits through the arms of `parse_args` in src/main.rs.
use abduco_inline.Prelude.{
  ℕ, ◌^◌, drop, ltb, Option-cases, ◌<◌, ◌≡◌, length, if◌then◌else◌, Bool, true, false, ◌&&◌, ◌||◌,
  not, Option, none, some, arith, inl, inr, bit_or,
}
use abduco_inline.Prelude.Bytes.{Bytes}
use abduco_inline.Prelude.Decimal.{parse_uint-lt}
use abduco_inline.Prelude.Text.{codes, eq_bytes, starts_with}
use abduco_inline.Server.Packets.{client_readonly}
use abduco_inline.Cli.{
  attach, attach_or_create, create_attach, create, dump, send_keys, Opts, parse_detach_key,
  parse_size, parse_step, Step, one, two, sized, positional, usage, version, keyed,
  client_lowpriority,
}

-- What every round of the loop keeps.
pub record InRange (o : Opts) : Type 0 where
  pub max_bytes_fits : o.max_bytes < 2 ^ 64
  pub max_lines_fits : o.max_lines < 2 ^ 64

parse_size-lt : (v : Option Bytes) (n : ℕ) → parse_size v ≡ some n → n < 2 ^ 64
unfolding parse_size
parse_size-lt none n h = cc
parse_size-lt (some value) n h = parse_uint-lt (2 ^ 64) value n (omega arith) h

-- The options that a step goes on with are in range.
pub data StepInRange : Step → Type 0 where
  positional-InRange : StepInRange positional
  usage-InRange : StepInRange usage
  version-InRange : StepInRange version
  one-InRange : (o : Opts) → o.max_bytes < 2 ^ 64 → o.max_lines < 2 ^ 64 → StepInRange (one o)
  two-InRange : (o : Opts) → o.max_bytes < 2 ^ 64 → o.max_lines < 2 ^ 64 → StepInRange (two o)

sized-InRange :
    (v : Option Bytes) (step : ℕ → Step)
    → ((n : ℕ) → n < 2 ^ 64 → StepInRange (step n))
    → StepInRange (sized (parse_size v) step)
sized-InRange v step keeps = elim (Option-cases (parse_size v)) [
  | inl e ↦ rw e usage-InRange
  | inr (n, e) ↦ rw e (keeps n (parse_size-lt v n e))
]

keyed-InRange :
    (next : Option Bytes) (step : Bytes → Step)
    → ((key : Bytes) → StepInRange (step key))
    → StepInRange (keyed next step)
keyed-InRange none step keeps = usage-InRange
keyed-InRange (some key) step keeps = keeps key

branch : (b : Bool) {x y : Step} → StepInRange x → StepInRange y → StepInRange (if b then x else y)
branch true hx hy = hx
branch false hx hy = hy

pub parse_step-InRange :
    (arg : Bytes) (next : Option Bytes) (o : Opts) → InRange o → StepInRange (parse_step arg next o)
unfolding parse_step
parse_step-InRange arg next o v =
    branch (not (starts_with arg (codes "-")) || eq_bytes arg (codes "-")) positional-InRange (
      branch (eq_bytes arg (codes "-a"))
        (one-InRange (record o { action = some attach }) v.max_bytes_fits v.max_lines_fits)
        (branch (eq_bytes arg (codes "-A"))
          (one-InRange (record o { action = some attach_or_create }) v.max_bytes_fits
            v.max_lines_fits)
          (branch (eq_bytes arg (codes "-c"))
            (one-InRange (record o { action = some create_attach }) v.max_bytes_fits
              v.max_lines_fits)
            (branch (eq_bytes arg (codes "-n"))
              (one-InRange (record o { action = some create }) v.max_bytes_fits v.max_lines_fits)
              (branch (eq_bytes arg (codes "-d"))
                (one-InRange (record o { action = some dump }) v.max_bytes_fits v.max_lines_fits)
                (branch (eq_bytes arg (codes "-K"))
                  (one-InRange (record o { action = some send_keys }) v.max_bytes_fits
                    v.max_lines_fits)
                  (branch (eq_bytes arg (codes "-x"))
                    (one-InRange (record o { literal = true }) v.max_bytes_fits v.max_lines_fits)
                    (branch (eq_bytes arg (codes "-q"))
                      (one-InRange (record o { quiet = true }) v.max_bytes_fits v.max_lines_fits)
                      (branch (eq_bytes arg (codes "-f"))
                        (one-InRange (record o { force = true }) v.max_bytes_fits v.max_lines_fits)
                        (branch (eq_bytes arg (codes "-p"))
                          (one-InRange (record o { passthrough = true }) v.max_bytes_fits
                            v.max_lines_fits)
                          (branch (eq_bytes arg (codes "-r"))
                            (one-InRange (record o { flags = bit_or o.flags client_readonly })
                              v.max_bytes_fits v.max_lines_fits)
                            (branch (eq_bytes arg (codes "-l"))
                              (one-InRange (record o { flags = bit_or o.flags client_lowpriority })
                                v.max_bytes_fits v.max_lines_fits)
                              (branch (eq_bytes arg (codes "-v")) version-InRange (
                                branch (eq_bytes arg (codes "-N"))
                                  (sized-InRange next (λ n. two (record o { max_bytes = n }))
                                    (λ n h.
                                      two-InRange (record o { max_bytes = n }) h v.max_lines_fits))
                                  (branch (eq_bytes arg (codes "-L"))
                                    (sized-InRange next (λ n. two (record o { max_lines = n }))
                                      (λ n h.
                                        two-InRange (record o { max_lines = n }) v.max_bytes_fits
                                          h))
                                    (branch (eq_bytes arg (codes "-e"))
                                      (keyed-InRange next
                                        (λ key.
                                          two (record o { detach_key = parse_detach_key key }))
                                        (λ key.
                                          two-InRange
                                            (record o { detach_key = parse_detach_key key })
                                            v.max_bytes_fits v.max_lines_fits))
                                      (branch (starts_with arg (codes "-N") && ltb 2 (length arg))
                                        (sized-InRange (some (drop 2 arg))
                                          (λ n. one (record o { max_bytes = n }))
                                          (λ n h.
                                            one-InRange (record o { max_bytes = n }) h
                                              v.max_lines_fits))
                                        (branch (starts_with arg (codes "-L") && ltb 2 (length arg))
                                          (sized-InRange (some (drop 2 arg))
                                            (λ n. one (record o { max_lines = n }))
                                            (λ n h.
                                              one-InRange (record o { max_lines = n })
                                                v.max_bytes_fits h))
                                          (usage-InRange)))))))))))))))))))
