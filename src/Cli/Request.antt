-- ===== src/Cli/Request.antt =====
-- What a user of src/main.rs can ask for, and a command line that asks for it.
use abduco_inline.Prelude.{
  ℕ, List, [], ◌∷◌, ◌++◌, if◌then◌else◌, Bool, true, false, Option, none, some, bit_or,
}
use abduco_inline.Prelude.Bytes.{Bytes}
use abduco_inline.Prelude.Decimal.{decimal}
use abduco_inline.Prelude.Text.{codes}
use abduco_inline.Server.Packets.{client_readonly}
use abduco_inline.Cli.{
  Action, attach, attach_or_create, create_attach, create, dump, send_keys, Opts,
  client_lowpriority,
}

-- What a user asks for.
pub record Request : Type 0 where
  pub action : Option Action
  pub name : Bytes
  pub rest : List Bytes
  pub literal : Bool
  pub max_bytes : ℕ
  pub max_lines : ℕ
  pub readonly : Bool
  pub lowpriority : Bool
  pub quiet : Bool
  pub force : Bool
  pub passthrough : Bool
  pub detach_key : ℕ

-- One argument where `b` holds.
abbrev pub flag : Bool → Bytes → List Bytes
flag true arg = arg ∷ []
flag false arg = []

abbrev pub action_args : Option Action → List Bytes
action_args none = []
action_args (some attach) = codes "-a" ∷ []
action_args (some attach_or_create) = codes "-A" ∷ []
action_args (some create_attach) = codes "-c" ∷ []
action_args (some create) = codes "-n" ∷ []
action_args (some dump) = codes "-d" ∷ []
action_args (some send_keys) = codes "-K" ∷ []

-- The arguments that ask for it.
abbrev pub args_of : Request → List Bytes
args_of q =
    action_args q.action
    ++ (flag q.literal (codes "-x")
        ++ (flag q.readonly (codes "-r")
            ++ (flag q.lowpriority (codes "-l")
                ++ (flag q.quiet (codes "-q")
                    ++ (flag q.force (codes "-f")
                        ++ (flag q.passthrough (codes "-p")
                            ++ (codes "-N"
                                ∷ decimal q.max_bytes
                                ∷ codes "-L"
                                ∷ decimal q.max_lines
                                ∷ codes "-e"
                                ∷ (q.detach_key ∷ [])
                                ∷ q.name
                                ∷ q.rest)))))))

-- The flags of the attach request.
abbrev pub flags_of : Bool → Bool → ℕ
flags_of readonly lowpriority =
    let r = if readonly then bit_or 0 client_readonly else 0 in
    if lowpriority then bit_or r client_lowpriority else r

abbrev pub opts_of : Request → Opts
opts_of q = record {
  action = q.action;
  name = some q.name;
  rest = q.rest;
  literal = q.literal;
  max_bytes = q.max_bytes;
  max_lines = q.max_lines;
  flags = flags_of q.readonly q.lowpriority;
  quiet = q.quiet;
  force = q.force;
  passthrough = q.passthrough;
  detach_key = q.detach_key;
}
