-- ===== src/Attach/Exit.antt =====
-- What reaches the user of the attach client in src/main.rs: the output, and the exit status.
use mathlib.Core.List.{map}
use abduco_inline.Prelude.{
  ℕ, ◌^◌, ◌≤◌, ◌<◌, ◌≡◌, refl, sym, ap, ◌∙◌, List, [], ◌∷◌, ◌++◌, append-nil, append_assoc, length,
  concat, true, false, arith, All, none, ok,
}
use abduco_inline.Prelude.Bytes.{Bytes, from-to_ne_bytes}
use abduco_inline.Protocol.{packet_bytes, max_payload, read_u32}
use abduco_inline.Protocol.Framing.{recv_packet_blocking-packet_bytes}
use abduco_inline.Protocol.Loop.{encode_all}
use abduco_inline.Stream.{write_loop, send_packet_blocking}
use abduco_inline.Server.Client.{content}
use abduco_inline.Server.Packets.Delivery.{TakesAll, write_loop-Passed}
use abduco_inline.Server.Tick.{exit_packet}
use abduco_inline.Cli.Task.{AttachOpts}
use abduco_inline.Attach.{
  Wake, Terminal, Progress, again, returned, exited, print, handle_server_packet, read_socket,
  client_step, client_loop, ready,
}

-- The socket is ready, and stdin is not.
abbrev pub FromSocket : Wake → Type 0
FromSocket w = w.event ≡ ready true none

-- The terminal behind the output `d`.
abbrev printed : Bytes → Bytes → Terminal → Terminal
printed d rest s =
    let w = write_loop s.stdout.writes d s.stdout.wire in
    record s { incoming = rest; stdout = record (s.stdout) { wire = w.wire; writes = w.writes } }

content_step :
    (o : AttachOpts) (w : Wake) (d rest : Bytes) (s : Terminal)
    → o.passthrough ≡ false
    → FromSocket w
    → s.incoming ≡ packet_bytes (content d) ++ rest
    → length d ≤ max_payload
    → All TakesAll s.stdout.writes
    → 0 < length s.stdout.writes
    → client_step o w.winsize w.event s ≡ again (printed d rest s)
unfolding client_step read_socket handle_server_packet print
content_step o w d rest s show ev e fits takes pos =
    let received = recv_packet_blocking-packet_bytes (content d) rest (omega arith) in
    let done = write_loop-Passed s.stdout.writes d s.stdout.wire takes pos fits in
    ground (arith, received, done.complete)

exit_step :
    (o : AttachOpts) (w : Wake) (status : ℕ) (rest : Bytes) (s : Terminal)
    → FromSocket w
    → s.incoming ≡ packet_bytes (exit_packet status) ++ rest
    → status < 2 ^ 32
    → client_step o w.winsize w.event s
      ≡ returned (ok (exited status)) (record s {
        incoming = rest;
        stream = (send_packet_blocking s.stream (exit_packet status)).1;
      })
unfolding client_step read_socket handle_server_packet read_u32 exit_packet
exit_step o w status rest s ev e lt =
    let received = recv_packet_blocking-packet_bytes (exit_packet status) rest (omega arith) in
    let code = from-to_ne_bytes status lt in ground (arith, received, code)

-- The loop goes on with what a round gives.
abbrev continue : AttachOpts → List Wake → Progress → Progress
continue o ws p = elim p [ again s ↦ client_loop o ws s | returned r s ↦ returned r s ]

-- The attach client prints all output that comes before the exit packet, in its order, and returns with
-- the status that the packet carries, where it is not in pass-through mode, its terminal takes each
-- payload at once, and all that wakes it is the socket, as often as packets come.
pub output_and_exit_status_arrive :
    (o : AttachOpts) (ds : List Bytes) (status : ℕ) (rest : Bytes) (wakes : List Wake)
    (s : Terminal)
    → o.passthrough ≡ false
    → s.incoming ≡ encode_all (map content ds) ++ (packet_bytes (exit_packet status) ++ rest)
    → All (λ d. length d ≤ max_payload) ds
    → status < 2 ^ 32
    → All TakesAll s.stdout.writes
    → length ds ≤ length s.stdout.writes
    → All FromSocket wakes
    → length ds < length wakes
    → (s' : Terminal) × (client_loop o wakes s ≡ returned (ok (exited status)) s')
      × (s'.stdout.wire ≡ s.stdout.wire ++ concat ds)
unfolding client_loop
output_and_exit_status_arrive o ds status rest [] s show e fits lt takes enough from woken =
    absurd (omega arith)
output_and_exit_status_arrive o [] status rest (w ∷ ws) s show e fits lt takes enough (f, from)
      woken =
    let step = exit_step o w status rest s f e lt in
    (_, ap (λ (p : Progress). continue o ws p) step, sym (append-nil s.stdout.wire))
output_and_exit_status_arrive o (d ∷ ds) status rest (w ∷ ws) s show e (fit, fits) lt takes enough
      (f, from) woken =
    let behind = encode_all (map content ds) ++ (packet_bytes (exit_packet status) ++ rest) in
    let e' = e ∙ append_assoc (packet_bytes (content d)) (encode_all (map content ds)) _ in
    let step = content_step o w d behind s show f e' fit takes (omega arith) in
    let done = write_loop-Passed s.stdout.writes d s.stdout.wire takes (omega arith) fit in
    let (s', loop, out) =
      output_and_exit_status_arrive o ds status rest ws (printed d behind s) show refl fits lt
        done.answers (omega (arith, done.left)) from (omega arith) in
    (
      s',
      ap (λ (p : Progress). continue o ws p) step ∙ loop,
      out
          ∙ ap (λ (b : Bytes). b ++ concat ds) done.bytes
          ∙ append_assoc s.stdout.wire d (concat ds),
    )
