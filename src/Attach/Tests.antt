-- ===== src/Attach/Tests.antt =====
-- Runs of the attach client of src/main.rs.
use mathlib.Core.List.{map}
use abduco_inline.Prelude.{
  ◌≡◌, refl, List, [], ◌∷◌, ◌++◌, true, false, none, some, interrupted, would_block,
}
use abduco_inline.Prelude.Bytes.{Bytes}
use abduco_inline.Protocol.{packet_bytes}
use abduco_inline.Protocol.Loop.{encode_all}
use abduco_inline.Stream.{
  ReadAnswer, read_ok, read_failed, wrote, write_failed, write_loop, send_packet_blocking,
}
use abduco_inline.History.{History}
use abduco_inline.Server.Client.{Client, content}
use abduco_inline.Server.Client.Outbound.{committed}
use abduco_inline.Server.Packets.{Pty}
use abduco_inline.Server.Tick.{Os, Accepted, new_client, exit_packet, queue_exit}
use abduco_inline.Cli.Task.{AttachOpts}
use abduco_inline.Attach.{
  read_stdin, Winsize, Wake, ready, select_interrupted, Terminal, again, resize_packet,
  detach_packet, send_then, client_step, client_loop,
}
use abduco_inline.Attach.Whole.{served}
use abduco_inline.Attach.Sends.{SendsNoInput}
use abduco_inline.Attach.Readonly.{terminal_of, readonly_client_sends_no_input}

abbrev plain : AttachOpts
plain = record { flags = 0; quiet = false; passthrough = false; detach_key = 0x1c }

abbrev screen : Winsize
screen = record { rows = 24; cols = 80 }

abbrev from_socket : Wake
from_socket = record { event = ready true none; winsize = screen }

abbrev idle : Terminal
idle = record {
  stream = record { wire = []; writes = wrote 100 ∷ []; reads = [] };
  incoming = [];
  stdout = record { wire = []; writes = wrote 4096 ∷ wrote 4096 ∷ []; reads = [] };
}

abbrev printed_pieces : List Bytes
printed_pieces = (111 ∷ []) ∷ (107 ∷ 10 ∷ []) ∷ []

abbrev ending : Terminal
ending = record idle {
  incoming = encode_all (map content printed_pieces) ++ (packet_bytes (exit_packet 3) ++ []);
}

a_resize_is_sent :
    client_step plain screen (select_interrupted true) idle
    ≡ again (record idle {
      stream = record { wire = packet_bytes (resize_packet screen); writes = []; reads = [] };
    })
unfolding client_step send_then send_packet_blocking write_loop packet_bytes
a_resize_is_sent = refl

abbrev held : Client
held = record (new_client (record { wire = []; writes = []; reads = [] })) {
  buf = (send_packet_blocking idle.stream detach_packet).1.wire;
}

abbrev no_history : History
no_history = record { bytes = [] }

abbrev quiet_pty : Pty
quiet_pty = record { written = []; writes = []; reads = []; calls = [] }

abbrev watching : AttachOpts
watching = record plain { flags = 1 }

abbrev typed_then_resized : List Wake
typed_then_resized =
    record { event = ready false (some (read_ok (108 ∷ 115 ∷ []))); winsize = screen }
    ∷ record { event = select_interrupted true; winsize = screen }
    ∷ []

only_the_resize_is_sent :
    (terminal_of (client_loop watching typed_then_resized idle)).stream.wire
    ≡ packet_bytes (resize_packet screen)
unfolding client_loop client_step read_stdin send_then send_packet_blocking write_loop packet_bytes
only_the_resize_is_sent = refl

readonly_client_sends_no_input_example :
    SendsNoInput [] (terminal_of (client_loop watching typed_then_resized idle))
readonly_client_sends_no_input_example =
    readonly_client_sends_no_input watching typed_then_resized idle refl

abbrev linux : Os
linux = record {
  pid = 4711;
  wifexited = λ n. true;
  wexitstatus = λ n. 0;
  wifsignaled = λ n. false;
  wtermsig = λ n. 0;
}

-- A connection that takes the pid packet, a little more, and then nothing.
abbrev connection : Accepted
connection = record {
  stream = record {
    wire = [];
    writes = wrote 16 ∷ wrote 3 ∷ write_failed would_block ∷ [];
    reads = [];
  };
  nonblocking = true;
}

abbrev prompt : History
prompt = record { bytes = 36 ∷ 32 ∷ [] }

abbrev typing : List ReadAnswer
typing = read_ok (111 ∷ []) ∷ read_failed interrupted ∷ read_ok (107 ∷ 10 ∷ []) ∷ []

-- The terminal of a client to which all of it has come.
abbrev watcher : Terminal
watcher = record {
  stream = record { wire = []; writes = wrote 100 ∷ wrote 100 ∷ []; reads = [] };
  incoming = committed (queue_exit 9 3 (served linux connection plain prompt typing));
  stdout = record { wire = []; writes = wrote 4096 ∷ wrote 4096 ∷ wrote 4096 ∷ []; reads = [] };
}
