-- ===== src/Server/Tick/Broadcast.antt =====
-- The loop of the server in src/main.rs as a log that is broadcast: the history, and what every client
-- has been sent, in any state that the loop comes to.
use mathlib.Core.List.{map}
use abduco_inline.Prelude.{
  ℕ, ◌≡◌, List, [], ◌∷◌, get_elem?, take_last, Bool, true, false, none, some, All, ◌≤◌, ◌++◌,
  length, concat,
}
use abduco_inline.Prelude.Bytes.{Bytes}
use abduco_inline.History
use abduco_inline.History.{History, snapshot, history_cap}
use abduco_inline.History.Window.{snapshot-append_all-new}
use abduco_inline.Protocol.{packet_bytes, max_payload}
use abduco_inline.Protocol.Loop.{encode_all}
use abduco_inline.Server.Client.{Client, content}
use abduco_inline.Server.Client.Outbound.{committed}
use abduco_inline.Server.Packets.{Pty}
use abduco_inline.Server.Tick.{Os, Accepted, pid_packet, Round, server_loop, start}
use abduco_inline.Server.Tick.Sound.{server_of, IsFresh}
use abduco_inline.Server.Tick.Frames.{FitsPacket}
use abduco_inline.Server.Tick.Told.{EndsIn, Tells, Tells-Follower}
use abduco_inline.Stream.{ReadAnswer, read_ok, read_failed}
use abduco_inline.Server.Tick.Follower.{Gives, Follower}
use abduco_inline.Server.Tick.Held.{Refines}
use abduco_inline.Server.Tick.Rounds.{loop_output, server_loop-Refines, All-get_elem?}

-- Nothing is asked of the connections or of the output.
accepted-All : (more : List Accepted) → All (λ (a : Accepted). Unit {0}) more
accepted-All [] = tt
accepted-All (a ∷ more) = (tt, accepted-All more)

rounds-All : (rs : List Round) → All (λ r. All (λ (a : Accepted). Unit {0}) r.accepted) rs
rounds-All [] = tt
rounds-All (r ∷ rs) = (accepted-All r.accepted, rounds-All rs)

reads-Gives : (rs : List ReadAnswer) → All (Gives (λ (d : Bytes). Unit {0})) rs
reads-Gives [] = tt
reads-Gives (read_ok d ∷ rs) = (tt, reads-Gives rs)
reads-Gives (read_failed e ∷ rs) = (tt, reads-Gives rs)

-- Of the clients nothing is said.
any-Follower :
    (os : Os)
    → Follower os
        (λ (a : Accepted). Unit {0})
        (λ (d : Bytes). Unit {0})
        (λ (out : Bytes) (c : Client). Unit {0})
any-Follower os = record {
  accepted = λ out a u. tt;
  heard = λ out d c u v. tt;
  attached = λ out c h payload e v. tt;
  closing = λ out c t e. tt;
  gone = λ out c e. tt;
  same = λ out c c' s v. tt;
}

-- In every state that the loop comes to from its start, whatever connections come, whatever they send
-- and however their packets and the rounds interleave, the history is the last HISTORY_CAP bytes of the
-- output that the pty has given in all the rounds.
pub history_holds_output :
    (os : Os) (rs : List Round) (read_pty : Bool) (pty : Pty)
    → snapshot (server_of (server_loop os rs (start read_pty pty))).history
      ≡ take_last history_cap (loop_output os rs (start read_pty pty))
unfolding History.new History.append_all
history_holds_output os rs read_pty pty =
    let s = start read_pty pty in
    let begun : Refines (λ (d : Bytes). Unit {0}) (λ (out : Bytes) (c : Client). Unit {0}) [] s =
      record {
        history = snapshot-append_all-new [];
        clients = tt;
        reads = reads-Gives pty.reads;
      } in
    (server_loop-Refines (any-Follower os) rs s [] (rounds-All rs) begun).history

fits-Gives :
    (rs : List ReadAnswer) → All FitsPacket rs → All (Gives (λ d. length d ≤ max_payload)) rs
fits-Gives [] f = tt
fits-Gives (read_ok d ∷ rs) (f, fs) = (f, fits-Gives rs fs)
fits-Gives (read_failed e ∷ rs) (f, fs) = (tt, fits-Gives rs fs)

-- In every state that the loop comes to from its start, where the new connections take the pid packet
-- and the pty is read in pieces of MAX_PAYLOAD at most: all that was committed to a client that is
-- attached, connected and not about to be closed is the pid packet and then content packets, none with
-- more than MAX_PAYLOAD; and their contents end in the last HISTORY_CAP bytes of some front part of the
-- output that the pty has given in all the rounds, followed by exactly the rest of the output.
pub clients_follow_output :
    (os : Os) (rs : List Round) (read_pty : Bool) (pty : Pty) (i : ℕ) (c : Client)
    → All (λ r. All (IsFresh os) r.accepted) rs
    → All FitsPacket pty.reads
    → get_elem? (server_of (server_loop os rs (start read_pty pty))).clients i ≡ some c
    → c.attached ≡ true
    → c.disconnected ≡ false
    → c.close_after_drain ≡ none
    → (pieces : List Bytes) × All (λ d. length d ≤ max_payload) pieces
      × (committed c ≡ packet_bytes (pid_packet os) ++ encode_all (map content pieces))
      × EndsIn (loop_output os rs (start read_pty pty)) (concat pieces)
unfolding History.new History.append_all
clients_follow_output os rs read_pty pty i c fresh fits at_ on up open_ =
    let s = start read_pty pty in
    let begun : Refines (λ d. length d ≤ max_payload) (Tells os) [] s = record {
      history = snapshot-append_all-new [];
      clients = tt;
      reads = fits-Gives pty.reads fits;
    } in
    let held = server_loop-Refines (Tells-Follower os) rs s [] fresh begun in
    let told = All-get_elem? (Tells os (loop_output os rs s)) _ i c held.clients at_ up open_ in
    (told.pieces, told.fits, told.bytes, told.shown on)
