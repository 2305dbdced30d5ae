-- ===== src/Server/Tick/Output.antt =====
-- From the pty to the attached clients: the attach replay and the broadcasts of `server_loop` in
-- src/main.rs, joined.
use mathlib.Core.Option
use mathlib.Core.List.{map}
use abduco_inline.Prelude.{
  ◌≤◌, ◌≡◌, refl, sym, ap, ap₂, ◌∙◌, subst, List, [], ◌∷◌, ◌++◌, length, true, false, arith, concat,
  take_last, interrupted, IoError,
}
use abduco_inline.Prelude.Bytes.{Bytes}
use abduco_inline.Protocol.{Packet, max_payload, read_u32}
use abduco_inline.Protocol.Loop.{encode_all}
use abduco_inline.Protocol.Contents.{contents, contents-append}
use abduco_inline.History.{History, snapshot, append_all, history_cap}
use abduco_inline.History.Window.{snapshot-append_all}
use abduco_inline.Stream.{ReadAnswer, read_ok, read_failed}
use abduco_inline.Server.Client.{
  Client, content, chunks, send_history, broadcast_to, broadcast_content,
}
use abduco_inline.Server.Client.Outbound.{Sends, trans-Sends, committed}
use abduco_inline.Server.Client.Outbound.Replay.{
  Replays, refl-Replays, packets-Replays, send_history-Replays, history_packets,
  broadcast_to-Replays,
}
use abduco_inline.Server.Client.Outbound.Chunks.{concat-chunks}
use abduco_inline.Server.Packets.{attach}
use abduco_inline.Server.Tick.{Server, pump, for_clients}

pub contents-map : (ds : List Bytes) → contents (map content ds) ≡ concat ds
unfolding contents
contents-map [] = refl
contents-map (d ∷ ds) = ap (◌++◌ d) (contents-map ds)

pub contents-history_packets : (h : History) → contents (history_packets h) ≡ snapshot h
contents-history_packets h =
    contents-map (chunks max_payload (snapshot h))
    ∙ concat-chunks max_payload (snapshot h) (omega arith)

-- The pieces of output that the loop of reads takes from the pty: up to the first answer that
-- ends it.
unfoldable pub outputs : List ReadAnswer → List Bytes
outputs [] = []
outputs (read_ok [] ∷ rs) = []
outputs (read_ok (b ∷ bs) ∷ rs) = (b ∷ bs) ∷ outputs rs
outputs (read_failed interrupted ∷ rs) = outputs rs
outputs (read_failed e ∷ rs) = []

-- One client through the broadcasts of these pieces.
unfoldable pub hear : List Bytes → Client → Client
hear [] c = c
hear (d ∷ ds) c = hear ds (broadcast_to d c)

for_clients-nil : (cs : List Client) → for_clients (hear []) cs ≡ cs
unfolding for_clients hear
for_clients-nil [] = refl
for_clients-nil (c ∷ cs) = ap (◌∷◌ c) (for_clients-nil cs)

for_clients-hear :
    (d : Bytes) (ds : List Bytes) (cs : List Client)
    → for_clients (hear ds) (broadcast_content cs d) ≡ for_clients (hear (d ∷ ds)) cs
unfolding for_clients hear broadcast_content
for_clients-hear d ds [] = refl
for_clients-hear d ds (c ∷ cs) = ap (◌∷◌ (hear ds (broadcast_to d c))) (for_clients-hear d ds cs)

pub clients-pump :
    (rs : List ReadAnswer) (s : Server)
    → (pump rs s).clients ≡ for_clients (hear (outputs rs)) s.clients
unfolding pump outputs
clients-pump [] s = sym (for_clients-nil s.clients)
clients-pump (read_ok [] ∷ rs) s = sym (for_clients-nil s.clients)
clients-pump (read_ok (b ∷ bs) ∷ rs) s =
    clients-pump rs _ ∙ for_clients-hear (b ∷ bs) (outputs rs) s.clients
clients-pump (read_failed IoError.interrupted ∷ rs) s = clients-pump rs s
clients-pump (read_failed e ∷ rs) s = sym (for_clients-nil s.clients)

history-pump :
    (rs : List ReadAnswer) (s : Server) → (pump rs s).history ≡ append_all s.history (outputs rs)
unfolding pump outputs append_all
history-pump [] s = refl
history-pump (read_ok [] ∷ rs) s = refl
history-pump (read_ok (b ∷ bs) ∷ rs) s = history-pump rs _
history-pump (read_failed IoError.interrupted ∷ rs) s = history-pump rs s
history-pump (read_failed e ∷ rs) s = refl

-- A client that is still connected at the end was connected before, and was sent all of `ps`.
pub Completes : List Packet → Client → Client → Type 0
Completes ps c c' = c'.disconnected ≡ false → (c.disconnected ≡ false) × Sends ps c c'

Replays-Completes : (ps : List Packet) (c c' : Client) → Replays ps c c' → Completes ps c c'
unfolding Completes
Replays-Completes ps c c' r up = (was_up, subst (λ (qs : List Packet). Sends qs c c') all r.sends)
  where
    was_up : c.disconnected ≡ false
    was_up = ground (arith, r.sends.disconnected)

    all : r.packets ≡ ps
    all = packets-Replays ps c c' r (r.complete up)

trans-Completes :
    (ps qs : List Packet) (c d e : Client)
    → Completes ps c d
    → Completes qs d e
    → Completes (ps ++ qs) c e
unfolding Completes
trans-Completes ps qs c d e s t up =
    let (d_up, later) = t up in
    let (c_up, first) = s d_up in (c_up, trans-Sends ps qs c d e first later)

hear-Completes :
    (ds : List Bytes) (c : Client) → c.attached ≡ true → Completes (map content ds) c (hear ds c)
unfolding hear
hear-Completes [] c on = Replays-Completes [] c c (refl-Replays c)
hear-Completes (d ∷ ds) c on =
    let first = broadcast_to-Replays d c on in
    trans-Completes (content d ∷ []) (map content ds) c (broadcast_to d c) _
      (Replays-Completes (content d ∷ []) c _ first)
      (hear-Completes ds (broadcast_to d c) (first.sends.attached ∙ on))

-- What is sent to a client from its attach on.
pub attach-Sends :
    (c : Client) (h : History) (payload : Bytes) (ds : List Bytes)
    → (hear ds (attach c h payload)).disconnected ≡ false
    → Sends
        (history_packets h ++ map content ds)
        (record c { attached = true; flags = Option.get_or (read_u32 payload) 0 })
        (hear ds (attach c h payload))
unfolding attach Completes
attach-Sends c h payload ds up =
    let asked : Client = record c { attached = true; flags = Option.get_or (read_u32 payload) 0 } in
    let replay = send_history-Replays asked h in
    let both =
      trans-Completes (history_packets h) (map content ds) asked (send_history asked h false) _
        (Replays-Completes (history_packets h) asked _ replay)
        (hear-Completes ds (send_history asked h false) replay.sends.attached) in
    (both up).1

attach-Completes :
    (c : Client) (h : History) (payload : Bytes) (ds : List Bytes)
    → (hear ds (attach c h payload)).disconnected ≡ false
    → (ps : List Packet) × (committed (hear ds (attach c h payload)) ≡ committed c ++ encode_all ps)
      × (contents ps ≡ snapshot h ++ concat ds)
attach-Completes c h payload ds up = (
  history_packets h ++ map content ds,
  (attach-Sends c h payload ds up).bytes,
  contents-append (history_packets h) (map content ds)
      ∙ ap₂ ◌++◌ (contents-history_packets h) (contents-map ds),
)

for_clients-append :
    (f : Client → Client) (cs ds : List Client)
    → for_clients f (cs ++ ds) ≡ for_clients f cs ++ for_clients f ds
unfolding for_clients
for_clients-append f [] ds = refl
for_clients-append f (c ∷ cs) ds = ap (◌∷◌ (f c)) (for_clients-append f cs ds)

-- A client that has just attached, and is still connected after the next reads of the pty, was sent
-- exactly the history at its attach followed by all the output read since: nothing is lost between
-- the two, and nothing comes twice. The other clients hear the same broadcasts, and the history, within
-- HISTORY_CAP before, is the last HISTORY_CAP bytes of the same output.
pub attached_client_hears_all :
    (s : Server) (c : Client) (payload : Bytes) (before after : List Client) (rs : List ReadAnswer)
    → s.clients ≡ before ++ attach c s.history payload ∷ after
    → length (snapshot s.history) ≤ history_cap
    → (hear (outputs rs) (attach c s.history payload)).disconnected ≡ false
    → let c' = hear (outputs rs) (attach c s.history payload) in
      ((pump rs s).clients
        ≡ for_clients (hear (outputs rs)) before ++ c' ∷ for_clients (hear (outputs rs)) after)
      × (snapshot (pump rs s).history
          ≡ take_last history_cap (snapshot s.history ++ concat (outputs rs)))
      × ((ps : List Packet) × (committed c' ≡ committed c ++ encode_all ps)
          × (contents ps ≡ snapshot s.history ++ concat (outputs rs)))
attached_client_hears_all s c payload before after rs e le up = (
  clients-pump rs s
      ∙ ap (for_clients (hear (outputs rs))) e
      ∙ for_clients-append (hear (outputs rs)) before _
      ∙ (unfold for_clients in refl),
  ap snapshot (history-pump rs s) ∙ snapshot-append_all s.history (outputs rs) le,
  attach-Completes c s.history payload (outputs rs) up,
)
