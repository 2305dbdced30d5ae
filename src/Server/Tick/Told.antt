-- ===== src/Server/Tick/Told.antt =====
-- The whole stream of a client of `server_loop` in src/main.rs: the pid packet, and then output only.
use mathlib.Core.List.{map}
use mathlib.Core.Option
use abduco_inline.Prelude.{
  ℕ, ◌≤◌, ◌≡◌, refl, sym, ap, ap₂, ◌∙◌, subst, List, [], ◌∷◌, ◌++◌, append-nil, append_assoc,
  length, length-append, concat, concat-append, take_last, Bool-cases, inl, inr, true, false, none,
  arith, All, All-append,
}
use abduco_inline.Prelude.Bytes.{Bytes}
use abduco_inline.Protocol.{Packet, packet_bytes, max_payload, read_u32}
use abduco_inline.Protocol.Loop.{encode_all}
use abduco_inline.History.{History, snapshot, history_cap}
use abduco_inline.Stream.{send_packet_blocking}
use abduco_inline.Server.Client.{Client, content, chunks, broadcast_to}
use abduco_inline.Server.Client.Outbound.{Sends, committed}
use abduco_inline.Server.Client.Outbound.Chunks.{concat-chunks, chunks-fits}
use abduco_inline.Server.Client.Outbound.Replay.{
  packets-Replays, broadcast_to-Replays, broadcast_to-detached, state-send_history,
}
use abduco_inline.Server.Packets.{attach}
use abduco_inline.Server.Tick.{Os, Accepted, new_client, pid_packet}
use abduco_inline.Server.Tick.Output.{attach-Sends, hear}
use abduco_inline.Server.Tick.Sound.{IsFresh, new_client-committed}
use abduco_inline.Server.Tick.Follower.{Same, Follower}
use abduco_inline.Server.Tick.Log.{from_seen, from_seen-append, from_seen-length}

-- What a screen shows ends in what a client is shown that has attached after `seen` bytes of the output.
pub record EndsIn (out screen : Bytes) : Type 0 where
  pub earlier : Bytes
  pub seen : ℕ
  pub inside : seen ≤ length out
  pub ends : screen ≡ earlier ++ from_seen seen out

-- The pieces of output that were sent to a client behind the pid packet.
pub record Told (os : Os) (out : Bytes) (c : Client) : Type 0 where
  pub pieces : List Bytes
  pub fits : All (λ d. length d ≤ max_payload) pieces
  pub bytes : committed c ≡ packet_bytes (pid_packet os) ++ encode_all (map content pieces)
  pub shown : c.attached ≡ true → EndsIn out (concat pieces)

-- A client that is connected and not to be closed was told the output.
abbrev pub Tells : Os → Bytes → Client → Type 0
Tells os out c = c.disconnected ≡ false → c.close_after_drain ≡ none → Told os out c

map-content-append :
    (ds es : List Bytes)
    → encode_all (map content (ds ++ es))
      ≡ encode_all (map content ds) ++ encode_all (map content es)
map-content-append [] es = refl
map-content-append (d ∷ ds) es =
    ap (◌++◌ (packet_bytes (content d))) (map-content-append ds es)
    ∙ sym (append_assoc (packet_bytes (content d)) (encode_all (map content ds)) _)

-- More pieces are committed.
Told-more :
    (os : Os) (out out' : Bytes) (c c' : Client) (ds : List Bytes)
    → committed c' ≡ committed c ++ encode_all (map content ds)
    → All (λ d. length d ≤ max_payload) ds
    → (v : Told os out c) → EndsIn out' (concat v.pieces ++ concat ds)
    → Told os out' c'
Told-more os out out' c c' ds more fits v ends = record {
  pieces = v.pieces ++ ds;
  fits = All-append (λ (d : Bytes). length d ≤ max_payload) v.pieces ds v.fits fits;
  bytes =
      more
      ∙ ap (λ (b : Bytes). b ++ encode_all (map content ds)) v.bytes
      ∙ append_assoc (packet_bytes (pid_packet os)) (encode_all (map content v.pieces)) _
      ∙ ap (◌++◌ (packet_bytes (pid_packet os))) (sym (map-content-append v.pieces ds));
  shown = λ on. subst (EndsIn out') (sym (concat-append v.pieces ds)) ends;
}

EndsIn-append : (out d screen : Bytes) → EndsIn out screen → EndsIn (out ++ d) (screen ++ (d ++ []))
EndsIn-append out d screen v = record {
  earlier = v.earlier;
  seen = v.seen;
  inside = omega (arith, v.inside, length-append out d);
  ends =
      ap₂ ◌++◌ v.ends (append-nil d)
      ∙ append_assoc v.earlier (from_seen v.seen out) d
      ∙ ap (◌++◌ v.earlier) (from_seen-append v.seen out d v.inside);
}

Tells-broadcast_to :
    (os : Os) (out d : Bytes) (c : Client)
    → length d ≤ max_payload
    → Tells os out c
    → Tells os (out ++ d) (broadcast_to d c)
Tells-broadcast_to os out d c fit v up open_ = elim (Bool-cases c.attached) [
  | inl on ↦
      let r = broadcast_to-Replays d c on in
      let s =
        subst (λ (ps : List Packet). Sends ps c (broadcast_to d c))
          (packets-Replays (content d ∷ []) c (broadcast_to d c) r (r.complete up)) r.sends in
      let told = v (ground (arith, s.disconnected, up)) (sym s.close_after_drain ∙ open_) in
      Told-more os out (out ++ d) c (broadcast_to d c) (d ∷ []) s.bytes (fit, tt) told
        (EndsIn-append out d (concat told.pieces) (told.shown on))
  | inr off ↦
      let same = broadcast_to-detached d c off in
      let told =
        v (ap (λ (c : Client). c.disconnected) (sym same) ∙ up)
          (ap (λ (c : Client). c.close_after_drain) (sym same) ∙ open_) in
      subst (Told os (out ++ d)) (sym same) (record {
        pieces = told.pieces;
        fits = told.fits;
        bytes = told.bytes;
        shown = λ on. absurd (ground (arith, on, off));
      })
]

state-attach :
    (c : Client) (h : History) (payload : Bytes)
    → ((attach c h payload).close_after_drain ≡ c.close_after_drain)
      × ((attach c h payload).disconnected ≡ false → c.disconnected ≡ false)
unfolding attach
state-attach c h payload =
    let asked : Client = record c { attached = true; flags = Option.get_or (read_u32 payload) 0 } in
    let (flags, close, up) = state-send_history asked h false in (close, up)

Tells-attach :
    (os : Os) (out : Bytes) (c : Client) (h : History) (payload : Bytes)
    → snapshot h ≡ take_last history_cap out
    → Tells os out c
    → Tells os out (attach c h payload)
unfolding hear
Tells-attach os out c h payload e v up open_ =
    let sends = attach-Sends c h payload [] up in
    let (same, was_up) = state-attach c h payload in
    let told = v (was_up up) (sym same ∙ open_) in
    let cs = chunks max_payload (snapshot h) in
    Told-more os out out c (attach c h payload) cs
      (sends.bytes ∙ ap (λ (ps : List Packet). committed c ++ encode_all ps) (append-nil _))
      (chunks-fits max_payload (snapshot h)) told
      (record {
        earlier = concat told.pieces;
        seen = length out;
        inside = omega arith;
        ends =
            ap (◌++◌ (concat told.pieces))
              (concat-chunks max_payload (snapshot h) (omega arith) ∙ e ∙ from_seen-length out);
      })

Tells-Same : (os : Os) (out : Bytes) (c c' : Client) → Same c c' → Tells os out c → Tells os out c'
Tells-Same os out c c' s v up open_ =
    let told = v (s.up up) (sym s.close_after_drain ∙ open_) in
    record {
      pieces = told.pieces;
      fits = told.fits;
      bytes = s.bytes ∙ told.bytes;
      shown = λ on. told.shown (sym s.attached ∙ on);
    }

Told-new_client :
    (os : Os) (out : Bytes) (a : Accepted)
    → IsFresh os a
    → Told os out (new_client (send_packet_blocking a.stream (pid_packet os)).1)
Told-new_client os out a fresh = record {
  pieces = [];
  fits = tt;
  bytes = new_client-committed os a fresh ∙ sym (append-nil (packet_bytes (pid_packet os)));
  shown = λ on. absurd (ground (arith, on));
}

-- This is kept where the connections take the pid packet and the pty is read in pieces that fit a packet.
pub Tells-Follower :
    (os : Os) → Follower os (IsFresh os) (λ (d : Bytes). length d ≤ max_payload) (Tells os)
Tells-Follower os = record {
  accepted = λ out a fresh up open_. Told-new_client os out a fresh;
  heard = Tells-broadcast_to os;
  attached = Tells-attach os;
  closing = λ out c t e up open_. absurd (ground (arith, e, open_));
  gone = λ out c e up. absurd (ground (arith, e, up));
  same = Tells-Same os;
}
