-- ===== src/Protocol/Feed.antt =====
-- A stream of packets that arrives in pieces of any size: the receive buffer of
-- `read_client_packets` in src/main.rs, and its loop over `pop_packet`.
use mathlib.Core.List.{foldl, foldl-append}
use abduco_inline.Prelude.{
  ℕ, zero, suc, ◌≤◌, ◌<◌, ◌≡◌, refl, sym, ap, ◌∙◌, subst, List, [], ◌∷◌, ◌++◌, append_assoc,
  append-nil, length, get_or, arith, All, All-append_left, All-append_right, concat, ltb, inl, inr,
  Bool-cases, ltb→lt, ltb→le,
}
use abduco_inline.Prelude.Bytes.{Bytes}
use abduco_inline.Protocol.{Packet, packet_bytes, pop_packet, while_packets, u32_at}
use abduco_inline.Protocol.Loop.{encode_all, Waits, nil-Waits, while_packets-encode_all}
use abduco_inline.Protocol.Framing.{
  IsPacket, length-packet_bytes, len-packet_bytes, pop_packet-packet_bytes,
}

module _ {ℓ} {S : Type ℓ} (f : S → Packet → S) where
  -- One read after another: each piece is put behind the buffer, and then the loop runs.
  unfoldable pub feed : S → Bytes → List Bytes → S × Bytes
  feed s buf [] = (s, buf)
  feed s buf (piece ∷ pieces) =
      let (s', rest) = while_packets (length (buf ++ piece)) f s (buf ++ piece) in
      feed s' rest pieces

-- Two ways to cut one list: the longer front part begins with the shorter.
append_split {ℓ} :
    {A : Type ℓ} (xs ys zs ws : List A)
    → xs ++ ys ≡ zs ++ ws
    → length zs ≤ length xs
    → (us : List A) × (xs ≡ zs ++ us) × (us ++ ys ≡ ws)
append_split xs ys [] ws e le = (xs, refl, e)
append_split [] ys (z ∷ zs) ws e le = absurd (omega arith)
append_split (x ∷ xs) ys (z ∷ zs) ws e le =
    let (us, e1, e2) = append_split xs ys zs ws (cc) (omega arith) in (us, cc, e2)

get_or-append : (xs ys : Bytes) (i : ℕ) → i < length xs → get_or (xs ++ ys) i 0 ≡ get_or xs i 0
get_or-append [] ys i h = absurd (omega arith)
get_or-append (x ∷ xs) ys zero h = refl
get_or-append (x ∷ xs) ys (suc i) h = get_or-append xs ys i (omega arith)

-- A proper front part of a packet waits.
front-Waits :
    (p : Packet) (buf us : Bytes)
    → IsPacket p
    → packet_bytes p ≡ buf ++ us
    → length buf < length (packet_bytes p)
    → Waits buf
unfolding pop_packet
front-Waits p buf us h e lt = ground (
  arith,
  length-packet_bytes p,
  h.payload_fits,
  subst (λ (b : Bytes). u32_at b 4 ≡ length p.payload) (append-nil (packet_bytes p) ∙ e)
      (len-packet_bytes p [] h),
  get_or-append buf us 4,
  get_or-append buf us 5,
  get_or-append buf us 6,
  get_or-append buf us 7,
)

-- How a front part of a stream of packets divides: whole packets, and the front of the next.
pub record Divides (ps : List Packet) (buf rest : Bytes) : Type 0 where
  pub whole : List Packet
  pub later : List Packet
  pub tail : Bytes
  pub packets : ps ≡ whole ++ later
  pub bytes : buf ≡ encode_all whole ++ tail
  pub waits : Waits tail
  pub behind : tail ++ rest ≡ encode_all later

grow :
    (p : Packet) (ps : List Packet) (buf rest : Bytes)
    → IsPacket p
    → Divides ps buf rest
    → Divides (p ∷ ps) (packet_bytes p ++ buf) rest
grow p ps buf rest h d = record {
  whole = p ∷ d.whole;
  later = d.later;
  tail = d.tail;
  packets = ap (◌∷◌ p) d.packets;
  bytes =
      ap (◌++◌ (packet_bytes p)) d.bytes
      ∙ sym (append_assoc (packet_bytes p) (encode_all d.whole) d.tail);
  waits = d.waits;
  behind = d.behind;
}

-- Every front part of a stream of packets divides so.
pub divide :
    (ps : List Packet) (buf rest : Bytes)
    → All IsPacket ps
    → buf ++ rest ≡ encode_all ps
    → Divides ps buf rest
divide [] [] rest h e = record {
  whole = [];
  later = [];
  tail = [];
  packets = refl;
  bytes = refl;
  waits = nil-Waits;
  behind = e;
}
divide [] (b ∷ buf) rest h e = cc
divide (p ∷ ps) buf rest h e = elim (Bool-cases (ltb (length buf) (length (packet_bytes p)))) [
  | inl short ↦
      let (us, e1, e2) =
        append_split (packet_bytes p) (encode_all ps) buf rest (sym e) (ground arith) in
      record {
        whole = [];
        later = p ∷ ps;
        tail = buf;
        packets = refl;
        bytes = refl;
        waits = front-Waits p buf us h.0 e1 (ltb→lt _ _ short);
        behind = e;
      }
  | inr long ↦
      let (us, e1, e2) =
        append_split buf rest (packet_bytes p) (encode_all ps) e (ltb→le _ _ long) in
      subst (λ (b : Bytes). Divides (p ∷ ps) b rest) (sym e1)
        (grow p ps us rest h.0 (divide ps us rest h.1 e2))
]

-- A buffer that waits holds no packet.
pub Waits-encode_all :
    (ps : List Packet) (buf : Bytes) → All IsPacket ps → Waits buf → buf ≡ encode_all ps → ps ≡ []
Waits-encode_all [] buf h w e = refl
Waits-encode_all (p ∷ ps) buf h w e = cc (w, e, pop_packet-packet_bytes p (encode_all ps) h.0)

module _ {ℓ} {S : Type ℓ} (f : S → Packet → S) where
  -- The loop over a front part of a stream handles its whole packets, and keeps the rest.
  pub while_packets-Divides :
      (ps : List Packet) (s : S) (buf rest : Bytes) (d : Divides ps buf rest)
      → All IsPacket ps
      → while_packets (length buf) f s buf ≡ (foldl f s d.whole, d.tail)
  while_packets-Divides ps s buf rest d h =
      subst (λ (b : Bytes). while_packets (length b) f s b ≡ (foldl f s d.whole, d.tail))
        (sym d.bytes)
        (while_packets-encode_all f d.whole _ s d.tail
          (All-append_left IsPacket d.whole d.later (subst (All IsPacket) d.packets h)) d.waits
          (omega arith))

  -- However a stream of packets is cut into pieces, a reader that pops after each piece has handled
  -- exactly these packets in their order when the last piece is read, and its buffer is empty.
  pub feed_any_pieces :
      (ps : List Packet) (pieces : List Bytes) (s : S) (buf : Bytes)
      → All IsPacket ps
      → Waits buf
      → buf ++ concat pieces ≡ encode_all ps
      → feed f s buf pieces ≡ (foldl f s ps, [])
  unfolding feed
  feed_any_pieces ps [] s buf h w e =
      let e' : buf ≡ encode_all ps = sym (append-nil buf) ∙ e in
      let none_left = Waits-encode_all ps buf h w e' in rw (e', none_left)
  feed_any_pieces ps (piece ∷ pieces) s buf h w e =
      let d = divide ps (buf ++ piece) (concat pieces) h (append_assoc buf piece _ ∙ e) in
      let later = All-append_right IsPacket d.whole d.later (subst (All IsPacket) d.packets h) in
      rw (while_packets-Divides ps s (buf ++ piece) (concat pieces) d h) (
        feed_any_pieces d.later pieces (foldl f s d.whole) d.tail later d.waits d.behind
        ∙ ap {B = S × Bytes} (λ t. (t, []))
            (sym (foldl-append f s d.whole d.later) ∙ ap (foldl f s) (sym d.packets)))
