-- ===== src/Server/Client/Outbound/Dump.antt =====
-- What a dump request is sent: `send_history` in src/main.rs with `send_end`.
use abduco_inline.Prelude.{
  ℕ, zero, suc, ◌+◌, ◌-◌, ◌*◌, ◌≤◌, ◌≡◌, refl, sym, ap, ap₂, ◌∙◌, List, [], ◌∷◌, ◌++◌, append-nil,
  append_assoc, length, take, drop, if◌then◌else◌, Bool, true, false, arith, length-append,
  length-drop, length-take, inl, inr, Result,
}
use mathlib.Core.List.{map}
use abduco_inline.Prelude.Bytes.{Bytes}
use abduco_inline.Protocol.{Packet, packet_bytes, max_payload}
use abduco_inline.Protocol.Framing.{length-packet_bytes}
use abduco_inline.Protocol.Loop.{encode_all}
use abduco_inline.History.{History, snapshot, history_cap}
use abduco_inline.Server.Client.{
  Client, send_packet_nonblocking, send_queue_cap, chunks_loop, chunks, content, dump_end,
  send_history,
}
use abduco_inline.Server.Client.Outbound.{trans-Sends, Send, send_packet_nonblocking-Send}
use abduco_inline.Server.Client.Outbound.Replay.{
  Replays, Ended, send_chunks-Ended, history_packets, packets-Replays,
}

-- The header of each piece costs eight bytes, and no piece is empty.
length-encode-chunks_loop :
    (fuel n : ℕ) (bs : Bytes)
    → length (encode_all (map content (chunks_loop fuel (suc n) bs))) ≤ 9 * length bs
unfolding chunks_loop
length-encode-chunks_loop zero n bs = omega arith
length-encode-chunks_loop (suc fuel) n [] = omega arith
length-encode-chunks_loop (suc fuel) n (b ∷ bs) = omega (
  arith,
  length-encode-chunks_loop fuel n (drop n bs),
  length-packet_bytes (content (take (suc n) (b ∷ bs))),
  length-append (packet_bytes (content (take (suc n) (b ∷ bs))))
      (encode_all (map content (chunks_loop fuel (suc n) (drop n bs)))),
  length-take n bs,
  length-drop n bs,
)

length-encode-history_packets :
    (h : History) → length (encode_all (history_packets h)) ≤ 9 * length (snapshot h)
unfolding chunks
length-encode-history_packets h =
    length-encode-chunks_loop (length (snapshot h)) (max_payload - 1) (snapshot h)

pub room :
    (h : History)
    → length (snapshot h) ≤ history_cap
    → length (encode_all (history_packets h)) + 8 ≤ send_queue_cap
room h le = omega (arith, length-encode-history_packets h)

end_step :
    (h : History) (c d : Client) (out : Result (Unit {0}) × Client)
    (r : Replays (history_packets h) c d)
    → r.missing ≡ []
    → length c.send_queue + length (encode_all (history_packets h)) + 8 ≤ send_queue_cap
    → Send dump_end d out
    → Replays (history_packets h ++ dump_end ∷ []) c out.1
end_step h c d out r none_missing fits s =
    let all = packets-Replays (history_packets h) c d r none_missing in
    elim s.whole [
      | inl e ↦ record {
        packets = r.packets ++ s.packets;
        missing = [];
        parts = append-nil (r.packets ++ s.packets) ∙ ap₂ ◌++◌ all e;
        sends = trans-Sends r.packets s.packets c d out.1 r.sends s.sends;
        complete = λ _. refl;
      }
      | inr (_, _, full) ↦ absurd (
          omega (
            arith,
            full,
            r.sends.grows,
            ap (λ (ps : List Packet). length (encode_all ps)) all,
            length-packet_bytes dump_end,
          ))
    ]

stopped-Replays :
    (h : History) (c d : Client)
    → Replays (history_packets h) c d
    → d.disconnected ≡ true
    → Replays (history_packets h ++ dump_end ∷ []) c d
stopped-Replays h c d r e = record {
  packets = r.packets;
  missing = r.missing ++ dump_end ∷ [];
  parts =
      sym (append_assoc r.packets r.missing (dump_end ∷ []))
      ∙ ap (λ (ps : List Packet). ps ++ dump_end ∷ []) r.parts;
  sends = r.sends;
  complete = λ f. cc (e, f);
}

dump_step :
    (h : History) (c : Client) (out : Bool × Client)
    → Ended (history_packets h) c out
    → length c.send_queue + length (encode_all (history_packets h)) + 8 ≤ send_queue_cap
    → Replays
        (history_packets h ++ dump_end ∷ [])
        c
        (if out.0 then (send_packet_nonblocking out.1 dump_end).1 else out.1)
dump_step h c (true, d) e fits =
    end_step h c d _ e.replays (e.finished refl) fits (send_packet_nonblocking-Send d dump_end)
dump_step h c (false, d) e fits = stopped-Replays h c d e.replays (e.stopped refl)

-- To a client whose queue is empty a dump commits the whole history and the end packet, unless
-- the client is given up: the history and its headers always fit into the queue.
pub send_history-dump :
    (c : Client) (h : History)
    → length (snapshot h) ≤ history_cap
    → c.send_queue ≡ []
    → Replays (history_packets h ++ dump_end ∷ []) c (send_history c h true)
unfolding send_history
send_history-dump c h le empty =
    dump_step h c _ (send_chunks-Ended (chunks max_payload (snapshot h)) c)
      (omega (arith, room h le, ap (length {A = ℕ}) empty))
