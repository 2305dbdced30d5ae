-- ===== src/Protocol/Contents.antt =====
-- What a client of src/main.rs writes to its stdout: the payloads of the MSG_CONTENT packets.
use abduco_inline.Prelude.{◌≡◌, refl, List, [], ◌∷◌, ◌++◌, append_assoc, ◌==◌, if◌then◌else◌, arith}
use abduco_inline.Prelude.Bytes.{Bytes}
use abduco_inline.Protocol.{Packet, msg_content}

-- What the client writes to its terminal: the payloads of the content packets.
unfoldable pub contents : List Packet → Bytes
contents [] = []
contents (p ∷ ps) = if p.typ == msg_content then p.payload ++ contents ps else contents ps

pub contents-append : (ps qs : List Packet) → contents (ps ++ qs) ≡ contents ps ++ contents qs
unfolding contents
contents-append [] qs = refl
contents-append (p ∷ ps) qs =
    ground (arith, contents-append ps qs, append_assoc p.payload (contents ps) (contents qs))
