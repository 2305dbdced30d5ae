-- ===== src/Server/Tick/Follower.antt =====
-- What the rounds of `server_loop` in src/main.rs ask of a statement on the clients and the output of
-- the pty, so that it holds of every client all the time.
use abduco_inline.Prelude.{ℕ, ◌≡◌, ◌++◌, take_last, true, false, some}
use abduco_inline.Prelude.Bytes.{Bytes}
use abduco_inline.Stream.{ReadAnswer, read_ok, read_failed, send_packet_blocking}
use abduco_inline.History.{History, snapshot, history_cap}
use abduco_inline.Server.Client.{Client, broadcast_to}
use abduco_inline.Server.Client.Outbound.{committed}
use abduco_inline.Server.Packets.{attach}
use abduco_inline.Server.Tick.{Os, Accepted, new_client, pid_packet}

-- A client with as much committed that is connected only if the other is.
pub record Same (c c' : Client) : Type 0 where
  pub bytes : committed c' ≡ committed c
  pub attached : c'.attached ≡ c.attached
  pub close_after_drain : c'.close_after_drain ≡ c.close_after_drain
  pub up : c'.disconnected ≡ false → c.disconnected ≡ false

-- An answer whose bytes are as they should be.
abbrev pub Gives : (Bytes → Type 0) → ReadAnswer → Type 0
Gives Fits (read_ok bs) = Fits bs
Gives Fits (read_failed e) = Unit

-- `P out c` for the output `out` read so far, where the connections are as `Comes` says and the pieces of
-- output as `Fits` does.
pub record Follower (os : Os) (Comes : Accepted → Type 0) (Fits : Bytes → Type 0)
    (P : Bytes → Client → Type 0) : Type 0 where
  pub accepted :
      (out : Bytes) (a : Accepted)
      → Comes a
      → P out (new_client (send_packet_blocking a.stream (pid_packet os)).1)
  pub heard : (out d : Bytes) (c : Client) → Fits d → P out c → P (out ++ d) (broadcast_to d c)
  pub attached :
      (out : Bytes) (c : Client) (h : History) (payload : Bytes)
      → snapshot h ≡ take_last history_cap out
      → P out c
      → P out (attach c h payload)
  pub closing : (out : Bytes) (c : Client) (t : ℕ) → c.close_after_drain ≡ some t → P out c
  pub gone : (out : Bytes) (c : Client) → c.disconnected ≡ true → P out c
  pub same : (out : Bytes) (c c' : Client) → Same c c' → P out c → P out c'
