-- ===== src/Attach/Detach.antt =====
-- The detach key in src/main.rs, on both sides.
use abduco_inline.Prelude.Bytes.{Bytes}
use abduco_inline.History.{History}
use abduco_inline.Server.Client.{Client}
