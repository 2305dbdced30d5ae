-- ===== src/Clock.antt =====
-- src/main.rs: `iso_utc_now`, `format_iso_local` and the line of `server_log`. The broken-down time is
-- what `gmtime_r` or `localtime_r` of libc gives, for times from the year 0 on.
use abduco_inline.Prelude.{ℕ, ◌-◌, [], ◌∷◌, ◌++◌, length, replicate, Option, none, some}
use abduco_inline.Prelude.Bytes.{Bytes}
use abduco_inline.Prelude.Text.{codes}
use abduco_inline.Prelude.Decimal.{decimal}

-- `tm_year + 1900`, `tm_mon + 1`, and the other fields of `struct tm`.
pub record Time : Type 0 where
  pub year : ℕ
  pub month : ℕ
  pub day : ℕ
  pub hour : ℕ
  pub minute : ℕ
  pub second : ℕ

-- `{:02}` and `{:04}`
unfoldable pub padded : ℕ → ℕ → Bytes
padded width n = let digits = decimal n in replicate (width - length digits) b'0' ++ digits

unfoldable pub iso_minutes : Time → Bytes
iso_minutes t =
    padded 4 t.year
    ++ b'-'
      ∷ (padded 2 t.month
          ++ b'-' ∷ (padded 2 t.day ++ b'T' ∷ (padded 2 t.hour ++ b':' ∷ padded 2 t.minute)))

unfoldable pub format_iso_local : Option Time → Bytes
format_iso_local none = codes "unknown"
format_iso_local (some t) = iso_minutes t

unfoldable pub iso_utc_now : Option Time → Bytes
iso_utc_now none = codes "unknown"
iso_utc_now (some t) = iso_minutes t ++ b':' ∷ (padded 2 t.second ++ b'Z' ∷ [])

-- What `server_log` appends to the log.
unfoldable pub log_line : Option Time → ℕ → Bytes → Bytes → Bytes
log_line now pid kind msg =
    iso_utc_now now ++ b' ' ∷ (decimal pid ++ b' ' ∷ (kind ++ b' ' ∷ (msg ++ b'\n' ∷ [])))
