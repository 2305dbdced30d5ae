-- ===== src/Log/Tests.antt =====
-- Lines of the log of src/main.rs.
use abduco_inline.Prelude.{◌≡◌, refl, [], ◌∷◌, ◌++◌, none, some}
use abduco_inline.Prelude.Text.{codes}
use abduco_inline.Prelude.Decimal.{decimal, digits_loop}
use abduco_inline.Clock.{Time, padded, iso_minutes, iso_utc_now, log_line}
use abduco_inline.Log.{
  Log, opened, not_opened, set_log_path, server_log, log_all, start_entry, signal_entry,
  clean_entry, panic_entry,
}

abbrev noon : Time
noon = record { year = 2026; month = 3; day = 7; hour = 12; minute = 0; second = 5 }

abbrev empty : Log
empty = set_log_path (codes "/run/web.log") (record {
  path = none;
  text = [];
  appends = opened (some noon) 100 ∷ not_opened ∷ opened (some noon) 7 ∷ [];
})

-- The second entry is lost, and the third cut short.
three_entries :
    (log_all 815 (start_entry 815 (codes "web") ∷ signal_entry ∷ clean_entry 143 ∷ []) empty).text
    ≡ codes "2026-03-07T12:00:05Z 815 start pid=815 session=web\n" ++ codes "2026-03"
unfolding log_all server_log set_log_path log_line iso_utc_now iso_minutes padded decimal
    digits_loop
three_entries = refl

first_path_stands : (set_log_path (codes "/tmp/other.log") empty).path ≡ some (codes "/run/web.log")
unfolding set_log_path
first_path_stands = refl

a_panic : (panic_entry none none).msg ≡ codes "at ? payload=<non-string panic payload>"
unfolding panic_entry
a_panic = refl

a_negative_code : (clean_entry 4294967295).msg ≡ codes "clean child_exit=-1 clients=0"
unfolding decimal digits_loop
a_negative_code = refl
