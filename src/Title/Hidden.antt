-- ===== src/Title/Hidden.antt =====
-- What is left of the arguments of the server: `shorten_server_proctitle` in src/main.rs.
use abduco_inline.Prelude.{
  ℕ, zero, suc, ◌+◌, ◌-◌, ◌≤◌, ◌<◌, ◌≡◌, ◌⊎◌, refl, ap, ap₂, ◌∙◌, min, ◌++◌, length, take,
  length-take, replicate, some, arith,
}
use abduco_inline.Prelude.Bytes.{Bytes}
use abduco_inline.Title.{
  write_bytes, Process, title_of, retitle, proc_self_argv_region, shorten_server_proctitle,
}
use abduco_inline.Title.Memory.{
  read_bytes, read_bytes-append, write_bytes-elsewhere, read_bytes-write_bytes, read_bytes-filled,
}

length-replicate : (n c : ℕ) → length (replicate n c) ≡ n
length-replicate zero c = refl
length-replicate (suc n) c = omega (arith, length-replicate n c)

-- A region of `total` bytes with the title in it, cut where it leaves no room for the end.
abbrev pub titled : Bytes → ℕ → Bytes
titled title total =
    let write_len = min (length title) (total - 1) in
    take write_len title ++ replicate (total - write_len) 0

retitle-read :
    (title : Bytes) (arg_start total : ℕ) (p : Process)
    → 0 < total
    → read_bytes (retitle title arg_start total p).memory arg_start total ≡ titled title total
unfolding retitle
retitle-read title arg_start total p pos =
    let w = min (length title) (total - 1) in
    let cut = take w title in
    let long = length-take w title in
    let m = write_bytes p.memory arg_start (replicate total 0) in
    let m' = write_bytes m arg_start cut in
    read_bytes-append m' arg_start w (total - w) (arg_start + w) total refl (omega arith)
    ∙ ap₂ ◌++◌
        (ap (read_bytes m' arg_start) (omega (arith, long))
          ∙ read_bytes-write_bytes m arg_start cut)
        (read_bytes-filled p.memory arg_start total 0 cut (arg_start + w) (total - w)
          (omega (arith, long)) (omega arith))

retitle-elsewhere :
    (title : Bytes) (arg_start total a : ℕ) (p : Process)
    → (a < arg_start) ⊎ (arg_start + total ≤ a)
    → (retitle title arg_start total p).memory a ≡ p.memory a
unfolding retitle
retitle-elsewhere title arg_start total a p h =
    let w = min (length title) (total - 1) in
    let zeros : Bytes = replicate total 0 in
    write_bytes-elsewhere (write_bytes p.memory arg_start zeros) arg_start (take w title) a
      (ground (arith, length-take w title))
    ∙ write_bytes-elsewhere p.memory arg_start zeros a (ground (arith, length-replicate total 0))

retitle-arg_end :
    (title : Bytes) (arg_start total : ℕ) (p : Process)
    → 0 < total
    → p.arg_end ≡ arg_start + total
    → (arg_start < (retitle title arg_start total p).arg_end)
      × ((retitle title arg_start total p).arg_end ≤ arg_start + total)
unfolding retitle
retitle-arg_end title arg_start total p pos e = ground arith

-- Behind the renaming the region of the arguments holds the title, cut to leave room for a NUL, and
-- zeros up to its end, so that nothing of the old arguments is left; no other byte has changed; and the
-- arguments that the kernel reports lie within the region. The region has at least two bytes, and
-- the kernel took the arguments to end where it ends.
pub arguments_are_hidden :
    (session_name : Bytes) (p : Process) (arg_start arg_end a : ℕ)
    → proc_self_argv_region p.stat ≡ some (arg_start, arg_end)
    → arg_start + 2 ≤ arg_end
    → p.arg_end ≡ arg_end
    → (a < arg_start) ⊎ (arg_end ≤ a)
    → let p' = shorten_server_proctitle session_name p in
      (read_bytes p'.memory arg_start (arg_end - arg_start)
        ≡ titled (title_of session_name) (arg_end - arg_start))
      × (p'.memory a ≡ p.memory a)
      × (arg_start < p'.arg_end)
      × (p'.arg_end ≤ arg_end)
unfolding shorten_server_proctitle
arguments_are_hidden session_name p arg_start arg_end a region wide ends outside =
    let total = arg_end - arg_start in
    let title = title_of session_name in
    let inside = retitle-read title arg_start total p (omega arith) in
    let elsewhere = retitle-elsewhere title arg_start total a p (ground arith) in
    let reported = retitle-arg_end title arg_start total p (omega arith) (omega arith) in
    ground (arith, region, inside, elsewhere, reported)
