-- ===== src/Title/Tests.antt =====
-- Titles of servers of src/main.rs.
use abduco_inline.Prelude.{
  ◌≤◌, ◌<◌, ◌≡◌, inl, refl, List, [], ◌∷◌, ◌++◌, replicate, some, arith, All, All-append,
  All-replicate, false,
}
use abduco_inline.Prelude.Bytes.{Bytes}
use abduco_inline.Prelude.Text.{codes, split_last}
use abduco_inline.Prelude.Decimal.{decimal, digits_loop, parse_uint, parse_digits}
use abduco_inline.Title.{
  Process, title_of, words, split_ascii_whitespace, proc_self_argv_region, shorten_server_proctitle,
}
use abduco_inline.Title.Memory.{read_bytes}
use abduco_inline.Title.Stat.{IsField, spaced, region_is_found}
use abduco_inline.Title.Hidden.{titled, arguments_are_hidden}

words_of_a_line :
    split_ascii_whitespace (codes " S 12\t 3\n") ≡ codes "S" ∷ codes "12" ∷ codes "3" ∷ []
unfolding words
words_of_a_line = refl

abbrev addresses : List Bytes
addresses = codes "1000" ∷ codes "1014" ∷ codes "0" ∷ []

-- Behind the name of the process: 45 fields, then the two addresses and one field more.
abbrev fields : List Bytes
fields = replicate 45 (codes "7") ++ addresses

seven-IsField : IsField (codes "7")
seven-IsField = record { one_word = (refl, tt); not_empty = refl; no_paren = omega arith }

address-IsField : IsField (codes "1000")
address-IsField = record {
  one_word = (refl, (refl, (refl, (refl, tt))));
  not_empty = refl;
  no_paren = omega arith;
}

end_address-IsField : IsField (codes "1014")
end_address-IsField = record {
  one_word = (refl, (refl, (refl, (refl, tt))));
  not_empty = refl;
  no_paren = omega arith;
}

zero-IsField : IsField (codes "0")
zero-IsField = record { one_word = (refl, tt); not_empty = refl; no_paren = omega arith }

fields-IsField : All IsField fields
fields-IsField =
    All-append IsField (replicate 45 (codes "7")) addresses
      (All-replicate IsField 45 (codes "7") seven-IsField)
      (address-IsField, (end_address-IsField, (zero-IsField, tt)))

-- A program with a parenthesis and a blank in its name.
abbrev stat : Bytes
stat = codes "815 (my) prog)" ++ spaced fields

region_of_stat : proc_self_argv_region (some stat) ≡ some (1000, 1014)
unfolding proc_self_argv_region words split_last parse_uint parse_digits
region_of_stat = refl

abbrev codex : Process
codex = record {
  memory = λ a. b'x';
  arg_end = 1014;
  comm = codes "lich";
  stat = some stat;
  may_set_mm = false;
}

a_title_that_is_cut : titled (title_of (codes "web")) 14 ≡ codes "lich-server[w" ++ 0 ∷ []
a_title_that_is_cut = refl

arguments_are_hidden_example :
    let p = shorten_server_proctitle (codes "web") codex in
    (read_bytes p.memory 1000 14 ≡ codes "lich-server[w" ++ 0 ∷ [])
    × (p.memory 999 ≡ b'x')
    × (1000 < p.arg_end)
    × (p.arg_end ≤ 1014)
arguments_are_hidden_example =
    arguments_are_hidden (codes "web") codex 1000 1014 999 region_of_stat (omega arith) refl
      (inl (omega arith))

region_is_found_example : proc_self_argv_region (some stat) ≡ some (1000, 1014)
unfolding decimal digits_loop
region_is_found_example =
    region_is_found (codes "815 (my) prog") fields 1000 1014 fields-IsField refl refl (omega arith)
      (omega arith)
