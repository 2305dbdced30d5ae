-- ===== src/Title/Stat.antt =====
-- The fields of a stat file, as `proc_self_argv_region` of src/main.rs takes them.
use abduco_inline.Prelude.{
  ℕ, ◌^◌, ◌<◌, ◌≡◌, ◌≢◌, refl, sym, ap, ◌∙◌, List, [], ◌∷◌, ◌++◌, append_assoc, append-nil,
  get_elem?, if◌then◌else◌, is_empty, Bool, false, some, arith, All, All-append,
}
use abduco_inline.Prelude.Bytes.{Bytes}
use abduco_inline.Prelude.Text.{Free, split_last-some}
use abduco_inline.Prelude.Decimal.{decimal, parse_uint-decimal}
use abduco_inline.Title.{is_ascii_whitespace, words, usize_at, proc_self_argv_region}

-- A field behind the name of the process.
pub record IsField (field : Bytes) : Type 0 where
  pub one_word : All (λ c. is_ascii_whitespace c ≡ false) field
  pub not_empty : is_empty field ≡ false
  pub no_paren : Free b')' field

-- The fields as the kernel writes them, each behind a space.
abbrev pub spaced : List Bytes → Bytes
spaced [] = b'\n' ∷ []
spaced (f ∷ fs) = b' ' ∷ (f ++ spaced fs)

words-append :
    (word field rest : Bytes)
    → All (λ c. is_ascii_whitespace c ≡ false) field
    → words word (field ++ rest) ≡ words (word ++ field) rest
unfolding words
words-append word [] rest h = ap (λ (w : Bytes). words w rest) (sym (append-nil word))
words-append word (c ∷ field) rest (plain, h) = rw plain (
    words-append (word ++ c ∷ []) field rest h
    ∙ ap (λ (w : Bytes). words w rest) (append_assoc word (c ∷ []) field))

words-spaced :
    (word : Bytes) (fs : List Bytes)
    → All IsField fs
    → words word (spaced fs) ≡ (if is_empty word then fs else word ∷ fs)
unfolding words
words-spaced [] [] h = refl
words-spaced (c ∷ word) [] h = refl
words-spaced word (f ∷ fs) (field, h) =
    let next : words [] (f ++ spaced fs) ≡ f ∷ fs =
      words-append [] f (spaced fs) field.one_word
      ∙ words-spaced f fs h
      ∙ ap (λ (b : Bool). if b then fs else f ∷ fs) field.not_empty in
    ap (λ (ws : List Bytes). if is_empty word then ws else word ∷ ws) next

Free-spaced : (fs : List Bytes) → All IsField fs → Free b')' (spaced fs)
Free-spaced [] h = omega arith
Free-spaced (f ∷ fs) (field, h) =
    (omega arith, All-append (λ c. c ≢ b')') f (spaced fs) field.no_paren (Free-spaced fs h))

usize_at-decimal :
    (fields : List Bytes) (i n : ℕ)
    → n < 2 ^ 64
    → get_elem? fields i ≡ some (decimal n)
    → usize_at fields i ≡ some n
usize_at-decimal fields i n lt e = rw e (parse_uint-decimal (2 ^ 64) n lt)

-- The region of the arguments is found in the stat file, whatever the name of the process in it,
-- parentheses and blanks included.
pub region_is_found :
    (front : Bytes) (fields : List Bytes) (arg_start arg_end : ℕ)
    → All IsField fields
    → get_elem? fields 45 ≡ some (decimal arg_start)
    → get_elem? fields 46 ≡ some (decimal arg_end)
    → arg_start < arg_end
    → arg_end < 2 ^ 64
    → proc_self_argv_region (some (front ++ b')' ∷ spaced fields)) ≡ some (arg_start, arg_end)
unfolding proc_self_argv_region
region_is_found front fields arg_start arg_end h s e lt fits =
    let split = split_last-some b')' front (spaced fields) (Free-spaced fields h) in
    let found = words-spaced [] fields h in
    let from = usize_at-decimal fields 45 arg_start (omega arith) s in
    let to = usize_at-decimal fields 46 arg_end fits e in ground (arith, split, found, from, to)
