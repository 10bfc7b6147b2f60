-- ===== src/Opt/Text.antt =====
-- Lists of arguments and of comma-separated options, lib/fuse_opt.c: `fuse_opt_insert_arg`,
-- `fuse_opt_add_opt` and `process_real_option_group`.
use fuse_study.Base.{
  ℕ, zero, suc, Bool, true, false, Option, none, some, List, [], ◌∷◌, ◌++◌, leb, ◌==◌,
  if◌then◌else◌, ◌-◌, ◌+◌, ◌*◌, ◌&&◌, ◌||◌, not, length, take, drop, get_or,
}

abbrev pub Str : Type 0
Str = List ℕ

-- `strcmp(a, b) == 0`
unfoldable pub str_eq : Str → Str → Bool
str_eq [] [] = true
str_eq (a ∷ s) (b ∷ t) = (a == b) && str_eq s t
str_eq _ _ = false

-- The byte at `i`, where the final NUL reads as 0.
abbrev pub char_at : Str → ℕ → ℕ
char_at s i = get_or s i 0

-- `strchr`, as an index.
unfoldable pub str_chr : Str → ℕ → Option ℕ
str_chr [] c = none
str_chr (a ∷ s) c =
    if a == c then some 0 else elim (str_chr s c) [ none ↦ none | some i ↦ some (i + 1) ]

-- `fuse_opt_insert_arg_common`: the new argument goes to the end, then the ones from `pos` on are
-- moved up by one and it is written at `pos`.
unfoldable pub insert_arg : List Str → ℕ → Str → List Str
insert_arg args pos arg =
    let added = args ++ arg ∷ [] in
    if pos == length added - 1
    then added
    else take pos added ++ (arg ∷ take (length added - pos - 1) (drop pos added))

-- The loop of `add_opt_common`.
unfoldable pub escape : Bool → Str → Str
escape esc [] = []
escape esc (c ∷ opt) =
    let rest = escape esc opt in
    if esc && ((c == b',') || (c == b'\\')) then b'\\' ∷ c ∷ rest else c ∷ rest

abbrev pub old_opts : Option Str → Str
old_opts none = []
old_opts (some s) = s

unfoldable pub add_opt_common : Option Str → Str → Bool → Option Str
unfolding escape
add_opt_common opts opt esc =
    let old = old_opts opts in
    some ((if length old == 0 then [] else old ++ b',' ∷ []) ++ escape esc opt)

unfoldable pub fuse_opt_add_opt : Option Str → Str → Option Str
fuse_opt_add_opt opts opt = add_opt_common opts opt false

unfoldable pub fuse_opt_add_opt_escaped : Option Str → Str → Option Str
unfolding add_opt_common
fuse_opt_add_opt_escaped opts opt = add_opt_common opts opt true

-- What a C function reads of a buffer: the bytes before the first NUL.
unfoldable pub c_string : Str → Str
c_string [] = []
c_string (c ∷ s) = if c == 0 then [] else c ∷ c_string s

abbrev pub between : ℕ → ℕ → ℕ → Bool
between lo hi c = leb lo c && leb c hi

-- `s[0]`, `s[1]`, `s[2]` are three octal digits of one byte.
unfoldable pub is_octal : Str → Bool
is_octal s =
    between b'0' b'3' (char_at s 0)
    && (between b'0' b'7' (char_at s 1) && between b'0' b'7' (char_at s 2))

unfoldable pub octal : Str → ℕ
octal s = (char_at s 0 - b'0') * 64 + (char_at s 1 - b'0') * 8 + (char_at s 2 - b'0')

-- The loop of `process_real_option_group`. `acc` holds the bytes that were written at `opts`, and
-- `skip` how many bytes at `s` an escape has already read. `run` stands for `process_gopt` with
-- `iso` set, and its `none` for -1.
module _ {C : Type 0} (run : C → Str → Option C) where
  unfoldable pub group_loop : Str → ℕ → Str → C → Option C
  unfolding is_octal octal c_string
  group_loop acc skip [] ctx = run ctx (c_string acc)
  group_loop acc (suc skip) (c ∷ s) ctx = group_loop acc skip s ctx
  group_loop acc zero (c ∷ s) ctx = elim (c == b',') [
    | true ↦ elim (run ctx (c_string acc)) [ none ↦ none | some ctx' ↦ group_loop [] zero s ctx' ]
    | false ↦ elim ((c == b'\\') && not (length s == 0)) [
      | false ↦ group_loop (acc ++ c ∷ []) zero s ctx
      | true ↦ elim (is_octal s) [
        | true ↦ group_loop (acc ++ octal s ∷ []) 3 s ctx
        | false ↦ group_loop (acc ++ char_at s 0 ∷ []) 1 s ctx
      ]
    ]
  ]

  unfoldable pub process_real_option_group : Str → C → Option C
  process_real_option_group opts ctx = group_loop [] zero opts ctx
