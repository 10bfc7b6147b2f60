-- ===== src/Opt/Template.antt =====
-- Option templates, lib/fuse_opt.c: `match_template`, `find_opt` and `fuse_opt_match`.
use fuse_study.Base.{
  ℕ, Bool, true, false, Option, none, some, List, [], ◌∷◌, leb, ◌==◌, if◌then◌else◌, ◌+◌, ◌&&◌,
  ◌||◌, length, take,
}
use fuse_study.Opt.Text.{Str, char_at, str_chr, str_eq}

-- The keys that `fuse_opt.h` names, and every other `int` by a number.
pub data Key : Type 0 where
  opt_key nonopt_key keep_key discard_key : Key
  user_key : ℕ → Key

-- `struct fuse_opt`: `none` as the offset is `-1U`.
pub record FuseOpt : Type 0 where
  pub templ : Str
  pub offset : Option ℕ
  pub value : Key

-- `strncmp(s, t, n) == 0` for strings of at least `n` bytes.
unfoldable pub str_neq : ℕ → Str → Str → Bool
str_neq n s t = str_eq (take n s) (take n t)

-- `strchr(t, '=')`, or `strchr(t, ' ')`.
abbrev pub separator : Str → Option ℕ
separator t = elim (str_chr t b'=') [ some i ↦ some i | none ↦ str_chr t b' ' ]

-- A match gives the value of `*sepp`.
unfoldable pub match_template : Str → Str → Option ℕ
unfolding str_neq
match_template t arg =
    let exact : Option ℕ = if str_eq t arg then some 0 else none in
    elim (separator t) [
      | none ↦ exact
      | some sep ↦
          let tlen = if char_at t sep == b'=' then sep + 1 else sep in
          if ((char_at t (sep + 1) == 0) || (char_at t (sep + 1) == b'%'))
            && (leb tlen (length arg) && str_neq tlen arg t)
          then some sep
          else exact
    ]

unfoldable pub find_opt : List FuseOpt → Str → Option (FuseOpt × ℕ)
find_opt [] arg = none
find_opt (o ∷ os) arg = elim (match_template o.templ arg) [
  | some sep ↦ some (o, sep)
  | none ↦ find_opt os arg
]

unfoldable pub fuse_opt_match : List FuseOpt → Str → Bool
fuse_opt_match opts opt = elim (find_opt opts opt) [ some r ↦ true | none ↦ false ]
