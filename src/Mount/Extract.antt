-- ===== src/Mount/Extract.antt =====
-- `extract_x_options`: the options that begin with "x-" are taken out of a text of options.
use fuse_study.Base.{
  ℕ, zero, suc, Bool, true, false, Option, none, some, List, [], ◌∷◌, ◌++◌, ◌==◌, ◌+◌, ◌-◌, codes,
  ltb, length, if◌then◌else◌,
}
use fuse_study.Opt.Text.{Str}
use fuse_study.Mount.{begins_with, is_empty}

-- `non_x_opts` or `x_opts`, with the variable that counts what is left of it.
pub record Copy : Type 0 where
  pub text : Str
  pub left : ℕ

-- The option at `opt`, and what follows its comma, if it has one.
unfoldable pub next_comma : Str → Str × Option Str
next_comma [] = ([], none)
next_comma (c ∷ s) = let r = next_comma s in if c == b',' then ([], some s) else (c ∷ r.0, r.1)

-- The length of the option, where the last one counts its NUL.
abbrev pub opt_len : Str → Option Str → ℕ
opt_len opt none = length opt + 1
opt_len opt (some s) = length opt

-- A comma, unless nothing has been copied, and the option; `none` is -EIO.
unfoldable pub append_opt : ℕ → Str → ℕ → Copy → Option Copy
append_opt orig_len opt len b =
    let b' : Copy =
      if ltb b.left orig_len then record { text = b.text ++ b',' ∷ []; left = b.left - 1 } else b in
    if ltb b'.left len then none else some (record { text = b'.text ++ opt; left = b'.left - len })

-- The option at the beginning of `s` goes to one of the copies, the one without and the one with "x-".
unfoldable pub copy_option : ℕ → Str → Copy → Copy → Option (Copy × Copy)
copy_option orig_len s non x =
    let r = next_comma s in
    let len = opt_len r.0 r.1 in
    elim (begins_with s (codes "x-")) [
      | true ↦ elim (append_opt orig_len r.0 len x) [ none ↦ none | some x' ↦ some (non, x') ]
      | false ↦ elim (append_opt orig_len r.0 len non) [ none ↦ none | some non' ↦ some (non', x) ]
    ]

-- The loop; each round passes a comma.
unfoldable pub extract_loop : ℕ → ℕ → Str → Copy → Copy → Option (Copy × Copy)
extract_loop zero orig_len s non x = none
extract_loop (suc fuel) orig_len s non x = elim (copy_option orig_len s non x) [
  | none ↦ none
  | some p ↦ elim (next_comma s).1 [
    | none ↦ some p
    | some s' ↦ extract_loop fuel orig_len s' p.0 p.1
  ]
]

unfoldable pub extract_x_options : Str → Option (Copy × Copy)
extract_x_options original =
    let orig_len = length original + 1 in
    let b : Copy = record { text = []; left = orig_len } in
    extract_loop orig_len orig_len original b b

abbrev pub with_first : ℕ → List Str → List Str
with_first c [] = (c ∷ []) ∷ []
with_first c (o ∷ os) = (c ∷ o) ∷ os

-- The options between the commas.
abbrev pub fields : Str → List Str
fields [] = [] ∷ []
fields (c ∷ s) = if c == b',' then [] ∷ fields s else with_first c (fields s)

abbrev pub is_x : Str → Bool
is_x o = begins_with o (codes "x-")

-- One text with commas between, where empty options in front leave no trace.
abbrev pub add_field : Str → Str → Str
add_field acc o = if is_empty acc then o else acc ++ b',' ∷ o

abbrev pub gather : (Str → Bool) → Str → List Str → Str
gather keep acc [] = acc
gather keep acc (o ∷ os) = gather keep (if keep o then add_field acc o else acc) os
