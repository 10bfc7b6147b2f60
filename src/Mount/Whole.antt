-- ===== src/Mount/Whole.antt =====
-- What `mount_fuse` in util/fusermount.c reads of the text after -o: `extract_x_options` first, then
-- the loop of `do_mount` on what that leaves.
use fuse_study.Base.{
  ℕ, true, false, none, some, List, [], ◌∷◌, ◌++◌, ◌==◌, ◌≡◌, ◌≢◌, arith, refl, sym, subst, ap, ◌∙◌,
  append_assoc, append-nil, inl, inr, Bool-cases, ==_iff, not,
}
use fuse_study.Opt.Text.{Str, escape, old_opts, fuse_opt_add_opt_escaped}
use fuse_study.Mount.{
  Caller, Outcome, err, parsed, begins_with, fsname_str, no_options, parse_options,
}
use fuse_study.Mount.Scan.{HasNoComma}
use fuse_study.Mount.Config.{
  KernelOption, default_permissions, allow_other, max_read, blksize, text, AreAllowed, joined,
}
use fuse_study.Mount.Extract.{extract_x_options, fields, with_first, is_x, gather}
use fuse_study.Mount.Partition.{extract_x_options-gather}
use fuse_study.Mount.Names.{parse_options-escaped, HasNoComma-text, added}

unfoldable pub read_options : Caller → Str → Outcome
read_options who opts = elim (extract_x_options opts) [
  | none ↦ err
  | some copies ↦ parse_options who copies.0.text
]

-- No option begins with "x-".
abbrev pub HasNoX : List Str → Type 0
HasNoX [] = Unit
HasNoX (o ∷ os) = (is_x o ≡ false) × HasNoX os

abbrev with_commas : List Str → Str
with_commas [] = []
with_commas (o ∷ os) = b',' ∷ o ++ with_commas os

abbrev rest_of : Str → Str
rest_of [] = []
rest_of (c ∷ s) = s

with_commas-with_first :
    (c : ℕ) (os : List Str) (s : Str)
    → with_commas os ≡ b',' ∷ s
    → with_commas (with_first c os) ≡ b',' ∷ c ∷ s
with_commas-with_first c [] s h = cc
with_commas-with_first c (o ∷ os) s h = ap (λ (t : Str). b',' ∷ c ∷ rest_of t) h

with_commas-fields : (s : Str) → with_commas (fields s) ≡ b',' ∷ s
with_commas-fields [] = refl
with_commas-fields (c ∷ s) = elim (Bool-cases (c == b',')) [
  | inl e ↦ rw (e, with_commas-fields s, (==_iff c b',').0 e) refl
  | inr e ↦ rw e (with_commas-with_first c (fields s) s (with_commas-fields s))
]

with_first-append :
    (c : ℕ) (os ps : List Str) (s : Str)
    → with_commas os ≡ b',' ∷ s
    → with_first c (os ++ ps) ≡ with_first c os ++ ps
with_first-append c [] ps s h = cc
with_first-append c (o ∷ os) ps s h = refl

fields-append : (s t : Str) → fields (s ++ b',' ∷ t) ≡ fields s ++ fields t
fields-append [] t = refl
fields-append (c ∷ s) t = elim (Bool-cases (c == b',')) [
  | inl e ↦ rw (e, fields-append s t) refl
  | inr e ↦
      rw (e, fields-append s t) (with_first-append c (fields s) (fields t) s (with_commas-fields s))
]

fields-HasNoComma : (s : Str) → HasNoComma s → fields s ≡ s ∷ []
fields-HasNoComma [] h = refl
fields-HasNoComma (c ∷ s) (n, h) = elim (Bool-cases (c == b',')) [
  | inl e ↦ absurd (n ((==_iff c b',').0 e))
  | inr e ↦ rw (e, fields-HasNoComma s h) refl
]

HasNoX-append : (os ps : List Str) → HasNoX os → HasNoX ps → HasNoX (os ++ ps)
HasNoX-append [] ps h k = k
HasNoX-append (o ∷ os) ps (x, h) k = (x, HasNoX-append os ps h k)

is_x-text : (o : KernelOption) → is_x (text o) ≡ false
unfolding begins_with
is_x-text default_permissions = refl
is_x-text allow_other = refl
is_x-text (max_read n) = refl
is_x-text (blksize n) = refl

HasNoX-joined :
    (who : Caller) (os : List KernelOption) → AreAllowed who os → HasNoX (fields (joined os))
unfolding begins_with
HasNoX-joined who [] h = (refl, tt)
HasNoX-joined who (o ∷ os) (h, hs) =
    rw (fields-append (text o) (joined os), fields-HasNoComma (text o) (HasNoComma-text who o h))
      (is_x-text o, HasNoX-joined who os hs)

gather-kept :
    (c : ℕ) (acc : Str) (os : List Str)
    → HasNoX os
    → gather (λ o. not (is_x o)) (c ∷ acc) os ≡ (c ∷ acc) ++ with_commas os
gather-kept c acc [] h = sym (append-nil (c ∷ acc))
gather-kept c acc (o ∷ os) (x, h) =
    rw x (gather-kept c (acc ++ b',' ∷ o) os h ∙ append_assoc (c ∷ acc) (b',' ∷ o) (with_commas os))

-- A text without such options, and with a first one that is not empty, comes back whole.
gather-whole :
    (c : ℕ) (os : List Str) (s : Str)
    → with_commas os ≡ b',' ∷ s
    → HasNoX (with_first c os)
    → gather (λ o. not (is_x o)) [] (with_first c os) ≡ c ∷ s
gather-whole c [] s e h = cc
gather-whole c (o ∷ os) s e (x, h) =
    rw (gather, x) (gather-kept c o os h ∙ ap (λ (t : Str). c ∷ rest_of t) e)

read_options-kept :
    (who : Caller) (c : ℕ) (s : Str)
    → c ≢ b','
    → HasNoX (fields (c ∷ s))
    → read_options who (c ∷ s) ≡ parse_options who (c ∷ s)
unfolding read_options
read_options-kept who c s n h = elim (Bool-cases (c == b',')) [
  | inl e ↦ absurd (n ((==_iff c b',').0 e))
  | inr e ↦
      let split : fields (c ∷ s) ≡ with_first c (fields s) = rw e refl in
      let (non, x, runs, kept, taken) = extract_x_options-gather (c ∷ s) in
      rw (read_options, runs)
        (ap (parse_options who) (
          kept
          ∙ ap (gather (λ o. not (is_x o)) []) split
          ∙ gather-whole c (fields s) s (with_commas-fields s) (rw (sym split) h)))
]

fsname-first :
    (name rest : Str)
    → escape true (fsname_str ++ name) ++ b',' ∷ rest
      ≡ b'f' ∷ rest_of (escape true (fsname_str ++ name) ++ b',' ∷ rest)
unfolding escape
fsname-first name rest = refl

-- A name that libfuse hands on by `fuse_opt_add_opt_escaped` as `fsname=...` is the name that
-- `mount_fuse` reads, commas and backslashes included, if no part of it behind a comma begins with
-- "x-" (`extract_x_options` takes the text apart at the escaped commas too); and the options for the
-- kernel behind it, which the user may use, go to the kernel as they are.
pub read_options-escaped :
    (who : Caller) (name : Str) (os : List KernelOption)
    → HasNoX (fields (escape true (fsname_str ++ name)))
    → AreAllowed who os
    → read_options who
        (old_opts (fuse_opt_add_opt_escaped none (fsname_str ++ name)) ++ b',' ∷ joined os)
      ≡ parsed (record no_options { fsname = some name; optbuf = joined os })
read_options-escaped who name os x h =
    let opt = escape true (fsname_str ++ name) in
    let s = opt ++ b',' ∷ joined os in
    let whole : HasNoX (fields s) =
      rw (fields-append opt (joined os))
        (HasNoX-append (fields opt) (fields (joined os)) x (HasNoX-joined who os h)) in
    let first = fsname-first name (joined os) in
    let kept : read_options who s ≡ parse_options who s =
      ap (read_options who) first
      ∙ read_options-kept who b'f' (rest_of s) (omega arith)
          (subst (λ t. HasNoX (fields t)) first whole)
      ∙ ap (parse_options who) (sym first) in
    let same = ap (λ (t : Str). t ++ b',' ∷ joined os) (added (fsname_str ++ name)) in
    ap (read_options who) same
    ∙ kept
    ∙ ap (parse_options who) (sym same)
    ∙ parse_options-escaped who name os h
