-- ===== src/Subdir/Links.antt =====
-- Links that `transform_symlink` makes relative.
use fuse_study.Base.{
  ℕ, zero, suc, Bool, true, false, List, [], ◌∷◌, ◌++◌, ◌==◌, ◌≡◌, ◌≤◌, ◌<◌, ◌+◌, ◌-◌, ◌*◌, ◌&&◌,
  ◌||◌, not, ltb, arith, refl, sym, ap, ◌∙◌, if◌then◌else◌, length, inl, inr, Bool-cases, drop,
  replicate, length-append, if_both, subst,
}
use fuse_study.Subdir.{
  Str, Subdir, is_rooted, count_components, strip_common, up, link_end, relative, transform_symlink,
}
use fuse_study.Subdir.Components.{split, components, components-up, count_components_lem, dotdot}
use fuse_study.Subdir.Strip.{IsStripped, strip_common-IsStripped}

abbrev pub is_dot : Str → Bool
is_dot [] = false
is_dot (c ∷ []) = c == b'.'
is_dot (c ∷ e ∷ s) = false

abbrev pub is_dotdot : Str → Bool
is_dotdot [] = false
is_dotdot (c ∷ []) = false
is_dotdot (c ∷ e ∷ []) = (c == b'.') && (e == b'.')
is_dotdot (c ∷ e ∷ f ∷ s) = false

-- A directory is its names up to the root, the last one first.
abbrev pub step : List Str → Str → List Str
step dir c = if is_dotdot c then drop 1 dir else if is_dot c then dir else c ∷ dir

-- Where a list of names leads from a directory.
abbrev pub resolve : List Str → List Str → List Str
resolve dir [] = dir
resolve dir (c ∷ cs) = resolve (step dir c) cs

-- What a link that stands in the directory `dir` names.
unfoldable pub follow : List Str → Str → List Str
follow dir l = if is_rooted l then resolve [] (components l) else resolve dir (components l)

-- The directory that a path is in.
abbrev pub parent : Str → List Str
parent path = drop 1 (resolve [] (components path))

-- No name is "." or "..".
abbrev pub ArePlain : List Str → Type 0
ArePlain [] = Unit
ArePlain (c ∷ cs) = (is_dotdot c ≡ false) × (is_dot c ≡ false) × ArePlain cs

pub resolve-append : (dir xs ys : List Str) → resolve dir (xs ++ ys) ≡ resolve (resolve dir xs) ys
resolve-append dir [] ys = refl
resolve-append dir (c ∷ xs) ys = resolve-append (step dir c) xs ys

drop-suc : (n : ℕ) (dir : List Str) → drop (suc n) dir ≡ drop 1 (drop n dir)
drop-suc zero dir = refl
drop-suc (suc n) [] = refl
drop-suc (suc n) (c ∷ dir) = drop-suc n dir

drop-drop_one : (n : ℕ) (dir : List Str) → drop n (drop 1 dir) ≡ drop (suc n) dir
drop-drop_one zero dir = refl
drop-drop_one (suc n) [] = refl
drop-drop_one (suc n) (c ∷ dir) = refl

pub step-plain :
    (dir : List Str) (c : Str) → is_dotdot c ≡ false → is_dot c ≡ false → step dir c ≡ c ∷ dir
step-plain dir c h k = rw (h, k) refl

-- Going up once for each plain name leads back.
drop-resolve : (dir cs : List Str) → ArePlain cs → drop (length cs) (resolve dir cs) ≡ dir
drop-resolve dir [] plain = refl
drop-resolve dir (c ∷ cs) (h, k, plain) =
    rw
      (
        step-plain dir c h k,
        drop-suc (length cs) (resolve (c ∷ dir) cs),
        drop-resolve (c ∷ dir) cs plain,
      )
      refl

resolve-replicate :
    (n : ℕ) (dir cs : List Str) → resolve dir (replicate n dotdot ++ cs) ≡ resolve (drop n dir) cs
resolve-replicate zero dir cs = refl
resolve-replicate (suc n) dir cs =
    resolve-replicate n (drop 1 dir) cs ∙ ap (λ x. resolve x cs) (drop-drop_one n dir)

pub ArePlain-right : (xs ys : List Str) → ArePlain (xs ++ ys) → ArePlain ys
ArePlain-right [] ys plain = plain
ArePlain-right (c ∷ xs) ys (h, k, plain) = ArePlain-right xs ys plain

resolve-link_end :
    (n : ℕ) (dir : List Str) (l : Str)
    → resolve dir (components (link_end n l)) ≡ resolve dir (components l)
unfolding split
resolve-link_end zero dir [] = refl
resolve-link_end (suc n) dir [] = ground arith
resolve-link_end n dir (c ∷ l) = refl

is_rooted-relative :
    (n : ℕ) (l : Str) → is_rooted l ≡ false → is_rooted (up n ++ link_end n l) ≡ false
unfolding up
is_rooted-relative zero [] h = refl
is_rooted-relative zero (c ∷ l) h = h
is_rooted-relative (suc n) l h = refl

length-up : (n : ℕ) → length (up n) ≡ n * 3
unfolding up
length-up zero = refl
length-up (suc n) = ground (arith, length-up n)

length-link_end : (n : ℕ) (l : Str) → length (link_end n l) ≤ length l + 1
length-link_end n [] = ground arith
length-link_end n (c ∷ l) = ground arith

-- A link that names the same file, and fits in the buffer with its NUL.
pub record IsSameLink (path buf : Str) (size : ℕ) (l : Str) : Type 0 where
  pub same : follow (parent path) l ≡ follow (parent path) buf
  pub fits : length l < size

-- The names of the rewritten link, from where the two paths part.
follow-relative :
    (path buf l t : Str) (n : ℕ)
    → ArePlain (components path)
    → IsStripped buf path l t
    → is_rooted buf ≡ true
    → length (components t) ≡ suc n
    → follow (parent path) (up n ++ link_end n l) ≡ follow (parent path) buf
unfolding follow
follow-relative path buf l t n plain stripped rooted len =
    let top = resolve [] stripped.common in
    let plain_t =
      ArePlain-right stripped.common (components t) (subst ArePlain stripped.of_t plain) in
    rw
      (
        is_rooted-relative n l stripped.unrooted,
        rooted,
        stripped.of_s,
        components-up n (link_end n l),
        resolve-replicate n (parent path) (components (link_end n l)),
        resolve-link_end n (drop n (parent path)) l,
        resolve-append [] stripped.common (components l),
        stripped.of_t,
        drop-drop_one n (resolve [] (stripped.common ++ components t)),
        resolve-append [] stripped.common (components t),
        sym len,
        drop-resolve top (components t) plain_t,
      )
      refl

module _ (d : Subdir) (path buf : Str) (size : ℕ) where
  unchanged : length buf < size → IsSameLink path buf size buf
  unchanged fits = record { same = refl; fits = fits }

  -- Where the link is written.
  rewritten-IsSameLink :
      (l t : Str) (n : ℕ)
      → ArePlain (components path)
      → is_rooted buf ≡ true
      → IsStripped buf path l t
      → length (components t) ≡ suc n
      → ltb size (n * 3 + length l + 2) ≡ false
      → IsSameLink path buf size (up n ++ link_end n l)
  rewritten-IsSameLink l t n plain rooted stripped len room = record {
    same = follow-relative path buf l t n plain stripped rooted len;
    fits =
        ground (arith, room, length-append (up n) (link_end n l), length-up n, length-link_end n l);
  }

  relative-IsSameLink :
      (l t : Str)
      → ArePlain (components path)
      → length buf < size
      → is_rooted buf ≡ true
      → IsStripped buf path l t
      → IsSameLink path buf size (relative d buf size (l, t))
  unfolding relative
  relative-IsSameLink l t plain fits rooted stripped =
      if_both (IsSameLink path buf size) (ltb (length buf - length l) (length d.base)) buf
        (if count_components t == 0
          then buf
          else if ltb size ((count_components t - 1) * 3 + length l + 2)
          then buf
          else up (count_components t - 1) ++ link_end (count_components t - 1) l)
        (unchanged fits)
        (elim (Bool-cases (count_components t == 0)) [
          | inl e ↦ rw e (unchanged fits)
          | inr e ↦
              let n = count_components t - 1 in
              rw e (elim (Bool-cases (ltb size (n * 3 + length l + 2))) [
                | inl full ↦ rw full (unchanged fits)
                | inr room ↦ rw room (
                    rewritten-IsSameLink l t n plain rooted stripped
                      (ground (arith, e, count_components_lem t)) room)
              ])
        ])

  -- A link that `transform_symlink` rewrites names the same file, as seen from the directory that
  -- the link is in, and stays within its buffer, when no name in the link's path is "." or "..".
  pub transform_symlink-IsSameLink :
      ArePlain (components path)
      → length buf < size
      → IsSameLink path buf size (transform_symlink d path buf size)
  unfolding transform_symlink
  transform_symlink-IsSameLink plain fits =
      elim (Bool-cases (not (is_rooted buf) || not (is_rooted d.base))) [
        | inl stop ↦ rw stop (unchanged fits)
        | inr go ↦ rw go (
            relative-IsSameLink (strip_common buf path).0 (strip_common buf path).1 plain fits
              (ground (arith, go)) (strip_common-IsStripped buf path))
      ]
