-- ===== src/Readdir/Reading.antt =====
-- Reading a directory to its end, an answer at a time, each from where the last one stopped.
use fuse_study.Base.{
  ℕ, zero, suc, Bool, true, false, Option, List, [], ◌∷◌, ◌++◌, ◌==◌, ◌≡◌, ◌≤◌, ◌<◌, ◌+◌, ◌^◌, ◌⊎◌,
  arith, refl, if◌then◌else◌, length, drop, take, min, ap, sym, ◌∙◌, inl, inr, take-append-drop,
  List-cases, subst,
}
use fuse_study.Readdir.{
  Direntry, Dirent, Dh, Call, Config, readdir_fill_from_list, extend_contents, Reply, reply_err,
  reply_buf, answer, readdir_common_from, fuse_readdir_common,
}
use fuse_study.Readdir.Listing.{
  numbered, last_off, AllFit, AllFit-drop, last_off-numbered, numbered-append, fill_list-first,
}

drop-nil : (n : ℕ) → drop {A = Direntry} n [] ≡ []
drop-nil zero = refl
drop-nil (suc n) = refl

drop-drop : (a b : ℕ) (des : List Direntry) → drop a (drop b des) ≡ drop (b + a) des
drop-drop a zero des = let e : a ≡ 0 + a = omega arith in ap (λ n. drop n des) e
drop-drop a (suc b) [] = drop-nil a ∙ sym (drop-nil (suc b + a))
drop-drop a (suc b) (d ∷ des) =
    let e : suc (b + a) ≡ suc b + a = omega arith in
    drop-drop a b des ∙ ap (λ n. drop n (d ∷ des)) e

drop-length-take : (k : ℕ) (des : List Direntry) → drop (length (take k des)) des ≡ drop k des
drop-length-take zero des = refl
drop-length-take (suc k) [] = refl
drop-length-take (suc k) (d ∷ des) = drop-length-take k des

abbrev pub entries : Reply → List Dirent
entries (reply_err e) = []
entries (reply_buf ds len) = ds

abbrev pub is_nil : List Dirent → Bool
is_nil [] = true
is_nil (d ∷ ds) = false

module _ (conf : Config) (child : List ℕ → Option ℕ) (fs_readdir : ℕ → List Call × ℕ) (size : ℕ)
    (b : size < 2 ^ 31) where
  -- What a reader of the directory does, up to the first answer without entries.
  abbrev pub read_all : ℕ → ℕ → Dh → List Dirent
  read_all zero off dh = []
  read_all (suc fuel) off dh =
      let r = fuse_readdir_common conf child 0 fs_readdir size off dh in
      let ds = entries r.0 in
      let rest = read_all fuel (last_off off ds) r.1 in if is_nil ds then [] else ds ++ rest

  -- The entries of an answer from the list.
  module _ (off : ℕ) (dh : Dh) (fit : AllFit size dh.list) (inside : off ≤ length dh.list) where
    unfoldable pub chunk : List Dirent
    chunk = entries (answer true size off dh).0

    pub chunk-takes :
        (j : ℕ) × (chunk ≡ numbered off (take j (drop off dh.list)))
        × ((drop off dh.list ≡ []) ⊎ (is_nil chunk ≡ false))
    unfolding chunk answer readdir_fill_from_list extend_contents
    chunk-takes =
        let at : min off (length dh.list) ≡ off = omega (arith, inside) in
        elim (List-cases (drop off dh.list)) [
          | inl e ↦ (0, rw (at, e) refl, inl e)
          | inr (de, des, e) ↦
              let f =
                fill_list-first size off de des b
                  (subst (AllFit size) e (AllFit-drop off size dh.list fit)) in
              (suc f.0, rw (at, e) f.1, inr (rw (at, e) (rw f.1 refl)))
        ]

    -- The handle after the answer.
    unfoldable pub after : Dh
    after = (answer true size off dh).1

    pub after-same : (after.list ≡ dh.list) × (after.filled ≡ dh.filled)
    unfolding after answer readdir_fill_from_list extend_contents
    after-same = (refl, refl)

    -- A filled handle that is not read from the start is not filled again.
    pub common-filled :
        (off == 0) ≡ false
        → dh.filled ≡ true
        → fuse_readdir_common conf child 0 fs_readdir size off dh ≡ answer true size off dh
    unfolding fuse_readdir_common readdir_common_from
    common-filled z f =
        rw (z, fuse_readdir_common)
          (ap (λ t. readdir_common_from conf child 0 fs_readdir size off t dh) f)

    pub next-off :
        (j : ℕ)
        → chunk ≡ numbered off (take j (drop off dh.list))
        → last_off off chunk ≡ off + length (take j (drop off dh.list))
    next-off j e = ap (last_off off) e ∙ last_off-numbered off (take j (drop off dh.list))

    -- What is left after the answer.
    pub rest-numbered :
        (j : ℕ)
        → numbered off (take j (drop off dh.list))
            ++ numbered
                (off + length (take j (drop off dh.list)))
                (drop (off + length (take j (drop off dh.list))) dh.list)
          ≡ numbered off (drop off dh.list)
    rest-numbered j =
        let t = take j (drop off dh.list) in
        let left : drop (off + length t) dh.list ≡ drop j (drop off dh.list) =
          sym (drop-drop (length t) off dh.list) ∙ drop-length-take j (drop off dh.list) in
        ap (λ l. numbered off t ++ numbered (off + length t) l) left
        ∙ sym (numbered-append off t (drop j (drop off dh.list)))
        ∙ ap (numbered off) (take-append-drop j (drop off dh.list))
