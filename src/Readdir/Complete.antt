-- ===== src/Readdir/Complete.antt =====
-- The whole of a directory is read.
use fuse_study.Base.{
  ℕ, zero, suc, Bool, true, false, Option, List, [], ◌∷◌, ◌++◌, ◌==◌, ◌≡◌, ◌≤◌, ◌<◌, ◌+◌, ◌^◌,
  arith, refl, length, drop, take, map, ap, sym, ◌∙◌, inl, inr, List-cases, length-take,
  length-drop, append-nil, subst, append_assoc, length-map, not, ◌&&◌,
}
use fuse_study.Readdir.{
  Direntry, Dirent, Dh, Call, Config, readdir_fill, fill_all, fill_dir, answer, readdir_common_from,
  fuse_readdir_common, entry_stat,
}
use fuse_study.Readdir.Listing.{numbered, AllFit}
use fuse_study.Readdir.Reading.{
  is_nil, read_all, chunk, chunk-takes, after, after-same, common-filled, next-off, rest-numbered,
}

take-nil : (n : ℕ) → take {A = Direntry} n [] ≡ []
take-nil zero = refl
take-nil (suc n) = refl

module _ (conf : Config) (child : List ℕ → Option ℕ) (fs_readdir : ℕ → List Call × ℕ) (size : ℕ)
    (b : size < 2 ^ 31) where
  -- The rest of a reading from `off` on, when an answer gives entries.
  module _ (off : ℕ) (dh : Dh) (fit : AllFit size dh.list) (inside : off ≤ length dh.list) where
    abbrev answered : List Dirent
    answered = chunk conf child fs_readdir size b off dh fit inside

    abbrev later : Dh
    later = after conf child fs_readdir size b off dh fit inside

    -- How far an answer goes.
    step_inside :
        (j : ℕ)
        → answered ≡ numbered off (take j (drop off dh.list))
        → is_nil answered ≡ false
        → (off + length (take j (drop off dh.list)) ≤ length dh.list)
          × (0 < length (take j (drop off dh.list)))
    step_inside j e n = elim (List-cases (take j (drop off dh.list))) [
      | inl none_taken ↦ absurd (ground (arith, n, ap is_nil (e ∙ ap (numbered off) none_taken)))
      | inr (d, ds, some_taken) ↦
          let longer : length (take j (drop off dh.list)) ≡ suc (length ds) =
            ap length some_taken in
          (
            omega (arith, length-take j (drop off dh.list), length-drop off dh.list, inside),
            omega (arith, longer),
          )
    ]

    -- The rest of the reading, when the rest is known.
    read_on :
        (fuel : ℕ) (dh' : Dh)
        → fuse_readdir_common conf child 0 fs_readdir size off dh' ≡ answer true size off dh
        → length dh.list < suc fuel + off
        → ((off' : ℕ)
            → (off' == 0) ≡ false
            → off' ≤ length dh.list
            → length dh.list < fuel + off'
            → read_all conf child fs_readdir size b fuel off' later
              ≡ numbered off' (drop off' dh.list))
        → read_all conf child fs_readdir size b (suc fuel) off dh' ≡ numbered off (drop off dh.list)
    unfolding chunk after
    read_on fuel dh' step enough ih =
        let (j, e, s) = chunk-takes conf child fs_readdir size b off dh fit inside in
        rw step (elim s [
          | inl empty ↦
              let nothing : answered ≡ [] =
                e ∙ ap (λ l. numbered off (take j l)) empty ∙ ap (numbered off) (take-nil j) in
              rw nothing (sym (ap (numbered off) empty))
          | inr n ↦
              let t = length (take j (drop off dh.list)) in
              let (within, some_taken) = step_inside j e n in
              let rest =
                ih (off + t) (ground (arith, some_taken)) within
                  (omega (arith, enough, some_taken)) in
              rw n (
                ap (λ o. answered ++ read_all conf child fs_readdir size b fuel o later)
                  (next-off conf child fs_readdir size b off dh fit inside j e)
                ∙ ap (λ l. answered ++ l) rest
                ∙ ap (λ l. l ++ numbered (off + t) (drop (off + t) dh.list)) e
                ∙ rest-numbered conf child fs_readdir size b off dh fit inside j)
        ])

  read_filled :
      (fuel off : ℕ) (dh : Dh)
      → AllFit size dh.list
      → dh.filled ≡ true
      → (off == 0) ≡ false
      → off ≤ length dh.list
      → length dh.list < fuel + off
      → read_all conf child fs_readdir size b fuel off dh ≡ numbered off (drop off dh.list)
  read_filled zero off dh fit f z inside enough = absurd (omega arith)
  read_filled (suc fuel) off dh fit f z inside enough =
      read_on off dh fit inside fuel dh
        (common-filled conf child fs_readdir size b off dh fit inside z f) enough
        λ off' z' inside' enough'.
          let same = after-same conf child fs_readdir size b off dh fit inside in
          let next = after conf child fs_readdir size b off dh fit inside in
          read_filled fuel off' next (subst (AllFit size) (sym same.0) fit) (same.1 ∙ f) z'
            (rw same.0 inside') (rw same.0 enough')
          ∙ ap (λ l. numbered off' (drop off' l)) same.0

  -- A file system that lists the directory without offsets.
  abbrev pub AllPlain : List Call → Type 0
  AllPlain [] = Unit
  AllPlain (c ∷ cs) =
      ((c.off == 0) ≡ true) × ((not (c.flags == 0) && not (c.flags == 2)) ≡ false) × AllPlain cs

  abbrev pub entry_of : Call → Direntry
  entry_of c = record { name = c.name; stat = entry_stat conf child c; flags = c.flags }

  abbrev filled_by : List Call → Bool → Bool
  filled_by [] filled = filled
  filled_by (c ∷ cs) filled = true

  fill_dir-plain :
      (c : Call) (dh : Dh)
      → (c.off == 0) ≡ true
      → (not (c.flags == 0) && not (c.flags == 2)) ≡ false
      → fill_dir conf child c dh
        ≡ (record dh { filled = true; list = dh.list ++ entry_of c ∷ [] }, false)
  unfolding fill_dir
  fill_dir-plain c dh o f = rw (f, fill_dir) (rw o refl)

  fill_all-plain :
      (cs : List Call) (dh : Dh)
      → AllPlain cs
      → ((fill_all conf child cs dh).list ≡ dh.list ++ map entry_of cs)
        × ((fill_all conf child cs dh).error ≡ dh.error)
        × ((fill_all conf child cs dh).filled ≡ filled_by cs dh.filled)
        × ((fill_all conf child cs dh).contents ≡ dh.contents)
  unfolding fill_all
  fill_all-plain [] dh p = (sym (append-nil dh.list), refl, refl, refl)
  fill_all-plain (c ∷ cs) dh p =
      let dh' = record dh { filled = true; list = dh.list ++ entry_of c ∷ [] } in
      let step = fill_dir-plain c dh p.0 p.1 in
      let rest = fill_all-plain cs dh' p.2 in
      rw step (
        rest.0 ∙ append_assoc dh.list (entry_of c ∷ []) (map entry_of cs),
        rest.1,
        rest.2 ∙ filled_by-true cs,
        rest.3,
      )
    where
      filled_by-true : (cs : List Call) → filled_by cs true ≡ true
      filled_by-true [] = refl
      filled_by-true (c ∷ cs) = refl

  names-numbered :
      (off : ℕ) (cs : List Call)
      → map (λ d. d.name) (numbered off (map entry_of cs)) ≡ map (λ c. c.name) cs
  names-numbered off [] = refl
  names-numbered off (c ∷ cs) = ap (λ l. c.name ∷ l) (names-numbered (off + 1) cs)

  module _ (calls : List Call) (lists : fs_readdir 0 ≡ (calls, 0)) (plain : AllPlain calls)
      (dh : Dh) where
    cleared : Dh
    cleared = record dh {
      contents = [];
      list = [];
      len = 0;
      error = 0;
      needlen = size;
      filled = false;
    }

    refilled : Dh
    refilled = fill_all conf child calls cleared

    readdir_fill-refilled :
        readdir_fill conf child 0 fs_readdir size 0 (record dh { filled = false }) ≡ (refilled, 0)
    unfolding readdir_fill refilled cleared
    readdir_fill-refilled =
        let e = (fill_all-plain calls cleared plain).1 in rw (lists, readdir_fill) (rw e refl)

    common-first :
        fuse_readdir_common conf child 0 fs_readdir size 0 dh
        ≡ answer refilled.filled size 0 refilled
    unfolding fuse_readdir_common readdir_common_from
    common-first = rw readdir_fill-refilled refl

    refilled-list : refilled.list ≡ map entry_of calls
    unfolding refilled cleared
    refilled-list = (fill_all-plain calls cleared plain).0

    refilled-filled : refilled.filled ≡ filled_by calls false
    unfolding refilled cleared
    refilled-filled = (fill_all-plain calls cleared plain).2

    refilled-contents : refilled.contents ≡ []
    unfolding refilled cleared
    refilled-contents = (fill_all-plain calls cleared plain).3

    read_nothing : calls ≡ [] → read_all conf child fs_readdir size b (length calls + 2) 0 dh ≡ []
    unfolding answer
    read_nothing e =
        let f : refilled.filled ≡ false = refilled-filled ∙ ap (λ l. filled_by l false) e in
        let step = common-first ∙ ap (λ t. answer t size 0 refilled) f in
        let two : length calls + 2 ≡ suc (suc (length calls)) = omega arith in
        rw two (rw step (rw refilled-contents refl))

    read_something :
        (c : Call) (cs : List Call)
        → calls ≡ c ∷ cs
        → AllFit size (map entry_of calls)
        → read_all conf child fs_readdir size b (length calls + 2) 0 dh
          ≡ numbered 0 (map entry_of calls)
    read_something c cs e fit =
        let f : refilled.filled ≡ true = refilled-filled ∙ ap (λ l. filled_by l false) e in
        let step = common-first ∙ ap (λ t. answer t size 0 refilled) f in
        let two : length calls + 2 ≡ suc (suc (length calls)) = omega arith in
        let fit' = subst (AllFit size) (sym refilled-list) fit in
        let inside : 0 ≤ length refilled.list = omega arith in
        let many : length refilled.list ≡ length calls =
          ap length refilled-list ∙ length-map calls entry_of in
        let same = after-same conf child fs_readdir size b 0 refilled fit' inside in
        let next = after conf child fs_readdir size b 0 refilled fit' inside in
        rw two (
          read_on 0 refilled fit' inside (suc (length calls)) dh step (omega (arith, many))
            (λ off z inside' enough.
              read_filled (suc (length calls)) off next (subst (AllFit size) (sym same.0) fit')
                (same.1 ∙ f) z (rw same.0 inside') (rw same.0 enough)
              ∙ ap (λ l. numbered off (drop off l)) same.0)
          ∙ ap (numbered 0) refilled-list)

    -- Reading a directory to its end, where the file system lists it without offsets and the
    -- buffer has room for each single entry: the answers, each continued from the offset of the
    -- last entry before it, hold every name that the file system gave, once and in order, and
    -- after them comes an answer without entries. It does not matter what the handle held before.
    pub read_all_complete :
        AllFit size (map entry_of calls)
        → map (λ d. d.name) (read_all conf child fs_readdir size b (length calls + 2) 0 dh)
          ≡ map (λ c. c.name) calls
    read_all_complete fit = elim (List-cases calls) [
      | inl e ↦ ap (map (λ d. d.name)) (read_nothing e) ∙ sym (ap (map (λ c. c.name)) e)
      | inr (c, cs, e) ↦ ap (map (λ d. d.name)) (read_something c cs e fit) ∙ names-numbered 0 calls
    ]
