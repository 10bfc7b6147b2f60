-- ===== src/Readdir/Listing.antt =====
-- A directory that is read to its end: every entry that the file system gave, once and in order.
use fuse_study.Base.{
  ℕ, zero, suc, false, List, [], ◌∷◌, ◌++◌, ◌≡◌, ◌≤◌, ◌<◌, ◌+◌, ◌-◌, ◌%◌, ◌^◌, arith, refl,
  Bool-cases, length, drop, take, ap, sym, ◌∙◌, append_assoc, ltb, inl, inr, append-nil,
}
use fuse_study.Readdir.{Direntry, Dirent, dirent_size, dirent_type, fuse_add_direntry, fill_list}

-- The entries behind position `pos`, each with the offset that continues behind it.
abbrev pub numbered : ℕ → List Direntry → List Dirent
numbered pos [] = []
numbered pos (de ∷ des) =
    record {
      ino = de.stat.st_ino;
      off = pos + 1;
      kind = dirent_type de.stat.st_mode;
      name = de.name;
    }
    ∷ numbered (pos + 1) des

abbrev pub last_off : ℕ → List Dirent → ℕ
last_off off [] = off
last_off off (d ∷ ds) = last_off d.off ds

-- Each name fits the buffer.
abbrev pub AllFit : ℕ → List Direntry → Type 0
AllFit size [] = Unit
AllFit size (de ∷ des) = (dirent_size de.name ≤ size) × AllFit size des

pub AllFit-drop : (n size : ℕ) (des : List Direntry) → AllFit size des → AllFit size (drop n des)
AllFit-drop zero size des f = f
AllFit-drop (suc n) size [] f = f
AllFit-drop (suc n) size (d ∷ des) f = AllFit-drop n size des f.1

pub last_off-numbered :
    (off : ℕ) (des : List Direntry) → last_off off (numbered off des) ≡ off + length des
last_off-numbered off [] = omega arith
last_off-numbered off (de ∷ des) = omega (arith, last_off-numbered (off + 1) des)

pub numbered-append :
    (pos : ℕ) (des es : List Direntry)
    → numbered pos (des ++ es) ≡ numbered pos des ++ numbered (pos + length des) es
numbered-append pos [] es = let e : pos ≡ pos + 0 = omega arith in ap (λ p. numbered p es) e
numbered-append pos (de ∷ des) es =
    let e : pos + 1 + length des ≡ pos + suc (length des) = omega arith in
    ap (λ l. numbered pos (de ∷ []) ++ l)
      (numbered-append (pos + 1) des es ∙ ap (λ p. numbered (pos + 1) des ++ numbered p es) e)

-- A round of the loop takes some of the entries, and at least one if there is room for it.
fill_list-takes :
    (size pos : ℕ) (des : List Direntry) (contents : List Dirent) (len : ℕ)
    → size < 2 ^ 31
    → AllFit size des
    → len ≤ size
    → (k : ℕ) × ((fill_list size pos des contents len).0 ≡ contents ++ numbered pos (take k des))
unfolding fill_list fuse_add_direntry
fill_list-takes size pos [] contents len b f h = (0, sym (append-nil contents))
fill_list-takes size pos (de ∷ des) contents len b f h =
    let newlen = (len + dirent_size de.name) % 2 ^ 32 in
    let r = fuse_add_direntry contents (size - len) de.name de.stat (pos + 1) in
    elim (Bool-cases (ltb size newlen)) [
      | inl full ↦ (0, rw (full, fill_list) (sym (append-nil contents)))
      | inr room ↦
          let fits : ltb (size - len) (dirent_size de.name) ≡ false =
            ground (arith, room, f.0, h, b) in
          let rest = fill_list-takes size (pos + 1) des r.1 newlen b f.1 (ground (arith, room)) in
          let grown : r.1 ≡ contents ++ numbered pos (de ∷ []) = rw fits refl in
          let step : r.1 ++ numbered (pos + 1) (take rest.0 des)
              ≡ contents ++ numbered pos (de ∷ take rest.0 des) =
            ap (λ c. c ++ numbered (pos + 1) (take rest.0 des)) grown ∙ append_assoc contents _ _ in
          (suc rest.0, rw (room, fill_list) (rest.1 ∙ step))
    ]

-- With room for the first entry, at least one is taken.
pub fill_list-first :
    (size pos : ℕ) (de : Direntry) (des : List Direntry)
    → size < 2 ^ 31
    → AllFit size (de ∷ des)
    → (k : ℕ) × ((fill_list size pos (de ∷ des) [] 0).0 ≡ numbered pos (de ∷ take k des))
unfolding fill_list fuse_add_direntry
fill_list-first size pos de des b f =
    let room : ltb size ((0 + dirent_size de.name) % 2 ^ 32) ≡ false = ground (arith, f.0, b) in
    let fits : ltb (size - 0) (dirent_size de.name) ≡ false = ground (arith, f.0) in
    let rest =
      fill_list-takes size (pos + 1) des (numbered pos (de ∷ []))
        ((0 + dirent_size de.name) % 2 ^ 32) b f.1 (ground (arith, room)) in
    (rest.0, rw (room, fill_list) (rw (fits, fill_list) rest.1))
