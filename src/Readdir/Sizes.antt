-- ===== src/Readdir/Sizes.antt =====
-- The buffer of a directory handle is never written past its end, and never past what was asked.
use fuse_study.Base.{
  ℕ, zero, suc, Bool, true, false, Option, List, [], ◌∷◌, ◌++◌, ◌==◌, ◌≡◌, ◌≤◌, ◌<◌, ◌+◌, ◌-◌, ◌*◌,
  ◌%◌, ◌^◌, ◌⊎◌, inl, inr, arith, refl, Bool-cases, if◌then◌else◌, length, drop, ltb, leb, ◌∙◌,
  if_both, not, ◌&&◌,
}
use fuse_study.Readdir.{
  Direntry, Dirent, Dh, Call, Config, dirent_size, fuse_add_direntry, grow, extend_contents, eio,
  is_empty, fill_buffer, fill_dir, fill_all, entry_stat, fill_list,
}

abbrev pub total : List Dirent → ℕ
total [] = 0
total (d ∷ ds) = dirent_size d.name + total ds

total-append : (ds es : List Dirent) → total (ds ++ es) ≡ total ds + total es
total-append [] es = omega arith
total-append (d ∷ ds) es = omega (arith, total-append ds es)

-- The loop of `extend_contents` ends with room for `minsize` bytes.
grow-enough :
    (fuel minsize newsize : ℕ)
    → minsize < 2 ^ 32
    → 0 < newsize
    → minsize ≤ newsize + fuel
    → minsize ≤ grow fuel minsize newsize
unfolding grow
grow-enough zero minsize newsize b p h = omega arith
grow-enough (suc fuel) minsize newsize b p h = elim (Bool-cases (leb (2 ^ 31) newsize)) [
  | inl big ↦
      ground (arith, big, grow-enough fuel minsize (2 ^ 32 - 1) b (omega arith) (omega arith))
  | inr few ↦
      ground (arith, few, grow-enough fuel minsize (newsize * 2) b (omega arith) (omega arith))
]

pub extend_contents-size :
    (dh : Dh) (minsize : ℕ) → minsize < 2 ^ 32 → minsize ≤ (extend_contents dh minsize).size
unfolding extend_contents
extend_contents-size dh minsize b =
    ground (arith, b, grow-enough minsize minsize 1024 b, grow-enough minsize minsize dh.size b)

-- No name has 2^30 bytes, so that no length wraps.
abbrev pub AllShort : List Direntry → Type 0
AllShort [] = Unit
AllShort (de ∷ des) = (length de.name < 2 ^ 30) × AllShort des

abbrev pub CallsShort : List Call → Type 0
CallsShort [] = Unit
CallsShort (c ∷ cs) = (length c.name < 2 ^ 30) × CallsShort cs

AllShort-append :
    (des : List Direntry) (de : Direntry)
    → AllShort des
    → length de.name < 2 ^ 30
    → AllShort (des ++ de ∷ [])
AllShort-append [] de s h = (h, tt)
AllShort-append (d ∷ des) de s h = (s.0, AllShort-append des de s.1 h)

pub AllShort-drop : (n : ℕ) (des : List Direntry) → AllShort des → AllShort (drop n des)
AllShort-drop zero des s = s
AllShort-drop (suc n) [] s = s
AllShort-drop (suc n) (d ∷ des) s = AllShort-drop n des s.1

-- What is in the buffer is as long as `len` says, and within what was asked for and allocated.
pub record Within (dh : Dh) : Type 0 where
  pub exact : total dh.contents ≡ dh.len
  pub asked : dh.len ≤ dh.needlen
  pub allocated : (dh.len ≡ 0) ⊎ (dh.needlen ≤ dh.size)
  pub short : AllShort dh.list

-- The buffer is sound and as much is asked for as before.
abbrev pub Keeps : ℕ → Dh → Type 0
Keeps needlen dh = Within dh × (dh.needlen ≡ needlen)

module _ (conf : Config) (child : List ℕ → Option ℕ) where
  fill_buffer-Within :
      (c : Call) (dh : Dh)
      → dh.needlen < 2 ^ 32
      → Within dh
      → Keeps dh.needlen (fill_buffer conf child c dh).0
  unfolding fill_buffer fuse_add_direntry extend_contents
  fill_buffer-Within c dh b w = elim (Bool-cases (ltb dh.needlen (dh.len + dirent_size c.name))) [
    | inl full ↦
        rw (full, fill_buffer)
          (
            record {
              exact = w.exact;
              asked = w.asked;
              allocated = inr (extend_contents-size dh dh.needlen b);
              short = w.short;
            },
            refl,
          )
    | inr room ↦
        let fits : ltb (dh.needlen - dh.len) (dirent_size c.name) ≡ false =
          ground (arith, room, w.asked) in
        rw (room, fill_buffer)
          (rw (fits, fill_buffer)
            (
              record {
                exact = total-append dh.contents _ ∙ omega (arith, w.exact);
                asked = ground (arith, room);
                allocated = inr (extend_contents-size dh dh.needlen b);
                short = w.short;
              },
              refl,
            ))
  ]

  fill_dir-Within :
      (c : Call) (dh : Dh)
      → length c.name < 2 ^ 30
      → dh.needlen < 2 ^ 32
      → Within dh
      → Keeps dh.needlen (fill_dir conf child c dh).0
  unfolding fill_dir
  fill_dir-Within c dh h b w =
      let P = λ (r : Dh × Bool). Keeps dh.needlen r.0 in
      let refuse : Dh × Bool = (record dh { error = eio }, true) in
      let kept : Dh × Bool = (
        record dh {
          filled = true;
          list =
              dh.list
              ++ record { name = c.name; stat = entry_stat conf child c; flags = c.flags } ∷ [];
        },
        false,
      ) in
      let written = fill_buffer conf child c dh in
      let clash : Dh × Bool = if not (is_empty dh.list) then refuse else written in
      let late : Dh × Bool = if dh.filled then refuse else clash in
      let no : P refuse = (
        record { exact = w.exact; asked = w.asked; allocated = w.allocated; short = w.short },
        refl,
      ) in
      if_both P (not (c.flags == 0) && not (c.flags == 2)) refuse
        (if c.off == 0 then kept else late) no
        (if_both P (c.off == 0) kept late
          (
            record {
              exact = w.exact;
              asked = w.asked;
              allocated = w.allocated;
              short = AllShort-append dh.list _ w.short h;
            },
            refl,
          )
          (if_both P dh.filled refuse clash no
            (if_both P (not (is_empty dh.list)) refuse written no (fill_buffer-Within c dh b w))))

  pub fill_all-Within :
      (cs : List Call) (dh : Dh)
      → CallsShort cs
      → dh.needlen < 2 ^ 32
      → Within dh
      → Keeps dh.needlen (fill_all conf child cs dh)
  unfolding fill_all
  fill_all-Within [] dh h b w = (w, refl)
  fill_all-Within (c ∷ cs) dh h b w =
      let k = fill_dir-Within c dh h.0 b w in
      let rest = fill_all-Within cs (fill_dir conf child c dh).0 h.1 (rw k.1 b) k.0 in
      if_both (Keeps dh.needlen) (fill_dir conf child c dh).1 (fill_dir conf child c dh).0
        (fill_all conf child cs (fill_dir conf child c dh).0) k (rest.0, rest.1 ∙ k.1)

pub fill_list-total :
    (needlen pos : ℕ) (des : List Direntry) (contents : List Dirent) (len : ℕ)
    → needlen < 2 ^ 31
    → AllShort des
    → total contents ≡ len
    → len ≤ needlen
    → (total (fill_list needlen pos des contents len).0
        ≡ (fill_list needlen pos des contents len).1)
      × ((fill_list needlen pos des contents len).1 ≤ needlen)
unfolding fill_list fuse_add_direntry
fill_list-total needlen pos [] contents len b s e h = (e, h)
fill_list-total needlen pos (de ∷ des) contents len b s e h =
    let r = fuse_add_direntry contents (needlen - len) de.name de.stat (pos + 1) in
    let newlen = (len + dirent_size de.name) % 2 ^ 32 in
    elim (Bool-cases (ltb needlen newlen)) [
      | inl full ↦ rw (full, fill_list) (e, h)
      | inr room ↦
          let exact : newlen ≡ len + dirent_size de.name = omega (arith, s.0) in
          let fits : ltb (needlen - len) (dirent_size de.name) ≡ false =
            ground (arith, room, exact, h) in
          let longer : total r.1 ≡ newlen =
            rw fits (total-append contents _ ∙ omega (arith, e, exact)) in
          rw (room, fill_list)
            (fill_list-total needlen (pos + 1) des r.1 newlen b s.1 longer (ground (arith, room)))
    ]
