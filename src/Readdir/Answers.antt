-- ===== src/Readdir/Answers.antt =====
-- The answers to `readdir`: never longer than what was asked for.
use fuse_study.Base.{
  ℕ, Bool, true, false, Option, List, [], ◌==◌, ◌≡◌, ◌≤◌, ◌<◌, ◌^◌, ◌⊎◌, inl, inr, arith, refl,
  Bool-cases, if◌then◌else◌, length, drop, min, if_both,
}
use fuse_study.Readdir.{
  Dh, Call, Config, fill_all, readdir_fill, readdir_fill_from_list, extend_contents, Reply,
  reply_err, reply_buf, answer, readdir_common_from, fuse_readdir_common,
}
use fuse_study.Readdir.Sizes.{
  total, Within, CallsShort, AllShort-drop, extend_contents-size, fill_list-total, fill_all-Within,
  Keeps,
}

-- An answer is an error, or entries with their exact length, within what was asked for and, if
-- there are any, within the buffer.
abbrev pub FitsAnswer : ℕ → Reply × Dh → Type 0
FitsAnswer size (reply_err e, dh) = Within dh
FitsAnswer size (reply_buf contents len, dh) =
    Within dh × (total contents ≡ len) × (len ≤ size) × ((len ≡ 0) ⊎ (size ≤ dh.size))

readdir_fill_from_list-Within :
    (off size : ℕ) (dh : Dh)
    → size < 2 ^ 31
    → Within dh
    → Keeps size (readdir_fill_from_list off (record dh { needlen = size }))
unfolding readdir_fill_from_list extend_contents
readdir_fill_from_list-Within off size dh b w =
    let t =
      fill_list-total size (min off (length dh.list)) (drop off dh.list) [] 0 b
        (AllShort-drop off dh.list w.short) refl (omega arith) in
    (
      record {
        exact = t.0;
        asked = t.1;
        allocated =
            inr (extend_contents-size (record dh { needlen = size }) size (omega (arith, b)));
        short = w.short;
      },
      refl,
    )

answer-FitsAnswer :
    (filled : Bool) (size off : ℕ) (dh : Dh)
    → size < 2 ^ 31
    → Within dh
    → (filled ≡ true) ⊎ (dh.needlen ≡ size)
    → FitsAnswer size (answer filled size off dh)
unfolding answer
answer-FitsAnswer true size off dh b w e =
    let k = readdir_fill_from_list-Within off size dh b w in
    (
      k.0,
      k.0.exact,
      omega (arith, k.0.asked, k.1),
      elim k.0.allocated [ inl z ↦ inl z | inr h ↦ inr (omega (arith, h, k.1)) ],
    )
answer-FitsAnswer false size off dh b w (inr e) = (
  w,
  w.exact,
  omega (arith, w.asked, e),
  elim w.allocated [ inl z ↦ inl z | inr h ↦ inr (omega (arith, h, e)) ],
)
answer-FitsAnswer false size off dh b w (inl e) = absurd (ground (arith, e))

module _ (conf : Config) (child : List ℕ → Option ℕ) (path_err : ℕ) (fs_readdir : ℕ → List Call × ℕ)
    (size off : ℕ) (b : size < 2 ^ 31) (short : CallsShort (fs_readdir off).0) where
  -- A handle after `readdir_fill`, for as much as was asked for unless there is an error.
  abbrev Refilled : Dh × ℕ → Type 0
  Refilled (dh, err) = Within dh × ((dh.needlen ≡ size) ⊎ ((err == 0) ≡ false))

  readdir_fill-Refilled :
      (dh : Dh) → Within dh → Refilled (readdir_fill conf child path_err fs_readdir size off dh)
  unfolding readdir_fill
  readdir_fill-Refilled dh w =
      let cleared : Dh = record dh {
        contents = [];
        list = [];
        len = 0;
        error = 0;
        needlen = size;
        filled = false;
      } in
      let k =
        fill_all-Within conf child (fs_readdir off).0 cleared short (omega (arith, b))
          (record { exact = refl; asked = omega arith; allocated = inl refl; short = tt }) in
      let dh' = fill_all conf child (fs_readdir off).0 cleared in
      let err = if (fs_readdir off).1 == 0 then dh'.error else (fs_readdir off).1 in
      let spoiled : Dh = record dh' { filled = false } in
      elim (Bool-cases (path_err == 0)) [
        | inr f ↦ rw (f, readdir_fill) (w, inr f)
        | inl p ↦
            rw (p, readdir_fill)
              (
                if_both Within (err == 0) dh' spoiled k.0 (record {
                  exact = k.0.exact;
                  asked = k.0.asked;
                  allocated = k.0.allocated;
                  short = k.0.short;
                }),
                inl (if_both (λ d. d.needlen ≡ size) (err == 0) dh' spoiled k.1 k.1),
              )
      ]

  readdir_common_from-FitsAnswer :
      (filled : Bool) (dh : Dh)
      → Within dh
      → FitsAnswer size (readdir_common_from conf child path_err fs_readdir size off filled dh)
  unfolding readdir_common_from
  readdir_common_from-FitsAnswer true dh w = answer-FitsAnswer true size off dh b w (inl refl)
  readdir_common_from-FitsAnswer false dh w =
      let r = readdir_fill conf child path_err fs_readdir size off dh in
      let f : Refilled r = readdir_fill-Refilled dh w in
      elim (Bool-cases (r.1 == 0)) [
        | inr e ↦ rw (e, readdir_common_from) f.0
        | inl e ↦
            rw (e, readdir_common_from)
              (answer-FitsAnswer r.0.filled size off r.0 b f.0
                (elim f.1 [ inl n ↦ inr n | inr n ↦ absurd (ground (arith, e, n)) ]))
      ]

  -- Whatever the file system's `readdir` does, with names shorter than 2^30 bytes and for a
  -- request of less than 2^31 bytes: the answer is an error, or its length is that of its entries,
  -- at most what was asked for and within the buffer; and the handle is again such that this
  -- holds of the next request.
  pub fuse_readdir_common-FitsAnswer :
      (dh : Dh)
      → Within dh
      → FitsAnswer size (fuse_readdir_common conf child path_err fs_readdir size off dh)
  unfolding fuse_readdir_common
  fuse_readdir_common-FitsAnswer dh w =
      readdir_common_from-FitsAnswer (if off == 0 then false else dh.filled)
        (if off == 0 then record dh { filled = false } else dh)
        (if_both Within (off == 0) (record dh { filled = false }) dh
          (record { exact = w.exact; asked = w.asked; allocated = w.allocated; short = w.short }) w)
