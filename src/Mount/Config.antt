-- ===== src/Mount/Config.antt =====
-- What a user may ask of the kernel.
use fuse_study.Base.{
  ℕ, Bool, true, false, Option, none, some, List, [], ◌∷◌, ◌++◌, ◌==◌, ◌≡◌, ◌⊎◌, ◌&&◌, ◌||◌, not,
  arith, refl, sym, ap, ◌∙◌, codes, append_assoc, if◌then◌else◌, inl, inr, Bool-cases, Option-cases,
}
use fuse_study.Opt.Text.{Str, str_eq}
use fuse_study.Mount.{
  Caller, Parsed, MountFlag, mount_flags, flag_entry, find_mount_flag, set_flag, ms_nosuid,
  ms_nodev,
}
use fuse_study.Mount.Scan.{HasNoComma}

-- The options that a user's text may bring to the kernel.
pub data KernelOption : Type 0 where
  default_permissions : KernelOption
  allow_other : KernelOption
  max_read : Str → KernelOption
  blksize : Str → KernelOption

abbrev pub text : KernelOption → Str
text default_permissions = codes "default_permissions"
text allow_other = codes "allow_other"
text (max_read n) = codes "max_read=" ++ n
text (blksize n) = codes "blksize=" ++ n

-- Others may use the mount if root mounts it or the configuration says so.
abbrev pub IsAllowed : Caller → KernelOption → Type 0
IsAllowed who default_permissions = Unit
IsAllowed who allow_other = (who.root ≡ true) ⊎ (who.user_allow_other ≡ true)
IsAllowed who (max_read n) = HasNoComma n
IsAllowed who (blksize n) = HasNoComma n

abbrev pub AreAllowed : Caller → List KernelOption → Type 0
AreAllowed who [] = Unit
AreAllowed who (o ∷ os) = IsAllowed who o × AreAllowed who os

-- Each with a comma behind it.
abbrev pub joined : List KernelOption → Str
joined [] = []
joined (o ∷ os) = text o ++ b',' ∷ joined os

pub joined-append :
    (os : List KernelOption) (o : KernelOption)
    → joined (os ++ o ∷ []) ≡ joined os ++ text o ++ b',' ∷ []
joined-append [] o = refl
joined-append (o' ∷ os) o = rw (joined-append os o) (simp append_assoc refl)

pub AreAllowed-append :
    (who : Caller) (os : List KernelOption) (o : KernelOption)
    → AreAllowed who os
    → IsAllowed who o
    → AreAllowed who (os ++ o ∷ [])
AreAllowed-append who [] o h k = (k, tt)
AreAllowed-append who (o' ∷ os) o (h, hs) k = (h, AreAllowed-append who os o hs k)

-- What the mount keeps of its protection.
pub record IsHarmless (who : Caller) (p : Parsed) : Type 0 where
  pub options : List KernelOption
  pub allowed : AreAllowed who options
  pub optbuf : p.optbuf ≡ joined options
  pub nosuid : (who.root ≡ true) ⊎ (p.flags ms_nosuid ≡ true)
  pub nodev : (who.root ≡ true) ⊎ (p.flags ms_nodev ≡ true)
  pub blkdev : (who.root ≡ true) ⊎ (p.blkdev ≡ false)

-- A safe entry of the table sets MS_NOSUID or MS_NODEV, or leaves them alone.
abbrev spares : MountFlag → Bool
spares m = not m.safe || (m.on || not ((m.flag == ms_nosuid) || (m.flag == ms_nodev)))

abbrev all_spare : List MountFlag → Bool
all_spare [] = true
all_spare (m ∷ ms) = spares m && all_spare ms

mount_flags-spare : all_spare mount_flags ≡ true
unfolding mount_flags
mount_flags-spare = refl

found_spares : Option MountFlag → Bool
found_spares none = true
found_spares (some m) = spares m

flag_entry-spares :
    (ms : List MountFlag) (s : Str) → all_spare ms ≡ true → found_spares (flag_entry ms s) ≡ true
unfolding flag_entry found_spares
flag_entry-spares [] s all = refl
flag_entry-spares (m ∷ ms) s all = elim (Bool-cases (str_eq m.opt s)) [
  | inl e ↦ rw e (ground (arith, all))
  | inr e ↦ rw e (flag_entry-spares ms s (ground (arith, all)))
]

-- The bit `n` after an option for the flags.
abbrev pub after_flag : Option (Bool × Option ℕ) → (ℕ → Bool) → ℕ → Bool
after_flag none flags n = flags n
after_flag (some (on, flag)) flags n = set_flag on flag flags n

kept_by :
    (m : MountFlag) (flags : ℕ → Bool) (n : ℕ)
    → spares m ≡ true
    → (n ≡ ms_nosuid) ⊎ (n ≡ ms_nodev)
    → flags n ≡ true
    → set_flag m.on (if not m.safe && true then none else some m.flag) flags n ≡ true
kept_by m flags n spared which set = elim (Bool-cases m.safe) [
  | inl e ↦ rw e (ground (arith, spared, which, set, e))
  | inr e ↦ rw e set
]

spared : (s : Str) (m : MountFlag) → flag_entry mount_flags s ≡ some m → spares m ≡ true
unfolding found_spares
spared s m e = sym (ap found_spares e) ∙ flag_entry-spares mount_flags s mount_flags-spare

-- `find_mount_flag` clears neither for a user that is not root.
pub find_mount_flag-spares :
    (s : Str) (flags : ℕ → Bool) (n : ℕ)
    → (n ≡ ms_nosuid) ⊎ (n ≡ ms_nodev)
    → flags n ≡ true
    → after_flag (find_mount_flag false s) flags n ≡ true
unfolding find_mount_flag
find_mount_flag-spares s flags n which set = elim (Option-cases (flag_entry mount_flags s)) [
  | inl e ↦ rw (find_mount_flag, e) set
  | inr (m, e) ↦ rw (find_mount_flag, e) (kept_by m flags n (spared s m e) which set)
]
