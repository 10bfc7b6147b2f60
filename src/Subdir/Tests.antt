-- ===== src/Subdir/Tests.antt =====
-- Tests and examples for the module subdir.
use fuse_study.Base.{ℕ, true, some, [], ◌∷◌, ◌≡◌, ◌+◌, arith, refl}
use fuse_study.Subdir.{
  Str, Subdir, transform_symlink, strip_common, skip_slashes, skip_equal, again, strip_loop,
  relative, count_components, count_loop, skip_name, up, rename, Result, done, subdir_oper,
}
use fuse_study.Subdir.Components.{components, split}
use fuse_study.Subdir.Links.{IsSameLink, transform_symlink-IsSameLink, resolve}
use fuse_study.Subdir.Confined.{Located, locate, over, subdir_oper-locate}

-- "/a/"
abbrev base : Str
base = b'/' ∷ b'a' ∷ b'/' ∷ []

-- "/a/b/l"
abbrev link_path : Str
link_path = b'/' ∷ b'a' ∷ b'/' ∷ b'b' ∷ b'/' ∷ b'l' ∷ []

-- "/a/c"
abbrev target : Str
target = b'/' ∷ b'a' ∷ b'/' ∷ b'c' ∷ []

abbrev moved : Subdir
moved = record { base = base; rellinks = true }

link_test : transform_symlink moved link_path target 16 ≡ b'.' ∷ b'.' ∷ b'/' ∷ b'c' ∷ []
unfolding transform_symlink strip_common strip_loop skip_slashes skip_equal again relative
    count_components count_loop skip_name up
link_test = refl

transform_symlink-IsSameLink_example :
    IsSameLink link_path target 16 (transform_symlink moved link_path target 16)
unfolding split
transform_symlink-IsSameLink_example =
    transform_symlink-IsSameLink moved link_path target 16
      (refl, refl, (refl, refl, (refl, refl, tt))) (omega arith)

-- A file system that counts its calls.
abbrev counting : Located → ℕ → Result × ℕ
counting c n = (done 0, n + 1)

-- "a"
abbrev dir : Str
dir = b'a' ∷ []

subdir_oper-locate_example :
    subdir_oper
      (λ c. counting (locate [] c))
      (λ n. true)
      (over dir)
      (rename (some link_path) (some target) 0)
      3
    ≡ counting (locate (resolve [] (components dir)) (rename (some link_path) (some target) 0)) 3
subdir_oper-locate_example =
    subdir_oper-locate counting dir (λ n. true) (rename (some link_path) (some target) 0) 3
      (λ n. refl) tt
