-- ===== src/Readdir/Tests.antt =====
-- Runs of the reading of a directory, and the theorems at a concrete one.
use fuse_study.Base.{ℕ, false, Option, none, List, [], ◌∷◌, ◌≡◌, ◌<◌, ◌^◌, refl, arith, map, inl}
use fuse_study.Readdir.{
  Call, Config, Dh, fill_dir, fill_all, fill_list, readdir_fill, readdir_fill_from_list,
  extend_contents, grow, fuse_add_direntry, answer, readdir_common_from, fuse_readdir_common,
  fill_buffer,
}
use fuse_study.Readdir.Sizes.{Within, CallsShort}
use fuse_study.Readdir.Answers.{FitsAnswer, fuse_readdir_common-FitsAnswer}
use fuse_study.Readdir.Listing.{AllFit}
use fuse_study.Readdir.Reading.{read_all, entries}
use fuse_study.Readdir.Complete.{AllPlain, entry_of, read_all_complete}

abbrev conf : Config
conf = record { use_ino = false; readdir_ino = false }

abbrev no_child : List ℕ → Option ℕ
no_child name = none

abbrev plain_call : List ℕ → Call
plain_call name = record { name = name; statp = none; off = 0; flags = 0 }

abbrev three : List Call
three = plain_call (b'a' ∷ []) ∷ plain_call (b'b' ∷ []) ∷ plain_call (b'c' ∷ []) ∷ []

abbrev lists : ℕ → List Call × ℕ
lists off = (three, 0)

abbrev opened : Dh
opened = record {
  contents = [];
  len = 0;
  size = 0;
  needlen = 0;
  filled = false;
  error = 0;
  list = [];
}

-- 64 bytes have room for two of the three entries.
first_run :
    map (λ d. d.name) (entries (fuse_readdir_common conf no_child 0 lists 64 0 opened).0)
    ≡ (b'a' ∷ []) ∷ (b'b' ∷ []) ∷ []
unfolding fuse_readdir_common readdir_common_from readdir_fill fill_all fill_dir answer
    readdir_fill_from_list fill_list fuse_add_direntry extend_contents grow
first_run = refl

-- With offsets, an entry that does not fit stops the file system.
abbrev offset_call : List ℕ → ℕ → Call
offset_call name off = record { name = name; statp = none; off = off; flags = 0 }

abbrev lists_offsets : ℕ → List Call × ℕ
lists_offsets off = (offset_call (b'a' ∷ []) 1 ∷ offset_call (b'b' ∷ []) 2 ∷ [], 0)

offset_run :
    map (λ d. d.off) (entries (fuse_readdir_common conf no_child 0 lists_offsets 40 0 opened).0)
    ≡ 1 ∷ []
unfolding fuse_readdir_common readdir_common_from readdir_fill fill_all fill_dir fill_buffer answer
    fuse_add_direntry extend_contents grow
offset_run = refl

three_short : CallsShort three
three_short = (omega arith, (omega arith, (omega arith, tt)))

opened-Within : Within opened
opened-Within = record { exact = refl; asked = omega arith; allocated = inl refl; short = tt }

fuse_readdir_common-FitsAnswer_example :
    FitsAnswer 64 (fuse_readdir_common conf no_child 0 lists 64 0 opened)
fuse_readdir_common-FitsAnswer_example =
    fuse_readdir_common-FitsAnswer conf no_child 0 lists 64 0 (omega arith) three_short opened
      opened-Within

small : 64 < 2 ^ 31
small = omega arith

three_plain : AllPlain conf no_child lists 64 small three
three_plain = (refl, refl, (refl, refl, (refl, refl, tt)))

three_fit : AllFit 64 (map (entry_of conf no_child lists 64 small) three)
three_fit = (omega arith, (omega arith, (omega arith, tt)))

read_all_complete_example :
    map (λ d. d.name) (read_all conf no_child lists 64 small 5 0 opened)
    ≡ (b'a' ∷ []) ∷ (b'b' ∷ []) ∷ (b'c' ∷ []) ∷ []
read_all_complete_example =
    read_all_complete conf no_child lists 64 small three refl three_plain opened three_fit
