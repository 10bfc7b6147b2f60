-- ===== src/TreeLock/Tests.antt =====
-- Runs of `try_get_path`, and the theorems at a concrete tree: node 5 is "a/b" below node 4, "a".
use fuse_study.Base.{
  ℕ, true, false, ◌+◌, ◌*◌, ◌<◌, Option, none, some, List, [], ◌∷◌, ◌==◌, ◌≡◌, ◌≢◌, arith, ◌⊎◌,
  refl, if◌then◌else◌,
}
use fuse_study.TreeLock.{
  unlocked, set_lock, unlock_path, unlock_chain, climb, after_climb, try_get_path, got, refused,
  eagain, treelock_write,
}
use fuse_study.TreeLock.Readers.{reader-excludes, writer-excludes}
use fuse_study.TreeLock.Queue.{
  Waiting, queue_element_wakeup, wakeup_by, wake_up_queued, free_path_wrlock, get_path_common,
}
use fuse_study.TreeLock.Wakeup.{AllServed, load, free_path-wakes, get_path_common-served}
use fuse_study.TreeLock.Paths.{IsMarked}
use fuse_study.TreeLock.Pair.{Request, got_both, refused_both, try_get_path2, unlock_both}
use fuse_study.TreeLock.Pairs.{try_get_path2-got, try_get_path2-refused}

abbrev tree : ℕ → Option (List ℕ)
tree n = if n == 4 then some (b'a' ∷ []) else if n == 5 then some (b'b' ∷ []) else none

abbrev chain_of_5 : List ℕ
chain_of_5 = 5 ∷ 4 ∷ []

abbrev no_locks : ℕ → ℕ
no_locks n = unlocked

abbrev writer : Option ℕ
writer = some 9

abbrev removing : ℕ → ℕ
removing = set_lock no_locks 4 treelock_write

got_run :
    (try_get_path tree true writer (some (b'c' ∷ [])) chain_of_5 no_locks).0
    ≡ got (b'/' ∷ b'a' ∷ b'/' ∷ b'b' ∷ b'/' ∷ b'c' ∷ []) writer
unfolding try_get_path climb after_climb
got_run = refl

refused_run : (try_get_path tree true none none chain_of_5 removing).0 ≡ refused eagain
unfolding try_get_path climb after_climb
refused_run = refl

read_run :
    (try_get_path tree true none none chain_of_5 no_locks).0
    ≡ got (b'/' ∷ b'a' ∷ b'/' ∷ b'b' ∷ []) none
unfolding try_get_path climb after_climb
read_run = refl

reader-excludes_example :
    (try_get_path tree true
      (some 5)
      (some (b'b' ∷ []))
      (4 ∷ [])
      (try_get_path tree true none none chain_of_5 no_locks).1).0
    ≡ refused eagain
reader-excludes_example =
    reader-excludes tree none none (some (b'b' ∷ [])) chain_of_5 (4 ∷ [])
      (b'/' ∷ b'a' ∷ b'/' ∷ b'b' ∷ []) no_locks 5 read_run (omega arith)

write_run :
    (try_get_path tree true (some 5) (some (b'b' ∷ [])) (4 ∷ []) no_locks).0
    ≡ got (b'/' ∷ b'a' ∷ b'/' ∷ b'b' ∷ []) (some 5)
unfolding try_get_path climb after_climb
write_run = refl

writer-excludes_example :
    (try_get_path tree true none none chain_of_5
      (try_get_path tree true (some 5) (some (b'b' ∷ [])) (4 ∷ []) no_locks).1).0
    ≢ got [] none
writer-excludes_example =
    writer-excludes tree 5 (some 5) none none (some (b'b' ∷ [])) none (4 ∷ []) chain_of_5
      (b'/' ∷ b'a' ∷ b'/' ∷ b'b' ∷ []) [] no_locks write_run (omega arith)

-- A reader of "a/b" that waits while "a" is being removed.
abbrev reader : Waiting
reader = record {
  ticket = 1;
  wants_path = true;
  node = 5;
  wnode = none;
  name = none;
  chain = chain_of_5;
  done = false;
  signalled = false;
  err = 0;
  path = [];
}

wait_run : (get_path_common tree reader [] removing).0 ≡ (none, reader ∷ [])
unfolding get_path_common try_get_path climb after_climb
wait_run = refl

woken_run :
    (free_path_wrlock tree (some 4) [] (reader ∷ []) removing).0
    ≡ record reader { done = true; signalled = true; path = b'/' ∷ b'a' ∷ b'/' ∷ b'b' ∷ [] } ∷ []
unfolding free_path_wrlock unlock_path unlock_chain wake_up_queued queue_element_wakeup wakeup_by
    try_get_path climb after_climb
woken_run = refl

unlocked_run : (n : ℕ) → unlock_path (some 4) none [] removing n + load (reader ∷ []) < 2 * unlocked
unfolding unlock_path unlock_chain
unlocked_run n = ground arith

free_path-wakes_example :
    AllServed tree
      (free_path_wrlock tree (some 4) [] (reader ∷ []) removing).1
      (free_path_wrlock tree (some 4) [] (reader ∷ []) removing).0
free_path-wakes_example = free_path-wakes tree (some 4) [] (reader ∷ []) removing unlocked_run

small_run : (n : ℕ) → removing n < 2 * unlocked
small_run n = ground arith

get_path_common-served_example :
    AllServed tree
      (get_path_common tree reader [] removing).1
      (get_path_common tree reader [] removing).0.1
get_path_common-served_example = get_path_common-served tree reader [] removing small_run tt

-- A rename of "a/b/c", which is node 9, to "a/d", and one onto "a" itself.
abbrev source : Request
source = record { wnode = writer; name = some (b'c' ∷ []); chain = chain_of_5 }

abbrev target : Request
target = record { wnode = none; name = some (b'd' ∷ []); chain = 4 ∷ [] }

abbrev above : Request
above = record { wnode = some 4; name = some (b'a' ∷ []); chain = [] }

both_run :
    (try_get_path2 tree source target no_locks).0
    ≡ got_both
        (b'/' ∷ b'a' ∷ b'/' ∷ b'b' ∷ b'/' ∷ b'c' ∷ [])
        writer
        (b'/' ∷ b'a' ∷ b'/' ∷ b'd' ∷ [])
        none
unfolding try_get_path2 try_get_path climb after_climb
both_run = refl

above_run :
    ((try_get_path2 tree source above no_locks).0 ≡ refused_both eagain)
    × ((try_get_path2 tree source above no_locks).1 4 ≡ unlocked)
unfolding try_get_path2 try_get_path climb after_climb unlock_path unlock_chain
above_run = (refl, refl)

try_get_path2-got_example :
    unlock_both writer chain_of_5 none (4 ∷ []) (try_get_path2 tree source target no_locks).1 4
    ≡ no_locks 4
try_get_path2-got_example =
    try_get_path2-got tree source target no_locks (b'/' ∷ b'a' ∷ b'/' ∷ b'b' ∷ b'/' ∷ b'c' ∷ [])
      (b'/' ∷ b'a' ∷ b'/' ∷ b'd' ∷ []) writer none 4 both_run

try_get_path2-refused_example :
    ((try_get_path2 tree source above no_locks).1 4 ≡ no_locks 4)
    ⊎ (IsMarked writer no_locks (try_get_path2 tree source above no_locks).1 4
        ⊎ IsMarked (some 4) no_locks (try_get_path2 tree source above no_locks).1 4)
try_get_path2-refused_example =
    try_get_path2-refused tree source above no_locks eagain 4 above_run.0
