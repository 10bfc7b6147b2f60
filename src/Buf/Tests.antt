-- ===== src/Buf/Tests.antt =====
-- The theorems on lib/buffer.c at concrete vectors, with calls that move everything.
use fuse_study.Base.{ℕ, true, false, Option, some, List, [], ◌∷◌, ◌++◌, ◌+◌, ◌≡◌, ◌<◌, refl, arith}
use fuse_study.Buf.{Buf, BufVec, CopyFlags, count, Sys, fuse_buf_write}
use fuse_study.Buf.Vector.{fuse_buf_copy, fuse_buf_copy_one}
use fuse_study.Buf.Moves.{IsBounded, Within, copy_one-Within}
use fuse_study.Buf.Writes.{span, write-all}
use fuse_study.Buf.Copy.{Accounts, fuse_buf_copy-Accounts}
use fuse_study.Buf.Bytes.{range, moved}
use fuse_study.Buf.Memory.{fuse_buf_copy-memory}

-- Each call moves all that it is asked to; the state counts the calls.
abbrev eager : Sys ℕ
eager = record {
  write = λ w fd p m len. (count len, w + 1);
  read = λ w fd p m len. (count len, w + 1);
  splice = λ w i p o q len f. (count len, w + 1);
  move_mem = λ w d s len. w + 1;
}

eager-IsBounded : IsBounded eager
eager-IsBounded = record {
  write_le = λ w fd p m len. omega arith;
  read_le = λ w fd p m len. omega arith;
  splice_le = λ w i p o q len f. omega arith;
}

abbrev memory : ℕ → Buf
memory n = record {
  size = n;
  is_fd = false;
  fd_seek = false;
  fd_retry = false;
  mem = 4096;
  fd = 0;
  pos = 0;
}

abbrev file : ℕ → Buf
file n = record {
  size = n;
  is_fd = true;
  fd_seek = true;
  fd_retry = true;
  mem = 0;
  fd = 3;
  pos = 100;
}

abbrev vector : List Buf → BufVec
vector bs = record { bufs = bs; idx = 0; off = 0 }

abbrev flags : CopyFlags
flags = record {
  no_splice = false;
  force_splice = false;
  splice_move = false;
  splice_nonblock = false;
}

fuse_buf_copy-Accounts_example :
    Accounts eager eager-IsBounded 0 flags
      (vector (file 30 ∷ []))
      (vector (memory 8 ∷ memory 0 ∷ []))
      0
      (fuse_buf_copy eager 0 flags (vector (file 30 ∷ [])) (vector (memory 8 ∷ memory 0 ∷ [])) 0)
fuse_buf_copy-Accounts_example =
    fuse_buf_copy-Accounts eager eager-IsBounded 0 flags (vector (file 30 ∷ []))
      (vector (memory 8 ∷ memory 0 ∷ [])) 0 (omega arith) (omega arith)

-- The state records what `memcpy` and `memmove` move.
abbrev mover : Sys (List (ℕ × ℕ))
mover = record {
  write = λ w fd p m len. (count len, w);
  read = λ w fd p m len. (count len, w);
  splice = λ w i p o q len f. (count len, w);
  move_mem = λ w d s len. w ++ moved (range d len) (range s len);
}

abbrev at : ℕ → ℕ → Buf
at address n = record (memory n) { mem = address }

fuse_buf_copy-memory_example :
    ((fuse_buf_copy mover 0 flags (vector (at 10 2 ∷ at 20 6 ∷ [])) (vector (at 30 3 ∷ [])) []).ret
      ≡ count 3)
    × ((fuse_buf_copy mover 0 flags
          (vector (at 10 2 ∷ at 20 6 ∷ []))
          (vector (at 30 3 ∷ []))
          []).world
        ≡ (10, 30) ∷ (11, 31) ∷ (20, 32) ∷ [])
fuse_buf_copy-memory_example =
    fuse_buf_copy-memory mover 0 flags (λ w. w) (λ w d s n h. refl)
      (vector (at 10 2 ∷ at 20 6 ∷ [])) (vector (at 30 3 ∷ [])) [] (omega arith) (omega arith)
      (refl, (refl, tt)) (refl, tt)

copy_one-Within_example :
    Within 0 12 (fuse_buf_copy_one eager 0 (file 30) 0 (memory 20) 4 12 flags 0).0
copy_one-Within_example =
    copy_one-Within eager eager-IsBounded 0 (file 30) 0 (memory 20) 4 12 flags 0

-- The state records what each `write` moves.
abbrev recording : Sys (List (ℕ × Option ℕ × ℕ))
recording = record {
  write = λ w fd p m len. (count len, w ++ span fd p m len);
  read = λ w fd p m len. (count len, w);
  splice = λ w i p o q len f. (count len, w);
  move_mem = λ w d s len. w;
}

recording-IsBounded : IsBounded recording
recording-IsBounded = record {
  write_le = λ w fd p m len. omega arith;
  read_le = λ w fd p m len. omega arith;
  splice_le = λ w i p o q len f. omega arith;
}

recording_moves :
    (w : List (ℕ × Option ℕ × ℕ)) (fd : ℕ) (p : Option ℕ) (m n : ℕ)
    → 0 < n
    → (k : ℕ) × ((recording.write w fd p m n).0 ≡ count k)
      × (0 < k)
      × ((recording.write w fd p m n).1 ≡ w ++ span fd p m k)
recording_moves w fd p m n pos = (n, refl, pos, refl)

write-all_example :
    ((fuse_buf_write recording (file 30) 2 (memory 20) 1 3 []).0 ≡ count 3)
    × ((fuse_buf_write recording (file 30) 2 (memory 20) 1 3 []).1
        ≡ (3, some 102, 4097) ∷ (3, some 103, 4098) ∷ (3, some 104, 4099) ∷ [])
write-all_example =
    write-all recording recording-IsBounded (λ w. w) recording_moves (file 30) (memory 20) refl 2 1
      3 []
