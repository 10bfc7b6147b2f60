-- ===== src/TreeLock/Readers.antt =====
-- Readers and writers of `try_get_path` keep each other out.
use fuse_study.Base.{
  ℕ, true, Option, none, some, List, ◌≡◌, ◌≢◌, ◌<◌, inl, inr, arith, sym, ap, ◌∙◌,
}
use fuse_study.TreeLock.{
  unlocked, climb, after_climb, try_get_path, got, refused, eagain, last_name,
}
use fuse_study.TreeLock.Counts.{times, Counted, climb-reached}
use fuse_study.TreeLock.Paths.{Climb-cases, write_locked, try-idle, try-busy, try_get_path-got}

write_locked-low :
    (wnode : Option ℕ) (locks : ℕ → ℕ) (n : ℕ)
    → locks n < unlocked
    → write_locked wnode locks n < unlocked
write_locked-low none locks n h = h
write_locked-low (some w) locks n h = ground (arith, h)

module _ (name_of : ℕ → Option (List ℕ)) where
  climbed-Counted :
      (wnode wnode' : Option ℕ) (chain s p : List ℕ) (locks : ℕ → ℕ)
      → (after_climb name_of true wnode chain
          (climb name_of true chain s (write_locked wnode locks)).0
          (climb name_of true chain s (write_locked wnode locks)).1).0
        ≡ got p wnode'
      → Counted none chain
          (write_locked wnode locks)
          (after_climb name_of true wnode chain
            (climb name_of true chain s (write_locked wnode locks)).0
            (climb name_of true chain s (write_locked wnode locks)).1).1
  unfolding after_climb
  climbed-Counted wnode wnode' chain s p locks h =
      let r = climb name_of true chain s (write_locked wnode locks) in
      elim (Climb-cases r.0) [
        | inr (x, end, q) ↦ absurd (ground (arith, q, h))
        | inl (s', q) ↦
            rw (q, after_climb) (climb-reached name_of chain s s' (write_locked wnode locks) q)
      ]

  pub got-Counted :
      (wnode wnode' : Option ℕ) (name : Option (List ℕ)) (chain p : List ℕ) (locks : ℕ → ℕ)
      → (try_get_path name_of true wnode name chain locks).0 ≡ got p wnode'
      → Counted none chain
          (write_locked wnode locks)
          (try_get_path name_of true wnode name chain locks).1
  got-Counted wnode wnode' name chain p locks h =
      let idle = (try_get_path-got name_of wnode wnode' name chain p locks 0 h).0 in
      let step = try-idle name_of wnode name chain locks idle in
      rw step
        (climbed-Counted wnode wnode' chain (last_name name) p locks (sym (ap (λ r. r.0) step) ∙ h))

  -- Once `try_get_path` has locked a path for reading, an attempt to lock a node on it for writing
  -- is refused with EAGAIN, whatever name and path the attempt is for.
  pub reader-excludes :
      (wnode : Option ℕ) (name name' : Option (List ℕ)) (chain chain' p : List ℕ) (locks : ℕ → ℕ)
      (n : ℕ)
      → (try_get_path name_of true none name chain locks).0 ≡ got p wnode
      → 0 < times none chain n
      → (try_get_path name_of true
          (some n)
          name'
          chain'
          (try_get_path name_of true none name chain locks).1).0
        ≡ refused eagain
  reader-excludes wnode name name' chain chain' p locks n h on =
      let c = got-Counted none wnode name chain p locks h in
      let locks' = (try_get_path name_of true none name chain locks).1 in
      ap (λ r. r.0)
        (try-busy name_of n name' chain' locks' (ground (arith, c.adds n, c.free n on, on)))

  -- Once `try_get_path` has locked a node for writing, no attempt to lock a path on which the
  -- node lies gives a path, whether or not that attempt names a node to be written.
  pub writer-excludes :
      (w : ℕ) (wnode wnode' wnode'' : Option ℕ) (name name' : Option (List ℕ))
      (chain chain' p p' : List ℕ) (locks : ℕ → ℕ)
      → (try_get_path name_of true (some w) name chain locks).0 ≡ got p wnode
      → 0 < times none chain' w
      → (try_get_path name_of true wnode' name' chain'
          (try_get_path name_of true (some w) name chain locks).1).0
        ≢ got p' wnode''
  writer-excludes w wnode wnode' wnode'' name name' chain chain' p p' locks h on h' =
      let locks' = (try_get_path name_of true (some w) name chain locks).1 in
      let c = got-Counted (some w) wnode name chain p locks h in
      let c' = got-Counted wnode' wnode'' name' chain' p' locks' h' in
      let low : locks' w < unlocked = ground (arith, c.adds w, c.free w) in
      omega (arith, c'.free w on, write_locked-low wnode' locks' w low)
