-- ===== src/Server/Requests.antt =====
-- What the requests answer.
use fuse_study.Base.{
  ℕ, zero, suc, Option, none, some, List, [], ◌∷◌, ◌≡◌, ◌≤◌, ◌≢◌, ◌⊎◌, ◌↔◌, inl, inr, refl, arith,
}
use fuse_study.Server.{
  FilePath, Call, ok, fails, Dirent, int, name, stat_entry, Sent, packets, Files, done, crash,
  lookup, getattr, readdir, send_entries, open_request, read, write, create, mkdir, rmdir,
  unlink_request, handle,
}

Call-cases : {A : Type 0} (c : Call A) → ((a : A) × (c ≡ ok a)) ⊎ ((e : ℕ) × (c ≡ fails e))
Call-cases (ok a) = inl (a, refl)
Call-cases (fails e) = inr (e, refl)

module _ {F S : Type 0} (os : Files F S) (mask_flags : ℕ → ℕ) where
  send_entries-answers : (es : List Dirent) → send_entries os mask_flags es ≢ []
  unfolding send_entries
  send_entries-answers [] h = cc
  send_entries-answers (e ∷ es) h = cc

  readdir-answers :
      (fs : F) (path : FilePath) (fs' : F) → readdir os mask_flags fs path ≢ done fs' []
  unfolding readdir
  readdir-answers fs path fs' h = elim (Call-cases (os.list_dir fs path)) [
    | inl (es, e) ↦ ground (arith, e, send_entries-answers es)
    | inr (n, e) ↦ ground (arith, e)
  ]

  -- The only requests that are not answered are unknown opcodes, unlink, which is not answered
  -- whether or not it succeeds, and a create that fails.
  pub handle-silent :
      (opcode : ℕ) (fs : F) (path : FilePath) (flags : Option ℕ) (mode : ℕ) {fs' : F}
      → handle os mask_flags opcode fs path flags mode ≡ done fs' []
      → (0x0a ≤ opcode) ⊎ ((opcode ≡ 0x08) ⊎ ((opcode ≡ 0x05) × (fs' ≡ fs)))
  unfolding handle lookup getattr open_request read write create mkdir rmdir unlink_request
  handle-silent opcode fs path flags mode {fs'} h = ground (arith, readdir-answers fs path fs')

  -- A request brings the server down exactly when it reads or writes a path that `fopen` refuses.
  pub handle-crash :
      (opcode : ℕ) (fs : F) (path : FilePath) (flags : Option ℕ) (mode : ℕ)
      → (handle os mask_flags opcode fs path flags mode ≡ crash)
        ↔ (((opcode ≡ 0x04) ⊎ (opcode ≡ 0x07)) × (os.read_file fs path ≡ none))
  unfolding handle lookup getattr readdir open_request read write create mkdir rmdir unlink_request
  handle-crash opcode fs path flags mode = (λ h. ground arith, λ h. ground arith)

-- The receiver that the readdir messages are made for: a flag, and after a flag 1 a name and the
-- two fields of a stat; `none` if the messages stop short or are of another kind.
unfoldable pub receive_entries : {S : Type 0} → List (Sent S) → Option (List Dirent × List (Sent S))
receive_entries (packets (int zero) ∷ rest) = some ([], rest)
receive_entries (packets (int (suc zero)) ∷ packets (name n) ∷ packets (stat_entry i t) ∷ rest) =
    elim (receive_entries rest) [
      | none ↦ none
      | some (es, left) ↦ some (record { d_name = n; d_ino = i; d_type = t } ∷ es, left)
    ]
receive_entries _ = none
