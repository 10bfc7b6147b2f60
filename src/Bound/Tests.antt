-- ===== src/Bound/Tests.antt =====
-- The theorems on custom_include/bound.c at concrete sockets.
use fuse_study.Base.{ℕ, false, Option, some, List, [], ◌∷◌, ◌++◌, ◌≡◌, ◌<◌, inl, refl, arith}
use fuse_study.Bound.{Pkt, read_loop, bound_send, bound_read, collect, Got, bytes, closed, value}
use fuse_study.Bound.Frames.{IsText, collect-bound_send}
use fuse_study.Bound.Stream.{Obeys, Sound, bound_read-Sound}

-- A socket that keeps the packets it is given.
abbrev keep_all : List Pkt → Pkt → Option (List Pkt)
keep_all w p = some (w ++ p ∷ [])

keep_all-accepts :
    (w : List Pkt) (p : Pkt) → (w' : List Pkt) × (keep_all w p ≡ some w') × (w' ≡ w ++ p ∷ [])
keep_all-accepts w p = (w ++ p ∷ [], refl, refl)

abbrev blank : Pkt
blank = record { stop = 0; size = 0; total_size = 0; buf = [] }

path-IsText : IsText (47 ∷ 97 ∷ [])
unfolding IsText
path-IsText = (inl (ground arith), (inl (ground arith), tt))

collect-bound_send_example :
    (w' : List Pkt) × (ps : List Pkt) × (bound_send keep_all blank (47 ∷ 97 ∷ []) [] ≡ some w')
    × (w' ≡ [] ++ ps)
    × ((rest : List Pkt) → collect [] (ps ++ rest) ≡ some (47 ∷ 97 ∷ [], rest))
collect-bound_send_example =
    collect-bound_send keep_all (λ w. w) keep_all-accepts blank (47 ∷ 97 ∷ []) [] (omega arith)
      path-IsText

-- A stream that gives one byte at a time.
abbrev one_byte : List ℕ → ℕ → Got × List ℕ
one_byte [] n = (closed, [])
one_byte (b ∷ bs) n = (bytes (b ∷ []), bs)

one_byte-Obeys : (w : List ℕ) (n : ℕ) → 0 < n → Obeys (λ l. l) (λ l. false) w n (one_byte w n)
one_byte-Obeys [] n pos = (refl, refl, refl)
one_byte-Obeys (b ∷ bs) n pos = (refl, omega arith, omega arith, refl)

-- The first byte of this small packet is its size.
abbrev first_byte : List ℕ → ℕ
first_byte [] = 0
first_byte (b ∷ bs) = b

-- A whole packet of size 0 gives the value that the end of the stream gives.
empty_run : (bound_read one_byte 2 first_byte (0 ∷ 6 ∷ 7 ∷ [])).0.0 ≡ value 0
unfolding bound_read read_loop
empty_run = refl

bound_read-Sound_example :
    Sound one_byte
      (λ l. l)
      (λ l. false)
      one_byte-Obeys
      2
      first_byte
      []
      2
      (5 ∷ 6 ∷ 7 ∷ [])
      false
      (bound_read one_byte 2 first_byte (5 ∷ 6 ∷ 7 ∷ []))
bound_read-Sound_example =
    bound_read-Sound one_byte (λ l. l) (λ l. false) one_byte-Obeys 2 first_byte (5 ∷ 6 ∷ 7 ∷ [])
