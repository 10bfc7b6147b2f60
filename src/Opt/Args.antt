-- ===== src/Opt/Args.antt =====
-- `fuse_opt_insert_arg`: the move in place is an insertion.
use fuse_study.Base.{
  ℕ, zero, suc, List, [], ◌∷◌, ◌++◌, ◌==◌, ◌≡◌, ◌≤◌, ◌+◌, ◌-◌, arith, refl, ap, Bool-cases, inl,
  inr, length, length-append, take, drop,
}
use fuse_study.Opt.Text.{Str, insert_arg}

take_all : {A : Type 0} (n : ℕ) (xs : List A) → length xs ≤ n → take n xs ≡ xs
take_all zero [] h = refl
take_all zero (x ∷ xs) h = absurd (omega arith)
take_all (suc n) [] h = refl
take_all (suc n) (x ∷ xs) h = ap (λ r. x ∷ r) (take_all n xs (omega arith))

drop_all : {A : Type 0} (n : ℕ) (xs : List A) → length xs ≤ n → drop n xs ≡ []
drop_all zero [] h = refl
drop_all zero (x ∷ xs) h = absurd (omega arith)
drop_all (suc n) [] h = refl
drop_all (suc n) (x ∷ xs) h = drop_all n xs (omega arith)

take-append : {A : Type 0} (n : ℕ) (xs ys : List A) → n ≤ length xs → take n (xs ++ ys) ≡ take n xs
take-append zero xs ys h = refl
take-append (suc n) [] ys h = absurd (omega arith)
take-append (suc n) (x ∷ xs) ys h = ap (λ r. x ∷ r) (take-append n xs ys (omega arith))

drop-append :
    {A : Type 0} (n : ℕ) (xs ys : List A) → n ≤ length xs → drop n (xs ++ ys) ≡ drop n xs ++ ys
drop-append zero xs ys h = refl
drop-append (suc n) [] ys h = absurd (omega arith)
drop-append (suc n) (x ∷ xs) ys h = drop-append n xs ys (omega arith)

length-drop_le :
    {A : Type 0} (n : ℕ) (xs : List A) → n ≤ length xs → length (drop n xs) + n ≡ length xs
length-drop_le zero xs h = omega arith
length-drop_le (suc n) [] h = absurd (omega arith)
length-drop_le (suc n) (x ∷ xs) h = omega (arith, length-drop_le n xs (omega arith))

-- For a position up to the number of arguments, `fuse_opt_insert_arg` leaves the arguments before
-- the position and those from it on as they are, with the new one between them.
pub insert_arg_lem :
    (args : List Str) (pos : ℕ) (arg : Str)
    → pos ≤ length args
    → insert_arg args pos arg ≡ take pos args ++ (arg ∷ drop pos args)
unfolding insert_arg
insert_arg_lem args pos arg h =
    let added : List Str = args ++ arg ∷ [] in
    let n : length added ≡ length args + 1 = length-append args (arg ∷ []) in
    elim (Bool-cases (pos == length added - 1)) [
      | inl at_end ↦
          let e : pos ≡ length args = ground (arith, at_end, n) in
          rw at_end (rw (take_all pos args (omega arith), drop_all pos args (omega arith)))
      | inr inside ↦
          let lt : pos ≤ length args = h in
          let m : length added - pos - 1 ≡ length (drop pos args) =
            omega (arith, n, length-drop_le pos args h) in
          rw inside (
            rw (take-append pos args (arg ∷ []) h, drop-append pos args (arg ∷ []) h, m)
              (rw (take-append (length (drop pos args)) (drop pos args) (arg ∷ []) (omega arith))
                (rw (take_all (length (drop pos args)) (drop pos args) (omega arith)))))
    ]
