-- ===== src/Mount/Partition.antt =====
-- `extract_x_options` against the options between the commas.
use fuse_study.Base.{
  subst, append_assoc, Option-cases, ℕ, zero, suc, true, false, Option, none, some, [], ◌∷◌, ◌++◌,
  ◌==◌, ◌≡◌, ◌≤◌, ◌<◌, ◌⊎◌, ◌+◌, ◌-◌, arith, refl, codes, ltb, sym, ap, ◌∙◌, inl, inr, Bool-cases,
  length, length-append, not, if◌then◌else◌,
}
use fuse_study.Opt.Text.{Str}
use fuse_study.Mount.{begins_with}
use fuse_study.Mount.Extract.{
  Copy, next_comma, opt_len, append_opt, copy_option, extract_loop, extract_x_options, fields, is_x,
  add_field, gather,
}

-- The options of a text, one after the other.
fields-next :
    (s : Str)
    → fields s ≡ (next_comma s).0 ∷ elim (next_comma s).1 [ none ↦ [] | some s' ↦ fields s' ]
unfolding next_comma
fields-next [] = refl
fields-next (c ∷ s) = elim (Bool-cases (c == b',')) [
  | inl e ↦ rw e refl
  | inr e ↦ rw (e, fields-next s) refl
]

-- A copy with room for the option, which is appended behind a comma or alone.
record Appended (orig_len : ℕ) (opt : Str) (len : ℕ) (b : Copy) : Type 0 where
  copy : Copy
  runs : append_opt orig_len opt len b ≡ some copy
  appended : copy.text ≡ add_field b.text opt
  counted : copy.left + length copy.text + len ≡ orig_len + length opt

append-Appended :
    (orig_len : ℕ) (opt : Str) (len left : ℕ) (acc : Str)
    → left + length acc ≡ orig_len
    → length acc + len < orig_len ⊎ ((length acc ≡ 0) × (len ≤ orig_len))
    → Appended orig_len opt len (record { text = acc; left = left })
unfolding append_opt
append-Appended orig_len opt len left [] c fits =
    let room : len ≤ orig_len = ground (arith, fits) in
    let all : ltb left orig_len ≡ false = ground (arith, c) in
    let enough : ltb left len ≡ false = ground (arith, c, room) in
    record {
      copy = record { text = opt; left = left - len };
      runs = rw (append_opt, all, enough) refl;
      appended = refl;
      counted = ground (arith, c, room);
    }
append-Appended orig_len opt len left (a ∷ acc) c fits =
    let room : length (a ∷ acc) + len < orig_len = ground (arith, fits) in
    let some_used : ltb left orig_len ≡ true = ground (arith, c) in
    let enough : ltb (left - 1) len ≡ false = ground (arith, c, room) in
    record {
      copy = record { text = ((a ∷ acc) ++ b',' ∷ []) ++ opt; left = left - 1 - len };
      runs = rw (append_opt, some_used, enough) refl;
      appended = append_assoc (a ∷ acc) (b',' ∷ []) opt;
      counted = ground (
        arith,
        c,
        room,
        length-append ((a ∷ acc) ++ b',' ∷ []) opt,
        length-append (a ∷ acc) (b',' ∷ []),
      );
    }

-- How far the loop has come: both copies know what they hold, and have room for what is left.
record HasRoom (orig_len : ℕ) (s : Str) (b : Copy) : Type 0 where
  counted : b.left + length b.text ≡ orig_len
  room : length b.text + length s + 1 < orig_len ⊎ ((length b.text ≡ 0) × (length s + 1 ≤ orig_len))

next_comma-length :
    (s : Str)
    → length (next_comma s).0 + elim (next_comma s).1 [ none ↦ 0 | some s' ↦ length s' + 1 ]
      ≡ length s
unfolding next_comma
next_comma-length [] = refl
next_comma-length (c ∷ s) = elim (Bool-cases (c == b',')) [
  | inl e ↦ rw e (omega arith)
  | inr e ↦ rw e (omega (arith, next_comma-length s))
]

-- The test on what is left is one on the option.
is_x-next : (s : Str) → begins_with s (codes "x-") ≡ is_x (next_comma s).0
unfolding next_comma begins_with
is_x-next [] = refl
is_x-next (c ∷ []) = ground arith
is_x-next (c ∷ e ∷ s) = ground arith

-- What the loop makes of the rest of the text.
record Gathered (orig_len fuel : ℕ) (s : Str) (non x : Copy) : Type 0 where
  non' : Copy
  x' : Copy
  runs : extract_loop fuel orig_len s non x ≡ some (non', x')
  of_non : non'.text ≡ gather (λ o. not (is_x o)) non.text (fields s)
  of_x : x'.text ≡ gather is_x x.text (fields s)

fits_here :
    (orig_len n : ℕ) (s opt : Str) (last : Option Str)
    → length opt + elim last [ none ↦ 0 | some s' ↦ length s' + 1 ] ≡ length s
    → n + length s + 1 < orig_len ⊎ ((n ≡ 0) × (length s + 1 ≤ orig_len))
    → n + opt_len opt last < orig_len ⊎ ((n ≡ 0) × (opt_len opt last ≤ orig_len))
fits_here orig_len n s opt none e h = ground (arith, e, h)
fits_here orig_len n s opt (some s') e h = ground (arith, e, h)

append-here :
    (orig_len : ℕ) (s : Str) (b : Copy)
    → HasRoom orig_len s b
    → Appended orig_len (next_comma s).0 (opt_len (next_comma s).0 (next_comma s).1) b
append-here orig_len s b h =
    let opt = (next_comma s).0 in
    let last = (next_comma s).1 in
    append-Appended orig_len opt (opt_len opt last) b.left b.text h.counted
      (fits_here orig_len (length b.text) s opt last (next_comma-length s) h.room)

length-add_field :
    (acc o : Str)
    → length (add_field acc o) ≤ length acc + length o + 1
      × ((length acc ≡ 0) → length (add_field acc o) ≡ length o)
length-add_field [] o = (omega arith, λ h. refl)
length-add_field (c ∷ acc) o =
    (omega (arith, length-append (c ∷ acc) (b',' ∷ o)), λ h. absurd (omega (arith, h)))

-- Behind a comma both copies have room again.
module _ (orig_len : ℕ) (s s' : Str) (b : Copy) (more : (next_comma s).1 ≡ some s')
    (h : HasRoom orig_len s b) where
  passed : length (next_comma s).0 + (length s' + 1) ≡ length s
  passed =
      subst (λ o. length (next_comma s).0 + elim o [ none ↦ 0 | some t ↦ length t + 1 ] ≡ length s)
        more (next_comma-length s)

  room-kept : HasRoom orig_len s' b
  room-kept = record { counted = h.counted; room = ground (arith, h.room, passed) }

  room-appended : HasRoom orig_len s' (append-here orig_len s b h).copy
  room-appended =
      let a = append-here orig_len s b h in
      let len : opt_len (next_comma s).0 (next_comma s).1 ≡ length (next_comma s).0 =
        ap (opt_len (next_comma s).0) more in
      let grown = length-add_field b.text (next_comma s).0 in
      let new : length a.copy.text ≡ length (add_field b.text (next_comma s).0) =
        ap length a.appended in
      record {
        counted = omega (arith, a.counted, len);
        room = ground (arith, h.room, passed, new, grown.0, grown.1);
      }

-- One round.
record Copied (orig_len : ℕ) (s : Str) (non x : Copy) : Type 0 where
  non' : Copy
  x' : Copy
  runs : copy_option orig_len s non x ≡ some (non', x')
  of_non :
      non'.text
      ≡ (if not (is_x (next_comma s).0) then add_field non.text (next_comma s).0 else non.text)
  of_x : x'.text ≡ (if is_x (next_comma s).0 then add_field x.text (next_comma s).0 else x.text)
  room : (s' : Str) → (next_comma s).1 ≡ some s' → HasRoom orig_len s' non' × HasRoom orig_len s' x'

copy_option-Copied :
    (orig_len : ℕ) (s : Str) (non x : Copy)
    → HasRoom orig_len s non
    → HasRoom orig_len s x
    → Copied orig_len s non x
unfolding copy_option
copy_option-Copied orig_len s non x hn hx = elim (Bool-cases (begins_with s (codes "x-"))) [
  | inl e ↦
      let a = append-here orig_len s x hx in
      let is : is_x (next_comma s).0 ≡ true = sym (is_x-next s) ∙ e in
      record {
        non' = non;
        x' = a.copy;
        runs = rw (copy_option, e, a.runs) refl;
        of_non = rw is refl;
        of_x = rw is a.appended;
        room =
            λ s' more. (room-kept orig_len s s' non more hn, room-appended orig_len s s' x more hx);
      }
  | inr e ↦
      let a = append-here orig_len s non hn in
      let is : is_x (next_comma s).0 ≡ false = sym (is_x-next s) ∙ e in
      record {
        non' = a.copy;
        x' = x;
        runs = rw (copy_option, e, a.runs) refl;
        of_non = rw is a.appended;
        of_x = rw is refl;
        room =
            λ s' more. (room-appended orig_len s s' non more hn, room-kept orig_len s s' x more hx);
      }
]

extract_loop-Gathered :
    (fuel orig_len : ℕ) (s : Str) (non x : Copy)
    → length s < fuel
    → HasRoom orig_len s non
    → HasRoom orig_len s x
    → Gathered orig_len fuel s non x
unfolding extract_loop
extract_loop-Gathered zero orig_len s non x le hn hx = ground (arith, le)
extract_loop-Gathered (suc fuel) orig_len s non x le hn hx =
    let c = copy_option-Copied orig_len s non x hn hx in
    elim (Option-cases (next_comma s).1) [
      | inl last ↦ record {
        non' = c.non';
        x' = c.x';
        runs = rw (extract_loop, c.runs, last) refl;
        of_non = rw (fields-next s, last) c.of_non;
        of_x = rw (fields-next s, last) c.of_x;
      }
      | inr (s', more) ↦
          let (rn, rx) = c.room s' more in
          let g =
            extract_loop-Gathered fuel orig_len s' c.non' c.x'
              (omega (arith, le, passed orig_len s s' non more hn)) rn rx in
          record {
            non' = g.non';
            x' = g.x';
            runs = rw (extract_loop, c.runs, more) g.runs;
            of_non =
                rw (fields-next s, more)
                  (g.of_non ∙ ap (λ (t : Str). gather (λ o. not (is_x o)) t (fields s')) c.of_non);
            of_x =
                rw (fields-next s, more)
                  (g.of_x ∙ ap (λ (t : Str). gather is_x t (fields s')) c.of_x);
          }
    ]

-- `extract_x_options` never runs out of the room that it has allocated and never fails for it: one
-- text gets the options that begin with "x-", the other gets the rest, in order and with commas
-- between them, where only empty options in front are lost.
pub extract_x_options-gather :
    (original : Str)
    → (non : Copy) × (x : Copy) × (extract_x_options original ≡ some (non, x))
      × (non.text ≡ gather (λ o. not (is_x o)) [] (fields original))
      × (x.text ≡ gather is_x [] (fields original))
unfolding extract_x_options
extract_x_options-gather original =
    let b : Copy = record { text = []; left = length original + 1 } in
    let room : HasRoom (length original + 1) original b = record {
      counted = omega arith;
      room = inr (refl, omega arith);
    } in
    let g =
      extract_loop-Gathered (length original + 1) (length original + 1) original b b (omega arith)
        room room in
    (g.non', g.x', g.runs, g.of_non, g.of_x)
