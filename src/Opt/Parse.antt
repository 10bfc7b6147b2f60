-- ===== src/Opt/Parse.antt =====
-- The parser, lib/fuse_opt.c: from `next_arg` to `fuse_opt_parse`.
use fuse_study.Base.{
  ℕ, zero, suc, Bool, true, false, Option, none, some, List, [], ◌∷◌, ◌++◌, leb, ltb, ◌==◌,
  if◌then◌else◌, ◌-◌, ◌+◌, ◌&&◌, ◌||◌, not, length, take, drop, get_or,
}
use fuse_study.Opt.Text.{
  Str, char_at, str_eq, insert_arg, add_opt_common, process_real_option_group,
}
use fuse_study.Opt.Template.{
  Key, opt_key, nonopt_key, keep_key, discard_key, FuseOpt, match_template, fuse_opt_match,
}

-- What a call of the user's `proc` answers: -1, 0, or anything else.
pub data Verdict : Type 0 where
  fail drop_arg keep_arg : Verdict

-- `struct fuse_opt_context`. `nonopt` is 0 until `--` is seen.
pub record Context (D : Type 0) : Type 0 where
  pub user_data : D
  pub argctr : ℕ
  pub argv : List Str
  pub outargs : List Str
  pub opts : Option Str
  pub nonopt : ℕ

-- The caller's part: the option table, the optional callback, and the two ways in which the code
-- writes into the caller's structure: a number at an offset, and a parameter by its format
-- (a copy for `%s`, `sscanf` otherwise; `none` if that fails).
pub record Client (D : Type 0) : Type 0 where
  pub table : List FuseOpt
  pub proc : Option (D → Str → Key → List Str → Verdict × D × List Str)
  pub store_value : D → ℕ → Key → D
  pub store_param : D → ℕ → Str → Str → Option D

abbrev pub is_discard : Key → Bool
is_discard discard_key = true
is_discard _ = false

abbrev pub is_keep : Key → Bool
is_keep keep_key = true
is_keep _ = false

-- Every function below returns `none` for -1 and the context for 0.
module _ {D : Type 0} (client : Client D) where
  unfoldable pub next_arg : Context D → Option (Context D)
  next_arg ctx =
      if leb (length ctx.argv) (ctx.argctr + 1)
      then none
      else some (record ctx { argctr = ctx.argctr + 1 })

  unfoldable pub add_arg : Context D → Str → Context D
  add_arg ctx arg = record ctx { outargs = ctx.outargs ++ arg ∷ [] }

  unfoldable pub add_opt : Context D → Str → Context D
  add_opt ctx opt = record ctx { opts = add_opt_common ctx.opts opt true }

  unfoldable pub keep : Context D → Str → Bool → Context D
  unfolding add_arg add_opt
  keep ctx arg iso = if iso then add_opt ctx arg else add_arg ctx arg

  -- The callback returned; 0 and -1 end `call_proc`.
  unfoldable pub after_proc : Context D → Str → Bool → Verdict × D × List Str → Option (Context D)
  unfolding keep
  after_proc ctx arg iso (v, d, out) =
      let ctx' = record ctx { user_data = d; outargs = out } in
      elim v [ fail ↦ none | drop_arg ↦ some ctx' | keep_arg ↦ some (keep ctx' arg iso) ]

  unfoldable pub call_proc : Context D → Str → Key → Bool → Option (Context D)
  unfolding keep after_proc
  call_proc ctx arg key iso = if is_discard key then some ctx else elim client.proc [
    | none ↦ some (keep ctx arg iso)
    | some proc ↦
        if is_keep key
        then some (keep ctx arg iso)
        else after_proc ctx arg iso (proc ctx.user_data arg key ctx.outargs)
  ]

  unfoldable pub process_opt : Context D → FuseOpt → ℕ → Str → Bool → Option (Context D)
  unfolding call_proc
  process_opt ctx opt sep arg iso = elim opt.offset [
    | none ↦ call_proc ctx arg opt.value iso
    | some offset ↦
        if not (sep == 0) && not (char_at opt.templ (sep + 1) == 0)
        then elim (client.store_param ctx.user_data offset (drop (sep + 1) opt.templ)
            (drop (if char_at opt.templ sep == b'=' then sep + 1 else sep) arg)) [
              | none ↦ none
              | some d ↦ some (record ctx { user_data = d })
            ]
        else some (record ctx { user_data = client.store_value ctx.user_data offset opt.value })
  ]

  unfoldable pub process_opt_sep_arg : Context D → FuseOpt → ℕ → Str → Bool → Option (Context D)
  unfolding next_arg process_opt
  process_opt_sep_arg ctx opt sep arg iso = elim (next_arg ctx) [
    | none ↦ none
    | some ctx' ↦ process_opt ctx' opt sep (take sep arg ++ get_or ctx'.argv ctx'.argctr []) iso
  ]

  -- One match of the loop of `process_gopt`.
  unfoldable pub process_match : Context D → FuseOpt → ℕ → Str → Bool → Option (Context D)
  unfolding process_opt process_opt_sep_arg
  process_match ctx opt sep arg iso =
      if not (sep == 0) && ((char_at opt.templ sep == b' ') && (char_at arg sep == 0))
      then process_opt_sep_arg ctx opt sep arg iso
      else process_opt ctx opt sep arg iso

  -- The loop, `find_opt(opt + 1, ...)` included.
  unfoldable pub gopt_loop : List FuseOpt → Context D → Str → Bool → Option (Context D)
  unfolding process_match
  gopt_loop [] ctx arg iso = some ctx
  gopt_loop (o ∷ os) ctx arg iso = elim (match_template o.templ arg) [
    | none ↦ gopt_loop os ctx arg iso
    | some sep ↦ elim (process_match ctx o sep arg iso) [
      | none ↦ none
      | some ctx' ↦ gopt_loop os ctx' arg iso
    ]
  ]

  unfoldable pub process_gopt : Context D → Str → Bool → Option (Context D)
  unfolding gopt_loop call_proc
  process_gopt ctx arg iso =
      if fuse_opt_match client.table arg
      then gopt_loop client.table ctx arg iso
      else call_proc ctx arg opt_key iso

  unfoldable pub process_option_group : Context D → Str → Option (Context D)
  process_option_group ctx opts = process_real_option_group (λ c o. process_gopt c o true) opts ctx

  -- `-o` alone: the options are the next argument.
  unfoldable pub next_group : Context D → Option (Context D)
  next_group ctx = elim (next_arg ctx) [
    | none ↦ none
    | some ctx' ↦ process_option_group ctx' (get_or ctx'.argv ctx'.argctr [])
  ]

  unfoldable pub process_one : Context D → Str → Option (Context D)
  unfolding add_arg
  process_one ctx arg =
      if not (ctx.nonopt == 0) || not (char_at arg 0 == b'-')
      then call_proc ctx arg nonopt_key false
      else if char_at arg 1 == b'o'
      then (if not (char_at arg 2 == 0)
          then process_option_group ctx (drop 2 arg)
          else next_group ctx)
      else if (char_at arg 1 == b'-') && (char_at arg 2 == 0)
      then some (record (add_arg ctx arg) { nonopt = length (add_arg ctx arg).outargs })
      else process_gopt ctx arg false

  -- `fuel` bounds the rounds; a round that fails and fuel that runs out both give `none`, and
  -- `argc` rounds are enough.
  unfoldable pub parse_loop : ℕ → Context D → Option (Context D)
  parse_loop zero ctx = if ltb ctx.argctr (length ctx.argv) then none else some ctx
  parse_loop (suc fuel) ctx = elim (ltb ctx.argctr (length ctx.argv)) [
    | false ↦ some ctx
    | true ↦ elim (process_one ctx (get_or ctx.argv ctx.argctr [])) [
      | none ↦ none
      | some ctx' ↦ parse_loop fuel (record ctx' { argctr = ctx'.argctr + 1 })
    ]
  ]

  -- The insertion of `-o` and the collected options, and the removal of a final `--`.
  unfoldable pub finish_args : Context D → List Str
  unfolding insert_arg
  finish_args ctx =
      let out : List Str = elim ctx.opts [
        | none ↦ ctx.outargs
        | some opts ↦ insert_arg (insert_arg ctx.outargs 1 (b'-' ∷ b'o' ∷ [])) 2 opts
      ] in
      if not (ctx.nonopt == 0)
        && ((ctx.nonopt == length out)
            && str_eq (get_or out (length out - 1) []) (b'-' ∷ b'-' ∷ []))
      then take (length out - 1) out
      else out

  -- The result is the arguments that replace `*args` and the caller's structure.
  unfoldable pub fuse_opt_parse : List Str → D → Option (List Str × D)
  unfolding finish_args
  fuse_opt_parse [] d = some ([], d)
  fuse_opt_parse (program ∷ args) d =
      let ctx : Context D = record {
        user_data = d;
        argctr = 1;
        argv = program ∷ args;
        outargs = program ∷ [];
        opts = none;
        nonopt = 0;
      } in
      elim (parse_loop (length (program ∷ args)) ctx) [
        | none ↦ none
        | some ctx' ↦ some (finish_args ctx', ctx'.user_data)
      ]
