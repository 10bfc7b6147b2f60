-- ===== src/Opt/Tests.antt =====
-- Runs of lib/fuse_opt.c, and the theorems at concrete options.
use fuse_study.Base.{ℕ, Option, none, some, List, [], ◌∷◌, ◌++◌, ◌≡◌, refl, arith}
use fuse_study.Opt.Text.{Str, process_real_option_group, group_loop, old_opts, str_eq, str_chr}
use fuse_study.Opt.Template.{match_template}
use fuse_study.Opt.Parse.{Context, Client}
use fuse_study.Opt.Escape.{add_all, run_all, group-add_all}

-- Collects the options that it is run on.
abbrev log_opt : List Str → Str → Option (List Str)
log_opt seen o = some (seen ++ o ∷ [])

abbrev comma_opt : Str
comma_opt = b'a' ∷ b',' ∷ b'b' ∷ []

abbrev slash_opt : Str
slash_opt = b'\\' ∷ b'1' ∷ b'0' ∷ b'1' ∷ []

group_run :
    process_real_option_group log_opt (b'x' ∷ b',' ∷ slash_opt) []
    ≡ some ((b'x' ∷ []) ∷ (b'A' ∷ []) ∷ [])
unfolding process_real_option_group group_loop
group_run = refl

group-add_all_example :
    process_real_option_group log_opt (old_opts (add_all none (comma_opt ∷ slash_opt ∷ []))) []
    ≡ run_all log_opt (comma_opt ∷ slash_opt ∷ []) []
group-add_all_example = group-add_all log_opt comma_opt (slash_opt ∷ []) [] (omega arith)

abbrev name_templ : Str
name_templ = b'n' ∷ b'=' ∷ b'%' ∷ b's' ∷ []

abbrev name_arg : Str
name_arg = b'n' ∷ b'=' ∷ b'v' ∷ []

match_run : match_template name_templ name_arg ≡ some 1
unfolding match_template str_eq str_chr
match_run = refl

-- A caller without table and callback; its structure is a number.
abbrev nobody : Client ℕ
nobody = record {
  table = [];
  proc = none;
  store_value = λ d o v. d;
  store_param = λ d o f p. some d;
}

abbrev begun : Context ℕ
begun = record {
  user_data = 0;
  argctr = 1;
  argv = (b'p' ∷ []) ∷ (b'-' ∷ b'f' ∷ []) ∷ [];
  outargs = (b'p' ∷ []) ∷ [];
  opts = none;
  nonopt = 0;
}
