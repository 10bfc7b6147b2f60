-- ===== src/Mount/Tests.antt =====
-- Runs of the option parsers, and the theorems at concrete options.
use fuse_study.Base.{
  true, false, none, some, [], ◌∷◌, ◌++◌, ◌==◌, ◌≡◌, refl, codes, not, arith, if◌then◌else◌,
}
use fuse_study.Opt.Text.{Str, escape, add_opt_common, str_eq, old_opts, fuse_opt_add_opt_escaped}
use fuse_study.Mount.{
  Caller, Parsed, parsed, err, begins_with, find_mount_flag, flag_entry, mount_flags, cut,
  is_kernel_opt, plain_option, unescape_opt, get_string_opt, short_option, is_skipped, one_option,
  options_loop, no_options, parse_options, fsname_str,
}
use fuse_study.Mount.Config.{IsHarmless, joined, max_read, default_permissions}
use fuse_study.Mount.Safety.{parse_options-IsHarmless}
use fuse_study.Mount.Whole.{HasNoX, read_options, read_options-escaped}
use fuse_study.Mount.Extract.{
  Copy, extract_x_options, extract_loop, copy_option, append_opt, next_comma, gather, is_x, fields,
}
use fuse_study.Mount.Partition.{extract_x_options-gather}

abbrev user : Caller
user = record { root = false; user_allow_other = false; new_kernel = true }

-- A user who asks for more than he gets: `suid` and `fd=9` are passed over.
abbrev wishes : Str
wishes = codes "suid,fd=9,default_permissions,ro"

abbrev granted : Parsed
granted = record no_options {
  flags = λ n. if n == 0 then true else no_options.flags n;
  optbuf = codes "default_permissions,";
}

others_run : parse_options user (codes "allow_other") ≡ err
unfolding parse_options options_loop one_option short_option is_skipped begins_with str_eq cut
others_run = refl

parse_run : parse_options user wishes ≡ parsed granted
unfolding parse_options options_loop one_option short_option is_skipped begins_with str_eq cut
    plain_option find_mount_flag flag_entry mount_flags is_kernel_opt no_options
parse_run = refl

parse_options-IsHarmless_example : IsHarmless user granted
parse_options-IsHarmless_example = parse_options-IsHarmless user wishes granted parse_run

-- A name with a comma and a backslash.
abbrev odd_name : Str
odd_name = codes "a,b\\"

odd_name-HasNoX : HasNoX (fields (escape true (fsname_str ++ odd_name)))
unfolding escape begins_with
odd_name-HasNoX = (refl, (refl, tt))

read_options-escaped_example :
    read_options user (
      old_opts (fuse_opt_add_opt_escaped none (fsname_str ++ odd_name))
      ++ b',' ∷ joined (max_read (codes "7") ∷ default_permissions ∷ []))
    ≡ parsed (record no_options {
      fsname = some odd_name;
      optbuf = joined (max_read (codes "7") ∷ default_permissions ∷ []);
    })
read_options-escaped_example =
    read_options-escaped user odd_name (max_read (codes "7") ∷ default_permissions ∷ [])
      odd_name-HasNoX (omega arith)

-- A part behind an escaped comma that begins with "x-" is taken away.
cut_name_run :
    read_options user (old_opts (fuse_opt_add_opt_escaped none (fsname_str ++ codes "a,x-b")))
    ≡ parsed (record no_options { fsname = some (codes "a\\") })
unfolding read_options extract_x_options extract_loop copy_option append_opt next_comma begins_with
    parse_options options_loop one_option cut unescape_opt get_string_opt escape
    fuse_opt_add_opt_escaped add_opt_common short_option is_skipped no_options
cut_name_run = refl

abbrev mixed : Str
mixed = codes "ro,x-a,noatime,x-b"

mixed_run :
    extract_x_options mixed
    ≡ some (
      record { text = codes "ro,noatime"; left = 9 },
      record { text = codes "x-a,x-b"; left = 11 },
    )
unfolding extract_x_options extract_loop copy_option append_opt next_comma begins_with
mixed_run = refl

extract_x_options-gather_example :
    (non : Copy) × (x : Copy) × (extract_x_options mixed ≡ some (non, x))
    × (non.text ≡ gather (λ o. not (is_x o)) [] (fields mixed))
    × (x.text ≡ gather is_x [] (fields mixed))
extract_x_options-gather_example = extract_x_options-gather mixed
