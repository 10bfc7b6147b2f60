-- ===== src/Opt/Loop.antt =====
-- The main loop of `opt_parse` ends, and arguments that no rule touches come through unchanged.
use fuse_study.Base.{◌≡◌, ◌≤◌, arith, refl}
use fuse_study.Opt.Parse.{Context}

-- The arguments stay, and the position does not go back.
module _ {D : Type 0} where
  pub record Later (c c' : Context D) : Type 0 where
    pub same_argv : c'.argv ≡ c.argv
    pub forward : c.argctr ≤ c'.argctr

  Later-refl : (a : Context D) → Later a a
  Later-refl a = record { same_argv = refl; forward = omega arith }
