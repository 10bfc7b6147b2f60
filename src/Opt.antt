-- ===== src/Opt.antt =====
-- Option parsing, lib/fuse_opt.c. A C string is the list of its bytes before the final NUL, and
-- `struct fuse_args` is the list of its arguments. `malloc`, `realloc` and `strdup` succeed.
pub mod Text
pub mod Template
pub mod Parse
pub mod Args
pub mod Escape
pub mod Match
pub mod Loop
pub mod Plain
mod Tests
