-- ===== src/Lib.antt =====
-- A verification of core parts of libfuse and of the file server that is built beside it.
--
-- libfuse connects a file system in user space with the kernel. Its high-level half, lib/fuse.c,
-- names files by node ids: it keeps the nodes in two hash tables, locks the nodes on a path while
-- a request uses it, and keeps each node's record locks in a list. lib/fuse_opt.c reads the
-- command line, and lib/buffer.c moves data between memory and descriptors. The low-level half,
-- lib/fuse_lowlevel.c, agrees with the kernel on the terms of a session and keeps its requests;
-- the threads of lib/fuse_loop_mt.c work on them; util/fusermount.c mounts for users. The server,
-- server/server.c, offers files over TCP to clients; both ends speak in packets,
-- custom_include/bound.c.
--
-- Where each part is modelled:
-- - lib/fuse.c, record locks: Locks.antt (`struct lock`, `locks_conflict`, `locks_insert`,
--   `flock_to_lock`, `lock_to_flock`). The list of locks is a list; the pointer `lp` is the
--   recursion of `locks_loop`, and one round of the loop is `round`. Locks/Calls.antt has the
--   requests on top (`fuse_lib_getlk`, `fuse_lib_setlk`, `fuse_lib_flush`, `fuse_fs_lock`), with
--   the file system's operations as the record `Operations`.
-- - lib/fuse.c, node tables: NodeTable.antt. One table serves for `id_table` and `name_table`,
--   with the hash of a node as a parameter: `hash_node` is `hash_id` and the end of `hash_name`,
--   `unhash_node` is `unhash_id` and the loop of `unhash_name`, `rehash` and `remerge` are the
--   functions of both names; NodeTable/NameTable.antt has the table of names under its own
--   function names. The array is a function that is read below `size`.
-- - lib/fuse.c, the life of a node: Nodes.antt (`find_node`, `forget_node`, `unref_node`,
--   `remove_node`, `rename_node`, `exchange_node` and the reference counts). The two tables are what
--   they hold, a set of ids and the list of the nodes that have a name. `unref` has the number of
--   names as fuel: each deletion that goes on to a parent takes a name away. `next_id` has fuel,
--   which is enough when it reaches an id that is free.
-- - lib/fuse.c, paths and tree locks: TreeLock.antt (`try_get_path`, `unlock_path`). A node's
--   ancestors are a list of node ids, up to the root and without it; `node->treelock` is kept
--   with 2^31 added, which makes `INT_MIN` 0. TreeLock/Queue.antt has the queue `f->lockq` of
--   requests that wait for a path (`queue_path`, `wake_up_queued`, `get_path_common`,
--   `free_path`), for requests for one path, and TreeLock/Pair.antt `try_get_path2` for two.
-- - lib/fuse.c, directory handles: Readdir.antt (`fill_dir`, `readdir_fill`,
--   `readdir_fill_from_list`, `fuse_readdir_common`). The bytes of `dh->contents` are kept as the
--   entries that they hold, and the file system's `readdir` is the list of its calls of the filler.
-- - lib/fuse_lowlevel.c, requests: Session.antt. A request is an address in the heap `request`,
--   which `list` and `interrupts` refer to; `do_interrupt` and `check_interrupt` match a request
--   with its interrupt, and `gate` holds the checks of `fuse_session_process_buf_internal`.
--   `find_interrupted` drops the lock in the middle, so it is cut in two, and
--   Session/Threads.antt has the threads of the session as a step relation. The relation is
--   for a session whose `no_interrupt` stays 0.
-- - lib/fuse_lowlevel.c, the start of a session: Init.antt and Init/Reply.antt (`do_init`,
--   `fuse_convert_to_conn_want_ext`, `fuse_set_feature_flag`, `want_flags_valid`). A word of flags
--   is a function from bits; the file system's `init` is a function on `struct fuse_conn_info`, which
--   has `conn_want` and `conn_want_ext` of the session, too.
-- - lib/fuse_loop_mt.c: Workers.antt (`fuse_do_work`, `fuse_loop_start_thread`, `fuse_join_worker`,
--   `fuse_session_loop_mt_312`). What a thread does under `mt->lock` is one step, and
--   Workers/Steps.antt has the steps of all threads as a relation.
-- - util/fusermount.c, options: Mount.antt (`do_mount`, `find_mount_flag`, `get_string_opt`) and
--   Mount/Extract.antt (`extract_x_options`), one after the other as in `mount_fuse` in
--   Mount/Whole.antt. An option is the bytes that are left; each round of the loop takes one byte at
--   least, so that the length of the text is enough fuel.
-- - lib/modules/subdir.c: Subdir.antt. The functions on one path differ only in what they call, and
--   are one clause of `redirect`; the next file system is a function on calls. `strip_common` runs
--   on the lengths of both strings, since each further round passes a slash.
-- - lib/fuse_opt.c: Opt/Text.antt (`fuse_opt_insert_arg`, `fuse_opt_add_opt`,
--   `process_real_option_group`), Opt/Template.antt (`match_template`, `find_opt`) and
--   Opt/Parse.antt (`fuse_opt_parse` and what it calls). The option table, the callback and the
--   writes into the caller's structure are the record `Client`.
-- - lib/buffer.c: Buf.antt (transfers) and Buf/Vector.antt (splicing and the copy of vectors). The
--   system calls are the record `Sys` over a state of any type.
-- - custom_include/bound.c: Bound.antt. The socket's `read` and `write` are parameters, and so is
--   the place of the field `size` in the bytes of a packet. The `strncpy` of the server's loop
--   stops at a NUL.
-- - server/server.c: Server.antt. The kernel's calls on files are the record `Files`; the event
--   loop is a step function on the epoll set.
--
-- Numbers are natural numbers. Where the code computes modulo a power of two (the hashes) the
-- modulus is written out, and where it guards a sum (`fuse_buf_size`) the bound is. Offsets of
-- locks are at most `OFFSET_MAX`; the comparisons with `start - 1` are written with `+ 1` on the
-- other side. Each loop that does not follow a list has fuel: the length to be moved for
-- transfers and packets (each round moves a byte), the number of buffers for the copy of
-- vectors (each round but the last leaves one), `argc` for the option parser, the size that is asked
-- for in `extend_contents` (each round adds a byte), and the 8 rounds that `remerge_id` itself
-- allows.
--
-- Not modelled: failing allocations outside `locks_insert`, `node_table_resize`, `rename_node`,
-- `exchange_node` and the paths of subdir.c, the mutexes of the high-level library,
-- requests for two paths that wait in the queue, logging, the system calls of
-- mounting, and of lib/fuse_lowlevel.c the handlers that only decode a request for a callback,
-- replies, notifications and buffers that are pipes.
mod Base
pub mod Locks
pub mod NodeTable
pub mod Opt
pub mod Buf
pub mod Bound
pub mod Server
pub mod TreeLock
pub mod Session
pub mod Readdir
pub mod Subdir
pub mod Nodes
pub mod Mount
pub mod Workers
pub mod Init
