-- ===== src/Lib.antt =====
-- cofferFS: the filesystem of an encrypted container, a SQLite database that FUSE mounts.
--
-- A request of the kernel reaches a handler of src/fs.rs (impl Filesystem for CofferFS). The handler
-- locks the one connection, notes the time (touch), checks its arguments, and runs statements on the
-- tables of src/db.rs; what it writes, it writes in one transaction. src/main.rs and src/ipc.rs start
-- and stop the mount, and src/config.rs holds the list of vaults.
--
-- Which file models what:
--   Db, Db/Rows       the constants and the schema of src/db.rs, one list of rows to a table, and
--                     the WHERE clauses of the statements as functions on the lists
--   Db/Names, Db/Inodes, Db/Blocks
--                     the laws of these functions
--   Db/Check          find_inconsistencies of src/db.rs; Db/Check/Invariant is what keeps it at zero
--   Sql               the connection: statements, transactions, the clock. Every statement, BEGIN and
--                     COMMIT included, may fail: Conn.faults says which of the coming ones do
--   Sql/Rules, Sql/Total, Sql/Atomic, Sql/Calm
--                     proof rules for runs: after a success, after any end, without faults, and
--                     after a failure
--   Fs/Schema, Fs/Inodes
--                     the helpers of src/fs.rs over the schema (row_by_ino … truncate_inode)
--   Fs/Attr           to_attr, errno_for, reply_xattr, and lookup, getattr, readlink, open, flush,
--                     fsync, release, access, opendir
--   Fs/Content        read, write and setattr; Loops holds the loops over blocks; Refinement compares
--                     them with an array of bytes
--   Fs/Entries        mkdir, unlink, rmdir, symlink, create, link, rename
--   Fs/Listing        readdir, whose rows are steps that may fail one by one; statfs
--   Fs/Xattrs         setxattr, getxattr, listxattr, removexattr
--   Fs/Serve          the requests, and a session as a list of them
--   Fs/Consistency, Fs/Atomicity, Fs/ReadOnly
--                     what holds after every session or failure
--   Db/Container, Db/Migration, Db/Locking
--                     create_container, the settings and pragma_key_sql, migrate_to_v2 (its
--                     effect in Migration, its statements one by one in Migration/Batch), Locking
--   Db/Open           open_db_with: what a file holds after it
--   Ipc               src/ipc.rs: Request, Daemon and Backup are the mount's side of a backup through its
--                     socket, Client the other, Place where the socket is
--   Config            the registry of src/config.rs: parse; Vaults: vault_from and get; Edit: upsert,
--                     remove, render and to_text
--   Cli               the commands of src/main.rs: Mounts reads the mount table, Options is what `mount`
--                     mounts, Mount its actions, Locked `passwd` and `compact`, Registry `add` and
--                     `remove`, Umount `umount`, Check the verdict of `check`, Watch the idle threads,
--                     Sizes and Passwords what is read from flags; Steps is what a protocol is
--   Progress          src/progress.rs: the line that is drawn, and Line, the bar that draws and ends it
--   Fs/Tests, Db/Tests, Config/Tests, Ipc/Tests, Cli/Tests, Progress/Tests
--                     small containers, registries, backups and mount tables, at which the theorems
--                     are applied
--
-- A statement is a function on the tables. Where the source prepares a statement and executes it, the
-- model has one step, which may fail in either. A failed statement leaves the tables alone, as
-- SQLite does, and an early return inside a transaction drops it, which puts the tables back.
--
-- Numbers: inode numbers and sizes are stored as i64 and used as u64, a bijection, and the model keeps
-- the u64. Sums that may wrap in a release build have their modulus written out (read_end,
-- over_limit). Times are whole seconds. A u32 conversion of a length is written % 2 ^ 32.
--
-- Fuel: the loops of read and write run over at most one block per round and at least one byte, so the
-- number of bytes is enough; the theorems on read and write include that.
--
-- Parameters: f64 (a record of its operations in Cli/Sizes and in Progress) and
-- String::from_utf8_lossy. What the system answers (files, the mount table, sockets, processes) is data
-- of the model, read once per command.
--
-- Not modelled: the bytes on disk and their encryption (SQLCipher), the FUSE protocol (the crate
-- fuser), threads (a handler holds the lock of the connection from its first statement to its last),
-- how src/main.rs leaves the terminal (daemonize, redirect_std_to), its `backup`, `info` and `list`,
-- and texts that are printed.
pub mod Base
pub mod Cli
pub mod Config
pub mod Db
pub mod Fs
pub mod Ipc
pub mod Progress
pub mod Sql
