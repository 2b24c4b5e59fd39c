-- ===== src/Lib.antt =====
-- MDBFS, a file system for SQLite with a file allocation table: a kernel module, the functions
-- that a patched SQLite calls in its place, and the programs that format a volume.
--
-- A volume is one device file: a superblock of one sector, two copies of the table (which the code
-- uses as one table of twice the size), and the data clusters of one sector each, from number 2 on.
-- Entry `c` of the table holds the number of the cluster behind `c` in its file, or the end mark. A
-- directory is a chain of clusters of eight entries of 64 bytes; the root directory begins in
-- cluster 2. Every call begins with `get_cluster_number`, which follows a path from the root; then
-- `get_dentry` finds an entry in that directory, `read_file` and `write_file` follow the file's chain
-- to the cluster of an offset, and `alloc_new_dirent` and `alloc_new_entry` put an entry into the
-- directory or renew it. New clusters come from `find_empty_fat_index`.
--
-- The files, with the functions that they translate (paths from the repository's root):
--   * Prelude, Prelude/Tests, Prelude/Lists, Prelude/Results: the shared names; how a C function ends
--     (it returns, it meets undefined behaviour, it stops by `exit` or `BUG_ON`, or the rounds given
--     to a loop are used up).
--   * Memory, Memory/Laws, Memory/Strings: buffers as functions from offsets to bytes, little-endian
--     numbers in them, `memcpy` and C strings.
--   * Volume, Volume/Layout (volume.c, volume.h, super.h): the file with its size and position,
--     `seek_volume`, `read_volume`, `write_volume`, `read_sb`, `get_end_cluster`, `get_bad_cluster`;
--     `Layout w s v` says that the superblock of `v` describes indices of `w` bytes and `s` sectors to
--     a copy of the table.
--   * Fat, Fat/Entries, Fat/RoundTrip, Fat/Search, Fat/Width, Fat/Boundary (fat.c): the functions of
--     the table, and the entries that they read and write.
--   * Util, Util/Size, Util/Tokens (util.c): `strtok_r`, `fls64`, `parse_size`.
--   * Entry and the folder Entry (entry.c, and the attribute functions of dir.c and file.c): Paths for
--     the two parts of a path; Dirent for `struct mfs_dirent`; Made for the entry of a new file or
--     directory; Walk for `get_first_entry`, `get_next_entry`, `read_cluster` and the two loops that all
--     the searches share, with the chains of the table, the first entry that passes a test, what a write
--     keeps, and how the table changes when a free cluster begins a file (Claim), is linked to the end of
--     one (Extend), and is searched for in a run of free ones (Spare), and that a chain meets no cluster
--     twice (Once); LongName for `composite_long_file_name`; Directory for `get_dentry`,
--     `alloc_new_dirent`, `alloc_new_entry` and `get_cluster_number`; Directory/Put and Directory/New for
--     a write of one entry into a slot and for a new entry with a new cluster; Directory/Route and
--     Directory/Leads say where a path leads.
--   * File, File/Lengths, File/Seek, File/RoundTrip, File/Append, File/Create (file.c): `read_file`,
--     `write_file`, which also takes new clusters at the end of a file, and `__mfs_create`.
--   * Dir, Dir/Walk, Dir/Live, Dir/Readdir, Dir/Lookup, Dir/Added, Dir/Mkdir, Dir/Missing (dir.c):
--     `__mfs_lookup`, `__mfs_readdir`, `mfs_readdir`, `__mfs_mkdir`, and a directory as the list of its live entries.
--   * Namei, Namei/Inodes, Namei/Paths (namei.c, file.c, util.c): the calls of the kernel: `mfs_lookup`,
--     `mfs_create`, `mfs_mkdir`, `mfs_mknod`, `mfs_getattr`, `mfs_read`, `mfs_write`, and the path of a
--     VFS dentry.
--   * Sqlite and the folder Sqlite (sqliteio.c, progs/mdbfs.c): the calls of SQLite's file layer, and
--     `create_dummy`. Content has `FileAt`, the abstract view of a file of the root directory: its name,
--     its length and its bytes, with the entry, the clusters and the table that stand for them; Keeps
--     says that a call keeps the other files, with Apart and Beside for what keeps one. Read, Append,
--     Inside, Blocks, Loop, Growth, Room, Dummy and Fresh are what the calls do to a file.
--     Session has the root directory as an abstract store from names to bytes, and sequences of
--     calls as steps on it and on the volume; Session/Kept and Session/Run say that the two agree.
--   * Mount, Mount/Outcomes (super.c, volume.c): `mfs_fill_super` and the `open_volume` that it calls.
--   * Fuse, Fuse/Descriptors (progs/fuse.c): the calls of FUSE, over a record of the host's calls.
--   * Mkfs, Mkfs/Superblock, Mkfs/Zeros, Mkfs/Image, Mkfs/Format (progs/mkfs.h, progs/mkfs.c): the
--     formatting of a volume.
--   * Tests and the folder Tests: small volumes, and the theorems at them.
--
-- The state of a volume is passed from call to call. A function that only reads drops the position of
-- the file that it leaves, since each call seeks before it reads or writes. `read_at` and `write_at`
-- are a seek with the read or write behind it. Integers keep the width of their C types: sums and
-- products that can wrap carry the modulus. What a buffer on the stack holds before it is set, what
-- stands behind it, the kernel's `dir_emit`, `new_inode`, `d_make_root`, `filp_open` and
-- `simple_getattr`, the host's calls, and `rand` are arguments of the functions that use them.
--
-- Loops that C bounds by nothing but the data run on fuel: a walk along a chain needs one round more
-- than the chain has clusters, the search of a sector one more than it has bytes, the search of the
-- table one more than there are positions of a `u32_t`, the formatting one more than there are
-- sectors. Where a theorem has a condition on fuel, it is one of these; for a chain of the table the
-- number of its clusters bounds it.
--
-- Modelled is the variant of the kernel module on x86_64, for kernels from 3.11 on. Not modelled:
-- printing; the closing of devices; the registration with the kernel (super.c); the reading of the
-- command line; the copy of SQLite's shell.
pub mod Prelude
pub mod Memory
pub mod Volume
pub mod Fat
pub mod Util
pub mod Entry
pub mod File
pub mod Dir
pub mod Mkfs
pub mod Sqlite
pub mod Namei
pub mod Fuse
pub mod Mount
pub mod Tests
