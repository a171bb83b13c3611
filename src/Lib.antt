-- ===== src/Lib.antt =====
-- Verification of the ClamAV port to Windows: the program logic of its own C code, which supplies
-- POSIX functions, functions that old versions of Windows lack, a DNS resolver for freshclam and
-- the actions on infected files.
--
-- The parts, by their files here and in the repository. Definitions keep the C names in snake case.
--   Errno    src/dllmain/posix-errno.c and include/posix-errno.h: winsock and system errors become
--            errno values, which have messages (`cw_wseterrno`, `cw_leerrno`, `cw_strerror`).
--   Tz       src/legacy/shared/tzapi.c: calendar (Calendar), rules of a time zone (Transition) and
--            the conversions between UTC and local time (Convert). The others hold the proofs.
--   Sync     src/legacy/shared/synchapi.c: Srw is the slim lock, which uses the waits on addresses;
--            Queue has these and the condition variables, which keep their waiters alike. The
--            lists of list.h are lists of node numbers.
--   RunOnce  src/legacy/shared/runonce.c: one round of each loop as a function of the word that is
--            read and the word that the compare-exchange finds; Threads interleaves the rounds,
--            Once and Done hold what they keep.
--   Dns      src/helpers/resolver.c and include/resolv.h: `dn_comp` (Compress), `dn_expand`
--            (Expand), and the two resolvers that use them (Query).
--   Actions  src/common/win32actions.c: opening an infected file (Source), a name for it in the
--            target directory (Dest), and moving, copying and removing it (Quarantine).
--   Fls      src/legacy/shared/fibersapi.c: fiber-local storage on pthread keys. Spec holds what is
--            promised, Sound the invariant of the blocks; the others hold the proofs.
--   LongPath src/legacy/shared/getlongpathnamew.c: `GetLongPathNameW`. Spec is the long form by
--            separators and names, Find and Loop relate the two loops to it.
--   ScanMem  src/common/scanmem.c: the cache, `scanfile` (File), `scanmem_cb` (Module) and
--            `walkmodules` (Walk). It opens its sources by Actions/Source and uses the ledger of
--            descriptors, handles and strings there. `align_pe` (Align) stands alone.
--   Base     what all of them share: names of the libraries, Boolean tests, lists and integers over
--            the native numbers.
-- The parts do not call one another, except as named above.
--
-- Machine integers are natural numbers with their wrap-around written out; signed values are the
-- integers of Base/Int. Pointers are numbers, NULL is 0 or `none`.
--
-- Code that is not in the repository is a parameter: the conversions of Windows between SYSTEMTIME
-- and FILETIME and its own conversion to local time; the errno numbers of the C runtime; the event
-- that CreateEvent returns and the result of a wait; what DnsQuery_A, the registry and the network
-- return; the file calls of the system and of libclamav; pthreads, with the record `Documented` of
-- Fls/Sound for what is relied on; the blocks of HeapAlloc; FindFirstFileW; the verdicts of a scan, and
-- what the calls for a process and a module return. The record `Documented` of Actions/Safety
-- holds what is relied on of the file calls, where each file has one path: letter case and short names,
-- which give a file of Windows more than one, are left out.
--
-- Concurrency: each interlocked operation is one step, and so is a section under a spin lock. A
-- wait that is INFINITE ends only by a wake. The calls of fiber-local storage follow one another.
--
-- Fuel: the loop of `dn_comp` has one round more than the name has characters, which is proved
-- to be enough, and so have both loops of GetLongPathNameW for the path; that of `dn_expand` has the
-- rounds that its counter allows, and that of `getdest` the 999 of the source. `walk`, the loop over
-- the waiters of an INIT_ONCE, has any fuel, since it may not end.
--
-- Not modelled: logging, timeouts of waits beyond their result, the handles of events, sockets and
-- registry keys, what a failing call leaves in an output (but for `dn_comp` and GetLongPathNameW, where it
-- is), and the files that no part names:
-- string functions, the service, dumps of processes in the memory scan, directories, final path names,
-- thin wrappers of system calls, assembly, and vendored or generated code.
pub mod Base
pub mod Errno
pub mod Tz
pub mod Sync
pub mod RunOnce
pub mod Dns
pub mod Actions
pub mod Fls
pub mod LongPath
pub mod ScanMem
