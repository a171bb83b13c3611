-- ===== src/Errno/Tests.antt =====
-- Instances of the theorems on src/dllmain/posix-errno.c.
use clamav_win.Base.{ℕ, ◌+◌, ◌≡◌, refl, false, true, some, none, arith, if◌then◌else◌, get_elem?}
use clamav_win.Errno.{cw_strerror, cw_wseterrno}
use clamav_win.Errno.Codes.{Errno, value}
use clamav_win.Errno.Tables.{cw_errlist}
use clamav_win.Errno.Messages.{plain, wseterrno-socket_range, h_errno-no_message}

-- A C runtime that gives every macro the number 22.
abbrev numbers : Errno → ℕ
numbers e = 22

wseterrno-socket_range_example :
    (cw_strerror (plain numbers) true (cw_wseterrno (plain numbers) (10038 + 22)).0
      ≡ get_elem? cw_errlist (88 + 22))
    × ((cw_wseterrno (plain numbers) (10038 + 22)).1 ≡ false)
wseterrno-socket_range_example = wseterrno-socket_range numbers true 22 (omega arith)

-- A C runtime with winsock's numbers.
abbrev winsock_numbers : Errno → ℕ
winsock_numbers Errno.host_not_found = 11001
winsock_numbers Errno.try_again = 11002
winsock_numbers Errno.no_recovery = 11003
winsock_numbers Errno.no_data = 11004
winsock_numbers e = 22

h_errno-no_message_example :
    cw_strerror (plain winsock_numbers) true (cw_wseterrno (plain winsock_numbers) (11001 + 3)).0
    ≡ (if true then some "Invalid error number" else none)
unfolding value
h_errno-no_message_example =
    h_errno-no_message (plain winsock_numbers) true refl refl refl refl (omega arith) 3
      (omega arith)
