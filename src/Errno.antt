-- ===== src/Errno.antt =====
-- src/dllmain/posix-errno.c: the errno values that stand for winsock and system errors, and their
-- messages.
pub mod Codes
pub mod Tables
pub mod Messages
mod Tests
use Prim.Native.String.{String}
use clamav_win.Base.{
  ℕ, ◌<◌, Bool, true, false, Option, none, some, List, [], ◌∷◌, ltb, ◌==◌, if◌then◌else◌, get_elem?,
}
use Codes.{Errno, noerror, Runtime, value}
use Tables.{cw_errlist, wsa_cases, le_cases}

abbrev pub max_cw_errno : ℕ
max_cw_errno = 128

-- `_ETIMEDOUT`, and the value of WSAETIMEDOUT.
abbrev pub winsock_timed_out : ℕ
winsock_timed_out = 110

-- The number that a call of `strerror` reads the table at.
pub remap : Runtime → ℕ → ℕ
remap crt errnum = if errnum == value crt Errno.etimedout then winsock_timed_out else errnum

-- `cw_strerror`. `none` is the abort of the `assert`, which a build with NDEBUG leaves out. A number
-- that is not in the table cannot be negative here: all callers pass errno.
pub cw_strerror : Runtime → (ndebug : Bool) → ℕ → Option String
cw_strerror crt ndebug errnum =
    let n = remap crt errnum in
    if ltb n max_cw_errno
    then get_elem? cw_errlist n
    else if ndebug
    then some "Invalid error number"
    else none

-- A `switch`: the first case with this number.
pub find_case : ℕ → List (ℕ × Errno) → Option Errno
find_case code [] = none
find_case code ((c, e) ∷ rest) = if c == code then some e else find_case code rest

-- errno after a `switch` and whether the warning about a number that is not mapped is printed.
pub set_errno : Runtime → Option Errno → ℕ × Bool
set_errno crt none = (value crt noerror, true)
set_errno crt (some e) = (value crt e, false)

-- `cw_wseterrno`, from the value of WSAGetLastError.
pub cw_wseterrno : Runtime → ℕ → ℕ × Bool
cw_wseterrno crt wsaerr = set_errno crt (find_case wsaerr wsa_cases)

-- `cw_leerrno`, from the value of GetLastError. The warning of ERROR_FILENAME_EXCED_RANGE (206) is
-- printed as well, though that number is mapped.
pub cw_leerrno : Runtime → ℕ → ℕ × Bool
cw_leerrno crt err =
    let (errno, warned) = set_errno crt (find_case err le_cases) in
    (errno, if err == 206 then true else warned)
