-- ===== src/Errno/Codes.antt =====
-- The errno macros of include/posix-errno.h that src/dllmain/posix-errno.c uses. A macro under
-- `#ifndef` keeps the C runtime's value where the runtime defines it, so the runtime's macros are a
-- parameter.
use clamav_win.Base.{ℕ, Bool, if◌then◌else◌}

-- The macro names; the last six are used by `cw_leerrno` only.
pub data Errno : Type 0 where
  ebadf enomem invalid_parameter operation_aborted io_incomplete io_pending eintr eacces : Errno
  efault einval emfile ealready einprogress enotsock edestaddrreq emsgsize eprototype : Errno
  enoprotoopt eprotonosupport esocktnosupport eopnotsupp epfnosupport eafnosupport eaddrinuse :
      Errno
  eaddrnotavail enetdown enetunreach enetreset econnaborted econnreset enobufs eisconn : Errno
  enotconn eshutdown etoomanyrefs etimedout econnrefused eloop enametoolong ehostdown : Errno
  ehostunreach enotempty eproclim eusers edquot estale eremote sysnotready vernotsupported : Errno
  notinitialised ediscon enomore ecancelled einvalidproctable einvalidprovider : Errno
  eproviderfailedinit syscallfailure service_not_found type_not_found e_no_more e_cancelled : Errno
  erefused host_not_found try_again no_recovery no_data noerror enoent enomod enoproc enodev : Errno
  enotready : Errno

-- The C runtime's and winsock's errno macros: which names they define, and as what.
pub record Runtime : Type 0 where
  pub defined : Errno → Bool
  pub number : Errno → ℕ

-- A macro of posix-errno.h under `#ifndef`.
abbrev pub guarded : Runtime → Errno → ℕ → ℕ
guarded crt e d = if crt.defined e then crt.number e else d

-- The value that a name has in posix-errno.c. A name that posix-errno.h does not define has the
-- runtime's value.
unfoldable pub value : Runtime → Errno → ℕ
value crt invalid_parameter = 87
value crt operation_aborted = 81
value crt io_incomplete = 82
value crt io_pending = 83
value crt ealready = guarded crt ealready 114
value crt einprogress = guarded crt einprogress 115
value crt enotsock = guarded crt enotsock 88
value crt edestaddrreq = guarded crt edestaddrreq 89
value crt emsgsize = guarded crt emsgsize 90
value crt eprototype = guarded crt eprototype 91
value crt enoprotoopt = guarded crt enoprotoopt 92
value crt eprotonosupport = guarded crt eprotonosupport 93
value crt esocktnosupport = guarded crt esocktnosupport 94
value crt eopnotsupp = guarded crt eopnotsupp 95
value crt epfnosupport = guarded crt epfnosupport 96
value crt eafnosupport = guarded crt eafnosupport 97
value crt eaddrinuse = guarded crt eaddrinuse 98
value crt eaddrnotavail = guarded crt eaddrnotavail 99
value crt enetdown = guarded crt enetdown 100
value crt enetunreach = guarded crt enetunreach 101
value crt enetreset = guarded crt enetreset 102
value crt econnaborted = guarded crt econnaborted 103
value crt econnreset = guarded crt econnreset 104
value crt enobufs = guarded crt enobufs 105
value crt eisconn = guarded crt eisconn 106
value crt enotconn = guarded crt enotconn 107
value crt eshutdown = guarded crt eshutdown 108
value crt etoomanyrefs = guarded crt etoomanyrefs 109
value crt etimedout = guarded crt etimedout 10060
value crt econnrefused = guarded crt econnrefused 111
value crt eloop = guarded crt eloop 44
value crt ehostdown = guarded crt ehostdown 112
value crt ehostunreach = guarded crt ehostunreach 113
value crt eproclim = 45
value crt eusers = 46
value crt edquot = guarded crt edquot 122
value crt estale = guarded crt estale 116
value crt eremote = 47
value crt sysnotready = 48
value crt vernotsupported = 49
value crt notinitialised = 50
value crt ediscon = 51
value crt enomore = 52
value crt ecancelled = 53
value crt einvalidproctable = 54
value crt einvalidprovider = 55
value crt eproviderfailedinit = 56
value crt syscallfailure = 57
value crt service_not_found = 58
value crt type_not_found = 59
value crt e_no_more = 60
value crt e_cancelled = 61
value crt erefused = 62
value crt enomod = 71
value crt enoproc = 72
value crt enotready = 70
value crt ebadf = crt.number ebadf
value crt enomem = crt.number enomem
value crt eintr = crt.number eintr
value crt eacces = crt.number eacces
value crt efault = crt.number efault
value crt einval = crt.number einval
value crt emfile = crt.number emfile
value crt enametoolong = crt.number enametoolong
value crt enotempty = crt.number enotempty
value crt host_not_found = crt.number host_not_found
value crt try_again = crt.number try_again
value crt no_recovery = crt.number no_recovery
value crt no_data = crt.number no_data
value crt noerror = crt.number noerror
value crt enoent = crt.number enoent
value crt enodev = crt.number enodev
