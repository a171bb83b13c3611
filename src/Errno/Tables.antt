-- ===== src/Errno/Tables.antt =====
-- The message table `cw_errlist` of src/dllmain/posix-errno.c, and the tables that its two `switch`
-- statements stand for.
use Prim.Native.String.{String}
use clamav_win.Base.{ℕ, List, [], ◌∷◌}
use clamav_win.Errno.Codes.{
  Errno, ebadf, enomem, invalid_parameter, operation_aborted, io_incomplete, io_pending, eintr,
  eacces, efault, einval, emfile, ealready, einprogress, enotsock, edestaddrreq, emsgsize,
  eprototype, enoprotoopt, eprotonosupport, esocktnosupport, eopnotsupp, epfnosupport, eafnosupport,
  eaddrinuse, eaddrnotavail, enetdown, enetunreach, enetreset, econnaborted, econnreset, enobufs,
  eisconn, enotconn, eshutdown, etoomanyrefs, etimedout, econnrefused, eloop, enametoolong,
  ehostdown, ehostunreach, enotempty, eproclim, eusers, edquot, estale, eremote, sysnotready,
  vernotsupported, notinitialised, ediscon, enomore, ecancelled, einvalidproctable,
  einvalidprovider, eproviderfailedinit, syscallfailure, service_not_found, type_not_found,
  e_no_more, e_cancelled, erefused, host_not_found, try_again, no_recovery, no_data, noerror,
  enoent, enomod, enoproc, enodev, enotready,
}

-- `cw_errlist`, from index 0 to 127.
unfoldable pub cw_errlist : List String
cw_errlist =
    "No error" ∷ "Operation not permitted" ∷ "No such file or directory" ∷ "No such process"
    ∷ "Interrupted function call" ∷ "Input/output error" ∷ "No such device or address"
    ∷ "Arg list too long" ∷ "Exec format error" ∷ "Bad file descriptor" ∷ "No child processes"
    ∷ "Resource temporarily unavailable" ∷ "Not enough space" ∷ "Permission denied" ∷ "Bad address"
    ∷ "Unknown error" ∷ "Resource device" ∷ "File exists" ∷ "Improper link" ∷ "No such device"
    ∷ "Not a directory" ∷ "Is a directory" ∷ "Invalid argument" ∷ "Too many open files in system"
    ∷ "Too many open files" ∷ "Inappropriate I/O control operation" ∷ "Unknown error"
    ∷ "File too large" ∷ "No space left on device" ∷ "Invalid seek" ∷ "Read-only file system"
    ∷ "Too many links" ∷ "Broken pipe" ∷ "Domain error" ∷ "Result too large" ∷ "Unknown error"
    ∷ "Resource deadlock avoided" ∷ "Unknown error" ∷ "Filename too long" ∷ "No locks available"
    ∷ "Function not implemented" ∷ "Directory not empty" ∷ "Illegal byte sequence" ∷ "Unknown error"
    ∷ "Cannot translate name" ∷ "Too many processes" ∷ "User quota exceeded" ∷ "Item is remote"
    ∷ "Network subsystem is unavailable" ∷ "Winsock.dll version out of range"
    ∷ "Successful WSAStartup not yet performed" ∷ "Graceful shutdown in progress"
    ∷ "No more results" ∷ "Call has been canceled" ∷ "Procedure call table is invalid"
    ∷ "Service provider is invalid" ∷ "Service provider failed to initialize"
    ∷ "System call failure" ∷ "Service not found" ∷ "Class type not found" ∷ "No more results"
    ∷ "Call was canceled" ∷ "Database query was refused" ∷ "Host not found"
    ∷ "Nonauthoritative host not found" ∷ "This is a nonrecoverable error"
    ∷ "Valid name, no data record of requested type" ∷ "Unknown error" ∷ "Unknown error"
    ∷ "Unknown error" ∷ "Drive not ready" ∷ "The specified module could not be found"
    ∷ "The specified procedure could not be found" ∷ "Unknown error" ∷ "Unknown error"
    ∷ "Unknown error" ∷ "Unknown error" ∷ "Unknown error" ∷ "Unknown error" ∷ "Unknown error"
    ∷ "String truncation occurred" ∷ "Unknown error" ∷ "I/O incomplete" ∷ "I/O pending"
    ∷ "Unknown error" ∷ "Unknown error" ∷ "Unknown error" ∷ "Invalid parameter"
    ∷ "Socket operation on non-socket" ∷ "Destination address required" ∷ "Message too long"
    ∷ "Protocol wrong type for socket" ∷ "Protocol not available" ∷ "Protocol not supported"
    ∷ "Socket type not supported" ∷ "Operation not supported on transport endpoint"
    ∷ "Protocol family not supported" ∷ "Address family not supported by protocol"
    ∷ "Address already in use" ∷ "Cannot assign requested address" ∷ "Network is down"
    ∷ "Network is unreachable" ∷ "Network dropped connection because of reset"
    ∷ "Software caused connection abort" ∷ "Connection reset by peer" ∷ "No buffer space available"
    ∷ "Transport endpoint is already connected" ∷ "Transport endpoint is not connected"
    ∷ "Cannot send after transport endpoint shutdown" ∷ "Too many references: cannot splice"
    ∷ "Connection timed out" ∷ "Connection refused" ∷ "Host is down" ∷ "No route to host"
    ∷ "Operation already in progress" ∷ "Operation now in progress" ∷ "Stale NFS file handle"
    ∷ "Structure needs cleaning" ∷ "Not a XENIX named type file" ∷ "No XENIX semaphores available"
    ∷ "Is a named type file" ∷ "Remote I/O error" ∷ "Quota exceeded" ∷ "Unknown error"
    ∷ "Unknown error" ∷ "Unknown error" ∷ "Unknown error" ∷ "Unknown error" ∷ []

-- The cases of `cw_wseterrno`: the winsock error and the name that errno is set to.
unfoldable pub wsa_cases : List (ℕ × Errno)
wsa_cases =
    (6, ebadf)
    ∷ (8, enomem)
    ∷ (87, invalid_parameter)
    ∷ (995, operation_aborted)
    ∷ (996, io_incomplete)
    ∷ (997, io_pending)
    ∷ (10004, eintr)
    ∷ (10009, ebadf)
    ∷ (10013, eacces)
    ∷ (10014, efault)
    ∷ (10022, einval)
    ∷ (10024, emfile)
    ∷ (10035, ealready)
    ∷ (10036, einprogress)
    ∷ (10037, ealready)
    ∷ (10038, enotsock)
    ∷ (10039, edestaddrreq)
    ∷ (10040, emsgsize)
    ∷ (10041, eprototype)
    ∷ (10042, enoprotoopt)
    ∷ (10043, eprotonosupport)
    ∷ (10044, esocktnosupport)
    ∷ (10045, eopnotsupp)
    ∷ (10046, epfnosupport)
    ∷ (10047, eafnosupport)
    ∷ (10048, eaddrinuse)
    ∷ (10049, eaddrnotavail)
    ∷ (10050, enetdown)
    ∷ (10051, enetunreach)
    ∷ (10052, enetreset)
    ∷ (10053, econnaborted)
    ∷ (10054, econnreset)
    ∷ (10055, enobufs)
    ∷ (10056, eisconn)
    ∷ (10057, enotconn)
    ∷ (10058, eshutdown)
    ∷ (10059, etoomanyrefs)
    ∷ (10060, etimedout)
    ∷ (10061, econnrefused)
    ∷ (10062, eloop)
    ∷ (10063, enametoolong)
    ∷ (10064, ehostdown)
    ∷ (10065, ehostunreach)
    ∷ (10066, enotempty)
    ∷ (10067, eproclim)
    ∷ (10068, eusers)
    ∷ (10069, edquot)
    ∷ (10070, estale)
    ∷ (10071, eremote)
    ∷ (10091, sysnotready)
    ∷ (10092, vernotsupported)
    ∷ (10093, notinitialised)
    ∷ (10101, ediscon)
    ∷ (10102, enomore)
    ∷ (10103, ecancelled)
    ∷ (10104, einvalidproctable)
    ∷ (10105, einvalidprovider)
    ∷ (10106, eproviderfailedinit)
    ∷ (10107, syscallfailure)
    ∷ (10108, service_not_found)
    ∷ (10109, type_not_found)
    ∷ (10110, e_no_more)
    ∷ (10111, e_cancelled)
    ∷ (10112, erefused)
    ∷ (11001, host_not_found)
    ∷ (11002, try_again)
    ∷ (11003, no_recovery)
    ∷ (11004, no_data)
    ∷ []

-- The cases of `cw_leerrno`, by the numbers of winerror.h.
unfoldable pub le_cases : List (ℕ × Errno)
le_cases =
    (18, noerror)
    ∷ (2, enoent)
    ∷ (3, enoent)
    ∷ (123, enoent)
    ∷ (161, enoent)
    ∷ (53, enoent)
    ∷ (67, enoent)
    ∷ (126, enomod)
    ∷ (1157, enomod)
    ∷ (127, enoproc)
    ∷ (1200, enodev)
    ∷ (5, eacces)
    ∷ (32, eacces)
    ∷ (33, eacces)
    ∷ (21, enotready)
    ∷ (206, enoent)
    ∷ []
