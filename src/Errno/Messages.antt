-- ===== src/Errno/Messages.antt =====
-- Which message of src/dllmain/posix-errno.c a winsock or system error ends up with.
use clamav_win.Base.{
  ℕ, zero, suc, ◌+◌, ◌<◌, ◌≡◌, refl, Bool, true, false, not, ◌&&◌, none, some, arith, ◌==◌,
  if◌then◌else◌, get_elem?, all_below, all_below_sound,
}
use clamav_win.Errno.{max_cw_errno, remap, cw_strerror, find_case, set_errno, cw_wseterrno}
use clamav_win.Errno.Codes.{Errno, host_not_found, try_again, no_recovery, no_data, Runtime, value}
use clamav_win.Errno.Tables.{cw_errlist, wsa_cases}

strerror-in_table :
    (crt : Runtime) (ndebug : Bool) (n : ℕ)
    → remap crt n < max_cw_errno
    → cw_strerror crt ndebug n ≡ get_elem? cw_errlist (remap crt n)
unfolding cw_strerror
strerror-in_table crt ndebug n h = ground arith

-- A runtime that defines none of the macros under `#ifndef`.
abbrev pub plain : (Errno → ℕ) → Runtime
plain number = record { defined = λ _. false; number = number }

abbrev socket_error : (Errno → ℕ) → ℕ → ℕ × Bool
socket_error number k = cw_wseterrno (plain number) (10038 + k)

abbrev socket_error_ok : (Errno → ℕ) → ℕ → Bool
socket_error_ok number k =
    (remap (plain number) (socket_error number k).0 == 88 + k) && not (socket_error number k).1

socket_errors_table : (number : Errno → ℕ) → all_below 24 (socket_error_ok number) ≡ true
unfolding all_below remap cw_wseterrno value find_case wsa_cases set_errno
socket_errors_table number = refl

-- Where the C runtime defines none of the macros under `#ifndef`, the winsock errors 10038 to 10061
-- are translated with no warning to an errno whose message is the entry of the same rank from
-- index 88 on, WSAETIMEDOUT included.
pub wseterrno-socket_range :
    (number : Errno → ℕ) (ndebug : Bool) (k : ℕ)
    → k < 24
    → (cw_strerror (plain number) ndebug (cw_wseterrno (plain number) (10038 + k)).0
        ≡ get_elem? cw_errlist (88 + k))
      × ((cw_wseterrno (plain number) (10038 + k)).1 ≡ false)
wseterrno-socket_range number ndebug k h =
    let checked = all_below_sound (socket_error_ok number) k 24 h (socket_errors_table number) in
    let at : remap (plain number) (socket_error number k).0 ≡ 88 + k = ground arith in
    let errno = (socket_error number k).0 in
    (rw (strerror-in_table (plain number) ndebug errno (omega (arith, at)), at) refl, ground arith)

-- The h_errno names of winsock carry the winsock numbers, which are not in the table, though the
-- table has messages for them at 63 to 66: the errors 11001 to 11004 abort in a build with
-- assertions and get the message for a bad number in any other.
pub h_errno-no_message :
    (crt : Runtime) (ndebug : Bool)
    → crt.number host_not_found ≡ 11001
    → crt.number try_again ≡ 11002
    → crt.number no_recovery ≡ 11003
    → crt.number no_data ≡ 11004
    → value crt Errno.etimedout < 11001
    → (k : ℕ) → k < 4
    → cw_strerror crt ndebug (cw_wseterrno crt (11001 + k)).0
      ≡ (if ndebug then some "Invalid error number" else none)
unfolding cw_strerror remap cw_wseterrno value find_case wsa_cases set_errno
h_errno-no_message crt ndebug a b c d t zero h = ground arith
h_errno-no_message crt ndebug a b c d t (suc zero) h = ground arith
h_errno-no_message crt ndebug a b c d t (suc (suc zero)) h = ground arith
h_errno-no_message crt ndebug a b c d t (suc (suc (suc zero))) h = ground arith
h_errno-no_message crt ndebug a b c d t (suc (suc (suc (suc k)))) h = absurd (omega arith)
