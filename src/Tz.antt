-- ===== src/Tz.antt =====
-- src/legacy/shared/tzapi.c: the time zone functions for Windows XP. The conversions between
-- SYSTEMTIME and FILETIME are Windows', a parameter; years are USHORT and fields WORD, so natural
-- numbers. A month above 12 reads past the C tables and is left out by the theorems' conditions.
pub mod Calendar
pub mod Transition
pub mod Convert
pub mod Weekday
pub mod Rules
pub mod Order
pub mod Dst
pub mod Universal
mod Tests
