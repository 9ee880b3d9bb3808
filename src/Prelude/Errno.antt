-- ===== src/Prelude/Errno.antt =====
-- The error numbers of Linux that the program uses, from the system's errno.h.
use Prim.Native.Nat.{ℕ}

abbrev pub enoent : ℕ
enoent = 2

abbrev pub eagain : ℕ
eagain = 11

abbrev pub enomem : ℕ
enomem = 12

abbrev pub enodev : ℕ
enodev = 19

abbrev pub einval : ℕ
einval = 22

abbrev pub enomsg : ℕ
enomsg = 42

abbrev pub ebadmsg : ℕ
ebadmsg = 74

abbrev pub enotsock : ℕ
enotsock = 88

abbrev pub emsgsize : ℕ
emsgsize = 90

abbrev pub eprototype : ℕ
eprototype = 91

abbrev pub eprotonosupport : ℕ
eprotonosupport = 93

abbrev pub eaddrinuse : ℕ
eaddrinuse = 98

abbrev pub enobufs : ℕ
enobufs = 105

abbrev pub ehostunreach : ℕ
ehostunreach = 113

abbrev pub ealready : ℕ
ealready = 114

abbrev pub einprogress : ℕ
einprogress = 115
