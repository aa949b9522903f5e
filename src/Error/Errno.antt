-- ===== src/Error/Errno.antt =====
-- The `errno` values of Linux that the program tests.
use Prim.Native.Nat.{ℕ}

abbrev pub enoent : ℕ
enoent = 2

abbrev pub eintr : ℕ
eintr = 4

abbrev pub eagain : ℕ
eagain = 11

abbrev pub enomem : ℕ
enomem = 12

abbrev pub ebusy : ℕ
ebusy = 16

abbrev pub eexist : ℕ
eexist = 17

abbrev pub einval : ℕ
einval = 22

abbrev pub econnreset : ℕ
econnreset = 104

abbrev pub enotconn : ℕ
enotconn = 107

abbrev pub eshutdown : ℕ
eshutdown = 108

abbrev pub etimedout : ℕ
etimedout = 110

abbrev pub einprogress : ℕ
einprogress = 115

abbrev pub ecanceled : ℕ
ecanceled = 125

abbrev pub eproto : ℕ
eproto = 71

abbrev pub enetdown : ℕ
enetdown = 100

abbrev pub enetunreach : ℕ
enetunreach = 101

abbrev pub econnaborted : ℕ
econnaborted = 103

abbrev pub ehostdown : ℕ
ehostdown = 112

abbrev pub ehostunreach : ℕ
ehostunreach = 113
