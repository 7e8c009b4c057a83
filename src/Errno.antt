-- ===== src/Errno.antt =====
-- The negated error codes that the library returns, with the numbers of errno.h on Linux.
use libshdata.Common.Int.{ℤ, pos, negsuc}

abbrev pub success : ℤ
success = pos 0

abbrev pub eperm : ℤ
eperm = negsuc 0

abbrev pub enoent : ℤ
enoent = negsuc 1

-- also EWOULDBLOCK
abbrev pub eagain : ℤ
eagain = negsuc 10

abbrev pub enomem : ℤ
enomem = negsuc 11

abbrev pub efault : ℤ
efault = negsuc 13

abbrev pub eexist : ℤ
eexist = negsuc 16

abbrev pub enodev : ℤ
enodev = negsuc 18

abbrev pub einval : ℤ
einval = negsuc 21

abbrev pub enosys : ℤ
enosys = negsuc 37

abbrev pub ealready : ℤ
ealready = negsuc 113
