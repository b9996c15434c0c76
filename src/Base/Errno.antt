-- ===== src/Base/Errno.antt =====
-- The kernel's error numbers, and an `int` result that is 0 or a negated one of them.
pub data Errno : Type 0 where
  eperm enoent eintr eio eagain enomem eacces efault einval : Errno

pub data Code : Type 0 where
  success : Code
  fail : Errno → Code
