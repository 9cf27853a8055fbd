-- ===== src/Os.antt =====
-- What the sources ask of the kernel and of POSIX libraries, as one record of answers. A file is
-- the content that a reader sees; an answer stays the same for the length of one call.
use cpslib.Prelude.{ℕ, Bool, Option, List}
use cpslib.Libc.{Bytes}

pub record Statvfs : Type 0 where
  pub f_frsize : ℕ
  pub f_blocks : ℕ
  pub f_bfree : ℕ
  pub f_bavail : ℕ

pub record Sysinfo : Type 0 where
  pub totalram : ℕ
  pub freeram : ℕ
  pub bufferram : ℕ
  pub totalswap : ℕ
  pub freeswap : ℕ
  pub mem_unit : ℕ

pub record Mntent : Type 0 where
  pub mnt_fsname : Bytes
  pub mnt_dir : Bytes
  pub mnt_type : Bytes
  pub mnt_opts : Bytes

pub record Utmp : Type 0 where
  pub ut_type : ℕ
  pub ut_user : Bytes
  pub ut_line : Bytes
  pub ut_host : Bytes
  pub tv_sec : ℕ

pub record Os : Type 0 where
  -- the content of the file at a path, and the errno where it cannot be opened
  pub file : Bytes → Option Bytes
  pub open_errno : Bytes → ℕ
  -- the target of a symbolic link, the errno where it cannot be read, and whether lstat succeeds
  pub link : Bytes → Option Bytes
  pub link_errno : Bytes → ℕ
  pub lstat : Bytes → Bool
  pub statvfs : Bytes → Option Statvfs
  pub sysinfo : Option Sysinfo
  -- sysconf(_SC_CLK_TCK) and the 64 bits of sysconf(_SC_NPROCESSORS_ONLN)
  pub clk_tck : ℕ
  pub nprocessors_onln : ℕ
  -- the errno of kill(pid, 0), `none` where it succeeds
  pub kill_zero : ℕ → Option ℕ
  -- the pw_name of a user's entry in the passwd database
  pub pw_name : ℕ → Option Bytes
  -- the mount table, `none` where it cannot be opened, and the login records
  pub mounts : Option (List Mntent)
  pub logins : List Utmp

-- <errno.h> on Linux
abbrev pub eperm : ℕ
eperm = 1

abbrev pub enoent : ℕ
enoent = 2

abbrev pub esrch : ℕ
esrch = 3

abbrev pub erange : ℕ
erange = 34

-- <utmp.h>
abbrev pub user_process : ℕ
user_process = 7
