-- ===== src/Process/Info.antt =====
-- get_create_time, get_process and free_process of pslib_linux.c.
use cpslib.Prelude.{ℕ, Option, none, some, length, ltb, if◌then◌else◌}
use cpslib.Libc.{Bytes, codes, decimal}
use cpslib.Machine.{
  M, pure, crash, deref, buffer, free, free_block, fopen, fclose, check_ptr, ◌>>=◌, ◌>>◌,
}
use cpslib.Floats.{Floats}
use cpslib.Os.{Os}
use cpslib.Common.{grep_awk}
use cpslib.Process.{
  procfile, get_ppid, get_procname, get_exe, get_cmdline, get_ids, get_username, get_terminal,
  get_boot_time,
}

pub record Process (D : Type 0) : Type 0 where
  pub pid : ℕ
  pub ppid : ℕ
  pub name : Option Bytes
  pub exe : Option Bytes
  pub cmdline : Option Bytes
  pub create_time : D
  pub uid : ℕ
  pub euid : ℕ
  pub suid : ℕ
  pub gid : ℕ
  pub egid : ℕ
  pub sgid : ℕ
  pub username : Option Bytes
  pub terminal : Option Bytes

-- The user's ids and name, zero and NULL without a Uid line.
unfoldable pub user_fields : Os → Option (ℕ × ℕ × ℕ) → M ((ℕ × ℕ × ℕ) × Option Bytes)
user_fields os none = pure ((0, 0, 0), none)
user_fields os (some uids) = do username ← get_username os uids.0; pure (uids, username)

-- The ids of the group behind `if (uids)`: the test is on `uids` and not on `gids`, and
-- its other branch resets the user's ids.
unfoldable pub group_fields : Option (ℕ × ℕ × ℕ) → Option (ℕ × ℕ × ℕ) → M (ℕ × ℕ × ℕ)
group_fields none gids = pure (0, 0, 0)
group_fields (some uids) gids = deref gids

module _ {F D : Type 0} (fl : Floats F D) (os : Os) where
  -- `s_pid` has ten bytes, and a NULL field faults in atof.
  unfoldable pub get_create_time : ℕ → M D
  get_create_time pid = do
    boot_time ← get_boot_time os
    (if ltb (length (decimal pid)) 10 then pure tt else crash)
    fp ←
        fopen (os.file (procfile pid (codes "/stat")))
          (os.open_errno (procfile pid (codes "/stat")))
    check_ptr fp (pure fl.minus_one) λ file. do
      tmp ← grep_awk file (decimal pid) 21 (codes " ")
      t ← deref tmp
      free tmp
      fclose
      pure (fl.add (fl.double_of boot_time) (fl.div (fl.atof t) (fl.double_of os.clk_tck)))

  unfoldable pub get_process : ℕ → M (Process D)
  unfolding user_fields group_fields get_create_time
  get_process pid = do
    retval ← buffer
    block ← deref retval
    ppid ← get_ppid os pid
    name ← get_procname os pid
    exe ← get_exe os pid
    cmdline ← get_cmdline os pid
    create_time ← get_create_time pid
    uids ← get_ids os pid (codes "Uid:")
    user ← user_fields os uids
    gids ← get_ids os pid (codes "Gid:")
    group ← group_fields uids gids
    terminal ← get_terminal os pid
    free uids
    free gids
    pure (record {
      pid = pid;
      ppid = ppid;
      name = name;
      exe = exe;
      cmdline = cmdline;
      create_time = create_time;
      uid = user.0.0;
      euid = user.0.1;
      suid = user.0.2;
      gid = group.0;
      egid = group.1;
      sgid = group.2;
      username = user.1;
      terminal = terminal;
    })

-- free_process(p), which is not NULL.
unfoldable pub free_process : {D : Type 0} → Process D → M (Unit {0})
free_process p = do
  free p.name
  free p.exe
  free p.cmdline
  free p.username
  free p.terminal
  free_block
