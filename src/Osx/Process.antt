-- ===== src/Osx/Process.antt =====
-- The process part of pslib_osx.c: the readers of one process, get_process, pid_exists and get_boot_time.
pub mod Arguments
pub mod Terminal
use cpslib.Prelude.{
  ℕ, zero, suc, ◌+◌, ◌-◌, Bool, true, false, not, Option, none, some, List, [], ◌∷◌, ◌++◌, ltb,
  ◌==◌, if◌then◌else◌, length, take, minus_one,
}
use cpslib.Libc.{Bytes, codes}
use cpslib.Machine.{
  M, pure, crash, deref, strdup, buffer, calloc, realloc, free, free_block, set_errno, check,
  check_ptr, ◌>>=◌, ◌>>◌,
}
use cpslib.Floats.{Floats}
use cpslib.Os.{Os}
use cpslib.Process.{pid_exists}
use cpslib.Process.Info.{Process, user_fields, group_fields}
use cpslib.Osx.Host.{Host, KinfoProc, einval}

abbrev not_found : Bytes
not_found = codes "??"

-- Behind the first NUL of the text: a text without one is read past its end.
unfoldable pub behind_nul : Bytes → Option Bytes
behind_nul [] = none
behind_nul (c ∷ s) = if c == 0 then some s else behind_nul s

unfoldable pub skip_nuls : Bytes → Bytes
skip_nuls [] = []
skip_nuls (c ∷ s) = if c == 0 then skip_nuls s else c ∷ s

-- The loop over the arguments: `arg` is what stands between curr_arg and arg_ptr, `ret` the text so far. It
-- stops at the end of the buffer or behind `nargs` arguments; `none` is a write past the 500 bytes of `ret`.
unfoldable pub join_args : ℕ → Bytes → Bytes → Bytes → Option Bytes
join_args nargs arg ret [] = some ret
join_args zero arg ret (c ∷ s) = some ret
join_args (suc nargs) arg ret (c ∷ s) =
    let joined = join_args nargs [] (ret ++ (arg ++ b' ' ∷ [])) s in
    let longer = join_args (suc nargs) (arg ++ c ∷ []) ret s in
    if c == 0 then if ltb (length (ret ++ (arg ++ b' ' ∷ []))) 500 then joined else none else longer

-- ret[--len] = '\0'; `none` is the byte in front of `ret`.
unfoldable pub drop_last : Bytes → Option Bytes
drop_last [] = none
drop_last (c ∷ s) = some (take (length s) (c ∷ s))

module _ (os : Os) (host : Host) where
  unfoldable pub get_kinfo_proc : ℕ → M (Option KinfoProc)
  get_kinfo_proc pid = elim (host.kinfo_proc pid) [
    | none ↦ pure none
    | some answer ↦ check_ptr answer (pure none) (λ kp. pure (some kp))
  ]

  unfoldable pub get_ppid : ℕ → M ℕ
  unfolding get_kinfo_proc
  get_ppid pid = do
    kp ← get_kinfo_proc pid
    elim kp [ none ↦ pure minus_one | some k ↦ pure k.e_ppid ]

  unfoldable pub get_procname : ℕ → M (Option Bytes)
  unfolding get_kinfo_proc
  get_procname pid = do
    kp ← get_kinfo_proc pid
    elim kp [ none ↦ pure none | some k ↦ strdup k.p_comm ]

  -- pid_exists is asked for the message alone.
  unfoldable pub get_exe : ℕ → M (Option Bytes)
  get_exe pid = elim (host.proc_pidpath pid) [
    | none ↦ do exists ← pid_exists os pid; pure none
    | some path ↦ strdup path
  ]

  unfoldable pub get_argmax : ℕ
  get_argmax = elim host.argmax [ none ↦ 0 | some n ↦ n ]

  -- Two returns of NULL, for the pid 0 and for an empty argument space, keep the block of `ret`.
  unfoldable pub get_cmdline : ℕ → M (Option Bytes)
  unfolding get_argmax behind_nul skip_nuls join_args drop_last
  get_cmdline pid = do
    ret ← buffer
    check_ptr ret (do free ret; pure none)
        λ _.
          if pid == 0
          then pure none
          else check (not (get_argmax == 0)) (do free ret; pure none)
              (do
                procargs ← buffer
                check_ptr procargs (do free ret; pure none)
                    λ _. elim (host.procargs pid) [
                      | none ↦ do
                        set_errno (host.procargs_errno pid)
                        exists ←
                            (if host.procargs_errno pid == einval
                              then pid_exists os pid
                              else pure false)
                        free procargs
                        free ret
                        pure none
                      | some (nargs, content) ↦ do
                        arguments ← deref (behind_nul content)
                        (if length arguments == 0 then (do free procargs; pure none) else (do
                          joined ← deref (join_args nargs [] [] (skip_nuls arguments))
                          line ← deref (drop_last joined)
                          free procargs
                          pure (some line)))
                    ])

  unfoldable pub get_ids : (KinfoProc → ℕ × ℕ × ℕ) → ℕ → M (Option (ℕ × ℕ × ℕ))
  unfolding get_kinfo_proc
  get_ids fields pid = do
    ret ← buffer
    kp ← get_kinfo_proc pid
    elim kp [ none ↦ pure none | some k ↦ do block ← deref ret; pure (some (fields k)) ]

  -- The result's block is asked for first and stays behind if the process is not found.
  unfoldable pub get_uids : ℕ → M (Option (ℕ × ℕ × ℕ))
  unfolding get_ids
  get_uids = get_ids (λ k. (k.p_ruid, k.cr_uid, k.p_svuid))

  unfoldable pub get_gids : ℕ → M (Option (ℕ × ℕ × ℕ))
  unfolding get_ids
  get_gids = get_ids (λ k. (k.p_rgid, k.cr_group, k.p_svgid))

  -- strcat(dst, text) into a block of `size` bytes: a write past its end faults.
  unfoldable pub strcat : ℕ → Bytes → Bytes → M Bytes
  strcat size dst text = if ltb (length dst + length text) size then pure (dst ++ text) else crash

  unfoldable pub get_terminal : ℕ → M (Option Bytes)
  unfolding get_kinfo_proc strcat
  get_terminal pid = do
    kp ← get_kinfo_proc pid
    elim kp [
      | none ↦ pure none
      | some k ↦ elim k.tdev_name [
        | none ↦ strdup not_found
        | some ttname ↦ do
          ret ← strdup (codes "/dev/")
          dev ← deref ret
          moved ← realloc
          (if moved
              then (do name ← strcat (length dev + length ttname) dev ttname; pure (some name))
              else crash)
      ]
    ]

  module _ {F D : Type 0} (fl : Floats F D) where
    -- The seconds are returned by way of float, which keeps 24 bits of them.
    unfoldable pub get_boot_time : M ℕ
    get_boot_time =
        check_ptr host.boottime (pure minus_one) (λ tv_sec. pure (fl.u32_of (fl.float_of tv_sec)))

    -- TV2DOUBLE
    unfoldable pub get_create_time : ℕ → M D
    unfolding get_kinfo_proc
    get_create_time pid = do
      kp ← get_kinfo_proc pid
      elim kp [
        | none ↦ pure fl.minus_one
        | some k ↦ pure (
            fl.add (fl.double_of k.tv_sec) (fl.div (fl.double_of k.tv_usec) (fl.double_of 1000000)))
      ]

    unfoldable pub get_process : ℕ → M (Process D)
    unfolding get_create_time
    get_process pid = do
      retval ← buffer
      block ← deref retval
      ppid ← get_ppid pid
      name ← get_procname pid
      exe ← get_exe pid
      cmdline ← get_cmdline pid
      create_time ← get_create_time pid
      uids ← get_uids pid
      user ← user_fields os uids
      gids ← get_gids pid
      group ← group_fields uids gids
      terminal ← get_terminal pid
      free uids
      free gids
      pure (record {
        pid = pid;
        ppid = ppid;
        name = name;
        exe = exe;
        cmdline = cmdline;
        create_time = create_time;
        uid = user.0.0;
        euid = user.0.1;
        suid = user.0.2;
        gid = group.0;
        egid = group.1;
        sgid = group.2;
        username = user.1;
        terminal = terminal;
      })
