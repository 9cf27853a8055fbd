-- ===== src/Process.antt =====
-- The process part of pslib_linux.c: pid_exists, get_process and what it reads of /proc, and
-- get_boot_time. A pid is taken to be positive or zero. `D` is double.
pub mod Info
pub mod Cmdline
pub mod Links
pub mod Ids
pub mod Existence
use cpslib.Prelude.{
  ℕ, zero, suc, ◌+◌, ◌*◌, ◌-◌, Bool, true, false, not, Option, none, some, List, [], ◌∷◌, ◌++◌, ltb,
  ◌==◌, ◌&&◌, ◌||◌, if◌then◌else◌, length, take, get_elem?, set, replicate, u32, minus_one,
  ulong_max, is_some,
}
use cpslib.Libc.{
  Bytes, codes, starts_with, strtok, strtoul, strtoul_range, atoi, decimal, fgets_all,
}
use cpslib.Machine.{
  M, pure, crash, deref, calloc, strdup, buffer, realloc, free, fopen, fclose, close_if, set_errno,
  get_errno, check, check_ptr, ◌>>=◌, ◌>>◌, free_block,
}
use cpslib.Floats.{Floats}
use cpslib.Os.{Os, enoent, eperm, erange, esrch}
use cpslib.Common.{squeeze_text, text_of, grep_awk}

-- sprintf(procfile, "/proc/%d/..", pid)
abbrev pub procfile : ℕ → Bytes → Bytes
procfile pid name = codes "/proc/" ++ decimal pid ++ name

-- The loop of clean_cmdline, `n` rounds from the index `i`; `none` is an access out of bounds.
unfoldable pub clean_rounds : ℕ → ℕ → Bytes → ℕ → Option (Bytes × ℕ)
clean_rounds zero i ip replacements = some (ip, replacements)
clean_rounds (suc n) i ip replacements =
    let replaced = clean_rounds n (i + 1) (set ip i b' ') (replacements + 1) in
    let kept = clean_rounds n (i + 1) ip replacements in
    elim (get_elem? ip i) [ none ↦ none | some c ↦ if c == 0 then replaced else kept ]

-- clean_cmdline(ip, len): the buffer afterwards and the result. `ip[--i]` is in front of the buffer
-- if `len` is 0.
unfoldable pub clean_cmdline : Bytes → ℕ → Option (Bytes × ℕ)
unfolding clean_rounds
clean_cmdline ip zero = none
clean_cmdline ip (suc k) = elim (clean_rounds (suc k) 0 ip 0) [
  | none ↦ none
  | some (cleaned, replacements) ↦ some (set cleaned k 0, replacements)
]

-- readlink(path, buf, n): the bytes put into `buf`, or the errno.
unfoldable pub readlink : Os → Bytes → ℕ → M (Option Bytes)
readlink os path n w = elim (os.link path) [
  | none ↦ (do set_errno (os.link_errno path); pure none) w
  | some target ↦ pure (some (take n target)) w
]

module _ (os : Os) where
  -- The bits of the pid_t; -1 is minus_one. A text that reads as -1 is not freed.
  unfoldable pub get_ppid : ℕ → M ℕ
  get_ppid pid = do
    fp ←
        fopen (os.file (procfile pid (codes "/status")))
          (os.open_errno (procfile pid (codes "/status")))
    check_ptr fp (pure minus_one) λ file. do
      tmp ← grep_awk file (codes "PPid") 1 (codes ":")
      let ppid : ℕ = elim tmp [ none ↦ minus_one | some t ↦ atoi t ]
      check (not (ppid == minus_one)) (do fclose; pure minus_one) do fclose; free tmp; pure ppid

  -- A line without a second word hands NULL to squeeze.
  unfoldable pub get_procname : ℕ → M (Option Bytes)
  get_procname pid = do
    fp ←
        fopen (os.file (procfile pid (codes "/stat")))
          (os.open_errno (procfile pid (codes "/stat")))
    check_ptr fp (pure none) λ file. do
      check_ptr (get_elem? (fgets_all 300 file) 0) (do fclose; pure none)
          λ line. do
            fclose
            tmp ← deref (strtok (codes " ") (strtok (codes " ") line).1).0
            name ← squeeze_text tmp (codes "()")
            strdup name

  -- while (ret == bufsize - 1): the buffer doubles until the link fits. readlink into the NULL of a
  -- failed realloc is an error, and the block is lost.
  unfoldable pub read_rounds : ℕ → Bytes → ℕ → Bytes → M (Option Bytes)
  unfolding readlink
  read_rounds zero path bufsize got = crash
  read_rounds (suc fuel) path bufsize got =
      let rest = read_rounds fuel path (u32 (bufsize * 2)) in
      if length got == bufsize - 1
      then (do
        moved ← realloc
        check moved (pure none) do
          ret ← readlink os path (u32 (bufsize * 2) - 1)
          check_ptr ret (do free_block; pure none) rest)
      else pure (some got)

  -- Fuel for a link: the loop ends once the buffer is longer than its target.
  abbrev pub link_fuel : Bytes → ℕ
  link_fuel path = elim (os.link path) [ none ↦ 0 | some target ↦ length target + 1 ]

  unfoldable pub get_exe : ℕ → M (Option Bytes)
  unfolding read_rounds
  get_exe pid = do
    let path = procfile pid (codes "/exe")
    tmp ← buffer
    check_ptr tmp (do free tmp; pure none)
        λ _. do
          ret ← readlink os path 1023
          errno ← get_errno
          (if not (is_some ret) && errno == enoent
              then if os.lstat path
                then pure (some [])
                else check false (do free tmp; pure none) crash
              else check_ptr ret (do free tmp; pure none) (read_rounds (link_fuel path) path 1024))

  unfoldable pub get_terminal : ℕ → M (Option Bytes)
  unfolding read_rounds
  get_terminal pid = do
    let path = procfile pid (codes "/fd/0")
    tmp ← buffer
    check_ptr tmp (do free tmp; pure none)
        λ _. do
          ret ← readlink os path 1023
          check_ptr ret (do free tmp; pure none) (read_rounds (link_fuel path) path 1024)

  -- The text in the buffer of 500 bytes. A file of 500 bytes or more comes back cut.
  unfoldable pub get_cmdline : ℕ → M (Option Bytes)
  unfolding clean_cmdline text_of
  get_cmdline pid = do
    let path = procfile pid (codes "/cmdline")
    contents ← buffer
    check_ptr contents (do free contents; pure none)
        λ _. do
          fp ← fopen (os.file path) (os.open_errno path)
          check_ptr fp (do free contents; pure none)
              λ file. do
                let got = take 500 file
                cleaned ← deref (clean_cmdline (got ++ replicate (500 - length got) 0) (length got))
                fclose
                pure (some (text_of cleaned.0))

  abbrev three : Option Bytes → Option Bytes → Option Bytes → Option (ℕ × ℕ × ℕ)
  three (some a) (some b) (some c) = some (u32 (strtoul a), u32 (strtoul b), u32 (strtoul c))
  three _ _ _ = none

  -- The columns behind the first, of a line that starts with `field`; fewer than three hand NULL to strtoul.
  unfoldable pub ids_of : Bytes → Option (ℕ × ℕ × ℕ)
  ids_of line =
      let (_, rest₀) = strtok (codes "\t") line in
      let (tmp₁, rest₁) = strtok (codes "\t") rest₀ in
      let (tmp₂, rest₂) = strtok (codes "\t") rest₁ in
      let (tmp₃, rest₃) = strtok (codes "\t") rest₂ in three tmp₁ tmp₂ tmp₃

  unfoldable pub id_lines : Bytes → List Bytes → M (Option (ℕ × ℕ × ℕ))
  unfolding ids_of
  id_lines field [] = check false (do fclose; pure none) crash
  id_lines field (line ∷ lines) =
      if starts_with line field
      then (do
        retval ← buffer
        check_ptr retval (do fclose; pure none)
            λ _. do ids ← deref (ids_of line); fclose; pure (some ids))
      else id_lines field lines

  unfoldable pub get_ids : ℕ → Bytes → M (Option (ℕ × ℕ × ℕ))
  unfolding id_lines
  get_ids pid field = do
    fp ←
        fopen (os.file (procfile pid (codes "/status")))
          (os.open_errno (procfile pid (codes "/status")))
    check_ptr fp (pure none) λ file. id_lines field (fgets_all 399 file)

  unfoldable pub get_username : ℕ → M (Option Bytes)
  get_username ruid =
      check_ptr (os.pw_name ruid) (pure none)
        λ pw_name. do username ← strdup pw_name; check_ptr username (pure none) λ u. pure (some u)

  -- The 32 bits that get_boot_time returns. Its error path frees `tmp`, which points into `line`.
  unfoldable pub boot_lines : List Bytes → M (ℕ × Option Bytes)
  boot_lines [] = pure (ulong_max, none)
  boot_lines (line ∷ lines) =
      let rest = boot_lines lines in
      if starts_with line (codes "btime")
      then (do
        tmp ← deref (strtok (codes "\n") (strtok (codes " ") line).1).0
        (if strtoul_range tmp then set_errno erange else pure tt)
        pure (strtoul tmp, some tmp))
      else rest

  unfoldable pub get_boot_time : M ℕ
  unfolding boot_lines
  get_boot_time = do
    fp ← fopen (os.file (codes "/proc/stat")) (os.open_errno (codes "/proc/stat"))
    check_ptr fp (pure minus_one) λ file. do
      line ← buffer
      check_ptr line (do fclose; pure minus_one)
          λ _. do
            (ret, tmp) ← boot_lines (fgets_all 150 file)
            errno ← get_errno
            (if errno == erange && ret == ulong_max || not (errno == 0) && ret == 0
                then (do
                  set_errno 0
                  fclose
                  free line
                  if is_some tmp then crash else pure minus_one)
                else (do fclose; free line; pure (u32 ret)))

  unfoldable pub pid_exists : ℕ → M Bool
  pid_exists pid = if pid == 0 then pure true else elim (os.kill_zero pid) [
    | none ↦ pure true
    | some e ↦ do
      set_errno e
      errno ← get_errno
      (if errno == esrch then pure false else if errno == eperm then pure true else pure false)
  ]
