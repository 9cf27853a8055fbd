-- ===== src/Tests/ProcessRuns.antt =====
-- Runs of the process functions.
use cpslib.Prelude.{
  ℕ, ◌+◌, ◌≡◌, ◌⊎◌, refl, arith, true, false, some, [], ◌∷◌, ◌++◌, length, replicate,
}
use cpslib.Libc.{Bytes, codes, fgets_all, starts_with, decimal}
use cpslib.Machine.{Returns, ok, alloc_ok}
use cpslib.Os.{Os, eperm}
use cpslib.Process.{clean_cmdline, get_cmdline, get_exe, get_terminal, get_ids, pid_exists}
use cpslib.Process.Existence.{IsThere, pid_exists-IsThere}
use cpslib.Process.Cmdline.{clean_cmdline-spaced, get_cmdline-spaced}
use cpslib.Process.Links.{LinkText, get_terminal-LinkText, get_exe-LinkText}
use cpslib.Process.Ids.{get_ids-id_line}
use cpslib.Tests.{fresh, with_file}

abbrev arguments : Bytes
arguments = codes "ls" ++ 0 ∷ codes "-l"

clean_cmdline-spaced_example :
    clean_cmdline (arguments ++ 0 ∷ codes "junk") (length arguments + 1)
    ≡ some (codes "ls -l" ++ 0 ∷ codes "junk", 2)
clean_cmdline-spaced_example = clean_cmdline-spaced arguments 0 (codes "junk")

get_cmdline-spaced_example :
    Returns (get_cmdline (with_file (arguments ++ 0 ∷ [])) 42 fresh) (λ r w'.
      (r ≡ some (codes "ls -l")) × (w' ≡ record (alloc_ok fresh) { opened = 1; closed = 1 }))
get_cmdline-spaced_example =
    get_cmdline-spaced (with_file (arguments ++ 0 ∷ [])) 42 arguments 0 fresh refl (omega arith)
      refl

-- A target that fills the first buffer.
abbrev long_target : Bytes
long_target = replicate 1500 b'/'

abbrev link_os : Os
link_os = record (with_file []) { link = λ path. some long_target }

get_terminal-LinkText_example :
    Returns (get_terminal link_os 42 fresh) (LinkText link_os 42 long_target fresh)
get_terminal-LinkText_example =
    get_terminal-LinkText link_os 42 long_target fresh refl (omega arith) (λ k. refl)

get_exe-LinkText_example :
    Returns (get_exe link_os 42 fresh) (LinkText link_os 42 long_target fresh)
get_exe-LinkText_example =
    get_exe-LinkText link_os 42 long_target fresh refl (omega arith) (λ k. refl)

abbrev status : Bytes
status = codes "Name:\tcat\nUid:\t1000\t1001\t1002\t1003\nGid:\t5\t6\t7\t8\n"

get_ids-id_line_example :
    get_ids (with_file status) 42 (codes "Uid:") fresh
    ≡ ok (some (1000, 1001, 1002)) (record (alloc_ok fresh) { opened = 1; closed = 1 })
unfolding fgets_all starts_with decimal
get_ids-id_line_example =
    get_ids-id_line (with_file status) false 1000 1001 1002 (codes "1003\n") 42 status
      (codes "Name:\tcat\n" ∷ []) (codes "Gid:\t5\t6\t7\t8\n" ∷ []) fresh refl refl (refl, tt) refl
      (omega arith) (omega arith) (omega arith)

abbrev guarded : Os
guarded = record (with_file []) { kill_zero = λ pid. some eperm }

abbrev init_pid : ℕ
init_pid = 1

pid_exists-IsThere_example : Returns (pid_exists guarded init_pid fresh) (λ r _.
    (r ≡ true → (init_pid ≡ 0) ⊎ IsThere (some eperm))
    × ((init_pid ≡ 0) ⊎ IsThere (some eperm) → r ≡ true))
pid_exists-IsThere_example = pid_exists-IsThere guarded init_pid fresh
