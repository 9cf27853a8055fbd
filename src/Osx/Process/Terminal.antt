-- ===== src/Osx/Process/Terminal.antt =====
-- get_terminal: the block for the name of the device.
use cpslib.Prelude.{ℕ, ◌+◌, ◌≡◌, refl, arith, Bool-cases, inl, inr, false, some, ltb}
use cpslib.Libc.{Bytes}
use cpslib.Machine.{World, fault, calloc, realloc}
use cpslib.Os.{Os}
use cpslib.Osx.Host.{Host, KinfoProc}
use cpslib.Osx.Process.{strcat, get_kinfo_proc, get_terminal}

not_less : (n : ℕ) → ltb n n ≡ false
not_less n = ground arith

module _ (os : Os) (host : Host) (pid : ℕ) (k : KinfoProc) (ttname : Bytes) (w : World) where
  -- On macOS, for every process whose terminal has a name, get_terminal ends in undefined behaviour: the block
  -- for "/dev/" and the name has no byte for the NUL that strcat writes, and a request for memory that is
  -- refused is written through as well.
  pub get_terminal-fault :
      host.kinfo_proc pid ≡ some (some k)
      → k.tdev_name ≡ some ttname
      → get_terminal os host pid w ≡ fault
  unfolding get_terminal get_kinfo_proc strcat calloc realloc
  get_terminal-fault found named =
      rw (get_terminal, get_kinfo_proc, found)
        (rw named (elim (Bool-cases (w.grants w.asked)) [
          | inr refused ↦ rw refused refl
          | inl granted ↦ rw granted (elim (Bool-cases (w.grants (w.asked + 1))) [
            | inr refused ↦ rw refused refl
            | inl moved ↦ rw (moved, not_less) refl
          ])
        ]))
