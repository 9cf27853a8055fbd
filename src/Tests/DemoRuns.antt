-- ===== src/Tests/DemoRuns.antt =====
-- Runs of the demonstration program.
use cpslib.Prelude.{ℕ, ◌≡◌, refl, arith, some, [], ◌∷◌}
use cpslib.Libc.{codes, decimal, digits_onto, fgets_all, starts_with}
use cpslib.Machine.{Returns, Accounts}
use cpslib.Os.{Os, Utmp, user_process}
use cpslib.Demo.{Formats, test_diskpartitioninfo, test_getusers}
use cpslib.Demo.Lists.{
  logins_text, partitions_text, test_getusers-logins_text, test_diskpartitioninfo-partitions_text,
}
use cpslib.Session.{Mounted}
use cpslib.Tests.{whole, fresh, with_file, no_nuls-IsText}

abbrev plain : Formats ℕ ℕ
plain = record { float1 = decimal; double1 = decimal }

abbrev visitor : ℕ → Utmp
visitor type = record {
  ut_type = type;
  ut_user = codes "ann";
  ut_line = codes "tty1";
  ut_host = codes "host";
  tv_sec = 7;
}

abbrev demo_os : Os
demo_os = record (with_file (codes "nodev\tproc\n\text4\n")) {
  logins = visitor 2 ∷ visitor user_process ∷ [];
  mounts = some (
      record {
        mnt_fsname = codes "/dev/sda1";
        mnt_dir = codes "/";
        mnt_type = codes "ext4";
        mnt_opts = codes "rw";
      }
      ∷ []);
}

abbrev mounted : Mounted demo_os
mounted = record {
  filesystems = codes "nodev\tproc\n\text4\n";
  entries =
      record {
        mnt_fsname = codes "/dev/sda1";
        mnt_dir = codes "/";
        mnt_type = codes "ext4";
        mnt_opts = codes "rw";
      }
      ∷ [];
  opens = refl;
  mounts = refl;
  texts = unfold fgets_all in no_nuls-IsText (fgets_all 50 (codes "nodev\tproc\n\text4\n")) refl;
  few = unfold fgets_all starts_with in omega arith;
  small = omega arith;
}

logins_run :
    logins_text whole plain demo_os fresh
    ≡ codes " -- users \nTotal: 1\nName\tTerminal Host\tStarted\nann\ttty1\t host\t7\n\n"
unfolding decimal digits_onto
logins_run = refl

test_getusers-logins_text_example :
    Returns
      (test_getusers whole plain demo_os fresh)
      (λ out w'. (out ≡ logins_text whole plain demo_os fresh) × Accounts fresh w' 0 0 0)
test_getusers-logins_text_example =
    test_getusers-logins_text whole plain demo_os fresh (λ k. refl) (omega arith)

test_diskpartitioninfo-partitions_text_example :
    Returns
      (test_diskpartitioninfo demo_os fresh)
      (λ out w'. (out ≡ partitions_text demo_os mounted) × Accounts fresh w' 0 0 0)
test_diskpartitioninfo-partitions_text_example =
    test_diskpartitioninfo-partitions_text demo_os mounted fresh (λ k. refl)
