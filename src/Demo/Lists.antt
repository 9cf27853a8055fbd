-- ===== src/Demo/Lists.antt =====
-- The lists that the demonstration program prints and gives back.
use cpslib.Prelude.{
  ℕ, suc, ◌+◌, ◌*◌, ◌<◌, ◌^◌, ◌≡◌, ◌∙◌, refl, sym, ap, arith, inl, inr, Bool, true, false, some,
  List, [], ◌∷◌, ◌++◌, map, length, filter,
}
use cpslib.Libc.{Bytes, codes, decimal}
use cpslib.Machine.{M, World, ok, Returns, Returns-map, Returns-bind, Accounts}
use cpslib.Floats.{Floats}
use cpslib.Os.{Os, Utmp, Mntent}
use cpslib.Users.{get_users, free_users_info}
use cpslib.Users.Freeing.{user_of, users_of, free_users_info-Accounts}
use cpslib.Users.Logins.{UsersOutcome, logins, get_users-Outcome}
use cpslib.Disk.Devices.Lines.{names_in}
use cpslib.Disk.Partitions.{disk_partitions, free_disk_partition_info}
use cpslib.Disk.Partitions.Mounts.{partition_of}
use cpslib.Disk.Partitions.Freeing.{all_texts, free_disk_partition_info-Accounts}
use cpslib.Disk.Partitions.Listing.{ListsMounts, wanted, disk_partitions-Lists}
use cpslib.Session.{Mounted}
use cpslib.Session.Invariant.{no_refusal, all_texts-partition_of}
use cpslib.Demo.{
  Formats, print_each, partition_line, print_partitions, test_diskpartitioninfo, user_line,
  test_getusers,
}

-- The texts of the members, one after the other.
abbrev pub texts : {A : Type 0} → (A → Bytes) → List A → Bytes
texts text [] = []
texts text (x ∷ xs) = text x ++ texts text xs

print_each-texts :
    {A B : Type 0} (line : A → M Bytes) (make : B → A) (text : B → Bytes)
    → ((b : B) (w : World) → line (make b) w ≡ ok (text b) w)
    → (bs : List B) (w : World) → print_each line (length bs) (map make bs) w ≡ ok (texts text bs) w
unfolding print_each
print_each-texts line make text h [] w = refl
print_each-texts line make text h (b ∷ bs) w =
    rw (h b w, print_each-texts line make text h bs w) refl

length-map : {A B : Type 0} (f : A → B) (xs : List A) → length (map f xs) ≡ length xs
length-map f [] = refl
length-map f (x ∷ xs) = ap suc (length-map f xs)

module _ {F D : Type 0} (fl : Floats F D) (formats : Formats F D) (os : Os) (w : World) where
  abbrev pub login_text : Utmp → Bytes
  login_text ut =
      ut.ut_user
      ++ b'\t'
        ∷ (ut.ut_line
            ++ (codes "\t "
                ++ (ut.ut_host ++ b'\t' ∷ (formats.float1 (fl.float_of ut.tv_sec) ++ codes "\n"))))

  abbrev pub logins_text : Bytes
  logins_text =
      codes " -- users \nTotal: "
      ++ (decimal (length (logins fl os w))
          ++ (codes "\nName\tTerminal Host\tStarted\n"
              ++ (texts login_text (logins fl os w) ++ codes "\n")))

  -- Where memory is granted and there are fewer than 2^31 login records, the program prints the number of the
  -- USER_PROCESS records and a line for each, in order, and no block and no stream is left behind.
  pub test_getusers-logins_text :
      ((k : ℕ) → w.grants k ≡ true)
      → length os.logins < 2 ^ 31
      → Returns
          (test_getusers fl formats os w)
          (λ out w'. (out ≡ logins_text) × Accounts w w' 0 0 0)
  unfolding test_getusers user_line
  test_getusers-logins_text g small =
      Returns-bind (UsersOutcome fl os w) (λ out w'. (out ≡ logins_text) × Accounts w w' 0 0 0)
        (get_users fl os w) _
        (λ r w₁ h. elim h [
          | inr refused ↦ absurd (no_refusal w g refused.1.refusal)
          | inl q ↦ rw (q.0) (
              rw
                (print_each-texts (user_line fl formats) (user_of fl) login_text (λ ut v. refl)
                  (logins fl os w) w₁)
                (Returns-bind (λ _ w'. Accounts w₁ w' 0 (3 * length (logins fl os w) + 2) 0) _
                  (free_users_info (some (users_of fl (logins fl os w))) w₁) _
                  (λ _ w' a. (
                    refl,
                    record {
                      blocks = omega (arith, q.1.blocks, a.blocks);
                      streams = omega (arith, q.1.streams, a.streams);
                      grants = a.grants ∙ q.1.grants;
                    },
                  ))
                  (free_users_info-Accounts fl (logins fl os w) w₁)))
        ])
        (get_users-Outcome fl os w (g _) small)

frees :
    (es : List Mntent) (w : World)
    → Returns
        (free_disk_partition_info
          (some (record { nitems = length es; partitions = map partition_of es; allocated = true }))
          w)
        (λ _ w'. Accounts w w' 0 (4 * length es + 2) 0)
frees es w = rw (sym (length-map partition_of es)) (
    Returns-map {P = λ _ w'. Accounts w w' 0 (all_texts (map partition_of es) + 2) 0} _
      (λ _ w' a. record {
        blocks = omega (arith, a.blocks, all_texts-partition_of es, length-map partition_of es);
        streams = a.streams;
        grants = a.grants;
      })
      (free_disk_partition_info-Accounts (map partition_of es) w))

module _ (os : Os) (m : Mounted os) where
  abbrev pub entry_text : Mntent → Bytes
  entry_text e =
      e.mnt_fsname ++ b' ' ∷ (e.mnt_dir ++ b' ' ∷ (e.mnt_type ++ b' ' ∷ (e.mnt_opts ++ codes "\n")))

  -- The entries that the program asks for: those of a type that needs a device, or all.
  abbrev pub asked_for : Bool → List Mntent
  asked_for physical = filter (wanted physical (names_in m.filesystems)) m.entries

  abbrev pub entries_text : Bool → Bytes
  entries_text physical =
      codes "Partitions : "
      ++ (decimal (length (asked_for physical))
          ++ (codes "\n" ++ (texts entry_text (asked_for physical) ++ codes "\n")))

  print_partitions-entries_text :
      (physical : Bool) (w : World)
      → ((k : ℕ) → w.grants k ≡ true)
      → Returns
          (print_partitions os physical w)
          (λ r w'. (r ≡ (entries_text physical, true)) × Accounts w w' 0 0 0)
  unfolding print_partitions partition_line
  print_partitions-entries_text physical w g =
      let es = asked_for physical in
      Returns-bind (ListsMounts os m.filesystems m.entries physical w) _
        (disk_partitions os physical w) _
        (λ r w₁ q. rw (q.0) (
          rw (length-map partition_of es) (
            rw (print_each-texts partition_line partition_of entry_text (λ e v. refl) es w₁) (
              Returns-bind (λ _ w'. Accounts w₁ w' 0 (4 * length es + 2) 0) _
                (free_disk_partition_info
                  (some (record {
                    nitems = length es;
                    partitions = map partition_of es;
                    allocated = true;
                  }))
                  w₁)
                _
                (λ _ w' a. (
                  refl,
                  record {
                    blocks = omega (arith, q.1.blocks, a.blocks);
                    streams = omega (arith, q.1.streams, a.streams);
                    grants = a.grants ∙ q.1.grants;
                  },
                ))
                (frees es w₁)))))
        (disk_partitions-Lists os m.filesystems m.entries physical w m.opens m.mounts g m.texts
          m.few m.small)

  abbrev pub partitions_text : Bytes
  partitions_text =
      codes " -- disk_partitions (physical) \n"
      ++ (entries_text true ++ (codes " -- disk_partitions (all) \n" ++ entries_text false))

  -- Where memory is granted and the mount table and /proc/filesystems are in order, the program prints the number
  -- of the entries whose type needs a device and a line for each, in order, and then those of all entries, and
  -- no block and no stream is left behind.
  pub test_diskpartitioninfo-partitions_text :
      (w : World)
      → ((k : ℕ) → w.grants k ≡ true)
      → Returns
          (test_diskpartitioninfo os w)
          (λ out w'. (out ≡ partitions_text) × Accounts w w' 0 0 0)
  unfolding test_diskpartitioninfo
  test_diskpartitioninfo-partitions_text w g =
      Returns-bind (λ r w'. (r ≡ (entries_text true, true)) × Accounts w w' 0 0 0) _
        (print_partitions os true w) _
        (λ r w₁ p. rw (p.0) (
          Returns-bind (λ r w'. (r ≡ (entries_text false, true)) × Accounts w₁ w' 0 0 0) _
            (print_partitions os false w₁) _
            (λ t w' q. rw (q.0) (
              refl,
              record {
                blocks = omega (arith, p.1.blocks, q.1.blocks);
                streams = omega (arith, p.1.streams, q.1.streams);
                grants = q.1.grants ∙ p.1.grants;
              },
            ))
            (print_partitions-entries_text false w₁
              (λ k. ap (λ (gr : ℕ → Bool). gr k) p.1.grants ∙ g k))))
        (print_partitions-entries_text true w g)
