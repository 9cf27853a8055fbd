-- ===== src/Session/Invariant.antt =====
-- The blocks and streams of a session.
use cpslib.Prelude.{
  ℕ, ◌+◌, ◌*◌, ◌≡◌, ◌∙◌, refl, sym, ap, subst, arith, Bool, true, false, Option, some, List, [],
  ◌∷◌, ◌++◌, All, map, length,
}
use cpslib.Machine.{World, Run, ok, owned, Returns, Returns-map, Accounts, IsRefusing}
use cpslib.Floats.{Floats}
use cpslib.Libc.{Bytes}
use cpslib.Os.{Utmp, Mntent}
use cpslib.Users.Freeing.{users_of, free_users_info-Accounts}
use cpslib.Disk.Partitions.Mounts.{partition_of}
use cpslib.Disk.Partitions.Freeing.{all_texts, free_disk_partition_info-Accounts}
use cpslib.Disk.Counters.Stats.{owned_names}
use cpslib.Disk.Counters.Freeing.{info, Ends-free_disk_iocounter_info}
use cpslib.Net.{NetIoCounters}
use cpslib.Net.Interfaces.{AllRead}
use cpslib.Net.Freeing.{all_names, free_net_iocounter_info-Accounts}
use cpslib.Session.{Held, users, partitions, interfaces, disks, release, Session}

-- What a command that ended this way ensures.
pub Returns-ok :
    {A : Type 0} (P : A → World → Type 0) {r : Run A} {a : A} {w : World}
    → r ≡ ok a w
    → Returns r P
    → P a w
Returns-ok P e h = subst (λ r. Returns r P) e h

pub no_refusal : (w : World) → ((k : ℕ) → w.grants k ≡ true) → IsRefusing w → ⊥
no_refusal w g refused = let never : true ≡ false = sym (g refused.0) ∙ refused.1 in ground arith

pub all_texts-partition_of : (es : List Mntent) → all_texts (map partition_of es) ≡ 4 * length es
all_texts-partition_of [] = refl
all_texts-partition_of (e ∷ es) = omega (arith, all_texts-partition_of es)

owned-some : {A : Type 0} {p : Option A} {a : A} → p ≡ some a → owned p ≡ 1
owned-some e = ap owned e

pub all_names-AllRead :
    (ls : List Bytes) (cs : List NetIoCounters) → AllRead ls cs → all_names cs ≡ length cs
all_names-AllRead [] [] r = refl
all_names-AllRead [] (c ∷ cs) r = absurd r
all_names-AllRead (l ∷ ls) [] r = absurd r
all_names-AllRead (l ∷ ls) (c ∷ cs) r =
    omega (arith, owned-some r.0.name, all_names-AllRead ls cs r.1)

module _ {F D : Type 0} (fl : Floats F D) where
  -- The blocks of a result, and that it has the shape that the function which frees it relies on.
  abbrev pub blocks_of : Held fl → ℕ
  blocks_of (users u) = 3 * u.nitems + 2
  blocks_of (partitions d) = all_texts d.partitions + 2
  blocks_of (interfaces n) = all_names n.iocounters + 2
  blocks_of (disks c) = owned_names c.iocounters + 2

  abbrev pub IsWhole : Held fl → Type 0
  IsWhole (users u) = (uts : List Utmp) × (u ≡ users_of fl uts)
  IsWhole (partitions d) =
      d ≡ record { nitems = length d.partitions; partitions = d.partitions; allocated = true }
  IsWhole (interfaces n) = n ≡ record { nitems = length n.iocounters; iocounters = n.iocounters }
  IsWhole (disks c) = c ≡ info c.iocounters true

  abbrev pub total : List (Held fl) → ℕ
  total [] = 0
  total (h ∷ hs) = blocks_of h + total hs

  total-append :
      (before after : List (Held fl)) (h : Held fl)
      → total (before ++ h ∷ after) ≡ blocks_of h + total (before ++ after)
  total-append [] after h = refl
  total-append (b ∷ before) after h = omega (arith, total-append before after h)

  pub All-middle :
      (before after : List (Held fl)) (h : Held fl)
      → All IsWhole (before ++ h ∷ after)
      → IsWhole h × All IsWhole (before ++ after)
  All-middle [] after h a = a
  All-middle (b ∷ before) after h a =
      let rest = All-middle before after h a.1 in (rest.0, (a.0, rest.1))

  -- What the client holds is whole, it is all that was allocated since `w₀` and not freed, and no stream was
  -- left open.
  pub record IsSound (w₀ : World) (s : Session fl) : Type 0 where
    pub whole : All IsWhole s.held
    pub blocks : s.world.allocated + w₀.freed ≡ w₀.allocated + s.world.freed + total s.held
    pub streams : s.world.opened + w₀.closed ≡ w₀.opened + s.world.closed
    pub grants : (k : ℕ) → s.world.grants k ≡ true

  module _ {w₀ w w' : World} where
    pub took :
        {hs : List (Held fl)} (h : Held fl) (n : ℕ)
        → IsSound w₀ (record { held = hs; world = w })
        → IsWhole h
        → blocks_of h ≡ n
        → Accounts w w' n 0 0
        → IsSound w₀ (record { held = h ∷ hs; world = w' })
    took h n s good e a = record {
      whole = (good, s.whole);
      blocks = omega (arith, s.blocks, a.blocks, e);
      streams = omega (arith, s.streams, a.streams);
      grants = λ k. ap (λ (g : ℕ → Bool). g k) a.grants ∙ s.grants k;
    }

    pub gave :
        (before after : List (Held fl)) (h : Held fl)
        → IsSound w₀ (record { held = before ++ h ∷ after; world = w })
        → Accounts w w' 0 (blocks_of h) 0
        → IsSound w₀ (record { held = before ++ after; world = w' })
    gave before after h s a = record {
      whole = (All-middle before after h s.whole).1;
      blocks = omega (arith, s.blocks, a.blocks, total-append before after h);
      streams = omega (arith, s.streams, a.streams);
      grants = λ k. ap (λ (g : ℕ → Bool). g k) a.grants ∙ s.grants k;
    }

  -- Each function on a result in its shape frees its blocks, and returns.
  pub release-Accounts :
      (h : Held fl) (w : World)
      → IsWhole h
      → Returns (release fl h w) (λ _ w'. Accounts w w' 0 (blocks_of h) 0)
  unfolding release
  release-Accounts (users u) w whole = rw (whole.1) (free_users_info-Accounts fl whole.0 w)
  release-Accounts (partitions d) w whole =
      rw whole (free_disk_partition_info-Accounts d.partitions w)
  release-Accounts (interfaces n) w whole =
      rw whole (free_net_iocounter_info-Accounts n.iocounters w)
  release-Accounts (disks c) w whole = rw whole (
      Returns-map {Q = λ _ w'. Accounts w w' 0 (owned_names c.iocounters + 2) 0} _
        (λ _ w' h. record {
          blocks = omega (arith, h.1.blocks);
          streams = h.1.streams;
          grants = h.1.grants;
        })
        (Ends-free_disk_iocounter_info c.iocounters true w))
