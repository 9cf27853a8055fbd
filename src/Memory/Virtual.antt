-- ===== src/Memory/Virtual.antt =====
-- virtual_memory: its figures, blocks and streams.
use cpslib.Prelude.{
  sub64_lem, u64_lem, u64-lt, ap, sym, subst, ◌∙◌, ◌+◌, ◌-◌, ◌*◌, ◌≤◌, ◌<◌, ◌≡◌, ◌⊎◌, refl, Bool,
  true, false, none, some, arith, u64, ulong_max, ◌^◌,
}
use cpslib.Libc.{Bytes, codes, fgets_all}
use cpslib.Machine.{World, Returns, Returns-map, Balanced, calloc, free, fopen, fclose, close_if}
use cpslib.Os.{Os, Sysinfo}
use cpslib.Floats.{Floats}
use cpslib.Common.{percentage}
use cpslib.Common.Percent.{percent_of, percentage-percent_of}
use cpslib.Memory.{
  VmemInfo, MemStats, meminfo_lines, unset_stats, settle, fill_vmem, virtual_memory,
}

-- Some of the three lines of /proc/meminfo is missing.
abbrev pub IsMissing : MemStats → Type 0
IsMissing st = (st.cached ≡ ulong_max) ⊎ (st.active ≡ ulong_max) ⊎ (st.inactive ≡ ulong_max)

-- What is free, buffered and cached fits the total.
abbrev pub Fits : Sysinfo → MemStats → Type 0
Fits info st =
    u64 (info.freeram * info.mem_unit) + u64 (info.bufferram * info.mem_unit) + st.cached
    ≤ u64 (info.totalram * info.mem_unit)

settle_missing :
    (st : MemStats) → IsMissing st → settle st ≡ record { cached = 0; active = 0; inactive = 0 }
unfolding settle
settle_missing st m = ground arith

module _ {F D : Type 0} (fl : Floats F D) where
  -- What the figures of one call promise to a reader.
  pub record AddsUp (info : Sysinfo) (st : MemStats) (v : VmemInfo F) : Type 0 where
    pub total : v.total ≡ u64 (info.totalram * info.mem_unit)
    pub split : v.used + v.free ≡ v.total
    pub available : v.available ≡ v.free + v.buffers + v.cached
    pub in_total : v.available ≤ v.total
    pub percent : v.percent ≡ percent_of fl (v.total - v.available) v.total
    pub cached : v.cached ≡ st.cached
    pub active : v.active ≡ st.active
    pub inactive : v.inactive ≡ st.inactive

  fill_vmem-AddsUp :
      (info : Sysinfo) (st : MemStats) (ret : VmemInfo F)
      → Fits info st
      → AddsUp info st (fill_vmem fl info st ret)
  unfolding fill_vmem
  fill_vmem-AddsUp info st ret h =
      let total = u64 (info.totalram * info.mem_unit) in
      let free = u64 (info.freeram * info.mem_unit) in
      let buffers = u64 (info.bufferram * info.mem_unit) in
      let bound : total < 2 ^ 64 = u64-lt (info.totalram * info.mem_unit) in
      let sum = free + buffers + st.cached in
      let whole : u64 sum ≡ sum = u64_lem sum (omega arith) in
      record {
        total = refl;
        split = rw (sub64_lem total free bound (omega arith)) (omega arith);
        available = whole;
        in_total = rw whole h;
        percent =
            ap (λ n. percentage fl n total) (sub64_lem total (u64 sum) bound (rw whole h))
            ∙ percentage-percent_of fl _ _;
        cached = refl;
        active = refl;
        inactive = refl;
      }

  module _ (os : Os) (info : Sysinfo) (meminfo : Bytes) (st : MemStats) (ret : VmemInfo F)
      (w : World) where
    virtual_memory_run :
        os.sysinfo ≡ some info
        → os.file (codes "/proc/meminfo") ≡ some meminfo
        → meminfo_lines unset_stats (fgets_all 40 meminfo) ≡ some st
        → w.grants w.asked ≡ true
        → Returns
            (virtual_memory fl os ret w)
            (λ r w'. (r ≡ (true, fill_vmem fl info (settle st) ret)) × Balanced w w' 0)
    unfolding virtual_memory calloc free fopen fclose
    virtual_memory_run s f e g = rw (g, s) (rw (f, fopen) (rw e (refl, omega arith)))

    -- If sysinfo answers, /proc/meminfo has the three lines with their numbers, what is free, buffered and
    -- cached fits the total, and memory is granted, virtual_memory succeeds with figures that add up: the
    -- total in bytes, in 64 bits, used and free that make it up, available from free, buffers and cached, the
    -- percentage of what is not available in the total. It leaves no block and no stream.
    pub virtual_memory-AddsUp :
        os.sysinfo ≡ some info
        → os.file (codes "/proc/meminfo") ≡ some meminfo
        → meminfo_lines unset_stats (fgets_all 40 meminfo) ≡ some st
        → w.grants w.asked ≡ true
        → settle st ≡ st
        → Fits info st
        → Returns
            (virtual_memory fl os ret w)
            (λ r w'. (r.0 ≡ true) × AddsUp info st r.1 × Balanced w w' 0)
    virtual_memory-AddsUp s f e g found h =
        Returns-map (virtual_memory fl os ret w)
          (λ r w' d. (
            ap (λ (p : Bool × VmemInfo F). p.0) d.0,
            subst (λ v. AddsUp info st v) (sym (ap (λ (p : Bool × VmemInfo F). p.1) d.0))
                (rw found (fill_vmem-AddsUp info st ret h)),
            d.1,
          ))
          (virtual_memory_run s f e g)

    -- If sysinfo and /proc/meminfo answer and memory is granted, but one of the three lines is missing and
    -- those that are there have their numbers, the three figures are 0, and the call still succeeds and
    -- leaves no block and no stream.
    pub virtual_memory_missing :
        os.sysinfo ≡ some info
        → os.file (codes "/proc/meminfo") ≡ some meminfo
        → meminfo_lines unset_stats (fgets_all 40 meminfo) ≡ some st
        → w.grants w.asked ≡ true
        → IsMissing st
        → Returns (virtual_memory fl os ret w) (λ r w'.
          (r.0 ≡ true) × (r.1.cached ≡ 0) × (r.1.active ≡ 0) × (r.1.inactive ≡ 0) × Balanced w w' 0)
    unfolding fill_vmem
    virtual_memory_missing s f e g m =
        let zeros = settle_missing st m in
        Returns-map (virtual_memory fl os ret w)
          (λ r w' d.
            let v =
              ap (λ (p : Bool × VmemInfo F). p.1) d.0 ∙ ap (λ z. fill_vmem fl info z ret) zeros in
            (
              ap (λ (p : Bool × VmemInfo F). p.0) d.0,
              ap (λ (x : VmemInfo F). x.cached) v,
              ap (λ (x : VmemInfo F). x.active) v,
              ap (λ (x : VmemInfo F). x.inactive) v,
              d.1,
            ))
          (virtual_memory_run s f e g)

  -- If memory, sysinfo or /proc/meminfo is not to be had, the call fails, writes nothing to `*ret` and leaves no block and no stream.
  pub virtual_memory_fails :
      (os : Os) (ret : VmemInfo F) (w : World)
      → (w.grants w.asked ≡ false) ⊎ (os.sysinfo ≡ none) ⊎ (os.file (codes "/proc/meminfo") ≡ none)
      → Returns (virtual_memory fl os ret w) (λ r w'. (r ≡ (false, ret)) × Balanced w w' 0)
  unfolding virtual_memory calloc free fopen close_if
  virtual_memory_fails os ret w h = ground arith
