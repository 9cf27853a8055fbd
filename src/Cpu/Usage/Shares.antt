-- ===== src/Cpu/Usage/Shares.antt =====
-- The loops of cpu_times_percent and cpu_util_percent over two readings.
use cpslib.Prelude.{
  lt→ltb, length-replicate, get_elem?-at, set-at, ℕ, zero, suc, ◌+◌, ◌≤◌, ◌<◌, ◌^◌, ◌≡◌, ◌∙◌, refl,
  sym, ap, Bool, true, some, List, [], ◌∷◌, ◌++◌, append_assoc, arith, length, length-append,
  replicate, get_elem?, set,
}
use cpslib.Machine.{
  World, ok, Returns, Returns-map, Returns-bind, Balanced, alloc_ok, freed_one, calloc, free,
}
use cpslib.Os.{Os}
use cpslib.Floats.{Floats}
use cpslib.Cpu.{CpuTimes, zeroed, calculate_cpu_times_percentage}
use cpslib.Cpu.Usage.Described.{
  shares_of, utilisation_of, shares-shares_of, calculate_cpu_util_percentage-utilisation_of, Holds,
  ncpus_of-Holds, cpu_times-Holds, taken,
}
use cpslib.Cpu.Usage.{calloc_ncpus, percent_loop, util_loop, cpu_times_percent, cpu_util_percent}

-- `f` at the first `n` places of two arrays.
abbrev pub pointwise : {A B : Type 0} → (A → A → B) → ℕ → List A → List A → List B
pointwise f zero xs ys = []
pointwise f (suc n) [] ys = []
pointwise f (suc n) (x ∷ xs) [] = []
pointwise f (suc n) (x ∷ xs) (y ∷ ys) = f x y ∷ pointwise f n xs ys

-- The returned list, and nothing left behind.
abbrev Gives : {A : Type 0} → List A → World → List A → World → Type 0
Gives xs w ret w' = (ret ≡ xs) × Balanced w w' 0

module _ {F D : Type 0} (fl : Floats F D) where
  percent_loop_step :
      (n i : ℕ) (prev cur ret : List (CpuTimes D)) (t1 t2 old : CpuTimes D) (w : World)
      → get_elem? prev i ≡ some t1
      → get_elem? cur i ≡ some t2
      → get_elem? ret i ≡ some old
      → w.grants w.asked ≡ true
      → percent_loop fl (suc n) i prev cur ret w
        ≡ percent_loop fl n
            (i + 1)
            prev
            cur
            (set ret i (shares_of fl t1 t2))
            (freed_one (alloc_ok w))
  unfolding percent_loop calculate_cpu_times_percentage calloc free
  percent_loop_step n i prev cur ret t1 t2 old w p c r g =
      rw (p, c, g) (rw r)
      ∙ ap (λ v. percent_loop fl n (i + 1) prev cur (set ret i v) (freed_one (alloc_ok w)))
          (shares-shares_of fl t1 t2)

  -- The arrays from index `i` on are `ps`, `cs` and `rs`.
  percent_loop-pointwise :
      (n i : ℕ) (p ps c cs done rs : List (CpuTimes D)) (w : World)
      → i ≡ length p
      → i ≡ length c
      → i ≡ length done
      → n ≤ length ps
      → n ≤ length cs
      → n ≡ length rs
      → ((k : ℕ) → w.grants k ≡ true)
      → Returns
          (percent_loop fl n i (p ++ ps) (c ++ cs) (done ++ rs) w)
          (Gives (done ++ pointwise (shares_of fl) n ps cs) w)
  percent_loop-pointwise zero i p ps c cs done [] w ep ec ed lp lc lr g =
      unfold percent_loop in (refl, omega arith)
  percent_loop-pointwise zero i p ps c cs done (r ∷ rs) w ep ec ed lp lc lr g = absurd (omega arith)
  percent_loop-pointwise (suc n) i p [] c cs done rs w ep ec ed lp lc lr g = elim lp [ ]
  percent_loop-pointwise (suc n) i p (x ∷ ps) c [] done rs w ep ec ed lp lc lr g = elim lc [ ]
  percent_loop-pointwise (suc n) i p (x ∷ ps) c (y ∷ cs) done [] w ep ec ed lp lc lr g =
      absurd (omega arith)
  percent_loop-pointwise (suc n) i p (x ∷ ps) c (y ∷ cs) done (r ∷ rs) w ep ec ed lp lc lr g =
      let v = shares_of fl x y in
      let w₁ = freed_one (alloc_ok w) in
      rw
        (
          percent_loop_step n i (p ++ x ∷ ps) (c ++ y ∷ cs) (done ++ r ∷ rs) x y r w
              (get_elem?-at p x ps i ep) (get_elem?-at c y cs i ec) (get_elem?-at done r rs i ed)
              (g w.asked),
          set-at done r rs i v ed,
          ← append_assoc p (x ∷ []) ps,
          ← append_assoc c (y ∷ []) cs,
          ← append_assoc done (v ∷ []) rs,
        )
        (Returns-map {P = Gives ((done ++ v ∷ []) ++ pointwise (shares_of fl) n ps cs) w₁}
          {Q = Gives (done ++ v ∷ pointwise (shares_of fl) n ps cs) w} _
          (λ ret w' h. (h.0 ∙ append_assoc done (v ∷ []) _, omega (arith, h.1.blocks, h.1.streams)))
          (percent_loop-pointwise n (i + 1) (p ++ x ∷ []) ps (c ++ y ∷ []) cs (done ++ v ∷ []) rs w₁
            (omega (arith, length-append {0} p (x ∷ [])))
            (omega (arith, length-append {0} c (y ∷ [])))
            (omega (arith, length-append {0} done (v ∷ []))) (omega arith) (omega arith)
            (omega arith) g))

  util_loop_step :
      (n i : ℕ) (prev cur : List (CpuTimes D)) (ret : List D) (t1 t2 : CpuTimes D) (old : D)
      (w : World)
      → get_elem? prev i ≡ some t1
      → get_elem? cur i ≡ some t2
      → get_elem? ret i ≡ some old
      → util_loop fl (suc n) i prev cur ret w
        ≡ util_loop fl n (i + 1) prev cur (set ret i (utilisation_of fl t1 t2)) w
  unfolding util_loop
  util_loop_step n i prev cur ret t1 t2 old w p c r =
      rw (p, c) (rw r)
      ∙ ap (λ v. util_loop fl n (i + 1) prev cur (set ret i v) w)
          (calculate_cpu_util_percentage-utilisation_of fl t1 t2)

  util_loop-pointwise :
      (n i : ℕ) (p ps c cs : List (CpuTimes D)) (done rs : List D) (w : World)
      → i ≡ length p
      → i ≡ length c
      → i ≡ length done
      → n ≤ length ps
      → n ≤ length cs
      → n ≡ length rs
      → util_loop fl n i (p ++ ps) (c ++ cs) (done ++ rs) w
        ≡ ok (done ++ pointwise (utilisation_of fl) n ps cs) w
  util_loop-pointwise zero i p ps c cs done [] w ep ec ed lp lc lr = unfold util_loop in refl
  util_loop-pointwise zero i p ps c cs done (r ∷ rs) w ep ec ed lp lc lr = absurd (omega arith)
  util_loop-pointwise (suc n) i p [] c cs done rs w ep ec ed lp lc lr = elim lp [ ]
  util_loop-pointwise (suc n) i p (x ∷ ps) c [] done rs w ep ec ed lp lc lr = elim lc [ ]
  util_loop-pointwise (suc n) i p (x ∷ ps) c (y ∷ cs) done [] w ep ec ed lp lc lr =
      absurd (omega arith)
  util_loop-pointwise (suc n) i p (x ∷ ps) c (y ∷ cs) done (r ∷ rs) w ep ec ed lp lc lr =
      let v = utilisation_of fl x y in
      rw
        (
          util_loop_step n i (p ++ x ∷ ps) (c ++ y ∷ cs) (done ++ r ∷ rs) x y r w
              (get_elem?-at p x ps i ep) (get_elem?-at c y cs i ec) (get_elem?-at done r rs i ed),
          set-at done r rs i v ed,
          ← append_assoc p (x ∷ []) ps,
          ← append_assoc c (y ∷ []) cs,
          ← append_assoc done (v ∷ []) rs,
        )
        (util_loop-pointwise n (i + 1) (p ++ x ∷ []) ps (c ++ y ∷ []) cs (done ++ v ∷ []) rs w
            (omega (arith, length-append {0} p (x ∷ [])))
            (omega (arith, length-append {0} c (y ∷ [])))
            (omega (arith, length-append {0} done (v ∷ []))) (omega arith) (omega arith)
            (omega arith)
          ∙ ap (λ l. ok l w) (append_assoc done (v ∷ []) _))

  module _ (os : Os) (percpu : Bool) (ncpus : ℕ) (prev cur : List (CpuTimes D)) (w : World) where
    -- If /proc/stat holds the readings `cur` for `ncpus` processors, fewer than 2^31, both arrays of readings have
    -- so many elements or more, and memory is granted, cpu_times_percent returns, for each processor,
    -- a hundred times the growth of each time by the growth of all ten, in the one block that stays.
    pub cpu_times_percent-pointwise :
        Holds fl os percpu ncpus cur
        → ((k : ℕ) → w.grants k ≡ true)
        → ncpus < 2 ^ 31
        → ncpus ≤ length prev
        → ncpus ≤ length cur
        → Returns
            (cpu_times_percent fl os percpu (some prev) w)
            (λ ret w'. (ret ≡ some (pointwise (shares_of fl) ncpus prev cur)) × Balanced w w' 1)
    unfolding cpu_times_percent calloc_ncpus calloc free
    cpu_times_percent-pointwise holds g small lp lc =
        let w₁ = taken fl os w in
        let w₂ = alloc_ok w₁ in
        rw
          (
            ncpus_of-Holds fl os percpu ncpus cur w holds,
            cpu_times-Holds fl os percpu ncpus cur w holds g,
            lt→ltb ncpus (2 ^ 31) small,
          )
          (rw (g w₁.asked) (
            Returns-bind (Gives (pointwise (shares_of fl) ncpus prev cur) w₂) _
              (percent_loop fl ncpus 0 prev cur (replicate ncpus (zeroed fl os)) w₂) _
              (λ ret w' h. (ap some h.0, omega (arith, h.1.blocks, h.1.streams)))
              (percent_loop-pointwise ncpus 0 [] prev [] cur [] (replicate ncpus (zeroed fl os)) w₂
                refl refl refl lp lc (sym (length-replicate ncpus (zeroed fl os))) g)))

    -- If /proc/stat holds the readings `cur` for `ncpus` processors, fewer than 2^31, both arrays of readings have
    -- so many elements or more, and memory is granted, cpu_util_percent returns, for each processor, the
    -- growth of the time that is not idle by the growth of all, as a percentage, in the one block that
    -- stays.
    pub cpu_util_percent-pointwise :
        Holds fl os percpu ncpus cur
        → ((k : ℕ) → w.grants k ≡ true)
        → ncpus < 2 ^ 31
        → ncpus ≤ length prev
        → ncpus ≤ length cur
        → Returns (cpu_util_percent fl os percpu (some prev) w) (λ ret w'.
          (ret ≡ some (pointwise (utilisation_of fl) ncpus prev cur)) × Balanced w w' 1)
    unfolding cpu_util_percent calloc_ncpus calloc free
    cpu_util_percent-pointwise holds g small lp lc =
        rw (ncpus_of-Holds fl os percpu ncpus cur w holds, lt→ltb ncpus (2 ^ 31) small)
          (rw (g w.asked, cpu_times-Holds fl os percpu ncpus cur (alloc_ok w) holds g)
            (rw
              (util_loop-pointwise ncpus 0 [] prev [] cur [] (replicate ncpus (fl.double_of 0))
                (taken fl os (alloc_ok w)) refl refl refl lp lc
                (sym (length-replicate ncpus (fl.double_of 0))))
              (refl, omega arith)))
