-- ===== src/Cpu/Processors/Distinct.antt =====
-- The count of physical_cpu_count beside the number of distinct ids.
use cpslib.Prelude.{
  ℕ, zero, suc, ◌+◌, ◌/◌, ◌%◌, ◌^◌, ◌≤◌, ◌<◌, ◌≡◌, ◌≢◌, ◌∙◌, refl, ap, true, false, List, [], ◌∷◌,
  arith, ◌==◌, if◌then◌else◌, ◌||◌, take, replicate, elem, minus_one,
}
use mathlib.Core.Option
use cpslib.Prelude.{Option, none, some, inl, inr, Bool-cases, Option-cases, subst}
use cpslib.Libc.{Bytes, codes, starts_with_nocase, fgets_all}
use cpslib.Machine.{World, ok, Returns, Balanced, calloc, free, fopen, fclose, alloc_ok}
use cpslib.Os.{Os}
use cpslib.Cpu.Processors.{
  lfind_int, initial_ids, store_id, count_id, physical_id, cpuinfo_lines, physical_cpu_count,
}

-- The ids one after the other.
abbrev pub count_ids : List ℕ × ℕ → List ℕ → List ℕ × ℕ
count_ids found [] = found
count_ids found (id ∷ ids) = count_ids (count_id found id) ids

-- The number of different values in a list.
abbrev pub distinct : List ℕ → ℕ
distinct [] = 0
distinct (x ∷ xs) = (if elem x xs then 0 else 1) + distinct xs

-- Each value is at least the one in front of it, `x` at first, and fits a non-negative int.
abbrev pub IsRising : ℕ → List ℕ → Type 0
IsRising x [] = x < 2 ^ 31
IsRising x (y ∷ ys) = (x ≤ y) × IsRising y ys

lfind_int-replicate :
    (key : ℕ) (n : ℕ) → key ≢ minus_one → lfind_int key (replicate n minus_one) ≡ false
unfolding lfind_int
lfind_int-replicate key zero h = refl
lfind_int-replicate key (suc n) h = ground (arith, lfind_int-replicate key n h)

-- The array after `id` was stored, if it is below 2 ^ 31: its low word, its high word and the rest.
abbrev holding : ℕ → List ℕ
holding id = id ∷ 0 ∷ replicate 198 minus_one

take-replicate : (k m x : ℕ) → k ≤ m → take k (replicate m x) ≡ replicate k x
take-replicate zero m x h = refl
take-replicate (suc k) zero x h = elim h [ ]
take-replicate (suc k) (suc m) x h = ap (◌∷◌ x) (take-replicate k m x (omega arith))

-- The search over `k` words of a longer untouched array.
lfind_int-untouched :
    (key k m : ℕ) → key ≢ minus_one → k ≤ m → lfind_int key (take k (replicate m minus_one)) ≡ false
lfind_int-untouched key k m h b =
    ap (lfind_int key) (take-replicate k m minus_one b) ∙ lfind_int-replicate key k h

lfind_int_two :
    (key p k m : ℕ)
    → key ≢ minus_one
    → k ≤ m
    → lfind_int key (take (suc (suc k)) (p ∷ 0 ∷ replicate m minus_one)) ≡ (key == p || key == 0)
unfolding lfind_int
lfind_int_two key p k m h b = ground (arith, lfind_int-untouched key k m h b)

count_id_first : (id n : ℕ) → id < 2 ^ 31 → count_id (initial_ids, n) id ≡ (holding id, n + 1)
unfolding count_id store_id
count_id_first id n h =
    let low : id % 2 ^ 32 ≡ id = omega arith in
    let high : id / 2 ^ 32 % 2 ^ 32 ≡ 0 = omega arith in
    rw (lfind_int-untouched (id % 2 ^ 32) 100 200 (omega arith) (omega arith), low, high)

count_id_next :
    (p id n : ℕ)
    → id < 2 ^ 31
    → count_id (holding p, n) id
      ≡ (if id == p || id == 0 then (holding p, n) else (holding id, n + 1))
unfolding count_id store_id
count_id_next p id n h =
    let low : id % 2 ^ 32 ≡ id = omega arith in
    let high : id / 2 ^ 32 % 2 ^ 32 ≡ 0 = omega arith in
    rw (low, high, lfind_int_two id p 98 198 (omega arith) (omega arith))

elem-rising : (p x : ℕ) (xs : List ℕ) → p < x → IsRising x xs → elem p (x ∷ xs) ≡ false
elem-rising p x [] lt h = ground arith
elem-rising p x (y ∷ ys) lt h = ground (arith, elem-rising p y ys (omega arith) h.1)

rising_lt : (x : ℕ) (xs : List ℕ) → IsRising x xs → x < 2 ^ 31
rising_lt x [] h = h
rising_lt x (y ∷ ys) h = omega (arith, rising_lt y ys h.1)

distinct_same : (p x : ℕ) (xs : List ℕ) → x ≡ p → distinct (p ∷ x ∷ xs) ≡ distinct (p ∷ xs)
distinct_same p x xs e = ground arith

distinct_new :
    (p x : ℕ) (xs : List ℕ)
    → elem p (x ∷ xs) ≡ false
    → distinct (p ∷ x ∷ xs) ≡ 1 + distinct (x ∷ xs)
distinct_new p x xs e = rw e

count_ids_step :
    (found next : List ℕ × ℕ) (x : ℕ) (xs : List ℕ)
    → count_id found x ≡ next
    → (count_ids found (x ∷ xs)).1 ≡ (count_ids next xs).1
count_ids_step found next x xs e = ap (λ (f : List ℕ × ℕ). (count_ids f xs).1) e

count_id_seen : (p x n : ℕ) → p < 2 ^ 31 → x ≡ p → count_id (holding p, n) x ≡ (holding p, n)
count_id_seen p x n h e = count_id_next p x n (omega arith) ∙ ground arith

count_id_new :
    (p x n : ℕ) → x < 2 ^ 31 → x ≢ p → x ≢ 0 → count_id (holding p, n) x ≡ (holding x, n + 1)
count_id_new p x n h e z = count_id_next p x n h ∙ ground arith

count_ids-distinct :
    (p n : ℕ) (xs : List ℕ)
    → IsRising p xs
    → (count_ids (holding p, n) xs).1 + 1 ≡ n + distinct (p ∷ xs)
count_ids-distinct p n [] h = omega arith
count_ids-distinct p n (x ∷ xs) h = elim (Bool-cases (x == p)) [
  | inl same ↦
      let e : x ≡ p = ground arith in
      let h' = subst (λ y. IsRising y xs) e h.1 in
      omega (
        arith,
        count_ids_step (holding p, n) (holding p, n) x xs
            (count_id_seen p x n (rising_lt p xs h') e),
        count_ids-distinct p n xs h',
        distinct_same p x xs e,
      )
  | inr new ↦
      let lt : p < x = ground arith in
      omega (
        arith,
        count_ids_step (holding p, n) (holding x, n + 1) x xs
            (count_id_new p x n (rising_lt x xs h.1) (omega arith) (omega arith)),
        count_ids-distinct x (n + 1) xs h.1,
        distinct_new p x xs (elem-rising p x xs lt h.1),
      )
]

-- Where the ids of /proc/cpuinfo never fall, the count is the number of distinct ids.
count_ids-eq-distinct :
    (x : ℕ) (xs : List ℕ)
    → IsRising x xs
    → (count_ids (initial_ids, 0) (x ∷ xs)).1 ≡ distinct (x ∷ xs)
count_ids-eq-distinct x xs h = omega (
  arith,
  count_ids_step (initial_ids, 0) (holding x, 1) x xs (count_id_first x 0 (rising_lt x xs h)),
  count_ids-distinct x 1 xs h,
)

-- The ids that the lines give, in order; `none` if a "physical id" line has none.
abbrev pub listed : List Bytes → Option (List ℕ)
listed [] = some []
listed (l ∷ ls) =
    let more = listed ls in
    if starts_with_nocase l (codes "physical id")
    then elim (physical_id l) [ none ↦ none | some id ↦ Option.map (◌∷◌ id) more ]
    else more

cpuinfo_lines-listed :
    (found : List ℕ × ℕ) (ls : List Bytes) (ids : List ℕ) (w : World)
    → listed ls ≡ some ids
    → cpuinfo_lines found ls w ≡ ok (count_ids found ids).1 w
unfolding cpuinfo_lines
cpuinfo_lines-listed found [] ids w h = ground arith
cpuinfo_lines-listed found (l ∷ ls) ids w h =
    elim (Bool-cases (starts_with_nocase l (codes "physical id"))) [
      | inl id_line ↦ elim (Option-cases (physical_id l)) [
        | inl missing ↦ cc (rw (id_line, missing) at h)
        | inr (id, there) ↦ elim (Option-cases (listed ls)) [
          | inl stop ↦ cc (rw (id_line, there, stop) at h)
          | inr (more, go) ↦
              let split : ids ≡ id ∷ more = cc (rw (id_line, there, go) at h) in
              rw (id_line, there, split) (cpuinfo_lines-listed (count_id found id) ls more w go)
        ]
      ]
      | inr other ↦ rw other (cpuinfo_lines-listed found ls ids w (rw other at h))
    ]

-- The world after one buffer and one stream have come and gone.
abbrev counted : World → World
counted w = record (alloc_ok w) {
  opened = w.opened + 1;
  closed = w.closed + 1;
  freed = w.freed + 1;
}

-- physical_cpu_count returns what the ids count to, and closes and frees what it opened and asked for.
physical_cpu_count_run :
    (os : Os) (cpuinfo : Bytes) (ids : List ℕ) (w : World)
    → os.file (codes "/proc/cpuinfo") ≡ some cpuinfo
    → listed (fgets_all 90 cpuinfo) ≡ some ids
    → w.grants w.asked ≡ true
    → physical_cpu_count os w ≡ ok (count_ids (initial_ids, 0) ids).1 (counted w)
unfolding physical_cpu_count calloc free fopen fclose
physical_cpu_count_run os cpuinfo ids w f l g =
    rw (g, f, fopen, cpuinfo_lines-listed (initial_ids, 0) (fgets_all 90 cpuinfo) ids _ l)

-- If /proc/cpuinfo opens, memory is granted, and there is at least one physical id, each such line has a
-- number, all numbers are below 2^31 and they never fall from line to line, physical_cpu_count returns the
-- number of distinct ids and leaves no block and no stream.
pub physical_cpu_count-distinct :
    (os : Os) (cpuinfo : Bytes) (x : ℕ) (xs : List ℕ) (w : World)
    → os.file (codes "/proc/cpuinfo") ≡ some cpuinfo
    → listed (fgets_all 90 cpuinfo) ≡ some (x ∷ xs)
    → w.grants w.asked ≡ true
    → IsRising x xs
    → Returns
        (physical_cpu_count os w)
        (λ nprocs w'. (nprocs ≡ distinct (x ∷ xs)) × Balanced w w' 0)
physical_cpu_count-distinct os cpuinfo x xs w f l g r =
    rw (physical_cpu_count_run os cpuinfo (x ∷ xs) w f l g)
      (count_ids-eq-distinct x xs r, omega arith)

count_ids_recount :
    (a b : ℕ)
    → 0 < a
    → 0 < b
    → a < 2 ^ 31
    → b < 2 ^ 31
    → a ≢ b
    → (count_ids (initial_ids, 0) (a ∷ b ∷ a ∷ [])).1 ≡ 3
count_ids_recount a b pa pb la lb ne =
    count_ids_step (initial_ids, 0) (holding a, 1) a (b ∷ a ∷ []) (count_id_first a 0 la)
    ∙ count_ids_step (holding a, 1) (holding b, 2) b (a ∷ [])
        (count_id_new a b 1 lb (omega arith) (omega arith))
    ∙ count_ids_step (holding b, 2) (holding a, 3) a []
        (count_id_new b a 2 la (omega arith) (omega arith))

-- If /proc/cpuinfo opens and memory is granted, ids a, b, a in this order, distinct, positive and below 2 ^ 31, count to one more than the number
-- of distinct ids.
pub physical_cpu_count_recounts :
    (os : Os) (cpuinfo : Bytes) (a b : ℕ) (w : World)
    → os.file (codes "/proc/cpuinfo") ≡ some cpuinfo
    → listed (fgets_all 90 cpuinfo) ≡ some (a ∷ b ∷ a ∷ [])
    → w.grants w.asked ≡ true
    → 0 < a
    → 0 < b
    → a < 2 ^ 31
    → b < 2 ^ 31
    → a ≢ b
    → Returns (physical_cpu_count os w) (λ nprocs w'. nprocs ≡ distinct (a ∷ b ∷ a ∷ []) + 1)
physical_cpu_count_recounts os cpuinfo a b w f l g pa pb la lb ne =
    rw (physical_cpu_count_run os cpuinfo (a ∷ b ∷ a ∷ []) w f l g)
      (count_ids_recount a b pa pb la lb ne ∙ ground arith)
