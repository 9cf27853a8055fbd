-- ===== src/Process/Links.antt =====
-- get_exe and get_terminal on the links of /proc/<pid>.
use cpslib.Prelude.{
  ℕ, zero, suc, ◌+◌, ◌-◌, ◌*◌, ◌^◌, ◌<◌, ◌≤◌, ◌≡◌, ap, refl, arith, true, false, Bool-cases, inl,
  inr, Option, some, [], ◌∷◌, ◌==◌, length, take, ltb, ltb→lt, u32,
}
use cpslib.Libc.{Bytes, codes}
use cpslib.Machine.{World, ok, Returns, Returns-map, Accounts, alloc_ok, calloc, realloc}
use cpslib.Os.{Os}
use cpslib.Process.{procfile, link_fuel, readlink, read_rounds, get_exe, get_terminal}

length-take : (n : ℕ) (s : Bytes) → n ≤ length s → length (take n s) ≡ n
length-take zero s h = refl
length-take (suc n) [] h = absurd (omega arith)
length-take (suc n) (c ∷ s) h = ap suc (length-take n s (omega arith))

pub take_all : (n : ℕ) (s : Bytes) → length s ≤ n → take n s ≡ s
take_all zero [] h = refl
take_all zero (c ∷ s) h = absurd (omega arith)
take_all (suc n) [] h = refl
take_all (suc n) (c ∷ s) h = ap (◌∷◌ c) (take_all n s (omega arith))

module _ (os : Os) (path target : Bytes) (linked : os.link path ≡ some target)
    (small : length target < 2 ^ 30) where
  abbrev Whole : World → Option Bytes → World → Type 0
  Whole w r w' = (r ≡ some target) × Accounts w w' 0 0 0

  -- A buffer that the target does not leave free by a byte doubles.
  grow_step :
      (fuel b : ℕ) (got : Bytes) (w : World)
      → length got ≡ b - 1
      → b * 2 < 2 ^ 32
      → w.grants w.asked ≡ true
      → read_rounds os (suc fuel) path b got w
        ≡ read_rounds os fuel path
            (b * 2)
            (take (b * 2 - 1) target)
            (record w { asked = w.asked + 1 })
  unfolding read_rounds realloc readlink
  grow_step fuel b got w e s g =
      let full : length got == b - 1 ≡ true = rw e (ground arith) in
      let wrap : u32 (b * 2) ≡ b * 2 = omega arith in
      rw (full, g) (rw wrap (rw (readlink, linked) refl))

  fit_step :
      (fuel b : ℕ) (w : World)
      → length target < b - 1
      → read_rounds os (suc fuel) path b target w ≡ ok (some target) w
  unfolding read_rounds
  fit_step fuel b w h = let spare : length target == b - 1 ≡ false = ground arith in rw spare refl

  read_rounds-Whole :
      (fuel b : ℕ) (w : World)
      → 1 ≤ b
      → length target + 2 ≤ fuel + b
      → b ≤ 2 * length target + 1024
      → ((k : ℕ) → w.grants k ≡ true)
      → Returns (read_rounds os (suc fuel) path b (take (b - 1) target) w) (Whole w)
  read_rounds-Whole zero b w one enough tight g = rw (take_all (b - 1) target (omega arith)) (
      rw (fit_step zero b w (omega arith))
        (refl, record { blocks = omega arith; streams = omega arith; grants = refl }))
  read_rounds-Whole (suc fuel) b w one enough tight g =
      elim (Bool-cases (ltb (length target) (b - 1))) [
        | inl fits ↦
            let lt = ltb→lt (length target) (b - 1) fits in
            rw (take_all (b - 1) target (omega arith)) (
              rw (fit_step (suc fuel) b w lt)
                (refl, record { blocks = omega arith; streams = omega arith; grants = refl }))
        | inr full ↦
            let le : b - 1 ≤ length target = ground arith in
            rw
              (grow_step (suc fuel) b (take (b - 1) target) w (length-take (b - 1) target le)
                (omega arith) (g w.asked))
              (Returns-map {Q = Whole w} _
                (λ r w' h.
                  (h.0, record { blocks = h.1.blocks; streams = h.1.streams; grants = h.1.grants }))
                (read_rounds-Whole fuel (b * 2) (record w { asked = w.asked + 1 }) (omega arith)
                  (omega arith) (omega arith) g))
      ]

module _ (os : Os) (pid : ℕ) (target : Bytes) (w : World) where
  abbrev pub LinkText : Option Bytes → World → Type 0
  LinkText r w' = (r ≡ some target) × Accounts w w' 1 0 0

  from_start :
      (path : Bytes)
      → os.link path ≡ some target
      → length target < 2 ^ 30
      → ((k : ℕ) → w.grants k ≡ true)
      → Returns
          (read_rounds os (length target + 1) path 1024 (take 1023 target) (alloc_ok w))
          LinkText
  from_start path l s g =
      let fuel : length target + 1 ≡ suc (length target) = omega arith in
      rw fuel (
        Returns-map {Q = LinkText} _
          (λ r w' h. (
            h.0,
            record {
              blocks = omega (arith, h.1.blocks);
              streams = omega (arith, h.1.streams);
              grants = h.1.grants;
            },
          ))
          (read_rounds-Whole os path target l s (length target) 1024 (alloc_ok w) (omega arith)
            (omega arith) (omega arith) g))

  readlink-some :
      (path : Bytes) (n : ℕ) (v : World)
      → os.link path ≡ some target
      → readlink os path n v ≡ ok (some (take n target)) v
  unfolding readlink
  readlink-some path n v l = rw (readlink, l) refl

  link_fuel-some :
      (path : Bytes) → os.link path ≡ some target → link_fuel os path ≡ length target + 1
  link_fuel-some path l = rw (link_fuel, l) refl

  -- get_terminal ends and returns all of the link /proc/<pid>/fd/0, if its target is shorter than 2^30
  -- bytes and memory is granted, however often the buffer has to double; that text is the one block left.
  pub get_terminal-LinkText :
      os.link (procfile pid (codes "/fd/0")) ≡ some target
      → length target < 2 ^ 30
      → ((k : ℕ) → w.grants k ≡ true)
      → Returns (get_terminal os pid w) LinkText
  unfolding get_terminal calloc
  get_terminal-LinkText l s g =
      let path = procfile pid (codes "/fd/0") in
      rw (g w.asked)
        (rw (readlink-some path 1023 (alloc_ok w) l, link_fuel-some path l) (from_start path l s g))

  -- get_exe ends and returns all of the link /proc/<pid>/exe, if its target is shorter than 2^30 bytes and
  -- memory is granted, however often the buffer has to double; that text is the one block left.
  pub get_exe-LinkText :
      os.link (procfile pid (codes "/exe")) ≡ some target
      → length target < 2 ^ 30
      → ((k : ℕ) → w.grants k ≡ true)
      → Returns (get_exe os pid w) LinkText
  unfolding get_exe calloc
  get_exe-LinkText l s g =
      let path = procfile pid (codes "/exe") in
      rw (g w.asked)
        (rw (readlink-some path 1023 (alloc_ok w) l, link_fuel-some path l) (from_start path l s g))
