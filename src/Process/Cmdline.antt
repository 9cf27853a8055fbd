-- ===== src/Process/Cmdline.antt =====
-- clean_cmdline and get_cmdline on /proc/<pid>/cmdline.
use cpslib.Prelude.{
  ℕ, zero, suc, ◌+◌, ◌-◌, ◌<◌, ◌≤◌, ◌≡◌, ◌∙◌, sym, ap, refl, arith, true, false, Bool-cases, inl,
  inr, some, [], ◌∷◌, ◌++◌, append_assoc, ◌==◌, if◌then◌else◌, length, length-append, take, set,
  get_elem?, get_elem?-at, set-at, replicate,
}
use cpslib.Libc.{Bytes, codes}
use cpslib.Machine.{World, Returns, alloc_ok, calloc, fopen, fclose}
use cpslib.Os.{Os}
use cpslib.Common.{text_of}
use cpslib.Process.{procfile, clean_rounds, clean_cmdline, get_cmdline}

-- Every NUL a blank.
abbrev pub spaced : Bytes → Bytes
spaced [] = []
spaced (c ∷ s) = (if c == 0 then b' ' else c) ∷ spaced s

abbrev pub count_nuls : Bytes → ℕ
count_nuls [] = 0
count_nuls (c ∷ s) = if c == 0 then suc (count_nuls s) else count_nuls s

length-spaced : (s : Bytes) → length (spaced s) ≡ length s
length-spaced [] = refl
length-spaced (c ∷ s) = ap suc (length-spaced s)

spaced-append : (s t : Bytes) → spaced (s ++ t) ≡ spaced s ++ spaced t
spaced-append [] t = refl
spaced-append (c ∷ s) t = ap (◌∷◌ (if c == 0 then b' ' else c)) (spaced-append s t)

n-zero : (n : ℕ) → n ≡ n + 0
n-zero n = omega arith

plus_one : (n : ℕ) → n + 1 ≡ suc n
plus_one n = omega arith

zero_plus : (n : ℕ) → 0 + n ≡ n
zero_plus n = omega arith

plus_suc : (n k : ℕ) → n + 1 + k ≡ n + suc k
plus_suc n k = omega arith

-- One round further, the byte `d` joins the prefix.
join :
    (p s rest : Bytes) (d i k : ℕ)
    → clean_rounds (length s) (i + 1) ((p ++ d ∷ []) ++ (s ++ rest)) k
      ≡ some ((p ++ d ∷ []) ++ (spaced s ++ rest), k + count_nuls s)
    → clean_rounds (length s) (i + 1) (p ++ d ∷ (s ++ rest)) k
      ≡ some (p ++ d ∷ (spaced s ++ rest), k + count_nuls s)
join p s rest d i k h =
    ap (λ b. clean_rounds (length s) (i + 1) b k) (sym (append_assoc p (d ∷ []) (s ++ rest)))
    ∙ h
    ∙ ap (λ b. some (b, k + count_nuls s)) (append_assoc p (d ∷ []) (spaced s ++ rest))

nul_step :
    (m i n c : ℕ) (ip : Bytes)
    → get_elem? ip i ≡ some c
    → c == 0 ≡ true
    → clean_rounds (suc m) i ip n ≡ clean_rounds m (i + 1) (set ip i b' ') (n + 1)
unfolding clean_rounds
nul_step m i n c ip e z = rw (clean_rounds, e) (rw z refl)

kept_step :
    (m i n c : ℕ) (ip : Bytes)
    → get_elem? ip i ≡ some c
    → c == 0 ≡ false
    → clean_rounds (suc m) i ip n ≡ clean_rounds m (i + 1) ip n
unfolding clean_rounds
kept_step m i n c ip e z = rw (clean_rounds, e) (rw z refl)

clean_rounds_lem :
    (p s rest : Bytes) (i n : ℕ)
    → i ≡ length p
    → clean_rounds (length s) i (p ++ (s ++ rest)) n
      ≡ some (p ++ (spaced s ++ rest), n + count_nuls s)
unfolding clean_rounds
clean_rounds_lem p [] rest i n e = ap (λ k. some (p ++ rest, k)) (n-zero n)
clean_rounds_lem p (c ∷ s) rest i n e = elim (Bool-cases (c == 0)) [
  | inl nul ↦
      nul_step (length s) i n c (p ++ c ∷ (s ++ rest)) (get_elem?-at p c (s ++ rest) i e) nul
      ∙ ap (λ b. clean_rounds (length s) (i + 1) b (n + 1)) (set-at p c (s ++ rest) i b' ' e)
      ∙ join p s rest b' ' i (n + 1) (
          clean_rounds_lem (p ++ b' ' ∷ []) s rest (i + 1) (n + 1)
            (omega (arith, e, length-append {0} p (b' ' ∷ []))))
      ∙ rw nul (ap (λ k. some (p ++ b' ' ∷ (spaced s ++ rest), k)) (plus_suc n (count_nuls s)))
  | inr kept ↦
      kept_step (length s) i n c (p ++ c ∷ (s ++ rest)) (get_elem?-at p c (s ++ rest) i e) kept
      ∙ join p s rest c i n (
          clean_rounds_lem (p ++ c ∷ []) s rest (i + 1) n
            (omega (arith, e, length-append {0} p (c ∷ []))))
      ∙ rw kept refl
]

cleaned_lem :
    (k r : ℕ) (ip b : Bytes)
    → clean_rounds (suc k) 0 ip 0 ≡ some (b, r)
    → clean_cmdline ip (suc k) ≡ some (set b k 0, r)
unfolding clean_cmdline
cleaned_lem k r ip b h = rw (clean_cmdline, h) refl

set-last :
    (s : Bytes) (last : ℕ) (rest : Bytes)
    → set (spaced (s ++ last ∷ []) ++ rest) (length s) 0 ≡ spaced s ++ 0 ∷ rest
set-last s last rest =
    let x = if last == 0 then b' ' else last in
    ap (λ b. set (b ++ rest) (length s) 0) (spaced-append s (last ∷ []))
    ∙ ap (λ b. set b (length s) 0) (append_assoc (spaced s) (x ∷ []) rest)
    ∙ set-at (spaced s) x rest (length s) 0 (sym (length-spaced s))

-- clean_cmdline(ip, len) on a buffer that starts with at least one byte to clean: all NULs of the first
-- `len` bytes become blanks, but the last of these bytes, whatever it is, becomes NUL. The bytes behind
-- it stay, and the result counts the NULs, the last byte's included.
pub clean_cmdline-spaced :
    (s : Bytes) (last : ℕ) (rest : Bytes)
    → clean_cmdline (s ++ last ∷ rest) (length s + 1)
      ≡ some (spaced s ++ 0 ∷ rest, count_nuls (s ++ last ∷ []))
unfolding clean_cmdline
clean_cmdline-spaced s last rest =
    let len : length (s ++ last ∷ []) ≡ suc (length s) =
      omega (arith, length-append {0} s (last ∷ [])) in
    let rounds : clean_rounds (suc (length s)) 0 (s ++ last ∷ rest) 0
        ≡ some (spaced (s ++ last ∷ []) ++ rest, 0 + count_nuls (s ++ last ∷ [])) =
      rw (sym len, sym (append_assoc s (last ∷ []) rest))
        (clean_rounds_lem [] (s ++ last ∷ []) rest 0 0 refl) in
    ap (clean_cmdline (s ++ last ∷ rest)) (plus_one (length s))
    ∙ cleaned_lem (length s) (0 + count_nuls (s ++ last ∷ [])) (s ++ last ∷ rest)
        (spaced (s ++ last ∷ []) ++ rest) rounds
    ∙ ap (λ b. some (b, 0 + count_nuls (s ++ last ∷ []))) (set-last s last rest)
    ∙ ap (λ k. some (spaced s ++ 0 ∷ rest, k)) (zero_plus (count_nuls (s ++ last ∷ [])))

take_short : (n : ℕ) (s : Bytes) → length s ≤ n → take n s ≡ s
take_short zero [] h = refl
take_short zero (c ∷ s) h = absurd (omega arith)
take_short (suc n) [] h = refl
take_short (suc n) (c ∷ s) h = ap (◌∷◌ c) (take_short n s (omega arith))

text_of-spaced : (s rest : Bytes) → text_of (spaced s ++ 0 ∷ rest) ≡ spaced s
unfolding text_of
text_of-spaced [] rest = refl
text_of-spaced (c ∷ s) rest = elim (Bool-cases (c == 0)) [
  | inl nul ↦ rw nul (ap (◌∷◌ b' ') (text_of-spaced s rest))
  | inr kept ↦ rw (kept, kept) (ap (◌∷◌ c) (text_of-spaced s rest))
]

module _ (os : Os) (pid : ℕ) (s : Bytes) (last : ℕ) (w : World) where
  -- What get_cmdline returns for a file of 1 to 500 bytes, memory granted: its bytes up to the last, each
  -- NUL a blank. The buffer is the block that stays, and the stream is closed.
  pub get_cmdline-spaced :
      os.file (procfile pid (codes "/cmdline")) ≡ some (s ++ last ∷ [])
      → length s < 500
      → w.grants w.asked ≡ true
      → Returns (get_cmdline os pid w) (λ r w'.
        (r ≡ some (spaced s))
        × (w' ≡ record (alloc_ok w) { opened = w.opened + 1; closed = w.closed + 1 }))
  unfolding get_cmdline calloc fopen fclose
  get_cmdline-spaced f h g =
      let len = length-append {0} s (last ∷ []) in
      let pad = replicate {A = ℕ} (500 - (length s + 1)) 0 in
      rw (g, f, fopen)
        (rw (take_short 500 (s ++ last ∷ []) (omega (arith, len))) (
          rw len (
            rw (append_assoc s (last ∷ []) pad)
              (rw (clean_cmdline-spaced s last pad) (ap some (text_of-spaced s pad), refl)))))
