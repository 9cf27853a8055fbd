-- ===== src/Osx/Process/Arguments.antt =====
-- get_cmdline on the argument space of a process.
use cpslib.Prelude.{
  ℕ, zero, suc, ◌+◌, ◌<◌, ◌≡◌, ◌∙◌, refl, sym, ap, true, false, some, List, [], ◌∷◌, ◌++◌,
  append_assoc, append-nil, arith, lt→ltb, ◌==◌, length, length-append, take, All, replicate,
}
use cpslib.Libc.{Bytes}
use cpslib.Machine.{World, Returns, Accounts, calloc, free}
use cpslib.Os.{Os}
use cpslib.Osx.Host.{Host}
use cpslib.Osx.Process.{behind_nul, skip_nuls, join_args, drop_last, get_argmax, get_cmdline}

abbrev pub IsText : Bytes → Type 0
IsText = All (λ (c : ℕ). c == 0 ≡ false)

-- The arguments as the kernel lays them out, and as the code copies them.
abbrev pub terminated : List Bytes → Bytes
terminated [] = []
terminated (a ∷ rest) = a ++ 0 ∷ terminated rest

abbrev blanked : List Bytes → Bytes
blanked [] = []
blanked (a ∷ rest) = a ++ b' ' ∷ blanked rest

abbrev pub separated : Bytes → List Bytes → Bytes
separated a [] = a
separated a (b ∷ rest) = a ++ b' ' ∷ separated b rest

blanked-separated :
    (a : Bytes) (rest : List Bytes) → blanked (a ∷ rest) ≡ separated a rest ++ b' ' ∷ []
blanked-separated a [] = refl
blanked-separated a (b ∷ rest) =
    ap (λ (s : Bytes). a ++ b' ' ∷ s) (blanked-separated b rest)
    ∙ sym (append_assoc a (b' ' ∷ separated b rest) (b' ' ∷ []))

behind_nul_lem : (a s : Bytes) → IsText a → behind_nul (a ++ 0 ∷ s) ≡ some s
unfolding behind_nul
behind_nul_lem [] s h = refl
behind_nul_lem (c ∷ a) s h = rw h.0 (behind_nul_lem a s h.1)

skip_nuls_lem : (k c : ℕ) (s : Bytes) → c == 0 ≡ false → skip_nuls (replicate k 0 ++ c ∷ s) ≡ c ∷ s
unfolding skip_nuls
skip_nuls_lem zero c s h = rw h refl
skip_nuls_lem (suc k) c s h = skip_nuls_lem k c s h

-- One argument up to its NUL.
join_args-argument :
    (n : ℕ) (arg a ret s : Bytes)
    → IsText a
    → length (ret ++ ((arg ++ a) ++ b' ' ∷ [])) < 500
    → join_args (suc n) arg ret (a ++ 0 ∷ s) ≡ join_args n [] (ret ++ ((arg ++ a) ++ b' ' ∷ [])) s
unfolding join_args
join_args-argument n arg [] ret s h fits =
    rw (append-nil arg)
      (rw (lt→ltb (length (ret ++ (arg ++ b' ' ∷ []))) 500 (rw (sym (append-nil arg)) fits)) refl)
join_args-argument n arg (c ∷ a) ret s h fits =
    let more = append_assoc arg (c ∷ []) a in
    rw h.0 (rw (sym more) (join_args-argument n (arg ++ c ∷ []) a ret s h.1 (rw more fits)))

-- All arguments that are counted; what is behind them is left.
join_args-blanked :
    (rest : List Bytes) (ret extra : Bytes)
    → All IsText rest
    → length (ret ++ blanked rest) < 500
    → join_args (length rest) [] ret (terminated rest ++ extra) ≡ some (ret ++ blanked rest)
unfolding join_args
join_args-blanked [] ret [] h fits = ap some (sym (append-nil ret))
join_args-blanked [] ret (c ∷ extra) h fits = ap some (sym (append-nil ret))
join_args-blanked (a ∷ rest) ret extra h fits =
    let copied : (ret ++ (a ++ b' ' ∷ [])) ++ blanked rest ≡ ret ++ blanked (a ∷ rest) =
      append_assoc ret (a ++ b' ' ∷ []) (blanked rest)
      ∙ ap (◌++◌ ret) (append_assoc a (b' ' ∷ []) (blanked rest)) in
    let fits₁ : length ((ret ++ (a ++ b' ' ∷ [])) ++ blanked rest) < 500 = rw copied fits in
    ap (join_args (suc (length rest)) [] ret) (append_assoc a (0 ∷ terminated rest) extra)
    ∙ join_args-argument (length rest) [] a ret (terminated rest ++ extra) h.0
        (omega (arith, fits₁, length-append {0} (ret ++ (a ++ b' ' ∷ [])) (blanked rest)))
    ∙ join_args-blanked rest (ret ++ (a ++ b' ' ∷ [])) extra h.1 fits₁
    ∙ ap some copied

take-length : (x : Bytes) (c : ℕ) → take (length x) (x ++ c ∷ []) ≡ x
take-length [] c = refl
take-length (d ∷ x) c = ap (◌∷◌ d) (take-length x c)

drop_last_lem : (x : Bytes) (c : ℕ) → drop_last (x ++ c ∷ []) ≡ some x
unfolding drop_last
drop_last_lem [] c = refl
drop_last_lem (d ∷ x) c =
    let len : length (x ++ c ∷ []) ≡ suc (length x) = omega (arith, length-append {0} x (c ∷ [])) in
    ap (λ n. some (take n (d ∷ (x ++ c ∷ [])))) len ∙ ap some (take-length (d ∷ x) c)

module _ (os : Os) (host : Host) (pid argmax : ℕ) (exe : Bytes) (padding c : ℕ) (first : Bytes)
    (rest : List Bytes) (extra : Bytes) (w : World) where
  abbrev pub arguments : Bytes
  arguments = replicate padding 0 ++ (terminated ((c ∷ first) ∷ rest) ++ extra)

  -- On macOS, where the kernel reports the path of the program, NULs behind it and then the arguments, each
  -- ended by a NUL, the first not empty, and memory is granted: get_cmdline returns the arguments with a blank
  -- between two of them, if that is less than 499 bytes. What follows the last argument is left out, and the
  -- text is the block that stays.
  pub get_cmdline-separated :
      pid == 0 ≡ false
      → host.argmax ≡ some argmax
      → argmax == 0 ≡ false
      → host.procargs pid ≡ some (suc (length rest), exe ++ 0 ∷ arguments)
      → IsText exe
      → All IsText ((c ∷ first) ∷ rest)
      → length (separated (c ∷ first) rest) < 499
      → ((k : ℕ) → w.grants k ≡ true)
      → Returns
          (get_cmdline os host pid w)
          (λ r w'. (r ≡ some (separated (c ∷ first) rest)) × Accounts w w' 1 0 0)
  unfolding get_cmdline get_argmax calloc free
  get_cmdline-separated p a n k path texts fits g =
      let line = separated (c ∷ first) rest in
      let whole = blanked-separated (c ∷ first) rest in
      let len : length (blanked ((c ∷ first) ∷ rest)) ≡ length (line ++ b' ' ∷ []) =
        ap length whole in
      let some_left : length arguments == 0 ≡ false = ground (
        arith,
        length-append {0} (replicate {A = ℕ} padding 0) (terminated ((c ∷ first) ∷ rest) ++ extra),
      ) in
      let joined : join_args (suc (length rest)) [] [] (skip_nuls arguments)
          ≡ some (line ++ b' ' ∷ []) =
        ap (join_args (suc (length rest)) [] []) (skip_nuls_lem padding c _ texts.0.0)
        ∙ join_args-blanked ((c ∷ first) ∷ rest) [] extra texts
            (omega (arith, fits, len, length-append {0} line (b' ' ∷ [])))
        ∙ ap some whole in
      rw (g w.asked, p)
        (rw (a, n)
          (rw (g (w.asked + 1)) (
            rw k (
              rw (behind_nul_lem exe arguments path) (
                rw some_left (
                  rw joined (
                    rw (drop_last_lem line b' ') (
                      refl,
                      record { blocks = omega arith; streams = omega arith; grants = refl },
                    ))))))))
