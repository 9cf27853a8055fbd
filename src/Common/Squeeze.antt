-- ===== src/Common/Squeeze.antt =====
-- squeeze of common.c: what it leaves of a string.
use cpslib.Prelude.{
  get_elem?-at, set-at, ℕ, zero, suc, ◌+◌, ◌<◌, ◌≢◌, ◌≡◌, ◌∙◌, refl, sym, ap, not, Bool, true,
  false, some, [], ◌∷◌, ◌++◌, append_assoc, arith, ◌==◌, get_elem?, set, length, length-append,
  filter, elem, All, Bool-cases, inl, inr,
}
use mathlib.Core.Option
use cpslib.Libc.{Bytes}
use cpslib.Machine.{World, ok}
use cpslib.Common.{squeeze_pass, squeeze, squeeze_text, text_of}

-- No byte is NUL: the text is a C string.
abbrev pub IsText : Bytes → Type 0
IsText = All (λ c. c ≢ 0)

get_elem?-at₂ :
    (p g : Bytes) (x : ℕ) (r : Bytes) (i : ℕ)
    → i ≡ length p + length g
    → get_elem? (p ++ (g ++ x ∷ r)) i ≡ some x
get_elem?-at₂ p g x r i e =
    rw (← append_assoc p g (x ∷ r))
      (get_elem?-at (p ++ g) x r i (omega (arith, length-append {0} p g)))

-- One round of the inner loop, by the byte under `src`.
module _ (fuel ch src target : ℕ) (buf : Bytes) where
  squeeze_pass_stop :
      get_elem? buf src ≡ some 0
      → squeeze_pass (suc fuel) ch buf src target ≡ some (set buf target 0)
  unfolding squeeze_pass
  squeeze_pass_stop e = ground arith

  squeeze_pass_drop :
      get_elem? buf src ≡ some ch
      → ch ≢ 0
      → squeeze_pass (suc fuel) ch buf src target ≡ squeeze_pass fuel ch buf (src + 1) target
  unfolding squeeze_pass
  squeeze_pass_drop e n = ground arith

  squeeze_pass_keep :
      (c : ℕ)
      → get_elem? buf src ≡ some c
      → c ≢ 0
      → c ≢ ch
      → squeeze_pass (suc fuel) ch buf src target
        ≡ squeeze_pass fuel ch (set buf target c) (src + 1) (target + 1)
  unfolding squeeze_pass
  squeeze_pass_keep c e n d = ground arith

-- `p` is written and `r` is still to read.
abbrev Passed : ℕ → ℕ → Bytes → Bytes → ℕ → ℕ → Bytes → Type 0
Passed fuel ch p r src target buf =
    (junk : Bytes) × (squeeze_pass fuel ch buf src target
      ≡ some (p ++ (filter (λ c. not (c == ch)) r ++ 0 ∷ junk)))

-- The write of a kept byte, over a stale one or over itself.
set-kept :
    (p g : Bytes) (c : ℕ) (rest : Bytes) (target : ℕ)
    → target ≡ length p
    → (g' : Bytes) × (set (p ++ (g ++ c ∷ rest)) target c ≡ (p ++ c ∷ []) ++ (g' ++ rest))
      × (length g' ≡ length g)
set-kept p [] c rest target t =
    ([], set-at p c rest target c t ∙ sym (append_assoc p (c ∷ []) rest), refl)
set-kept p (x ∷ g) c rest target t = (
  g ++ c ∷ [],
  set-at p x (g ++ c ∷ rest) target c t ∙ rw (append_assoc, append_assoc),
  omega (arith, length-append {0} g (c ∷ [])),
)

module _ (ch : ℕ) where
  eq_of : (c : ℕ) → (c == ch) ≡ true → c ≡ ch
  eq_of c e = ground arith

  ne_of : (c : ℕ) → (c == ch) ≡ false → c ≢ ch
  ne_of c e = ground arith

  -- The bytes `g` between the two indices are stale.
  squeeze_pass-filter :
      (r g p junk : Bytes) (fuel src target : ℕ)
      → target ≡ length p
      → src ≡ length p + length g
      → IsText r
      → length r < fuel
      → Passed fuel ch p r src target (p ++ (g ++ (r ++ 0 ∷ junk)))
  squeeze_pass-filter r g p junk zero src target t s h f = elim f [ ]
  squeeze_pass-filter [] [] p junk (suc fuel) src target t s h f = (
    junk,
    squeeze_pass_stop fuel ch src target _ (get_elem?-at₂ p [] 0 junk src s)
        ∙ ap some (set-at p 0 junk target 0 t),
  )
  squeeze_pass-filter [] (x ∷ g) p junk (suc fuel) src target t s h f = (
    g ++ 0 ∷ junk,
    squeeze_pass_stop fuel ch src target _ (get_elem?-at₂ p (x ∷ g) 0 junk src s)
        ∙ ap some (set-at p x (g ++ 0 ∷ junk) target 0 t),
  )
  squeeze_pass-filter (c ∷ r) g p junk (suc fuel) src target t s h f = elim (Bool-cases (c == ch)) [
    | inl e ↦
        let read = get_elem?-at₂ p g c (r ++ 0 ∷ junk) src s in
        let (junk', done) =
          squeeze_pass-filter r (g ++ c ∷ []) p junk fuel (src + 1) target t
            (omega (arith, length-append {0} g (c ∷ []))) h.1 (omega arith) in
        (
          junk',
          rw e (
              squeeze_pass_drop fuel ch src target _ (read ∙ ap some (eq_of c e))
                (λ z. h.0 (eq_of c e ∙ z))
              ∙ ap (λ b. squeeze_pass fuel ch (p ++ b) (src + 1) target)
                  (sym (append_assoc g (c ∷ []) (r ++ 0 ∷ junk)))
              ∙ done),
        )
    | inr e ↦
        let read = get_elem?-at₂ p g c (r ++ 0 ∷ junk) src s in
        let (g', written, same) = set-kept p g c (r ++ 0 ∷ junk) target t in
        let (junk', done) =
          squeeze_pass-filter r g' (p ++ c ∷ []) junk fuel (src + 1) (target + 1)
            (omega (arith, length-append {0} p (c ∷ [])))
            (omega (arith, length-append {0} p (c ∷ []))) h.1 (omega arith) in
        (
          junk',
          rw e (
              squeeze_pass_keep fuel ch src target _ c read h.0 (λ z. ne_of c e z)
              ∙ ap (λ b. squeeze_pass fuel ch b (src + 1) (target + 1)) written
              ∙ done
              ∙ ap some (append_assoc p (c ∷ []) _)),
        )
  ]

text_of-text : (s junk : Bytes) → IsText s → text_of (s ++ 0 ∷ junk) ≡ s
unfolding text_of
text_of-text [] junk h = refl
text_of-text (c ∷ s) junk h = ground (arith, text_of-text s junk h.1)

filter-IsText : (p : ℕ → Bool) (s : Bytes) → IsText s → IsText (filter p s)
filter-IsText p [] h = tt
filter-IsText p (c ∷ s) h = ground (arith, filter-IsText p s h.1)

-- What squeeze removes: the bytes that stand in `chars`.
abbrev pub squeezed : Bytes → Bytes → Bytes
squeezed chars = filter (λ c. not (elem c chars))

squeezed-nil : (s : Bytes) → squeezed [] s ≡ s
squeezed-nil [] = refl
squeezed-nil (c ∷ s) = ap (◌∷◌ c) (squeezed-nil s)

filter-squeezed :
    (ch : ℕ) (chars s : Bytes)
    → squeezed chars (filter (λ c. not (c == ch)) s) ≡ squeezed (ch ∷ chars) s
filter-squeezed ch chars [] = refl
filter-squeezed ch chars (c ∷ s) = ground (arith, filter-squeezed ch chars s)

squeeze-Holds :
    (chars s junk : Bytes)
    → IsText s
    → (junk' : Bytes) × (squeeze (s ++ 0 ∷ junk) chars ≡ some (squeezed chars s ++ 0 ∷ junk'))
unfolding squeeze
squeeze-Holds [] s junk h = (junk, ap (λ t. some (t ++ 0 ∷ junk)) (sym (squeezed-nil s)))
squeeze-Holds (ch ∷ chars) s junk h =
    let (junk₁, passed) =
      squeeze_pass-filter ch s [] [] junk (length (s ++ 0 ∷ junk)) 0 0 refl refl h
        (omega (arith, length-append {0} s (0 ∷ junk))) in
    let (junk₂, rest) =
      squeeze-Holds chars (filter (λ c. not (c == ch)) s) junk₁ (filter-IsText _ s h) in
    (
      junk₂,
      rw (passed, squeeze) (rest ∙ ap (λ t. some (t ++ 0 ∷ junk₂)) (filter-squeezed ch chars s)),
    )

-- squeeze on a buffer that holds a C string and anything behind its NUL reads and writes within the
-- buffer, and leaves the string without the bytes of `chars`, the others in order.
pub squeeze-eq-squeezed :
    (chars s junk : Bytes)
    → IsText s
    → Option.map text_of (squeeze (s ++ 0 ∷ junk) chars) ≡ some (squeezed chars s)
squeeze-eq-squeezed chars s junk h =
    let (junk', done) = squeeze-Holds chars s junk h in
    rw done (ap some (text_of-text (squeezed chars s) junk' (filter-IsText _ s h)))

pub squeeze_text-eq-squeezed :
    (s chars : Bytes) (w : World) → IsText s → squeeze_text s chars w ≡ ok (squeezed chars s) w
unfolding squeeze_text
squeeze_text-eq-squeezed s chars w h =
    let (junk', done) = squeeze-Holds chars s [] h in
    rw done (ap (λ t. ok t w) (text_of-text (squeezed chars s) junk' (filter-IsText _ s h)))
