-- ===== src/Session/Release.antt =====
-- The end of a session: the client gives back all that it holds.
use cpslib.Prelude.{ℕ, ◌≡◌, ◌∙◌, refl, arith, true, List, [], ◌∷◌, All}
use cpslib.Machine.{World, Returns, Returns-map, Returns-bind, Accounts, Balanced}
use cpslib.Floats.{Floats}
use cpslib.Session.{Held, release, release_all, Session, Reach}
use cpslib.Session.Invariant.{blocks_of, IsWhole, total, release-Accounts}
use cpslib.Session.Steps.{Reach-IsSound}

module _ {F D : Type 0} (fl : Floats F D) where
  release_all-Accounts :
      (hs : List (Held fl)) (w : World)
      → All (IsWhole fl) hs
      → Returns (release_all fl hs w) (λ _ w'. Accounts w w' 0 (total fl hs) 0)
  unfolding release_all
  release_all-Accounts [] w whole = record {
    blocks = omega arith;
    streams = omega arith;
    grants = refl;
  }
  release_all-Accounts (h ∷ hs) w whole =
      Returns-bind (λ _ w'. Accounts w w' 0 (blocks_of fl h) 0)
        (λ _ w'. Accounts w w' 0 (total fl (h ∷ hs)) 0) (release fl h w) _
        (λ _ w₁ a.
          Returns-map {Q = λ _ w'. Accounts w w' 0 (total fl (h ∷ hs)) 0} _
            (λ _ w' b. record {
              blocks = omega (arith, a.blocks, b.blocks);
              streams = omega (arith, a.streams, b.streams);
              grants = b.grants ∙ a.grants;
            })
            (release_all-Accounts hs w₁ whole.1))
        (release-Accounts fl h w whole.0)

  -- A client that starts with nothing, where memory is granted, and then makes any calls of a session (it
  -- frees what it holds, or gets a list while the files for it are in order: they open, their lines read, and
  -- there are no more of them than the arrays hold) can give back all that it holds: each function that frees
  -- returns, and behind the last one no block and no stream that was got since the start is left.
  pub release_all-Balanced :
      (w₀ : World) (t : Session fl)
      → ((k : ℕ) → w₀.grants k ≡ true)
      → Reach fl (record { held = []; world = w₀ }) t
      → Returns (release_all fl t.held t.world) (λ _ w'. Balanced w₀ w' 0)
  release_all-Balanced w₀ t g r =
      let sound = Reach-IsSound fl w₀ t g r in
      Returns-map {Q = λ _ w'. Balanced w₀ w' 0} _
        (λ _ w' a. record {
          blocks = omega (arith, sound.blocks, a.blocks);
          streams = omega (arith, sound.streams, a.streams);
        })
        (release_all-Accounts t.held t.world sound.whole)
