-- ===== src/Users/Logins.antt =====
-- get_users beside the login records, memory granted or not.
use mathlib.Core.List.{map-append}
use cpslib.Prelude.{
  ℕ, suc, ◌+◌, ◌*◌, ◌≤◌, ◌<◌, ◌^◌, ◌≡◌, ◌⊎◌, inl, inr, ◌∙◌, refl, sym, ap, Bool, true, false,
  Option, none, some, List, [], ◌∷◌, ◌++◌, map, append_assoc, append-nil, arith, lt→ltb, ◌==◌,
  length, length-append, Bool-cases, filter, u32,
}
use cpslib.Floats.{Floats}
use cpslib.Machine.{World, M, Returns, Returns-map, Accounts, alloc_ok, calloc, realloc}
use cpslib.Os.{Os, Utmp, user_process}
use cpslib.Users.{
  UsersInfo, Seats, free_each, free_users_info, users_error, grow_users, add_user, utmp_entries,
  get_users,
}
use cpslib.Users.Freeing.{user_of, users_of, seats, users_error-Accounts}

-- A request for memory was refused, and of `held` blocks more than `most` did not stay live.
pub record Refused (w w' : World) (held most : ℕ) : Type 0 where
  pub refusal : (k : ℕ) × (w.grants k ≡ false)
  pub at_least : w.allocated + w'.freed ≤ w'.allocated + w.freed + held
  pub at_most : w'.allocated + w.freed + held ≤ w.allocated + w'.freed + most

module _ {F D : Type 0} (fl : Floats F D) where
  -- The loop returns all records with the new ones in their place, or it fails.
  abbrev Outcome : List Utmp → List Utmp → World → Option (UsersInfo F) → World → Type 0
  Outcome done new w r w' =
      ((r ≡ some (users_of fl (done ++ new))) × Accounts w w' (3 * length new) 0 0)
      ⊎ ((r ≡ none) × Refused w w' (3 * length done + 2) 2)

  -- The jump to the label `error` with some texts of the next element copied.
  fails :
      (done new : List Utmp) (w w₁ : World) (copied k : ℕ)
      → copied ≤ 2
      → w.grants k ≡ false
      → w₁.allocated + w.freed ≡ w.allocated + w₁.freed + copied
      → Returns (users_error (some (users_of fl done)) w₁) (Outcome done new w)
  fails done new w w₁ copied k c g a =
      Returns-map {Q = Outcome done new w} _
        (λ r w' h. inr (
          h.0,
          record {
            refusal = (k, g);
            at_least = omega (arith, h.1.blocks);
            at_most = omega (arith, h.1.blocks);
          },
        ))
        (users_error-Accounts fl done w₁)

  -- What the loop does behind one more element is what it does before it.
  later :
      (ut : Utmp) (done new : List Utmp) (w₀ w : World)
      → Accounts w₀ w 3 0 0
      → (r : Option (UsersInfo F)) (w' : World) → Outcome (done ++ ut ∷ []) new w r w'
      → Outcome done (ut ∷ new) w₀ r w'
  later ut done new w₀ w a r w' (inl h) = inl (
    h.0 ∙ ap (λ l. some (users_of fl l)) (append_assoc done (ut ∷ []) new),
    record {
      blocks = omega (arith, a.blocks, h.1.blocks);
      streams = omega (arith, a.streams, h.1.streams);
      grants = h.1.grants ∙ a.grants;
    },
  )
  later ut done new w₀ w a r w' (inr h) =
      let len = length-append {0} done (ut ∷ []) in
      inr (
        h.0,
        record {
          refusal = (
            h.1.refusal.0,
            ap (λ (g : ℕ → Bool). g h.1.refusal.0) (sym a.grants) ∙ h.1.refusal.1,
          );
          at_least = omega (arith, a.blocks, h.1.at_least, len);
          at_most = omega (arith, a.blocks, h.1.at_most, len);
        },
      )

  length-users : (uts : List Utmp) → length (map (user_of fl) uts) ≡ length uts
  length-users [] = refl
  length-users (u ∷ us) = ap suc (length-users us)

  module _ (loop : Seats F → M (Option (UsersInfo F))) (ut : Utmp) (new done : List Utmp) (n : ℕ)
      (room : length done < n) (tight : n ≤ 2 * length done + 100)
      (small : length done + 1 < 2 ^ 31)
      (loops : (m : ℕ) (w : World)
        → length (done ++ ut ∷ []) < m
        → m ≤ 2 * length (done ++ ut ∷ []) + 100
        → Returns (loop (seats fl m (done ++ ut ∷ [])) w) (Outcome (done ++ ut ∷ []) new w)) where
    abbrev grown : Seats F
    grown = record {
      nusers = n;
      nitems = u32 (length done + 1);
      items = map (user_of fl) done ++ user_of fl ut ∷ [];
    }

    grown-seats : grown ≡ seats fl n (done ++ ut ∷ [])
    grown-seats =
        let wrap : u32 (length done + 1) ≡ length (done ++ ut ∷ []) =
          omega (arith, length-append {0} done (ut ∷ [])) in
        rw (wrap, map-append (user_of fl) done (ut ∷ [])) refl

    grow_users-Outcome :
        (w₀ w : World)
        → Accounts w₀ w 3 0 0
        → Returns (grow_users fl loop (seats fl n (done ++ ut ∷ [])) w) (Outcome done (ut ∷ new) w₀)
    unfolding grow_users realloc
    grow_users-Outcome w₀ w a =
        let len : length (done ++ ut ∷ []) ≡ length done + 1 = length-append {0} done (ut ∷ []) in
        elim (Bool-cases (length (done ++ ut ∷ []) == n)) [
          | inl full ↦ elim (Bool-cases (w.grants w.asked)) [
            | inl g ↦
                let e : length (done ++ ut ∷ []) ≡ n = ground arith in
                let wrap : u32 (n * 2) ≡ n * 2 = omega arith in
                let w₁ = record w { asked = w.asked + 1 } in
                rw (full, g)
                  (rw wrap (
                    Returns-map {Q = Outcome done (ut ∷ new) w₀} _
                      (later ut done new w₀ w₁
                        (record { blocks = a.blocks; streams = a.streams; grants = a.grants }))
                      (loops (n * 2) w₁ (omega arith) (omega arith))))
            | inr b ↦
                rw (full, b)
                  (Returns-map {Q = Outcome done (ut ∷ new) w₀} _
                    (λ r w' h. inr (
                      h.0,
                      record {
                        refusal = (w.asked, ap (λ (g : ℕ → Bool). g w.asked) (sym a.grants) ∙ b);
                        at_least = omega (arith, h.1.blocks, a.blocks, len);
                        at_most = omega (arith, h.1.blocks, a.blocks, len);
                      },
                    ))
                    (users_error-Accounts fl (done ++ ut ∷ []) _))
          ]
          | inr spare ↦ rw spare (
              Returns-map {Q = Outcome done (ut ∷ new) w₀} _ (later ut done new w₀ w a)
                (loops n w (ground arith) (omega arith)))
        ]

    add_user-Outcome :
        (w : World) → Returns (add_user fl loop ut (seats fl n done) w) (Outcome done (ut ∷ new) w)
    unfolding add_user calloc
    add_user-Outcome w =
        rw (lt→ltb (length (map (user_of fl) done)) n (omega (arith, length-users done)))
          (elim (Bool-cases (w.grants w.asked)) [
            | inr b ↦ rw b (fails done (ut ∷ new) w _ 0 w.asked (omega arith) b (omega arith))
            | inl g ↦ rw g (elim (Bool-cases (w.grants (w.asked + 1))) [
              | inr b ↦
                  rw b (fails done (ut ∷ new) w _ 1 (w.asked + 1) (omega arith) b (omega arith))
              | inl g' ↦ rw g' (elim (Bool-cases (w.grants (w.asked + 1 + 1))) [
                | inr b ↦
                    rw b
                      (fails done (ut ∷ new) w _ 2 (w.asked + 1 + 1) (omega arith) b (omega arith))
                | inl g'' ↦ rw g'' (
                    rw grown-seats (
                      grow_users-Outcome w _
                        (record { blocks = omega arith; streams = omega arith; grants = refl })))
              ])
            ])
          ])

  abbrev pub is_login : Utmp → Bool
  is_login ut = ut.ut_type == user_process

  utmp_entries-Outcome :
      (uts done : List Utmp) (n : ℕ) (w : World)
      → length done < n
      → n ≤ 2 * length done + 100
      → length done + length uts < 2 ^ 31
      → Returns (utmp_entries fl uts (seats fl n done) w) (Outcome done (filter is_login uts) w)
  unfolding utmp_entries
  utmp_entries-Outcome [] done n w room tight small = inl (
    ap (λ l. some (users_of fl l)) (sym (append-nil done)),
    record { blocks = omega arith; streams = omega arith; grants = refl },
  )
  utmp_entries-Outcome (ut ∷ uts) done n w room tight small =
      elim (Bool-cases (ut.ut_type == user_process)) [
        | inl good ↦ rw good (
            add_user-Outcome (utmp_entries fl uts) ut (filter is_login uts) done n room tight
              (omega arith)
              (λ m w' r t.
                utmp_entries-Outcome uts (done ++ ut ∷ []) m w' r t
                  (omega (arith, length-append {0} done (ut ∷ []))))
              w)
        | inr other ↦ rw other (utmp_entries-Outcome uts done n w room tight (omega arith))
      ]

  module _ (os : Os) (w : World) where
    abbrev pub logins : List Utmp
    logins = filter is_login os.logins

    abbrev pub UsersOutcome : Option (UsersInfo F) → World → Type 0
    UsersOutcome r w' =
        ((r ≡ some (users_of fl logins)) × Accounts w w' (3 * length logins + 2) 0 0)
        ⊎ ((r ≡ none) × Refused w w' 0 2)

    started :
        (r : Option (UsersInfo F)) (w' : World)
        → Outcome [] logins (alloc_ok (alloc_ok w)) r w'
        → UsersOutcome r w'
    started r w' (inl h) = inl (
      h.0,
      record {
        blocks = omega (arith, h.1.blocks);
        streams = omega (arith, h.1.streams);
        grants = h.1.grants;
      },
    )
    started r w' (inr h) = inr (
      h.0,
      record {
        refusal = h.1.refusal;
        at_least = omega (arith, h.1.at_least);
        at_most = omega (arith, h.1.at_most);
      },
    )

    -- With fewer than 2^31 login records and memory for the result itself, get_users always returns. It
    -- returns the USER_PROCESS records in order, with as many blocks as free_users_info frees; or NULL,
    -- and then a request for memory was refused, and at most two blocks are left behind: the texts of the
    -- element that it was filling.
    pub get_users-Outcome :
        w.grants w.asked ≡ true
        → length os.logins < 2 ^ 31
        → Returns (get_users fl os w) UsersOutcome
    unfolding get_users calloc users_error free_users_info free_each
    get_users-Outcome g small = elim (Bool-cases (w.grants (w.asked + 1))) [
      | inr b ↦
          rw (g, b)
            (inr (
              refl,
              record { refusal = (w.asked + 1, b); at_least = omega arith; at_most = omega arith },
            ))
      | inl g' ↦
          rw (g, g')
            (Returns-map {Q = UsersOutcome} _ started
              (utmp_entries-Outcome os.logins [] 100 _ (omega arith) (omega arith) (omega arith)))
    ]
