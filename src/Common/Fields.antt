-- ===== src/Common/Fields.antt =====
-- The fields of a text, and strtok's way through them.
use cpslib.Prelude.{
  ℕ, zero, suc, ◌≡◌, ◌∙◌, refl, sym, ap, Bool-cases, inl, inr, Option, none, some, List, [], ◌∷◌,
  if◌then◌else◌, elem, get_elem?,
}
use cpslib.Libc.{Bytes, token, after_token, skip, strtok}
use cpslib.Common.{next_tokens}

-- A field in front of others, unless it is empty.
abbrev pub push : Bytes → List Bytes → List Bytes
push [] ws = ws
push (c ∷ w) ws = (c ∷ w) ∷ ws

-- The bytes in front of the first delimiter, and the fields behind it.
abbrev pub split : Bytes → Bytes → Bytes × List Bytes
split ds [] = ([], [])
split ds (c ∷ s) =
    let rest = split ds s in if elem c ds then ([], push rest.0 rest.1) else (c ∷ rest.0, rest.1)

-- The longest runs of bytes that are no delimiters, in order.
abbrev pub fields : Bytes → Bytes → List Bytes
fields ds s = push (split ds s).0 (split ds s).1

-- What strtok hands out, one token after the other.
abbrev pub front : List Bytes → Option Bytes
front [] = none
front (w ∷ ws) = some w

abbrev pub behind : List Bytes → List Bytes
behind [] = []
behind (w ∷ ws) = ws

split-token : (ds s : Bytes) → split ds s ≡ (token ds s, fields ds (after_token ds s))
unfolding token after_token
split-token ds [] = refl
split-token ds (c ∷ s) = elim (Bool-cases (elem c ds)) [
  | inl delimiter ↦ rw delimiter refl
  | inr other ↦ rw other (rw (split-token ds s) refl)
]

fields-skip : (ds s : Bytes) → fields ds (skip (λ c. elem c ds) s) ≡ fields ds s
unfolding skip
fields-skip ds [] = refl
fields-skip ds (c ∷ s) = elim (Bool-cases (elem c ds)) [
  | inl delimiter ↦ rw delimiter (fields-skip ds s)
  | inr other ↦ rw other (rw other refl)
]

pub strtok-front : (ds s : Bytes) → (strtok ds s).0 ≡ front (fields ds s)
unfolding strtok skip
strtok-front ds [] = refl
strtok-front ds (c ∷ s) = elim (Bool-cases (elem c ds)) [
  | inl delimiter ↦ rw delimiter (strtok-front ds s)
  | inr other ↦ rw other (rw (split-token ds s) refl)
]

-- Behind a token that is there, the fields behind the first are left.
pub strtok-behind : (ds s : Bytes) → fields ds (strtok ds s).1 ≡ behind (fields ds s)
unfolding strtok skip
strtok-behind ds [] = refl
strtok-behind ds (c ∷ s) = elim (Bool-cases (elem c ds)) [
  | inl delimiter ↦ rw delimiter (strtok-behind ds s)
  | inr other ↦ rw other (rw (split-token ds s) refl)
]

get_elem?-front : (ws : List Bytes) → get_elem? ws 0 ≡ front ws
get_elem?-front [] = refl
get_elem?-front (w ∷ ws) = refl

get_elem?-behind : (ws : List Bytes) (n : ℕ) → get_elem? (behind ws) n ≡ get_elem? ws (suc n)
get_elem?-behind [] n = refl
get_elem?-behind (w ∷ ws) n = refl

-- strtok called once with the text and `n` times with NULL returns the n-th field, counted from 0.
pub next_tokens-fields :
    (n : ℕ) (ds s : Bytes) → next_tokens n ds (strtok ds s) ≡ get_elem? (fields ds s) n
unfolding next_tokens
next_tokens-fields zero ds s = strtok-front ds s ∙ sym (get_elem?-front (fields ds s))
next_tokens-fields (suc n) ds s =
    next_tokens-fields n ds (strtok ds s).1
    ∙ ap (λ ws. get_elem? ws n) (strtok-behind ds s)
    ∙ get_elem?-behind (fields ds s) n
