-- ===== src/Net/Freeing.antt =====
-- free_net_iocounter_info: the blocks it frees.
use cpslib.Prelude.{ℕ, ◌+◌, refl, List, [], ◌∷◌, arith, length}
use cpslib.Machine.{
  owned, World, Returns, Returns-map, Returns-bind, Accounts, freed_more, free_lem,
}
use cpslib.Net.{NetIoCounters, free_names, free_net_iocounter_info}

-- The names of an array that are blocks.
abbrev pub all_names : List NetIoCounters → ℕ
all_names [] = 0
all_names (c ∷ cs) = owned c.name + all_names cs

free_names-Accounts :
    (cs : List NetIoCounters) (w : World)
    → Returns (free_names (length cs) cs w) (λ _ w'. Accounts w w' 0 (all_names cs) 0)
unfolding free_names
free_names-Accounts [] w = record { blocks = omega arith; streams = omega arith; grants = refl }
free_names-Accounts (c ∷ cs) w =
    let w₁ = freed_more (owned c.name) w in
    rw (free_lem c.name w) (
      Returns-map (free_names (length cs) cs w₁)
        (λ _ w' h. record {
          blocks = omega (arith, h.blocks);
          streams = omega (arith, h.streams);
          grants = h.grants;
        })
        (free_names-Accounts cs w₁))

-- free_net_iocounter_info on a result with as many elements as it counts frees the names that are blocks, the
-- array and the result.
pub free_net_iocounter_info-Accounts :
    (cs : List NetIoCounters) (w : World)
    → Returns
        (free_net_iocounter_info (record { nitems = length cs; iocounters = cs }) w)
        (λ _ w'. Accounts w w' 0 (all_names cs + 2) 0)
unfolding free_net_iocounter_info
free_net_iocounter_info-Accounts cs w =
    Returns-bind (λ _ w'. Accounts w w' 0 (all_names cs) 0) _ (free_names (length cs) cs w) _
      (λ _ w' h. record {
        blocks = omega (arith, h.blocks);
        streams = omega (arith, h.streams);
        grants = h.grants;
      })
      (free_names-Accounts cs w)
