-- ===== src/Osx/Net/Messages.antt =====
-- net_io_counters of the macOS port beside the messages of the routing socket.
use cpslib.Prelude.{
  ℕ, ◌+◌, ◌≤◌, ◌<◌, ◌≡◌, ◌∙◌, refl, sym, ap, arith, inl, inr, Bool, true, false, Bool-cases, Option,
  some, List, [], ◌∷◌, ◌++◌, map, append-nil, append_assoc, filter, length, length-append, lt→ltb,
  if◌then◌else◌, All,
}
use cpslib.Common.{text_of}
use cpslib.Machine.{World, Returns, Returns-map, Returns-bind, Accounts, alloc_ok, calloc}
use cpslib.Net.{NetIoCounters, NetIoCounterInfo}
use cpslib.Osx.Host.{Host, IfMessage}
use cpslib.Osx.Net.{counters_of, messages, net_io_counters}

-- The name is the bytes of the message up to a NUL, and dropout is not counted.
abbrev pub described : IfMessage → NetIoCounters
described ifm = record {
  name = some (text_of ifm.sdl_data);
  bytes_sent = ifm.ifi_obytes;
  bytes_recv = ifm.ifi_ibytes;
  packets_sent = ifm.ifi_opackets;
  packets_recv = ifm.ifi_ipackets;
  errin = ifm.ifi_ierrors;
  errout = ifm.ifi_oerrors;
  dropin = ifm.ifi_iqdrops;
  dropout = 0;
}

abbrev pub interfaces_in : List IfMessage → List IfMessage
interfaces_in = filter (λ ifm. ifm.is_ifinfo2)

chosen_if :
    (ifm : IfMessage) (ifms : List IfMessage) {b : Bool}
    → ifm.is_ifinfo2 ≡ b
    → interfaces_in (ifm ∷ ifms) ≡ (if b then ifm ∷ interfaces_in ifms else interfaces_in ifms)
chosen_if ifm ifms e = ap (λ b. if b then ifm ∷ interfaces_in ifms else interfaces_in ifms) e

abbrev Read : List NetIoCounters → List IfMessage → World → List NetIoCounters → World → Type 0
Read done ifms w r w' =
    (r ≡ done ++ map described (interfaces_in ifms))
    × Accounts w w' (length (interfaces_in ifms)) 0 0

messages_other :
    (ifm : IfMessage) (ifms : List IfMessage) (done : List NetIoCounters) (w : World)
    → ifm.is_ifinfo2 ≡ false
    → messages done (ifm ∷ ifms) w ≡ messages done ifms w
unfolding messages
messages_other ifm ifms done w e = rw e refl

messages_one :
    (ifm : IfMessage) (ifms : List IfMessage) (done : List NetIoCounters) (w : World)
    → ifm.is_ifinfo2 ≡ true
    → length ifm.sdl_data < 32
    → length done < 15
    → w.grants w.asked ≡ true
    → messages done (ifm ∷ ifms) w ≡ messages (done ++ described ifm ∷ []) ifms (alloc_ok w)
unfolding messages counters_of calloc
messages_one ifm ifms done w e short room g =
    rw (e, lt→ltb (length ifm.sdl_data) 32 short, lt→ltb (length done) 15 room) (rw g refl)

-- The loop with memory granted, names that fit and few interfaces.
messages-Read :
    (ifms : List IfMessage) (done : List NetIoCounters) (w : World)
    → All (λ (ifm : IfMessage). length ifm.sdl_data < 32) ifms
    → length done + length (interfaces_in ifms) ≤ 15
    → ((k : ℕ) → w.grants k ≡ true)
    → Returns (messages done ifms w) (Read done ifms w)
unfolding messages
messages-Read [] done w short room g =
    (sym (append-nil done), record { blocks = omega arith; streams = omega arith; grants = refl })
messages-Read (ifm ∷ ifms) done w short room g = elim (Bool-cases ifm.is_ifinfo2) [
  | inr other ↦
      let e = chosen_if ifm ifms other in
      rw (messages_other ifm ifms done w other) (
        Returns-map {Q = Read done (ifm ∷ ifms) w} _
          (λ r w' h. (
            h.0 ∙ ap (λ l. done ++ map described l) (sym e),
            record {
              blocks = omega (arith, h.1.blocks, ap length e);
              streams = h.1.streams;
              grants = h.1.grants;
            },
          ))
          (messages-Read ifms done w short.1 (omega (arith, room, ap length e)) g))
  | inl one ↦
      let e = chosen_if ifm ifms one in
      rw (messages_one ifm ifms done w one short.0 (omega (arith, room, ap length e)) (g w.asked)) (
        Returns-map {Q = Read done (ifm ∷ ifms) w} _
          (λ r w' h. (
            h.0
                ∙ append_assoc done (described ifm ∷ []) (map described (interfaces_in ifms))
                ∙ ap (λ l. done ++ map described l) (sym e),
            record {
              blocks = omega (arith, h.1.blocks, ap length e);
              streams = h.1.streams;
              grants = h.1.grants;
            },
          ))
          (messages-Read ifms (done ++ described ifm ∷ []) (alloc_ok w) short.1
            (omega (arith, room, ap length e, length-append {0} done (described ifm ∷ []))) g))
]

module _ (host : Host) (len : ℕ) (ifms : List IfMessage) (w : World) where
  abbrev pub Described : Option NetIoCounterInfo → World → Type 0
  Described r w' =
      let counters = map described (interfaces_in ifms) in
      (r ≡ some (record { nitems = length counters; iocounters = counters }))
      × Accounts w w' (length (interfaces_in ifms) + 2) 0 0

  -- On macOS, where memory is granted and the routing socket reports at most fifteen interfaces, with names of
  -- fewer than 32 bytes in all messages, net_io_counters returns the name and the numbers of each interface in order,
  -- and the live blocks are the result's.
  pub net_io_counters-Described :
      host.iflist_size ≡ some len
      → host.iflist ≡ some ifms
      → ((k : ℕ) → w.grants k ≡ true)
      → All (λ (ifm : IfMessage). length ifm.sdl_data < 32) ifms
      → length (interfaces_in ifms) ≤ 15
      → Returns (net_io_counters host w) Described
  unfolding net_io_counters calloc
  net_io_counters-Described l i g short few = rw (g w.asked) (
      rw (g (w.asked + 1)) (
        rw (l, g (w.asked + 1 + 1))
          (rw i (
            Returns-bind (Read [] ifms (alloc_ok (alloc_ok (alloc_ok w)))) Described
              (messages [] ifms (alloc_ok (alloc_ok (alloc_ok w)))) _
              (λ r w₁ h. rw (h.0) (
                refl,
                record {
                  blocks = omega (arith, h.1.blocks);
                  streams = h.1.streams;
                  grants = h.1.grants;
                },
              ))
              (messages-Read ifms [] (alloc_ok (alloc_ok (alloc_ok w))) short (omega arith) g)))))
