-- ===== src/Osx/Net.antt =====
-- net_io_counters of pslib_osx.c: the messages of the routing socket in an array of fifteen elements.
pub mod Messages
use cpslib.Prelude.{ℕ, Option, none, some, List, [], ◌∷◌, ◌++◌, ltb, if◌then◌else◌, length}
use cpslib.Common.{text_of}
use cpslib.Machine.{M, pure, crash, buffer, strdup, free, free_block, check_ptr, ◌>>=◌, ◌>>◌}
use cpslib.Net.{NetIoCounters, NetIoCounterInfo}
use cpslib.Osx.Host.{Host, IfMessage}

-- The element of a message, its name copied or NULL.
unfoldable pub counters_of : IfMessage → Option (List ℕ) → NetIoCounters
counters_of if2m name = record {
  name = name;
  bytes_sent = if2m.ifi_obytes;
  bytes_recv = if2m.ifi_ibytes;
  packets_sent = if2m.ifi_opackets;
  packets_recv = if2m.ifi_ipackets;
  errin = if2m.ifi_ierrors;
  errout = if2m.ifi_oerrors;
  dropin = if2m.ifi_iqdrops;
  dropout = 0;
}

-- The loop over the messages with the elements so far: ifc_name has 32 bytes, the array 15 elements.
unfoldable pub messages : List NetIoCounters → List IfMessage → M (List NetIoCounters)
unfolding counters_of
messages counters [] = pure counters
messages counters (ifm ∷ ifms) =
    let next = λ (more : List NetIoCounters). messages more ifms in
    if ifm.is_ifinfo2
    then (if ltb (length ifm.sdl_data) 32
        then (if ltb (length counters) 15
            then (do
              name ← strdup (text_of ifm.sdl_data)
              next (counters ++ counters_of ifm name ∷ []))
            else crash)
        else crash)
    else next counters

-- The code below the label `error` once `nc` points at the block of `counters`, which is freed twice.
unfoldable pub double_free : M (Option NetIoCounterInfo)
double_free = crash

-- In front of that `nc` is NULL, and the block of `ret` stays.
unfoldable pub net_io_counters : Host → M (Option NetIoCounterInfo)
unfolding messages double_free
net_io_counters host = do
  ret ← buffer
  counters ← buffer
  check_ptr ret (do free counters; pure none)
      λ _. do
        check_ptr counters (do free counters; pure none)
            λ _. do
              check_ptr host.iflist_size double_free λ len. do
                buf ← buffer
                check_ptr buf double_free λ _. do
                  check_ptr host.iflist double_free λ ifms. do
                    read ← messages [] ifms
                    free_block
                    pure (some (record { nitems = length read; iocounters = read }))
