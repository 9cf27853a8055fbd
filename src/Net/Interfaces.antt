-- ===== src/Net/Interfaces.antt =====
-- net_io_counters beside the lines of /proc/net/dev.
use cpslib.Prelude.{
  ℕ, zero, suc, ◌+◌, ◌≤◌, ◌<◌, ◌≡◌, ◌∙◌, refl, sym, ap, true, false, Option, some, List, [], ◌∷◌,
  ◌++◌, append_assoc, append-nil, arith, ltb, lt→ltb, length, length-append,
}
use cpslib.Libc.{Bytes, codes, strtok, fgets_all}
use cpslib.Machine.{
  World, ok, fault, Returns, Returns-map, Accounts, alloc_ok, calloc, free, fopen, fclose,
}
use cpslib.Os.{Os}
use cpslib.Net.{NetIoCounters, NetIoCounterInfo, column, net_line, net_lines, net_io_counters}

-- A line of an interface: its name and the eight numbers of its columns.
pub record Reads (l : Bytes) (c : NetIoCounters) : Type 0 where
  pub interface : Bytes
  pub rest : Bytes
  pub names : strtok (codes " \n:") l ≡ (some interface, rest)
  pub name : c.name ≡ some interface
  pub bytes_recv : column 0 rest ≡ some c.bytes_recv
  pub packets_recv : column 1 rest ≡ some c.packets_recv
  pub errin : column 2 rest ≡ some c.errin
  pub dropin : column 3 rest ≡ some c.dropin
  pub bytes_sent : column 8 rest ≡ some c.bytes_sent
  pub packets_sent : column 9 rest ≡ some c.packets_sent
  pub errout : column 10 rest ≡ some c.errout
  pub dropout : column 11 rest ≡ some c.dropout

abbrev pub AllRead : List Bytes → List NetIoCounters → Type 0
AllRead [] [] = Unit
AllRead [] (c ∷ cs) = ⊥
AllRead (l ∷ ls) [] = ⊥
AllRead (l ∷ ls) (c ∷ cs) = Reads l c × AllRead ls cs

net_line-Reads :
    (l : Bytes) (c : NetIoCounters) (w : World)
    → Reads l c
    → w.grants w.asked ≡ true
    → net_line l w ≡ ok c (alloc_ok w)
unfolding net_line calloc
net_line-Reads l c w r g = rw (r.names) (
    rw g (
      rw
        (
          r.bytes_recv, r.packets_recv, r.errin, r.dropin, r.bytes_sent, r.packets_sent, r.errout,
          r.dropout,
        )
        (rw (sym r.name) refl)))

abbrev info : List NetIoCounters → NetIoCounterInfo
info cs = record { nitems = length cs; iocounters = cs }

abbrev Result : List NetIoCounters → ℕ → World → Option NetIoCounterInfo → World → Type 0
Result cs up w r w' = (r ≡ some (info cs)) × Accounts w w' up 1 1

-- Behind the heading `i` is 2 or more, and `ltb i 2` is false.
net_lines_next :
    (i : ℕ) (done : List NetIoCounters) (l : Bytes) (c : NetIoCounters) (ls : List Bytes)
    (w : World)
    → ltb i 2 ≡ false
    → length done < 15
    → Reads l c
    → w.grants w.asked ≡ true
    → net_lines (some tt) i done (l ∷ ls) w ≡ net_lines (some tt) 4 (done ++ c ∷ []) ls (alloc_ok w)
unfolding net_lines
net_lines_next i done l c ls w past room r g =
    rw (past, lt→ltb (length done) 15 room) (rw (net_line-Reads l c w r g) refl)

net_lines-Result :
    (ls : List Bytes) (cs done : List NetIoCounters) (i : ℕ) (w : World)
    → ltb i 2 ≡ false
    → AllRead ls cs
    → length done + length cs ≤ 15
    → ((k : ℕ) → w.grants k ≡ true)
    → Returns (net_lines (some tt) i done ls w) (Result (done ++ cs) (length cs) w)
net_lines-Result [] [] done i w past r room g =
    unfold net_lines fclose free in
    (
      ap (λ l. some (info l)) (sym (append-nil done)),
      record { blocks = omega arith; streams = omega arith; grants = refl },
    )
net_lines-Result [] (c ∷ cs) done i w past r room g = absurd r
net_lines-Result (l ∷ ls) [] done i w past r room g = absurd r
net_lines-Result (l ∷ ls) (c ∷ cs) done i w past r room g =
    rw (net_lines_next i done l c ls w past (omega arith) r.0 (g w.asked)) (
      Returns-map {Q = Result (done ++ c ∷ cs) (length (c ∷ cs)) w} _
        (λ o w' h. (
          h.0 ∙ ap (λ l. some (info l)) (append_assoc done (c ∷ []) cs),
          record {
            blocks = omega (arith, h.1.blocks);
            streams = omega (arith, h.1.streams);
            grants = h.1.grants;
          },
        ))
        (net_lines-Result ls cs (done ++ c ∷ []) 4 (alloc_ok w) refl r.1
          (omega (arith, length-append {0} done (c ∷ []))) g))

net_lines_overflow :
    (ls : List Bytes) (cs done : List NetIoCounters) (i k : ℕ) (w : World)
    → ltb i 2 ≡ false
    → AllRead ls cs
    → length done + k ≡ 15
    → k < length cs
    → ((n : ℕ) → w.grants n ≡ true)
    → net_lines (some tt) i done ls w ≡ fault
net_lines_overflow [] [] done i k w past r full more g = absurd (omega arith)
net_lines_overflow [] (c ∷ cs) done i k w past r full more g = absurd r
net_lines_overflow (l ∷ ls) [] done i k w past r full more g = absurd r
net_lines_overflow (l ∷ ls) (c ∷ cs) done i zero w past r full more g =
    let past_end : ltb (length done) 15 ≡ false = ground arith in
    unfold net_lines in rw past (rw past_end refl)
net_lines_overflow (l ∷ ls) (c ∷ cs) done i (suc k) w past r full more g =
    rw (net_lines_next i done l c ls w past (omega arith) r.0 (g w.asked)) (
      net_lines_overflow ls cs (done ++ c ∷ []) 4 k (alloc_ok w) refl r.1
        (omega (arith, length-append {0} done (c ∷ []))) (omega arith) g)

module _ (os : Os) (file first second : Bytes) (ls : List Bytes) (cs : List NetIoCounters)
    (w : World) where
  abbrev in_loop : World
  in_loop = record (alloc_ok (alloc_ok (alloc_ok w))) { opened = w.opened + 1 }

  net_io_counters_start :
      os.file (codes "/proc/net/dev") ≡ some file
      → fgets_all 150 file ≡ first ∷ second ∷ ls
      → ((k : ℕ) → w.grants k ≡ true)
      → net_io_counters os w ≡ net_lines (some tt) (0 + 1 + 1) [] ls in_loop
  unfolding net_io_counters calloc fopen net_lines
  net_io_counters_start f e g =
      rw (g w.asked) (rw (g (w.asked + 1)) (rw (g (w.asked + 1 + 1)) (rw (f, fopen) (rw e refl))))

  abbrev pub Interfaces : Option NetIoCounterInfo → World → Type 0
  Interfaces r w' =
      (r ≡ some (record { nitems = length cs; iocounters = cs }))
      × Accounts w w' (length cs + 2) 0 0

  -- With memory granted and at most fifteen lines behind the two of the heading, each with a name and
  -- numbers, net_io_counters returns the name and the numbers of each line in order. The live blocks are the
  -- result's, and the stream is closed.
  pub net_io_counters-Interfaces :
      os.file (codes "/proc/net/dev") ≡ some file
      → fgets_all 150 file ≡ first ∷ second ∷ ls
      → ((k : ℕ) → w.grants k ≡ true)
      → AllRead ls cs
      → length cs ≤ 15
      → Returns (net_io_counters os w) Interfaces
  net_io_counters-Interfaces f e g r room = rw (net_io_counters_start f e g) (
      Returns-map {Q = Interfaces} _
        (λ o w' h. (
          h.0,
          record {
            blocks = omega (arith, h.1.blocks);
            streams = omega (arith, h.1.streams);
            grants = h.1.grants;
          },
        ))
        (net_lines-Result ls cs [] (0 + 1 + 1) in_loop refl r (omega arith) g))

  -- Where /proc/net/dev opens, memory is granted, and behind the two lines of the heading come more than
  -- fifteen lines, each with a name and numbers, net_io_counters writes past the end of its array.
  pub net_io_counters_overflow :
      os.file (codes "/proc/net/dev") ≡ some file
      → fgets_all 150 file ≡ first ∷ second ∷ ls
      → ((k : ℕ) → w.grants k ≡ true)
      → AllRead ls cs
      → 15 < length cs
      → net_io_counters os w ≡ fault
  net_io_counters_overflow f e g r many =
      rw (net_io_counters_start f e g)
        (net_lines_overflow ls cs [] (0 + 1 + 1) 15 in_loop refl r refl many g)
