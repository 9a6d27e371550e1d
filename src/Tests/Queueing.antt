-- ===== src/Tests/Queueing.antt =====
-- Packets through small queues.
use short_message.Prelude.{◌≡◌, refl, List, [], ◌∷◌, true, false, none, some, replicate, arith}
use short_message.Prelude.Int.{ℤ}
use short_message.Machine.{ok}
use short_message.Fifo.{
  FifoQueue, init, push_packet, pop_packet, place, next_packet, store, load, load16,
  peek_next_pack_len, update, move_back,
}
use short_message.Fifo.Empty.{IsEmpty, Passes, push_packet-Passes}
use short_message.Fifo.Queue.{Call, push, pop, pushed, popped, run, serve, accepts}
use short_message.Fifo.Refine.{run-init}
use short_message.Fifo.Received.{IsReceived, Given, update-Given}
use short_message.Fifo.Overlap.{peek-push_packet_overlaps}

-- Nine bytes, with both positions at 6: a packet of three bytes goes to the start.
abbrev nine : FifoQueue
nine = record {
  buffer = replicate 9 0;
  read_pos = 6;
  write_pos = 6;
  read_bytes = 6;
  write_bytes = 6;
  buf_size = 9;
}

nine-IsEmpty : IsEmpty nine
nine-IsEmpty = record {
  positions = refl;
  counters = refl;
  far = omega arith;
  size = refl;
  bounds = omega arith;
  small = omega arith;
}

push_packet-Passes_example : Passes nine (1 ∷ 2 ∷ 3 ∷ [])
push_packet-Passes_example =
    push_packet-Passes nine (1 ∷ 2 ∷ 3 ∷ []) nine-IsEmpty (omega arith) (omega arith) (omega arith)

-- Six bytes, with both positions at 3.
abbrev six : FifoQueue
six = record {
  buffer = replicate 6 0;
  read_pos = 3;
  write_pos = 3;
  read_bytes = 3;
  write_bytes = 3;
  buf_size = 6;
}

six-IsEmpty : IsEmpty six
six-IsEmpty = record {
  positions = refl;
  counters = refl;
  far = omega arith;
  size = refl;
  bounds = omega arith;
  small = omega arith;
}

-- The packet 5 7 is read as one of seven bytes.
peek-push_packet_overlaps_example :
    (full : FifoQueue) × (push_packet (5 ∷ 7 ∷ []) six ≡ ok (true, full))
    × (peek_next_pack_len full ≡ ok (7, full))
peek-push_packet_overlaps_example =
    peek-push_packet_overlaps six (5 ∷ []) 7 six-IsEmpty (omega arith) (omega arith) (omega arith)
      refl refl

-- Packets of three bytes in a ring of twenty: the fourth is refused, and the fifth goes to the start.
abbrev calls : List Call
calls =
    push (1 ∷ 2 ∷ 3 ∷ [])
    ∷ push (4 ∷ 5 ∷ 6 ∷ [])
    ∷ push (7 ∷ 8 ∷ 9 ∷ [])
    ∷ push (1 ∷ 1 ∷ 1 ∷ [])
    ∷ pop
    ∷ pop
    ∷ push (2 ∷ 2 ∷ 2 ∷ [])
    ∷ push (3 ∷ 3 ∷ 3 ∷ [])
    ∷ pop
    ∷ pop
    ∷ pop
    ∷ pop
    ∷ []

run-init_example :
    run (init (replicate 20 0)) calls
    ≡ ok (
        pushed true
        ∷ pushed true
        ∷ pushed true
        ∷ pushed false
        ∷ popped (some (1 ∷ 2 ∷ 3 ∷ []))
        ∷ popped (some (4 ∷ 5 ∷ 6 ∷ []))
        ∷ pushed true
        ∷ pushed true
        ∷ popped (some (7 ∷ 8 ∷ 9 ∷ []))
        ∷ popped (some (2 ∷ 2 ∷ 2 ∷ []))
        ∷ popped (some (3 ∷ 3 ∷ 3 ∷ []))
        ∷ popped none
        ∷ [])
unfolding serve accepts
run-init_example =
    run-init (replicate 20 0) 3 calls (omega arith) (omega arith) (omega arith) (omega arith)
      (refl, (refl, (refl, (refl, (tt, (tt, (refl, (refl, (tt, (tt, (tt, (tt, tt))))))))))))
      (omega arith)

-- With packets of two lengths the ring is no queue: the packet of one byte is put on the mark that
-- shows where the rest of the buffer is unused, and is read before the packet that was put in first.
mixed_lengths :
    run
      (init (replicate 21 0))
      (push (replicate 9 1) ∷ pop ∷ push (replicate 9 2) ∷ push (5 ∷ []) ∷ pop ∷ [])
    ≡ ok (
        pushed true
        ∷ popped (some (replicate 9 1))
        ∷ pushed true
        ∷ pushed true
        ∷ popped (some (5 ∷ []))
        ∷ [])
unfolding run push_packet pop_packet place next_packet store load load16
mixed_lengths = refl

-- "ab" has been received behind two bytes for its length, in a buffer of nine.
abbrev receiving : FifoQueue
receiving = record {
  buffer = 0 ∷ 7 ∷ 7 ∷ 97 ∷ 98 ∷ 7 ∷ 7 ∷ 7 ∷ 7 ∷ [];
  read_pos = 1;
  write_pos = 0;
  read_bytes = 4;
  write_bytes = 4;
  buf_size = 9;
}

receiving-IsReceived : IsReceived receiving (97 ∷ 98 ∷ []) 3
receiving-IsReceived = record {
  a = 0 ∷ [];
  m = 7 ∷ 7 ∷ [];
  b = 7 ∷ 7 ∷ 7 ∷ 7 ∷ [];
  parts = refl;
  size_m = refl;
  before = refl;
  reads = refl;
  counters = refl;
  far = omega arith;
  size = refl;
  small = omega arith;
}

update-Given_example : Given receiving (97 ∷ 98 ∷ []) 3
update-Given_example =
    update-Given receiving (97 ∷ 98 ∷ []) 3 receiving-IsReceived (omega arith) (omega arith)
      (omega arith)

-- A length of -1 is written as 65535, and moves the position on by one.
moves_back : ((s : FifoQueue) × (update 3 (ℤ.negsuc 0) receiving ≡ ok (true, 4, s)))
unfolding update store move_back
moves_back = (_, refl)
