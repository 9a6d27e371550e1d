-- ===== src/Fifo/Queue.antt =====
-- A client's calls of the ring, and the queue of packets that it means to use.
use short_message.Prelude.{
  ℕ, ◌+◌, ◌*◌, ◌≡◌, Bool, Option, none, some, List, [], ◌∷◌, ◌++◌, Bytes, length, leb,
  if◌then◌else◌,
}
use short_message.Machine.{Result, ok, ◌>>=◌}
use short_message.Fifo.{FifoQueue, push_packet, pop_packet}
use short_message.Fifo.Segment.{total}

pub data Call : Type 0 where
  push : Bytes → Call
  pop : Call

pub data Reply : Type 0 where
  pushed : Bool → Reply
  popped : Option Bytes → Reply

-- A client's calls in order, with what each returns. A pop that finds no packet waits, and is made
-- again later.
unfoldable pub run : FifoQueue → List Call → Result (List Reply)
run q [] = ok []
run q (push p ∷ calls) = do
  (done, q') ← push_packet p q
  replies ← run q' calls
  ok (pushed done ∷ replies)
run q (pop ∷ calls) = pop_packet q >>= λ o. elim o [
  | none ↦ run q calls >>= λ replies. ok (popped none ∷ replies)
  | some (p, q') ↦ run q' calls >>= λ replies. ok (popped (some p) ∷ replies)
]

-- The queue that a client sees: the packets that wait, oldest first. It takes a packet if twice the
-- packet's bytes and two more are free.
unfoldable pub accepts : ℕ → List Bytes → Bytes → Bool
accepts size ps p = leb (total ps + 2 * length p + 2) size

unfoldable pub serve : ℕ → List Bytes → List Call → List Reply
serve size ps [] = []
serve size ps (push p ∷ calls) =
    pushed (accepts size ps p) ∷ serve size (if accepts size ps p then ps ++ (p ∷ []) else ps) calls
serve size [] (pop ∷ calls) = popped none ∷ serve size [] calls
serve size (p ∷ ps) (pop ∷ calls) = popped (some p) ∷ serve size ps calls

abbrev pub CallOfLength : ℕ → Call → Type 0
CallOfLength len (push p) = length p ≡ len
CallOfLength len pop = Unit
