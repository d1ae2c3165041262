-- ===== src/Ble/Tests.antt =====
-- Runs of a link, the table of failed peers and the drop guard.
use conest.Base.{◌≡◌, some, List, [], ◌∷◌, ◌++◌, length, arith, leb}
use conest.Ble.Link.{Link, new_link, peripheral}
use conest.Ble.Link.Fifo.{given, taken, after_calls, put, fetch, queue_balance, QueueCall}
use conest.Ble.Backoff.{back_off}
use conest.Ble.Backoff
use conest.Ble.Backoff.Bounds.{back_off-IsValid}
use conest.Ble.LinkId.{id, parse_id, parse_id-id}
use conest.Ble.DropGuard.{dropped, after_drops, recent, dropped_lem}
use conest.Ble.Packet.Tests.{small}

abbrev ready_link : Link
ready_link = record (new_link 5 peripheral 0) { limit = some 30 }

abbrev history : List QueueCall
history = put small ∷ fetch ∷ put (7 ∷ []) ∷ put [] ∷ put (8 ∷ []) ∷ fetch ∷ []

queue_balance_example :
    given ready_link history ++ (after_calls ready_link history).queue
    ≡ ready_link.queue ++ taken ready_link history
queue_balance_example = queue_balance history ready_link

back_off-IsValid_example : Backoff.Bounds.IsValid (back_off [] 5 100)
back_off-IsValid_example =
    back_off-IsValid [] 5 100 (record { sorted = tt; few = omega arith; delays = tt }) (omega arith)

parse_id-id_example : parse_id (id 48879) ≡ some 48879
parse_id-id_example = parse_id-id 48879 (omega arith)

dropped_lem_example :
    (dropped (after_drops [] (1000 ∷ 60000 ∷ [])) 170000).1
    ≡ leb 3 (length (recent 170000 ((1000 ∷ 60000 ∷ []) ++ 170000 ∷ [])))
dropped_lem_example =
    dropped_lem (1000 ∷ 60000 ∷ []) 170000 (omega arith, (omega arith, (omega arith, tt)))
