-- ===== src/Ble/Reassembler/Tests.antt =====
-- Runs of the reassembler at concrete inputs.
use conest.Base.{get_elem?, ◌≡◌, refl, true, false, [], ◌∷◌, ◌++◌, arith}
use conest.Base.Outcome.{ok, index}
use conest.Ble.Packet.{packet_size}
use conest.Ble.Packet.Tests.{small, small_size}
use conest.Ble.Reassembler.{Reassembler, default, push, push_loop, take_byte, append, settle, fresh}
use conest.Ble.Reassembler.Valid.{IsPushed, push-IsValid, default-IsValid}
use conest.Ble.Reassembler.Packets.{wires, packets_of, push-wires}
use conest.Ble.Reassembler.Chunks.{Joins, push-append}

push-IsValid_example : IsPushed (push default (small ++ 7 ∷ []) 10)
push-IsValid_example = push-IsValid default (small ++ 7 ∷ []) 10 default-IsValid

push-wires_example :
    ((push default (wires ((small, false) ∷ (small, true) ∷ [])) 10).1
      ≡ ok (packets_of ((small, false) ∷ (small, true) ∷ [])))
    × ((push default (wires ((small, false) ∷ (small, true) ∷ [])) 10).0.bytes ≡ [])
push-wires_example =
    push-wires ((small, false) ∷ (small, true) ∷ []) default 10 default-IsValid refl
      (small_size, (small_size, tt)) (omega arith)

-- The first bytes of a packet, after which its size is open.
abbrev begun : Reassembler
begun = (push default (1 ∷ 2 ∷ 7 ∷ []) 10).0

push-begun : push default (1 ∷ 2 ∷ 7 ∷ []) 10 ≡ (begun, ok [])
unfolding push push_loop take_byte append settle fresh packet_size index get_elem?
push-begun = refl

push-append_example :
    Joins [] (push begun (0 ∷ 0 ∷ []) 20) (push default (1 ∷ 2 ∷ 7 ∷ 0 ∷ 0 ∷ []) 10)
unfolding push push_loop take_byte append settle fresh packet_size index get_elem?
push-append_example =
    push-append (1 ∷ 2 ∷ 7 ∷ []) (0 ∷ 0 ∷ []) default begun 10 20 [] push-begun (omega arith)
      (omega arith)
