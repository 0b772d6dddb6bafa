-- ===== src/WebSocket/Tests.antt =====
-- A message between the two ends of a stream of cxk/http/ws_session.cpp.
use cxkframework.Prelude.{
  ℕ, ◌-◌, ◌^◌, ◌≡◌, refl, true, false, some, List, [], ◌∷◌, arith, inr, replicate,
}
use cxkframework.Stream.OneByte.{one_by_one}
use cxkframework.WebSocket.{ws_send_message, ws_recv_message}
use cxkframework.WebSocket.Trip.{recv-send, send-empty}

abbrev key : List ℕ
key = 0x12 ∷ 0x34 ∷ 0x56 ∷ 0x78 ∷ []

abbrev closed : List ℕ → List ℕ
closed s = []

-- A client's message of 300 bytes, at a server.
recv-send_example :
    (s' s'' : List ℕ) × (ws_send_message one_by_one.read one_by_one.write closed key
        (record { opcode = 2; body = replicate 300 7 })
        true
        true
        []
      ≡ some (302, s'))
    × (ws_recv_message one_by_one.read one_by_one.write closed 1 1000 false s'
        ≡ some (some (record { opcode = 2; body = replicate 300 7 }), s''))
    × (one_by_one.contents s'' ≡ [])
unfolding one_by_one
recv-send_example =
    recv-send one_by_one closed key refl 2 (replicate 300 7) (omega arith) (omega arith) true 0 1000
      [] (inr refl) (omega arith) refl

send-empty_example :
    (s' : List ℕ) × (ws_send_message one_by_one.read one_by_one.write closed key
        (record { opcode = 1; body = [] })
        true
        false
        []
      ≡ some (2 ^ 32 - 1, closed s'))
send-empty_example = send-empty one_by_one closed key 1 false [] refl
