-- ===== src/WebSocket/Trip.antt =====
-- `WSSendMessage` and `WSRecvMessage` of cxk/http/ws_session.cpp at the two ends of a stream.
use cxkframework.Prelude.{
  ℕ, suc, ◌+◌, ◌-◌, ◌%◌, ◌^◌, ◌<◌, ◌≡◌, ◌⊎◌, refl, sym, ap, ◌∙◌, subst, true, false, Bool, not,
  Option, some, List, [], ◌++◌, leb, if◌then◌else◌, length, arith, inl, inr, append_assoc,
  append-nil,
}
use cxkframework.Stream.{int, write_fix_size, read_fix_size}
use cxkframework.Stream.Pipe.{Pipe}
use cxkframework.WebSocket.{
  FrameHead, FrameMessage, text_frame, bin_frame, head_bytes, head_of, masked, payload_of,
  send_head, on_read, not_sent, ws_send_message, ws_recv_message, recv_loop, handle_frame,
  read_body, read_mask, no_message,
}
use cxkframework.WebSocket.Frame.{
  masked-masked, length-masked, plain_head, head_of-head_bytes, length_bytes, write_step, read_step,
  write_length_lem, read_length_lem,
}

-- what stands after the length
abbrev pub body_bytes : Bool → List ℕ → List ℕ → List ℕ
body_bytes true key body = key ++ masked key 0 body
body_bytes false key body = body

two_bytes : (h : FrameHead) → length (head_bytes h) ≡ 2
unfolding head_bytes
two_bytes h = refl

-- One part after another.
chain : (x a r : List ℕ) {y z : List ℕ} → y ≡ x ++ a → z ≡ y ++ r → z ≡ x ++ (a ++ r)
chain x a r e f = f ∙ ap (λ t. t ++ r) e ∙ append_assoc x a r

-- the opcodes of a message
abbrev pub IsMessageOp : ℕ → Type 0
IsMessageOp op = (op ≡ text_frame) ⊎ (op ≡ bin_frame)

-- A frame with the whole of a message goes to `read_body`.
module _ {S : Type 0} (p : Pipe S) (close : S → S) (max_size pl : ℕ)
    (again : ℕ → List ℕ → S → Option (Option FrameMessage × S)) (s : S) where
  abbrev Reads : Bool → ℕ → Type 0
  Reads client op =
      handle_frame p.read p.write close max_size (not client) 0 [] again
        (plain_head op true pl client) s
      ≡ read_body p.read p.write close max_size (plain_head op true pl client) []
          (no_message p.read p.write close)
          (λ bs s. some (some (record { opcode = op; body = bs }), s)) s

  text : (client : Bool) → Reads client text_frame
  unfolding handle_frame
  text true = refl
  text false = refl

  binary : (client : Bool) → Reads client bin_frame
  unfolding handle_frame
  binary true = refl
  binary false = refl

  reads : (client : Bool) (op : ℕ) → IsMessageOp op → Reads client op
  reads client op h = elim h [
    | inl e ↦ subst (Reads client) (sym e) (text client)
    | inr e ↦ subst (Reads client) (sym e) (binary client)
  ]

module _ {S : Type 0} (p : Pipe S) (close : S → S) (key : List ℕ) (four : length key ≡ 4) (op : ℕ)
    (body : List ℕ) (some_bytes : 0 < length body) (small : length body < 2 ^ 31) where
  abbrev size : ℕ
  size = length body

  abbrev msg : FrameMessage
  msg = record { opcode = op; body = body }

  send_lem :
      (client : Bool) (s : S)
      → (s' : S) × (ws_send_message p.read p.write close key msg client true s
          ≡ some (int (size + 2), s'))
        × (p.contents s'
            ≡ p.contents s
              ++ (head_bytes (send_head op client true size)
                  ++ (length_bytes size ++ body_bytes client key body)))
  unfolding ws_send_message
  send_lem true s =
      let (s1, w1, c1) =
        write_step p close 2 (head_bytes (send_head op true true size)) s
          (two_bytes (send_head op true true size)) (omega arith) (omega arith) in
      let (s2, w2, c2) = write_length_lem p close size s1 small in
      let (s3, w3, c3) = write_step p close 4 key s2 four (omega arith) (omega arith) in
      let (s4, w4, c4) =
        write_step p close size (masked key 0 body) s3 (length-masked key 0 body) some_bytes
          small in
      (
        s4,
        w1 (not_sent p.read p.write close) _
            ∙ w2 _
            ∙ w3 (not_sent p.read p.write close) _
            ∙ w4 (not_sent p.read p.write close) _,
        chain (p.contents s) (head_bytes (send_head op true true size))
            (length_bytes size ++ body_bytes true key body) c1
            (chain (p.contents s1) (length_bytes size) (body_bytes true key body) c2
              (chain (p.contents s2) key (masked key 0 body) c3 c4)),
      )
  send_lem false s =
      let (s1, w1, c1) =
        write_step p close 2 (head_bytes (send_head op false true size)) s
          (two_bytes (send_head op false true size)) (omega arith) (omega arith) in
      let (s2, w2, c2) = write_length_lem p close size s1 small in
      let (s3, w3, c3) = write_step p close size body s2 refl some_bytes small in
      (
        s3,
        w1 (not_sent p.read p.write close) _ ∙ w2 _ ∙ w3 (not_sent p.read p.write close) _,
        chain (p.contents s) (head_bytes (send_head op false true size))
            (length_bytes size ++ body_bytes false key body) c1
            (chain (p.contents s1) (length_bytes size) (body_bytes false key body) c2 c3),
      )

  -- what the receiver has where the frame is whole
  abbrev received : S → Option (Option FrameMessage × S)
  received s = some (some msg, s)

  read_rest :
      (client : Bool) (max_size : ℕ) (s : S) (leave : S → Option (Option FrameMessage × S))
      → size < max_size
      → p.contents s ≡ length_bytes size ++ body_bytes client key body
      → (s' : S) × (read_body p.read p.write close max_size
            (plain_head op true (payload_of size) client)
            []
            leave
            (λ bs s. some (some (record { opcode = op; body = bs }), s))
            s
          ≡ received s')
        × (p.contents s' ≡ [])
  unfolding read_body read_mask
  read_rest true max_size s leave fits h =
      let (s1, r1, c1) = read_length_lem p close size (key ++ masked key 0 body) s small h in
      let (s2, r2, c2) =
        read_step p close 4 key (masked key 0 body) s1 four (omega arith) (omega arith) c1 in
      let (s3, r3, c3) =
        read_step p close size (masked key 0 body) [] s2 (length-masked key 0 body) some_bytes small
          (c2 ∙ sym (append-nil (masked key 0 body))) in
      let inside : leb max_size ((0 + size) % 2 ^ 64) ≡ false = ground arith in
      (
        s3,
        r1 _ leave _
            ∙ ap
                (λ b.
                  if b
                  then leave s1
                  else read_mask p.read p.write close true leave
                      (λ key s.
                        on_read p.read p.write close leave
                          (λ bs s. some (some (record { opcode = op; body = masked key 0 bs }), s))
                          (read_fix_size p.read size s))
                      s1)
                inside
            ∙ r2 _ leave _
            ∙ r3 _ leave _
            ∙ ap (λ bs. some (some (record { opcode = op; body = bs }), s3))
                (masked-masked key 0 body),
        c3,
      )
  read_rest false max_size s leave fits h =
      let (s1, r1, c1) = read_length_lem p close size body s small h in
      let (s3, r3, c3) =
        read_step p close size body [] s1 refl some_bytes small (c1 ∙ sym (append-nil body)) in
      let inside : leb max_size ((0 + size) % 2 ^ 64) ≡ false = ground arith in
      (
        s3,
        r1 _ leave _
            ∙ ap
                (λ b.
                  if b
                  then leave s1
                  else on_read p.read p.write close leave
                      (λ bs s. some (some (record { opcode = op; body = bs }), s))
                      (read_fix_size p.read size s1))
                inside
            ∙ r3 _ leave _,
        c3,
      )

  header :
      (client : Bool)
      → IsMessageOp op
      → head_of (head_bytes (send_head op client true size))
        ≡ plain_head op true (payload_of size) client
  unfolding send_head
  header client is_op =
      let low : op % 16 ≡ op = ground arith in
      head_of-head_bytes (op % 16) (payload_of size) true client (omega arith) (ground arith)
      ∙ ap (λ o. plain_head o true (payload_of size) client) low

  recv_lem :
      (client : Bool) (fuel max_size : ℕ) (s : S)
      → IsMessageOp op
      → size < max_size
      → p.contents s
        ≡ head_bytes (send_head op client true size)
          ++ (length_bytes size ++ body_bytes client key body)
      → (s' : S) × (ws_recv_message p.read p.write close (suc fuel) max_size (not client) s
          ≡ received s')
        × (p.contents s' ≡ [])
  unfolding ws_recv_message recv_loop
  recv_lem client fuel max_size s is_op fits h =
      let head = head_bytes (send_head op client true size) in
      let leave = no_message p.read p.write close in
      let again = recv_loop p.read p.write close fuel max_size (not client) in
      let (s1, r1, c1) =
        read_step p close 2 head (length_bytes size ++ body_bytes client key body) s
          (two_bytes (send_head op client true size)) (omega arith) (omega arith) h in
      let (s2, r2, c2) = read_rest client max_size s1 leave fits c1 in
      (
        s2,
        r1 _ leave (λ bs s.
              handle_frame p.read p.write close max_size (not client) 0 [] again (head_of bs) s)
            ∙ ap (λ h. handle_frame p.read p.write close max_size (not client) 0 [] again h s1)
                (header client is_op)
            ∙ reads p close max_size (payload_of size) again s1 client op is_op
            ∙ r2,
        c2,
      )

  -- Over an empty stream that moves at least one byte where there is one and never fails, a text or
  -- binary message with a body of at least one byte, fewer than the size limit of the receiver and
  -- 2 ^ 31, that WSSendMessage sends as one frame with any four bytes of mask, is what
  -- WSRecvMessage returns at the other end, in both directions: masked from the client and bare
  -- from the server. WSSendMessage returns the size of the body and two, in 32 bits, and the stream
  -- is empty again.
  pub recv-send :
      (client : Bool) (fuel max_size : ℕ) (s : S)
      → IsMessageOp op
      → size < max_size
      → p.contents s ≡ []
      → (s' s'' : S) × (ws_send_message p.read p.write close key msg client true s
          ≡ some (int (size + 2), s'))
        × (ws_recv_message p.read p.write close (suc fuel) max_size (not client) s'
            ≡ some (some msg, s''))
        × (p.contents s'' ≡ [])
  recv-send client fuel max_size s is_op fits empty =
      let (s', e, c) = send_lem client s in
      let (s'', e', c') = recv_lem client fuel max_size s' is_op fits (
        c
        ∙ ap
            (λ t.
              t
              ++ (head_bytes (send_head op client true size)
                  ++ (length_bytes size ++ body_bytes client key body)))
            empty) in
      (s', s'', e, e', c')

-- Over such a stream WSSendMessage of a client with an empty body closes the stream and returns -1,
-- whatever the opcode and whether or not the frame is the last one.
pub send-empty :
    {S : Type 0} (p : Pipe S) (close : S → S) (key : List ℕ) (op : ℕ) (fin : Bool) (s : S)
    → length key ≡ 4
    → (s' : S) × (ws_send_message p.read p.write close key
          (record { opcode = op; body = [] })
          true
          fin
          s
        ≡ some (2 ^ 32 - 1, close s'))
unfolding ws_send_message write_fix_size masked
send-empty p close key op fin s four =
    let (s1, w1, _) =
      write_step p close 2 (head_bytes (send_head op true fin 0)) s
        (two_bytes (send_head op true fin 0)) (omega arith) (omega arith) in
    let (s2, w2, _) = write_length_lem p close 0 s1 (omega arith) in
    let (s3, w3, _) = write_step p close 4 key s2 four (omega arith) (omega arith) in
    (s3, w1 (not_sent p.read p.write close) _ ∙ w2 _ ∙ w3 (not_sent p.read p.write close) _ ∙ refl)
