-- ===== src/WebSocket.antt =====
-- The frames of cxk/http/ws_session.cpp and cxk/http/ws_session.h over the virtual `read`, `write` and
-- `close` of a stream, on a host whose lowest byte comes first. `none` is fuel that is too small.
use cxkframework.Prelude.{
  ℕ, zero, suc, ◌+◌, ◌-◌, ◌*◌, ◌/◌, ◌%◌, ◌^◌, true, false, Bool, not, ◌&&◌, ◌||◌, Option, none,
  some, List, [], ◌∷◌, ◌++◌, ltb, leb, ◌==◌, if◌then◌else◌, and_then, length, get_elem?,
}
use cxkframework.Prelude.Bits.{bit_xor}
use cxkframework.ByteArray.Fixed.{le_bytes, le_value, byteswap}
use cxkframework.Stream.{
  Transfer, Written, Filled, Sent, read_fix_size, write_fix_size, int, is_positive,
}
pub mod Frame
pub mod Trip
mod Tests

abbrev pub continue_op : ℕ
continue_op = 0

abbrev pub text_frame : ℕ
text_frame = 1

abbrev pub bin_frame : ℕ
bin_frame = 2

abbrev pub ping_op : ℕ
ping_op = 0x9

abbrev pub pong_op : ℕ
pong_op = 0xa

-- `WSFrameHead`, packed into two bytes
pub record FrameHead : Type 0 where
  pub opcode : ℕ
  pub rsv3 : Bool
  pub rsv2 : Bool
  pub rsv1 : Bool
  pub fin : Bool
  pub payload : ℕ
  pub mask : Bool

abbrev pub as_bit : Bool → ℕ
as_bit b = if b then 1 else 0

-- the bytes of a header in memory, lowest field first, and back
unfoldable pub head_bytes : FrameHead → List ℕ
head_bytes h =
    (h.opcode % 16
      + 16 * as_bit h.rsv3
      + 32 * as_bit h.rsv2
      + 64 * as_bit h.rsv1
      + 128 * as_bit h.fin)
    ∷ (h.payload % 128 + 128 * as_bit h.mask)
    ∷ []

unfoldable pub head_of : List ℕ → FrameHead
head_of [] = record {
  opcode = 0;
  rsv3 = false;
  rsv2 = false;
  rsv1 = false;
  fin = false;
  payload = 0;
  mask = false;
}
head_of (a ∷ []) = record {
  opcode = 0;
  rsv3 = false;
  rsv2 = false;
  rsv1 = false;
  fin = false;
  payload = 0;
  mask = false;
}
head_of (a ∷ b ∷ _) = record {
  opcode = a % 16;
  rsv3 = (a / 16 % 2) == 1;
  rsv2 = (a / 32 % 2) == 1;
  rsv1 = (a / 64 % 2) == 1;
  fin = (a / 128 % 2) == 1;
  payload = b % 128;
  mask = (b / 128 % 2) == 1;
}

-- a header that is all 0 but for `fin` and the opcode
abbrev pub control_head : ℕ → FrameHead
control_head op = record {
  opcode = op;
  rsv3 = false;
  rsv2 = false;
  rsv1 = false;
  fin = true;
  payload = 0;
  mask = false;
}

pub record FrameMessage : Type 0 where
  pub opcode : ℕ
  pub body : List ℕ

-- `mask[i % 4]`
unfoldable pub mask_at : List ℕ → ℕ → ℕ
mask_at [] i = 0
mask_at (k ∷ ks) i = elim (get_elem? (k ∷ ks) (i % 4)) [ some b ↦ b | none ↦ 0 ]

-- `data[i] ^= mask[i % 4]` from the index `i` on
unfoldable pub masked : List ℕ → ℕ → List ℕ → List ℕ
masked key i [] = []
masked key i (b ∷ bs) = bit_xor b (mask_at key i) ∷ masked key (i + 1) bs

abbrev pub is_data : ℕ → Bool
is_data op = (op == continue_op) || (op == text_frame) || (op == bin_frame)

-- The opcode of a message is that of the first frame that has one.
abbrev pub first_opcode : ℕ → ℕ → ℕ
first_opcode old new = if (old == 0) && not (new == continue_op) then new else old

abbrev pub payload_of : ℕ → ℕ
payload_of size = if ltb size 126 then size else (if ltb size 65536 then 126 else 127)

unfoldable pub send_head : ℕ → Bool → Bool → ℕ → FrameHead
send_head opcode client fin size = record {
  opcode = opcode % 16;
  rsv3 = false;
  rsv2 = false;
  rsv1 = false;
  fin = fin;
  payload = payload_of size;
  mask = client;
}

module _ {S : Type 0} (read : ℕ → S → Transfer × S) (write : List ℕ → S → Written × S)
    (close : S → S) where
  -- The result of `readFixSize`, where it is positive, goes to `next`; otherwise the loop is left,
  -- by `leave`.
  abbrev pub on_read : {R : Type 0} → (S → Option R) → (List ℕ → S → Option R) → Filled S → Option R
  on_read leave next none = none
  on_read leave next (some (none, (v, s))) = leave s
  on_read leave next (some (some bs, (v, s))) = if is_positive v then next bs s else leave s

  abbrev pub on_write : {R : Type 0} → (S → Option R) → (S → Option R) → Sent S → Option R
  on_write leave next none = none
  on_write leave next (some (v, s)) = if is_positive v then next s else leave s

  -- `WSPing` and `WSPong`
  abbrev pub or_close : Sent S → Sent S
  or_close none = none
  or_close (some (v, s)) = some (v, if is_positive v then s else close s)

  unfoldable pub send_control : ℕ → S → Sent S
  send_control op s = or_close (write_fix_size write 2 (head_bytes (control_head op)) s)

  unfoldable pub ws_ping : S → Sent S
  ws_ping s = send_control ping_op s

  unfoldable pub ws_pong : S → Sent S
  ws_pong s = send_control pong_op s

  -- `stream->close(); return nullptr;`
  abbrev pub no_message : S → Option (Option FrameMessage × S)
  no_message s = some (none, close s)

  -- the length of the body: that of the header, or 2 or 8 bytes after it in network order
  unfoldable pub read_length : {R : Type 0} → ℕ → (S → Option R) → (ℕ → S → Option R) → S → Option R
  read_length payload leave next s =
      if payload == 126
      then on_read leave (λ bs s. next (byteswap 2 (le_value bs)) s) (read_fix_size read 2 s)
      else (if payload == 127
          then on_read leave (λ bs s. next (byteswap 8 (le_value bs)) s) (read_fix_size read 8 s)
          else next payload s)

  -- the mask, if there is one
  unfoldable pub read_mask :
      {R : Type 0} → Bool → (S → Option R) → (List ℕ → S → Option R) → S → Option R
  read_mask false leave next s = next [] s
  read_mask true leave next s = on_read leave next (read_fix_size read 4 s)

  -- The body of a frame: `body` has the bytes of the earlier frames, and `cur_len` counts them.
  unfoldable pub read_body :
      {R : Type 0}
      → ℕ
      → FrameHead
      → List ℕ
      → (S → Option R)
      → (List ℕ → S → Option R)
      → S
      → Option R
  read_body max_size h body leave next s =
      read_length h.payload leave
        (λ len s.
          if leb max_size ((length body + len) % 2 ^ 64)
          then leave s
          else read_mask h.mask leave
              (λ key s.
                on_read leave (λ bs s. next (body ++ (if h.mask then masked key 0 bs else bs)) s)
                  (read_fix_size read len s))
              s)
        s

  -- What is done with a frame, where `again` is the rest of the loop.
  unfoldable pub handle_frame :
      ℕ
      → Bool
      → ℕ
      → List ℕ
      → (ℕ → List ℕ → S → Option (Option FrameMessage × S))
      → FrameHead
      → S
      → Option (Option FrameMessage × S)
  handle_frame max_size client opcode body again h s =
      if h.opcode == ping_op
      then on_write no_message (λ s. again opcode body s) (ws_pong s)
      else (if h.opcode == pong_op
          then again opcode body s
          else (if is_data h.opcode
              then (if not client && not h.mask
                  then no_message s
                  else read_body max_size h body no_message
                      (λ bs s.
                        let op = first_opcode opcode h.opcode in
                        if h.fin
                        then some (some (record { opcode = op; body = bs }), s)
                        else again op bs s)
                      s)
              else again opcode body s))

  -- The loop of `WSRecvMessage`, where the fuel bounds the number of frames.
  unfoldable pub recv_loop : ℕ → ℕ → Bool → ℕ → List ℕ → S → Option (Option FrameMessage × S)
  recv_loop zero max_size client opcode body s = none
  recv_loop (suc fuel) max_size client opcode body s =
      on_read no_message
        (λ bs s.
          handle_frame max_size client opcode body (recv_loop fuel max_size client) (head_of bs) s)
        (read_fix_size read 2 s)

  unfoldable pub ws_recv_message : ℕ → ℕ → Bool → S → Option (Option FrameMessage × S)
  ws_recv_message fuel max_size client s = recv_loop fuel max_size client 0 [] s

  -- `stream->close(); return -1;`
  abbrev pub not_sent : S → Sent S
  not_sent s = some (2 ^ 32 - 1, close s)

  -- the length after the header
  unfoldable pub write_length : ℕ → (S → Sent S) → S → Sent S
  write_length size next s =
      if payload_of size == 126
      then on_write not_sent next (write_fix_size write 2 (le_bytes 2 (byteswap 2 size)) s)
      else (if payload_of size == 127
          then on_write not_sent next (write_fix_size write 8 (le_bytes 8 (byteswap 8 size)) s)
          else next s)

  -- what `WSSendMessage` returns where all is written
  abbrev pub sent_all : ℕ → S → Sent S
  sent_all size s = some (int (size + 2), s)

  -- `WSSendMessage`; `key` has the four bytes of `rand()`
  unfoldable pub ws_send_message : List ℕ → FrameMessage → Bool → Bool → S → Sent S
  ws_send_message key msg client fin s =
      let size = length msg.body in
      on_write not_sent
        (write_length size (λ s.
          if client
          then on_write not_sent
              (λ s.
                on_write not_sent (sent_all size)
                  (write_fix_size write size (masked key 0 msg.body) s))
              (write_fix_size write 4 key s)
          else on_write not_sent (sent_all size) (write_fix_size write size msg.body s)))
        (write_fix_size write 2 (head_bytes (send_head msg.opcode client fin size)) s)
