-- ===== src/Transport/Codec.antt =====
-- The wire format of `transport/tcp.go`: `serializeMessage` and `deserializeMessage`.
use causalclock.Base.{ℕ, Str, ◌+◌, ◌%◌, ◌^◌, none, some, List, ◌∷◌, ◌++◌, length, ltb}
use causalclock.Base.Bytes.{put_be, be}
use causalclock.Base.Slices.{get_elem?, slice}
use causalclock.Base.Time.{zero_time}
use causalclock.Transport.Types.{
  Message, Error, Outcome, ok, panic, ◌>>=◌, ◌>>◌, reject_if, err_data_too_short,
  err_invalid_from_length, err_invalid_to_length, err_invalid_seq, err_invalid_body_length,
  err_invalid_body_data, err_invalid_clock_length, err_invalid_clock_data,
}

-- A text behind its length in one byte: `append(data, byte(len(s)))`, `append(data, s...)`.
unfoldable pub put_text : Str → List ℕ
put_text s = length s % 256 ∷ s

-- Bytes behind their length in four: `PutUint32(buf, uint32(len(b)))`, then the bytes.
unfoldable pub put_block : List ℕ → List ℕ
put_block b = put_be 4 (length b % 2 ^ 32) ++ b

-- `serializeMessage`
unfoldable pub serialize : Message → List ℕ
unfolding put_text put_block
serialize msg =
    put_text msg.from
    ++ (put_text msg.to
        ++ (put_be 8 msg.seq ++ (put_block msg.body ++ put_block msg.vector_clock_data)))

-- `data[offset]`, which panics past the end.
unfoldable pub index : List ℕ → ℕ → Outcome ℕ
index input offset = elim (get_elem? input offset) [ none ↦ panic | some b ↦ ok b ]

-- A text and the offset behind it: the length byte, the test of the bounds, the slice.
unfoldable pub read_text : List ℕ → ℕ → Error → Outcome (Str × ℕ)
unfolding index slice
read_text input offset e = do
  text_len ← index input offset
  reject_if (ltb (length input) (offset + 1 + text_len)) e
  ok (slice input (offset + 1) (offset + 1 + text_len), offset + 1 + text_len)

-- A number of `width` bytes and the offset behind it.
unfoldable pub read_be : ℕ → List ℕ → ℕ → Error → Outcome (ℕ × ℕ)
unfolding slice
read_be width input offset e = do
  reject_if (ltb (length input) (offset + width)) e
  ok (be (slice input offset (offset + width)), offset + width)

-- Bytes behind their length in four, and the offset behind them.
unfoldable pub read_block : List ℕ → ℕ → Error → Error → Outcome (List ℕ × ℕ)
unfolding read_be slice
read_block input offset no_length no_data = do
  (block_len, start) ← read_be 4 input offset no_length
  reject_if (ltb (length input) (start + block_len)) no_data
  ok (slice input start (start + block_len), start + block_len)

-- `deserializeMessage` from the number on: the two names are read.
unfoldable pub read_tail : List ℕ → Str → Str → ℕ → Outcome Message
unfolding read_be read_block
read_tail input from' to' seq_offset = do
  (seq', body_offset) ← read_be 8 input seq_offset err_invalid_seq
  (body', clock_offset) ← read_block input body_offset err_invalid_body_length err_invalid_body_data
  (clock', end_offset) ←
      read_block input clock_offset err_invalid_clock_length err_invalid_clock_data
  ok (record {
    from = from';
    to = to';
    seq = seq';
    body = body';
    timestamp = zero_time;
    vector_clock_data = clock';
    metadata = none;
  })

-- `deserializeMessage`; an `int` has 64 bits, so that the offsets do not wrap.
unfoldable pub deserialize : List ℕ → Outcome Message
unfolding read_text
deserialize input = do
  reject_if (ltb (length input) 19) err_data_too_short
  (from', to_offset) ← read_text input 0 err_invalid_from_length
  (to', seq_offset) ← read_text input to_offset err_invalid_to_length
  read_tail input from' to' seq_offset
