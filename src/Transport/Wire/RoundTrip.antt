-- ===== src/Transport/Wire/RoundTrip.antt =====
-- `deserialize` reads back what `serialize` wrote.
use causalclock.Base.{
  ℕ, ◌+◌, ◌%◌, ◌^◌, ◌≤◌, ◌<◌, none, List, [], ◌++◌, length, length-append, ltb_of_le, ◌≡◌, refl,
  arith,
}
use causalclock.Base.Bytes.{put_be, length-put_be, be-put_be8}
use causalclock.Base.Time.{zero_time}
use causalclock.Transport.Types.{
  Message, ok, err, err_data_too_short, err_invalid_from_length, err_invalid_to_length,
  err_invalid_seq, err_invalid_body_length, err_invalid_body_data, err_invalid_clock_length,
  err_invalid_clock_data,
}
use causalclock.Transport.Codec.{put_text, put_block, serialize, read_tail, deserialize}
use causalclock.Transport.Wire.Readers.{At, At-append_nil, read_text-At, read_be-At, read_block-At}

-- The message as it arrives: time and metadata are not sent.
unfoldable pub received : Message → Message
received m = record m { timestamp = zero_time; metadata = none }

-- The lengths and the number fit their fields on the wire.
pub record Fits (m : Message) : Type 0 where
  pub from_fits : length m.from < 256
  pub to_fits : length m.to < 256
  pub seq_fits : m.seq < 2 ^ 64
  pub body_fits : length m.body < 2 ^ 32
  pub clock_fits : length m.vector_clock_data < 2 ^ 32

-- Eighteen bytes frame the four variable fields.
pub length-serialize :
    (m : Message)
    → length (serialize m)
      ≡ 18 + length m.from + length m.to + length m.body + length m.vector_clock_data
unfolding serialize
length-serialize m =
    let from_part = put_text m.from in
    let to_part = put_text m.to in
    let body_part = put_block m.body in
    let clock_part = put_block m.vector_clock_data in
    omega (
      arith,
      length-append (m.from) (to_part ++ (put_be 8 m.seq ++ (body_part ++ clock_part))),
      length-append (m.to) (put_be 8 m.seq ++ (body_part ++ clock_part)),
      length-append (put_be 8 m.seq) (body_part ++ clock_part),
      length-append body_part clock_part,
      length-append (put_be 4 (length m.body % 2 ^ 32)) m.body,
      length-append (put_be 4 (length m.vector_clock_data % 2 ^ 32)) m.vector_clock_data,
      length-put_be 8 m.seq,
      length-put_be 4 (length m.body % 2 ^ 32),
      length-put_be 4 (length m.vector_clock_data % 2 ^ 32),
    )

read_fields :
    (m : Message) (input : List ℕ)
    → Fits m
    → input ≡ serialize m
    → 19 ≤ length input
    → deserialize input ≡ ok (received m)
unfolding serialize deserialize read_tail received
read_fields m input fits e long =
    let clock_part = put_block m.vector_clock_data in
    let body_on = put_block m.body ++ clock_part in
    let seq_on = put_be 8 m.seq ++ body_on in
    let to_on = put_text m.to ++ seq_on in
    let start : At input 0 (put_text m.from ++ to_on) = ([], e, refl) in
    let (got_from, at_to) =
      read_text-At input to_on m.from 0 err_invalid_from_length start fits.from_fits in
    let (got_to, at_seq) =
      read_text-At input seq_on m.to _ err_invalid_to_length at_to fits.to_fits in
    let (got_seq, at_body) =
      read_be-At 8 m.seq input body_on _ err_invalid_seq at_seq (be-put_be8 m.seq fits.seq_fits) in
    let (got_body, at_clock) =
      read_block-At input clock_part m.body _ err_invalid_body_length err_invalid_body_data at_body
        fits.body_fits in
    let (got_clock, at_end) =
      read_block-At input [] m.vector_clock_data _ err_invalid_clock_length err_invalid_clock_data
        (At-append_nil input clock_part _ at_clock) fits.clock_fits in
    rw (ltb_of_le _ _ long, got_from, got_to, got_seq, got_body, got_clock)

-- A message that fits its fields and is not empty arrives as it was sent, without its time and
-- its metadata.
pub deserialize-serialize :
    (m : Message)
    → Fits m
    → 1 ≤ length m.from + length m.to + length m.body + length m.vector_clock_data
    → deserialize (serialize m) ≡ ok (received m)
deserialize-serialize m fits h =
    read_fields m (serialize m) fits refl (omega (arith, length-serialize m))

-- A message with nothing in its four variable fields is refused, whatever its number.
pub deserialize-serialize_empty :
    (m : Message)
    → length m.from + length m.to + length m.body + length m.vector_clock_data ≡ 0
    → deserialize (serialize m) ≡ err err_data_too_short
unfolding deserialize
deserialize-serialize_empty m h = ground (arith, length-serialize m)
