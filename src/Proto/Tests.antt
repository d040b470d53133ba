-- ===== src/Proto/Tests.antt =====
-- Tests of the wire protocol (src/proto), over a stream that is a list of bytes.
use dsearch.Base.{
  ℕ, ◌≡◌, refl, List, [], ◌∷◌, ◌++◌, length, ltb, if◌then◌else◌, ok, err, some, take, drop, arith,
  replicate, length-replicate, take-append, drop-append, length-append,
}
use dsearch.Proto.MsgType.{from_u8, as_u8, ping}
use dsearch.Proto.Frame.{
  Frame, new, encode, ReadExact, filled, finished_early, RecvStream, IsRecvStream, read_frame,
  unknown_msg_type,
}
use dsearch.Proto.Frame.RoundTrip.{read_frame-encode}

abbrev read_bytes : ℕ → List ℕ → ReadExact (List ℕ)
read_bytes n s = if ltb (length s) n then finished_early [] else filled (take n s) (drop n s)

abbrev byte_stream : RecvStream
byte_stream = record { Stream = List ℕ; read_exact = read_bytes }

read_bytes_full : (xs ys : List ℕ) → read_bytes (length xs) (xs ++ ys) ≡ filled xs ys
read_bytes_full xs ys = ground (arith, take-append xs ys, drop-append xs ys, length-append xs ys)

byte_stream-IsRecvStream : IsRecvStream byte_stream (λ bs. bs)
byte_stream-IsRecvStream = record {
  read_full = read_bytes_full;
  read_short = λ n xs h. ground arith;
}

abbrev hello : Frame
hello = record { version = 1; msg_type = ping; payload = 104 ∷ 105 ∷ [] }

encode-hello : encode hello ≡ 1 ∷ 3 ∷ 0 ∷ 0 ∷ 0 ∷ 2 ∷ 104 ∷ 105 ∷ []
unfolding encode as_u8
encode-hello = refl

unknown_byte :
    read_frame byte_stream (1 ∷ 0x10 ∷ 0 ∷ 0 ∷ 0 ∷ 0 ∷ []) ≡ (err (unknown_msg_type 0x10), [])
unfolding read_frame from_u8
unknown_byte = refl

new_runs : (new ping []).version ≡ 1
unfolding new
new_runs = refl

read_frame-encode_example :
    read_frame byte_stream (encode hello ++ 9 ∷ []) ≡ (ok (some hello), 9 ∷ [])
read_frame-encode_example = read_frame-encode byte_stream-IsRecvStream hello (9 ∷ []) (omega arith)

-- A payload of `n` zero bytes; shut, so that a million bytes are never written out.
zeros : ℕ → List ℕ
zeros n = replicate n 0

length-zeros : (n : ℕ) → length (zeros n) ≡ n
unfolding zeros
length-zeros n = length-replicate n 0

-- One byte over the limit.
abbrev too_large : Frame
too_large = record { version = 1; msg_type = ping; payload = zeros 1048577 }
