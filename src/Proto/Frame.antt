-- ===== src/Proto/Frame.antt =====
-- Frames on a QUIC stream (src/proto/frame.rs). The stream of the `quinn` crate is a parameter.
pub mod RoundTrip
use dsearch.Base.{
  ℕ, ◌+◌, ◌^◌, ◌%◌, ◌≡◌, true, Option, none, some, List, [], ◌∷◌, ◌++◌, length, ltb, if◌then◌else◌,
  Result, ok, err, be_bytes, from_be_bytes, Text, u32_mod,
}
use dsearch.Proto.MsgType.{MsgType, from_u8, as_u8, protocol_version, max_payload_size}

pub record Frame : Type 0 where
  pub version : ℕ
  pub msg_type : MsgType
  pub payload : List ℕ

unfoldable pub new : MsgType → List ℕ → Frame
new msg_type payload = record { version = protocol_version; msg_type = msg_type; payload = payload }

-- [version u8][msg_type u8][length u32 BE][payload]; the length is cut to 32 bits.
unfoldable pub encode : Frame → List ℕ
encode f = f.version ∷ as_u8 f.msg_type ∷ (be_bytes (length f.payload % u32_mod) ++ f.payload)

pub data FrameError : Type 0 where
  payload_too_large : ℕ → ℕ → FrameError
  unknown_msg_type : ℕ → FrameError
  io : Text → FrameError

-- What `read_exact` of the stream returns, with the stream that is left.
pub data ReadExact (S : Type 0) : Type 0 where
  filled : List ℕ → S → ReadExact S
  finished_early : S → ReadExact S
  read_error : Text → S → ReadExact S

-- A receive stream of `quinn`: reading a number of bytes.
pub record RecvStream : Type 1 where
  pub Stream : Type 0
  pub read_exact : ℕ → Stream → ReadExact Stream

-- The documented behaviour of `read_exact` on a stream that holds some bytes, after which the
-- peer has finished it.
pub record IsRecvStream (R : RecvStream) (holding : List ℕ → R.Stream) : Type 0 where
  pub read_full :
      (xs ys : List ℕ) → R.read_exact (length xs) (holding (xs ++ ys)) ≡ filled xs (holding ys)
  pub read_short :
      (n : ℕ) (xs : List ℕ)
      → ltb (length xs) n ≡ true
      → R.read_exact n (holding xs) ≡ finished_early (holding [])

module _ (R : RecvStream) where
  -- The second half of `read_frame`: the payload.
  unfoldable pub read_payload :
      ℕ → MsgType → ℕ → R.Stream → Result (Option Frame) FrameError × R.Stream
  read_payload version msg_type size s =
      if ltb 0 size
      then (elim (R.read_exact size s) [
        | filled payload s' ↦
            (ok (some (record { version = version; msg_type = msg_type; payload = payload })), s')
        | finished_early s' ↦ (ok none, s')
        | read_error e s' ↦ (err (io e), s')
      ])
      else (ok (some (record { version = version; msg_type = msg_type; payload = [] })), s)

  unfoldable pub read_header : ℕ → ℕ → ℕ → R.Stream → Result (Option Frame) FrameError × R.Stream
  read_header version msg_byte size s =
      if ltb max_payload_size size
      then (err (payload_too_large size max_payload_size), s)
      else elim (from_u8 msg_byte) [
        | none ↦ (err (unknown_msg_type msg_byte), s)
        | some msg_type ↦ read_payload version msg_type size s
      ]

  -- The six bytes of the header; the stream fills the buffer, so no other length occurs.
  unfoldable pub split_header : List ℕ → R.Stream → Result (Option Frame) FrameError × R.Stream
  split_header (v ∷ m ∷ a ∷ b ∷ c ∷ d ∷ []) s = read_header v m (from_be_bytes a b c d) s
  split_header _ s = (ok none, s)

  unfoldable pub read_frame : R.Stream → Result (Option Frame) FrameError × R.Stream
  unfolding read_payload read_header split_header
  read_frame s = elim (R.read_exact 6 s) [
    | filled header s' ↦ split_header header s'
    | finished_early s' ↦ (ok none, s')
    | read_error e s' ↦ (err (io e), s')
  ]
