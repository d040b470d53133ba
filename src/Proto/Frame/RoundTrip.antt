-- ===== src/Proto/Frame/RoundTrip.antt =====
-- What `read_frame` returns on the bytes that a peer has sent.
use dsearch.Base.{
  zero, suc, length-take-le, ℕ, ◌%◌, ◌≤◌, ◌<◌, ◌≡◌, refl, ap, none, some, List, [], ◌∷◌, ◌++◌,
  length, ok, err, from_be_bytes, u32_mod, take, arith, from_be_bytes-be_bytes, lt→ltb,
}
use dsearch.Proto.MsgType.{MsgType, as_u8, max_payload_size, from_u8-as_u8}
use dsearch.Proto.Frame.{
  Frame, encode, payload_too_large, RecvStream, IsRecvStream, read_payload, read_header, read_frame,
}

module _ {R : RecvStream} {holding : List ℕ → R.Stream} (law : IsRecvStream R holding) where
  -- The header is taken off the stream, whatever follows.
  pub read_frame-header :
      (v m a b c d : ℕ) (rest : List ℕ)
      → read_frame R (holding (v ∷ m ∷ a ∷ b ∷ c ∷ d ∷ rest))
        ≡ read_header R v m (from_be_bytes a b c d) (holding rest)
  unfolding read_frame
  read_frame-header v m a b c d rest =
      rw (law.read_full (v ∷ m ∷ a ∷ b ∷ c ∷ d ∷ []) rest, read_frame)

  read_payload_full :
      (v : ℕ) (t : MsgType) (xs ys : List ℕ)
      → read_payload R v t (length xs) (holding (xs ++ ys))
        ≡ (ok (some (record { version = v; msg_type = t; payload = xs })), holding ys)
  unfolding read_payload
  read_payload_full v t [] ys = refl
  read_payload_full v t (x ∷ xs) ys = rw (law.read_full (x ∷ xs) ys, read_payload) (ground arith)

  read_payload_short :
      (v : ℕ) (t : MsgType) (n : ℕ) (xs : List ℕ)
      → length xs < n
      → read_payload R v t n (holding xs) ≡ (ok none, holding [])
  unfolding read_payload
  read_payload_short v t n xs h =
      rw (law.read_short n xs (lt→ltb _ _ h), read_payload) (ground arith)

  read_header_fits :
      (v : ℕ) (t : MsgType) (n : ℕ) (s : R.Stream)
      → n ≤ max_payload_size
      → read_header R v (as_u8 t) n s ≡ read_payload R v t n s
  unfolding read_header
  read_header_fits v t n s h = rw (from_u8-as_u8 t, read_header) (ground arith)

  -- The header of an encoded frame, read back.
  read_frame-encode_header :
      (f : Frame) (rest : List ℕ)
      → length f.payload < u32_mod
      → read_frame R (holding (encode f ++ rest))
        ≡ read_header R f.version
            (as_u8 f.msg_type)
            (length f.payload)
            (holding (f.payload ++ rest))
  unfolding encode
  read_frame-encode_header f rest h =
      let n = length f.payload in
      let e : n % u32_mod ≡ n = omega arith in
      rw (read_frame-header, e)
        (ap (λ k. read_header R f.version (as_u8 f.msg_type) k (holding (f.payload ++ rest)))
          (from_be_bytes-be_bytes n h))

  -- A frame whose payload is at most 1 MB is read back as it was sent, and the reader stops at
  -- its last byte: whatever the peer sends behind it is still on the stream.
  pub read_frame-encode :
      (f : Frame) (rest : List ℕ)
      → length f.payload ≤ max_payload_size
      → read_frame R (holding (encode f ++ rest)) ≡ (ok (some f), holding rest)
  read_frame-encode f rest h =
      rw
        (
          read_frame-encode_header f rest (omega arith),
          read_header_fits f.version f.msg_type (length f.payload) (holding (f.payload ++ rest)) h,
        )
        (read_payload_full f.version f.msg_type f.payload rest)

  -- A payload over 1 MB, of fewer than 2 ^ 32 bytes, is encoded without an error, and the reader
  -- refuses it with its length and the limit, leaving the payload unread.
  pub read_frame-encode_oversize :
      (f : Frame) (rest : List ℕ)
      → max_payload_size < length f.payload
      → length f.payload < u32_mod
      → read_frame R (holding (encode f ++ rest))
        ≡ (err (payload_too_large (length f.payload) max_payload_size), holding (f.payload ++ rest))
  unfolding read_header
  read_frame-encode_oversize f rest big fits =
      rw (read_frame-encode_header f rest fits, lt→ltb _ _ big, read_header)

  read_frame_short :
      (xs : List ℕ) → length xs < 6 → read_frame R (holding xs) ≡ (ok none, holding [])
  unfolding read_frame
  read_frame_short xs h = rw (law.read_short 6 xs (lt→ltb _ _ h), read_frame)

  -- A stream that ends anywhere inside an encoded frame gives no frame and no error.
  pub read_frame-encode_cut :
      (f : Frame) (k : ℕ)
      → length f.payload ≤ max_payload_size
      → k < length (encode f)
      → read_frame R (holding (take k (encode f))) ≡ (ok none, holding [])
  unfolding encode
  read_frame-encode_cut f zero fits short = read_frame_short [] (omega arith)
  read_frame-encode_cut f (suc zero) fits short = read_frame_short _ (omega arith)
  read_frame-encode_cut f (suc (suc zero)) fits short = read_frame_short _ (omega arith)
  read_frame-encode_cut f (suc (suc (suc zero))) fits short = read_frame_short _ (omega arith)
  read_frame-encode_cut f (suc (suc (suc (suc zero)))) fits short = read_frame_short _ (omega arith)
  read_frame-encode_cut f (suc (suc (suc (suc (suc zero))))) fits short =
      read_frame_short _ (omega arith)
  read_frame-encode_cut f (suc (suc (suc (suc (suc (suc k)))))) fits short =
      let n = length f.payload in
      let e : n % u32_mod ≡ n = omega arith in
      rw
        (
          read_frame-header,
          e,
          from_be_bytes-be_bytes n (omega arith),
          read_header_fits f.version f.msg_type n (holding (take k f.payload)) fits,
        )
        (read_payload_short f.version f.msg_type n (take k f.payload)
          (omega (arith, length-take-le k f.payload)))
