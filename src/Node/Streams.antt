-- ===== src/Node/Streams.antt =====
-- crates/bitcord-core/src/network/protocol.rs and the request loop of crates/bitcord-core/src/node/handler.rs:
-- the frames, and the streams of one connection.
use bit_cord.Prelude.{
  ℕ, suc, ◌^◌, ◌<◌, ◌≡◌, refl, ap, ◌∙◌, false, Bytes, List, [], ◌∷◌, ◌++◌, Option, none, some,
  length, take, drop, ltb, if◌then◌else◌, arith, Bool-cases, inl, inr, length-append, subst,
  append_assoc,
}
use bit_cord.Node.Table.{Tables}
use bit_cord.Node.Keys.{to_be_bytes, from_be_bytes, from_be_bytes-to_be_bytes, length-to_be_bytes}
use bit_cord.Node.Protocol.{ClientRequest, NodeResponse}
use bit_cord.Node.Session.{ClientSession, NodeServices, NodeEnv, Moment}
use bit_cord.Node.Handler.{dispatch}

abbrev pub max_frame : ℕ
max_frame = 4194304

-- The bytes of the value are postcard's; a length that does not fit in 32 bits is an error.
unfoldable pub encode_frame : Bytes → Option Bytes
encode_frame payload =
    if ltb (length payload) (2 ^ 32) then some (to_be_bytes 4 (length payload) ++ payload) else none

-- The reads from a stream up to the payload; `none` ends the connection.
unfoldable pub read_frame : Bytes → Option Bytes
read_frame stream =
    let len = from_be_bytes 0 (take 4 stream) in
    if ltb (length stream) 4
    then none
    else if ltb max_frame len
    then none
    else if ltb (length (drop 4 stream)) len
    then none
    else some (take len (drop 4 stream))

take-length : (x y : Bytes) → take (length x) (x ++ y) ≡ x
take-length [] y = refl
take-length (b ∷ x) y = ap (λ z. b ∷ z) (take-length x y)

drop-length : (x y : Bytes) → drop (length x) (x ++ y) ≡ y
drop-length [] y = refl
drop-length (b ∷ x) y = drop-length x y

-- A payload of at most 4 MiB is framed, and read back from a stream that goes on behind it; a longer
-- one that can be framed ends the connection.
pub read_frame-encode_frame :
    (payload rest : Bytes)
    → length payload < 2 ^ 32
    → (frame : Bytes) × (encode_frame payload ≡ some frame)
      × (read_frame (frame ++ rest)
          ≡ (if ltb max_frame (length payload) then none else some payload))
unfolding encode_frame read_frame
read_frame-encode_frame payload rest fits =
    let len = length payload in
    let be = to_be_bytes 4 len in
    let four : length be ≡ 4 = length-to_be_bytes 4 len in
    let frame = be ++ payload in
    let whole : frame ++ rest ≡ be ++ (payload ++ rest) = append_assoc be payload rest in
    let head : take 4 (frame ++ rest) ≡ be =
      ap (take 4) whole
      ∙ subst (λ n. take n (be ++ (payload ++ rest)) ≡ be) four
          (take-length be (payload ++ rest)) in
    let tail : drop 4 (frame ++ rest) ≡ payload ++ rest =
      ap (drop 4) whole
      ∙ subst (λ n. drop n (be ++ (payload ++ rest)) ≡ payload ++ rest) four
          (drop-length be (payload ++ rest)) in
    let read : from_be_bytes 0 (take 4 (frame ++ rest)) ≡ len =
      ap (from_be_bytes 0) head ∙ from_be_bytes-to_be_bytes 4 len (omega (arith, fits)) in
    let short : ltb (length (frame ++ rest)) 4 ≡ false =
      ground (arith, ap length whole, length-append be (payload ++ rest), four) in
    let enough : ltb (length (payload ++ rest)) len ≡ false =
      ground (arith, length-append payload rest) in
    (
      frame,
      ground (arith, fits),
      elim (Bool-cases (ltb max_frame len)) [
        | inl big ↦ rw (read_frame, short, read, big) refl
        | inr small ↦
            rw (read_frame, short, read, small, tail, enough) (ap some (take-length payload rest))
      ],
    )

module _ {T : Type 0} (R : Tables T) (ne : NodeEnv) (decode_payload : Bytes → Option ClientRequest)
    (response_bytes : NodeResponse → Option Bytes) where
  -- `encode_frame(&resp)`
  abbrev pub answer_frame : NodeResponse → Option Bytes
  answer_frame resp = elim (response_bytes resp) [ none ↦ none | some bytes ↦ encode_frame bytes ]

  -- The request loop: the streams that the client opens, one after another. A stream that cannot be
  -- read and a response that cannot be written end the connection, a malformed request is skipped.
  unfoldable pub connection :
      List (Moment × Bytes) → ClientSession → NodeServices T → ClientSession × NodeServices T
  unfolding read_frame encode_frame dispatch
  connection [] sess sv = (sess, sv)
  connection ((now, stream) ∷ streams) sess sv =
      let skipped = connection streams sess sv in
      elim (read_frame stream) [
        | none ↦ (sess, sv)
        | some payload ↦ elim (decode_payload payload) [
          | none ↦ skipped
          | some req ↦
              let a = dispatch R ne now req sess sv in
              let next = connection streams a.0.0 a.0.1 in
              elim (answer_frame a.1) [ none ↦ a.0 | some frame ↦ next ]
        ]
      ]

  -- The requests that the streams carry, up to the first that cannot be read; what does not decode
  -- is no request.
  abbrev pub carried : List (Moment × Bytes) → List (Moment × ClientRequest)
  carried [] = []
  carried ((now, stream) ∷ streams) =
      let rest = carried streams in
      elim (read_frame stream) [
        | none ↦ []
        | some payload ↦ elim (decode_payload payload) [
          | none ↦ rest
          | some req ↦ (now, req) ∷ rest
        ]
      ]

  -- The answers to requests that are served one after another.
  abbrev pub answers :
      List (Moment × ClientRequest) → ClientSession → NodeServices T → List NodeResponse
  answers [] sess sv = []
  answers ((now, req) ∷ reqs) sess sv =
      let a = dispatch R ne now req sess sv in a.1 ∷ answers reqs a.0.0 a.0.1

  -- How many answers come before the first that cannot be written.
  abbrev pub written : List NodeResponse → ℕ
  written [] = 0
  written (r ∷ rs) =
      let rest = written rs in elim (answer_frame r) [ none ↦ 0 | some frame ↦ suc rest ]
