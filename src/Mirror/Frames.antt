-- ===== src/Mirror/Frames.antt =====
-- The framing of the mirror stream.
use titan_share.Prelude.{
  ℕ, zero, suc, ◌+◌, ◌-◌, ◌^◌, ◌/◌, ◌%◌, ◌≤◌, ◌<◌, ltb, ◌==◌, ◌≡◌, refl, sym, ap, ◌∙◌, Bool, false,
  ◌||◌, if◌then◌else◌, Option, some, List, [], ◌∷◌, ◌++◌, append-nil, length, length-append,
  length-drop, take, drop, Bytes, arith, Bool-cases, inl, inr, take-append_exact, drop-append_exact,
  take_all, drop_over, take-append, drop-append,
}
use titan_share.Session.State.{ran}
use titan_share.Mirror.{
  Receiver, max_frame_bytes, read_exact, frame_length, read_frame, push_frame, read_loop,
  stream_bytes,
}

-- No piece is the end of the stream.
abbrev pub IsFlowing : List Bytes → Type 0
IsFlowing [] = Unit
IsFlowing (p ∷ ps) = (0 < length p) × IsFlowing ps

-- What a read took, and what is left.
record Reads (count : ℕ) (stream : List Bytes) : Type 0 where
  rest : List Bytes
  given : read_exact count stream ≡ some (take count (stream_bytes stream), rest)
  left : stream_bytes rest ≡ drop count (stream_bytes stream)
  flows : IsFlowing rest

read_exact-Reads :
    (count : ℕ) (stream : List Bytes)
    → IsFlowing stream
    → count ≤ length (stream_bytes stream)
    → Reads count stream
unfolding read_exact stream_bytes
read_exact-Reads count [] f h = record {
  rest = [];
  given = ground arith;
  left = ground arith;
  flows = tt;
}
read_exact-Reads count (p ∷ ps) f h = elim (Bool-cases (ltb count (length p))) [
  | inl part ↦ elim (Bool-cases (count == 0)) [
    | inl nothing ↦ record { rest = p ∷ ps; given = ground arith; left = ground arith; flows = f }
    | inr some_bytes ↦
        let none_over : count - length p ≡ 0 = ground arith in
        record {
          rest = drop count p ∷ ps;
          given = ground (
            arith,
            take-append count p (stream_bytes ps)
                ∙ ap (λ k. take count p ++ take k (stream_bytes ps)) none_over
                ∙ append-nil (take count p),
          );
          left = sym (
              drop-append count p (stream_bytes ps)
              ∙ ap (λ k. drop count p ++ drop k (stream_bytes ps)) none_over);
          flows = (ground (arith, length-drop count p), f.1);
        }
  ]
  | inr whole ↦
      let r =
        read_exact-Reads (count - length p) ps f.1
          (omega (arith, length-append p (stream_bytes ps))) in
      record {
        rest = r.rest;
        given = ground (arith, r.given, take_all count p, take-append count p (stream_bytes ps));
        left =
            r.left
            ∙ sym (
                drop-append count p (stream_bytes ps)
                ∙ ap (λ d. d ++ drop (count - length p) (stream_bytes ps))
                    (drop_over count p (ground arith)));
        flows = r.flows;
      }
]

-- A number in four bytes, high byte first.
abbrev pub frame_header : ℕ → Bytes
frame_header n = n / 16777216 % 256 ∷ n / 65536 % 256 ∷ n / 256 % 256 ∷ n % 256 ∷ []

abbrev pub encode_frame : Bytes → Bytes
encode_frame payload = frame_header (length payload) ++ payload

abbrev pub encode : List Bytes → Bytes
encode [] = []
encode (f ∷ fs) = encode_frame f ++ encode fs

abbrev pub FramesFit : List Bytes → Type 0
FramesFit [] = Unit
FramesFit (f ∷ fs) = (0 < length f) × (length f ≤ max_frame_bytes) × FramesFit fs

frame_length-frame_header :
    (n : ℕ) (rest : Bytes) → n < 2 ^ 32 → frame_length (frame_header n ++ rest) ≡ n
unfolding frame_length
frame_length-frame_header n rest h = omega arith

read_frame_step :
    (stream rest : List Bytes) (hdr : Bytes) (n : ℕ) (result : Option (Bytes × List Bytes))
    → read_exact 4 stream ≡ some (hdr, rest)
    → frame_length hdr ≡ n
    → (n == 0 || ltb max_frame_bytes n) ≡ false
    → read_exact n rest ≡ result
    → read_frame stream ≡ result
unfolding read_frame
read_frame_step stream rest hdr n result given len fits body =
    rw (given, read_frame, len, fits) body

-- A frame at the front of the stream is read, whatever the pieces.
read_frame_lem :
    (payload more : Bytes) (stream : List Bytes)
    → IsFlowing stream
    → stream_bytes stream ≡ encode_frame payload ++ more
    → 0 < length payload
    → length payload ≤ max_frame_bytes
    → (rest : List Bytes) × (read_frame stream ≡ some (payload, rest))
      × (stream_bytes rest ≡ more)
      × IsFlowing rest
read_frame_lem payload more stream f e h k =
    let size : length (stream_bytes stream) ≡ 4 + length payload + length more =
      ap length e ∙ omega (arith, length-append payload more) in
    let hdr = read_exact-Reads 4 stream f (omega (arith, size)) in
    let left : stream_bytes hdr.rest ≡ payload ++ more = hdr.left ∙ ap (drop 4) e in
    let body =
      read_exact-Reads (length payload) hdr.rest hdr.flows
        (omega (arith, ap length left, length-append payload more)) in
    let len : frame_length (take 4 (stream_bytes stream)) ≡ length payload =
      ap (λ s. frame_length (take 4 s)) e
      ∙ frame_length-frame_header (length payload) [] (omega arith) in
    let taken : take (length payload) (stream_bytes hdr.rest) ≡ payload =
      ap (take (length payload)) left ∙ take-append_exact (length payload) payload more refl in
    let fits : (length payload == 0 || ltb max_frame_bytes (length payload)) ≡ false =
      ground arith in
    (
      body.rest,
      read_frame_step stream hdr.rest _ (length payload) _ hdr.given len fits
          (body.given ∙ ap (λ b. some (b, body.rest)) taken),
      body.left
          ∙ ap (drop (length payload)) left
          ∙ drop-append_exact (length payload) payload more refl,
      body.flows,
    )

-- The frames that the pipeline takes, behind those before, newest first.
unfoldable pub taken_by : (Bytes → Bool) → List Bytes → List Bytes → List Bytes
taken_by accepts [] before = before
taken_by accepts (f ∷ fs) before = taken_by accepts fs (if accepts f then f ∷ before else before)

unfoldable pub count_taken : (Bytes → Bool) → List Bytes → ℕ
count_taken accepts [] = 0
count_taken accepts (f ∷ fs) =
    let rest = count_taken accepts fs in if accepts f then suc rest else rest

-- The receiver once the pipeline was handed the frames.
abbrev pub showing : (Bytes → Bool) → List Bytes → Receiver → Receiver
showing accepts fs r = record r {
  frames = r.frames + count_taken accepts fs;
  pushed = taken_by accepts fs r.pushed;
}

showing-none : (accepts : Bytes → Bool) (r : Receiver) → r ≡ showing accepts [] r
unfolding taken_by count_taken
showing-none accepts r = ground arith

showing-push_frame :
    (accepts : Bytes → Bool) (f : Bytes) (fs : List Bytes) (r : Receiver)
    → showing accepts fs (push_frame accepts f r) ≡ showing accepts (f ∷ fs) r
unfolding push_frame taken_by count_taken
showing-push_frame accepts f fs r = ground arith

read_loop-ends :
    (stopped : ℕ → Bool) (accepts : Bytes → Bool) (fuel : ℕ) (stream : List Bytes) (r : Receiver)
    → stream_bytes stream ≡ []
    → IsFlowing stream
    → read_loop stopped accepts (suc fuel) stream r ≡ ran r
unfolding read_loop read_frame read_exact stream_bytes
read_loop-ends stopped accepts fuel [] r e f = ground arith
read_loop-ends stopped accepts fuel ((c ∷ cs) ∷ ps) r e f = cc
read_loop-ends stopped accepts fuel ([] ∷ ps) r e f = absurd (omega (arith, f.0))

-- A phone sends frames of 1 byte to 24 MiB, and the receiver is not stopped meanwhile. However the
-- network cuts the stream up, just those of them that the pipeline takes are in it afterwards, once
-- each, in order and whole, behind those before, and they are counted; nothing else of the receiver
-- changes.
pub read_loop-encode :
    (accepts : Bytes → Bool) (fuel : ℕ) (frames : List Bytes) (stream : List Bytes) (r : Receiver)
    → IsFlowing stream
    → stream_bytes stream ≡ encode frames
    → FramesFit frames
    → length (stream_bytes stream) < fuel
    → read_loop (λ _. false) accepts fuel stream r ≡ ran (showing accepts frames r)
unfolding read_loop taken_by count_taken
read_loop-encode accepts zero frames stream r f e k h = absurd (omega arith)
read_loop-encode accepts (suc fuel) [] stream r f e k h =
    read_loop-ends (λ _. false) accepts fuel stream r e f ∙ ap ran (showing-none accepts r)
read_loop-encode accepts (suc fuel) (p ∷ frames) stream r f e k h =
    let (positive, small, others) = k in
    let (rest, given, left, flows) = read_frame_lem p (encode frames) stream f e positive small in
    rw (given, read_loop)
      (read_loop-encode accepts fuel frames rest (push_frame accepts p r) flows left others (
          omega
            (arith, ap length left, ap length e, length-append (encode_frame p) (encode frames)))
        ∙ ap ran (showing-push_frame accepts p frames r))
