-- ===== src/Transport/Frame/RoundTrip.antt =====
-- What `readFrame` of internal/transport/frame.go makes of a stream.
use quptime.Prelude.{
  false, ℕ, zero, suc, ◌%◌, ◌^◌, ◌≤◌, ◌<◌, String, Option, none, some, List, [], ◌∷◌, ◌++◌, ◌≡◌,
  refl, ap, ◌∙◌, arith, ltb, length,
}
use mathlib.Core.List.{append_assoc}
use quptime.Transport.Frame.{
  max_frame_size, put_uint32, uint32, frame_too_large, write_body, write_frame, Read, got, failed,
  more, read_full, read_body, read_frame,
}

-- a buffer: what is written is appended to it
abbrev pub append_write : List ℕ → List ℕ → List ℕ × Option String
append_write w bs = (w ++ bs, none)

-- A frame: the header, then the body.
abbrev pub framed : List ℕ → List ℕ
framed body = put_uint32 (length body) ++ body

uint32-put_uint32 : (n : ℕ) → n < 2 ^ 32 → uint32 (put_uint32 n) ≡ n
unfolding uint32 put_uint32
uint32-put_uint32 n h = omega arith

read_full-append : (bs rest : List ℕ) → read_full (length bs) (bs ++ rest) ≡ got bs rest
unfolding read_full
read_full-append [] rest = refl
read_full-append (b ∷ bs) rest = rw (read_full-append bs rest) refl

more_got :
    (b : ℕ) (r : Read) (bs rest : List ℕ)
    → more b r ≡ got bs rest
    → (tail : List ℕ) × (r ≡ got tail rest) × (bs ≡ b ∷ tail)
unfolding more
more_got b (got xs s) bs rest e = (xs, cc, cc)
more_got b (failed x) bs rest e = cc

pub read_full_got :
    (n : ℕ) (s bs rest : List ℕ) → read_full n s ≡ got bs rest → (s ≡ bs ++ rest) × (length bs ≡ n)
unfolding read_full
read_full_got zero s bs rest e = let q : [] ≡ bs = cc in let r : s ≡ rest = cc in rw (← q) (r, refl)
read_full_got (suc n) [] bs rest e = cc
read_full_got (suc n) (b ∷ s) bs rest e =
    let (tail, h, q) = more_got b (read_full n s) bs rest e in
    let (k, l) = read_full_got n s tail rest h in rw q (ap (λ x. b ∷ x) k, ap suc l)

read_body_fits :
    (hdr rest : List ℕ) (n : ℕ)
    → uint32 hdr ≡ n
    → n ≤ max_frame_size
    → read_body (got hdr rest) ≡ read_full n rest
unfolding read_body
read_body_fits hdr rest n e h = rw e (ground (arith, h))

write_frame_fits :
    (w body : List ℕ)
    → length body ≤ max_frame_size
    → write_frame append_write w body ≡ (w ++ framed body, none)
unfolding write_frame write_body
write_frame_fits w body h =
    let e : ltb max_frame_size (length body) ≡ false = ground (arith, h) in
    let m : length body % 2 ^ 32 ≡ length body = omega (arith, h) in
    rw e (rw m (rw (append_assoc w (put_uint32 (length body)) body) refl))

read_framed :
    (body rest : List ℕ)
    → length body ≤ max_frame_size
    → read_frame (framed body ++ rest) ≡ got body rest
unfolding read_frame put_uint32 read_full
read_framed body rest h =
    read_body_fits (put_uint32 (length body)) (body ++ rest) (length body)
      (uint32-put_uint32 (length body) (omega (arith, h))) h
    ∙ read_full-append body rest

write_frame_large :
    (w body : List ℕ)
    → max_frame_size < length body
    → write_frame append_write w body ≡ (w, some frame_too_large)
unfolding write_frame
write_frame_large w body h = ground (arith, h)

-- Of a body of at most MaxFrameSize bytes, `writeFrame` appends one frame to a buffer without an
-- error, and from any stream that begins with that frame, `readFrame` returns the body and leaves
-- the bytes behind the frame; of a longer body, nothing is written and the error says so.
pub read_frame-write_frame :
    (w body rest : List ℕ)
    → (length body ≤ max_frame_size
        → (write_frame append_write w body ≡ (w ++ framed body, none))
          × (read_frame (framed body ++ rest) ≡ got body rest))
      × (max_frame_size < length body → write_frame append_write w body ≡ (w, some frame_too_large))
read_frame-write_frame w body rest =
    (λ h. (write_frame_fits w body h, read_framed body rest h), write_frame_large w body)
