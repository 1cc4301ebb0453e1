-- ===== src/Transport/Frame/Streams.antt =====
-- The streams that `readFrame` of internal/transport/frame.go accepts.
use quptime.Prelude.{
  ℕ, ◌+◌, ◌*◌, ◌/◌, ◌%◌, ◌≤◌, ◌<◌, List, [], ◌∷◌, ◌++◌, ◌≡◌, refl, inl, inr, arith, ltb, length,
  Bool-cases, All, sym,
}
use mathlib.Core.List.{append_assoc}
use quptime.Transport.Frame.{
  max_frame_size, put_uint32, uint32, Read, got, failed, read_full, read_body, read_frame,
}
use quptime.Transport.Frame.RoundTrip.{framed, read_full_got}

abbrev pub IsByte : ℕ → Type 0
IsByte b = b < 256

read_body_got :
    (hdr s body rest : List ℕ)
    → read_body (got hdr s) ≡ got body rest
    → (uint32 hdr ≤ max_frame_size) × (read_full (uint32 hdr) s ≡ got body rest)
unfolding read_body
read_body_got hdr s body rest e = elim (Bool-cases (ltb max_frame_size (uint32 hdr))) [
  | inl t ↦ cc
  | inr t ↦ (ground arith, simp t at e)
]

put_uint32-uint32 : (hdr : List ℕ) → length hdr ≡ 4 → All IsByte hdr → put_uint32 (uint32 hdr) ≡ hdr
unfolding put_uint32 uint32
put_uint32-uint32 [] l h = cc
put_uint32-uint32 (a ∷ []) l h = cc
put_uint32-uint32 (a ∷ b ∷ []) l h = cc
put_uint32-uint32 (a ∷ b ∷ c ∷ []) l h = cc
put_uint32-uint32 (a ∷ b ∷ c ∷ d ∷ []) l (ha, (hb, (hc, (hd, _)))) =
    let wa : ((a * 16777216 + b * 65536 + c * 256 + d) / 16777216) % 256 ≡ a = omega arith in
    let wb : ((a * 16777216 + b * 65536 + c * 256 + d) / 65536) % 256 ≡ b = omega arith in
    let wc : ((a * 16777216 + b * 65536 + c * 256 + d) / 256) % 256 ≡ c = omega arith in
    let wd : (a * 16777216 + b * 65536 + c * 256 + d) % 256 ≡ d = omega arith in
    rw wa (rw wb (rw wc (rw wd refl)))
put_uint32-uint32 (a ∷ b ∷ c ∷ d ∷ e ∷ hdr) l h = cc

All-append_left : (xs ys : List ℕ) → All IsByte (xs ++ ys) → All IsByte xs
All-append_left [] ys h = tt
All-append_left (x ∷ xs) ys (h, hs) = (h, All-append_left xs ys hs)

read_body_split :
    (r : Read) (body rest : List ℕ)
    → read_body r ≡ got body rest
    → (hdr : List ℕ) × (left : List ℕ) × (r ≡ got hdr left)
unfolding read_body
read_body_split (got hdr left) body rest e = (hdr, left, refl)
read_body_split (failed x) body rest e = cc

-- Where `readFrame` returns a body from a stream of bytes, the body has at most MaxFrameSize bytes
-- and the stream was its frame followed by what is left on the stream.
pub read_frame-framed :
    (s body rest : List ℕ)
    → All IsByte s
    → read_frame s ≡ got body rest
    → (length body ≤ max_frame_size) × (s ≡ framed body ++ rest)
unfolding read_frame
read_frame-framed s body rest bytes e =
    let (hdr, left, h) = read_body_split (read_full 4 s) body rest e in
    let (q, four) = read_full_got 4 s hdr left h in
    let (fits, k) = read_body_got hdr left body rest (rw h at e) in
    let (p, n) = read_full_got (uint32 hdr) left body rest k in
    let front : put_uint32 (uint32 hdr) ≡ hdr =
      put_uint32-uint32 hdr four (All-append_left hdr left (rw q at bytes)) in
    (rw n fits, rw q (rw n (rw front (rw p (sym (append_assoc hdr body rest))))))
