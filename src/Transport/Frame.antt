-- ===== src/Transport/Frame.antt =====
-- `writeFrame` and `readFrame` of internal/transport/frame.go. A byte is a number below 256. A stream
-- is the bytes that are left on it; a writer is an argument with its own state.
pub mod RoundTrip
pub mod Streams
use quptime.Prelude.{
  ℕ, zero, suc, ◌+◌, ◌*◌, ◌/◌, ◌%◌, ◌^◌, String, Option, none, some, List, [], ◌∷◌, ltb,
  if◌then◌else◌, length,
}

-- `MaxFrameSize`
abbrev pub max_frame_size : ℕ
max_frame_size = 16 * 1024 * 1024

-- `binary.BigEndian.PutUint32`, and `Uint32`
unfoldable pub put_uint32 : ℕ → List ℕ
put_uint32 n = (n / 16777216) % 256 ∷ (n / 65536) % 256 ∷ (n / 256) % 256 ∷ n % 256 ∷ []

unfoldable pub uint32 : List ℕ → ℕ
uint32 [] = 0
uint32 (a ∷ []) = a
uint32 (a ∷ b ∷ []) = a * 256 + b
uint32 (a ∷ b ∷ c ∷ []) = a * 65536 + b * 256 + c
uint32 (a ∷ b ∷ c ∷ d ∷ rest) = a * 16777216 + b * 65536 + c * 256 + d

-- `frame_too_large` and `exceeds_max` are the two errors of this file.
pub data FrameError : Type 0 where
  frame_too_large exceeds_max eof unexpected_eof : FrameError
  write_failed : String → FrameError

-- the write of the body, after that of the header
write_body :
    {W : Type 0}
    → (W → List ℕ → W × Option String)
    → List ℕ
    → W
    → Option String
    → W × Option FrameError
write_body write body w (some e) = (w, some (write_failed e))
write_body write body w none =
    let (after, failed) = write w body in
    (after, elim failed [ none ↦ none | some e ↦ some (write_failed e) ])

-- `writeFrame`
unfoldable pub write_frame :
    {W : Type 0} → (W → List ℕ → W × Option String) → W → List ℕ → W × Option FrameError
unfolding write_body put_uint32
write_frame write w body =
    if ltb max_frame_size (length body)
    then (w, some frame_too_large)
    else let (after, failed) = write w (put_uint32 (length body % 2 ^ 32)) in
      write_body write body after failed

-- What a read leaves: bytes with the rest of the stream, or an error.
pub data Read : Type 0 where
  got : List ℕ → List ℕ → Read
  failed : FrameError → Read

-- one byte more of a read that has begun
more : ℕ → Read → Read
more b (got bs rest) = got (b ∷ bs) rest
more b (failed e) = failed unexpected_eof

-- `io.ReadFull`: `eof` where no byte is read, `unexpected_eof` where some but not all are
unfoldable pub read_full : ℕ → List ℕ → Read
unfolding more
read_full zero s = got [] s
read_full (suc n) [] = failed eof
read_full (suc n) (b ∷ s) = more b (read_full n s)

unfoldable pub read_body : Read → Read
unfolding read_full uint32
read_body (failed e) = failed e
read_body (got hdr rest) =
    if ltb max_frame_size (uint32 hdr) then failed exceeds_max else read_full (uint32 hdr) rest

-- `readFrame`
unfoldable pub read_frame : List ℕ → Read
unfolding read_body
read_frame s = read_body (read_full 4 s)
