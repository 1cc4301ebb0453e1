-- ===== src/Daemon/Tokens.antt =====
-- Enrollment tokens: `EncodeEnrollmentToken` and `DecodeEnrollmentToken` of
-- internal/daemon/control.go, and `hashEnrollSecret` of internal/daemon/handlers.go. The JSON and
-- base64 codecs, SHA-256 and hex encoding are arguments.
pub mod RoundTrip
use quptime.Prelude.{
  ℕ, String, ◌||◌, Option, none, some, List, [], ◌∷◌, ◌==◌, if◌then◌else◌, text_append,
}

pub record EnrollEndpoint : Type 0 where
  pub advertise : String
  pub fingerprint : String

pub record EnrollmentTokenPayload : Type 0 where
  pub id : String
  pub secret : String
  pub endpoints : List EnrollEndpoint
  pub expires_at : ℕ

-- encoding/json on the payload, and base64.RawURLEncoding
pub record TokenCodec : Type 0 where
  pub marshal : EnrollmentTokenPayload → String
  pub unmarshal : String → Option EnrollmentTokenPayload
  pub encode_base64 : String → String
  pub decode_base64 : String → Option String

pub data TokenError : Type 0 where
  decode_token parse_token malformed_token : TokenError

pub data Decoded : Type 0 where
  token : EnrollmentTokenPayload → Decoded
  bad_token : TokenError → Decoded

-- `EncodeEnrollmentToken`
unfoldable pub encode_enrollment_token : TokenCodec → EnrollmentTokenPayload → String
encode_enrollment_token k p = k.encode_base64 (k.marshal p)

complete_token : EnrollmentTokenPayload → List EnrollEndpoint → Decoded
complete_token p [] = bad_token malformed_token
complete_token p (e ∷ rest) =
    if p.id == "" || p.secret == "" then bad_token malformed_token else token p

parsed_token : Option EnrollmentTokenPayload → Decoded
unfolding complete_token
parsed_token none = bad_token parse_token
parsed_token (some p) = complete_token p p.endpoints

decoded_token : TokenCodec → Option String → Decoded
unfolding parsed_token
decoded_token k none = bad_token decode_token
decoded_token k (some raw) = parsed_token (k.unmarshal raw)

-- `DecodeEnrollmentToken`
unfoldable pub decode_enrollment_token : TokenCodec → String → Decoded
unfolding decoded_token
decode_enrollment_token k s = decoded_token k (k.decode_base64 s)

-- `hashEnrollSecret`; `sum` is SHA-256 of the secret as lower-case hex
unfoldable pub hash_enroll_secret : (String → String) → String → String
hash_enroll_secret sum secret = text_append "sha256:" (sum secret)
