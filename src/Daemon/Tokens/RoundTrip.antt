-- ===== src/Daemon/Tokens/RoundTrip.antt =====
-- Tokens and stored secrets of internal/daemon: what is written is read back.
use Prim.Native.String.append.{nil, cons}
use quptime.Prelude.{
  String, true, false, ◌||◌, Option, none, some, List, [], ◌∷◌, ◌≡◌, ◌≢◌, refl, inl, inr, ◌==◌,
  eq_iff, arith, ◌↔◌, Bool-cases, text_append, ap, sym, ◌∙◌,
}
use quptime.Daemon.Enroll.{Surroundings, strip_prefix, decode_hash_hex, verify_enroll_secret}
use quptime.Daemon.Tokens.{
  EnrollEndpoint, EnrollmentTokenPayload, TokenCodec, token, encode_enrollment_token,
  decode_enrollment_token, decoded_token, parsed_token, complete_token, hash_enroll_secret,
}

-- The payload can be redeemed: it has an id, a secret, and somewhere to go.
pub record Usable (p : EnrollmentTokenPayload) : Type 0 where
  pub named : p.id ≢ ""
  pub secret : p.secret ≢ ""
  pub endpoints : p.endpoints ≢ []

complete_token_iff :
    (p q : EnrollmentTokenPayload) (es : List EnrollEndpoint)
    → p.endpoints ≡ es
    → (complete_token p es ≡ token q) ↔ ((p ≡ q) × Usable p)
unfolding complete_token
complete_token_iff p q [] e = (λ h. cc, λ (h, u). absurd (u.endpoints e))
complete_token_iff p q (x ∷ rest) e = elim (Bool-cases (p.id == "" || p.secret == "")) [
  | inl t ↦ simp t (
    λ h. cc,
    λ (h, u). absurd (ground (arith, eq_iff p.id "", eq_iff p.secret "", u.named, u.secret, t)),
  )
  | inr t ↦ simp t (
    λ h. (
      cc,
      record {
        named = ground (arith, eq_iff p.id "", t);
        secret = ground (arith, eq_iff p.secret "", t);
        endpoints = λ n. cc;
      },
    ),
    λ (h, u). ap token h,
  )
]

module _ (k : TokenCodec) where
  -- Where the codecs read back what they write, the token of a payload decodes to that payload
  -- exactly when the payload has an id, a secret and an endpoint.
  pub decode_enrollment_token-encode_enrollment_token :
      ((raw : String) → k.decode_base64 (k.encode_base64 raw) ≡ some raw)
      → ((p : EnrollmentTokenPayload) → k.unmarshal (k.marshal p) ≡ some p)
      → (p : EnrollmentTokenPayload)
      → (decode_enrollment_token k (encode_enrollment_token k p) ≡ token p) ↔ Usable p
  unfolding decode_enrollment_token encode_enrollment_token decoded_token parsed_token
  decode_enrollment_token-encode_enrollment_token b j p =
      let read : decode_enrollment_token k (encode_enrollment_token k p)
          ≡ complete_token p p.endpoints =
        simp (b (k.marshal p), j p) refl in
      let both = complete_token_iff p p p.endpoints refl in
      rw read (λ h. (both.0 h).1, λ u. both.1 (refl, u))

-- the prefix that `hashEnrollSecret` writes is the one that `decodeHashHex` strips
strip_prefix-hash :
    (rest : String) → strip_prefix "sha256:" (text_append "sha256:" rest) ≡ some rest
unfolding strip_prefix
strip_prefix-hash rest = rw (cons, cons, cons, cons, cons, cons, cons, nil)

-- what `hashEnrollSecret` writes, `decodeHashHex` decodes
decode_hash_hex-hash :
    (decode : String → Option String) (sum : String → String) (secret : String)
    → sum secret ≢ ""
    → decode_hash_hex decode (hash_enroll_secret sum secret) ≡ decode (sum secret)
unfolding decode_hash_hex hash_enroll_secret
decode_hash_hex-hash decode sum secret full =
    let filled : (sum secret == "") ≡ false = ground (arith, eq_iff (sum secret) "", full) in
    simp (strip_prefix-hash (sum secret), filled) refl

-- A presented secret passes against the stored hash of a secret exactly when both have the same
-- SHA-256, where hex decoding reads back the sum that was written and the sum is not empty.
pub verify_enroll_secret-hash_enroll_secret :
    (d : Surroundings) (sum : String → String) (secret presented : String)
    → d.decode_hex (sum secret) ≡ some (d.sha256 secret)
    → sum secret ≢ ""
    → (verify_enroll_secret d presented (hash_enroll_secret sum secret) ≡ true)
      ↔ (d.sha256 presented ≡ d.sha256 secret)
unfolding verify_enroll_secret
verify_enroll_secret-hash_enroll_secret d sum secret presented hex full =
    let same = eq_iff (d.sha256 secret) (d.sha256 presented) in
    let read : verify_enroll_secret d presented (hash_enroll_secret sum secret)
        ≡ (d.sha256 secret == d.sha256 presented) =
      ap (λ (o : Option String). elim o [ none ↦ false | some want ↦ want == d.sha256 presented ])
        (decode_hash_hex-hash d.decode_hex sum secret full ∙ hex) in
    rw read (λ h. sym (same.0 h), λ h. same.1 (sym h))
