-- ===== src/Transport/Client/Verifier.antt =====
-- Whom a dial of internal/transport accepts: `makeStrictVerifier` of tls.go.
use quptime.Prelude.{
  String, false, Option, none, some, List, [], ◌∷◌, ◌≡◌, ◌≢◌, refl, ◌↔◌, ◌==◌, eq_iff, arith,
  lookup, Bool-cases, inl, inr, ap, ◌∙◌, sym,
}
use quptime.Transport.Trust.{Entry, Entries}
use quptime.Transport.Client.{strict_verifier, strict_parsed, strict_entry, client_verifier}

-- The first certificate parses, and its fingerprint is that of the node's entry.
abbrev pub Presents : {Raw : Type 0} → (Raw → Option String) → String → List Raw → Entries → Type 0
Presents {Raw = Raw} fingerprint node_id certs store =
    (raw : Raw) × (rest : List Raw) × (e : Entry) × (certs ≡ raw ∷ rest)
    × (fingerprint raw ≡ some e.fingerprint)
    × (lookup node_id store ≡ some e)

strict_entry_iff :
    (fp : String) (o : Option Entry)
    → (strict_entry fp o ≡ none) ↔ ((e : Entry) × (o ≡ some e) × (fp ≡ e.fingerprint))
unfolding strict_entry
strict_entry_iff fp none = (λ h. cc, λ (e, q, _). cc)
strict_entry_iff fp (some e) = elim (Bool-cases (fp == e.fingerprint)) [
  | inl t ↦ simp t (λ h. (e, refl, (eq_iff fp e.fingerprint).0 t), λ h. refl)
  | inr t ↦ simp t (
    λ h. cc,
    λ (x, q, f).
        let same : e ≡ x = cc in
        absurd (
          ground
            (arith, eq_iff fp e.fingerprint, t, f ∙ ap (λ (y : Entry). y.fingerprint) (sym same))),
  )
]

strict_parsed_iff :
    (node_id : String) (store : Entries) (o : Option String)
    → (strict_parsed node_id store o ≡ none)
      ↔ ((e : Entry) × (o ≡ some e.fingerprint) × (lookup node_id store ≡ some e))
unfolding strict_parsed
strict_parsed_iff node_id store none = (λ h. cc, λ (e, q, _). cc)
strict_parsed_iff node_id store (some fp) =
    let both = strict_entry_iff fp (lookup node_id store) in
    (λ h. let (e, l, f) = both.0 h in (e, ap some f, l), λ (e, q, l). both.1 (e, l, cc))

strict_verifier_iff :
    {Raw : Type 0} (fingerprint : Raw → Option String) (node_id : String) (certs : List Raw)
    (store : Entries)
    → (strict_verifier fingerprint node_id certs store ≡ none)
      ↔ Presents fingerprint node_id certs store
unfolding strict_verifier
strict_verifier_iff fingerprint node_id [] store = (λ h. cc, λ (raw, rest, e, q, _, _). cc)
strict_verifier_iff fingerprint node_id (raw ∷ rest) store =
    let both = strict_parsed_iff node_id store (fingerprint raw) in
    (
      λ h. let (e, f, l) = both.0 h in (raw, rest, e, refl, f, l),
      λ (r, more, e, q, f, l). let same : raw ≡ r = cc in both.1 (e, rw same f, l),
    )

-- A dial to a named node accepts the other side exactly when the first certificate that it presents
-- parses and has the fingerprint under which this very node is trusted.
pub client_verifier_iff :
    {Raw : Type 0} (fingerprint : Raw → Option String) (node_id : String) (certs : List Raw)
    (store : Entries)
    → node_id ≢ ""
    → (client_verifier fingerprint node_id certs store ≡ none)
      ↔ Presents fingerprint node_id certs store
unfolding client_verifier
client_verifier_iff fingerprint node_id certs store n =
    let named : (node_id == "") ≡ false = ground (arith, eq_iff node_id "", n) in
    simp named (strict_verifier_iff fingerprint node_id certs store)
