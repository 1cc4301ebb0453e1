-- ===== src/Daemon/Enroll/Sync.antt =====
-- `syncTrustFromCluster` of internal/daemon/daemon.go: the trust store after the configuration's
-- peers have been mirrored into it.
use quptime.Prelude.{
  String, Bool, Option-cases, true, ◌||◌, some, List, [], ◌∷◌, ◌≡◌, ◌≢◌, refl, ◌⊎◌, inl, inr, ◌==◌,
  eq_iff, arith, In, Distinct, lookup, Bool-cases, if◌then◌else◌, ◌∙◌, ap, sym,
}
use quptime.Config.Types.{PeerInfo}
use quptime.Replicate.Mutation.Ids.{node_ids}
use quptime.Transport.Trust.{Entry, Entries, add}
use quptime.Transport.Trust.Laws.{IsValid, add_lem}
use quptime.Daemon.Enroll.{Surroundings, sync_trust, trusted_as}

-- The peer can be trusted: it has an id, which is not this node's, a fingerprint and a certificate.
pub record Mirrored (d : Surroundings) (p : PeerInfo) : Type 0 where
  pub named : p.node_id ≢ ""
  pub other : p.node_id ≢ d.env.self_id
  pub fingerprint : p.fingerprint ≢ ""
  pub cert : p.cert_pem ≢ ""

-- The entry of the node has the fingerprint.
abbrev pub Pinned : String → String → Entries → Type 0
Pinned id fp store = (e : Entry) × (lookup id store ≡ some e) × (e.fingerprint ≡ fp)

module _ (d : Surroundings) where
  abbrev entry_of : PeerInfo → Entry
  entry_of p = record {
    node_id = p.node_id;
    address = p.advertise;
    fingerprint = p.fingerprint;
    public_key_pem = "";
    cert_pem = p.cert_pem;
    added_at = 0;
  }

  abbrev skips : PeerInfo → Entries → Bool
  skips p store =
      p.node_id == ""
      || p.node_id == d.env.self_id
      || p.fingerprint == ""
      || p.cert_pem == ""
      || trusted_as (lookup p.node_id store) p.fingerprint

  -- one step of the loop
  abbrev step : PeerInfo → Entries → Entries
  step p store = if skips p store then store else (add d.trust_disk d.env.now (entry_of p) store).0

  sync_trust-cons :
      (p : PeerInfo) (rest : List PeerInfo) (store : Entries)
      → sync_trust d (p ∷ rest) store ≡ sync_trust d rest (step p store)
  unfolding sync_trust
  sync_trust-cons p rest store = refl

  trusted_as-Pinned :
      (id fp : String) (store : Entries)
      → trusted_as (lookup id store) fp ≡ true
      → Pinned id fp store
  unfolding trusted_as
  trusted_as-Pinned id fp store h = elim (Option-cases (lookup id store)) [
    | inl e ↦ absurd (ground arith)
    | inr (x, e) ↦ (x, e, ground (arith, eq_iff x.fingerprint fp))
  ]

  -- what a step leaves: the store as it was, or the peer's entry written
  abbrev Stepped : PeerInfo → Entries → Type 0
  Stepped p store =
      IsValid (step p store)
      × ((id : String) → id ≢ p.node_id → lookup id (step p store) ≡ lookup id store)
      × (p.node_id ≡ d.env.self_id → step p store ≡ store)
      × (Mirrored d p → Pinned p.node_id p.fingerprint (step p store))

  step-Stepped : (p : PeerInfo) (store : Entries) → IsValid store → Stepped p store
  step-Stepped p store v = elim (Bool-cases (skips p store)) [
    | inl e ↦ simp e (
      v,
      λ id n. refl,
      λ h. refl,
      λ m. trusted_as-Pinned p.node_id p.fingerprint store (
          ground (
            arith,
            eq_iff p.node_id "",
            eq_iff p.node_id d.env.self_id,
            eq_iff p.fingerprint "",
            eq_iff p.cert_pem "",
            m.named,
            m.other,
            m.fingerprint,
            m.cert,
            e,
          )),
    )
    | inr e ↦
        let named : p.node_id ≢ "" = ground (arith, eq_iff p.node_id "", e) in
        let full : p.fingerprint ≢ "" = ground (arith, eq_iff p.fingerprint "", e) in
        let (written, others, _, valid) =
          (add_lem d.trust_disk d.env.now (entry_of p) store v).1 named full in
        simp e (
          valid,
          others,
          λ h. absurd (ground (arith, eq_iff p.node_id d.env.self_id, e)),
          λ m. (record (entry_of p) { added_at = d.env.now }, written, refl),
        )
  ]

  own_kept :
      (p : PeerInfo) (store : Entries) (id : String)
      → IsValid store
      → id ≡ d.env.self_id
      → lookup id (step p store) ≡ lookup id store
  own_kept p store id v e =
      let (_, others, own, _) = step-Stepped p store v in
      elim (Bool-cases (id == p.node_id)) [
        | inl same ↦
            let mine : p.node_id ≡ d.env.self_id = sym ((eq_iff id p.node_id).0 same) ∙ e in
            ap (lookup id) (own mine)
        | inr off ↦ others id (ground (arith, eq_iff id p.node_id, off))
      ]

  -- After the peers, with distinct ids, have been mirrored into a valid trust store, the store is
  -- valid, every peer but the node itself with a fingerprint and a certificate has an entry with its
  -- fingerprint, and nodes that are no such peers keep what they had: the node itself too.
  pub sync_trust-Pinned :
      (peers : List PeerInfo) (store : Entries)
      → Distinct (node_ids peers)
      → IsValid store
      → IsValid (sync_trust d peers store)
        × ((p : PeerInfo)
            → In p peers
            → Mirrored d p
            → Pinned p.node_id p.fingerprint (sync_trust d peers store))
        × ((id : String)
            → (¬ In id (node_ids peers)) ⊎ (id ≡ d.env.self_id)
            → lookup id (sync_trust d peers store) ≡ lookup id store)
  unfolding sync_trust
  sync_trust-Pinned [] store u v = (v, λ p m. absurd m, λ id h. refl)
  sync_trust-Pinned (p ∷ rest) store u v =
      let (valid, others, own, pinned) = step-Stepped p store v in
      let (ok, all, kept) = sync_trust-Pinned rest (step p store) u.1 valid in
      rw (sync_trust-cons p rest store) (
        ok,
        λ q m k. elim m [
          | inl e ↦ let (x, l, f) = pinned (rw e at k) in rw e (x, kept p.node_id (inl u.0) ∙ l, f)
          | inr n ↦ all q n k
        ],
        λ id h. elim h [
          | inl n ↦ kept id (inl (λ m. n (inr m))) ∙ others id (λ e. n (inl e))
          | inr e ↦ kept id (inr e) ∙ own_kept p store id v e
        ],
      )
