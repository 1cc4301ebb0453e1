-- ===== src/Transport/Trust/Laws.antt =====
-- The trust store of internal/trust/store.go: what it keeps, what it accepts, and its file.
use quptime.Prelude.{
  ℕ, String, Bool, true, false, ◌||◌, Option, none, some, List, [], ◌∷◌, ◌≡◌, ◌≢◌, refl, ap, sym,
  ◌∙◌, ◌↔◌, ◌⊎◌, inl, inr, ◌==◌, eq_iff, arith, if◌then◌else◌, nat_eq, In, All, Distinct, lookup,
  insert, remove, keys, lookup-insert, lookup-insert_self, lookup-remove, lookup-In-keys,
  Distinct-keys-insert, Distinct-keys-remove, In-keys-lookup, Bool-cases, Option-cases, if_both,
  In-map, eq_refl,
}
use quptime.Transport.Trust.{
  Entry, Entries, incomplete_entry, saved, load_entries, load, list, add, remove_entry,
  remove_found, lookup_by_fingerprint, verify_peer_cert, verify_fingerprint, verify_parsed,
}

-- Every entry is kept under its own node id.
abbrev pub Own : Entries → Type 0
Own = All (λ p. p.1.node_id ≡ p.0)

-- Each node has one entry, kept under its own id.
pub record IsValid (store : Entries) : Type 0 where
  pub distinct : Distinct (keys store)
  pub own : Own store

-- Some node's entry has the fingerprint.
abbrev pub Trusted : String → Entries → Type 0
Trusted fp store = (id : String) × (e : Entry) × In (id, e) store × (e.fingerprint ≡ fp)

-- Some entry of a node other than `id` has the fingerprint.
abbrev pub TrustedBesides : String → String → Entries → Type 0
TrustedBesides id fp store =
    (j : String) × (e : Entry) × In (j, e) store × (j ≢ id) × (e.fingerprint ≡ fp)

Own-insert :
    (e : Entry) (id : String) (store : Entries)
    → e.node_id ≡ id
    → Own store
    → Own (insert id e store)
unfolding insert
Own-insert e id [] q h = (q, tt)
Own-insert e id ((k, x) ∷ rest) q (h, hs) = ground (arith, Own-insert e id rest q hs)

Own-remove : (id : String) (store : Entries) → Own store → Own (remove id store)
unfolding remove
Own-remove id [] h = h
Own-remove id ((k, x) ∷ rest) (h, hs) = ground (arith, Own-remove id rest hs)

In-remove_iff :
    (id j : String) (e : Entry) (store : Entries)
    → In (j, e) (remove id store) ↔ (In (j, e) store × (j ≢ id))
unfolding remove
In-remove_iff id j e [] = (λ m. absurd m, λ (m, _). m)
In-remove_iff id j e ((k, x) ∷ rest) = ground (arith, eq_iff k id, In-remove_iff id j e rest)

lookup-load_entries :
    (id : String) (store before : Entries)
    → Distinct (keys store)
    → Own store
    → (lookup id store ≡ none → lookup id (load_entries (list store) before) ≡ lookup id before)
      × ((e : Entry)
          → lookup id store ≡ some e
          → lookup id (load_entries (list store) before) ≡ some e)
unfolding load_entries list lookup
lookup-load_entries id [] before d own = (λ h. refl, λ e h. cc)
lookup-load_entries id ((k, x) ∷ rest) before (d, ds) (own, owns) =
    let (absent, present) = lookup-load_entries id rest (insert x.node_id x before) ds owns in
    let here = lookup-insert x.node_id id x before in
    (
      λ h. ground (arith, eq_iff k id, eq_iff x.node_id id, absent, here, own, h),
      λ e h. elim (Option-cases (lookup id rest)) [
        | inl q ↦ ground (arith, eq_iff k id, eq_iff x.node_id id, absent, here, own, h, q)
        | inr (y, q) ↦ ground (arith, eq_iff k id, present y, lookup-In-keys id y rest, h, d, q)
      ],
    )

true-false : {b : Bool} → b ≡ true → b ≡ false → ⊥
true-false e h = cc

lookup_by_fingerprint_iff :
    (fp : String) (store : Entries) → (lookup_by_fingerprint fp store ≢ none) ↔ Trusted fp store
unfolding lookup_by_fingerprint
lookup_by_fingerprint_iff fp [] = (λ h. absurd (h refl), λ (id, e, m, _). absurd m)
lookup_by_fingerprint_iff fp ((k, x) ∷ rest) =
    let (found, there) = lookup_by_fingerprint_iff fp rest in
    elim (Bool-cases (x.fingerprint == fp)) [
      | inl q ↦ (
        λ h. (k, x, inl refl, (eq_iff x.fingerprint fp).0 q),
        λ t n. let w : some x ≡ none = simp q at n in cc,
      )
      | inr q ↦ (
        λ h. let (id, e, m, f) = found (simp q at h) in (id, e, inr m, f),
        λ (id, e, m, f). simp q (
            there (
              id,
              e,
              elim m [
                | inl p ↦
                    let own : e.fingerprint ≡ x.fingerprint = ap (λ r. r.1.fingerprint) p in
                    let same : x.fingerprint ≡ fp = cc in
                    absurd (true-false ((eq_iff x.fingerprint fp).1 same) q)
                | inr r ↦ r
              ],
              f,
            )),
      )
    ]

-- `Load` of the file that `Save` writes gives every node the entry that it had.
pub lookup-load :
    (id : String) (store : Entries)
    → IsValid store
    → lookup id (load (list store)) ≡ lookup id store
unfolding lookup
lookup-load id store v =
    let (absent, present) = lookup-load_entries id store [] v.distinct v.own in
    elim (Option-cases (lookup id store)) [
      | inl e ↦ absent e ∙ sym e
      | inr (x, e) ↦ present x e ∙ sym e
    ]

verify_fingerprint_iff : (o : Option Entry) → (verify_fingerprint o ≡ none) ↔ (o ≢ none)
unfolding verify_fingerprint
verify_fingerprint_iff none = (λ h. cc, λ h. absurd (h refl))
verify_fingerprint_iff (some e) = (λ h. λ q. cc, λ h. refl)

verify_parsed_iff :
    (store : Entries) (o : Option String)
    → (verify_parsed store o ≡ none) ↔ ((fp : String) × (o ≡ some fp) × Trusted fp store)
unfolding verify_parsed
verify_parsed_iff store none = (λ h. cc, λ (fp, e, _). cc)
verify_parsed_iff store (some fp) =
    let found = verify_fingerprint_iff (lookup_by_fingerprint fp store) in
    let known = lookup_by_fingerprint_iff fp store in
    (
      λ h. (fp, refl, known.0 (found.0 h)),
      λ (other, e, t). let q : fp ≡ other = cc in found.1 (known.1 (rw q t)),
    )

-- `VerifyPeerCert` accepts exactly when a certificate is presented, the first one parses, and some
-- entry of the store has its fingerprint.
pub verify_peer_cert_iff :
    {Raw : Type 0} (fingerprint : Raw → Option String) (certs : List Raw) (store : Entries)
    → (verify_peer_cert fingerprint certs store ≡ none) ↔ (
        (raw : Raw) × (rest : List Raw) × (fp : String) × (certs ≡ raw ∷ rest)
        × (fingerprint raw ≡ some fp)
        × Trusted fp store)
unfolding verify_peer_cert
verify_peer_cert_iff fingerprint [] store = (λ h. cc, λ (raw, rest, fp, e, _, _). cc)
verify_peer_cert_iff fingerprint (raw ∷ rest) store =
    let parsed = verify_parsed_iff store (fingerprint raw) in
    (
      λ h. let (fp, e, t) = parsed.0 h in (raw, rest, fp, refl, e, t),
      λ (r, more, fp, e, f, t). let q : raw ≡ r = cc in parsed.1 (fp, rw q f, t),
    )

-- `Add` refuses an entry without a node id or a fingerprint and leaves the store; any other entry
-- is the node's afterwards, its time set when it was zero, the other nodes keep theirs, and the
-- store stays valid, also where the write fails and `Add` returns that error.
pub add_lem :
    (disk : Option String) (now : ℕ) (e : Entry) (store : Entries)
    → IsValid store
    → (((e.node_id ≡ "") ⊎ (e.fingerprint ≡ ""))
        → add disk now e store ≡ (store, some incomplete_entry))
      × (e.node_id ≢ ""
          → e.fingerprint ≢ ""
          → let after = add disk now e store in
            (lookup e.node_id after.0
              ≡ some (if nat_eq e.added_at 0 then record e { added_at = now } else e))
            × ((id : String) → id ≢ e.node_id → lookup id after.0 ≡ lookup id store)
            × (after.1 ≡ saved disk)
            × IsValid after.0)
unfolding add
add_lem disk now e store v =
    let stamped = if nat_eq e.added_at 0 then record e { added_at = now } else e in
    let named : stamped.node_id ≡ e.node_id =
      if_both (λ (y : Entry). y.node_id ≡ e.node_id) (nat_eq e.added_at 0) refl refl in
    (
      λ h. ground (arith, eq_iff e.node_id "", eq_iff e.fingerprint "", h),
      λ h k.
          let incomplete : (e.node_id == "" || e.fingerprint == "") ≡ false =
            ground (arith, eq_iff e.node_id "", eq_iff e.fingerprint "", h, k) in
          simp incomplete (
            lookup-insert_self e.node_id stamped store,
            λ id n.
                let other : (e.node_id == id) ≡ false = ground (arith, eq_iff e.node_id id, n) in
                simp (lookup-insert e.node_id id stamped store, other),
            refl,
            record {
              distinct = Distinct-keys-insert e.node_id stamped store v.distinct;
              own = Own-insert stamped e.node_id store named v.own;
            },
          ),
    )

load_entries-IsValid :
    (list : List Entry) (store : Entries) → IsValid store → IsValid (load_entries list store)
unfolding load_entries
load_entries-IsValid [] store v = v
load_entries-IsValid (e ∷ rest) store v =
    load_entries-IsValid rest (insert e.node_id e store) (record {
      distinct = Distinct-keys-insert e.node_id e store v.distinct;
      own = Own-insert e e.node_id store refl v.own;
    })

-- what is read from a file is valid, whatever the file lists
pub load-IsValid : (list : List Entry) → IsValid (load list)
load-IsValid list = load_entries-IsValid list [] (record { distinct = tt; own = tt })

absent-In :
    (id j : String) (e : Entry) (store : Entries)
    → lookup id store ≡ none
    → In (j, e) store
    → j ≢ id
absent-In id j e store q m p =
    let k : In j (keys store) = In-map (λ (r : String × Entry). r.0) (j, e) store m in
    In-keys-lookup id store (rw p at k) q

-- `Remove` says whether the node had an entry; afterwards it has none, the other nodes keep theirs,
-- the store stays valid, and a fingerprint is trusted exactly when an entry of another node has it.
pub remove_entry_lem :
    (disk : Option String) (id : String) (store : Entries)
    → IsValid store
    → let (after, found, err) = remove_entry disk id store in
      ((found ≡ true) ↔ (lookup id store ≢ none))
      × (lookup id after ≡ none)
      × ((j : String) → j ≢ id → lookup j after ≡ lookup j store)
      × IsValid after
      × ((fp : String) → Trusted fp after ↔ TrustedBesides id fp store)
unfolding remove_entry remove_found
remove_entry_lem disk id store v = elim (Option-cases (lookup id store)) [
  | inl q ↦ simp q (
    (λ h. cc, λ h. absurd (h refl)),
    refl,
    λ j n. refl,
    v,
    λ fp. (
      λ (j, e, m, f). (j, e, m, λ p. absent-In id j e store q m p, f),
      λ (j, e, m, _, f). (j, e, m, f),
    ),
  )
  | inr (e, q) ↦ simp q (
    (λ h. λ n. cc, λ h. refl),
    simp (lookup-remove id id store, eq_refl),
    λ j n.
        let other : (id == j) ≡ false = ground (arith, eq_iff id j, n) in
        simp (lookup-remove id j store, other),
    record { distinct = Distinct-keys-remove id store v.distinct; own = Own-remove id store v.own },
    λ fp. (
      λ (j, x, m, f). let (k, n) = (In-remove_iff id j x store).0 m in (j, x, k, n, f),
      λ (j, x, m, n, f). (j, x, (In-remove_iff id j x store).1 (m, n), f),
    ),
  )
]

-- a removed node has no entry, whether or not it had one
pub remove_entry-gone :
    (disk : Option String) (id : String) (store : Entries)
    → lookup id (remove_entry disk id store).0 ≡ none
unfolding remove_entry remove_found
remove_entry-gone disk id store = elim (Option-cases (lookup id store)) [
  | inl e ↦ simp e refl
  | inr (x, e) ↦ simp (e, lookup-remove id id store, eq_refl) refl
]
