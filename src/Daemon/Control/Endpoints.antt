-- ===== src/Daemon/Control/Endpoints.antt =====
-- `enrollEndpoints` of internal/daemon/control.go.
use quptime.Prelude.{
  String, Bool, true, false, ◌||◌, List, [], ◌∷◌, ◌≡◌, ◌≢◌, refl, ◌↔◌, ◌⊎◌, inl, inr, ◌==◌, eq_iff,
  arith, In, In-map, Distinct, Bool-cases, sym,
}
use quptime.Config.Types.{PeerInfo, ClusterConfig}
use quptime.Config.Node.{advertise_addr}
use quptime.Config.Cluster.{contains}
use quptime.Config.Cluster.Attach.{contains_iff}
use quptime.Replicate.Mutation.Ids.{node_ids}
use quptime.Daemon.Tokens.{EnrollEndpoint}
use quptime.Daemon.Control.{Host, or_blank, endpoints_from, enroll_endpoints}

abbrev pub endpoint_of : PeerInfo → EnrollEndpoint
endpoint_of p = record { advertise = p.advertise; fingerprint = p.fingerprint }

-- The endpoint is that of a peer outside `seen` that has an address and a fingerprint.
abbrev pub Offered : List String → List PeerInfo → EnrollEndpoint → Type 0
Offered seen peers e =
    (p : PeerInfo) × In p peers
    × (¬ In p.node_id seen)
    × (p.advertise ≢ "")
    × (p.fingerprint ≢ "")
    × (e ≡ endpoint_of p)

abbrev skipped : List String → PeerInfo → Bool
skipped seen p = contains seen p.node_id || p.advertise == "" || p.fingerprint == ""

skipped_cases :
    (seen : List String) (p : PeerInfo)
    → ((skipped seen p ≡ true) × (In p.node_id seen ⊎ ((p.advertise ≡ "") ⊎ (p.fingerprint ≡ ""))))
      ⊎ ((skipped seen p ≡ false)
          × (¬ In p.node_id seen)
          × (p.advertise ≢ "")
          × (p.fingerprint ≢ ""))
skipped_cases seen p = elim (Bool-cases (skipped seen p)) [
  | inl e ↦ inl (
    e,
    ground (arith, contains_iff seen p.node_id, eq_iff p.advertise "", eq_iff p.fingerprint "", e),
  )
  | inr e ↦ inr (
    e,
    ground (arith, contains_iff seen p.node_id, e),
    ground (arith, eq_iff p.advertise "", e),
    ground (arith, eq_iff p.fingerprint "", e),
  )
]

endpoints_from-Offered :
    (seen : List String) (peers : List PeerInfo) (e : EnrollEndpoint)
    → In e (endpoints_from seen peers)
    → Offered seen peers e
unfolding endpoints_from
endpoints_from-Offered seen [] e m = absurd m
endpoints_from-Offered seen (p ∷ rest) e m = elim (skipped_cases seen p) [
  | inl (t, _) ↦
      let (q, i, n, a, f, x) = endpoints_from-Offered seen rest e (simp t at m) in
      (q, inr i, n, a, f, x)
  | inr (t, n, a, f) ↦ elim (simp t at m) [
    | inl x ↦ (p, inl refl, n, a, f, x)
    | inr later ↦
        let (q, i, k, b, g, x) = endpoints_from-Offered (p.node_id ∷ seen) rest e later in
        (q, inr i, λ h. k (inr h), b, g, x)
  ]
]

Offered-endpoints_from :
    (seen : List String) (peers : List PeerInfo) (e : EnrollEndpoint)
    → Distinct (node_ids peers)
    → Offered seen peers e
    → In e (endpoints_from seen peers)
unfolding endpoints_from
Offered-endpoints_from seen [] e d (q, i, _, _, _, _) = absurd i
Offered-endpoints_from seen (p ∷ rest) e d (q, i, n, a, f, x) = elim (skipped_cases seen p) [
  | inl (t, why) ↦ simp t (elim i [
    | inl h ↦ elim (rw (sym h) at why) [
      | inl s ↦ absurd (n s)
      | inr (inl b) ↦ absurd (a b)
      | inr (inr b) ↦ absurd (f b)
    ]
    | inr later ↦ Offered-endpoints_from seen rest e d.1 (q, later, n, a, f, x)
  ])
  | inr (t, _, _, _) ↦ simp t (elim i [
    | inl h ↦ inl (rw h at x)
    | inr later ↦ inr (
        Offered-endpoints_from (p.node_id ∷ seen) rest e d.1 (
          q,
          later,
          λ h. elim h [
            | inl same ↦ d.0 (rw same at (In-map (λ (y : PeerInfo). y.node_id) q rest later))
            | inr s ↦ n s
          ],
          a,
          f,
          x,
        ))
  ])
]

-- With distinct peer ids, the endpoints of a token are the node's own and exactly those of the other
-- peers that have an address and a fingerprint.
pub enroll_endpoints_iff :
    (h : Host) (c : ClusterConfig) (e : EnrollEndpoint)
    → Distinct (node_ids c.peers)
    → In e (enroll_endpoints h c) ↔ (
        (e ≡ record {
          advertise = advertise_addr h.itoa h.node;
          fingerprint = or_blank (h.around.fingerprint_from_cert h.own_cert);
        })
        ⊎ ((p : PeerInfo) × In p c.peers
            × (p.node_id ≢ h.node.node_id)
            × (p.advertise ≢ "")
            × (p.fingerprint ≢ "")
            × (e ≡ endpoint_of p)))
unfolding enroll_endpoints
enroll_endpoints_iff h c e d = (
  λ m. elim m [
    | inl x ↦ inl x
    | inr later ↦
        let (p, i, n, a, f, x) = endpoints_from-Offered (h.node.node_id ∷ []) c.peers e later in
        inr (p, i, λ k. n (inl k), a, f, x)
  ],
  λ m. elim m [
    | inl x ↦ inl x
    | inr (p, i, n, a, f, x) ↦
        inr (Offered-endpoints_from (h.node.node_id ∷ []) c.peers e d (p, i, only n, a, f, x))
  ],
)
  where
    only : {id own : String} → id ≢ own → ¬ In id (own ∷ [])
    only n (inl k) = n k
    only n (inr k) = k
