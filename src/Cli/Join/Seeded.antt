-- ===== src/Cli/Join/Seeded.antt =====
-- The cluster.yaml that a joining node starts with: `seedJoinerClusterYaml` of internal/cli/enroll.go.
use quptime.Prelude.{
  ℕ, ◌+◌, ◌%◌, ◌^◌, String, none, some, List, [], ◌∷◌, ◌≡◌, refl, ◌↔◌, ◌⊎◌, inl, inr, ◌==◌, eq_iff,
  arith, ap, ◌∙◌, sym, In, Distinct, Bool-cases,
}
use quptime.Config.Types.{PeerInfo, ClusterConfig}
use quptime.Config.Cluster.{contains, snapshot, Disk, Outcome, mutate}
use quptime.Config.Cluster.Attach.{contains_iff}
use quptime.Config.Cluster.Versions.{bumped, mutate-written, mutate-Mutated}
use quptime.Config.Node.{NodeConfig}
use quptime.Replicate.Mutation.Ids.{node_ids}
use quptime.Cli.Bootstrap.{
  Machine, on_file, self_peer, unseen, joiner_peers, seed_joiner_cluster_yaml,
}

unseen_iff :
    (seen : List String) (peers : List PeerInfo) (id : String)
    → In id (node_ids (unseen seen peers)) ↔ (In id (node_ids peers) × (¬ In id seen))
unfolding unseen
unseen_iff seen [] id = (λ m. absurd m, λ (m, _). absurd m)
unseen_iff seen (p ∷ rest) id = elim (Bool-cases (contains seen p.node_id)) [
  | inl t ↦
      let known = (contains_iff seen p.node_id).0 t in
      let later = unseen_iff seen rest id in
      simp t (
        λ m. let (i, n) = later.0 m in (inr i, n),
        λ (m, n). elim m [ inl e ↦ absurd (n (rw (sym e) at known)) | inr i ↦ later.1 (i, n) ],
      )
  | inr t ↦
      let fresh : ¬ In p.node_id seen = ground (arith, contains_iff seen p.node_id, t) in
      let later = unseen_iff (p.node_id ∷ seen) rest id in
      simp t (
        λ m. elim m [
          | inl e ↦ (inl e, rw e fresh)
          | inr i ↦ let (k, n) = later.0 i in (inr k, λ s. n (inr s))
        ],
        λ (m, n). elim (Bool-cases (id == p.node_id)) [
          | inl e ↦ inl ((eq_iff id p.node_id).0 e)
          | inr e ↦ elim m [
            | inl same ↦ inl same
            | inr i ↦ inr (
                later.1 (
                  i,
                  λ s. elim s [
                    | inl same ↦ absurd (ground (arith, eq_iff id p.node_id, e, same))
                    | inr k ↦ n k
                  ],
                ))
          ]
        ],
      )
]

unseen-Distinct :
    (seen : List String) (peers : List PeerInfo) → Distinct (node_ids (unseen seen peers))
unfolding unseen
unseen-Distinct seen [] = tt
unseen-Distinct seen (p ∷ rest) = elim (Bool-cases (contains seen p.node_id)) [
  | inl t ↦ simp t (unseen-Distinct seen rest)
  | inr t ↦ simp t (
    λ m. ((unseen_iff (p.node_id ∷ seen) rest p.node_id).0 m).1 (inl refl),
    unseen-Distinct (p.node_id ∷ seen) rest,
  )
]

joiner_peers_ids :
    (self : PeerInfo) (peers : List PeerInfo)
    → Distinct (node_ids (joiner_peers self peers))
      × ((id : String)
          → In id (node_ids (joiner_peers self peers))
            ↔ ((id ≡ self.node_id) ⊎ In id (node_ids peers)))
unfolding joiner_peers
joiner_peers_ids self peers =
    let others = unseen_iff (self.node_id ∷ []) peers in
    (
      (λ m. ((others self.node_id).0 m).1 (inl refl), unseen-Distinct (self.node_id ∷ []) peers),
      λ id. (
        λ m. elim m [ inl e ↦ inl e | inr i ↦ inr ((others id).0 i).0 ],
        λ m. elim (Bool-cases (id == self.node_id)) [
          | inl e ↦ inl ((eq_iff id self.node_id).0 e)
          | inr e ↦ elim m [
            | inl same ↦ inl same
            | inr i ↦ inr (
                (others id).1 (
                  i,
                  λ s. elim s [
                    | inl same ↦ absurd (ground (arith, eq_iff id self.node_id, e, same))
                    | inr k ↦ k
                  ],
                ))
          ]
        ],
      ),
    )

written_back : (c : ClusterConfig) (o : Outcome) → o.error ≡ none → on_file c o ≡ o.config
written_back c o h = ground arith

-- what `Mutate` leaves of the peers, where its function does not fail
peers-mutate :
    (d : Disk) (now : ℕ) (by_node : String) (f : ClusterConfig → ClusterConfig) (c : ClusterConfig)
    → (mutate d now by_node (λ x. (f x, none)) c).config.peers ≡ (f c).peers
unfolding snapshot
peers-mutate d now by_node f c = elim (mutate-Mutated d now by_node (λ x. (f x, none)) c) [
  | inl (e, h, _) ↦ absurd (ground arith)
  | inr (_, p) ↦ ap (λ (x : ClusterConfig). x.peers) p.content
]

-- Where the node's certificate has a fingerprint and the file can be written, the joiner's
-- cluster.yaml lists this node and the peers that it was given, each once, and nobody else, under
-- the next version.
pub seed_joiner_cluster_yaml_peers :
    (m : Machine) (n : NodeConfig) (cert fp out : String) (peers : List PeerInfo)
    (c : ClusterConfig)
    → m.fingerprint_from_cert cert ≡ some fp
    → m.disk.marshal
        (bumped m.now n.node_id (record c { peers = joiner_peers (self_peer m n fp cert) peers }))
      ≡ some out
    → m.disk.write out ≡ none
    → let after = seed_joiner_cluster_yaml m n cert peers c in
      Distinct (node_ids after.peers)
      × ((id : String) → In id (node_ids after.peers) ↔ ((id ≡ n.node_id) ⊎ In id (node_ids peers)))
      × (after.version ≡ (c.version + 1) % 2 ^ 64)
unfolding seed_joiner_cluster_yaml self_peer snapshot
seed_joiner_cluster_yaml_peers m n cert fp out peers c own encoded stored =
    let self = self_peer m n fp cert in
    let o =
      mutate m.disk m.now n.node_id (λ x. (record x { peers = joiner_peers self peers }, none)) c in
    let (fine, version) =
      mutate-written m.disk m.now n.node_id out
        (λ x. (record x { peers = joiner_peers self peers }, none)) c refl encoded stored in
    let ran : seed_joiner_cluster_yaml m n cert peers c ≡ o.config =
      (simp own refl) ∙ written_back c o fine in
    let listed : o.config.peers ≡ joiner_peers self peers =
      peers-mutate m.disk m.now n.node_id (λ x. record x { peers = joiner_peers self peers }) c in
    let (distinct, ids) = joiner_peers_ids self peers in rw (ran, listed) (distinct, ids, version)
