-- ===== src/Quorum/Manager/Majority.antt =====
-- Quorums of internal/quorum/manager.go, and the quorum size of internal/config/cluster.go.
use quptime.Prelude.{
  ℕ, ◌<◌, ◌+◌, ◌≤◌, String, true, List, ◌≡◌, arith, Disjoint, Subset, length-Disjoint_le, Distinct,
  length, keys, map, length-map, leb→le,
}
use quptime.Config.Types.{ClusterConfig}
use quptime.Config.Cluster.{quorum_size}
use quptime.Quorum.Manager.{Manager, live_set, has_quorum}
use quptime.Quorum.Manager.Live.{live_set-Distinct}

abbrev pub peer_ids : ClusterConfig → List String
peer_ids c = map (λ p. p.node_id) c.peers

-- The quorum is the least strict majority of the peers, and 1 for no peers.
pub quorum_size-majority :
    (c : ClusterConfig)
    → (length c.peers < quorum_size c + quorum_size c)
      × (quorum_size c + quorum_size c ≤ length c.peers + 2)
unfolding quorum_size
quorum_size-majority c = ground arith

module _ (c : ClusterConfig) (m n : Manager) (now later : ℕ) (m_keys : Distinct (keys m.last_seen))
    (n_keys : Distinct (keys n.last_seen)) (m_members : Subset (live_set m now) (peer_ids c))
    (n_members : Subset (live_set n later) (peer_ids c))
    (apart : Disjoint (live_set m now) (live_set n later)) where
  -- Two nodes whose live sets share no peer, and hold only peers of the same configuration, do
  -- not both have a quorum.
  pub has_quorum_exclusive :
      ¬ ((has_quorum (quorum_size c) m now ≡ true) × (has_quorum (quorum_size c) n later ≡ true))
  unfolding has_quorum
  has_quorum_exclusive h = omega (
    arith,
    leb→le (quorum_size c) (length (live_set m now)) h.0,
    leb→le (quorum_size c) (length (live_set n later)) h.1,
    quorum_size-majority c,
    length-map c.peers (λ p. p.node_id),
    length-Disjoint_le (live_set m now) (live_set n later) (peer_ids c)
        (live_set-Distinct m now m_keys) (live_set-Distinct n later n_keys) apart m_members
        n_members,
  )
