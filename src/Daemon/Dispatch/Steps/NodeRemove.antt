-- ===== src/Daemon/Dispatch/Steps/NodeRemove.antt =====
-- The node.remove request on the control socket: `dispatch` of internal/daemon/control.go.
use quptime.Prelude.{
  ℕ, String, none, some, ◌≡◌, inl, inr, arith, ap, ◌∙◌, Bool-cases, Distinct, In, lookup,
}
use quptime.Config.Types.{PeerInfo, ClusterConfig}
use quptime.Config.Cluster.{snapshot}
use quptime.Replicate.Keys.{delete_first-gone}
use quptime.Replicate.Mutation.{
  remove_peer, a_target, apply_mutation, apply_remove_peer, any_match, has_node_id,
}
use quptime.Replicate.Mutation.Ids.{node_ids}
use quptime.Replicate.Replicator.{Result, ok, err}
use quptime.Transport.Trust.{remove_entry}
use quptime.Transport.Trust.Laws.{remove_entry-gone}
use quptime.Daemon.Enroll.{NodeState, mutate_and_sync}
use quptime.Daemon.Enroll.Synced.{Commits, mutate_and_sync-Landed}
use quptime.Daemon.Control.{Host}
use quptime.Daemon.Dispatch.{Bodies, version, dispatch, node_removed, serve_node_remove}
use quptime.Daemon.Dispatch.Steps.{after_remove_state}

removed_gone :
    (id : String) (c : ClusterConfig)
    → Distinct (node_ids c.peers)
    → (apply_remove_peer (some id) c).1 ≡ none
    → ¬ In id (node_ids (apply_remove_peer (some id) c).0.peers)
unfolding apply_remove_peer
removed_gone id c d h = elim (Bool-cases (any_match (has_node_id id) c.peers)) [
  | inl e ↦ simp e (delete_first-gone (λ (p : PeerInfo). p.node_id) id c.peers d)
  | inr e ↦ absurd (ground arith)
]

module _ (b : Bodies) (h : Host) (body id : String) (s : NodeState) where
  node_removed_ok :
      (p : NodeState × Result ℕ) (v : ℕ)
      → p.1 ≡ ok v
      → (node_removed h id p).state
        ≡ record p.0 { trust = (remove_entry h.around.trust_disk id p.0.trust).0 }
  unfolding node_removed
  node_removed_ok (t, ok w) v q =
      after_remove_state h s t (version w) (remove_entry h.around.trust_disk id t.trust)
  node_removed_ok (t, err e) v q = absurd (ground arith)

  -- Where the master can commit the removal of a peer, with distinct peer ids, a node.remove request
  -- leaves a configuration without the peer and a trust store without an entry for it, although the
  -- callback of the removal has mirrored the remaining peers into the store.
  pub dispatch-remove_peer :
      (k : Commits h.around.env remove_peer (a_target id) s.config)
      → b.node_id body ≡ some id
      → h.around.env.json.decode_target k.raw ≡ some id
      → Distinct (node_ids s.config.peers)
      → let after = (dispatch b h (record { method = "node.remove"; body = body }) s).state in
        (¬ In id (node_ids after.config.peers)) × (lookup id after.trust ≡ none)
  unfolding dispatch serve_node_remove apply_mutation snapshot
  dispatch-remove_peer k decoded read d =
      let p = mutate_and_sync h.around remove_peer (a_target id) s in
      let landed = mutate_and_sync-Landed h.around remove_peer (a_target id) s k in
      let ran =
        ap (λ o. (serve_node_remove h s o).state) decoded ∙ node_removed_ok p _ landed.answer in
      let peers =
        ap (λ (c : ClusterConfig). c.peers) landed.content
        ∙ ap (λ o. (apply_remove_peer o s.config).0.peers) read in
      rw ran (
        rw peers (removed_gone id s.config d (rw read at k.accepted)),
        remove_entry-gone h.around.trust_disk id p.0.trust,
      )
