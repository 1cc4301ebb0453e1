-- ===== src/Daemon/Status/Views.antt =====
-- What the status report of internal/daemon/handlers.go shows, and from whom it comes.
use quptime.Prelude.{
  ℕ, String, true, false, Option, some, ◌≡◌, ◌≢◌, refl, ◌↔◌, ◌⊎◌, inl, inr, ◌==◌, eq_iff, arith, In,
  Distinct, keys, In-map, Bool-cases, Option-cases, ap,
}
use quptime.Config.Types.{PeerInfo}
use quptime.Config.Cluster.Attach.{contains_iff}
use quptime.Quorum.Manager.{is_master, live_set}
use quptime.Quorum.Manager.Live.{Fresh, live_set_iff}
use quptime.Replicate.Replicator.{address_of}
use quptime.Daemon.Status.{
  PeerLiveness, StatusResponse, Parts, peer_row, build_status, build_status_for_cli, with_checks_of,
}

module _ (call : String → String → Option StatusResponse) (now : ℕ) (d : Parts) where
  -- The node asked the master, and shows the checks of its answer.
  pub record FromMaster : Type 0 where
    pub remote : StatusResponse
    pub follower : is_master d.manager ≡ false
    pub elected : d.manager.master_id ≢ ""
    pub reachable : address_of d.manager.master_id d.config.peers ≢ ""
    pub answered :
        call d.manager.master_id (address_of d.manager.master_id d.config.peers) ≡ some remote
    pub checks :
        build_status_for_cli call now d ≡ record (build_status now d) { checks = remote.checks }

  shown_from : (build_status_for_cli call now d ≡ build_status now d) ⊎ FromMaster
  unfolding build_status_for_cli with_checks_of
  shown_from =
      let addr = address_of d.manager.master_id d.config.peers in
      elim (Bool-cases (is_master d.manager)) [
        | inl e ↦ inl (simp e refl)
        | inr e ↦ elim (Bool-cases (d.manager.master_id == "")) [
          | inl f ↦ inl (simp (e, f) refl)
          | inr f ↦ elim (Bool-cases (addr == "")) [
            | inl g ↦ inl (simp (e, f, g) refl)
            | inr g ↦ elim (Option-cases (call d.manager.master_id addr)) [
              | inl h ↦ inl (simp (e, f, g, h) refl)
              | inr (remote, h) ↦ inr (record {
                remote = remote;
                follower = e;
                elected = ground (arith, eq_iff d.manager.master_id "", f);
                reachable = ground (arith, eq_iff addr "", g);
                answered = h;
                checks = simp (e, f, g, h) refl;
              })
            ]
          ]
        ]
      ]

  own_peers :
      (build_status_for_cli call now d ≡ build_status now d) ⊎ FromMaster
      → (build_status_for_cli call now d).peers ≡ (build_status now d).peers
  own_peers (inl e) = ap (λ (s : StatusResponse). s.peers) e
  own_peers (inr f) = ap (λ (s : StatusResponse). s.peers) f.checks

  -- The status for the command line is the node's own, but for the checks where the node is not the
  -- master and the master, known and with an address, has answered. It has a row for every peer,
  -- live exactly when the node's last contact with the peer is recent, or the peer is the node
  -- itself and has contact.
  pub build_status_for_cli_rows :
      Distinct (keys d.manager.last_seen)
      → ((build_status_for_cli call now d ≡ build_status now d) ⊎ FromMaster)
        × ((p : PeerInfo)
            → In p d.config.peers
            → (row : PeerLiveness) × In row (build_status_for_cli call now d).peers
              × (row.node_id ≡ p.node_id)
              × ((row.live ≡ true) ↔ Fresh d.manager now p.node_id))
  unfolding build_status peer_row
  build_status_for_cli_rows v = (
    shown_from,
    λ p m. (
      peer_row d.manager now p,
      rw (own_peers shown_from) (In-map (peer_row d.manager now) p d.config.peers m),
      refl,
      (
        λ h.
            (live_set_iff d.manager now p.node_id v).0
              ((contains_iff (live_set d.manager now) p.node_id).0 h),
        λ f.
            (contains_iff (live_set d.manager now) p.node_id).1
              ((live_set_iff d.manager now p.node_id v).1 f),
      ),
    ),
  )
