-- ===== src/Daemon/Watcher/Edits.antt =====
-- What a manual edit of cluster.yaml does: `checkManualEdit` of internal/daemon/watcher.go.
use quptime.Prelude.{
  ℕ, String, true, false, Option, none, some, [], ◌≡◌, ◌≢◌, refl, inl, inr, ◌==◌, eq_iff, arith, ap,
  ◌∙◌, sym, Bool-cases,
}
use quptime.Config.Types.{ClusterConfig}
use quptime.Config.Cluster.{Disk, snapshot, last_saved_sum}
use quptime.Config.Cluster.Versions.{bumped}
use quptime.Replicate.Mutation.{replace_config, a_config, apply_mutation, apply_replace_config}
use quptime.Replicate.Replicator.{Result}
use quptime.Daemon.Enroll.{Surroundings, NodeState, mutate_and_sync}
use quptime.Daemon.Enroll.Synced.{
  Commits, Follower, mutate_and_sync-Landed, mutate_and_sync-unchanged,
}
use quptime.Daemon.Watcher.{
  Yaml, Polled, with_sum, cosmetic, edit_payload, forwarded, parsed_edit, check_manual_edit,
}

-- a file whose checksum is remembered is left alone
known_sum-quiet :
    (d : Surroundings) (y : Yaml) (raw : String) (s : NodeState)
    → s.config.last_sum ≡ d.env.disk.sum256 raw
    → check_manual_edit d y (some raw) s ≡ (s, none)
unfolding check_manual_edit
known_sum-quiet d y raw s e =
    let same : (d.env.disk.sum256 raw == s.config.last_sum) ≡ true =
      ground (arith, eq_iff (d.env.disk.sum256 raw) s.config.last_sum, e) in
    simp same refl

module _ (d : Surroundings) (y : Yaml) where
  forwarded_state : (p : NodeState × Result ℕ) → (forwarded p).0 ≡ p.0
  unfolding forwarded
  forwarded_state (s, r) = refl

  parsed_edit-Follower :
      (s : NodeState) (sum : String) (o : Option ClusterConfig)
      → Follower d.env
      → (parsed_edit d y s sum o).0 ≡ with_sum sum s
  unfolding parsed_edit
  parsed_edit-Follower s sum none f = refl
  parsed_edit-Follower s sum (some edited) f = elim (Bool-cases (cosmetic y s.config edited)) [
    | inl e ↦ simp e refl
    | inr e ↦ simp e (
        forwarded_state
          (mutate_and_sync d replace_config (a_config (edit_payload edited)) (with_sum sum s))
        ∙ mutate_and_sync-unchanged d replace_config (a_config (edit_payload edited))
            (with_sum sum s) f)
  ]

  polled-Follower :
      (raw : String) (s : NodeState)
      → Follower d.env
      → (check_manual_edit d y (some raw) s).0 ≡ with_sum (d.env.disk.sum256 raw) s
  unfolding check_manual_edit
  polled-Follower raw s f = elim (Bool-cases (d.env.disk.sum256 raw == last_saved_sum s.config)) [
    | inl e ↦
        let same = (eq_iff (d.env.disk.sum256 raw) s.config.last_sum).0 e in
        ap (λ (p : Polled). p.0) (known_sum-quiet d y raw s (sym same))
        ∙ ap (λ sum. with_sum sum s) (sym same)
    | inr e ↦ simp e (parsed_edit-Follower s (d.env.disk.sum256 raw) (y.parse raw) f)
  ]

  -- On a node that is not the master, or sees no quorum, a poll of cluster.yaml changes nothing but
  -- the remembered checksum, which becomes that of the file, whatever comes of forwarding the edit;
  -- so no later poll of that file forwards it, on a node with that state, also one that has become
  -- the master or sees a quorum again.
  pub check_manual_edit-Follower :
      (later : Surroundings) (raw : String) (s : NodeState)
      → Follower d.env
      → later.env.disk ≡ d.env.disk
      → let after = (check_manual_edit d y (some raw) s).0 in
        (after ≡ with_sum (d.env.disk.sum256 raw) s)
        × (check_manual_edit later y (some raw) after ≡ (after, none))
  check_manual_edit-Follower later raw s f same =
      let polled = polled-Follower raw s f in
      let kept = with_sum (d.env.disk.sum256 raw) s in
      rw polled
        (refl, known_sum-quiet later y raw kept (ap (λ (k : Disk). k.sum256 raw) (sym same)))

  edits :
      (raw : String) (s : NodeState) (edited : ClusterConfig)
      → s.config.last_sum ≢ d.env.disk.sum256 raw
      → y.parse raw ≡ some edited
      → cosmetic y s.config edited ≡ false
      → check_manual_edit d y (some raw) s
        ≡ forwarded (
            mutate_and_sync d replace_config
              (a_config (edit_payload edited))
              (with_sum (d.env.disk.sum256 raw) s))
  unfolding check_manual_edit parsed_edit
  edits raw s edited n read real =
      let fresh : (d.env.disk.sum256 raw == s.config.last_sum) ≡ false =
        ground (arith, eq_iff (d.env.disk.sum256 raw) s.config.last_sum, n) in
      simp (fresh, read, real) refl

  -- Where the master can commit it, an edit of the file that changes the peers, the checks or the
  -- alerts gives the cluster the file's peers, checks and alerts, keeps its enrollments, and leaves
  -- it without resolvers, whatever the file lists; the next poll leaves the file that the mutation
  -- has written alone.
  pub check_manual_edit-replaced :
      (raw : String) (s : NodeState) (edited : ClusterConfig)
      → s.config.last_sum ≢ d.env.disk.sum256 raw
      → y.parse raw ≡ some edited
      → cosmetic y s.config edited ≡ false
      → (k : Commits d.env replace_config
          (a_config (edit_payload edited))
          (with_sum (d.env.disk.sum256 raw) s).config)
      → d.env.json.decode_config k.raw ≡ some (edit_payload edited)
      → let after = (check_manual_edit d y (some raw) s).0 in
        (after.config.peers ≡ edited.peers)
        × (after.config.checks ≡ edited.checks)
        × (after.config.alerts ≡ edited.alerts)
        × (after.config.pending_enrollments ≡ s.config.pending_enrollments)
        × (after.config.resolvers ≡ [])
        × (check_manual_edit d y (some k.out) after ≡ (after, none))
  unfolding apply_mutation snapshot apply_replace_config
  check_manual_edit-replaced raw s edited n read real k decoded =
      let payload = a_config (edit_payload edited) in
      let before = with_sum (d.env.disk.sum256 raw) s in
      let p = mutate_and_sync d replace_config payload before in
      let landed = mutate_and_sync-Landed d replace_config payload before k in
      let ran = ap (λ (q : Polled). q.0) (edits raw s edited n read real) ∙ forwarded_state p in
      let taken =
        landed.content
        ∙ ap
            (λ o.
              snapshot (bumped d.env.now d.env.self_id (apply_replace_config o before.config).0))
            decoded in
      rw ran (
        ap (λ (c : ClusterConfig). c.peers) taken,
        ap (λ (c : ClusterConfig). c.checks) taken,
        ap (λ (c : ClusterConfig). c.alerts) taken,
        ap (λ (c : ClusterConfig). c.pending_enrollments) taken,
        ap (λ (c : ClusterConfig). c.resolvers) taken,
        known_sum-quiet d y k.out p.0 landed.sum,
      )
