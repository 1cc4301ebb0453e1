-- ===== src/Daemon/Tests/Socket.antt =====
-- The theorems about the control socket and the edited file at concrete inputs: a node that leaves,
-- and an edit of cluster.yaml.
use quptime.Prelude.{true, false, some, none, [], ◌≡◌, refl, inl, inr, In, differ, lookup}
use quptime.Replicate.Mutation.{
  a_target, a_config, remove_peer, replace_config, apply_mutation, apply_remove_peer,
  apply_replace_config, any_match,
}
use quptime.Daemon.Enroll.{Surroundings, NodeState}
use quptime.Daemon.Enroll.Synced.{Commits}
use quptime.Daemon.Control.{Host}
use quptime.Daemon.Dispatch.{Bodies, CtrlRequest, dispatch}
use quptime.Daemon.Dispatch.Steps.{Confined, dispatch-Confined}
use quptime.Daemon.Dispatch.Steps.NodeRemove.{dispatch-remove_peer}
use quptime.Daemon.Watcher.{Yaml, with_sum, edit_payload, check_manual_edit}
use quptime.Daemon.Watcher.Edits.{check_manual_edit-Follower, check_manual_edit-replaced}
use quptime.Replicate.Mutation.Ids.{node_ids}
use quptime.Samples.{three, newer, node, codec}
use quptime.Daemon.Tests.{lab, running, office, desk, clerk, wish}

abbrev follower : Host
follower = desk (record office { env = record (node false true) { json = clerk } })

abbrev bodies : Bodies
bodies = record {
  request = λ frame. none;
  mutation = λ raw. none;
  node_id = λ raw. some raw;
  alert_id = λ raw. some raw;
  check_test = λ raw. none;
  create = λ raw. some wish;
  target = λ raw. some raw;
}

abbrev revoke : CtrlRequest
revoke = record { method = "enroll.revoke"; body = "e1" }

dispatch-Confined_example :
    Confined follower running revoke (dispatch bodies follower revoke running)
dispatch-Confined_example = dispatch-Confined follower running (inl refl) bodies revoke

-- the peer of the two that leaves
abbrev leaving : Surroundings
leaving = record lab {
  env = record (node true true) { json = record codec { decode_target = λ raw. some "b" } };
}

abbrev evict_commits : Commits leaving.env remove_peer (a_target "b") newer
unfolding apply_mutation apply_remove_peer any_match
evict_commits = record {
  raw = "b";
  marshalled = refl;
  master = refl;
  quorum = refl;
  accepted = refl;
  out = "a";
  encoded = refl;
  stored = refl;
}

abbrev pair : NodeState
pair = record { config = newer; trust = [] }

dispatch-remove_peer_example :
    let after =
      (dispatch bodies (desk leaving) (record { method = "node.remove"; body = "b" }) pair).state in
    (¬ In "b" (node_ids after.config.peers)) × (lookup "b" after.trust ≡ none)
unfolding evict_commits
dispatch-remove_peer_example =
    dispatch-remove_peer bodies (desk leaving) "b" "b" pair evict_commits refl refl
      ((λ h. elim h [ inl e ↦ differ "a" "b" refl e | inr m ↦ m ]), (λ h. h, tt))

-- the file on disk lists two peers, and differs from what the node holds
abbrev editor : Yaml
editor = record {
  parse = λ raw. some newer;
  same_peers = λ a b. false;
  same_checks = λ a b. true;
  same_alerts = λ a b. true;
}

check_manual_edit-Follower_example :
    let after = (check_manual_edit follower.around editor (some "edited") running).0 in
    (after ≡ with_sum "edited" running)
    × (check_manual_edit office editor (some "edited") after ≡ (after, none))
check_manual_edit-Follower_example =
    check_manual_edit-Follower follower.around editor office "edited" running (inl refl) refl

abbrev edit_commits :
    Commits office.env replace_config
      (a_config (edit_payload newer))
      (with_sum "edited" running).config
unfolding apply_mutation apply_replace_config
edit_commits = record {
  raw = "raw";
  marshalled = refl;
  master = refl;
  quorum = refl;
  accepted = refl;
  out = "a";
  encoded = refl;
  stored = refl;
}

check_manual_edit-replaced_example :
    let after = (check_manual_edit office editor (some "edited") running).0 in
    (after.config.peers ≡ newer.peers)
    × (after.config.checks ≡ newer.checks)
    × (after.config.alerts ≡ newer.alerts)
    × (after.config.pending_enrollments ≡ three.pending_enrollments)
    × (after.config.resolvers ≡ [])
    × (check_manual_edit office editor (some "a") after ≡ (after, none))
unfolding edit_commits
check_manual_edit-replaced_example =
    check_manual_edit-replaced office editor "edited" running newer (differ "" "edited" refl) refl
      refl edit_commits refl
