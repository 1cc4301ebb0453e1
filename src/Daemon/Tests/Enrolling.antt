-- ===== src/Daemon/Tests/Enrolling.antt =====
-- The theorems about enrollment at concrete inputs: the desk mints a token, and the joiner redeems it.
use quptime.Prelude.{◌≡◌, refl, In, differ}
use quptime.Config.Cluster.{find_enrollment_by_id, find_enrollment, mutate, persist}
use quptime.Replicate.Mutation.{
  an_enrollment, a_record, a_target, add_enrollment, record_enroll_pending, approve_enrollment,
  apply_mutation, apply_add_enrollment, apply_record_enroll_pending, apply_approve_enrollment,
  upsert, any_match, update_first, peer_of_join,
}
use quptime.Replicate.Replicator.{local_mutate, apply_locally}
use quptime.Daemon.Enroll.{
  NodeState, handle_enroll, join_of, accepted, enroll_peers_for_joiner, expired,
  verify_enroll_secret, mutate_and_sync,
}
use quptime.Daemon.Enroll.Authorised.{Authorised}
use quptime.Daemon.Enroll.Sync.{Pinned}
use quptime.Daemon.Enroll.Synced.{Commits}
use quptime.Daemon.Enroll.Joined.{handle_enroll-Joined}
use quptime.Daemon.Tokens.{hash_enroll_secret}
use quptime.Daemon.Control.{minted, ttl_of}
use quptime.Samples.{three}
use quptime.Daemon.Tests.{joiner, fresh_entry, claim_of_joiner, office, desk, wish, holding}

abbrev mint_commits :
    Commits office.env add_enrollment
      (an_enrollment (minted (desk office) wish "t1" "s3cret"))
      three
unfolding apply_mutation apply_add_enrollment upsert ttl_of hash_enroll_secret
mint_commits = record {
  raw = "raw";
  marshalled = refl;
  master = refl;
  quorum = refl;
  accepted = refl;
  out = "a";
  encoded = refl;
  stored = refl;
}

abbrev invited_joiner : Authorised office joiner holding
unfolding find_enrollment_by_id expired verify_enroll_secret hash_enroll_secret
invited_joiner = record {
  entry = fresh_entry;
  known = refl;
  fresh = refl;
  secret = refl;
  own_cert = refl;
  named = differ "d" "" refl;
}

abbrev claim_commits :
    Commits office.env record_enroll_pending (a_record claim_of_joiner) holding.config
unfolding apply_mutation apply_record_enroll_pending any_match
claim_commits = record {
  raw = "raw";
  marshalled = refl;
  master = refl;
  quorum = refl;
  accepted = refl;
  out = "a";
  encoded = refl;
  stored = refl;
}

abbrev claimed_state : NodeState
claimed_state = (mutate_and_sync office record_enroll_pending (a_record claim_of_joiner) holding).0

abbrev approve_commits : Commits office.env approve_enrollment (a_target "t1") claimed_state.config
unfolding mutate_and_sync local_mutate apply_locally mutate persist apply_mutation
    apply_record_enroll_pending any_match update_first apply_approve_enrollment find_enrollment
approve_commits = record {
  raw = "raw";
  marshalled = refl;
  master = refl;
  quorum = refl;
  accepted = refl;
  out = "a";
  encoded = refl;
  stored = refl;
}

handle_enroll-Joined_example :
    let (after, answer) = handle_enroll office joiner holding in
    (answer ≡ accepted (enroll_peers_for_joiner "d" after.config.peers))
    × In (peer_of_join (join_of office joiner)) after.config.peers
    × Pinned "d" "fd" after.trust
unfolding claim_commits approve_commits invited_joiner
handle_enroll-Joined_example =
    handle_enroll-Joined office joiner holding invited_joiner claim_commits refl approve_commits
      refl (differ "rack 2" "t1" refl, tt)
      (record {
        token = differ "t1" "" refl;
        secret = differ "s3cret" "" refl;
        cert = differ "fd" "" refl;
        fingerprint = differ "fd" "" refl;
      })
      refl
