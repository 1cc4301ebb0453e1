-- ===== src/Replicate/Tests/Runs.antt =====
-- The theorem about several nodes at a concrete run: one removes a check, and another pulls.
use quptime.Prelude.{true, some, [], ◌≡◌, refl, sym, ◌∙◌, ap, arith}
use quptime.Config.Types.{ClusterConfig}
use quptime.Config.Cluster.{snapshot, mutate, persist, replace}
use quptime.Replicate.Mutation.{
  apply_mutation, apply_remove_check, delete_first, any_match, remove_check, a_target,
}
use quptime.Replicate.Replicator.{
  ok, local_mutate, apply_locally, pull_from, handle_get_cluster_cfg,
}
use quptime.Replicate.Network.{Network, Reach, start, later, mutates, pulls, after}
use quptime.Replicate.Network.Stamps.{Known, held, pushed, Stamped, Reach-same_content}
use quptime.Samples.{three, node, working}

-- every node has the same configuration
abbrev quiet : Network
quiet = record { config = λ id. three; sent = [] }

all_three : (x : ClusterConfig) → Known quiet x → x ≡ snapshot three
all_three x (held id e) = e
all_three x (pushed p m e) = absurd m

quiet-Stamped : Stamped quiet
unfolding snapshot
quiet-Stamped = record {
  authored =
      λ x k. let e = ap (λ (c : ClusterConfig). c.version) (all_three x k) in omega (arith, e);
  agree = λ x y k l v a. all_three x k ∙ sym (all_three y l);
  whole = λ x k. rw (all_three x k) refl;
}

abbrev removed : Network
removed = after quiet "a" (local_mutate (node true true) remove_check (a_target "web") three).0

abbrev pulled : Network
pulled =
    after removed "b"
      (pull_from working (λ i a. ok (some (handle_get_cluster_cfg (removed.config "a")))) "a"
        "host:9901" (removed.config "b")).0

run : Reach quiet pulled
run =
    later (later start (mutates (node true true) remove_check (a_target "web") (ground arith)))
      (pulls working "b" "a" "host:9901")

Reach-same_content_example : snapshot (pulled.config "a") ≡ snapshot (pulled.config "b")
unfolding after local_mutate apply_locally mutate persist apply_mutation apply_remove_check
    any_match delete_first pull_from handle_get_cluster_cfg replace snapshot
Reach-same_content_example = Reach-same_content "a" "b" quiet-Stamped run refl refl
