-- ===== src/Replicate/Tests.antt =====
-- The theorems about internal/replicate/replicator.go at concrete inputs.
mod Runs
use quptime.Prelude.{
  true, false, none, some, [], ◌∷◌, ◌≡◌, ◌≢◌, refl, inl, inr, ◌↔◌, ◌+◌, ◌%◌, ◌^◌, arith, Distinct,
  map, differ,
}
use quptime.Config.Types.{Check}
use quptime.Replicate.Mutation.{
  apply_mutation, apply_add_check, apply_remove_check, delete_first, any_match, remove_check,
  add_peer, a_target,
}
use quptime.Replicate.Mutation.Ids.{IdsDistinct, apply_mutation-IdsDistinct}
use quptime.Replicate.Mutation.Single.{add_check_duplicates}
use quptime.Replicate.Replicator.{
  ProposeMutationRequest, ok, Push, unchanged, local_mutate, apply_locally, handle_propose_mutation,
}
use quptime.Replicate.Replicator.Routing.{not_master-unchanged, Committed, local_mutate-Committed}
use quptime.Replicate.Replicator.Accepted.{Commits, local_mutate_iff}
use quptime.Config.Cluster.{mutate, persist}
use quptime.Samples.{three, web, named_check, codec, node}

-- another node asks for the removal of the check web
abbrev removal : ProposeMutationRequest
removal = record { from_node_id = "b"; kind = remove_check; payload = "web" }

not_master-unchanged_example :
    ((local_mutate (node true false) remove_check (a_target "web") three).0 ≡ unchanged three)
    × ((handle_propose_mutation (node true false) removal three).0 ≡ unchanged three)
    × ((handle_propose_mutation (node true false) removal three).1.error ≢ none)
not_master-unchanged_example =
    not_master-unchanged (node true false) remove_check (a_target "web") removal three (inr refl)

removes : (local_mutate (node true true) remove_check (a_target "web") three).1 ≡ ok 2
unfolding local_mutate apply_locally mutate persist apply_mutation any_match delete_first
    apply_remove_check
removes = refl

local_mutate_iff_example :
    ((local_mutate (node true true) remove_check (a_target "web") three).1 ≡ ok 2)
    ↔ (Commits (node true true) remove_check (a_target "web") three × (2 ≡ (1 + 1) % 2 ^ 64))
local_mutate_iff_example =
    local_mutate_iff (node true true) remove_check (a_target "web") three refl 2

local_mutate-Committed_example :
    Committed
      (node true true)
      remove_check
      "web"
      three
      (local_mutate (node true true) remove_check (a_target "web") three).0
      2
local_mutate-Committed_example =
    local_mutate-Committed (node true true) remove_check "web" three (a_target "web") 2 refl refl
      removes

abbrev to_b : Push
to_b = record { peer_id = "b"; addr = "host:9901"; config = three }

three-IdsDistinct : IdsDistinct three
three-IdsDistinct = record {
  peers = (
    λ m. elim m [
      | inl e ↦ differ "a" "b" refl e
      | inr (inl e) ↦ differ "a" "c" refl e
      | inr (inr n) ↦ n
    ],
    (λ m. elim m [ inl e ↦ differ "b" "c" refl e | inr n ↦ n ], ((λ n. n), tt)),
  );
  enrollments = ((λ n. n), tt);
}

apply_mutation-IdsDistinct_example : IdsDistinct (apply_mutation codec add_peer "d" three).0
apply_mutation-IdsDistinct_example =
    apply_mutation-IdsDistinct three three-IdsDistinct codec add_peer "d"
      (λ incoming e. absurd (ground arith))

-- a check with the name of the first and the id of the second
abbrev crossing : Check
crossing = named_check "c2" "web"

add_check_duplicates_example :
    ((apply_add_check (some crossing) three).1 ≡ none)
    × (¬ Distinct (map (λ (z : Check). z.id) (apply_add_check (some crossing) three).0.checks))
add_check_duplicates_example =
    add_check_duplicates three crossing web (named_check "c2" "db") (named_check "c2" "db" ∷ [])
      refl (differ "c2" "" refl) (differ "web" "" refl) refl (inl refl) refl
