-- ===== src/Config/Tests.antt =====
-- The theorems about internal/config at concrete inputs.
mod Writing
use quptime.Prelude.{
  ◌+◌, ◌≤◌, String, ◌==◌, Option, refl, some, none, [], ◌∷◌, ◌≡◌, sym, ap, ◌∙◌, inl, inr, arith, In,
  map, if◌then◌else◌,
}
use quptime.Prelude.Int.{pos}
use quptime.Config.Types.{ClusterConfig}
use quptime.Config.Cluster.{snapshot, mutate, contents}
use quptime.Config.Cluster.Versions.{Mutated, mutate-Mutated}
use quptime.Config.Cluster.Convergence.{replace_all, VersionsAgree, replace_all-converges}
use quptime.Config.Cluster.Settling.{adoptions, adoptions-le}
use quptime.Replicate.Mutation.{apply_mutation, remove_check}
use quptime.Samples.{three, newer, working, broken, codec}
use quptime.Config.Node.{NodeConfig, NodeFile, loaded, load_node_config, apply_env_overrides}

once_or_twice :
    (x : ClusterConfig)
    → In x (map snapshot (three ∷ newer ∷ []))
    → In x (map snapshot (three ∷ three ∷ newer ∷ []))
once_or_twice x (inl e) = inl e
once_or_twice x (inr m) = inr (inr m)

twice_or_once :
    (x : ClusterConfig)
    → In x (map snapshot (three ∷ three ∷ newer ∷ []))
    → In x (map snapshot (three ∷ newer ∷ []))
twice_or_once x (inl e) = inl e
twice_or_once x (inr m) = m

two-VersionsAgree : VersionsAgree (map snapshot (three ∷ newer ∷ []))
unfolding snapshot
two-VersionsAgree x y (inl e) (inl f) h = e ∙ sym f
two-VersionsAgree x y (inr (inl e)) (inr (inl f)) h = e ∙ sym f
two-VersionsAgree x y (inl e) (inr (inr n)) h = absurd n
two-VersionsAgree x y (inr (inl e)) (inr (inr n)) h = absurd n
two-VersionsAgree x y (inr (inr n)) m h = absurd n
two-VersionsAgree x y (inl e) (inr (inl f)) h = absurd (
    omega
      (arith, h, ap (λ (c : ClusterConfig). c.version) e, ap (λ (c : ClusterConfig). c.version) f))
two-VersionsAgree x y (inr (inl e)) (inl f) h = absurd (
    omega
      (arith, h, ap (λ (c : ClusterConfig). c.version) e, ap (λ (c : ClusterConfig). c.version) f))

replace_all-converges_example :
    snapshot (replace_all working (newer ∷ []) three)
    ≡ snapshot (replace_all broken (three ∷ newer ∷ []) three)
replace_all-converges_example =
    replace_all-converges working broken (newer ∷ []) (three ∷ newer ∷ []) three three once_or_twice
      twice_or_once two-VersionsAgree

mutate-Mutated_example :
    Mutated working 7 "a"
      (apply_mutation codec remove_check "web" three)
      (mutate working 7 "a" (apply_mutation codec remove_check "web") three)
mutate-Mutated_example =
    mutate-Mutated working 7 "a" (apply_mutation codec remove_check "web") three

-- a file that holds the author of a configuration, and its parser
abbrev parse_author : String → Option ClusterConfig
parse_author author = some (record newer { updated_by = author })

-- a file without a port, on a machine that sets another address
abbrev written_node : NodeConfig
written_node = record {
  node_id = "d";
  bind_addr = "10.0.0.1";
  bind_port = pos 0;
  advertise = "";
  cluster_secret = "old";
}

abbrev machine : NodeFile
machine = record {
  getenv = λ name. if name == "QUPTIME_BIND_ADDR" then "10.0.0.2" else "";
  atoi = λ s. none;
  itoa = λ port. "9901";
  parse = λ raw. some written_node;
  marshal = λ n. some n.node_id;
  write = λ out. none;
}

abbrev running_node : NodeConfig
running_node = record written_node { bind_addr = "10.0.0.2"; bind_port = pos 9901 }

loads : load_node_config machine (contents "yaml") ≡ loaded running_node
unfolding load_node_config apply_env_overrides
loads = refl

adoptions-le_example : 1 + adoptions broken (newer ∷ three ∷ newer ∷ []) three ≤ 2
adoptions-le_example =
    adoptions-le broken (newer ∷ three ∷ newer ∷ []) three 2
      (λ x m. elim m [
        | inl e ↦ rw e (ground arith)
        | inr (inl e) ↦ rw e (ground arith)
        | inr (inr (inl e)) ↦ rw e (ground arith)
        | inr (inr (inr n)) ↦ absurd n
      ])
      (ground arith)
