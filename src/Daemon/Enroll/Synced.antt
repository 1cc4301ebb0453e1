-- ===== src/Daemon/Enroll/Synced.antt =====
-- A mutation through the replicator and the callback that mirrors the peers into the trust store:
-- `mutate_and_sync` of internal/daemon.
use quptime.Prelude.{ℕ, ◌+◌, ◌%◌, ◌^◌, String, true, false, ◌≡◌, refl, ◌⊎◌, ap, ◌∙◌, sym}
use quptime.Config.Types.{ClusterConfig}
use quptime.Config.Cluster.{snapshot}
use quptime.Config.Cluster.Versions.{bumped}
use quptime.Replicate.Mutation.{MutationKind, Payload, apply_mutation}
use quptime.Replicate.Replicator.{Env, Effect, Result, ok, unchanged, local_mutate}
use quptime.Replicate.Replicator.Routing.{
  local_mutate-unchanged, local_mutate-ok, local_mutate-Committed, local_mutate-sum,
}
pub use quptime.Replicate.Replicator.Accepted.{Commits}
use quptime.Transport.Trust.{Entries}
use quptime.Daemon.Enroll.{Surroundings, NodeState, sync_trust, synced, mutate_and_sync}

-- The node may not commit mutations itself.
abbrev pub Follower : Env → Type 0
Follower env = (env.view.is_master ≡ false) ⊎ (env.view.has_quorum ≡ false)

-- where the callbacks fire, the peers are mirrored
synced-notified :
    (d : Surroundings) (store : Entries) (r : Effect × Result ℕ)
    → r.0.notified ≡ true
    → ((synced d store r).1 ≡ r.1)
      × ((synced d store r).0.config ≡ r.0.config)
      × ((synced d store r).0.trust ≡ sync_trust d r.0.config.peers store)
unfolding synced
synced-notified d store (e, r) h = simp h (refl, refl, refl)

module _ (d : Surroundings) (kind : MutationKind) (payload : Payload) (s : NodeState) where
  -- What a committed mutation leaves, for what the mutation makes of the configuration.
  pub record Landed (next : ClusterConfig) (out : String) : Type 0 where
    pub sum : (mutate_and_sync d kind payload s).0.config.last_sum ≡ d.env.disk.sum256 out
    pub answer : (mutate_and_sync d kind payload s).1 ≡ ok ((next.version + 1) % 2 ^ 64)
    pub content :
        snapshot (mutate_and_sync d kind payload s).0.config
        ≡ snapshot (bumped d.env.now d.env.self_id next)
    pub trust :
        (mutate_and_sync d kind payload s).0.trust
        ≡ sync_trust d (mutate_and_sync d kind payload s).0.config.peers s.trust

  -- Without the mastership or a quorum, neither the configuration nor the trust store changes.
  pub mutate_and_sync-unchanged : Follower d.env → (mutate_and_sync d kind payload s).0 ≡ s
  unfolding mutate_and_sync synced
  mutate_and_sync-unchanged h =
      let same = local_mutate-unchanged d.env kind payload s.config h in
      synced_unchanged (local_mutate d.env kind payload s.config) same
    where
      synced_unchanged :
          (r : Effect × Result ℕ) → r.0 ≡ unchanged s.config → (synced d s.trust r).0 ≡ s
      synced_unchanged (e, r) same = rw same refl

  -- A mutation that commits answers with the next version, leaves the mutated configuration, and
  -- mirrors its peers into the trust store.
  pub mutate_and_sync-Landed :
      (k : Commits d.env kind payload s.config)
      → Landed (apply_mutation d.env.json kind k.raw s.config).0 k.out
  unfolding mutate_and_sync
  mutate_and_sync-Landed k =
      let ran =
        local_mutate-ok d.env kind k.raw s.config payload k.out k.marshalled k.master k.quorum
          k.accepted k.encoded k.stored in
      let done =
        local_mutate-Committed d.env kind k.raw s.config payload
          (((apply_mutation d.env.json kind k.raw s.config).0.version + 1) % 2 ^ 64) k.marshalled
          k.master ran in
      let (answer, config, trust) =
        synced-notified d s.trust (local_mutate d.env kind payload s.config) done.notified in
      let bytes =
        local_mutate-sum d.env kind k.raw s.config payload k.out k.marshalled k.master k.quorum
          k.accepted k.encoded k.stored in
      record {
        sum = ap (λ (c : ClusterConfig). c.last_sum) config ∙ bytes;
        answer = answer ∙ ran;
        content = ap snapshot config ∙ done.content;
        trust = trust ∙ ap (λ (c : ClusterConfig). sync_trust d c.peers s.trust) (sym config);
      }
