-- ===== src/Quorum/Node/Outsider.antt =====
-- Senders outside cluster.yaml, in internal/quorum/manager.go.
use quptime.Prelude.{
  ℕ, suc, ◌<◌, ◌≤◌, String, true, false, none, some, ◌∷◌, ◌≡◌, ◌≢◌, refl, sym, ◌∙◌, ◌⊎◌, inl, inr,
  ◌==◌, eq_iff, arith, In, Distinct, length, length-le_of_subset, leb, keys, lookup, insert,
  lookup-insert, lookup-insert_self, Distinct-keys-insert, Bool-cases, str_leb_refl, ap, Option,
}
use quptime.Prelude.Sort.{AtMost}
use quptime.Config.Cluster.{quorum_size}
use quptime.Quorum.Manager.{Manager, mark_live, live_set, recompute_master}
use quptime.Quorum.Manager.Live.{live_set_iff, live_set-Distinct}
use quptime.Quorum.Manager.Election.{takes_over, recompute_master_iff}
use quptime.Quorum.Manager.Majority.{peer_ids}
use quptime.Quorum.Node.{
  Node, Observer, HeartbeatRequest, handle_heartbeat, heard_from, recompute, maybe_notify_version,
  set_addr,
}

-- what a contact of `id` does to a manager, whatever it remembers of addresses
record Heard (id : String) (now : ℕ) (m after : Manager) : Type 0 where
  seen : after.last_seen ≡ insert id now m.last_seen
  dead_after : after.dead_after ≡ m.dead_after
  self : after.self_id ≡ m.self_id
  master : after.master_id ≡ m.master_id

set_addr-Heard :
    (id addr : String) (now : ℕ) (m : Manager)
    → Heard id now m (set_addr id addr (mark_live id now m))
unfolding set_addr mark_live
set_addr-Heard id addr now m = elim (Bool-cases (addr == "")) [
  | inl e ↦ simp e (record { seen = refl; dead_after = refl; self = refl; master = refl })
  | inr e ↦ simp e (record { seen = refl; dead_after = refl; self = refl; master = refl })
]

module _ (m after : Manager) (id : String) (now : ℕ) (d : Distinct (keys m.last_seen))
    (positive : 0 < m.dead_after) (h : Heard id now m after) where
  kept : Distinct (keys after.last_seen)
  kept = rw h.seen (Distinct-keys-insert id now m.last_seen d)

  -- A contact makes its sender live, listed as a peer or not.
  counted : In id (live_set after now)
  counted = (live_set_iff after now id kept).1 (
    now,
    rw h.seen (lookup-insert_self id now m.last_seen),
    inl (rw h.dead_after (omega (arith, positive))),
  )

  same : (x : String) → x ≢ id → lookup x after.last_seen ≡ lookup x m.last_seen
  same x n = rw h.seen (ground (arith, lookup-insert id x now m.last_seen, eq_iff id x))

  -- and leaves the others as live as they were
  grown : (x : String) → In x (live_set m now) → In x (live_set after now)
  grown x l = elim (Bool-cases (id == x)) [
    | inl e ↦ rw (← (eq_iff id x).0 e) counted
    | inr e ↦
        let (ts, f, g) = (live_set_iff m now x d).0 l in
        (live_set_iff after now x kept).1
          (ts, same x (ground (arith, eq_iff id x)) ∙ f, rw (h.dead_after, h.self) g)
  ]

  only : (x : String) → In x (live_set after now) → (x ≡ id) ⊎ In x (live_set m now)
  only x l = elim (Bool-cases (id == x)) [
    | inl e ↦ inl (sym ((eq_iff id x).0 e))
    | inr e ↦
        let (ts, f, g) = (live_set_iff after now x kept).0 l in
        inr (
          (live_set_iff m now x d).1
            (ts, sym (same x (ground (arith, eq_iff id x))) ∙ f, rw (h.dead_after, h.self) at g))
  ]

  one_more : ¬ In id (live_set m now) → suc (length (live_set m now)) ≤ length (live_set after now)
  one_more n =
      length-le_of_subset (id ∷ live_set m now) (live_set after now) (n, live_set-Distinct m now d)
        (λ x l. elim l [ inl e ↦ rw e counted | inr k ↦ grown x k ])

-- Where the sender announces no newer version, `HandleHeartbeat` from another node elects over what
-- the contact leaves.
heartbeat-elects :
    (observer : Option Observer) (now : ℕ) (req : HeartbeatRequest) (n : Node)
    → req.from_node_id ≢ ""
    → req.from_node_id ≢ n.manager.self_id
    → req.version ≤ n.cluster.version
    → let after = (handle_heartbeat observer now req n).0 in
      let heard =
        set_addr req.from_node_id req.advertise (mark_live req.from_node_id now n.manager) in
      (after.cluster ≡ n.cluster)
      × (after.manager ≡ recompute_master (quorum_size n.cluster) now heard)
unfolding handle_heartbeat heard_from maybe_notify_version recompute
heartbeat-elects none now req n named other old =
    let known : (req.from_node_id == "") ≡ false =
      ground (arith, eq_iff req.from_node_id "", named) in
    let away : (req.from_node_id == n.manager.self_id) ≡ false =
      ground (arith, eq_iff req.from_node_id n.manager.self_id, other) in
    simp (known, away) (refl, refl)
heartbeat-elects (some f) now req n named other old =
    let known : (req.from_node_id == "") ≡ false =
      ground (arith, eq_iff req.from_node_id "", named) in
    let away : (req.from_node_id == n.manager.self_id) ≡ false =
      ground (arith, eq_iff req.from_node_id n.manager.self_id, other) in
    let quiet : leb req.version n.cluster.version ≡ true = ground (arith, old) in
    simp (known, away, quiet) (refl, refl)

-- A heartbeat of a sender that is no peer of the configuration, and was not live before, makes it the
-- master, if there is none, the live peers before are at most one short of the quorum, the sender's
-- id is below theirs, and it announces no newer version.
pub outsider_elected :
    (observer : Option Observer) (now : ℕ) (req : HeartbeatRequest) (n : Node)
    → ¬ In req.from_node_id (peer_ids n.cluster)
    → req.from_node_id ≢ ""
    → req.from_node_id ≢ n.manager.self_id
    → req.version ≤ n.cluster.version
    → Distinct (keys n.manager.last_seen)
    → 0 < n.manager.dead_after
    → n.manager.master_id ≡ ""
    → ¬ In req.from_node_id (live_set n.manager now)
    → quorum_size n.cluster ≤ suc (length (live_set n.manager now))
    → ((x : String) → In x (live_set n.manager now) → AtMost req.from_node_id x)
    → let after = (handle_heartbeat observer now req n).0 in
      (after.manager.master_id ≡ req.from_node_id)
      × (¬ In after.manager.master_id (peer_ids after.cluster))
outsider_elected observer now req n out named other old d h vacant absent quorum least =
    let id = req.from_node_id in
    let heard = set_addr id req.advertise (mark_live id now n.manager) in
    let contact = set_addr-Heard id req.advertise now n.manager in
    let (config, elected) = heartbeat-elects observer now req n named other old in
    let more = one_more n.manager heard id now d h contact absent in
    let won : (recompute_master (quorum_size n.cluster) now heard).master_id ≡ id =
      (recompute_master_iff (quorum_size n.cluster) now heard id).0 (
        takes_over (omega (arith, quorum, more)) (inl (contact.master ∙ vacant))
          (counted n.manager heard id now d h contact)
          (λ x l. elim (only n.manager heard id now d h contact x l) [
            | inl e ↦ rw e (str_leb_refl id)
            | inr k ↦ least x k
          ])) in
    let master = ap (λ (m : Manager). m.master_id) elected ∙ won in
    (master, rw (config, master) out)
