-- ===== src/Replicate/Network/Stamps.antt =====
-- The author and the version of a configuration name its content, in every run of several nodes.
use quptime.Prelude.{
  ◌≤◌, String, false, [], ◌==◌, ◌≡◌, ◌≢◌, refl, ap, sym, ◌∙◌, ◌⊎◌, inl, inr, eq_iff, eq_refl, arith,
  In, In-append, Bool-cases,
}
use quptime.Config.Types.{ClusterConfig}
use quptime.Config.Cluster.{snapshot}
use quptime.Replicate.Replicator.{Effect, Push}
use quptime.Replicate.Replicator.Growth.{
  Grown, Grows, Takes, local_mutate-Grows, handle_propose_mutation-Grows,
  handle_apply_cluster_cfg-Takes, pull_from-Takes,
}
use quptime.Replicate.Network.{
  Network, after, Step, mutates, is_asked, receives, pulls, Reach, start, later,
}

-- A content that some node has, or that was pushed.
pub data Known (s : Network) (x : ClusterConfig) : Type 0 where
  held : (id : String) → x ≡ snapshot (s.config id) → Known s x
  pushed : (p : Push) → In p s.sent → x ≡ p.config → Known s x

-- Nobody knows a version of an author that is newer than the author's own, and known contents with
-- the same version and author are the same.
pub record Stamped (s : Network) : Type 0 where
  pub authored : (x : ClusterConfig) → Known s x → x.version ≤ (s.config x.updated_by).version
  pub agree :
      (x y : ClusterConfig)
      → Known s x
      → Known s y
      → x.version ≡ y.version
      → x.updated_by ≡ y.updated_by
      → x ≡ y
  pub whole : (x : ClusterConfig) → Known s x → snapshot x ≡ x

module _ (s : Network) (id : String) (e : Effect) where
  after_self : (after s id e).config id ≡ e.config
  unfolding after
  after_self = simp (eq_refl id) refl

  after_other : (j : String) → j ≢ id → (after s id e).config j ≡ s.config j
  unfolding after
  after_other j n = let off : (j == id) ≡ false = ground (arith, eq_iff j id, n) in simp off refl

  -- what is known after a call was known before, or is the content that the call leaves
  Known-after :
      (x : ClusterConfig)
      → ((p : Push) → In p e.pushes → p.config ≡ snapshot e.config)
      → Known (after s id e) x
      → Known s x ⊎ (x ≡ snapshot e.config)
  unfolding after
  Known-after x only (held j h) = elim (Bool-cases (j == id)) [
    | inl t ↦ inr (simp t at h)
    | inr t ↦ inl (held j (simp t at h))
  ]
  Known-after x only (pushed p m h) = elim (In-append p s.sent e.pushes m) [
    | inl n ↦ inl (pushed p n h)
    | inr n ↦ inr (h ∙ only p n)
  ]

  version-after :
      (s.config id).version ≤ e.config.version
      → (j : String) → (s.config j).version ≤ ((after s id e).config j).version
  unfolding after
  version-after up j = elim (Bool-cases (j == id)) [
    | inl t ↦ let same : j ≡ id = (eq_iff j id).0 t in simp t (rw same up)
    | inr t ↦ simp t (omega arith)
  ]

  -- a call after which nothing new is known
  nothing_new :
      Stamped s
      → ((x : ClusterConfig) → Known (after s id e) x → Known s x)
      → (s.config id).version ≤ e.config.version
      → Stamped (after s id e)
  nothing_new h sub up = record {
    authored = λ x k. omega (arith, h.authored x (sub x k), version-after up x.updated_by);
    agree = λ x y k l v a. h.agree x y (sub x k) (sub y l) v a;
    whole = λ x k. h.whole x (sub x k);
  }

  taken-Stamped :
      (x : ClusterConfig) → Stamped s → Known s x → Takes x (s.config id) e → Stamped (after s id e)
  unfolding snapshot
  taken-Stamped x h k t = nothing_new h sub up
    where
      sub : (y : ClusterConfig) → Known (after s id e) y → Known s y
      sub y l =
          elim (Known-after y (λ p m. absurd (let none : In p [] = rw t.quiet at m in none)) l) [
            | inl old ↦ old
            | inr new ↦ elim t.content [
              | inl c ↦ held id (new ∙ c)
              | inr (c, _) ↦ rw (sym (h.whole x k) ∙ sym c ∙ sym new) at k
            ]
          ]

      up : (s.config id).version ≤ e.config.version
      up = elim t.content [
        | inl c ↦ let v = ap (λ (y : ClusterConfig). y.version) c in omega (arith, v)
        | inr (c, l) ↦ let v = ap (λ (y : ClusterConfig). y.version) c in omega (arith, v, l)
      ]

  Grown-Stamped : Stamped s → Grown id (s.config id) e → Stamped (after s id e)
  unfolding snapshot
  Grown-Stamped h g = record {
    authored = λ x k. elim (Known-after x g.pushed k) [
      | inl old ↦ omega (arith, h.authored x old, version-after up x.updated_by)
      | inr new ↦
          let by_node : x.updated_by ≡ id =
            ap (λ (y : ClusterConfig). y.updated_by) new ∙ g.author in
          let version : x.version ≡ e.config.version = ap (λ (y : ClusterConfig). y.version) new in
          rw by_node (rw after_self (omega (arith, version)))
    ];
    agree = λ x y k l v a. elim (Known-after x g.pushed k) [
      | inl old ↦ elim (Known-after y g.pushed l) [
        | inl old' ↦ h.agree x y old old' v a
        | inr new ↦ absurd (newer x y old new v a)
      ]
      | inr new ↦ elim (Known-after y g.pushed l) [
        | inl old ↦ absurd (newer y x old new (sym v) (sym a))
        | inr new' ↦ new ∙ sym new'
      ]
    ];
    whole =
        λ x k. elim (Known-after x g.pushed k) [ inl old ↦ h.whole x old | inr new ↦ rw new refl ];
  }
    where
      up : (s.config id).version ≤ e.config.version
      up = omega (arith, g.version)

      -- what was known of the author is older than what it has just made
      newer :
          (x y : ClusterConfig)
          → Known s x
          → y ≡ snapshot e.config
          → x.version ≡ y.version
          → x.updated_by ≡ y.updated_by
          → ⊥
      newer x y old new v a =
          let by_node : x.updated_by ≡ id =
            a ∙ ap (λ (z : ClusterConfig). z.updated_by) new ∙ g.author in
          let version : y.version ≡ e.config.version = ap (λ (z : ClusterConfig). z.version) new in
          let known : x.version ≤ (s.config id).version = rw by_node at (h.authored x old) in
          omega (arith, g.version)

  Grows-Stamped : Stamped s → Grows id (s.config id) e → Stamped (after s id e)
  Grows-Stamped h (inr g) = Grown-Stamped h g
  Grows-Stamped h (inl (c, q)) =
      taken-Stamped (snapshot (s.config id)) h (held id refl)
        (record { quiet = q; content = inl c })

-- Each call keeps the stamps apart.
pub Step-Stamped : {s t : Network} → Step s t → Stamped s → Stamped t
Step-Stamped {s} (mutates env kind payload room) h =
    Grows-Stamped s env.self_id _ h
      (local_mutate-Grows env kind payload (s.config env.self_id) room)
Step-Stamped {s} (is_asked env req room) h =
    Grows-Stamped s env.self_id _ h
      (handle_propose_mutation-Grows env req (s.config env.self_id) room)
Step-Stamped {s} (receives d x m) h =
    taken-Stamped s x.peer_id _ x.config h (pushed x m refl)
      (handle_apply_cluster_cfg-Takes d x.config (s.config x.peer_id))
Step-Stamped {s} (pulls d id from addr) h =
    taken-Stamped s id _ (snapshot (s.config from)) h (held from refl)
      (pull_from-Takes d (s.config from) (s.config id) from addr)

pub Reach-Stamped : {s t : Network} → Stamped s → Reach s t → Stamped t
Reach-Stamped h start = h
Reach-Stamped h (later r st) = Step-Stamped st (Reach-Stamped h r)

-- However nodes with distinct ids mutate, push, pull, lose and repeat messages, also where several
-- take themselves for the master and disks fail, two nodes whose configurations have the same
-- version and the same author have the same content, if this holds at the start and nobody knows a
-- newer version of an author than that author, and as long as no version reaches 2 ^ 64.
pub Reach-same_content :
    {s t : Network} (a b : String)
    → Stamped s
    → Reach s t
    → (t.config a).version ≡ (t.config b).version
    → (t.config a).updated_by ≡ (t.config b).updated_by
    → snapshot (t.config a) ≡ snapshot (t.config b)
unfolding snapshot
Reach-same_content {t = t} a b h r v by_node =
    (Reach-Stamped h r).agree (snapshot (t.config a)) (snapshot (t.config b)) (held a refl)
      (held b refl) v by_node
