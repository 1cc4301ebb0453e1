-- ===== src/Daemon/Control/Redeem.antt =====
-- A token from `enrollCreate` of internal/daemon/control.go, and the node that presents it to
-- `handleEnroll` of internal/daemon/handlers.go.
use quptime.Prelude.{
  ℕ, String, Bool, Option, none, some, ◌≡◌, refl, ◌∙◌, ltb, if_both, if◌then◌else◌,
}
use quptime.Config.Types.{PendingEnrollment}
use quptime.Replicate.Mutation.{add_enrollment, an_enrollment}
use quptime.Replicate.Replicator.{Result, ok, err}
use quptime.Daemon.Enroll.{NodeState, mutate_and_sync}
use quptime.Daemon.Enroll.Authorised.{Authorised}
use quptime.Daemon.Enroll.Synced.{Follower, mutate_and_sync-unchanged}
use quptime.Daemon.Control.{
  Host, EnrollCreateBody, Created, not_created, ttl_too_long, minted, handed_out, mint, max_ttl,
  ttl_of, enroll_create,
}

module _ (h : Host) (body : EnrollCreateBody) (s : NodeState) (id secret : String) where
  abbrev entry : PendingEnrollment
  entry = minted h body id secret

handed_out_state :
    (h : Host) (e : PendingEnrollment) (secret : String) (p : NodeState × Result ℕ)
    → (handed_out h e secret p).0 ≡ p.0
unfolding handed_out
handed_out_state h e secret (t, ok v) = refl
handed_out_state h e secret (t, err x) = refl

mint-unchanged :
    (h : Host) (body : EnrollCreateBody) (s : NodeState) (id secret : Option String)
    → Follower h.around.env
    → (mint h body s id secret).0 ≡ s
unfolding mint
mint-unchanged h body s none secret f = refl
mint-unchanged h body s (some id) none f = refl
mint-unchanged h body s (some id) (some secret) f =
    let e = minted h body id secret in
    handed_out_state h e secret (mutate_and_sync h.around add_enrollment (an_enrollment e) s)
    ∙ mutate_and_sync-unchanged h.around add_enrollment (an_enrollment e) s f

-- a node that is no master, or sees no quorum, mints nothing here
pub enroll_create-unchanged :
    (h : Host) (body : EnrollCreateBody) (s : NodeState)
    → Follower h.around.env
    → (enroll_create h body s).0 ≡ s
unfolding enroll_create
enroll_create-unchanged h body s f =
    let long = ltb max_ttl (ttl_of body) in
    if_state s (s, not_created ttl_too_long) long (mint h body s h.random_id h.random_secret) refl
      (mint-unchanged h body s h.random_id h.random_secret f)
  where
    if_state :
        (t : NodeState) (x : NodeState × Created) (b : Bool) (y : NodeState × Created)
        → x.0 ≡ t
        → y.0 ≡ t
        → (if b then x else y).0 ≡ t
    if_state t x b y e k = if_both (λ (z : NodeState × Created). z.0 ≡ t) b e k
