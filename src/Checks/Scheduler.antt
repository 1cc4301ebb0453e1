-- ===== src/Checks/Scheduler.antt =====
-- internal/checks/scheduler.go, and the choice of resolvers in internal/checks/resolver.go. A running
-- worker is the check that it was started with; `strings.TrimSpace` and the host and port functions
-- of package net are arguments.
pub mod Wanted
pub mod Probes
use quptime.Prelude.{
  String, Bool, true, false, ◌&&◌, ◌||◌, Option, none, some, List, [], ◌∷◌, ◌==◌, if◌then◌else◌,
  lookup, insert,
}
use quptime.Prelude.Int.{int_eq}
use quptime.Config.Types.{
  Check, CheckType, check_http, check_tcp, check_icmp, check_tls, check_dns, other_check,
  ClusterConfig,
}

pub record Net : Type 0 where
  pub trim_space : String → String
  pub has_port : String → Bool
  pub join_default_port : String → String

-- `normaliseResolvers`
unfoldable pub normalise_resolvers : Net → List String → List String
normalise_resolvers net [] = []
normalise_resolvers net (raw ∷ rest) =
    let s = net.trim_space raw in
    let more = normalise_resolvers net rest in
    if s == "" then more else (if net.has_port s then s else net.join_default_port s) ∷ more

first_of : List String → List String → List String
first_of [] other = other
first_of (s ∷ rest) other = s ∷ rest

legacy_resolver : Net → Check → CheckType → List String
unfolding normalise_resolvers
legacy_resolver net check check_dns =
    let s = net.trim_space check.dns_resolver in
    if s == "" then [] else normalise_resolvers net (s ∷ [])
legacy_resolver net check _ = []

-- `EffectiveResolvers`
unfoldable pub effective_resolvers : Net → Check → List String → List String
unfolding first_of legacy_resolver
effective_resolvers net check defaults =
    first_of (normalise_resolvers net check.resolvers)
      (first_of (normalise_resolvers net defaults) (legacy_resolver net check check.type))

-- the check that a worker runs, with its resolvers filled in
unfoldable pub baked : Net → List String → Check → Check
unfolding effective_resolvers
baked net defaults c = record c { resolvers = effective_resolvers net c defaults }

-- the loop that fills `want`
unfoldable pub want_all :
    Net → List String → List Check → List (String × Check) → List (String × Check)
want_all net defaults [] want = want
want_all net defaults (c ∷ rest) want =
    want_all net defaults rest
      (if c.id == "" || c.disabled then want else insert c.id (baked net defaults c) want)

abbrev pub type_eq : CheckType → CheckType → Bool
type_eq check_http check_http = true
type_eq check_tcp check_tcp = true
type_eq check_icmp check_icmp = true
type_eq check_tls check_tls = true
type_eq check_dns check_dns = true
type_eq (other_check s) (other_check t) = s == t
type_eq _ _ = false

-- `sameStrings`
unfoldable pub same_strings : List String → List String → Bool
same_strings [] [] = true
same_strings (s ∷ xs) (t ∷ ys) = s == t && same_strings xs ys
same_strings _ _ = false

-- `sameCheck`
unfoldable pub same_check : Check → Check → Bool
same_check a b =
    a.id == b.id
    && type_eq a.type b.type
    && a.target == b.target
    && int_eq a.interval b.interval
    && int_eq a.timeout b.timeout
    && int_eq a.expect_status b.expect_status
    && a.body_match == b.body_match
    && same_strings a.resolvers b.resolvers

-- a worker goes on: its check is still wanted, and the same
unfoldable pub goes_on : Check → Option Check → Bool
goes_on w none = false
goes_on w (some desired) = same_check desired w

-- the loop that cancels
unfoldable pub cancel_stale : List (String × Check) → List (String × Check) → List (String × Check)
unfolding goes_on
cancel_stale want [] = []
cancel_stale want ((id, w) ∷ rest) =
    let others = cancel_stale want rest in
    if goes_on w (lookup id want) then (id, w) ∷ others else others

start_missing : String → Check → List (String × Check) → Option Check → List (String × Check)
start_missing id c running none = insert id c running
start_missing id c running (some w) = running

-- the loop that starts workers
unfoldable pub start_all : List (String × Check) → List (String × Check) → List (String × Check)
unfolding start_missing
start_all [] running = running
start_all ((id, c) ∷ rest) running = start_all rest (start_missing id c running (lookup id running))

-- `reconcile`: the workers that run afterwards
unfoldable pub reconcile : Net → ClusterConfig → List (String × Check) → List (String × Check)
unfolding start_all cancel_stale want_all
reconcile net c running =
    let want = want_all net c.resolvers c.checks [] in start_all want (cancel_stale want running)
