-- ===== src/Transport/Client/Pool/Calls.antt =====
-- What one call of the RPC client, internal/transport/rpc.go, leaves in the pool.
use quptime.Prelude.{
  ℕ, String, false, Option, none, some, ◌≡◌, ◌≢◌, refl, ◌⊎◌, inl, inr, ◌==◌, eq_iff, eq_refl, arith,
  ◌∙◌, lookup, lookup-insert, lookup-insert_self, lookup-remove,
}
use quptime.Transport.Client.{
  Client, Network, CallError, Called, install, install_over, drop_conn, drop_found, get_conn,
  after_dial, pooled_or_dialed, call_on, dropped, call_with, call,
}
use quptime.Transport.Client.Pool.{dialed, dropping, numbered, Run, done, next}

-- the pools agree on every node but one
abbrev pub Besides : String → Client → Client → Type 0
Besides id a b = (j : String) → j ≢ id → lookup j b.conns ≡ lookup j a.conns

-- What a call that ends in `r` leaves: a connection of the node after a result, none after an error.
abbrev pub Settled : {A : Type 0} → String → Client → A ⊎ CallError → Type 0
Settled id c (inl a) = lookup id c.conns ≢ none
Settled id c (inr e) = lookup id c.conns ≡ none

pub record Transition {A : Type 0} (id : String) (before : Client) (r : Called A) : Type 0 where
  pub run : Run before r.0
  pub others : Besides id before r.0
  pub settled : Settled id r.0 r.1

install_over-Transition :
    (id : String) (c : Client) (o : Option ℕ)
    → lookup id c.conns ≡ o
    → Besides id c (install_over id c o).0 × (lookup id (install_over id c o).0.conns ≢ none)
unfolding install_over
install_over-Transition id c (some k) q = (λ j n. refl, λ e. cc)
install_over-Transition id c none q = (
  λ j n.
      let other : (id == j) ≡ false = ground (arith, eq_iff id j, n) in
      simp (lookup-insert id j c.opened c.conns, other) refl,
  λ e. let there = lookup-insert_self id c.opened c.conns in cc,
)

drop_found-gone :
    (id : String) (c : Client) (o : Option ℕ)
    → lookup id c.conns ≡ o
    → Besides id c (drop_found id c o) × (lookup id (drop_found id c o).conns ≡ none)
unfolding drop_found
drop_found-gone id c none q = (λ j n. refl, q)
drop_found-gone id c (some k) q = (
  λ j n.
      let other : (id == j) ≡ false = ground (arith, eq_iff id j, n) in
      simp (lookup-remove id j c.conns, other) refl,
  simp (lookup-remove id id c.conns, eq_refl) refl,
)

module _ {A : Type 0} (net : Network) (read : String → Option A) (id addr method : String) where
  dropped-Transition :
      (before c : Client) (r : A ⊎ CallError)
      → Run before c
      → Besides id before c
      → lookup id c.conns ≢ none
      → Transition id before (dropped net read id (c, r))
  unfolding dropped drop_conn
  dropped-Transition before c (inl a) run others here = record {
    run = run;
    others = others;
    settled = here;
  }
  dropped-Transition before c (inr e) run others here =
      let (kept, gone) = drop_found-gone id c (lookup id c.conns) refl in
      record {
        run = next before c _ run (dropping id c);
        others = λ j n. kept j n ∙ others j n;
        settled = gone;
      }

  called-Transition :
      (before c : Client) (k : ℕ) (params : Option String)
      → Run before c
      → Besides id before c
      → lookup id c.conns ≢ none
      → Transition id before (dropped net read id (call_on net read k method params c))
  unfolding call_on
  called-Transition before c k none run others here = dropped-Transition before c _ run others here
  called-Transition before c k (some params) run others here =
      dropped-Transition before (record c { next_id = _ }) _ (next before c _ run (numbered _ c))
        others here

  dialed-Transition :
      (c : Client) (params : Option String) (o : Option String)
      → lookup id c.conns ≡ none
      → Transition id c (call_with net read id method params (after_dial id c o))
  unfolding call_with after_dial install
  dialed-Transition c params (some e) q = record { run = done c; others = λ j n. refl; settled = q }
  dialed-Transition c params none q =
      let (others, here) = install_over-Transition id c (lookup id c.conns) refl in
      called-Transition c (install id c).0 (install id c).1 params
        (next c c _ (done c) (dialed id c)) others here

  found-Transition :
      (c : Client) (params : Option String) (o : Option ℕ)
      → lookup id c.conns ≡ o
      → Transition id c (call_with net read id method params (pooled_or_dialed net id addr c o))
  unfolding call_with pooled_or_dialed
  found-Transition c params (some k) q =
      called-Transition c c k params (done c) (λ j n. refl) (λ e. cc)
  found-Transition c params none q = dialed-Transition c params (net.dial id addr) q

  -- A call is a run of the pool's steps that touches the connection of its own node only: after a
  -- result the pool has a connection of the node, and after any error it has none, so that the next
  -- call dials.
  pub call-Transition :
      (c : Client) (params : Option String)
      → Transition id c (call net read id addr method params c)
  unfolding call get_conn
  call-Transition c params = found-Transition c params (lookup id c.conns) refl
