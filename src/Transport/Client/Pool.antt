-- ===== src/Transport/Client/Pool.antt =====
-- The connections of the RPC client of internal/transport/rpc.go under calls that interleave: each
-- section that holds the pool's lock is a step.
pub mod Calls
use quptime.Prelude.{
  ℕ, suc, ◌<◌, String, Option, none, some, List, [], ◌∷◌, ◌≡◌, ◌≢◌, refl, ◌⊎◌, inl, inr, ◌==◌,
  eq_iff, arith, ◌∙◌, sym, In, In-append_left, In-append_right, In-append, lookup, insert, remove,
  map, lookup-insert, lookup-insert_self, Distinct, keys, Distinct-keys-insert,
  Distinct-keys-remove, lookup-In-keys, lookup-remove, Bool-cases,
}
use quptime.Transport.Client.{
  Client, new_client, install, install_over, drop_conn, drop_found, close,
}

-- Every connection that was opened is either in the pool, under one node, or closed, never both.
pub record Accounted (c : Client) : Type 0 where
  pub distinct : Distinct (keys c.conns)
  pub recent : (id : String) (k : ℕ) → lookup id c.conns ≡ some k → k < c.opened
  pub usable : (id : String) (k : ℕ) → lookup id c.conns ≡ some k → ¬ In k c.closed
  pub single :
      (i j : String) (k : ℕ) → lookup i c.conns ≡ some k → lookup j c.conns ≡ some k → i ≡ j
  pub past : (k : ℕ) → In k c.closed → k < c.opened
  pub kept : (k : ℕ) → k < c.opened → ((id : String) × (lookup id c.conns ≡ some k)) ⊎ In k c.closed

-- The steps of the pool: the end of a dial, a drop after a failed call, the number of a request,
-- and `Close`.
pub data Step : Client → Client → Type 0 where
  dialed : (id : String) (c : Client) → Step c (install id c).0
  dropping : (id : String) (c : Client) → Step c (drop_conn id c)
  numbered : (n : ℕ) (c : Client) → Step c (record c { next_id = n })
  closing : (c : Client) → Step c (close c)

pub data Run : Client → Client → Type 0 where
  done : (c : Client) → Run c c
  next : (a b c : Client) → Run a b → Step b c → Run a c

below_suc : (n m : ℕ) → n < suc m → (n ≡ m) ⊎ (n < m)
below_suc n m h = omega (arith, h)

inserted_cases :
    (id i : String) (v n : ℕ) (m : List (String × ℕ))
    → lookup i (insert id v m) ≡ some n
    → ((i ≡ id) × (n ≡ v)) ⊎ ((i ≢ id) × (lookup i m ≡ some n))
inserted_cases id i v n m h = elim (Bool-cases (id == i)) [
  | inl e ↦
      let q : some v ≡ some n = simp (lookup-insert id i v m, e) at h in
      inl (sym ((eq_iff id i).0 e), cc)
  | inr e ↦ inr (ground (arith, eq_iff id i, e), simp (lookup-insert id i v m, e) at h)
]

removed_cases :
    (id i : String) (n : ℕ) (m : List (String × ℕ))
    → lookup i (remove id m) ≡ some n
    → (i ≢ id) × (lookup i m ≡ some n)
removed_cases id i n m h = elim (Bool-cases (id == i)) [
  | inl e ↦ absurd (cc (simp (lookup-remove id i m, e) at h))
  | inr e ↦ (ground (arith, eq_iff id i, e), simp (lookup-remove id i m, e) at h)
]

install_found-Accounted :
    (id : String) (c : Client) (k : ℕ) → Accounted c → Accounted (install_over id c (some k)).0
unfolding install_over
install_found-Accounted id c k v = record {
  distinct = v.distinct;
  recent = λ i n h. ground (arith, v.recent i n h);
  usable =
      λ i n h. λ m. elim m [ inl e ↦ ground (arith, v.recent i n h, e) | inr l ↦ v.usable i n h l ];
  single = v.single;
  past = λ n m. elim m [ inl e ↦ ground (arith, e) | inr l ↦ ground (arith, v.past n l) ];
  kept = λ n l. elim (below_suc n c.opened l) [
    | inl e ↦ inr (inl e)
    | inr b ↦ elim (v.kept n b) [ inl f ↦ inl f | inr g ↦ inr (inr g) ]
  ];
}

install_fresh-Accounted :
    (id : String) (c : Client)
    → lookup id c.conns ≡ none
    → Accounted c
    → Accounted (install_over id c none).0
unfolding install_over
install_fresh-Accounted id c q v = record {
  distinct = Distinct-keys-insert id c.opened c.conns v.distinct;
  recent = λ i n h. elim (inserted_cases id i c.opened n c.conns h) [
    | inl (_, e) ↦ ground (arith, e)
    | inr (_, l) ↦ ground (arith, v.recent i n l)
  ];
  usable = λ i n h. λ m. elim (inserted_cases id i c.opened n c.conns h) [
    | inl (_, e) ↦ ground (arith, v.past n m, e)
    | inr (_, l) ↦ v.usable i n l m
  ];
  single = λ i j n h k. elim (inserted_cases id i c.opened n c.conns h) [
    | inl (e, f) ↦ elim (inserted_cases id j c.opened n c.conns k) [
      | inl (g, _) ↦ e ∙ sym g
      | inr (_, l) ↦ absurd (ground (arith, v.recent j n l, f))
    ]
    | inr (_, l) ↦ elim (inserted_cases id j c.opened n c.conns k) [
      | inl (_, f) ↦ absurd (ground (arith, v.recent i n l, f))
      | inr (_, r) ↦ v.single i j n l r
    ]
  ];
  past = λ n m. ground (arith, v.past n m);
  kept = λ n l. elim (below_suc n c.opened l) [
    | inl e ↦ inl (id, rw e (lookup-insert_self id c.opened c.conns))
    | inr b ↦ elim (v.kept n b) [ inl (i, f) ↦ inl (i, still_there i n f) | inr g ↦ inr g ]
  ];
}
  where
    still_there :
        (i : String) (n : ℕ)
        → lookup i c.conns ≡ some n
        → lookup i (insert id c.opened c.conns) ≡ some n
    still_there i n f = elim (Bool-cases (id == i)) [
      | inl e ↦
          let same : id ≡ i = (eq_iff id i).0 e in
          let gone : lookup i c.conns ≡ none = rw same at q in absurd (cc)
      | inr e ↦ simp (lookup-insert id i c.opened c.conns, e) f
    ]

install_over-Accounted :
    (id : String) (c : Client) (o : Option ℕ)
    → lookup id c.conns ≡ o
    → Accounted c
    → Accounted (install_over id c o).0
install_over-Accounted id c (some k) q v = install_found-Accounted id c k v
install_over-Accounted id c none q v = install_fresh-Accounted id c q v

drop_found-Accounted :
    (id : String) (c : Client) (o : Option ℕ)
    → lookup id c.conns ≡ o
    → Accounted c
    → Accounted (drop_found id c o)
unfolding drop_found
drop_found-Accounted id c none q v = v
drop_found-Accounted id c (some k) q v = record {
  distinct = Distinct-keys-remove id c.conns v.distinct;
  recent = λ i n h. v.recent i n (removed_cases id i n c.conns h).1;
  usable = λ i n h. λ m.
      let (other, l) = removed_cases id i n c.conns h in
      elim m [ inl e ↦ other (v.single i id n l (rw (sym e) at q)) | inr g ↦ v.usable i n l g ];
  single = λ i j n h l.
      v.single i j n (removed_cases id i n c.conns h).1 (removed_cases id j n c.conns l).1;
  past = λ n m. elim m [ inl e ↦ rw e (v.recent id k q) | inr g ↦ v.past n g ];
  kept = λ n l. elim (v.kept n l) [
    | inl (i, f) ↦ elim (Bool-cases (id == i)) [
      | inl e ↦
          let same : id ≡ i = (eq_iff id i).0 e in
          let here : some k ≡ some n = sym q ∙ (rw (sym same) at f) in inr (inl cc)
      | inr e ↦ inl (i, simp (lookup-remove id i c.conns, e) f)
    ]
    | inr g ↦ inr (inr g)
  ];
}

lookup-values :
    (i : String) (n : ℕ) (m : List (String × ℕ)) → lookup i m ≡ some n → In n (map (λ e. e.1) m)
unfolding lookup
lookup-values i n [] h = cc
lookup-values i n ((j, k) ∷ m) h = ground (arith, eq_iff j i, lookup-values i n m)

value_of :
    (n : ℕ) (m : List (String × ℕ))
    → Distinct (keys m)
    → In n (map (λ e. e.1) m)
    → (i : String) × (lookup i m ≡ some n)
unfolding lookup
value_of n [] d h = absurd h
value_of n ((j, k) ∷ m) d (inl e) = (j, ground (arith, eq_iff j j, e))
value_of n ((j, k) ∷ m) d (inr h) =
    let (i, l) = value_of n m d.1 h in
    (i, ground (arith, eq_iff j i, d.0, lookup-In-keys i n m l, l))

close-Accounted : (c : Client) → Accounted c → Accounted (close c)
unfolding close lookup
close-Accounted c v = record {
  distinct = tt;
  recent = λ i n h. absurd (ground arith);
  usable = λ i n h. absurd (ground arith);
  single = λ i j n h. absurd (ground arith);
  past = λ n m. elim (In-append n (map (λ e. e.1) c.conns) c.closed m) [
    | inl l ↦ let (i, q) = value_of n c.conns v.distinct l in v.recent i n q
    | inr l ↦ v.past n l
  ];
  kept = λ n l. elim (v.kept n l) [
    | inl (i, f) ↦ inr (In-append_left n _ c.closed (lookup-values i n c.conns f))
    | inr g ↦ inr (In-append_right n (map (λ e. e.1) c.conns) c.closed g)
  ];
}

renumbered : (n : ℕ) (c : Client) → Accounted c → Accounted (record c { next_id = n })
renumbered n c v = record {
  distinct = v.distinct;
  recent = v.recent;
  usable = v.usable;
  single = v.single;
  past = v.past;
  kept = v.kept;
}

Step-Accounted : (a b : Client) → Step a b → Accounted a → Accounted b
unfolding install drop_conn
Step-Accounted a _ (dialed id _) v = install_over-Accounted id a (lookup id a.conns) refl v
Step-Accounted a _ (dropping id _) v = drop_found-Accounted id a (lookup id a.conns) refl v
Step-Accounted a _ (numbered n _) v = renumbered n a v
Step-Accounted a _ (closing _) v = close-Accounted a v

new_client-Accounted : Accounted new_client
unfolding lookup
new_client-Accounted = record {
  distinct = tt;
  recent = λ i n h. absurd (ground arith);
  usable = λ i n h. absurd (ground arith);
  single = λ i j n h. absurd (ground arith);
  past = λ n m. absurd m;
  kept = λ n l. absurd (omega (arith, l));
}

-- However calls interleave on a new client, with dials, drops after failures and `Close`, every
-- connection that was opened is in the pool under exactly one node or has been closed, and no
-- connection in the pool has been closed.
pub Run-Accounted : (c : Client) → Run new_client c → Accounted c
Run-Accounted c r = from r new_client-Accounted
  where
    from : {a b : Client} → Run a b → Accounted a → Accounted b
    from (done a) v = v
    from (next a b c r s) v = Step-Accounted b c s (from r v)
