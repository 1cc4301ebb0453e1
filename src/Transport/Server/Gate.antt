-- ===== src/Transport/Server/Gate.antt =====
-- What an untrusted caller reaches through `handleConn` of internal/transport/rpc.go.
use quptime.Prelude.{
  String, Bool, true, false, Option, none, some, List, [], ◌∷◌, ◌++◌, ◌≡◌, refl, inl, inr,
  Bool-cases, if_both, All,
}
use quptime.Transport.Server.{
  Host, Request, Answer, result, unmarshallable, refused, peer_trusted, bootstrap, Turn, resulted,
  answered, dispatch, turn, turned_down, Served, followed_by, after_frame, serve, handle_conn,
}

module _ {World : Type 0} (host : Host World) (peer_id fp : String) (P : World → Type 0)
    (Asks : String → Type 0) where
  -- `P` says that the caller is not trusted, and the bootstrap handlers keep it on such parameters.
  pub record Outside : Type 0 where
    pub untrusted : (w : World) → P w → peer_trusted host peer_id fp w ≡ false
    pub kept :
        (method params : String) (fn : World → String → String → World × Answer) (w : World)
        → bootstrap method ≡ true
        → host.handler method ≡ some fn
        → Asks params
        → P w
        → P (fn w peer_id params).0

  abbrev pub Bootstrap : Request → Type 0
  Bootstrap req = bootstrap req.method ≡ true

  -- the call stays outside
  record Stays (t : Turn host peer_id fp) : Type 0 where
    world : P t.world
    called : All Bootstrap t.called
    trusted : t.trusted ≡ false

  answered-Stays :
      (out : Outside) (req : Request) (r : World × Answer)
      → Bootstrap req
      → P r.0
      → Stays (answered host peer_id fp false req r)
  unfolding answered resulted
  answered-Stays out req (w, refused msg) b p = record {
    world = p;
    called = (b, tt);
    trusted = refl;
  }
  answered-Stays out req (w, result s) b p = record {
    world = p;
    called = (b, tt);
    trusted = if_both (λ x. x ≡ false) _ (out.untrusted w p) refl;
  }
  answered-Stays out req (w, unmarshallable s) b p = record {
    world = p;
    called = (b, tt);
    trusted = if_both (λ x. x ≡ false) _ (out.untrusted w p) refl;
  }

  dispatch-Stays :
      (out : Outside) (w : World) (req : Request)
      (h : Option (World → String → String → World × Answer))
      → host.handler req.method ≡ h
      → Bootstrap req
      → Asks req.params
      → P w
      → Stays (dispatch host peer_id fp w false req h)
  unfolding dispatch turned_down
  dispatch-Stays out w req none e b a p = record { world = p; called = tt; trusted = refl }
  dispatch-Stays out w req (some fn) e b a p =
      answered-Stays out req (fn w peer_id req.params) b
        (out.kept req.method req.params fn w b e a p)

  turn-Stays :
      (out : Outside) (w : World) (req : Request)
      → Asks req.params
      → P w
      → Stays (turn host peer_id fp w false req)
  unfolding turn turned_down
  turn-Stays out w req a p = elim (Bool-cases (bootstrap req.method)) [
    | inl b ↦ simp b (dispatch-Stays out w req (host.handler req.method) refl b a p)
    | inr b ↦ simp b (record { world = p; called = tt; trusted = refl })
  ]

  -- what is left of the connection stays outside
  abbrev pub Confined : Served host peer_id fp → Type 0
  Confined s = P s.world × All Bootstrap s.called

  All-append :
      (xs ys : List Request) → All Bootstrap xs → All Bootstrap ys → All Bootstrap (xs ++ ys)
  All-append [] ys h k = k
  All-append (x ∷ xs) ys (h, hs) k = (h, All-append xs ys hs k)

  followed_by-Confined :
      (t : Turn host peer_id fp) (rest : Served host peer_id fp)
      → Stays t
      → Confined rest
      → Confined (followed_by host peer_id fp t rest)
  unfolding followed_by
  followed_by-Confined t rest s (p, b) = elim (Bool-cases t.goes_on) [
    | inl e ↦ simp e (p, All-append t.called rest.called s.called b)
    | inr e ↦ simp e (s.world, s.called)
  ]

  after_frame-Confined :
      (out : Outside) (w : World) (o : Option Request)
      (rest : World → Bool → Served host peer_id fp)
      → ((req : Request) → o ≡ some req → Asks req.params)
      → P w
      → ((v : World) → P v → Confined (rest v false))
      → Confined (after_frame host peer_id fp w false o rest)
  unfolding after_frame
  after_frame-Confined out w none rest a p k = (p, tt)
  after_frame-Confined out w (some req) rest a p k =
      let s = turn-Stays out w req (a req refl) p in
      followed_by-Confined (turn host peer_id fp w false req) _ s (rw s.trusted (k _ s.world))

  -- every frame that decodes asks for such parameters
  abbrev pub Asking : List String → Type 0
  Asking = All (λ frame. (req : Request) → host.decode frame ≡ some req → Asks req.params)

  serve-Confined :
      (out : Outside) (frames : List String) (w : World)
      → Asking frames
      → P w
      → Confined (serve host peer_id fp w false frames)
  unfolding serve
  serve-Confined out [] w each p = (p, tt)
  serve-Confined out (frame ∷ frames) w (a, each) p =
      after_frame-Confined out w (host.decode frame) _ a p
        (λ v q. serve-Confined out frames v each q)

  -- Where a property of the state says that the caller's fingerprint is not trusted, and the
  -- handlers of Join and Enroll keep it on the parameters that the frames hold, a connection that
  -- begins in such a state calls no handler but those of Join and Enroll, and the property holds
  -- when it ends.
  pub handle_conn-Confined :
      (out : Outside) (w : World) (frames : List String)
      → Asking frames
      → P w
      → Confined (handle_conn host peer_id fp w frames)
  unfolding handle_conn
  handle_conn-Confined out w frames each p =
      rw (out.untrusted w p) (serve-Confined out frames w each p)
