-- ===== src/Transport/Server.antt =====
-- `handleConn`, `peerTrusted`, `writeResult` and `writeError` of internal/transport/rpc.go: one
-- connection whose handshake is done. The JSON codec and the handlers are arguments: a handler turns
-- the node's state, the caller's id and the parameters into the state after it and an answer.
pub mod Gate
use quptime.Prelude.{
  ℕ, String, Bool, true, false, not, ◌&&◌, ◌||◌, Option, none, some, List, [], ◌∷◌, ◌++◌, ◌==◌,
  if◌then◌else◌,
}
use quptime.Transport.Trust.{Entries, lookup_by_fingerprint}

abbrev pub method_join : String
method_join = "Join"

abbrev pub method_enroll : String
method_enroll = "Enroll"

-- `requestEnvelope`
pub record Request : Type 0 where
  pub id : ℕ
  pub method : String
  pub params : String

-- `responseEnvelope`
pub record Response : Type 0 where
  pub id : ℕ
  pub result : String
  pub error : String

-- What a handler returns: `Rendered` is `json.Marshal` of its result, or why that failed.
pub data Answer : Type 0 where
  result : String → Answer
  unmarshallable : String → Answer
  refused : String → Answer

-- What surrounds the server: the state its handlers share, the trust store in it, the handlers by
-- method (none where none is registered), the decoder of a request, and whether the write of a
-- response succeeds.
pub record Host (World : Type 0) : Type 1 where
  pub store : World → Entries
  pub handler : String → Option (World → String → String → World × Answer)
  pub decode : String → Option Request
  pub writable : Response → Bool

-- a bootstrap method
unfoldable pub bootstrap : String → Bool
bootstrap method = method == method_join || method == method_enroll

unfoldable pub error_response : ℕ → String → Response
error_response id msg = record { id = id; result = ""; error = msg }

unfoldable pub response_to : ℕ → Answer → Response
unfolding error_response
response_to id (result s) = record { id = id; result = s; error = "" }
response_to id (unmarshallable msg) = error_response id msg
response_to id (refused msg) = error_response id msg

module _ {World : Type 0} (host : Host World) (peer_id fp : String) where
  -- `peerTrusted`
  unfoldable pub peer_trusted : World → Bool
  peer_trusted w =
      if fp == ""
      then false
      else elim (lookup_by_fingerprint fp (host.store w)) [ none ↦ false | some e ↦ true ]

  -- What a request does: the state after it, the handler calls, the response, the trust of the
  -- connection, and whether the loop goes on.
  pub record Turn : Type 0 where
    pub world : World
    pub called : List Request
    pub response : Response
    pub trusted : Bool
    pub goes_on : Bool

  turned_down : World → Bool → ℕ → String → Turn
  unfolding error_response
  turned_down w trusted id msg = record {
    world = w;
    called = [];
    response = error_response id msg;
    trusted = trusted;
    goes_on = true;
  }

  -- a result: the write may fail, and after a bootstrap call the trust is read again
  resulted : World → Bool → Request → Response → Turn
  unfolding peer_trusted bootstrap
  resulted w trusted req response =
      let recheck = host.writable response && not trusted && bootstrap req.method in
      record {
        world = w;
        called = req ∷ [];
        response = response;
        trusted = if recheck then peer_trusted w else trusted;
        goes_on = host.writable response;
      }

  answered : Bool → Request → World × Answer → Turn
  unfolding resulted response_to
  answered trusted req (w, refused msg) = record {
    world = w;
    called = req ∷ [];
    response = response_to req.id (refused msg);
    trusted = trusted;
    goes_on = true;
  }
  answered trusted req (w, result s) = resulted w trusted req (response_to req.id (result s))
  answered trusted req (w, unmarshallable msg) =
      resulted w trusted req (response_to req.id (unmarshallable msg))

  dispatch : World → Bool → Request → Option (World → String → String → World × Answer) → Turn
  unfolding answered turned_down
  dispatch w trusted req none = turned_down w trusted req.id "unknown method"
  dispatch w trusted req (some fn) = answered trusted req (fn w peer_id req.params)

  -- the body of the loop, on a request that decodes
  unfoldable pub turn : World → Bool → Request → Turn
  unfolding dispatch bootstrap turned_down
  turn w trusted req =
      if not trusted && not (bootstrap req.method)
      then turned_down w trusted req.id "peer not trusted"
      else dispatch w trusted req (host.handler req.method)

  -- What the connection leaves: the state, every handler call, and every response that it tries to write.
  pub record Served : Type 0 where
    pub world : World
    pub called : List Request
    pub responses : List Response

  followed_by : Turn → Served → Served
  followed_by t rest =
      if t.goes_on
      then record {
        world = rest.world;
        called = t.called ++ rest.called;
        responses = t.response ∷ rest.responses;
      }
      else record { world = t.world; called = t.called; responses = t.response ∷ [] }

  after_frame : World → Bool → Option Request → (World → Bool → Served) → Served
  unfolding turn followed_by error_response
  after_frame w trusted none rest = record {
    world = w;
    called = [];
    responses = error_response 0 "decode request" ∷ [];
  }
  after_frame w trusted (some req) rest =
      let t = turn w trusted req in followed_by t (rest t.world t.trusted)

  -- the loop of `handleConn`, on the frames that arrive before the connection ends
  unfoldable pub serve : World → Bool → List String → Served
  unfolding after_frame
  serve w trusted [] = record { world = w; called = []; responses = [] }
  serve w trusted (frame ∷ frames) =
      after_frame w trusted (host.decode frame) (λ v t. serve v t frames)

  -- `handleConn`, after the handshake
  unfoldable pub handle_conn : World → List String → Served
  unfolding serve peer_trusted
  handle_conn w frames = serve w (peer_trusted w) frames
