-- ===== src/Transport/Client.antt =====
-- The RPC client of internal/transport/rpc.go with its pool of connections, and the verifier that
-- `ClientConfig` of internal/transport/tls.go gives a dial. A connection is the number of the dial
-- that has opened it. Dialing, the exchange of frames and the JSON codec are arguments.
pub mod Pool
pub mod Verifier
use quptime.Prelude.{
  ℕ, suc, ◌+◌, ◌%◌, ◌^◌, String, not, ◌⊎◌, inl, inr, Option, none, some, List, [], ◌∷◌, ◌++◌, ◌==◌,
  if◌then◌else◌, map, lookup, insert, remove,
}
use quptime.Transport.Server.{Request, Response}
use quptime.Transport.Trust.{
  Entry, Entries, TrustError, no_certificate, parse_failed, untrusted, get, verify_peer_cert,
}

-- `Client`: the pool by node id, and besides the source's fields how many connections have been
-- opened, and which have been closed.
pub record Client : Type 0 where
  pub conns : List (String × ℕ)
  pub next_id : ℕ
  pub opened : ℕ
  pub closed : List ℕ

-- `NewClient`
abbrev pub new_client : Client
new_client = record { conns = []; next_id = 0; opened = 0; closed = [] }

install_over : String → Client → Option ℕ → Client × ℕ
install_over node_id c (some existing) =
    (record c { opened = suc c.opened; closed = c.opened ∷ c.closed }, existing)
install_over node_id c none =
    (record c { opened = suc c.opened; conns = insert node_id c.opened c.conns }, c.opened)

-- the end of `getConn`, after a dial that went well: by then another call may have filled the pool
unfoldable pub install : String → Client → Client × ℕ
unfolding install_over
install node_id c = install_over node_id c (lookup node_id c.conns)

drop_found : String → Client → Option ℕ → Client
drop_found node_id c none = c
drop_found node_id c (some k) = record c { conns = remove node_id c.conns; closed = k ∷ c.closed }

-- `dropConn`
unfoldable pub drop_conn : String → Client → Client
unfolding drop_found
drop_conn node_id c = drop_found node_id c (lookup node_id c.conns)

-- `Close`
unfoldable pub close : Client → Client
close c = record c { conns = []; closed = map (λ e. e.1) c.conns ++ c.closed }

-- What surrounds one call: the error of building the TLS configuration and dialing, the codec, and
-- the exchange of a request frame for a response frame on a connection.
pub record Network : Type 0 where
  pub dial : String → String → Option String
  pub marshal : Request → Option String
  pub exchange : ℕ → String → Option String
  pub unmarshal : String → Option Response

pub data CallError : Type 0 where
  dial_failed : String → CallError
  marshal_params marshal_envelope broken_exchange decode_response decode_result : CallError
  remote : String → CallError

-- The client after a call, and the result or the error.
abbrev pub Called : Type 0 → Type 0
Called A = Client × (A ⊎ CallError)

after_dial : String → Client → Option String → Client × (ℕ ⊎ CallError)
unfolding install
after_dial node_id c (some e) = (c, inr (dial_failed e))
after_dial node_id c none = let (after, k) = install node_id c in (after, inl k)

pooled_or_dialed : Network → String → String → Client → Option ℕ → Client × (ℕ ⊎ CallError)
unfolding after_dial
pooled_or_dialed net node_id addr c (some k) = (c, inl k)
pooled_or_dialed net node_id addr c none = after_dial node_id c (net.dial node_id addr)

-- `getConn`, with no other call between the look and the dial
unfoldable pub get_conn : Network → String → String → Client → Client × (ℕ ⊎ CallError)
unfolding pooled_or_dialed
get_conn net node_id addr c = pooled_or_dialed net node_id addr c (lookup node_id c.conns)

module _ {A : Type 0} (net : Network) (read_result : String → Option A) where
  take_result : Option A → A ⊎ CallError
  take_result none = inr decode_result
  take_result (some a) = inl a

  take_response : Option Response → A ⊎ CallError
  unfolding take_result
  take_response none = inr decode_response
  take_response (some r) =
      if not (r.error == "") then inr (remote r.error) else take_result (read_result r.result)

  take_frame : Option String → A ⊎ CallError
  unfolding take_response
  take_frame none = inr broken_exchange
  take_frame (some body) = take_response (net.unmarshal body)

  send : ℕ → Option String → A ⊎ CallError
  unfolding take_frame
  send k none = inr marshal_envelope
  send k (some body) = take_frame (net.exchange k body)

  -- `callOn`; the decoder of the result stands for `out`, also where it is empty or not wanted
  unfoldable pub call_on : ℕ → String → Option String → Client → Called A
  unfolding send
  call_on k method none c = (c, inr marshal_params)
  call_on k method (some params) c =
      let id = (c.next_id + 1) % 2 ^ 64 in
      (
        record c { next_id = id },
        send k (net.marshal (record { id = id; method = method; params = params })),
      )

  dropped : String → Called A → Called A
  unfolding drop_conn
  dropped node_id (c, inl a) = (c, inl a)
  dropped node_id (c, inr e) = (drop_conn node_id c, inr e)

  call_with : String → String → Option String → Client × (ℕ ⊎ CallError) → Called A
  unfolding dropped call_on
  call_with node_id method params (c, inr e) = (c, inr e)
  call_with node_id method params (c, inl k) = dropped node_id (call_on k method params c)

  -- `Call`
  unfoldable pub call : String → String → String → Option String → Client → Called A
  unfolding call_with get_conn
  call node_id addr method params c = call_with node_id method params (get_conn net node_id addr c)

strict_entry : String → Option Entry → Option TrustError
strict_entry fp none = some untrusted
strict_entry fp (some e) = if not (fp == e.fingerprint) then some untrusted else none

strict_parsed : String → Entries → Option String → Option TrustError
unfolding strict_entry
strict_parsed node_id store none = some (parse_failed "parse peer cert")
strict_parsed node_id store (some fp) = strict_entry fp (get node_id store)

-- `makeStrictVerifier`; `fingerprint` parses a raw certificate and takes its fingerprint
unfoldable pub strict_verifier :
    {Raw : Type 0} → (Raw → Option String) → String → List Raw → Entries → Option TrustError
unfolding strict_parsed
strict_verifier fingerprint node_id [] store = some no_certificate
strict_verifier fingerprint node_id (raw ∷ rest) store =
    strict_parsed node_id store (fingerprint raw)

-- the verifier that `ClientConfig` chooses
unfoldable pub client_verifier :
    {Raw : Type 0} → (Raw → Option String) → String → List Raw → Entries → Option TrustError
unfolding strict_verifier verify_peer_cert
client_verifier fingerprint node_id certs store =
    if not (node_id == "")
    then strict_verifier fingerprint node_id certs store
    else verify_peer_cert fingerprint certs store
