-- ===== src/Transport/Tests.antt =====
-- The theorems about internal/transport and internal/trust at concrete inputs.
use quptime.Prelude.{
  Option, ℕ, ◌≤◌, ◌<◌, String, true, none, some, List, [], ◌∷◌, ◌++◌, ◌≡◌, ◌↔◌, refl, inl, inr,
  arith, length, differ,
}
use quptime.Transport.Frame.{
  max_frame_size, frame_too_large, got, write_frame, read_frame, read_full, uint32, read_body,
}
use quptime.Transport.Frame.RoundTrip.{append_write, framed, read_frame-write_frame}
use quptime.Transport.Frame.Streams.{read_frame-framed}
use quptime.Transport.Trust.{Entry, Entries, lookup_by_fingerprint}
use quptime.Transport.Trust.Laws.{IsValid}
use quptime.Transport.Server.{Host, Answer, result, peer_trusted, handle_conn}
use quptime.Transport.Server.Gate.{Outside, Confined, handle_conn-Confined}
use quptime.Transport.Client.{Client, new_client, Network, install, drop_conn, client_verifier}
use quptime.Transport.Client.Pool.{Run, done, next, dialed, dropping, Accounted, Run-Accounted}
use quptime.Transport.Client.Verifier.{Presents, client_verifier_iff}

abbrev body : List ℕ
body = 7 ∷ 8 ∷ 9 ∷ []

read_frame-write_frame_example :
    (length body ≤ max_frame_size
      → (write_frame append_write [] body ≡ ([] ++ framed body, none))
        × (read_frame (framed body ++ 1 ∷ []) ≡ got body (1 ∷ [])))
    × (max_frame_size < length body → write_frame append_write [] body ≡ ([], some frame_too_large))
read_frame-write_frame_example = read_frame-write_frame [] body (1 ∷ [])

abbrev stream : List ℕ
stream = 0 ∷ 0 ∷ 0 ∷ 3 ∷ 7 ∷ 8 ∷ 9 ∷ 1 ∷ []

read_frame-framed_example : (length body ≤ max_frame_size) × (stream ≡ framed body ++ 1 ∷ [])
unfolding read_frame read_body read_full uint32
read_frame-framed_example =
    read_frame-framed stream body (1 ∷ [])
      (
        omega arith,
        (
          omega arith,
          (
            omega arith,
            (omega arith, (omega arith, (omega arith, (omega arith, (omega arith, tt))))),
          ),
        ),
      )
      refl

abbrev entry : String → String → Entry
entry id fp = record {
  node_id = id;
  address = "host:9901";
  fingerprint = fp;
  public_key_pem = "";
  cert_pem = "";
  added_at = 0;
}

abbrev store : Entries
store = ("a", entry "a" "fa") ∷ ("b", entry "b" "fb") ∷ []

store-IsValid : IsValid store
store-IsValid = record {
  distinct = (λ m. elim m [ inl e ↦ differ "a" "b" refl e | inr n ↦ n ], ((λ n. n), tt));
  own = (refl, (refl, tt));
}

abbrev leave : Entries → String → String → Entries × Answer
leave w peer_id params = (w, result "pong")

-- a node whose handlers leave the store alone; a frame holds the name of a method
abbrev sealed : Host Entries
sealed = record {
  store = λ w. w;
  handler = λ method. some leave;
  decode = λ frame. some (record { id = 1; method = frame; params = "" });
  writable = λ r. true;
}

sealed-Outside : Outside sealed "x" "fx" (λ w. w ≡ store) (λ params. params ≡ "")
unfolding peer_trusted lookup_by_fingerprint
sealed-Outside = record {
  untrusted = λ w e. rw e refl;
  kept = λ method params fn w b h a e. let q : leave ≡ fn = cc in rw (← q) e;
}

handle_conn-Confined_example :
    Confined sealed "x" "fx"
      (λ w. w ≡ store)
      (λ params. params ≡ "")
      (handle_conn sealed "x" "fx" store ("Enroll" ∷ "Status" ∷ []))
handle_conn-Confined_example =
    handle_conn-Confined sealed "x" "fx" (λ w. w ≡ store) (λ params. params ≡ "") sealed-Outside
      store ("Enroll" ∷ "Status" ∷ []) ((λ req e. cc), ((λ req e. cc), tt)) refl

-- a client that has dialed two nodes, and dropped one
abbrev after_two : Client
after_two = drop_conn "b" (install "b" (install "a" new_client).0).0

two_dials : Run new_client after_two
two_dials =
    next new_client (install "b" (install "a" new_client).0).0 after_two
      (next new_client (install "a" new_client).0 (install "b" (install "a" new_client).0).0
        (next new_client new_client (install "a" new_client).0 (done new_client)
          (dialed "a" new_client))
        (dialed "b" (install "a" new_client).0))
      (dropping "b" (install "b" (install "a" new_client).0).0)

Run-Accounted_example : Accounted after_two
Run-Accounted_example = Run-Accounted after_two two_dials

-- every node can be dialed, and answers with an error
abbrev failing : Network
failing = record {
  dial = λ id addr. none;
  marshal = λ r. some r.method;
  exchange = λ k frame. some frame;
  unmarshal = λ frame. some (record { id = 1; result = ""; error = "no quorum" });
}

abbrev as_text : String → Option String
as_text raw = some raw

abbrev parse_cert : String → Option String
parse_cert raw = some raw

client_verifier_iff_example :
    (client_verifier parse_cert "a" ("fa" ∷ []) [] ≡ none) ↔ Presents parse_cert "a" ("fa" ∷ []) []
client_verifier_iff_example = client_verifier_iff parse_cert "a" ("fa" ∷ []) [] (differ "a" "" refl)
