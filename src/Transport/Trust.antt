-- ===== src/Transport/Trust.antt =====
-- internal/trust/store.go. The Go map is a list of pairs with an entry for each key; its order
-- stands for the order in which the map happens to be iterated. A time is a number of
-- nanoseconds since Go's zero time; the write of trust.yaml and the parser of certificates are arguments.
pub mod Laws
use quptime.Prelude.{
  ℕ, String, Bool, true, false, ◌||◌, Option, none, some, List, [], ◌∷◌, ◌==◌, nat_eq,
  if◌then◌else◌, lookup, insert, remove,
}

pub record Entry : Type 0 where
  pub node_id : String
  pub address : String
  pub fingerprint : String
  pub public_key_pem : String
  pub cert_pem : String
  pub added_at : ℕ

abbrev pub Entries : Type 0
Entries = List (String × Entry)

pub data TrustError : Type 0 where
  incomplete_entry no_certificate untrusted : TrustError
  save_failed parse_failed : String → TrustError

-- the loop of `Load`: a later entry of one node replaces an earlier one
unfoldable pub load_entries : List Entry → Entries → Entries
load_entries [] store = store
load_entries (e ∷ rest) store = load_entries rest (insert e.node_id e store)

-- `Load`, of the entries that the file holds
abbrev pub load : List Entry → Entries
load list = load_entries list []

-- `List`, and the list that `Save` writes
unfoldable pub list : Entries → List Entry
list [] = []
list ((id, e) ∷ rest) = e ∷ list rest

-- the error of `Save`, for that of the write
abbrev pub saved : Option String → Option TrustError
saved none = none
saved (some e) = some (save_failed e)

-- `Add`; `disk` is the error of the write
unfoldable pub add : Option String → ℕ → Entry → Entries → Entries × Option TrustError
add disk now e store =
    if e.node_id == "" || e.fingerprint == ""
    then (store, some incomplete_entry)
    else let stamped = if nat_eq e.added_at 0 then record e { added_at = now } else e in
      (insert e.node_id stamped store, saved disk)

remove_found : Option String → String → Entries → Option Entry → Entries × Bool × Option TrustError
remove_found disk id store none = (store, false, none)
remove_found disk id store (some e) = (remove id store, true, saved disk)

-- `Remove`
unfoldable pub remove_entry : Option String → String → Entries → Entries × Bool × Option TrustError
unfolding remove_found
remove_entry disk id store = remove_found disk id store (lookup id store)

-- `Get`
abbrev pub get : String → Entries → Option Entry
get = lookup

-- `LookupByFingerprint`
unfoldable pub lookup_by_fingerprint : String → Entries → Option Entry
lookup_by_fingerprint fp [] = none
lookup_by_fingerprint fp ((id, e) ∷ rest) =
    if e.fingerprint == fp then some e else lookup_by_fingerprint fp rest

verify_fingerprint : Option Entry → Option TrustError
verify_fingerprint none = some untrusted
verify_fingerprint (some e) = none

verify_parsed : Entries → Option String → Option TrustError
unfolding verify_fingerprint
verify_parsed store none = some (parse_failed "parse peer cert")
verify_parsed store (some fp) = verify_fingerprint (lookup_by_fingerprint fp store)

-- `VerifyPeerCert`; `fingerprint` parses a raw certificate and takes its fingerprint, or is none
unfoldable pub verify_peer_cert :
    {Raw : Type 0} → (Raw → Option String) → List Raw → Entries → Option TrustError
unfolding verify_parsed
verify_peer_cert fingerprint [] store = some no_certificate
verify_peer_cert fingerprint (raw ∷ rest) store = verify_parsed store (fingerprint raw)
