-- ===== src/Cli/Bootstrap.antt =====
-- `bootstrapNode` of internal/cli/init.go and `seedJoinerClusterYaml` of internal/cli/enroll.go. The
-- files, the keys and the certificate are arguments; a failure keeps no state here, since the
-- command ends with it.
use quptime.Prelude.{ℕ, String, Option, none, some, List, [], ◌∷◌, ◌==◌, if◌then◌else◌}
use quptime.Prelude.Int.{pos, int_eq}
use quptime.Config.Types.{PeerInfo, ClusterConfig}
use quptime.Config.Cluster.{Error, Disk, Outcome, mutate, contains, empty_config_state}
use quptime.Config.Node.{
  NodeConfig, NodeFile, NodeError, advertise_addr, save_node, default_bind_port,
}

-- What surrounds the command: `keys` is the error of GenerateKeyPair, `cert` what LoadCertPEM reads
-- afterwards.
pub record Machine : Type 0 where
  pub data_dir : Option String
  pub uuid : String
  pub node_file : NodeFile
  pub keys : String → Option String
  pub cert : Option String
  pub fingerprint_from_cert : String → Option String
  pub disk : Disk
  pub now : ℕ

pub data BootError : Type 0 where
  no_data_dir key_error : String → BootError
  save_node_file : NodeError → BootError
  load_cert fingerprint_own_cert : BootError
  seed_cluster : Error → BootError

pub data Boot : Type 0 where
  booted : NodeConfig → ClusterConfig → Boot
  boot_failed : BootError → Boot

-- the defaults that `bootstrapNode` fills in
unfoldable pub filled : Machine → NodeConfig → NodeConfig
filled m n = record n {
  node_id = if n.node_id == "" then m.uuid else n.node_id;
  bind_addr = if n.bind_addr == "" then "0.0.0.0" else n.bind_addr;
  bind_port = if int_eq n.bind_port (pos 0) then default_bind_port else n.bind_port;
}

-- this node as a peer
unfoldable pub self_peer : Machine → NodeConfig → String → String → PeerInfo
unfolding advertise_addr
self_peer m n fp cert = record {
  node_id = n.node_id;
  advertise = advertise_addr m.node_file.itoa n;
  fingerprint = fp;
  cert_pem = cert;
}

seeded : NodeConfig → Outcome → Boot
seeded n o = elim o.error [ none ↦ booted n o.config | some e ↦ boot_failed (seed_cluster e) ]

with_own_fingerprint : Machine → NodeConfig → String → Option String → Boot
unfolding seeded mutate self_peer
with_own_fingerprint m n cert none = boot_failed fingerprint_own_cert
with_own_fingerprint m n cert (some fp) = seeded n (
    mutate m.disk m.now n.node_id (λ c. (record c { peers = self_peer m n fp cert ∷ [] }, none))
      empty_config_state)

with_cert : Machine → NodeConfig → Option String → Boot
unfolding with_own_fingerprint
with_cert m n none = boot_failed load_cert
with_cert m n (some cert) = with_own_fingerprint m n cert (m.fingerprint_from_cert cert)

with_keys : Machine → NodeConfig → Option String → Boot
unfolding with_cert
with_keys m n (some e) = boot_failed (key_error e)
with_keys m n none = with_cert m n m.cert

with_node_file : Machine → NodeConfig → Option NodeError → Boot
unfolding with_keys
with_node_file m n (some e) = boot_failed (save_node_file e)
with_node_file m n none = with_keys m n (m.keys n.node_id)

with_data_dir : Machine → NodeConfig → Option String → Boot
unfolding with_node_file save_node filled
with_data_dir m n (some e) = boot_failed (no_data_dir e)
with_data_dir m n none = with_node_file m (filled m n) (save_node m.node_file (filled m n))

-- `bootstrapNode`
unfoldable pub bootstrap_node : Machine → NodeConfig → Boot
unfolding with_data_dir
bootstrap_node m n = with_data_dir m n m.data_dir

unfoldable pub unseen : List String → List PeerInfo → List PeerInfo
unseen seen [] = []
unseen seen (p ∷ rest) =
    let skip = contains seen p.node_id in
    let more = unseen (if skip then seen else p.node_id ∷ seen) rest in
    if skip then more else p ∷ more

-- the peers that `seedJoinerClusterYaml` writes
unfoldable pub joiner_peers : PeerInfo → List PeerInfo → List PeerInfo
unfolding unseen
joiner_peers self peers = self ∷ unseen (self.node_id ∷ []) peers

-- what cluster.yaml holds after a write that may have failed
abbrev pub on_file : ClusterConfig → Outcome → ClusterConfig
on_file c o = elim o.error [ none ↦ o.config | some e ↦ c ]

seed_with :
    Machine → NodeConfig → String → List PeerInfo → ClusterConfig → Option String → ClusterConfig
unfolding joiner_peers mutate self_peer
seed_with m n cert peers c none = c
seed_with m n cert peers c (some fp) = on_file c (
    mutate m.disk m.now n.node_id
      (λ x. (record x { peers = joiner_peers (self_peer m n fp cert) peers }, none)) c)

-- `seedJoinerClusterYaml`: what cluster.yaml holds before and after; the error is only printed
unfoldable pub seed_joiner_cluster_yaml :
    Machine → NodeConfig → String → List PeerInfo → ClusterConfig → ClusterConfig
unfolding seed_with
seed_joiner_cluster_yaml m n cert peers c =
    seed_with m n cert peers c (m.fingerprint_from_cert cert)
