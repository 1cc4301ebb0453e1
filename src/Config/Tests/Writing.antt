-- ===== src/Config/Tests/Writing.antt =====
-- The theorem about `AtomicWrite` at a concrete input: a write whose rename fails.
use quptime.Prelude.{true, false, some, [], ◌∷◌, ◌≡◌, refl, differ, lookup, insert}
use quptime.Config.Paths.{Files, Syscalls, atomic_write, rename_failed}
use quptime.Config.Paths.Swap.{Swapped, atomic_write-Swapped}

abbrev disk : Files
disk = ("cluster.yaml", record { content = "old"; mode = 0x180 }) ∷ []

abbrev no_rename : Syscalls
no_rename = record {
  mkdir = true;
  temp = some "cluster.yaml.tmp-1";
  write = true;
  partial = "";
  chmod = true;
  sync = true;
  close = true;
  rename = false;
  remove = true;
}

atomic_write-Swapped_example :
    Swapped no_rename "cluster.yaml" "cluster.yaml.tmp-1"
      (record { content = "new"; mode = 0x180 })
      disk
      (atomic_write no_rename "cluster.yaml" "new" 0x180 disk)
unfolding lookup
atomic_write-Swapped_example =
    atomic_write-Swapped no_rename "cluster.yaml" "cluster.yaml.tmp-1" "new" 0x180 disk refl
      (differ "cluster.yaml.tmp-1" "cluster.yaml" refl) refl

-- the temporary file stays
left_behind : (atomic_write no_rename "cluster.yaml" "new" 0x180 disk).1 ≡ some rename_failed
unfolding atomic_write
left_behind = refl

-- and so it does where a failing write cannot be cleaned up
stays :
    lookup "cluster.yaml.tmp-1"
      (atomic_write
        (record no_rename { write = false; partial = "ne"; remove = false })
        "cluster.yaml"
        "new"
        0x180
        disk).0
    ≡ some (record { content = "ne"; mode = 0x180 })
unfolding atomic_write lookup insert
stays = refl
