-- ===== src/Virtio/Config.antt =====
-- Reads of a configuration space.
use mo_vm.Common.{
  ℕ, ◌+◌, ◌-◌, ◌<◌, ◌≡◌, List, length, get_elem?, drop, min, ltb, if◌then◌else◌, arith, copy_prefix,
  get_elem?-drop, length-drop,
}
use mo_vm.Error.{ok}
use mo_vm.Virtio.{read_config_space}

-- A read that starts inside the configuration space succeeds: it copies bytes from the offset on into
-- the front of the buffer, as many as both hold, and leaves the rest of the buffer and its length.
pub read_config_space_inside :
    (config : List ℕ) (offset : ℕ) (buf : List ℕ) (i : ℕ)
    → offset < length config
    → let (out, r) = read_config_space config offset buf in
      (r ≡ ok tt)
      × (length out ≡ length buf)
      × (get_elem? out i ≡ (
          if ltb i (min (length buf) (length config - offset))
          then get_elem? config (offset + i)
          else get_elem? buf i))
unfolding read_config_space
read_config_space_inside config offset buf i h = ground (
  arith,
  length-drop offset config,
  copy_prefix buf (drop offset config) (min (length buf) (length config - offset)) i,
  get_elem?-drop offset config i,
)
