-- ===== src/Mcp/Capabilities.antt =====
-- src/rif_runtime/mcp/capabilities.py: how much authority a capability carries. Its sets are lists, and
-- the sorted ones of `contract_hash` are written in sorted order.
use mandare.Prelude.{
  String, Bool, ◌||◌, List, [], ◌∷◌, contains, lower, strip, if◌then◌else◌, Result,
}
use mandare.Values.{text, seq, dict, Items, nil, cons, end, field, Host}
use mandare.Values.Normal.{sha256_digest}

abbrev pub contract_version : String
contract_version = "msf-governance/v1"

pub data CapabilityClass : Type 0 where
  read_only consequential unknown : CapabilityClass

abbrev pub read_only_capabilities : List String
read_only_capabilities =
    "module.compatible" ∷ "module.info" ∷ "module.metadata" ∷ "module.options" ∷ "module.references"
    ∷ "module.search" ∷ "recon.lab_data" ∷ "recon.read" ∷ "remediation.context" ∷ []

abbrev pub consequential_capabilities : List String
consequential_capabilities =
    "datastore.set" ∷ "exploit.run" ∷ "handler.create" ∷ "listener.create" ∷ "module.execute"
    ∷ "module.run" ∷ "payload.generate" ∷ "route.add" ∷ "session.create" ∷ "session.interact"
    ∷ "session.list" ∷ "target.set" ∷ []

abbrev pub severe_capabilities : List String
severe_capabilities =
    "artifact.export" ∷ "credentials.export" ∷ "handler.create" ∷ "listener.create" ∷ "loot.export"
    ∷ "payload.export" ∷ "route.add" ∷ "scope.widen" ∷ "session.create" ∷ "session.interact" ∷ []

unfoldable pub normalize : String → String
normalize capability = lower (strip capability)

unfoldable pub classify : String → CapabilityClass
unfolding normalize
classify capability =
    if contains read_only_capabilities (normalize capability)
    then read_only
    else if contains consequential_capabilities (normalize capability)
        || contains severe_capabilities (normalize capability)
    then consequential
    else unknown

unfoldable pub is_severe : String → Bool
unfolding normalize
is_severe capability = contains severe_capabilities (normalize capability)

-- A list of texts as a value.
abbrev texts : List String → Items
texts [] = nil
texts (s ∷ ss) = cons (text s) (texts ss)

unfoldable pub contract_hash : Host → Result String
contract_hash host = sha256_digest host (
    dict (
      field "version" (text contract_version) (
        field "read_only" (seq (texts read_only_capabilities)) (
          field "consequential" (seq (texts consequential_capabilities))
            (field "severe" (seq (texts severe_capabilities)) end)))))
