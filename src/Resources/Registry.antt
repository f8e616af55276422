-- ===== src/Resources/Registry.antt =====
-- src/rif_runtime/resources/registry.py and descriptor.py: what may be done to resources, by name.
use mandare.Prelude.{
  String, Bool, ◌≡◌, refl, ◌==◌, Bool-cases, inl, inr, none, some, List, [], ◌∷◌, map, Dict, lookup,
  insert, lookup-insert, has_key, if◌then◌else◌, Result, ok, err, ◌>>=◌, duplicate,
  unknown_capability, ok_injective, sym, ap, ◌∙◌,
}
use mandare.Resources.{ResourceKind}

pub data ResourceEffect : Type 0 where
  read write snapshot inventory project render : ResourceEffect

pub record ResourceCapabilityDescriptor : Type 0 where
  pub name : String
  pub resource_kind : ResourceKind
  pub effect : ResourceEffect
  pub replayable : Bool
  pub description : String

abbrev pub ResourceCapabilityRegistry : Type 0
ResourceCapabilityRegistry = Dict ResourceCapabilityDescriptor

unfoldable pub register :
    ResourceCapabilityDescriptor → ResourceCapabilityRegistry → Result ResourceCapabilityRegistry
register c r = if has_key c.name r then err duplicate else ok (insert c.name c r)

-- The loop of `__init__`.
unfoldable pub register_all :
    List ResourceCapabilityDescriptor
    → ResourceCapabilityRegistry
    → Result ResourceCapabilityRegistry
unfolding register
register_all [] r = ok r
register_all (c ∷ cs) r = register c r >>= λ r'. register_all cs r'

unfoldable pub resolve : String → ResourceCapabilityRegistry → Result ResourceCapabilityDescriptor
resolve name r = elim (lookup name r) [ none ↦ err unknown_capability | some c ↦ ok c ]

abbrev pub list_capabilities : ResourceCapabilityRegistry → List ResourceCapabilityDescriptor
list_capabilities r = map (λ kv. kv.1) r

resolve-insert :
    (c : ResourceCapabilityDescriptor) (r : ResourceCapabilityRegistry) (name : String)
    → resolve name (insert c.name c r) ≡ (if c.name == name then ok c else resolve name r)
unfolding resolve
resolve-insert c r name = elim (Bool-cases (c.name == name)) [
  | inl same ↦ rw (resolve, lookup-insert c.name name c r, same) refl
  | inr other ↦ rw (resolve, lookup-insert c.name name c r, other) refl
]

-- What is registered resolves to itself, and every other name resolves as it did.
resolve-register :
    (c : ResourceCapabilityDescriptor) (r r' : ResourceCapabilityRegistry) (name : String)
    → register c r ≡ ok r'
    → resolve name r' ≡ (if c.name == name then ok c else resolve name r)
unfolding register
resolve-register c r r' name e = elim (Bool-cases (has_key c.name r)) [
  | inl there ↦ cc (rw (register, there) at e)
  | inr fresh ↦
      ap (resolve name) (sym (ok_injective (rw (register, fresh) at e))) ∙ resolve-insert c r name
]
