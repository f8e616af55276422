-- ===== src/Config/Overrides.antt =====
-- What the `RIF_*` variables change: `_apply_env_overrides` of src/rif_runtime/config.py.
use mathlib.Core.Path.{subst}
use mandare.Prelude.{
  String, ◌≡◌, refl, sym, ◌∙◌, ap, inl, inr, Bool, true, false, not, ◌==◌, ◌&&◌, Bool-cases, eq_iff,
  Option, none, some, Option-cases, List, [], ◌∷◌, any, Dict, lookup, insert, lookup-insert,
  if◌then◌else◌, Result, ok, err, ok_injective, >>=-eq-ok, arith, eq_refl,
}
use mandare.Auth.{Environ}
use mandare.Config.{Setting, table, plain, Toml, Casts}
use mandare.Config.Load.{
  Mapping, env_map, set_in, coerce_env_value, apply_override, apply_overrides,
}

-- `data[section][key]`, where there is one
abbrev pub value_at : String → String → Toml → Option Setting
value_at section key data_ = elim (lookup section data_) [
  | none ↦ none
  | some (table fields) ↦ lookup key fields
  | some (plain v) ↦ none
]

value_at-insert :
    (section : String) (fields : Dict Setting) (data_ : Toml) (section' key' : String)
    → value_at section' key' (insert section (table fields) data_)
      ≡ (if section == section' then lookup key' fields else value_at section' key' data_)
value_at-insert section fields data_ section' key' = elim (Bool-cases (section == section')) [
  | inl this ↦ rw (value_at, lookup-insert section section' (table fields) data_, this) refl
  | inr other ↦ rw (value_at, lookup-insert section section' (table fields) data_, other) refl
]

-- The fields of a section, an absent one having none.
abbrev fields_in : String → Toml → Dict Setting
fields_in section data_ = elim (lookup section data_) [
  | none ↦ []
  | some (table fields) ↦ fields
  | some (plain v) ↦ []
]

value_at-fields_in :
    (section key : String) (data_ : Toml)
    → lookup key (fields_in section data_) ≡ value_at section key data_
unfolding lookup
value_at-fields_in section key data_ = elim (Option-cases (lookup section data_)) [
  | inl missing ↦ rw (fields_in, value_at, missing) refl
  | inr (table fields, found) ↦ rw (fields_in, value_at, found) refl
  | inr (plain w, found) ↦ rw (fields_in, value_at, found) refl
]

set_in-insert :
    (section key : String) (v : Setting) (data_ data_' : Toml)
    → set_in section key v data_ ≡ ok data_'
    → insert section (table (insert key v (fields_in section data_))) data_ ≡ data_'
unfolding set_in insert
set_in-insert section key v data_ data_' e = elim (Option-cases (lookup section data_)) [
  | inl missing ↦ rw (fields_in, missing) (ok_injective (rw (missing, set_in) at e))
  | inr (table fields, found) ↦ rw (fields_in, found) (ok_injective (rw (found, set_in) at e))
  | inr (plain w, found) ↦ cc (rw (found, set_in) at e)
]

-- What is set stands under its section and key, and nothing else has changed.
value_at-set_in :
    (section key : String) (v : Setting) (data_ data_' : Toml) (section' key' : String)
    → set_in section key v data_ ≡ ok data_'
    → value_at section' key' data_'
      ≡ (if section == section' && key == key' then some v else value_at section' key' data_)
value_at-set_in section key v data_ data_' section' key' e =
    let fields = fields_in section data_ in
    let inserted =
      ap (value_at section' key') (sym (set_in-insert section key v data_ data_' e))
      ∙ value_at-insert section (insert key v fields) data_ section' key' in
    elim (Bool-cases (section == section')) [
      | inr other ↦ inserted ∙ rw other refl
      | inl this ↦
          let unset : lookup key' fields ≡ value_at section' key' data_ =
            value_at-fields_in section key' data_
            ∙ ap (λ x. value_at x key' data_) ((eq_iff section section').0 this) in
          inserted ∙ rw (this, lookup-insert key key' v fields, unset) refl
    ]

and_true : (a b : Bool) → (a && b) ≡ true → (a ≡ true) × (b ≡ true)
and_true a b h = ground arith

false_of_not : (a : Bool) → not a ≡ true → a ≡ false
false_of_not a h = ground arith

module _ (casts : Casts) (env : Environ) where
  abbrev is_for : String → String → Mapping → Bool
  is_for section key m = m.section == section && m.key == key

  -- No two entries set the same value.
  abbrev sole : List Mapping → Bool
  sole [] = true
  sole (m ∷ ms) = not (any (is_for m.section m.key) ms) && sole ms

  -- The variable that a value may come from.
  abbrev pub variable_for : String → String → List Mapping → Option String
  variable_for section key [] = none
  variable_for section key (m ∷ ms) =
      let rest = variable_for section key ms in
      if is_for section key m then some m.env_key else rest

  -- A value over which a variable has been laid, if the environment has the variable.
  abbrev pub overlaid : String → String → Option String → Option Setting → Result (Option Setting)
  overlaid section key none old = ok old
  overlaid section key (some env_key) old = elim (lookup env_key env) [
    | none ↦ ok old
    | some raw ↦ elim (coerce_env_value casts raw section key) [
      | err e ↦ err e
      | ok v ↦ ok (some v)
    ]
  ]

  -- An entry for something else leaves a value alone.
  apply_override-other :
      (m : Mapping) (data_ data_' : Toml) (section key : String)
      → is_for section key m ≡ false
      → apply_override casts env m data_ ≡ ok data_'
      → value_at section key data_' ≡ value_at section key data_
  unfolding apply_override
  apply_override-other m data_ data_' section key other e =
      elim (Option-cases (lookup m.env_key env)) [
        | inl unset ↦
            ap (value_at section key) (sym (ok_injective (rw (unset, apply_override) at e)))
        | inr (raw, given) ↦
            let (v, coerced, e') =
              >>=-eq-ok (coerce_env_value casts raw m.section m.key)
                (λ v. set_in m.section m.key v data_) (rw (given, apply_override) at e) in
            rw other at (value_at-set_in m.section m.key v data_ data_' section key e')
      ]

  -- So do entries that are all for something else.
  apply_overrides-others :
      (ms : List Mapping) (data_ data_' : Toml) (section key : String)
      → any (is_for section key) ms ≡ false
      → apply_overrides casts env ms data_ ≡ ok data_'
      → value_at section key data_' ≡ value_at section key data_
  unfolding apply_overrides
  apply_overrides-others [] data_ data_' section key others e =
      ap (value_at section key) (sym (ok_injective e))
  apply_overrides-others (m ∷ ms) data_ data_' section key others e =
      let (between, e1, e2) =
        >>=-eq-ok (apply_override casts env m data_) (λ d. apply_overrides casts env ms d) e in
      elim (Bool-cases (is_for section key m)) [
        | inl this ↦ cc (rw this at others)
        | inr other ↦
            apply_overrides-others ms between data_' section key (rw other at others) e2
            ∙ apply_override-other m data_ between section key other e1
      ]

  -- The entry for a value lays its variable over it.
  apply_override-this :
      (m : Mapping) (data_ data_' : Toml)
      → apply_override casts env m data_ ≡ ok data_'
      → overlaid m.section m.key (some m.env_key) (value_at m.section m.key data_)
        ≡ ok (value_at m.section m.key data_')
  unfolding apply_override
  apply_override-this m data_ data_' e = elim (Option-cases (lookup m.env_key env)) [
    | inl unset ↦
        rw (overlaid, unset)
          (ap (λ d. ok (value_at m.section m.key d))
            (ok_injective (rw (unset, apply_override) at e)))
    | inr (raw, given) ↦
        let (v, coerced, e') =
          >>=-eq-ok (coerce_env_value casts raw m.section m.key)
            (λ v. set_in m.section m.key v data_) (rw (given, apply_override) at e) in
        let now = value_at-set_in m.section m.key v data_ data_' m.section m.key e' in
        rw (overlaid, given, coerced) (ap ok (sym (rw (eq_refl m.section, eq_refl m.key) at now)))
  ]

  apply_overrides-overlaid :
      (ms : List Mapping) (data_ data_' : Toml) (section key : String)
      → sole ms ≡ true
      → apply_overrides casts env ms data_ ≡ ok data_'
      → overlaid section key (variable_for section key ms) (value_at section key data_)
        ≡ ok (value_at section key data_')
  unfolding apply_overrides
  apply_overrides-overlaid [] data_ data_' section key distinct e =
      ap (λ d. ok (value_at section key d)) (ok_injective e)
  apply_overrides-overlaid (m ∷ ms) data_ data_' section key distinct e =
      let (between, e1, e2) =
        >>=-eq-ok (apply_override casts env m data_) (λ d. apply_overrides casts env ms d) e in
      let (single, singles) = and_true (not (any (is_for m.section m.key) ms)) (sole ms) distinct in
      elim (Bool-cases (is_for section key m)) [
        | inl this ↦
            let (at_section, at_key) = and_true (m.section == section) (m.key == key) this in
            let P = λ (s k : String).
              overlaid s k (some m.env_key) (value_at s k data_) ≡ ok (value_at s k data_') in
            let here : P m.section m.key =
              apply_override-this m data_ between e1
              ∙ ap ok (
                  sym (
                    apply_overrides-others ms between data_' m.section m.key (false_of_not _ single)
                      e2)) in
            rw this (
              subst (λ k. P section k) ((eq_iff m.key key).0 at_key)
                (subst (λ s. P s m.key) ((eq_iff m.section section).0 at_section) here))
        | inr other ↦ rw other (
            ap (overlaid section key (variable_for section key ms))
              (sym (apply_override-other m data_ between section key other e1))
            ∙ apply_overrides-overlaid ms between data_' section key singles e2)
      ]

  -- Once the variables are applied, each value of each section is that of its variable, converted as its
  -- key asks, if the environment has the variable; else it is the file's, and so is every value
  -- that no variable is for.
  pub env_overrides_win :
      (data_ data_' : Toml) (section key : String)
      → apply_overrides casts env env_map data_ ≡ ok data_'
      → overlaid section key (variable_for section key env_map) (value_at section key data_)
        ≡ ok (value_at section key data_')
  env_overrides_win data_ data_' section key e =
      apply_overrides-overlaid env_map data_ data_' section key refl e
