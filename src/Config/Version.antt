-- ===== src/Config/Version.antt =====
-- src/rif_runtime/_version.py: the version of the package. What the metadata of the installed package say,
-- and what opening and parsing `pyproject.toml` comes to, are arguments.
use mandare.Prelude.{
  String, ◌≡◌, refl, Bool, true, false, Option, none, some, lookup, Result, ok, err, type_error,
}
use mandare.Config.{Toml, Setting, text, table, plain}

-- `pyproject.toml`: it is not there, or no TOML, or it is parsed.
pub data Pyproject : Type 0 where
  absent malformed : Pyproject
  parsed : Toml → Pyproject

-- `_read_version_from_pyproject`: a `project` that is no table raises a `TypeError`, which nothing
-- catches; `version` is returned as it is.
unfoldable pub read_version_from_pyproject : Pyproject → Result (Option Setting)
read_version_from_pyproject absent = ok none
read_version_from_pyproject malformed = ok none
read_version_from_pyproject (parsed doc) = elim (lookup "project" doc) [
  | none ↦ ok none
  | some (table project) ↦ ok (lookup "version" project)
  | some (plain v) ↦ err type_error
]

-- A version, and whether the warning was given.
pub record Version : Type 0 where
  pub version : Setting
  pub warned : Bool

abbrev pub or_unknown : Result (Option Setting) → Result Version
or_unknown (err e) = err e
or_unknown (ok (some v)) = ok (record { version = v; warned = false })
or_unknown (ok none) = ok (record { version = text "unknown"; warned = true })

-- `_read_version`
unfoldable pub read_version : Option String → Pyproject → Result Version
unfolding read_version_from_pyproject
read_version (some installed) pyproject = ok (record { version = text installed; warned = false })
read_version none pyproject = or_unknown (read_version_from_pyproject pyproject)

-- Without a file, and without an installed package, the version is not known, and that is said.
read_version_unknown :
    read_version none absent ≡ ok (record { version = text "unknown"; warned = true })
unfolding read_version
read_version_unknown = refl
