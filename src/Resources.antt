-- ===== src/Resources.antt =====
-- src/rif_runtime/resources: identities, the registry of what may be done to resources, and snapshots of
-- a repository. The file system is the sorted list of the paths that a glob finds.
pub mod Registry
use mandare.Prelude.{
  ℕ, String, Bool, true, false, not, Option, none, some, List, [], ◌∷◌, map, filter, contains,
  length, Dict, text_append,
}

-- src/rif_runtime/resources/identity.py
pub data ResourceKind : Type 0 where
  repository document page filesystem object_store : ResourceKind
  vector_store database mcp_server service : ResourceKind

abbrev pub resource_kind_value : ResourceKind → String
resource_kind_value repository = "repository"
resource_kind_value document = "document"
resource_kind_value page = "page"
resource_kind_value filesystem = "filesystem"
resource_kind_value object_store = "object_store"
resource_kind_value vector_store = "vector_store"
resource_kind_value database = "database"
resource_kind_value mcp_server = "mcp_server"
resource_kind_value service = "service"

pub record ResourceId : Type 0 where
  pub kind : ResourceKind
  pub namespace : String
  pub name : String

-- `ResourceId.__str__`
abbrev pub resource_id_text : ResourceId → String
resource_id_text i =
    text_append (resource_kind_value i.kind)
      (text_append ":" (text_append i.namespace (text_append "/" i.name)))

pub record ResourceReference : Type 0 where
  pub id : ResourceId
  pub uri : String
  pub version : Option String

-- src/rif_runtime/resources/snapshot.py
pub record ResourceSnapshot : Type 0 where
  pub resource : ResourceReference
  pub snapshot_id : String
  pub generated_at : ℕ
  pub content_hash : String
  pub metadata : Dict String

pub record SourcePath : Type 0 where
  pub parts : List String
  pub stem : String

-- src/rif_runtime/resources/inventory.py: `ModuleInfo`, and `TestInfo` with the same fields
pub record ModuleInfo : Type 0 where
  pub name : String
  pub path : SourcePath

abbrev pub info_of : SourcePath → ModuleInfo
info_of p = record { name = p.stem; path = p }

-- `RepositoryScanner`, with what `rglob` finds for the two patterns
pub record RepositoryScanner : Type 0 where
  pub python_files : List SourcePath
  pub test_files : List SourcePath

abbrev pub modules : RepositoryScanner → List ModuleInfo
modules s = map info_of (filter (λ p. not (contains p.parts "tests")) s.python_files)

abbrev pub tests : RepositoryScanner → List ModuleInfo
tests s = map info_of s.test_files

-- src/rif_runtime/resources/repository.py
pub record RepositoryResource : Type 0 where
  pub reference : ResourceReference
  pub default_branch : String

pub record RepositorySnapshot : Type 0 where
  pub resource : RepositoryResource
  pub snapshot : ResourceSnapshot
  pub commit_sha : String
  pub tree_hash : String
  pub modules : List ModuleInfo
  pub tests : List ModuleInfo

abbrev pub module_count : RepositorySnapshot → ℕ
module_count s = length s.modules

abbrev pub test_count : RepositorySnapshot → ℕ
test_count s = length s.tests

-- src/rif_runtime/resources/builder.py: `str` of a number and SHA-256 are parameters.
module _ (str : ℕ → String) (sha256 : String → String) where
  abbrev pub content_hash_of : List ModuleInfo → List ModuleInfo → String
  content_hash_of ms ts = sha256 (text_append (str (length ms)) (text_append ":" (str (length ts))))

  -- `build`, at a time
  abbrev pub build : RepositoryResource → RepositoryScanner → ℕ → RepositorySnapshot
  build resource scanner generated_at = record {
    resource = resource;
    snapshot = record {
      resource = resource.reference;
      snapshot_id = "repository-snapshot";
      generated_at = generated_at;
      content_hash = content_hash_of (modules scanner) (tests scanner);
      metadata = [];
    };
    commit_sha = "unknown";
    tree_hash = "unknown";
    modules = modules scanner;
    tests = tests scanner;
  }
