-- ===== src/Manifest/RepoManifest.antt =====
-- The types and limits of packages/core/src/repo-manifest.ts.
use skillcdn.Common.{ℕ, Bool, List, Option}
use skillcdn.Text.{Text}
use skillcdn.RepoPath.{RepoPath}
use skillcdn.Manifest.Yaml.{FrontMatterErrorCode}
use skillcdn.Manifest.Fields.{Ignored}

abbrev pub max_repo_manifest_length : ℕ
max_repo_manifest_length = 262144

abbrev pub max_repo_name_length : ℕ
max_repo_name_length = 100

abbrev pub max_repo_description_length : ℕ
max_repo_description_length = 1024

abbrev pub max_document_directories : ℕ
max_document_directories = 20

abbrev pub max_excluded_paths : ℕ
max_excluded_paths = 100

abbrev pub max_image_url_length : ℕ
max_image_url_length = 2048

pub record RepoTranslation : Type 0 where
  pub name : Option Text
  pub description : Option Text

pub data RepoImage : Type 0 where
  image_path : RepoPath → RepoImage
  image_url : Text → RepoImage

pub record RepoSearch : Type 0 where
  pub meaning : Bool
  pub hub : Bool

pub record RepoManifest : Type 0 where
  pub name : Option Text
  pub description : Text
  pub image : Option RepoImage
  pub documents : List RepoPath
  pub exclude : List RepoPath
  pub license : Option Text
  pub metadata : List (Text × Text)
  pub language : Option Text
  pub translations : List (Text × RepoTranslation)
  pub search : RepoSearch
  pub body : Text

pub data RepoManifestError : Type 0 where
  too_large : RepoManifestError
  missing_front_matter : RepoManifestError
  unterminated_front_matter : RepoManifestError
  invalid_front_matter : FrontMatterErrorCode → RepoManifestError
  invalid_description : RepoManifestError
  invalid_exclude : RepoManifestError

pub data RepoManifestWarning : Type 0 where
  ignored_field : Ignored → RepoManifestWarning
  no_sequence : RepoManifestWarning
  ignored_directory : ℕ → RepoManifestWarning
  commented_value : Text → RepoManifestWarning

pub record ParsedRepoManifest : Type 0 where
  pub manifest : RepoManifest
  pub warnings : List RepoManifestWarning
