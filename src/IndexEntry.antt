-- ===== src/IndexEntry.antt =====
-- packages/core/src/index-entry.ts: what the reading rules make of one commit. An optional property
-- is an `Option`, and an object that is used as a map is the list of its entries.
use skillcdn.Common.{ℕ, Bool, List, Option}
use skillcdn.Text.{Text}
use skillcdn.License.{LicenseFact, LicenseKind}
use skillcdn.RepoLayout.{RepoFileKind}

pub record SnapshotDiagnostic : Type 0 where
  pub path : Text
  pub code : Text
  pub message : Text

pub record StoredTranslation : Type 0 where
  pub title : Option Text
  pub name : Option Text
  pub description : Option Text

pub record SearchRules : Type 0 where
  pub meaning : Bool
  pub hub : Option Bool

pub record LocalReference : Type 0 where
  pub href : Text
  pub path : Text

pub record OmittedFile : Type 0 where
  pub path : Text
  pub size : ℕ
  pub source_url : Text

pub record SkillFrontMatter : Type 0 where
  pub license : Option Text
  pub compatibility : Option Text
  pub allowed_tools : Option Text
  pub metadata : List (Text × Text)
  pub warnings : List Text
  pub included : Option (List Text)
  pub translations : Option (List (Text × StoredTranslation))
  pub documents : Option (List Text)
  pub exclude : Option (List Text)
  pub language : Option Text
  pub search : Option SearchRules
  pub image : Option Text
  pub references : Option (List LocalReference)
  pub linked_only : Option Bool
  pub overview_only : Option Bool
  pub manifest_error : Option Text
  pub unlisted : Option Text
  pub omitted : Option (List OmittedFile)
  pub license_fact : Option LicenseFact

pub record IndexEntry : Type 0 where
  pub path : Text
  pub kind : RepoFileKind
  pub size : ℕ
  pub blob_sha : Text
  pub skill_dir : Option Text
  pub name : Option Text
  pub title : Option Text
  pub description : Option Text
  pub front_matter : Option SkillFrontMatter
  pub searchable : Bool
  pub search : Option Text
  pub visible : Bool
  pub digest : Option Text
  pub served_size : Option ℕ
  pub listed : Option Bool
  pub license_kind : Option LicenseKind

pub record SnapshotIndex : Type 0 where
  pub entries : List IndexEntry
  pub truncated : Bool
  pub indexed_bytes : ℕ
  pub diagnostics : List SnapshotDiagnostic
  pub license : LicenseFact
  pub version : ℕ
