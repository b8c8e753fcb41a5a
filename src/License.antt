-- ===== src/License.antt =====
-- packages/core/src/license.ts: what a license lets a deployment do with what a repository publishes.
pub mod Words
pub mod Texts
pub mod Ids
pub mod Field
pub mod Split
pub mod Files
pub mod Governing
pub mod Laws
mod Tests
use skillcdn.Common.{Bool, true, false, Option, none, some, if◌then◌else◌}
use skillcdn.Text.{Text}
use skillcdn.RepoPath.{RepoPath}

pub data LicenseKind : Type 0 where
  permissive restrictive no_license : LicenseKind

pub record LicenseFact : Type 0 where
  pub kind : LicenseKind
  pub name : Option Text
  pub source : Option RepoPath

abbrev pub no_license_fact : LicenseFact
no_license_fact = record { kind = no_license; name = none; source = none }

-- What a reader recognizes; its kind is `restrictive` or it is not.
pub record Recognized : Type 0 where
  pub is_restrictive : Bool
  pub name : Option Text

abbrev pub permissive_as : Text → Recognized
permissive_as name = record { is_restrictive = false; name = some name }

abbrev pub restrictive_as : Option Text → Recognized
restrictive_as name = record { is_restrictive = true; name = name }

abbrev pub kind_of : Bool → LicenseKind
kind_of is_restrictive = if is_restrictive then restrictive else permissive

-- `{ ...recognized, source }`.
abbrev pub with_source : Recognized → RepoPath → LicenseFact
with_source r path = record { kind = kind_of r.is_restrictive; name = r.name; source = some path }
