-- ===== src/Manifest.antt =====
-- The manifests of skills and repositories: the front matter as data, the rules of its fields, and
-- the readers of SKILL.md and SKILLCDN.md.
pub mod Values
pub mod Yaml
pub mod Fields
pub mod Scalars
pub mod Included
pub mod Skill
pub mod RepoManifest
pub mod Images
pub mod Paths
pub mod Repo
pub mod Limits
pub mod Exclusions
mod Tests
