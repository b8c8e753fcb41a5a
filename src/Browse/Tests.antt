-- ===== src/Browse/Tests.antt =====
-- Browsing of a few files, and the theorems at that input.
use skillcdn.Common.{ℕ, ◌≡◌, refl, true, List, [], ◌∷◌, ◌++◌, Option, none, some, map, arith}
use skillcdn.Text.{Text, codes}
use skillcdn.RepoLayout.{RepoFileKind, skill, manifest, markdown, other}
use skillcdn.Browse.{no_child, CatalogFile, entry_at, child_or_new, prefix_of, catalog_of}
use mathlib.Core.List.{Perm}
use skillcdn.Common.Sort.{IsSorted}
use skillcdn.Browse.Languages.{IsLanguage, entry_of-IsLanguage}
use skillcdn.Browse.Entries.{entry_of, entries_of, browse_catalog_files}
use skillcdn.Browse.Order.{by_rank_and_path, browse_order_lem}
use skillcdn.Browse.Counts.{IsCount, files_below, browse_counts_lem}

abbrev file : Text → RepoFileKind → CatalogFile
file path kind = record {
  license = none;
  path = path;
  kind = kind;
  name = none;
  title = none;
  description = none;
  skill_dir = none;
  searchable = true;
  size = 10;
  linked_only = none;
  overview_only = none;
  language = none;
}

abbrev files : List CatalogFile
files =
    file (codes "docs/a.md") markdown
    ∷ file (codes "docs/fig/b.png") other
    ∷ file (codes "docs/SKILL.md") skill
    ∷ record (file (codes "docs/c.md") markdown) { linked_only = some true }
    ∷ file (codes "notes.md") markdown
    ∷ []

abbrev counts : List (Text × ℕ × ℕ × Option ℕ)
counts =
    map (λ e. (e.path, e.skill_count, e.document_count, e.image_count))
      (browse_catalog_files files [])

listed : counts ≡ (codes "docs/SKILL.md", 1, 1, some 1) ∷ (codes "notes.md", 0, 1, none) ∷ []
unfolding browse_catalog_files skillcdn.Text.last_index_of skillcdn.Text.to_lower
listed = refl

browse_counts_lem_example :
    IsCount
      (files_below (prefix_of [] ++ codes "docs") files)
      (child_or_new (entry_at (prefix_of [] ++ codes "docs") (catalog_of files []).children))
browse_counts_lem_example = browse_counts_lem files [] (codes "docs") (ground arith) refl

browse_order_lem_example :
    Perm
      (browse_catalog_files files [])
      (entries_of (catalog_of files []) (catalog_of files []).children)
    × IsSorted by_rank_and_path (browse_catalog_files files [])
browse_order_lem_example = browse_order_lem files []

abbrev korean : List CatalogFile
korean =
    record (file (codes "SKILLCDN.md") manifest) { language = some (codes "ko") }
    ∷ file (codes "docs/a.md") markdown
    ∷ []

inherited : (entry_of (catalog_of korean []) (codes "docs") no_child).language ≡ some (codes "ko")
unfolding entry_of catalog_of skillcdn.Text.last_index_of skillcdn.Text.to_lower
inherited = refl

entry_of-IsLanguage_example :
    IsLanguage
      (catalog_of korean []).manifests
      (codes "docs")
      (entry_of (catalog_of korean []) (codes "docs") no_child).language
entry_of-IsLanguage_example = entry_of-IsLanguage (catalog_of korean []) (codes "docs") no_child
