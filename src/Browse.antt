-- ===== src/Browse.antt =====
-- packages/core/src/browse-tree.ts: the children of a directory among the published files. A map is the
-- list of its entries in the order of insertion, and a set the list of its items.
pub mod Entries
pub mod Places
pub mod Counts
pub mod Order
pub mod Languages
mod Tests
use skillcdn.Common.{
  ℕ, ◌+◌, Bool, true, false, ◌&&◌, ◌||◌, not, List, [], ◌∷◌, ◌++◌, Option, none, some,
  if◌then◌else◌, length, is_empty, take, drop, map, defined,
}
use skillcdn.Text.{Text, codes, slash, same, starts_with, index_of, has}
use skillcdn.RepoPath.{RepoPath}
use skillcdn.License.{LicenseFact}
use skillcdn.RepoLayout.{
  RepoFileKind, skill, manifest, markdown, json, other, parent_directory, skill_manifest_file,
}
use skillcdn.RepoLayout.Extensions.{is_image_path}
use skillcdn.RepoLayout.Selection.{select_readme_paths}

pub record CatalogFile : Type 0 where
  pub license : Option LicenseFact
  pub path : RepoPath
  pub kind : RepoFileKind
  pub name : Option Text
  pub title : Option Text
  pub description : Option Text
  pub skill_dir : Option RepoPath
  pub searchable : Bool
  pub size : ℕ
  pub linked_only : Option Bool
  pub overview_only : Option Bool
  pub language : Option Text

pub record Child : Type 0 where
  pub direct : Option CatalogFile
  pub skill : Option CatalogFile
  pub skill_count : ℕ
  pub document_count : ℕ
  pub image_count : ℕ

abbrev pub no_child : Child
no_child = record {
  direct = none;
  skill = none;
  skill_count = 0;
  document_count = 0;
  image_count = 0;
}

-- `map.get` and `map.set`.
unfoldable pub entry_at {ℓ} : {V : Type ℓ} → RepoPath → List (RepoPath × V) → Option V
unfolding same
entry_at path [] = none
entry_at path ((k, v) ∷ entries) = if same k path then some v else entry_at path entries

unfoldable pub put_entry {ℓ} :
    {V : Type ℓ} → RepoPath → V → List (RepoPath × V) → List (RepoPath × V)
unfolding same
put_entry path value [] = (path, value) ∷ []
put_entry path value ((k, v) ∷ entries) =
    let rest = put_entry path value entries in
    if same k path then (k, value) ∷ entries else (k, v) ∷ rest

-- What the loop over the files fills.
pub record Catalog : Type 0 where
  pub manifests : List (RepoPath × CatalogFile)
  pub overviews : List (RepoPath × CatalogFile)
  pub children : List (RepoPath × Child)

-- `=== true` of an optional property.
abbrev pub is_set : Option Bool → Bool
is_set none = false
is_set (some b) = b

abbrev pub is_skill_file : RepoFileKind → Bool
is_skill_file skill = true
is_skill_file manifest = false
is_skill_file markdown = false
is_skill_file json = false
is_skill_file other = false

abbrev pub is_manifest_file : RepoFileKind → Bool
is_manifest_file skill = false
is_manifest_file manifest = true
is_manifest_file markdown = false
is_manifest_file json = false
is_manifest_file other = false

abbrev pub is_page_file : RepoFileKind → Bool
is_page_file skill = false
is_page_file manifest = false
is_page_file markdown = true
is_page_file json = true
is_page_file other = false

abbrev pub is_other_file : RepoFileKind → Bool
is_other_file skill = false
is_other_file manifest = false
is_other_file markdown = false
is_other_file json = false
is_other_file other = true

abbrev pub is_counted_skill : CatalogFile → Bool
is_counted_skill file = is_skill_file file.kind && file.searchable

abbrev pub is_counted_document : CatalogFile → Bool
is_counted_document file = file.searchable && not (defined file.skill_dir) && is_page_file file.kind

abbrev pub is_counted_image : CatalogFile → Bool
is_counted_image file = is_other_file file.kind && is_image_path file.path

abbrev pub prefix_of : RepoPath → Text
prefix_of path = if is_empty path then [] else path ++ (slash ∷ [])

-- `slash < 0 ? relative : relative.slice(0, slash)`.
abbrev pub until : Text → Option ℕ → Text
until relative none = relative
until relative (some i) = take i relative

-- The child of the directory that a path is under, if any.
unfoldable pub child_path : Text → RepoPath → Option RepoPath
unfolding starts_with index_of
child_path prefix path =
    let relative = drop (length prefix) path in
    if not (starts_with path prefix) || is_empty relative
    then none
    else some (prefix ++ until relative (index_of slash relative))

abbrev pub is_main_file : RepoPath → CatalogFile → Bool
is_main_file path file =
    is_skill_file file.kind
    && (same file.path path || same file.path (path ++ (slash ∷ skill_manifest_file)))

-- What one file makes of its child.
unfoldable pub note_file : RepoPath → CatalogFile → Child → Child
unfolding same is_image_path
note_file path file child = record {
  direct = if same file.path path then some file else child.direct;
  skill = if is_main_file path file then some file else child.skill;
  skill_count = if is_counted_skill file then child.skill_count + 1 else child.skill_count;
  document_count =
      if is_counted_document file then child.document_count + 1 else child.document_count;
  image_count = if is_counted_image file then child.image_count + 1 else child.image_count;
}

abbrev pub child_or_new : Option Child → Child
child_or_new none = no_child
child_or_new (some child) = child

abbrev pub add_to_child :
    Option RepoPath → CatalogFile → List (RepoPath × Child) → List (RepoPath × Child)
add_to_child none file children = children
add_to_child (some path) file children =
    put_entry path (note_file path file (child_or_new (entry_at path children))) children

abbrev pub put_if :
    Bool → CatalogFile → List (RepoPath × CatalogFile) → List (RepoPath × CatalogFile)
put_if false file entries = entries
put_if true file entries = put_entry (parent_directory file.path) file entries

-- The body of the loop of `browseCatalogFiles`.
unfoldable pub catalog_step : List RepoPath → Text → CatalogFile → Catalog → Catalog
unfolding has put_entry entry_at parent_directory child_path note_file
catalog_step overview_paths prefix file c =
    let overviews = put_if (has overview_paths file.path) file c.overviews in
    if is_set file.overview_only || is_set file.linked_only
    then record c { overviews = overviews }
    else record {
      manifests = put_if (is_manifest_file file.kind) file c.manifests;
      overviews = overviews;
      children = add_to_child (child_path prefix file.path) file c.children;
    }

unfoldable pub catalog_from : List RepoPath → Text → Catalog → List CatalogFile → Catalog
unfolding catalog_step
catalog_from overview_paths prefix c [] = c
catalog_from overview_paths prefix c (file ∷ files) =
    catalog_from overview_paths prefix (catalog_step overview_paths prefix file c) files

abbrev pub nothing_listed : Catalog
nothing_listed = record { manifests = []; overviews = []; children = [] }

unfoldable pub catalog_of : List CatalogFile → RepoPath → Catalog
unfolding catalog_from select_readme_paths parent_directory
catalog_of files path =
    let paths = map (λ file. file.path) files in
    catalog_from (select_readme_paths paths (map (λ file. parent_directory file.path) files))
      (prefix_of path) nothing_listed files
