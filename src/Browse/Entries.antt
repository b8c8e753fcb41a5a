-- ===== src/Browse/Entries.antt =====
-- The entries of packages/core/src/browse-tree.ts: what browsing shows of each child, in which order, and
-- the overview of a folder.
use Prim.Native.Nat.{Ordering}
use skillcdn.Common.{
  ℕ, zero, suc, Bool, true, false, List, [], ◌∷◌, Option, none, some, if◌then◌else◌, length, map,
  defined, find, ◌==◌,
}
use skillcdn.Common.Sort.{sort, or_else}
use skillcdn.Text.{Text, same, less, has}
use skillcdn.RepoPath.{RepoPath, root_path}
use skillcdn.License.{LicenseFact}
use skillcdn.RepoLayout.{parent_directory}
use skillcdn.RepoLayout.Selection.{select_readme_paths}
use skillcdn.Browse.{CatalogFile, Child, Catalog, entry_at, is_manifest_file, catalog_of}

pub record FolderOverview : Type 0 where
  pub path : RepoPath
  pub title : Option Text
  pub description : Option Text

unfoldable pub folder_overview : List CatalogFile → RepoPath → Option FolderOverview
unfolding has select_readme_paths
folder_overview files path =
    let selected = select_readme_paths (map (λ f. f.path) files) (path ∷ []) in
    elim (find (λ f. has selected f.path) files) [
      | none ↦ none
      | some f ↦ some (record { path = f.path; title = f.title; description = f.description })
    ]

pub data BrowseKind : Type 0 where
  directory : BrowseKind
  skill : BrowseKind
  file : BrowseKind

pub record BrowseEntry : Type 0 where
  pub browse_path : Option RepoPath
  pub overview_path : Option RepoPath
  pub license : Option LicenseFact
  pub described_only : Option Bool
  pub kind : BrowseKind
  pub path : RepoPath
  pub name : Option Text
  pub description : Option Text
  pub skill_count : ℕ
  pub document_count : ℕ
  pub image_count : Option ℕ
  pub size : Option ℕ
  pub manifest_path : Option RepoPath
  pub language : Option Text

-- `file?.field` and `a ?? b`.
abbrev pub of_file {ℓ} : {A : Type ℓ} → Option CatalogFile → (CatalogFile → Option A) → Option A
of_file none pick = none
of_file (some f) pick = pick f

abbrev pub first_given {ℓ} : {A : Type ℓ} → Option A → Option A → Option A
first_given none other = other
first_given (some value) other = some value

-- The loop up the ancestors. Each round shortens the path, so that a fuel above its length is enough.
unfoldable pub language_from : List (RepoPath × CatalogFile) → ℕ → RepoPath → Option Text
unfolding entry_at parent_directory same
language_from manifests zero ancestor = none
language_from manifests (suc fuel) ancestor =
    let rest = language_from manifests fuel (parent_directory ancestor) in
    elim (of_file (entry_at ancestor manifests) (λ m. m.language)) [
      | some declared ↦ some declared
      | none ↦ if same ancestor root_path then none else rest
    ]

abbrev pub kind_of_child : Child → BrowseKind
kind_of_child child =
    if defined child.skill then skill else if defined child.direct then file else directory

abbrev pub place_of : RepoPath → Option CatalogFile → RepoPath
place_of path none = path
place_of path (some f) = parent_directory f.path

-- The entry of one child.
unfoldable pub entry_of : Catalog → RepoPath → Child → BrowseEntry
unfolding entry_at parent_directory language_from
entry_of c path child =
    let own = entry_at path c.manifests in
    let overview = entry_at (place_of path child.skill) c.overviews in
    record {
      browse_path = of_file child.skill (λ s. some (parent_directory s.path));
      overview_path = of_file overview (λ o. some o.path);
      license = of_file child.skill (λ s. s.license);
      described_only = none;
      kind = kind_of_child child;
      path = elim child.skill [ none ↦ path | some s ↦ s.path ];
      name = first_given (of_file child.skill (λ s. s.name)) (
          first_given (of_file own (λ m. m.name))
            (first_given (of_file child.direct (λ d. d.title)) (of_file overview (λ o. o.title))));
      description = first_given (of_file child.skill (λ s. s.description)) (
          first_given (of_file own (λ m. m.description)) (
            first_given (of_file child.direct (λ d. d.description))
              (of_file overview (λ o. o.description))));
      skill_count = child.skill_count;
      document_count = child.document_count;
      image_count = if child.image_count == 0 then none else some child.image_count;
      size = of_file (first_given child.skill child.direct) (λ f. some f.size);
      manifest_path = of_file own (λ m. some m.path);
      language = language_from c.manifests (suc (length path)) path;
    }

-- `direct?.kind === "manifest"`.
abbrev pub is_withheld : Child → Bool
is_withheld child = elim child.direct [ none ↦ false | some f ↦ is_manifest_file f.kind ]

unfoldable pub entries_of : Catalog → List (RepoPath × Child) → List BrowseEntry
unfolding entry_of
entries_of c [] = []
entries_of c ((path, child) ∷ children) =
    let rest = entries_of c children in
    if is_withheld child then rest else entry_of c path child ∷ rest

abbrev pub is_file_entry : BrowseKind → Bool
is_file_entry directory = false
is_file_entry skill = false
is_file_entry file = true

-- `Number(a) - Number(b)`.
abbrev pub false_first : Bool → Bool → Ordering
false_first true true = Ordering.eq
false_first true false = Ordering.gt
false_first false true = Ordering.lt
false_first false false = Ordering.eq

unfoldable pub compare_paths : RepoPath → RepoPath → Ordering
unfolding less
compare_paths a b = if less a b then Ordering.lt else if less b a then Ordering.gt else Ordering.eq

abbrev pub files_last : BrowseEntry → BrowseEntry → Ordering
files_last a b =
    or_else (false_first (is_file_entry a.kind) (is_file_entry b.kind))
      (compare_paths a.path b.path)

unfoldable pub browse_catalog_files : List CatalogFile → RepoPath → List BrowseEntry
unfolding catalog_of entries_of sort compare_paths
browse_catalog_files files path =
    let c = catalog_of files path in sort files_last (entries_of c c.children)
