-- ===== src/RepoLayout/Selection.antt =====
-- packages/core/src/repo-layout.ts: the overview of each directory, `selectReadmePaths`.
use skillcdn.Common.{
  ℕ, ◌+◌, ◌-◌, Bool, true, ◌&&◌, ◌||◌, not, List, [], ◌∷◌, Option, none, some, ltb, ◌==◌,
  if◌then◌else◌, length, drop,
}
use skillcdn.Text.{Text, codes, same, less, last_index_of, has, to_lower}
use skillcdn.RepoPath.{RepoPath}
use skillcdn.RepoLayout.{base_name, parent_directory}

-- `/^readme\.(?:md|markdown|mdx)$/i` reads ASCII letters only; a name of ASCII letters is its own
-- lower case up to their case.
unfoldable pub lower_ascii : Text → Text
lower_ascii [] = []
lower_ascii (c ∷ s) = (if ltb 64 c && ltb c 91 then c + 32 else c) ∷ lower_ascii s

unfoldable pub is_readme_path : RepoPath → Bool
unfolding base_name lower_ascii
is_readme_path path =
    has (codes "readme.md" ∷ codes "readme.markdown" ∷ codes "readme.mdx" ∷ [])
      (lower_ascii (base_name path))

-- `name.toLowerCase().slice(name.lastIndexOf("."))`; `slice(-1)` is the last unit.
unfoldable pub rank_extension : Text → Text
rank_extension name = elim (last_index_of b'.' name) [
  | none ↦ drop (length (to_lower name) - 1) (to_lower name)
  | some i ↦ drop i (to_lower name)
]

unfoldable pub readme_rank : RepoPath → ℕ
unfolding base_name rank_extension
readme_rank path =
    let name = base_name path in
    if same name (codes "README.md")
    then 0
    else if same name (codes "readme.md")
    then 1
    else if same (rank_extension name) (codes ".md")
    then 2
    else if same (rank_extension name) (codes ".markdown")
    then 3
    else 4

-- Whether a path takes the place of the one selected before it.
unfoldable pub takes_over : RepoPath → Option RepoPath → Bool
unfolding readme_rank
takes_over path none = true
takes_over path (some previous) =
    ltb (readme_rank path) (readme_rank previous)
    || (readme_rank path == readme_rank previous && less path previous)

-- `selected.get` and `selected.set`.
unfoldable pub selected_of : List (RepoPath × RepoPath) → RepoPath → Option RepoPath
selected_of [] directory = none
selected_of ((k, v) ∷ selected) directory =
    if same k directory then some v else selected_of selected directory

unfoldable pub select :
    List (RepoPath × RepoPath) → RepoPath → RepoPath → List (RepoPath × RepoPath)
select [] directory path = (directory, path) ∷ []
select ((k, v) ∷ selected) directory path =
    let rest = select selected directory path in
    if same k directory then (k, path) ∷ selected else (k, v) ∷ rest

unfoldable pub select_step :
    List RepoPath → List (RepoPath × RepoPath) → RepoPath → List (RepoPath × RepoPath)
unfolding parent_directory is_readme_path selected_of select takes_over
select_step directories selected path =
    let directory = parent_directory path in
    if not (has directories directory) || not (is_readme_path path)
    then selected
    else if takes_over path (selected_of selected directory)
    then select selected directory path
    else selected

unfoldable pub select_readmes :
    List RepoPath → List (RepoPath × RepoPath) → List RepoPath → List (RepoPath × RepoPath)
unfolding select_step
select_readmes directories selected [] = selected
select_readmes directories selected (path ∷ paths) =
    select_readmes directories (select_step directories selected path) paths

-- The values of the map.
abbrev pub values : List (RepoPath × RepoPath) → List RepoPath
values [] = []
values ((k, v) ∷ selected) = v ∷ values selected

unfoldable pub select_readme_paths : List RepoPath → List RepoPath → List RepoPath
unfolding select_readmes
select_readme_paths paths directories = values (select_readmes directories [] paths)
