-- ===== src/Browse/Order.antt =====
-- In which order browsing lists the children, packages/core/src/browse-tree.ts.
use Prim.Native.Nat.{Ordering, compare}
use mathlib.Core.List.{Perm}
use skillcdn.Common.{ℕ, ◌≡◌, refl, sym, subst, List, [], ◌∷◌, arith}
use skillcdn.Common.Sort.{sort, IsOrder, IsSorted, or_else, sort-perm, sort-IsSorted}
use skillcdn.Text.{less}
use skillcdn.RepoPath.{RepoPath}
use skillcdn.Reader.Order.Laws.{lexicographic, lexicographic_total, lexicographic_trans}
use skillcdn.Browse.{CatalogFile, catalog_of}
use skillcdn.Browse.Entries.{
  BrowseKind, directory, skill, file, BrowseEntry, compare_paths, files_last, false_first,
  is_file_entry, entries_of, browse_catalog_files,
}

compare_paths_lem : (a b : RepoPath) → compare_paths a b ≡ lexicographic a b
unfolding compare_paths less lexicographic
compare_paths_lem [] [] = refl
compare_paths_lem [] (d ∷ b) = refl
compare_paths_lem (c ∷ a) [] = refl
compare_paths_lem (c ∷ a) (d ∷ b) = ground (arith, compare_paths_lem a b)

-- Directories and skills are 0, files are 1.
abbrev pub rank : BrowseKind → ℕ
rank directory = 0
rank skill = 0
rank file = 1

abbrev pub by_rank_and_path : BrowseEntry → BrowseEntry → Ordering
by_rank_and_path a b = or_else (compare (rank a.kind) (rank b.kind)) (lexicographic a.path b.path)

false_first_lem :
    (a b : BrowseKind) → false_first (is_file_entry a) (is_file_entry b) ≡ compare (rank a) (rank b)
false_first_lem directory directory = refl
false_first_lem directory skill = refl
false_first_lem directory file = refl
false_first_lem skill directory = refl
false_first_lem skill skill = refl
false_first_lem skill file = refl
false_first_lem file directory = refl
false_first_lem file skill = refl
false_first_lem file file = refl

files_last_lem : (a b : BrowseEntry) → files_last a b ≡ by_rank_and_path a b
files_last_lem a b = rw (false_first_lem a.kind b.kind, compare_paths_lem a.path b.path) refl

by_rank_and_path-IsOrder : IsOrder by_rank_and_path
by_rank_and_path-IsOrder = record {
  total = λ a b h k. ground (
    arith,
    λ (e : lexicographic a.path b.path ≡ Ordering.gt). lexicographic_total a.path b.path e,
  );
  transitive = λ a b c h k e. ground (arith, lexicographic_trans a.path b.path c.path);
}

comparisons : files_last ≡ by_rank_and_path
comparisons i a b = files_last_lem a b i

-- What browsing lists are the entries of the children, each as often: first the directories and skills,
-- then the files, both in the order of the code units of their paths.
pub browse_order_lem :
    (files : List CatalogFile) (path : RepoPath)
    → Perm
        (browse_catalog_files files path)
        (entries_of (catalog_of files path) (catalog_of files path).children)
      × IsSorted by_rank_and_path (browse_catalog_files files path)
unfolding browse_catalog_files
browse_order_lem files path =
    let c = catalog_of files path in
    let entries = entries_of c c.children in
    (
      sort-perm files_last entries,
      subst (λ cmp. IsSorted by_rank_and_path (sort cmp entries)) (sym comparisons)
          (sort-IsSorted by_rank_and_path by_rank_and_path-IsOrder entries),
    )
