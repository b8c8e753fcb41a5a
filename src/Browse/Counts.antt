-- ===== src/Browse/Counts.antt =====
-- Which files a child of packages/core/src/browse-tree.ts counts.
use skillcdn.Common.{
  ℕ, ◌+◌, ◌≡◌, refl, ap, sym, subst, ◌∙◌, inl, inr, Bool, true, false, ◌&&◌, ◌||◌, not, List, [],
  ◌∷◌, ◌++◌, Option, none, some, arith, if◌then◌else◌, is_empty, keep, Bool-cases,
}
use skillcdn.Text.{Text, slash, same}
use skillcdn.Text.Compare.{same→eq}
use skillcdn.Text.Split.{Lacks}
use skillcdn.RepoPath.{RepoPath}
use skillcdn.Browse.{
  CatalogFile, Child, no_child, entry_at, Catalog, is_set, is_counted_skill, is_counted_document,
  is_counted_image, prefix_of, child_path, note_file, child_or_new, add_to_child, catalog_step,
  catalog_from, nothing_listed, catalog_of,
}
use skillcdn.Browse.Places.{
  entry_at-put_entry, entry_at-put_entry_other, is_at_or_below, is_child, child_path_lem,
}

-- The file is published for browsing.
abbrev pub is_published : CatalogFile → Bool
is_published file = not (is_set file.overview_only || is_set file.linked_only)

abbrev note_all : RepoPath → List CatalogFile → Child → Child
note_all path [] child = child
note_all path (file ∷ files) child = note_all path files (note_file path file child)

-- The files that a child stands for.
abbrev pub files_below : RepoPath → List CatalogFile → List CatalogFile
files_below place files = keep (λ f. is_published f && is_at_or_below place f.path) files

abbrev child_at : Catalog → RepoPath → Child
child_at c path = child_or_new (entry_at path c.children)

add_to_child-noted :
    (o : Option RepoPath) (file : CatalogFile) (children : List (RepoPath × Child))
    (place : RepoPath)
    → child_or_new (entry_at place (add_to_child o file children)) ≡ (
        if is_child o place
        then note_file place file (child_or_new (entry_at place children))
        else child_or_new (entry_at place children))
add_to_child-noted none file children place = refl
add_to_child-noted (some path) file children place = elim (Bool-cases (same path place)) [
  | inl e ↦
      let q : path ≡ place = same→eq path place e in
      rw (e, q)
        (ap child_or_new (
          entry_at-put_entry place (note_file place file (child_or_new (entry_at place children)))
            children))
  | inr e ↦
      rw
        (
          e,
          entry_at-put_entry_other path place
              (note_file path file (child_or_new (entry_at path children))) children e,
        )
        refl
]

catalog_step-noted :
    (overview_paths : List RepoPath) (p seg : Text) (file : CatalogFile) (c : Catalog)
    → Lacks slash seg
    → is_empty seg ≡ false
    → child_at (catalog_step overview_paths p file c) (p ++ seg) ≡ (
        if is_published file && is_at_or_below (p ++ seg) file.path
        then note_file (p ++ seg) file (child_at c (p ++ seg))
        else child_at c (p ++ seg))
unfolding catalog_step
catalog_step-noted overview_paths p seg file c lacks filled =
    elim (Bool-cases (is_set file.overview_only || is_set file.linked_only)) [
      | inl hidden ↦ rw hidden refl
      | inr open_ ↦
          rw (open_, ← child_path_lem p file.path seg lacks filled)
            (add_to_child-noted (child_path p file.path) file c.children (p ++ seg))
    ]

catalog_from-noted :
    (overview_paths : List RepoPath) (p seg : Text) (files : List CatalogFile) (c : Catalog)
    → Lacks slash seg
    → is_empty seg ≡ false
    → child_at (catalog_from overview_paths p c files) (p ++ seg)
      ≡ note_all (p ++ seg) (files_below (p ++ seg) files) (child_at c (p ++ seg))
unfolding catalog_from
catalog_from-noted overview_paths p seg [] c lacks filled = refl
catalog_from-noted overview_paths p seg (file ∷ files) c lacks filled =
    let here = catalog_step-noted overview_paths p seg file c lacks filled in
    let rest =
      catalog_from-noted overview_paths p seg files (catalog_step overview_paths p file c) lacks
        filled in
    rest
    ∙ ap (note_all (p ++ seg) (files_below (p ++ seg) files)) here
    ∙ (elim (Bool-cases (is_published file && is_at_or_below (p ++ seg) file.path)) [
      | inl e ↦ rw e refl
      | inr e ↦ rw e refl
    ])

unfoldable pub how_many : (CatalogFile → Bool) → List CatalogFile → ℕ
how_many test [] = 0
how_many test (file ∷ files) =
    let rest = how_many test files in if test file then rest + 1 else rest

carry : (b : Bool) (m n : ℕ) → m + (if b then n + 1 else n) ≡ (if b then m + 1 else m) + n
carry true m n = omega arith
carry false m n = refl

-- A count of a child that one file raises if it passes a test is the number of the files that pass.
note_all-how_many :
    (path : RepoPath) (field : Child → ℕ) (test : CatalogFile → Bool)
    → ((file : CatalogFile) (child : Child)
        → field (note_file path file child) ≡ (if test file then field child + 1 else field child))
    → (files : List CatalogFile) (child : Child)
    → field (note_all path files child) ≡ how_many test files + field child
unfolding how_many
note_all-how_many path field test step [] child = omega arith
note_all-how_many path field test step (file ∷ files) child =
    note_all-how_many path field test step files (note_file path file child)
    ∙ ap (λ n. how_many test files + n) (step file child)
    ∙ carry (test file) (how_many test files) (field child)

-- What a child counts of some files.
pub record IsCount (files : List CatalogFile) (child : Child) : Type 0 where
  pub skills : child.skill_count ≡ how_many is_counted_skill files
  pub documents : child.document_count ≡ how_many is_counted_document files
  pub images : child.image_count ≡ how_many is_counted_image files

note_all-IsCount :
    (path : RepoPath) (files : List CatalogFile) → IsCount files (note_all path files no_child)
unfolding note_file
note_all-IsCount path files = record {
  skills = omega (
    arith,
    note_all-how_many path (λ c. c.skill_count) is_counted_skill (λ f c. refl) files no_child,
  );
  documents = omega (
    arith,
    note_all-how_many path (λ c. c.document_count) is_counted_document (λ f c. refl) files no_child,
  );
  images = omega (
    arith,
    note_all-how_many path (λ c. c.image_count) is_counted_image (λ f c. refl) files no_child,
  );
}

-- Whatever the files and the directory, the child named by a segment without a slash counts exactly the
-- published files that are it or lie under it: the searchable skills, the searchable Markdown and JSON
-- files of no skill, and the pictures.
pub browse_counts_lem :
    (files : List CatalogFile) (directory : RepoPath) (seg : Text)
    → Lacks slash seg
    → is_empty seg ≡ false
    → IsCount
        (files_below (prefix_of directory ++ seg) files)
        (child_or_new (entry_at (prefix_of directory ++ seg) (catalog_of files directory).children))
unfolding catalog_of
browse_counts_lem files directory seg lacks filled =
    let place = prefix_of directory ++ seg in
    subst (IsCount (files_below place files))
      (sym (catalog_from-noted _ (prefix_of directory) seg files nothing_listed lacks filled))
      (note_all-IsCount place (files_below place files))
