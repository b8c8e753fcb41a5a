-- ===== src/Reader/Queries/Tests.antt =====
-- The listings of a small index, and the theorems at inputs where their hypotheses hold.
use mathlib.Core.List.{Perm}
use skillcdn.Common.{◌≡◌, refl, true, false, List, [], ◌∷◌, some, none, length, drop, arith, map}
use skillcdn.Common.Sort.{sort, insert_sorted, IsSorted}
use skillcdn.Text.{Text, codes, starts_with, same, index_of, has, last_index_of}
use skillcdn.TextSafety.{is_high_surrogate, is_low_surrogate, pair_point, code_points}
use skillcdn.IndexEntry.{IndexEntry}
use skillcdn.RepoLayout.{RepoFileKind, skill, manifest, markdown}
use skillcdn.Reader.Order.{compare_byte_order, compare_from, point_at, sorted_by_path}
use skillcdn.Reader.Order.Laws.{sorted_by_path_lem, by_points, lexicographic}
use skillcdn.Reader.Queries.{
  list_entries, count_entries, skills, documents_outside_skills, list_listed_skills, listed_skills,
  list_directory, note_child, children_from, file, directory, under_path, owned_by_skill_in,
  get_manifest, manifest_from, find_skills, list_skill_files, get_skills_at, list_skill_resources,
  get_entry,
}
use skillcdn.Reader.Queries.Counts.{count_entries_lem}
use skillcdn.Reader.Queries.Pages.{pages_from, pages_from_lem}

run : Unit {0}
unfolding sort insert_sorted starts_with same index_of has last_index_of is_high_surrogate
    is_low_surrogate compare_byte_order compare_from point_at pair_point sorted_by_path list_entries
    count_entries list_listed_skills list_directory note_child children_from under_path
    owned_by_skill_in get_manifest manifest_from find_skills list_skill_files get_skills_at
    list_skill_resources get_entry code_points lexicographic
run = tt

abbrev entry_at : Text → RepoFileKind → IndexEntry
entry_at path kind = record {
  path = path;
  kind = kind;
  size = 10;
  blob_sha = [];
  skill_dir = none;
  name = none;
  title = none;
  description = none;
  front_matter = none;
  searchable = true;
  search = none;
  visible = true;
  digest = none;
  served_size = none;
  listed = some true;
  license_kind = none;
}

abbrev some_entries : List IndexEntry
some_entries =
    record (entry_at (codes "a/SKILL.md") skill) {
      skill_dir = some (codes "a");
      name = some (codes "Deploy");
    }
    ∷ entry_at (codes "docs/z.md") markdown
    ∷ record (entry_at (codes "a/page.md") markdown) { skill_dir = some (codes "a") }
    ∷ entry_at (codes "b/SKILL.md") skill
    ∷ record (entry_at (codes "secret.md") markdown) { visible = false }
    ∷ entry_at (codes "SKILLCDN.md") manifest
    ∷ []

listing :
    map (λ (e : IndexEntry). e.path) (list_entries some_entries [] 3 none)
    ≡ codes "a/SKILL.md" ∷ codes "b/SKILL.md" ∷ codes "SKILLCDN.md" ∷ []
unfolding run
listing = refl

root_listing :
    list_directory some_entries [] 10 false
    ≡ record { path = codes "a"; kind = directory; size = none }
      ∷ record { path = codes "b"; kind = directory; size = none }
      ∷ record { path = codes "docs"; kind = directory; size = none }
      ∷ record { path = codes "SKILLCDN.md"; kind = file; size = some 10 }
      ∷ []
unfolding run
root_listing = refl

manifest_of_a :
    get_manifest some_entries (codes "a") ≡ some (entry_at (codes "SKILLCDN.md") manifest)
unfolding run
manifest_of_a = refl

careless_name :
    map
      (λ (e : IndexEntry). e.path)
      (find_skills
        (λ name. name)
        some_entries
        []
        (record { name = codes "Deploy"; directory = some (codes "a") })
        5)
    ≡ codes "a/SKILL.md" ∷ []
unfolding run
careless_name = refl

files_of_a : list_skill_files some_entries (codes "a") 5 ≡ codes "a/page.md" ∷ []
unfolding run
files_of_a = refl

count_entries_lem_example : count_entries some_entries [] ≡ record {
  skills = length (list_entries some_entries [] 6 (some skills));
  documents = length (list_entries some_entries [] 6 (some documents_outside_skills));
}
count_entries_lem_example = count_entries_lem some_entries [] 6 (omega arith)

two_skills : (list_listed_skills some_entries [] 0 1 true).total ≡ 2
unfolding run
two_skills = refl

pages_from_lem_example :
    pages_from some_entries [] 1 true 2 0 ≡ drop 0 (listed_skills some_entries [] true)
pages_from_lem_example = pages_from_lem some_entries [] 1 true 2 0 (omega (arith, two_skills))

abbrev some_paths : List Text
some_paths = codes "b" ∷ (0xff5e ∷ []) ∷ (0xd83d ∷ 0xde00 ∷ []) ∷ codes "a" ∷ []

by_bytes :
    sorted_by_path some_paths (λ path. path)
    ≡ codes "a" ∷ codes "b" ∷ (0xff5e ∷ []) ∷ (0xd83d ∷ 0xde00 ∷ []) ∷ []
unfolding run
by_bytes = refl

sorted_by_path_lem_example :
    Perm (sorted_by_path some_paths (λ path. path)) some_paths
    × IsSorted (by_points (λ (path : Text). path)) (sorted_by_path some_paths (λ path. path))
sorted_by_path_lem_example = sorted_by_path_lem (λ path. path) some_paths (omega arith)
