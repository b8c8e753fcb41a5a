-- ===== src/Reader/Queries.antt =====
-- packages/reader/src/queries.ts: what the reader asks of the served entries of an index. A limit is
-- a number of items, and the `lower` of a query by name is the platform's `toLowerCase`.
pub mod Counts
pub mod Pages
mod Tests
use Prim.Native.Nat.{Ordering, compare, max}
use skillcdn.Common.{
  ℕ, zero, suc, ◌+◌, Bool, true, false, ◌&&◌, ◌||◌, not, List, [], ◌∷◌, ◌++◌, Option, none, some,
  if◌then◌else◌, length, is_empty, take, drop, keep, find, map,
}
use skillcdn.Common.Sort.{sort, or_else}
use skillcdn.Text.{Text, codes, slash, same, starts_with, index_of, last_index_of, has}
use skillcdn.License.{LicenseKind, restrictive}
use skillcdn.RepoLayout.{RepoFileKind, skill, manifest, markdown, json, other}
use skillcdn.IndexEntry.{IndexEntry}
use skillcdn.Reader.Order.{compare_byte_order, sorted_by_path}

unfoldable pub under_path : Text → Text → Bool
under_path path mount_path = is_empty mount_path || starts_with path (mount_path ++ (slash ∷ []))

abbrev pub findable : IndexEntry → Bool
findable entry = entry.visible && entry.searchable

-- `kind === "skill"` and `kind === "manifest"`.
abbrev pub is_skill : RepoFileKind → Bool
is_skill skill = true
is_skill manifest = false
is_skill markdown = false
is_skill json = false
is_skill other = false

abbrev pub is_manifest : RepoFileKind → Bool
is_manifest skill = false
is_manifest manifest = true
is_manifest markdown = false
is_manifest json = false
is_manifest other = false

-- `text === wanted` of a text that may be missing.
abbrev pub is_text : Option Text → Text → Bool
is_text none wanted = false
is_text (some text) wanted = same text wanted

unfoldable pub owned_by_skill_in : IndexEntry → Text → Bool
unfolding under_path
owned_by_skill_in entry mount_path = elim entry.skill_dir [
  | none ↦ false
  | some dir ↦ is_empty mount_path || same dir mount_path || under_path dir mount_path
]

pub data EntryListing : Type 0 where
  skills documents documents_outside_skills : EntryListing

abbrev pub wanted : Option EntryListing → Text → IndexEntry → Bool
wanted none mount_path entry = true
wanted (some skills) mount_path entry = is_skill entry.kind
wanted (some documents) mount_path entry = not (is_skill entry.kind)
wanted (some documents_outside_skills) mount_path entry =
    not (is_skill entry.kind) && not (owned_by_skill_in entry mount_path)

-- `(a ? 0 : 1) - (b ? 0 : 1)`: what is true comes first.
abbrev pub true_first : Bool → Bool → Ordering
true_first true true = Ordering.eq
true_first true false = Ordering.lt
true_first false true = Ordering.gt
true_first false false = Ordering.eq

abbrev pub skills_first : IndexEntry → IndexEntry → Ordering
skills_first a b =
    or_else (true_first (is_skill a.kind) (is_skill b.kind)) (compare_byte_order a.path b.path)

abbrev pub is_listed : Option EntryListing → Text → IndexEntry → Bool
is_listed only mount_path entry =
    under_path entry.path mount_path && findable entry && wanted only mount_path entry

unfoldable pub list_entries : List IndexEntry → Text → ℕ → Option EntryListing → List IndexEntry
unfolding under_path owned_by_skill_in sort compare_byte_order
list_entries entries mount_path limit only =
    take limit (sort skills_first (keep (is_listed only mount_path) entries))

pub record EntryCounts : Type 0 where
  pub skills : ℕ
  pub documents : ℕ

-- The body of the loop of `countEntries`.
abbrev pub count_entry : Text → EntryCounts → IndexEntry → EntryCounts
count_entry mount_path counts entry =
    if not (under_path entry.path mount_path) || not (findable entry)
    then counts
    else if is_skill entry.kind
    then record counts { skills = counts.skills + 1 }
    else if not (owned_by_skill_in entry mount_path)
    then record counts { documents = counts.documents + 1 }
    else counts

unfoldable pub count_from : Text → EntryCounts → List IndexEntry → EntryCounts
unfolding under_path owned_by_skill_in
count_from mount_path counts [] = counts
count_from mount_path counts (entry ∷ entries) =
    count_from mount_path (count_entry mount_path counts entry) entries

unfoldable pub count_entries : List IndexEntry → Text → EntryCounts
unfolding count_from
count_entries entries mount_path =
    count_from mount_path (record { skills = 0; documents = 0 }) entries

pub record WantedSkill : Type 0 where
  pub name : Text
  pub directory : Option Text

-- `entry.name?.toLowerCase() === lower`, and `wanted.directory !== undefined && entry.skillDir === wanted.directory`.
abbrev pub answers_to : (Text → Text) → WantedSkill → IndexEntry → Bool
answers_to lower asked entry =
    is_text entry.name asked.name
    || elim entry.name [ none ↦ false | some name ↦ same (lower name) (lower asked.name) ]
    || elim asked.directory [ none ↦ false | some directory ↦ is_text entry.skill_dir directory ]

abbrev pub exact_first : WantedSkill → IndexEntry → IndexEntry → Ordering
exact_first asked a b =
    or_else (true_first (is_text a.name asked.name) (is_text b.name asked.name))
      (compare_byte_order a.path b.path)

unfoldable pub find_skills :
    (Text → Text) → List IndexEntry → Text → WantedSkill → ℕ → List IndexEntry
unfolding under_path sort compare_byte_order
find_skills lower entries mount_path asked limit = take limit (
    sort (exact_first asked) (
      keep
        (λ entry.
          is_skill entry.kind
          && entry.visible
          && under_path entry.path mount_path
          && answers_to lower asked entry)
        entries))

-- `directories.has(entry.skillDir)`, of a directory that is not missing.
abbrev pub lives_in : List Text → IndexEntry → Bool
lives_in directories entry = elim entry.skill_dir [ none ↦ false | some dir ↦ has directories dir ]

unfoldable pub get_skills_at : List IndexEntry → List Text → List IndexEntry
unfolding sorted_by_path
get_skills_at entries directories =
    if is_empty directories
    then []
    else sorted_by_path
        (keep (λ entry. is_skill entry.kind && entry.visible && lives_in directories entry) entries)
        (λ entry. entry.path)

abbrev pub is_restrictive_kind : Option LicenseKind → Bool
is_restrictive_kind none = false
is_restrictive_kind (some restrictive) = true
is_restrictive_kind (some kind) = false

-- `entry.listed === true`.
abbrev pub is_true : Option Bool → Bool
is_true none = false
is_true (some value) = value

abbrev pub is_listed_skill : Text → Bool → IndexEntry → Bool
is_listed_skill mount_path include_restricted entry =
    under_path entry.path mount_path
    && entry.visible
    && is_skill entry.kind
    && is_true entry.listed
    && (include_restricted || not (is_restrictive_kind entry.license_kind))

abbrev pub listed_skills : List IndexEntry → Text → Bool → List IndexEntry
listed_skills entries mount_path include_restricted =
    sorted_by_path (keep (is_listed_skill mount_path include_restricted) entries)
      (λ entry. entry.path)

pub record ListedSkills : Type 0 where
  pub skills : List IndexEntry
  pub total : ℕ

unfoldable pub list_listed_skills : List IndexEntry → Text → ℕ → ℕ → Bool → ListedSkills
unfolding under_path sorted_by_path
list_listed_skills entries mount_path offset limit include_restricted =
    let listed = listed_skills entries mount_path include_restricted in
    record { skills = take limit (drop offset listed); total = length listed }

abbrev pub is_there : Option Text → Bool
is_there none = false
is_there (some text) = true

unfoldable pub list_skill_resources : List IndexEntry → Text → List IndexEntry
unfolding under_path sorted_by_path
list_skill_resources entries skill_dir =
    sorted_by_path
      (keep (λ entry. under_path entry.path skill_dir && entry.visible && is_there entry.digest)
        entries)
      (λ entry. entry.path)

unfoldable pub list_skill_files : List IndexEntry → Text → ℕ → List Text
unfolding sorted_by_path
list_skill_files entries skill_dir limit =
    map (λ entry. entry.path)
      (take limit (
        sorted_by_path
          (keep
            (λ entry.
              is_text entry.skill_dir skill_dir && not (is_skill entry.kind) && entry.visible)
            entries)
          (λ entry. entry.path)))

pub data ListingKind : Type 0 where
  file directory : ListingKind

pub record DirectoryListing : Type 0 where
  pub path : Text
  pub kind : ListingKind
  pub size : Option ℕ

pub record ListingChild : Type 0 where
  pub is_file : Bool
  pub size : Option ℕ

-- `children.get`, and `children.set` of a name that is new.
abbrev pub Children : Type 0
Children = List (Text × ListingChild)

-- `known.size ?? 0`.
abbrev pub or_zero : Option ℕ → ℕ
or_zero none = 0
or_zero (some n) = n

-- What the loop does with the child of an entry that is a file of the directory or is below it.
abbrev pub seen_again : Bool → ℕ → ListingChild → ListingChild
seen_again is_file size known =
    if is_file
    then record { is_file = true; size = some (max (or_zero known.size) size) }
    else known

unfoldable pub note_child : Text → Bool → ℕ → Children → Children
note_child name is_file size [] =
    (name, record { is_file = is_file; size = if is_file then some size else none }) ∷ []
note_child name is_file size ((key, known) ∷ children) =
    let rest = note_child name is_file size children in
    if same key name then (key, seen_again is_file size known) ∷ children else (key, known) ∷ rest

abbrev pub directory_prefix : Text → Text
directory_prefix dir = if is_empty dir then [] else dir ++ (slash ∷ [])

-- Whether the loop of `listDirectory` goes past its `continue`s.
abbrev pub is_below : Bool → Text → IndexEntry → Bool
is_below served_only prefix entry =
    entry.visible && (not served_only || is_there entry.digest) && starts_with entry.path prefix

abbrev pub first_name : Text → Text
first_name rest = elim (index_of slash rest) [ none ↦ rest | some i ↦ take i rest ]

abbrev pub is_name : Text → Bool
is_name rest = elim (index_of slash rest) [ none ↦ true | some i ↦ false ]

unfoldable pub children_from : Bool → Text → Children → List IndexEntry → Children
unfolding note_child index_of
children_from served_only prefix children [] = children
children_from served_only prefix children (entry ∷ entries) =
    let rest = drop (length prefix) entry.path in
    children_from served_only prefix
      (if is_below served_only prefix entry
        then note_child (first_name rest) (is_name rest) entry.size children
        else children)
      entries

-- `(a.isFile ? 1 : 0) - (b.isFile ? 1 : 0)`: what is false comes first.
abbrev pub directories_first : Text × ListingChild → Text × ListingChild → Ordering
directories_first a b =
    or_else (true_first (not a.1.is_file) (not b.1.is_file)) (compare_byte_order a.0 b.0)

abbrev pub listing_of : Text → Text × ListingChild → DirectoryListing
listing_of prefix (name, child) = record {
  path = prefix ++ name;
  kind = if child.is_file then file else directory;
  size = if child.is_file then child.size else none;
}

unfoldable pub list_directory : List IndexEntry → Text → ℕ → Bool → List DirectoryListing
unfolding children_from sort compare_byte_order
list_directory entries dir limit served_only =
    let prefix = directory_prefix dir in
    map (listing_of prefix)
      (take limit (sort directories_first (children_from served_only prefix [] entries)))

unfoldable pub get_entry : List IndexEntry → Text → Option IndexEntry
get_entry entries path = find (λ entry. entry.visible && same entry.path path) entries

abbrev pub manifest_candidate : Text → Text
manifest_candidate dir = if is_empty dir then codes "SKILLCDN.md" else dir ++ codes "/SKILLCDN.md"

abbrev pub directory_above : Text → Text
directory_above dir = elim (last_index_of slash dir) [ none ↦ [] | some i ↦ take i dir ]

-- The loop of `getManifest`. Each round shortens the dir, so that a fuel above its length is
-- enough.
unfoldable pub manifest_from : ℕ → List IndexEntry → Text → Option IndexEntry
manifest_from zero entries dir = none
manifest_from (suc fuel) entries dir =
    let rest = manifest_from fuel entries (directory_above dir) in
    elim (find
      (λ entry. is_manifest entry.kind && entry.visible && same entry.path (manifest_candidate dir))
      entries) [ some found ↦ some found | none ↦ if is_empty dir then none else rest ]

unfoldable pub get_manifest : List IndexEntry → Text → Option IndexEntry
unfolding manifest_from
get_manifest entries mount_path = manifest_from (suc (length mount_path)) entries mount_path
