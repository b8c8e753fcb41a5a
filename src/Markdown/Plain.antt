-- ===== src/Markdown/Plain.antt =====
-- `plainText` of packages/core/src/markdown-blocks.ts: four replacements, each a walk that reads at
-- every place what its pattern matches there. `skip` is how much of the last match is left.
use skillcdn.Common.{
  ℕ, zero, suc, ◌+◌, Bool, true, ◌&&◌, ◌||◌, not, [], ◌∷◌, ◌++◌, Option, none, some, leb, ◌==◌,
  if◌then◌else◌, take, drop, keep, length,
}
use skillcdn.Text.{Text, index_of}
use skillcdn.License.Words.{is_word}

pub record Link : Type 0 where
  pub label : Text
  pub size : ℕ

-- `[label](target)` behind its first bracket: the label and how many units the rest takes.
unfoldable pub link_of : Text → Option Link
unfolding index_of
link_of s = elim (index_of b']' s) [
  | none ↦ none
  | some n ↦ elim (drop (suc n) s) [
    | [] ↦ none
    | c ∷ target ↦ if not (c == b'(') then none else elim (index_of b')' target) [
      | none ↦ none
      | some m ↦ some (record { label = take n s; size = suc (suc (n + suc m)) })
    ]
  ]
]

-- `replaceAll(/!\[([^\]]*)\]\([^)]*\)/g, "")`.
abbrev pub image_size : Text → Option ℕ
image_size [] = none
image_size (c ∷ s) =
    if c == b'[' then elim (link_of s) [ none ↦ none | some link ↦ some (suc link.size) ] else none

unfoldable pub drop_images : ℕ → Text → Text
unfolding link_of
drop_images skip [] = []
drop_images (suc skip) (c ∷ s) = drop_images skip s
drop_images zero (c ∷ s) = elim (if c == b'!' then image_size s else none) [
  | some size ↦ drop_images size s
  | none ↦ c ∷ drop_images zero s
]

-- `replaceAll(/\[([^\]]+)\]\([^)]*\)/g, "$1")`.
abbrev pub labelled : Text → Option Link
labelled s = elim (link_of s) [
  | none ↦ none
  | some link ↦ if leb 1 (length link.label) then some link else none
]

unfoldable pub keep_labels : ℕ → Text → Text
unfolding link_of
keep_labels skip [] = []
keep_labels (suc skip) (c ∷ s) = keep_labels skip s
keep_labels zero (c ∷ s) = elim (if c == b'[' then labelled s else none) [
  | some link ↦ link.label ++ keep_labels link.size s
  | none ↦ c ∷ keep_labels zero s
]

-- `replaceAll(/[`*]+/g, "")`.
unfoldable pub drop_marks : Text → Text
drop_marks s = keep (λ c. not (c == b'`' || c == b'*')) s

-- `(?!\w)` behind the underscores that a text starts with.
unfoldable pub closes_run : Text → Bool
unfolding is_word
closes_run [] = true
closes_run (c ∷ s) = let rest = closes_run s in if c == b'_' then rest else not (is_word c)

-- `replaceAll(/(?<!\w)_+|_+(?!\w)/g, "")`: a run of underscores goes as a whole, unless a word unit
-- stands on both sides. `opens` says that none stands before the run.
unfoldable pub drop_underscores : Bool → Text → Text
unfolding closes_run is_word
drop_underscores opens [] = []
drop_underscores opens (c ∷ s) =
    let rest = drop_underscores (if c == b'_' then opens else not (is_word c)) s in
    if c == b'_' && (opens || closes_run s) then rest else c ∷ rest

unfoldable pub plain_text : Text → Text
unfolding drop_images keep_labels drop_marks drop_underscores
plain_text markdown =
    drop_underscores true (drop_marks (keep_labels zero (drop_images zero markdown)))
