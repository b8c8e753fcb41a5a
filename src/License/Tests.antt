-- ===== src/License/Tests.antt =====
-- Licenses read, and the theorems at inputs where their hypotheses hold.
use skillcdn.Common.{◌≡◌, refl, true, false, [], ◌∷◌, none, some, suc, length, All}
use skillcdn.Text.{
  Text, codes, same, starts_with, ends_with, includes, has, to_lower, last_index_of, split, less,
}
use skillcdn.RepoLayout.Selection.{lower_ascii}
use skillcdn.License.{permissive, restrictive}
use skillcdn.License.Words.{
  is_space, is_word, squeeze, skip_spaces, trim, opens_word, closes_word, word_here, choose_word,
  first_word, has_word, has_opening, version_behind, version_here, version_within,
}
use skillcdn.License.Texts.{
  classify_license_text, normalize_text, first_recognized, known_texts, functional_source, elastic,
  creative_commons, cc_version,
}
use skillcdn.License.Ids.{
  recognize_id, normalize_id, known_id, remove_first, ends_license, drop_v, is_cc_suffix,
  is_version_suffix, ends_in_version, to_upper, creative_commons_id,
}
use skillcdn.License.Field.{
  classify_license_field, classify_expression, points_elsewhere, behind_word, behind_separator,
  split_parts, recognize_all, non_empty,
}
use skillcdn.License.Files.{
  serves_in_full, preferred_license_file, least_file, is_license_file_name, is_license_stem,
  is_stem_suffix, comes_before, license_file_rank,
}
use skillcdn.License.Governing.{LicenseSources, resolve_license, classify_optional, first_declared}
use skillcdn.License.Laws.{
  IsOpen, first_of, in_order, resolve_license_lem, serves-classify_expression,
}

run : Unit {0}
unfolding same starts_with ends_with includes has to_lower last_index_of split less lower_ascii
    is_space is_word squeeze skip_spaces trim opens_word closes_word word_here choose_word
    first_word has_word has_opening version_behind version_here version_within classify_license_text
    normalize_text first_recognized known_texts functional_source elastic creative_commons
    cc_version recognize_id normalize_id known_id remove_first ends_license drop_v is_cc_suffix
    is_version_suffix ends_in_version to_upper creative_commons_id classify_license_field
    classify_expression points_elsewhere behind_word behind_separator split_parts recognize_all
    serves_in_full preferred_license_file least_file is_license_file_name is_license_stem
    is_stem_suffix comes_before license_file_rank resolve_license classify_optional first_declared
run = tt

abbrev manifest : Text
manifest = codes "SKILLCDN.md"

both :
    classify_expression manifest (codes "MIT OR Apache License 2.0")
    ≡ record { kind = permissive; name = some (codes "MIT / Apache-2.0"); source = some manifest }
unfolding run
both = refl

closed : classify_expression manifest (codes "GPL-3.0-or-later/BUSL-1.1") ≡ record {
  kind = restrictive;
  name = some (codes "GPL-3.0 / BUSL-1.1");
  source = some manifest;
}
unfolding run
closed = refl

elsewhere : classify_license_field manifest (codes "See LICENSE") ≡ none
unfolding run
elsewhere = refl

-- A separator alone leaves no part, and so no part that the reader does not know.
only_separator :
    classify_license_field manifest (codes "/")
    ≡ some (record { kind = permissive; name = some []; source = some manifest })
unfolding run
only_separator = refl

inherited :
    classify_license_field manifest (codes "constructor")
    ≡ some (record { kind = permissive; name = some (codes "Object"); source = some manifest })
unfolding run
inherited = refl

text_of_mit :
    (classify_license_text (
      codes
        "The  MIT License. Permission is hereby granted, free of charge, to any person obtaining a copy")).name
    ≡ some (codes "MIT")
unfolding run
text_of_mit = refl

text_of_cc :
    (classify_license_text
      (codes "Creative Commons Attribution-NonCommercial 4.0 International")).name
    ≡ some (codes "CC-BY-NC-4.0")
unfolding run
text_of_cc = refl

plainest :
    preferred_license_file
      (codes "COPYING" ∷ codes "LICENSE-MIT" ∷ codes "LICENSE.md" ∷ codes "x.md" ∷ [])
    ≡ some (codes "LICENSE.md")
unfolding run
plainest = refl

abbrev sources : LicenseSources
sources = record {
  skill_file = none;
  skill_field = none;
  manifest_fields = record { path = manifest; value = codes "MIT" } ∷ [];
  root_file = none;
}

resolve_license_lem_example : resolve_license sources ≡ first_of (in_order sources)
resolve_license_lem_example = resolve_license_lem sources

open_expression : serves_in_full (classify_expression manifest (codes "MIT/ISC")) false ≡ true
unfolding run
open_expression = refl

serves-classify_expression_example :
    All IsOpen (non_empty (split_parts (suc (length (codes "MIT/ISC"))) (codes "MIT/ISC")))
serves-classify_expression_example =
    serves-classify_expression manifest (codes "MIT/ISC") open_expression
