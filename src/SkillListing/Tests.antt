-- ===== src/SkillListing/Tests.antt =====
-- A skill that is listed and one that is not, and the theorem at the first.
use skillcdn.Common.{◌++◌, ◌≡◌, refl, [], ◌∷◌, none, some}
use skillcdn.Text.{codes, same, last_index_of}
use skillcdn.RepoLayout.{base_name}
use skillcdn.SkillListing.{
  SkillListingInput, skill_listing_problem, name_directory_mismatch, total_size,
  describe_omitted_file,
}

run : Unit {0}
unfolding skill_listing_problem total_size same base_name last_index_of
run = tt

abbrev small_skill : SkillListingInput
small_skill = record { directory = codes "skills/a"; name = codes "a"; sizes = 10 ∷ 20 ∷ [] }

listed : skill_listing_problem small_skill ≡ none
unfolding run
listed = refl

misnamed :
    skill_listing_problem (record small_skill { name = codes "b" }) ≡ some name_directory_mismatch
unfolding run
misnamed = refl

too_long_to_read :
    describe_omitted_file (record { path = codes "a.md"; size = 1200; limit = 1000 })
    ≡ codes "a.md is over the read limit (1200 bytes; the limit is 1000)"
      ++ codes " and is left out of the skill; the served SKILL.md names it with where to fetch it."
unfolding describe_omitted_file
too_long_to_read = refl
