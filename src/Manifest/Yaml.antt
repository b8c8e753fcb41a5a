-- ===== src/Manifest/Yaml.antt =====
-- `parseFrontMatter` of packages/core/src/front-matter.ts. The YAML package is a function of the text:
-- what it finds wrong, that a node has a tag, that it throws, or the value. Only the hint of a message
-- is left out.
use skillcdn.Common.{ltb, if◌then◌else◌, length, Option, none, some}
use skillcdn.Text.{Text}
use skillcdn.Result.{Result, ok, err}
use skillcdn.Markdown.FrontMatter.{max_front_matter_length}
use skillcdn.Manifest.Values.{Value, Fields, null, text, flag, sequence, mapping, other, end}

pub data YamlOutcome : Type 0 where
  problem : Text → YamlOutcome
  tagged : YamlOutcome
  thrown : YamlOutcome
  value : Option Value → YamlOutcome

pub data FrontMatterErrorCode : Type 0 where
  too_large invalid_yaml not_a_mapping : FrontMatterErrorCode

-- What is left of a value that is neither `null` nor `undefined`.
abbrev pub as_mapping : Option Value → Result Fields FrontMatterErrorCode
as_mapping none = ok end
as_mapping (some null) = ok end
as_mapping (some (mapping fields)) = ok fields
as_mapping (some (text t)) = err not_a_mapping
as_mapping (some (flag b)) = err not_a_mapping
as_mapping (some (sequence vs)) = err not_a_mapping
as_mapping (some other) = err not_a_mapping

abbrev pub fields_of : YamlOutcome → Result Fields FrontMatterErrorCode
fields_of (problem code) = err invalid_yaml
fields_of tagged = err invalid_yaml
fields_of thrown = err invalid_yaml
fields_of (value v) = as_mapping v

unfoldable pub parse_front_matter : (Text → YamlOutcome) → Text → Result Fields FrontMatterErrorCode
parse_front_matter yaml source =
    if ltb max_front_matter_length (length source) then err too_large else fields_of (yaml source)
