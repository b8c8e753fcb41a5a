-- ===== src/License/Laws.antt =====
-- Which source of a license speaks, and how closed a declared expression is.
use skillcdn.Common.{
  ◌≡◌, refl, sym, ◌∙◌, Bool, true, false, ◌||◌, List, [], ◌∷◌, ◌++◌, Option, none, some, suc, keep,
  find, length, any, All, inl, inr, arith, Option-cases,
}
use skillcdn.Text.{Text}
use skillcdn.RepoPath.{RepoPath}
use skillcdn.License.{
  LicenseFact, Recognized, no_license_fact, permissive, restrictive, no_license, kind_of,
}
use skillcdn.License.Field.{
  recognize_all, non_empty, split_parts, classify_expression, classify_license_field,
}
use skillcdn.License.Ids.{recognize_id}
use skillcdn.License.Files.{serves_in_full}
use skillcdn.License.Governing.{
  LicenseField, LicenseSources, classify_optional, first_declared, is_nested, is_at_root, or_none,
  resolve_license,
}

-- The first of some optional facts, or that there is none.
abbrev pub first_of : List (Option LicenseFact) → LicenseFact
first_of [] = no_license_fact
first_of (none ∷ facts) = first_of facts
first_of (some fact ∷ facts) = fact

abbrev pub declared_by : List LicenseField → List (Option LicenseFact)
declared_by [] = []
declared_by (field ∷ fields) = classify_license_field field.path field.value ∷ declared_by fields

-- The sources in the order of their say.
abbrev pub in_order : LicenseSources → List (Option LicenseFact)
in_order sources =
    sources.skill_file
    ∷ classify_optional sources.skill_field
    ∷ (declared_by (keep is_nested sources.manifest_fields)
        ++ (sources.root_file ∷ classify_optional (find is_at_root sources.manifest_fields) ∷ []))

or_else : Option LicenseFact → LicenseFact → LicenseFact
or_else none other = other
or_else (some fact) other = fact

first_of-declared :
    (fields : List LicenseField) (facts : List (Option LicenseFact))
    → first_of (declared_by fields ++ facts)
      ≡ elim (first_declared fields) [ none ↦ first_of facts | some fact ↦ fact ]
unfolding first_declared
first_of-declared [] facts = refl
first_of-declared (field ∷ fields) facts =
    elim (Option-cases (classify_license_field field.path field.value)) [
      | inl e ↦ rw (e, first_declared) (first_of-declared fields facts)
      | inr (fact, e) ↦ rw (e, first_declared) refl
    ]

-- The license is what the first source says that says anything: the file of the skill, its field,
-- the fields of the manifests below the root in their order, the file of the repository and the field
-- of its root manifest; where none does, the repository says nothing.
pub resolve_license_lem :
    (sources : LicenseSources) → resolve_license sources ≡ first_of (in_order sources)
unfolding resolve_license
resolve_license_lem sources = go sources.skill_file (classify_optional sources.skill_field)
  where
    root : Option LicenseFact
    root = classify_optional (find is_at_root sources.manifest_fields)

    ends :
        (file from_root : Option LicenseFact)
        → elim file [ some fact ↦ fact | none ↦ or_none from_root ]
          ≡ first_of (file ∷ from_root ∷ [])
    ends (some fact) r = refl
    ends none (some fact) = refl
    ends none none = refl

    later :
        (o : Option LicenseFact)
        → elim o [
          | some fact ↦ fact
          | none ↦ elim sources.root_file [ some fact ↦ fact | none ↦ or_none root ]
        ]
          ≡ elim o [ none ↦ first_of (sources.root_file ∷ root ∷ []) | some fact ↦ fact ]
    later none = ends sources.root_file root
    later (some fact) = refl

    go :
        (file field : Option LicenseFact)
        → elim file [
          | some fact ↦ fact
          | none ↦ elim field [
            | some declared ↦ declared
            | none ↦ elim (first_declared (keep is_nested sources.manifest_fields)) [
              | some fact ↦ fact
              | none ↦ elim sources.root_file [ some fact ↦ fact | none ↦ or_none root ]
            ]
          ]
        ]
          ≡ first_of (
              file
              ∷ field
              ∷ (declared_by (keep is_nested sources.manifest_fields)
                  ++ (sources.root_file ∷ root ∷ [])))
    go (some fact) field = refl
    go none (some fact) = refl
    go none none =
        later (first_declared (keep is_nested sources.manifest_fields))
        ∙ sym (
            first_of-declared (keep is_nested sources.manifest_fields)
              (sources.root_file ∷ root ∷ []))

-- The parts of an expression, each recognized and open.
abbrev pub IsOpen : Text → Type 0
IsOpen part = (r : Recognized) × (recognize_id part ≡ some r) × (r.is_restrictive ≡ false)

recognize_all-IsOpen :
    (parts : List Text) (rs : List Recognized)
    → recognize_all parts ≡ some rs
    → any (λ r. r.is_restrictive) rs ≡ false
    → All IsOpen parts
unfolding recognize_all
recognize_all-IsOpen [] rs h k = tt
recognize_all-IsOpen (part ∷ parts) rs h k = elim (Option-cases (recognize_id part)) [
  | inl e ↦ cc (rw (e, recognize_all) at h)
  | inr (r, e) ↦ elim (Option-cases (recognize_all parts)) [
    | inl f ↦ cc (rw (e, f, recognize_all) at h)
    | inr (others, f) ↦
        let q : rs ≡ r ∷ others = cc (rw (e, f, recognize_all) at h) in
        let both : (r.is_restrictive || any (λ r. r.is_restrictive) others) ≡ false = rw q at k in
        ((r, e, ground arith), recognize_all-IsOpen parts others f (ground arith))
  ]
]

-- An expression is as closed as its most closed part: where it is served in full without being
-- verified, every part of it is an identifier that the reader knows, and none of them is restrictive.
pub serves-classify_expression :
    (path : RepoPath) (declared : Text)
    → serves_in_full (classify_expression path declared) false ≡ true
    → All IsOpen (non_empty (split_parts (suc (length declared)) declared))
unfolding classify_expression serves_in_full
serves-classify_expression path declared h =
    elim (Option-cases (recognize_all (non_empty (split_parts (suc (length declared)) declared)))) [
      | inl e ↦ cc (rw (e, classify_expression, serves_in_full) at h)
      | inr (rs, e) ↦
          recognize_all-IsOpen (non_empty (split_parts (suc (length declared)) declared)) rs e (
            open_kind (any (λ r. r.is_restrictive) rs)
              (rw (e, classify_expression, serves_in_full) at h))
    ]
  where
    open_kind :
        (b : Bool)
        → elim (kind_of b) [ restrictive ↦ false | permissive ↦ true | no_license ↦ true ] ≡ true
        → b ≡ false
    open_kind true h = cc
    open_kind false h = refl
