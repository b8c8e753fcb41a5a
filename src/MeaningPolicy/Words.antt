-- ===== src/MeaningPolicy/Words.antt =====
-- What the entries say of a directory: the loop over the entries of
-- packages/core/src/search/meaning-policy.ts against the last manifest of the directory.
use skillcdn.Common.{
  ◌≡◌, refl, ap, subst, ◌∙◌, ◌⊎◌, inl, inr, Bool, true, List, [], ◌∷◌, arith, none, some,
  if◌then◌else◌, Bool-cases, All, ◌++◌, ◌↔◌, Option, false,
}
use skillcdn.Text.{Text, codes, same}
use skillcdn.Text.Compare.{same_iff, same_refl, same→eq}
use skillcdn.MeaningPolicy.{
  PolicyEntry, is_on, directory_of, get_manifest, set_manifest, manifests_of,
}

-- An entry that is the manifest of a directory.
pub record IsManifestOf (q : Text) (entry : PolicyEntry) : Type 0 where
  pub manifest : entry.kind ≡ codes "manifest"
  pub place : directory_of entry.path ≡ q

-- No entry is the manifest of a directory.
abbrev pub HasNone : List PolicyEntry → Text → Type 0
HasNone entries q = All (λ e. ¬ (IsManifestOf q e)) entries

-- The last of the entries that is the manifest of a directory turns the search off only by `false`.
pub record IsLastWord (entries : List PolicyEntry) (q : Text) (on : Bool) : Type 0 where
  pub before : List PolicyEntry
  pub entry : PolicyEntry
  pub after : List PolicyEntry
  pub all_entries : entries ≡ before ++ (entry ∷ after)
  pub is_manifest : IsManifestOf q entry
  pub none_after : HasNone after q
  pub off_iff : (on ≡ false) ↔ (entry.meaning ≡ some false)

is_on_iff : (o : Option Bool) → (is_on o ≡ false) ↔ (o ≡ some false)
is_on_iff none = (λ h. cc, λ h. cc)
is_on_iff (some true) = (λ h. cc, λ h. cc)
is_on_iff (some false) = (λ h. refl, λ h. refl)

get-set_same :
    (m : List (Text × Bool)) (key : Text) (v : Bool)
    → get_manifest (set_manifest m key v) key ≡ some v
unfolding get_manifest set_manifest
get-set_same [] key v = rw (same_refl key) refl
get-set_same ((k, w) ∷ m) key v = elim (Bool-cases (same k key)) [
  | inl here ↦ ground arith
  | inr not_here ↦ rw (not_here, not_here) (get-set_same m key v)
]

get-set_other :
    (m : List (Text × Bool)) (key q : Text) (v : Bool)
    → same key q ≡ false
    → get_manifest (set_manifest m key v) q ≡ get_manifest m q
unfolding get_manifest set_manifest
get-set_other [] key q v h = rw h refl
get-set_other ((k, w) ∷ m) key q v h = elim (Bool-cases (same k key)) [
  | inl here ↦
      let e : k ≡ key = same→eq k key here in
      let off : same k q ≡ false = rw e h in rw (here, off) refl
  | inr not_here ↦ rw not_here (step (Bool-cases (same k q)) (get-set_other m key q v h))
]
  where
    step :
        (same k q ≡ true) ⊎ (same k q ≡ false)
        → get_manifest (set_manifest m key v) q ≡ get_manifest m q
        → get_manifest ((k, w) ∷ set_manifest m key v) q ≡ get_manifest ((k, w) ∷ m) q
    step (inl e) rest = rw e refl
    step (inr e) rest = rw e rest

-- The word of the entries on a directory, and what was set before them.
abbrev Word : List (Text × Bool) → List PolicyEntry → Text → Option Bool → Type 0
Word m entries q o =
    ((on : Bool) × (o ≡ some on) × IsLastWord entries q on)
    ⊎ (HasNone entries q × (o ≡ get_manifest m q))

-- What one entry sets of a directory.
abbrev Noted : List (Text × Bool) → List (Text × Bool) → PolicyEntry → Text → Type 0
Noted m n entry q =
    (IsManifestOf q entry × (get_manifest n q ≡ some (is_on entry.meaning)))
    ⊎ ((¬ (IsManifestOf q entry)) × (get_manifest n q ≡ get_manifest m q))

entry-Noted :
    (m : List (Text × Bool)) (entry : PolicyEntry) (q : Text)
    → Noted m
        (if same entry.kind (codes "manifest")
          then set_manifest m (directory_of entry.path) (is_on entry.meaning)
          else m)
        entry
        q
entry-Noted m entry q = elim (Bool-cases (same entry.kind (codes "manifest"))) [
  | inr other ↦
      rw other (inr (λ h. cc (other, (same_iff entry.kind (codes "manifest")).1 h.manifest), refl))
  | inl here ↦ rw here (go here (Bool-cases (same (directory_of entry.path) q)))
]
  where
    go :
        same entry.kind (codes "manifest") ≡ true
        → (same (directory_of entry.path) q ≡ true) ⊎ (same (directory_of entry.path) q ≡ false)
        → Noted m (set_manifest m (directory_of entry.path) (is_on entry.meaning)) entry q
    go here (inl at) =
        let e = same→eq (directory_of entry.path) q at in
        inl (
          record { manifest = (same_iff entry.kind (codes "manifest")).0 here; place = e },
          subst
              (λ x.
                get_manifest (set_manifest m (directory_of entry.path) (is_on entry.meaning)) x
                ≡ some (is_on entry.meaning))
              e (get-set_same m (directory_of entry.path) (is_on entry.meaning)),
        )
    go here (inr away) = inr (
      λ h. cc (away, (same_iff (directory_of entry.path) q).1 h.place),
      get-set_other m (directory_of entry.path) q (is_on entry.meaning) away,
    )

Word-cons :
    (m n : List (Text × Bool)) (entry : PolicyEntry) (entries : List PolicyEntry) (q : Text)
    (o : Option Bool)
    → Noted m n entry q
    → Word n entries q o
    → Word m (entry ∷ entries) q o
Word-cons m n entry entries q o noted (inl (on, e, w)) = inl (
  on,
  e,
  record {
    before = entry ∷ w.before;
    entry = w.entry;
    after = w.after;
    all_entries = ap (λ es. entry ∷ es) w.all_entries;
    is_manifest = w.is_manifest;
    none_after = w.none_after;
    off_iff = w.off_iff;
  },
)
Word-cons m n entry entries q o (inl (manifest, e)) (inr (none_later, f)) = inl (
  is_on entry.meaning,
  f ∙ e,
  record {
    before = [];
    entry = entry;
    after = entries;
    all_entries = refl;
    is_manifest = manifest;
    none_after = none_later;
    off_iff = is_on_iff entry.meaning;
  },
)
Word-cons m n entry entries q o (inr (other, e)) (inr (none_later, f)) =
    inr ((other, none_later), f ∙ e)

manifests_of-Word :
    (entries : List PolicyEntry) (m : List (Text × Bool)) (q : Text)
    → Word m entries q (get_manifest (manifests_of m entries) q)
unfolding manifests_of
manifests_of-Word [] m q = inr (tt, refl)
manifests_of-Word (entry ∷ entries) m q =
    Word-cons m _ entry entries q _ (entry-Noted m entry q) (manifests_of-Word entries _ q)

pub none_said :
    (entries : List PolicyEntry) (q : Text)
    → get_manifest (manifests_of [] entries) q ≡ none
    → HasNone entries q
none_said entries q h = elim (manifests_of-Word entries [] q) [
  | inl (on, e, w) ↦ cc
  | inr (unsaid, e) ↦ unsaid
]

nothing_set : (q : Text) → get_manifest [] q ≡ none
unfolding get_manifest
nothing_set q = refl

pub word_said :
    (entries : List PolicyEntry) (q : Text) (on : Bool)
    → get_manifest (manifests_of [] entries) q ≡ some on
    → IsLastWord entries q on
word_said entries q on h = elim (manifests_of-Word entries [] q) [
  | inl (also, e, w) ↦ let same_word : also ≡ on = cc in subst (IsLastWord entries q) same_word w
  | inr (unsaid, e) ↦ cc (nothing_set q)
]
