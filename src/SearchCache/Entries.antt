-- ===== src/SearchCache/Entries.antt =====
-- The map of the answers that are kept: its keys, its size and what is found in it.
use skillcdn.Common.{
  ℕ, zero, suc, ◌≤◌, ◌<◌, ◌≡◌, refl, sym, ap, ◌∙◌, false, List, [], ◌∷◌, ◌++◌, none, some, ltb,
  arith, length, Bool-cases, inl, inr, All, All-append,
}
use skillcdn.Text.{Text, same}
use skillcdn.Text.Compare.{same_iff, same_refl, same_ne}
use skillcdn.SearchCache.{get, delete, put_last, evict}

same_comm : (a b : Text) → same a b ≡ same b a
same_comm a b = elim (Bool-cases (same a b)) [
  | inl e ↦ e ∙ sym ((same_iff b a).1 (sym ((same_iff a b).0 e)))
  | inr n ↦ n ∙ sym (same_ne b a (λ q. cc (n, (same_iff a b).1 (sym q))))
]

module _ {V : Type 0} where
  -- The entries whose keys differ from a key, and the maps whose keys are distinct.
  abbrev pub Misses : Text → List (Text × V) → Type 0
  Misses key = All (λ e. same e.0 key ≡ false)

  abbrev pub HasDistinctKeys : List (Text × V) → Type 0
  HasDistinctKeys [] = Unit
  HasDistinctKeys ((k, v) ∷ map) = Misses k map × HasDistinctKeys map

  pub delete-Misses : (map : List (Text × V)) (key : Text) → Misses key (delete map key)
  unfolding delete
  delete-Misses [] key = tt
  delete-Misses ((k, v) ∷ map) key = elim (Bool-cases (same k key)) [
    | inl e ↦ rw e (delete-Misses map key)
    | inr n ↦ rw n (n, delete-Misses map key)
  ]

  delete-keeps-Misses :
      (map : List (Text × V)) (key other : Text) → Misses other map → Misses other (delete map key)
  unfolding delete
  delete-keeps-Misses [] key other h = tt
  delete-keeps-Misses ((k, v) ∷ map) key other (h, hs) = elim (Bool-cases (same k key)) [
    | inl e ↦ rw e (delete-keeps-Misses map key other hs)
    | inr n ↦ rw n (h, delete-keeps-Misses map key other hs)
  ]

  pub delete-HasDistinctKeys :
      (map : List (Text × V)) (key : Text) → HasDistinctKeys map → HasDistinctKeys (delete map key)
  unfolding delete
  delete-HasDistinctKeys [] key h = tt
  delete-HasDistinctKeys ((k, v) ∷ map) key (h, hs) = elim (Bool-cases (same k key)) [
    | inl e ↦ rw e (delete-HasDistinctKeys map key hs)
    | inr n ↦ rw n (delete-keeps-Misses map key k h, delete-HasDistinctKeys map key hs)
  ]

  pub length-delete : (map : List (Text × V)) (key : Text) → length (delete map key) ≤ length map
  unfolding delete
  length-delete [] key = omega arith
  length-delete ((k, v) ∷ map) key = ground (arith, length-delete map key)

  delete_of_Misses : (map : List (Text × V)) (key : Text) → Misses key map → delete map key ≡ map
  unfolding delete
  delete_of_Misses [] key h = refl
  delete_of_Misses ((k, v) ∷ map) key (h, hs) = rw (h, delete_of_Misses map key hs) refl

  -- A key that is there is deleted once.
  pub length-delete-get :
      (map : List (Text × V)) (key : Text) (v : V)
      → HasDistinctKeys map
      → get map key ≡ some v
      → suc (length (delete map key)) ≡ length map
  unfolding delete get
  length-delete-get [] key v h e = cc
  length-delete-get ((k, w) ∷ map) key v (h, hs) e = elim (Bool-cases (same k key)) [
    | inl here ↦
        let at_key : k ≡ key = (same_iff k key).0 here in
        rw here (ap (λ m. suc (length m)) (delete_of_Misses map key (rw at_key at h)))
    | inr n ↦ rw n (ap suc (length-delete-get map key v hs (rw n at e)))
  ]

  Misses-append :
      (map : List (Text × V)) (k other : Text) (v : V)
      → Misses other map
      → same k other ≡ false
      → Misses other (map ++ ((k, v) ∷ []))
  Misses-append map k other v h n = All-append (λ e. same e.0 other ≡ false) map _ h (n, tt)

  pub append-HasDistinctKeys :
      (map : List (Text × V)) (key : Text) (v : V)
      → HasDistinctKeys map
      → Misses key map
      → HasDistinctKeys (map ++ ((key, v) ∷ []))
  append-HasDistinctKeys [] key v h m = (tt, tt)
  append-HasDistinctKeys ((k, w) ∷ map) key v (h, hs) (m, ms) =
      (Misses-append map key k v h (same_comm key k ∙ m), append-HasDistinctKeys map key v hs ms)

  pub put_last-HasDistinctKeys :
      (map : List (Text × V)) (key : Text) (v : V)
      → HasDistinctKeys map
      → HasDistinctKeys (put_last map key v)
  unfolding put_last
  put_last-HasDistinctKeys map key v h =
      append-HasDistinctKeys (delete map key) key v (delete-HasDistinctKeys map key h)
        (delete-Misses map key)

  pub get-none-Misses : (map : List (Text × V)) (key : Text) → get map key ≡ none → Misses key map
  unfolding get
  get-none-Misses [] key h = tt
  get-none-Misses ((k, v) ∷ map) key h = elim (Bool-cases (same k key)) [
    | inl e ↦ cc (rw e at h)
    | inr n ↦ (n, get-none-Misses map key (rw n at h))
  ]

  pub get-append :
      (map : List (Text × V)) (key : Text) (v : V)
      → Misses key map
      → get (map ++ ((key, v) ∷ [])) key ≡ some v
  unfolding get
  get-append [] key v h = rw (same_refl key) refl
  get-append ((k, w) ∷ map) key v (h, hs) = rw h (get-append map key v hs)

  pub evict-HasDistinctKeys :
      (fuel entries : ℕ) (map : List (Text × V))
      → HasDistinctKeys map
      → HasDistinctKeys (evict fuel entries map)
  unfolding evict
  evict-HasDistinctKeys zero entries map h = h
  evict-HasDistinctKeys (suc fuel) entries [] h = tt
  evict-HasDistinctKeys (suc fuel) entries (e ∷ map) (h, hs) =
      elim (Bool-cases (ltb entries (suc (length map)))) [
        | inl over ↦ rw (over, evict) (evict-HasDistinctKeys fuel entries map hs)
        | inr room ↦ rw (room, evict) (h, hs)
      ]

  -- The fuel is enough: what is left is within the limit.
  pub length-evict :
      (fuel entries : ℕ) (map : List (Text × V))
      → length map ≤ fuel
      → length (evict fuel entries map) ≤ entries
  unfolding evict
  length-evict zero entries [] h = omega arith
  length-evict zero entries (e ∷ map) h = absurd (omega arith)
  length-evict (suc fuel) entries [] h = omega arith
  length-evict (suc fuel) entries (e ∷ map) h = elim (Bool-cases (ltb entries (suc (length map)))) [
    | inl over ↦ rw (over, evict) (length-evict fuel entries map (omega arith))
    | inr room ↦ rw (room, evict) (ground arith)
  ]

  -- The newest entry is never let go of, where one is allowed at all.
  pub evict-append :
      (fuel entries : ℕ) (map : List (Text × V)) (key : Text) (v : V)
      → 0 < entries
      → Misses key map
      → get (evict fuel entries (map ++ ((key, v) ∷ []))) key ≡ some v
  unfolding evict get
  evict-append zero entries map key v h m = get-append map key v m
  evict-append (suc fuel) entries [] key v h m =
      let room : ltb entries 1 ≡ false = ground arith in rw (room, same_refl key, evict, get) refl
  evict-append (suc fuel) entries (e ∷ map) key v h (m, ms) =
      elim (Bool-cases (ltb entries (suc (length (map ++ ((key, v) ∷ [])))))) [
        | inl over ↦ rw (over, evict) (evict-append fuel entries map key v h ms)
        | inr room ↦ rw (room, m, evict, get) (get-append map key v ms)
      ]
