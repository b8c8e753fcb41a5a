-- ===== src/Reader/Order.antt =====
-- packages/reader/src/order.ts: the order of paths.
pub mod Laws
use Prim.Native.Nat.{Ordering, compare}
use skillcdn.Common.{ℕ, Bool, true, false, ◌&&◌, List, [], ◌∷◌, if◌then◌else◌, ltb}
use skillcdn.Common.Sort.{sort}
use skillcdn.Text.{Text}
use skillcdn.TextSafety.{is_high_surrogate, is_low_surrogate, pair_point}

-- `(c ∷ s).codePointAt(0)`.
unfoldable pub point_at : ℕ → Text → ℕ
point_at c [] = c
point_at c (d ∷ s) = if is_high_surrogate c && is_low_surrogate d then pair_point c d else c

-- The loop of `compareByteOrder` on what is left of both texts; `skip` is the second `index += 1`
-- of the round before.
unfoldable pub compare_from : Bool → Text → Text → Ordering
unfolding point_at
compare_from skip [] [] = Ordering.eq
compare_from skip [] (d ∷ t) = Ordering.lt
compare_from skip (c ∷ s) [] = Ordering.gt
compare_from true (c ∷ s) (d ∷ t) = compare_from false s t
compare_from false (c ∷ s) (d ∷ t) =
    let rest = compare_from (ltb 0xffff (point_at c s)) s t in
    elim (compare (point_at c s) (point_at d t)) [
      | Ordering.lt ↦ Ordering.lt
      | Ordering.gt ↦ Ordering.gt
      | Ordering.eq ↦ rest
    ]

unfoldable pub compare_byte_order : Text → Text → Ordering
unfolding compare_from
compare_byte_order a b = compare_from false a b

unfoldable pub sorted_by_path {ℓ} : {A : Type ℓ} → List A → (A → Text) → List A
unfolding sort compare_byte_order
sorted_by_path items path_of = sort (λ a b. compare_byte_order (path_of a) (path_of b)) items
