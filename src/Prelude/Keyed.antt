-- ===== src/Prelude/Keyed.antt =====
-- Maps that index a list by a key of its elements.
use mathlib.Core.Path.{◌≡◌, refl, subst, ◌∙◌}
use mathlib.Core.Bool.{Bool, true, false}
use mathlib.Core.Option.{Option, none, some}
use mathlib.Core.List.{List, [], ◌∷◌, map}
use native.Mathlib.Omega.{arith}
use ingress_controller.Prelude.Tests.{Eq, ◌==◌, if◌then◌else◌, if-elim, first_of}
use ingress_controller.Prelude.Map.{
  Map, lookup, insert, remove_where, insert_all, has_key, lookup-insert, lookup-remove_where,
}
use ingress_controller.Prelude.Sort.{sort, insert_sorted}

module _ {K V : Type 0} ⦃e : Eq K⦄ (key : V → Option K) where
  abbrev pub is_at : K → Option K → Bool
  is_at k none = false
  is_at k (some j) = j == k

  -- The first element with the key.
  unfoldable pub find_by : K → List V → Option V
  find_by k [] = none
  find_by k (v ∷ vs) = if is_at k (key v) then some v else find_by k vs

  -- Each entry stands under the key of its value, and no key stands twice.
  abbrev pub IsIndex : Map K V → Type 0
  IsIndex [] = Unit
  IsIndex ((k, v) ∷ m) = (key v ≡ some k) × (lookup k m ≡ none) × IsIndex m

  pub insert-IsIndex :
      (k : K) (v : V) (m : Map K V) → key v ≡ some k → IsIndex m → IsIndex (insert k v m)
  unfolding insert lookup
  insert-IsIndex k v [] h hm = (h, refl, tt)
  insert-IsIndex k v ((j, w) ∷ m) h hm =
      if-elim IsIndex (j == k) (λ q. (h, ground (arith, hm.1, e.beq_iff j k, q), hm.2))
        (λ q. (
          hm.0,
          ground (arith, hm.1, q, lookup-insert k j v m, e.beq_iff j k, e.beq_iff k j),
          insert-IsIndex k v m h hm.2,
        ))

  pub remove_where-IsIndex : (p : K → Bool) (m : Map K V) → IsIndex m → IsIndex (remove_where p m)
  unfolding remove_where
  remove_where-IsIndex p [] h = tt
  remove_where-IsIndex p ((j, w) ∷ m) h =
      if-elim IsIndex (p j) (λ q. remove_where-IsIndex p m h.2)
        (λ q. (h.0, ground (arith, h.1, lookup-remove_where p j m), remove_where-IsIndex p m h.2))

  -- What a sorted list has under a key.
  pub find_by-insert_sorted :
      (less : V → V → Bool) (k j : K) (v : V) (vs : List V)
      → key v ≡ some j
      → find_by j vs ≡ none
      → find_by k (insert_sorted less v vs) ≡ (if j == k then some v else find_by k vs)
  unfolding insert_sorted find_by
  find_by-insert_sorted less k j v [] h n = ground arith
  find_by-insert_sorted less k j v (w ∷ vs) h n =
      ground (arith, find_by-insert_sorted less k j v vs h, e.beq_iff j k)

  -- The sorted values of an index are found under their keys.
  pub find_by-sort :
      (less : V → V → Bool) (k : K) (m : Map K V)
      → IsIndex m
      → find_by k (sort less (map (λ (_, v). v) m)) ≡ lookup k m
  unfolding sort find_by lookup
  find_by-sort less k [] h = refl
  find_by-sort less k ((j, v) ∷ m) h = ground (
    arith,
    find_by-sort less k m h.2,
    find_by-sort less j m h.2,
    h.0,
    h.1,
    find_by-insert_sorted less k j v (sort less (map (λ (_, w). w) m)),
  )

  pub insert_all-IsIndex : (m src : Map K V) → IsIndex m → IsIndex src → IsIndex (insert_all m src)
  unfolding insert_all
  insert_all-IsIndex m [] h hs = h
  insert_all-IsIndex m ((k, v) ∷ src) h hs =
      insert_all-IsIndex (insert k v m) src (insert-IsIndex k v m hs.0 h) hs.2

  -- The new entries take the place of the old ones.
  pub lookup-insert_all :
      (k : K) (m src : Map K V)
      → IsIndex src
      → lookup k (insert_all m src) ≡ first_of (lookup k src) (lookup k m)
  unfolding insert_all lookup
  lookup-insert_all k m [] h = refl
  lookup-insert_all k m ((j, v) ∷ src) h =
      ground (
        arith,
        lookup-insert_all k (insert j v m) src h.2,
        lookup-insert j k v m,
        e.beq_iff j k,
        h.1,
      )

  -- An element that is stored under its new key comes before the rest of the list.
  pub insert-find_by :
      (k j : K) (v : V) (m : Map K V) (vs : List V)
      → key v ≡ some j
      → has_key j m ≡ false
      → first_of (lookup k (insert j v m)) (find_by k vs)
        ≡ first_of (lookup k m) (find_by k (v ∷ vs))
  unfolding find_by has_key
  insert-find_by k j v m vs h fresh =
      let fresh' : (j == k) ≡ true → has_key k m ≡ false =
        λ q. subst (λ i. has_key i m ≡ false) ((e.beq_iff j k).0 q) fresh in
      ground (arith, lookup-insert j k v m, fresh', h)

  -- Each element has a key, and no two have the same.
  abbrev pub IsDistinct : List V → Type 0
  IsDistinct [] = Unit
  IsDistinct (v ∷ vs) = (j : K) × (key v ≡ some j) × (find_by j vs ≡ none) × IsDistinct vs

  insert_sorted-IsDistinct :
      (less : V → V → Bool) (j : K) (v : V) (vs : List V)
      → key v ≡ some j
      → find_by j vs ≡ none
      → IsDistinct vs
      → IsDistinct (insert_sorted less v vs)
  unfolding insert_sorted find_by
  insert_sorted-IsDistinct less j v [] h n d = (j, h, refl, tt)
  insert_sorted-IsDistinct less j v (w ∷ ws) h n (i, hw, nw, dw) =
      if-elim IsDistinct (less w v)
        (λ q. (
          i,
          hw,
          ground (
            arith,
            find_by-insert_sorted less i j v ws h,
            n,
            nw,
            hw,
            e.beq_iff j i,
            e.beq_iff i j,
          ),
          insert_sorted-IsDistinct less j v ws h (ground (arith, n, hw)) dw,
        ))
        (λ q. (j, h, n, (i, hw, nw, dw)))

  -- The sorted values of an index have distinct keys.
  pub sort-IsDistinct :
      (less : V → V → Bool) (m : Map K V) → IsIndex m → IsDistinct (sort less (map (λ (_, v). v) m))
  unfolding sort
  sort-IsDistinct less [] h = tt
  sort-IsDistinct less ((j, v) ∷ m) h =
      insert_sorted-IsDistinct less j v (sort less (map (λ (_, w). w) m)) h.0
        (find_by-sort less j m h.2 ∙ h.1) (sort-IsDistinct less m h.2)

  -- Sorting a list with distinct keys keeps what stands under each.
  pub find_by-sort-IsDistinct :
      (less : V → V → Bool) (k : K) (vs : List V)
      → IsDistinct vs
      → find_by k (sort less vs) ≡ find_by k vs
  unfolding sort find_by
  find_by-sort-IsDistinct less k [] d = refl
  find_by-sort-IsDistinct less k (v ∷ vs) (j, h, n, d) = ground (
    arith,
    find_by-sort-IsDistinct less k vs d,
    find_by-insert_sorted less k j v (sort less vs) h (find_by-sort-IsDistinct less j vs d ∙ n),
    h,
  )
