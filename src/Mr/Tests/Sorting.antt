-- ===== src/Mr/Tests/Sorting.antt =====
-- Sorting by insertion, for the tests.
use Prim.Native.String.{String}
use Prim.Native.String.compare
use mathlib.Core.List.Permᴰ
use mathlib.Core.List.{Permᴰ}
use mit6_824_labs.Prelude.{
  ◌≡◌, refl, List, [], ◌∷◌, true, false, arith, if◌then◌else◌, Bool-cases, inl, inr,
}
use mit6_824_labs.Mr.Keys.{KeyValue, less}
use mit6_824_labs.Mr.Grouping.Laws.{NoneLess, IsAscending}
use mit6_824_labs.Mr.Worker.{IsSort}

less_trans : (s t u : String) → less s t ≡ false → less t u ≡ false → less s u ≡ false
unfolding less
less_trans String.[] String.[] u p q = q
less_trans String.[] (String.◌∷◌ d t) u p q = absurd (ground (arith, compare.nil-cons d t))
less_trans (String.◌∷◌ c s) t String.[] p q = ground (arith, compare.cons-nil c s)
less_trans (String.◌∷◌ c s) String.[] (String.◌∷◌ e u) p q =
    absurd (ground (arith, compare.nil-cons e u))
less_trans (String.◌∷◌ c s) (String.◌∷◌ d t) (String.◌∷◌ e u) p q = ground (
  arith,
  compare.cons-cons c d s t,
  compare.cons-cons d e t u,
  compare.cons-cons c e s u,
  less_trans s t u,
)

less_asym : (s t : String) → less s t ≡ true → less t s ≡ false
unfolding less
less_asym String.[] String.[] p = refl
less_asym String.[] (String.◌∷◌ d t) p = ground (arith, compare.cons-nil d t)
less_asym (String.◌∷◌ c s) String.[] p = absurd (ground (arith, compare.cons-nil c s))
less_asym (String.◌∷◌ c s) (String.◌∷◌ d t) p =
    ground (arith, compare.cons-cons c d s t, compare.cons-cons d c t s, less_asym s t)

abbrev place : KeyValue → List KeyValue → List KeyValue
place kv [] = kv ∷ []
place kv (x ∷ xs) = let rest = place kv xs in if less x.key kv.key then x ∷ rest else kv ∷ x ∷ xs

abbrev pub insertion_sort : List KeyValue → List KeyValue
insertion_sort [] = []
insertion_sort (kv ∷ kvs) = place kv (insertion_sort kvs)

NoneLess-trans :
    (low high : String) (kvs : List KeyValue)
    → less high low ≡ false
    → NoneLess high kvs
    → NoneLess low kvs
NoneLess-trans low high [] h n = tt
NoneLess-trans low high (x ∷ xs) h (first, n) =
    (less_trans x.key high low first h, NoneLess-trans low high xs h n)

place-NoneLess :
    (key : String) (kv : KeyValue) (kvs : List KeyValue)
    → less kv.key key ≡ false
    → NoneLess key kvs
    → NoneLess key (place kv kvs)
place-NoneLess key kv [] h n = (h, tt)
place-NoneLess key kv (x ∷ xs) h (first, n) = elim (Bool-cases (less x.key kv.key)) [
  | inl e ↦ rw e (first, place-NoneLess key kv xs h n)
  | inr e ↦ rw e (h, (first, n))
]

place-IsAscending :
    (kv : KeyValue) (kvs : List KeyValue) → IsAscending kvs → IsAscending (place kv kvs)
place-IsAscending kv [] a = (tt, tt)
place-IsAscending kv (x ∷ xs) (least, a) = elim (Bool-cases (less x.key kv.key)) [
  | inl e ↦
      rw e (place-NoneLess x.key kv xs (less_asym x.key kv.key e) least, place-IsAscending kv xs a)
  | inr e ↦ rw e ((e, NoneLess-trans kv.key x.key xs e least), (least, a))
]

place-Permᴰ : (kv : KeyValue) (kvs : List KeyValue) → Permᴰ (place kv kvs) (kv ∷ kvs)
place-Permᴰ kv [] = Permᴰ.refl (kv ∷ [])
place-Permᴰ kv (x ∷ xs) = elim (Bool-cases (less x.key kv.key)) [
  | inl e ↦ rw e (Permᴰ.trans (Permᴰ.cons refl (place-Permᴰ kv xs)) (Permᴰ.swap refl refl))
  | inr e ↦ rw e (Permᴰ.refl (kv ∷ x ∷ xs))
]

pub insertion_sort-IsSort : IsSort insertion_sort
insertion_sort-IsSort = record { ascending = ascending; reorders = reorders }
  where
    ascending : (kvs : List KeyValue) → IsAscending (insertion_sort kvs)
    ascending [] = tt
    ascending (kv ∷ kvs) = place-IsAscending kv (insertion_sort kvs) (ascending kvs)

    reorders : (kvs : List KeyValue) → Permᴰ (insertion_sort kvs) kvs
    reorders [] = Permᴰ.nil
    reorders (kv ∷ kvs) =
        Permᴰ.trans (place-Permᴰ kv (insertion_sort kvs)) (Permᴰ.cons refl (reorders kvs))
