-- ===== src/Mr/Keys.antt =====
-- Keys of MapReduce: Go's < on strings, and the pairs of src/mr/worker.go.
use Prim.Native.Nat.{Ordering, compare as compare_nat}
use Prim.Native.Char.{code}
use Prim.Native.String.{String, compare, then}
use Prim.Native.String.compare
use mit6_824_labs.Prelude.{ℕ, ◌≡◌, refl, ap, ◌∙◌, sym, Bool, true, false, arith, ap}
use mit6_824_labs.GoMap.{string_eq, ◌==◌}

-- Texts: strings that encoding/json gives back, that is valid UTF-8.
pub record KeyValue : Type 0 where
  pub key : String
  pub value : String

-- s < t
unfoldable pub less : String → String → Bool
less s t = elim (compare s t) [ Ordering.lt ↦ true | Ordering.eq ↦ false | Ordering.gt ↦ false ]

flip : Ordering → Ordering
flip Ordering.lt = Ordering.gt
flip Ordering.eq = Ordering.eq
flip Ordering.gt = Ordering.lt

flip-then : (o p : Ordering) → flip (then o p) ≡ then (flip o) (flip p)
unfolding flip
flip-then Ordering.lt p = refl
flip-then Ordering.eq p = refl
flip-then Ordering.gt p = refl

flip-compare_nat : (m n : ℕ) → compare_nat n m ≡ flip (compare_nat m n)
unfolding flip
flip-compare_nat m n = ground arith

flip-compare : (s t : String) → compare t s ≡ flip (compare s t)
unfolding flip
flip-compare String.[] String.[] = refl
flip-compare String.[] (String.◌∷◌ d t) =
    compare.cons-nil d t ∙ sym (ap flip (compare.nil-cons d t))
flip-compare (String.◌∷◌ c s) String.[] =
    compare.nil-cons c s ∙ sym (ap flip (compare.cons-nil c s))
flip-compare (String.◌∷◌ c s) (String.◌∷◌ d t) =
    compare.cons-cons d c t s
    ∙ ap (λ o. then o (compare t s)) (flip-compare_nat (code c) (code d))
    ∙ ap (then (flip (compare_nat (code c) (code d)))) (flip-compare s t)
    ∙ sym (flip-then (compare_nat (code c) (code d)) (compare s t))
    ∙ sym (ap flip (compare.cons-cons c d s t))

-- Of two different keys one is less.
pub less_other : (s t : String) → less s t ≡ false → (s == t) ≡ false → less t s ≡ true
unfolding less flip
less_other s t not_less differs = ground (arith, flip-compare s t)
