-- ===== src/Mr/Worker/Names.antt =====
-- The names of the intermediate files are different for different tasks.
use Prim.Native.Char.{Char, char, code}
use Prim.Native.String.{String, ◌++◌ as ◌<>◌}
use text.Mathlib.TextLemmas.{append_cancel_left, cons-append, nil-append}
use text.Mathlib.TextEquality.{codes_equal}
use text.Mathlib.TextPositions.{compare_self}
use mit6_824_labs.Prelude.{ℕ, ◌≡◌, ◌≢◌, refl, sym, ap, ◌∙◌}
use mit6_824_labs.GoMap.{string_eq}
use mit6_824_labs.Mr.Worker.{map_out}

abbrev pub NoDash : String → Type 0
NoDash String.[] = Unit
NoDash (String.◌∷◌ c s) = (code c ≢ 45) × NoDash s

-- What strconv.Itoa documents of numbers that are not negative: decimal digits, different for
-- different numbers.
pub record IsItoa (itoa : ℕ → String) : Type 0 where
  pub digits : (n : ℕ) → NoDash (itoa n)
  pub injective : (m n : ℕ) → itoa m ≡ itoa n → m ≡ n

abbrev first_code : String → ℕ
first_code String.[] = 0
first_code (String.◌∷◌ c s) = code c

abbrev behind_first : String → String
behind_first String.[] = String.[]
behind_first (String.◌∷◌ c s) = s

abbrev dash : Char
dash = char 45 tt

dash-append : (s : String) → "-" <> s ≡ String.◌∷◌ dash s
dash-append s = cons-append dash String.[] s ∙ ap (String.◌∷◌ dash) (nil-append s)

split_at_dash :
    (s t u v : String) → NoDash s → NoDash t → s <> ("-" <> u) ≡ t <> ("-" <> v) → (s ≡ t) × (u ≡ v)
split_at_dash String.[] String.[] u v n m e =
    (refl, append_cancel_left "-" u v (sym (nil-append ("-" <> u)) ∙ e ∙ nil-append ("-" <> v)))
split_at_dash String.[] (String.◌∷◌ d t) u v n (no_dash, m) e = absurd (
    no_dash (
      sym (
        ap first_code
          (sym (dash-append u) ∙ sym (nil-append ("-" <> u)) ∙ e ∙ cons-append d t ("-" <> v)))))
split_at_dash (String.◌∷◌ c s) String.[] u v (no_dash, n) m e = absurd (
    no_dash (
      ap first_code (sym (cons-append c s ("-" <> u)) ∙ e ∙ nil-append ("-" <> v) ∙ dash-append v)))
split_at_dash (String.◌∷◌ c s) (String.◌∷◌ d t) u v (_, n) (_, m) e =
    let whole = sym (cons-append c s ("-" <> u)) ∙ e ∙ cons-append d t ("-" <> v) in
    let (tails, ends) = split_at_dash s t u v n m (ap behind_first whole) in
    (cons_path c d s t (ap first_code whole) tails, ends)
  where
    cons_path :
        (c d : Char) (s t : String) → code c ≡ code d → s ≡ t → String.◌∷◌ c s ≡ String.◌∷◌ d t
    cons_path c d s t p q =
        ap (λ x. String.◌∷◌ x s) (codes_equal c d (rw p (compare_self (code d))))
        ∙ ap (String.◌∷◌ d) q

module _ (itoa : ℕ → String) (sum32 : String → ℕ) (is_itoa : IsItoa itoa) where
  pub map_out_inj :
      (i r j k : ℕ) → map_out itoa sum32 i r ≡ map_out itoa sum32 j k → (i ≡ j) × (r ≡ k)
  map_out_inj i r j k e =
      let (p, q) =
        split_at_dash (itoa i) (itoa j) (itoa r) (itoa k) (is_itoa.digits i) (is_itoa.digits j)
          (append_cancel_left "mr-" _ _ e) in
      (is_itoa.injective i j p, is_itoa.injective r k q)
