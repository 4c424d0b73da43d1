-- ===== src/Mr/Tests/Texts.antt =====
-- Two files through map tasks and a reduce task, with numbers written in ones, lengths for hashes and
-- a lossless coding of the pairs.
use Prim.Native.Char.{char, code}
use Prim.Native.String.{String, ◌++◌ as ◌<>◌}
use package.text.Mathlib.TextLemmas.{cons-append}
use mathlib.Core.List.{Permᴰ}
use mit6_824_labs.Prelude.{
  ℕ, zero, suc, ◌%◌, ◌<◌, ◌≡◌, refl, sym, ap, ◌∙◌, List, [], ◌∷◌, Option, none, some, true, false,
  arith, length, get_elem?, replicate, if◌then◌else◌, ◌==◌, some_inj, Bool-cases, inl, inr,
}
use mit6_824_labs.GoMap.{string_eq, lookup, ◌==◌ as ◌=?◌}
use mit6_824_labs.Raft.Types.{Bytes}
use mit6_824_labs.KvRaft.Tests.Coding.{Coder, pair, through, list, text}
use mit6_824_labs.Mr.Keys.{KeyValue}
use mit6_824_labs.Mr.Grouping.Laws.{lines_of}
use mit6_824_labs.Mr.Worker.{
  Json, IsJson, Files, put_buckets, ihash, map_out, reduce_out, do_reduce, print_lines,
}
use mit6_824_labs.Mr.Worker.Names.{IsItoa, NoDash}
use mit6_824_labs.Mr.Worker.Buckets.{bucket_of, buckets_bounded}
use mit6_824_labs.Mr.Worker.Agreement.{reduce_reply}
use mit6_824_labs.Mr.Worker.Agreement.Runs.{includes, AreInputs, run_maps, mapreduce_agrees}
use mit6_824_labs.Mr.Sequential.{sequential_lines}
use mit6_824_labs.Mr.Tests.Sorting.{insertion_sort, insertion_sort-IsSort}

abbrev ones : ℕ → String
ones zero = String.[]
ones (suc n) = String.◌∷◌ (char 49 tt) (ones n)

abbrev size : String → ℕ
size String.[] = 0
size (String.◌∷◌ c s) = suc (size s)

size-ones : (n : ℕ) → size (ones n) ≡ n
size-ones zero = refl
size-ones (suc n) = ap suc (size-ones n)

ones-NoDash : (n : ℕ) → NoDash (ones n)
ones-NoDash zero = tt
ones-NoDash (suc n) = ((λ e. absurd (omega (arith, e))), ones-NoDash n)

ones-IsItoa : IsItoa ones
ones-IsItoa = record {
  digits = ones-NoDash;
  injective = λ m n e. sym (size-ones m) ∙ ap size e ∙ size-ones n;
}

abbrev pairs : Coder (List KeyValue)
pairs = list (
    through (pair text text) (λ kv. (kv.key, kv.value)) (λ v. record { key = v.0; value = v.1 })
      (λ kv. refl))

abbrev read_pairs : Bytes → Option (List KeyValue × Bytes)
read_pairs [] = none
read_pairs (n ∷ bytes) = pairs.read bytes

abbrev json : Json
json = record { encode = λ kvs. some (0 ∷ pairs.write kvs []); decode = read_pairs }

json-IsJson : IsJson json
json-IsJson = record {
  encodes = λ kvs e. ground arith;
  decodes = λ kvs bytes e.
      ([], ap read_pairs (sym (some_inj e)) ∙ pairs.back kvs [], refl, λ e'. ground arith);
}

-- A pair for the file's name and one for a key of all files.
abbrev mapf : String → Bytes → List KeyValue
mapf name content = record { key = name; value = "1" } ∷ record { key = "k"; value = "1" } ∷ []

-- The number of the values.
abbrev reducef : String → List String → Bytes
reducef key vs = length vs ∷ []

length-Permᴰ : {vs ws : List String} → Permᴰ vs ws → length vs ≡ length ws
length-Permᴰ Permᴰ.nil = refl
length-Permᴰ (Permᴰ.cons e p) = ap suc (length-Permᴰ p)
length-Permᴰ (Permᴰ.swap e f) = refl
length-Permᴰ (Permᴰ.trans p q) = length-Permᴰ p ∙ length-Permᴰ q

abbrev print_line : String × Bytes → Bytes
print_line (key, output) = size key ∷ output

abbrev names : List String
names = "a" ∷ "in" ∷ []

abbrev inputs : Files
inputs = ("a", 1 ∷ []) ∷ ("in", 2 ∷ []) ∷ []

abbrev first_code : String → ℕ
first_code String.[] = 0
first_code (String.◌∷◌ c s) = code c

not_input :
    (name : String)
    → (109 == first_code name) ≡ false
    → (i r : ℕ) → (map_out ones size i r =? name) ≡ false
not_input name other i r = elim (Bool-cases (map_out ones size i r =? name)) [
  | inl same ↦
      let e = (string_eq.equals_iff _ _).0 same in
      let first : 109 ≡ first_code name =
        ap first_code (sym (cons-append (char 109 tt) "r-" (ones i <> ("-" <> ones r))) ∙ e) in
      absurd (ground (arith, other, first))
  | inr h ↦ h
]

are_inputs : AreInputs (map_out ones size) inputs names
unfolding lookup
are_inputs = ((1 ∷ [], refl), not_input "a" refl, ((2 ∷ [], refl), not_input "in" refl, tt))

covers : (i : ℕ) → i < 2 → includes i (1 ∷ 0 ∷ 1 ∷ []) ≡ true
covers zero h = refl
covers (suc zero) h = refl
covers (suc (suc i)) h = absurd (omega arith)

mapreduce_agrees_example :
    (mapped files : Files) × (lines out : List (String × Bytes)) × (run_maps ones size json mapf 2
        names inputs
        (1 ∷ 0 ∷ 1 ∷ [])
      ≡ some mapped)
    × (do_reduce ones size json insertion_sort print_line mapped (reduce_reply names 2 1) reducef
        ≡ some files)
    × (sequential_lines ones size json insertion_sort print_line inputs mapf reducef names
        ≡ some lines)
    × (lookup (reduce_out ones size 1) files
        ≡ some (print_lines ones size json insertion_sort print_line out))
    × ((key : String)
        → lines_of key out ≡ (if ihash ones size key % 2 == 1 then lines_of key lines else []))
mapreduce_agrees_example =
    mapreduce_agrees ones size json mapf 2 names ones-IsItoa json-IsJson 1 (omega arith) inputs
      are_inputs insertion_sort print_line insertion_sort-IsSort reducef
      (λ key vs ws p. ap (λ n. n ∷ []) (length-Permᴰ p)) (1 ∷ 0 ∷ 1 ∷ [])
      (omega arith, (omega arith, (omega arith, tt))) covers

buckets_bounded_example :
    (buckets : List (List KeyValue)) × (put_buckets ones size 2
        (replicate 2 [])
        (mapf "in" (2 ∷ []))
      ≡ some buckets)
    × (length buckets ≡ 2)
    × (get_elem? buckets 1 ≡ some (bucket_of ones size 2 1 (mapf "in" (2 ∷ []))))
buckets_bounded_example = buckets_bounded ones size 2 1 (mapf "in" (2 ∷ [])) (omega arith)
