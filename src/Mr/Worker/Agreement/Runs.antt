-- ===== src/Mr/Worker/Agreement/Runs.antt =====
-- Map tasks that workers run one after the other, in any order and some of them again, and then a
-- reduce task, against mrsequential.go.
use Prim.Native.String.{String}
use mathlib.Core.List.{Permᴰ}
use mit6_824_labs.Prelude.{
  ℕ, zero, suc, ◌%◌, ◌<◌, ◌≡◌, ◌≢◌, ◌⊎◌, refl, sym, ◌∙◌, List, [], ◌∷◌, Option, some, Bool, true,
  false, length, get_elem?, get_elem?-some, lt_of_get_elem?, arith, ◌>>=◌, ◌==◌, ==_iff,
  if◌then◌else◌, Bool-cases, inl, inr,
}
use mit6_824_labs.GoMap.{string_eq, lookup, ◌==◌ as ◌=?◌}
use mit6_824_labs.Raft.Types.{Bytes}
use mit6_824_labs.Mr.Keys.{KeyValue}
use mit6_824_labs.Mr.Grouping.Laws.{lines_of}
use mit6_824_labs.Mr.Worker.{
  Files, Json, IsJson, IsSort, ihash, map_out, reduce_out, do_map, do_reduce, print_lines,
}
use mit6_824_labs.Mr.Worker.Names.{IsItoa, map_out_inj}
use mit6_824_labs.Mr.Worker.Buckets.{bucket_of}
use mit6_824_labs.Mr.Worker.Tasks.{Holds, Apart, do_map_lem}
use mit6_824_labs.Mr.Worker.Agreement.{map_reply, reduce_reply, do_reduce_lem}
use mit6_824_labs.Mr.Sequential.{sequential_lines}

abbrev pub includes : ℕ → List ℕ → Bool
includes i [] = false
includes i (j ∷ js) = let rest = includes i js in if i == j then true else rest

abbrev pub AllBelow : ℕ → List ℕ → Type 0
AllBelow n [] = Unit
AllBelow n (i ∷ is) = (i < n) × AllBelow n is

-- Every input file is there, and is not a file of some map task.
abbrev pub AreInputs : (ℕ → ℕ → String) → Files → List String → Type 0
AreInputs out files [] = Unit
AreInputs out files (name ∷ names) =
    ((content : Bytes) × (lookup name files ≡ some content))
    × ((i r : ℕ) → (out i r =? name) ≡ false)
    × AreInputs out files names

AreInputs-at :
    (out : ℕ → ℕ → String) (files : Files) (names : List String) (j : ℕ) (name : String)
    → AreInputs out files names
    → get_elem? names j ≡ some name
    → ((content : Bytes) × (lookup name files ≡ some content))
      × ((i r : ℕ) → (out i r =? name) ≡ false)
AreInputs-at out files [] j name inputs e = absurd (ground arith)
AreInputs-at out files (first ∷ names) zero name (there, apart, inputs) e =
    let same : first ≡ name = ground arith in rw (← same) (there, apart)
AreInputs-at out files (first ∷ names) (suc j) name (there, apart, inputs) e =
    AreInputs-at out files names j name inputs e

module _ (itoa : ℕ → String) (sum32 : String → ℕ) (json : Json)
    (mapf : String → Bytes → List KeyValue) (n : ℕ) (names : List String) where
  -- The map tasks of a schedule, by their numbers.
  unfoldable pub run_maps : Files → List ℕ → Option Files
  run_maps files [] = some files
  run_maps files (i ∷ is) = do
    name ← get_elem? names i
    files' ← do_map itoa sum32 json files (map_reply names n i name) mapf
    run_maps files' is

  module _ (is_itoa : IsItoa itoa) (is_json : IsJson json) (r : ℕ) (r_below : r < n)
      (inputs : Files) (are_inputs : AreInputs (map_out itoa sum32) inputs names) where
    abbrev Ended : Files → ℕ → String → Type 0
    Ended files j name =
        (content : Bytes) × (lookup name inputs ≡ some content)
        × Holds itoa sum32 json is_itoa is_json files j r
            (bucket_of itoa sum32 n r (mapf name content))

    abbrev SameInputs : Files → Type 0
    SameInputs files =
        (j : ℕ) (name : String)
        → get_elem? names j ≡ some name
        → lookup name files ≡ lookup name inputs

    other_task_file :
        (i j : ℕ) → i ≢ j → Apart itoa sum32 json is_itoa is_json i (map_out itoa sum32 j r)
    other_task_file i j differ k =
        elim (Bool-cases (map_out itoa sum32 i k =? map_out itoa sum32 j r)) [
          | inl same ↦ absurd (
              differ (map_out_inj itoa sum32 is_itoa i k j r ((string_eq.equals_iff _ _).0 same)).0)
          | inr other ↦ other
        ]

    -- One map task more.
    run_map :
        (files : Files) (i : ℕ) (name : String)
        → get_elem? names i ≡ some name
        → SameInputs files
        → (files' : Files) × (do_map itoa sum32 json files (map_reply names n i name) mapf
            ≡ some files')
          × SameInputs files'
          × Ended files' i name
          × ((j : ℕ) (other : String) → Ended files j other → i ≢ j → Ended files' j other)
    run_map files i name at same =
        let ((content, there), apart) =
          AreInputs-at (map_out itoa sum32) inputs names i name are_inputs at in
        let (files', e, holds, keeps) =
          do_map_lem itoa sum32 json is_itoa is_json files (map_reply names n i name) mapf content
            (omega (arith, r_below)) (same i name at ∙ there) in
        (
          files',
          e,
          λ j other at'.
              keeps other
                ((AreInputs-at (map_out itoa sum32) inputs names j other are_inputs at').1 i)
              ∙ same j other at',
          (content, there, holds r r_below),
          λ j other (c, there', (bytes, e', found)) differ. (
            c,
            there',
            (bytes, e', keeps (map_out itoa sum32 j r) (other_task_file i j differ) ∙ found),
          ),
        )

    run_maps_lem :
        (schedule : List ℕ) (files : Files)
        → AllBelow (length names) schedule
        → SameInputs files
        → (files' : Files) × (run_maps files schedule ≡ some files')
          × ((j : ℕ) (name : String)
              → get_elem? names j ≡ some name
              → (includes j schedule ≡ true) ⊎ Ended files j name
              → Ended files' j name)
    unfolding run_maps
    run_maps_lem [] files below same =
        (files, refl, λ j name at h. elim h [ inl e ↦ absurd (ground arith) | inr ended ↦ ended ])
    run_maps_lem (i ∷ is) files (first, below) same =
        let (name, at) = get_elem?-some names i first in
        let (files₁, e, same₁, ended, keeps) = run_map files i name at same in
        let (files', e', all) = run_maps_lem is files₁ below same₁ in
        (
          files',
          rw (at, e) e',
          λ j other at' h. all j other at' (
              now i is files files₁ name at ended j other at' h
                (λ was differ. keeps j other was differ)),
        )
      where
        now :
            (i : ℕ) (is : List ℕ) (files files₁ : Files) (name : String)
            → get_elem? names i ≡ some name
            → Ended files₁ i name
            → (j : ℕ) (other : String) → get_elem? names j ≡ some other
            → (includes j (i ∷ is) ≡ true) ⊎ Ended files j other
            → (Ended files j other → i ≢ j → Ended files₁ j other)
            → (includes j is ≡ true) ⊎ Ended files₁ j other
        now i is files files₁ name at ended j other at' h keeps = elim (Bool-cases (j == i)) [
          | inl e ↦
              let here : i ≡ j = sym ((==_iff j i).0 e) in
              let same_name : name ≡ other = ground (arith, here) in
              inr (rw (← here, ← same_name) ended)
          | inr e ↦ elim h [
            | inl later ↦ inl (rw e at later)
            | inr was ↦ inr (keeps was (λ here. absurd (ground (arith, e, here))))
          ]
        ]

    module _ (sort : List KeyValue → List KeyValue) (print_line : String × Bytes → Bytes)
        (is_sort : IsSort sort) (reducef : String → List String → Bytes)
        (any_order : (key : String) (vs ws : List String)
          → Permᴰ vs ws
          → reducef key vs ≡ reducef key ws) where
      -- With what is documented of strconv.Itoa, encoding/json and sort.Sort, input files that are
      -- there and are no files of map tasks, and an output of the reduce function that does not
      -- depend on the order of the values: when the map tasks have run one after the other, in any
      -- order, each at least once and any of them again, all have returned; a reduce task then
      -- returns, and its file has for each key of its own the line that mrsequential prints, if any,
      -- and no other line.
      pub mapreduce_agrees :
          (schedule : List ℕ)
          → AllBelow (length names) schedule
          → ((i : ℕ) → i < length names → includes i schedule ≡ true)
          → (mapped files : Files) × (lines out : List (String × Bytes)) × (run_maps inputs schedule
              ≡ some mapped)
            × (do_reduce itoa sum32 json sort print_line mapped (reduce_reply names n r) reducef
                ≡ some files)
            × (sequential_lines itoa sum32 json sort print_line inputs mapf reducef names
                ≡ some lines)
            × (lookup (reduce_out itoa sum32 r) files
                ≡ some (print_lines itoa sum32 json sort print_line out))
            × ((key : String)
                → lines_of key out
                  ≡ (if ihash itoa sum32 key % n == r then lines_of key lines else []))
      mapreduce_agrees schedule below covers =
          let (mapped, e, ended) = run_maps_lem schedule inputs below (λ j name at. refl) in
          let (files, lines, out, reduced, sequential, printed, agree) =
            do_reduce_lem itoa sum32 json is_itoa is_json mapf n r sort print_line is_sort reducef
              any_order inputs mapped names
              (λ j name at.
                ended j name at (inl (covers j (omega (arith, lt_of_get_elem? names j at))))) in
          (mapped, files, lines, out, e, reduced, sequential, printed, agree)
