-- ===== src/Mr/Worker/Buckets.antt =====
-- The partition of DoMap.
use Prim.Native.String.{String}
use mit6_824_labs.Prelude.{
  ℕ, zero, suc, ◌%◌, ◌<◌, ◌≡◌, refl, sym, ap, ◌∙◌, List, [], ◌∷◌, ◌++◌, Option, none, some, length,
  get_elem?, set, get_elem?-set_self, get_elem?-set_ne, length-set, get_elem?-some, replicate,
  length-replicate, arith, append-nil, append_assoc, ◌>>=◌, ◌==◌, ==_iff, if◌then◌else◌, Bool-cases,
  inl, inr,
}
use mit6_824_labs.Mr.Keys.{KeyValue}
use mit6_824_labs.Mr.Grouping.Laws.{values_of}
use mit6_824_labs.GoMap.{string_eq, ◌==◌ as ◌=?◌}
use mit6_824_labs.Mr.Worker.{ihash, put_bucket, put_buckets}

module _ (itoa : ℕ → String) (sum32 : String → ℕ) where
  -- The pairs of a reduce task, in order.
  abbrev pub bucket_of : ℕ → ℕ → List KeyValue → List KeyValue
  bucket_of n r [] = []
  bucket_of n r (kv ∷ kvs) =
      let rest = bucket_of n r kvs in if ihash itoa sum32 kv.key % n == r then kv ∷ rest else rest

  -- What a bucket has of a key: all of it or nothing.
  pub values_of-bucket_of :
      (n r : ℕ) (key : String) (kvs : List KeyValue)
      → values_of key (bucket_of n r kvs)
        ≡ (if ihash itoa sum32 key % n == r then values_of key kvs else [])
  values_of-bucket_of n r key [] = ground arith
  values_of-bucket_of n r key (kv ∷ kvs) = elim (Bool-cases (kv.key =? key)) [
    | inl same ↦
        let e : kv.key ≡ key = (string_eq.equals_iff kv.key key).0 same in
        ground (arith, same, e, values_of-bucket_of n r key kvs)
    | inr other ↦ ground (arith, other, values_of-bucket_of n r key kvs)
  ]

  -- A bucket with more pairs behind it.
  abbrev pub grown : ℕ → ℕ → List KeyValue → Option (List KeyValue) → Option (List KeyValue)
  grown n r kvs none = none
  grown n r kvs (some bucket) = some (bucket ++ bucket_of n r kvs)

  grown_one :
      (n r : ℕ) (kv : KeyValue) (o : Option (List KeyValue))
      → grown n r (kv ∷ []) o
        ≡ (if ihash itoa sum32 kv.key % n == r then (o >>= λ b. some (b ++ kv ∷ [])) else o)
  grown_one n r kv none = ground arith
  grown_one n r kv (some b) = ground (arith, append-nil b)

  grown_more :
      (n r : ℕ) (kv : KeyValue) (kvs : List KeyValue) (o : Option (List KeyValue))
      → grown n r kvs (grown n r (kv ∷ []) o) ≡ grown n r (kv ∷ kvs) o
  grown_more n r kv kvs none = refl
  grown_more n r kv kvs (some b) =
      ground (arith, append-nil b, append_assoc b (kv ∷ []) (bucket_of n r kvs))

  grown_none : (n r : ℕ) (o : Option (List KeyValue)) → grown n r [] o ≡ o
  grown_none n r none = refl
  grown_none n r (some b) = ap some (append-nil b)

  put_bucket_lem :
      (n : ℕ) (buckets : List (List KeyValue)) (kv : KeyValue)
      → 0 < n
      → length buckets ≡ n
      → (buckets' : List (List KeyValue)) × (put_bucket itoa sum32 n buckets kv ≡ some buckets')
        × (length buckets' ≡ n)
        × ((r : ℕ) → get_elem? buckets' r ≡ grown n r (kv ∷ []) (get_elem? buckets r))
  unfolding put_bucket
  put_bucket_lem n buckets kv some_tasks size =
      let num = ihash itoa sum32 kv.key % n in
      let (bucket, e) = get_elem?-some buckets num (omega (arith, size)) in
      let new = bucket ++ kv ∷ [] in
      (
        set buckets num new,
        ground (arith, e),
        omega (arith, size, length-set buckets num new),
        λ r. elim (Bool-cases (num == r)) [
          | inl same ↦
              let at : num ≡ r = (==_iff num r).0 same in
              let was : get_elem? buckets r ≡ some bucket = rw (← at) e in
              let now : get_elem? (set buckets num new) r ≡ some new =
                rw (← at) (get_elem?-set_self buckets num new (omega (arith, size))) in
              now ∙ sym (grown_one n r kv (get_elem? buckets r) ∙ rw (same, was) refl)
          | inr other ↦
              get_elem?-set_ne buckets new (λ e'. absurd (ground (arith, other, e')))
              ∙ sym (grown_one n r kv (get_elem? buckets r) ∙ rw other refl)
        ],
      )

  put_buckets_lem :
      (n : ℕ) (buckets : List (List KeyValue)) (kvs : List KeyValue)
      → 0 < n
      → length buckets ≡ n
      → (buckets' : List (List KeyValue)) × (put_buckets itoa sum32 n buckets kvs ≡ some buckets')
        × (length buckets' ≡ n)
        × ((r : ℕ) → get_elem? buckets' r ≡ grown n r kvs (get_elem? buckets r))
  unfolding put_buckets
  put_buckets_lem n buckets [] some_tasks size =
      (buckets, refl, size, λ r. sym (grown_none n r (get_elem? buckets r)))
  put_buckets_lem n buckets (kv ∷ kvs) some_tasks size =
      let (buckets₁, e, size₁, at) = put_bucket_lem n buckets kv some_tasks size in
      let (buckets', e', size', at') = put_buckets_lem n buckets₁ kvs some_tasks size₁ in
      (
        buckets',
        rw e e',
        size',
        λ r. at' r ∙ ap (grown n r kvs) (at r) ∙ grown_more n r kv kvs (get_elem? buckets r),
      )

  get_elem?-replicate :
      (n r : ℕ) → r < n → get_elem? (replicate {A = List KeyValue} n []) r ≡ some []
  get_elem?-replicate zero r h = absurd (omega arith)
  get_elem?-replicate (suc n) zero h = refl
  get_elem?-replicate (suc n) (suc r) h = get_elem?-replicate n r (omega arith)

  -- With at least one reduce task, the loop over the pairs stays within the buckets, and puts into
  -- each bucket the pairs whose hash has its number for a remainder, in order.
  pub partition_lem :
      (n : ℕ) (kvs : List KeyValue)
      → 0 < n
      → (buckets : List (List KeyValue)) × (put_buckets itoa sum32 n (replicate n []) kvs
          ≡ some buckets)
        × (length buckets ≡ n)
        × ((r : ℕ) → r < n → get_elem? buckets r ≡ some (bucket_of n r kvs))
  partition_lem n kvs some_tasks =
      let (buckets, e, size, at) =
        put_buckets_lem n (replicate n []) kvs some_tasks (length-replicate n []) in
      (buckets, e, size, λ r h. at r ∙ ap (grown n r kvs) (get_elem?-replicate n r h))

  -- For a reduce task below NReduce, whatever the hash: the loop over the pairs of a map task returns
  -- as many buckets as there are reduce tasks, and the task's bucket holds the pairs whose 31-bit
  -- hash has its number for a remainder, and no others, in order.
  pub buckets_bounded :
      (n r : ℕ) (kvs : List KeyValue)
      → r < n
      → (buckets : List (List KeyValue)) × (put_buckets itoa sum32 n (replicate n []) kvs
          ≡ some buckets)
        × (length buckets ≡ n)
        × (get_elem? buckets r ≡ some (bucket_of n r kvs))
  buckets_bounded n r kvs below =
      let (buckets, e, size, at) = partition_lem n kvs (omega arith) in
      (buckets, e, size, at r below)
