-- ===== src/Mr/Coordinator/Phases/Ticks.antt =====
-- TimeTick keeps the phases.
use mit6_824_labs.Prelude.{
  ℕ, zero, suc, ◌≤◌, ◌≡◌, inl, inr, List, [], ◌∷◌, ◌++◌, arith, length, length-append, get_elem?,
  Option-cases, Bool-cases, ◌==◌,
}
use mit6_824_labs.GoMap.{nat_eq}
use mit6_824_labs.Mr.Types.{Task, Coordinator, Run, >>=-eq-ok}
use mit6_824_labs.Mr.Coordinator.{
  overdue, requeue_map, requeue_maps, requeue_reduce, requeue_reduces, time_tick,
}
use mit6_824_labs.Mr.Coordinator.Phases.{AllNameFiles, IsValid, AllNameFiles-append}

-- What the loop over the overdue map tasks keeps.
abbrev Fitting : Coordinator → List Task → Type 0
Fitting c channel = (length channel ≤ length c.files) × AllNameFiles c.files channel

requeue_map-Fitting :
    (c : Coordinator) (now i : ℕ) (channel : List Task) {channel' : List Task}
    → requeue_map c now i channel ≡ Run.ok channel'
    → Fitting c channel
    → Fitting c channel'
unfolding requeue_map
requeue_map-Fitting c now i channel {channel'} h (fits, names) =
    elim (Bool-cases (overdue c.map_task_states now i)) [
      | inr in_time ↦ let same : channel' ≡ channel = ground arith in rw same (fits, names)
      | inl late ↦ elim (Option-cases (get_elem? c.files i)) [
        | inl outside ↦ absurd (ground arith)
        | inr (file, e) ↦
            let task : Task = record { map_id = i; reduce_id = 0; file_name = file } in
            let same : channel' ≡ channel ++ task ∷ [] = ground (arith, e) in
            rw same (
              ground (arith, e, length-append channel (task ∷ [])),
              AllNameFiles-append c.files channel task names e,
            )
      ]
    ]

requeue_maps-Fitting :
    (c : Coordinator) (now i n : ℕ) (channel : List Task) {channel' : List Task}
    → requeue_maps c now i n channel ≡ Run.ok channel'
    → Fitting c channel
    → Fitting c channel'
unfolding requeue_maps
requeue_maps-Fitting c now i zero channel {channel'} h f =
    let same : channel' ≡ channel = ground arith in rw same f
requeue_maps-Fitting c now i (suc n) channel h f =
    let (channel₁, e, rest) = >>=-eq-ok (requeue_map c now i channel) _ h in
    requeue_maps-Fitting c now (suc i) n channel₁ rest (requeue_map-Fitting c now i channel e f)

requeue_reduce-fits :
    (c : Coordinator) (now i : ℕ) (channel : List Task) {channel' : List Task}
    → requeue_reduce c now i channel ≡ Run.ok channel'
    → length channel ≤ c.num_reduce_tasks
    → length channel' ≤ c.num_reduce_tasks
unfolding requeue_reduce
requeue_reduce-fits c now i channel h fits =
    ground
      (arith, length-append channel (record { map_id = 0; reduce_id = i; file_name = "" } ∷ []))

requeue_reduces-fits :
    (c : Coordinator) (now i n : ℕ) (channel : List Task) {channel' : List Task}
    → requeue_reduces c now i n channel ≡ Run.ok channel'
    → length channel ≤ c.num_reduce_tasks
    → length channel' ≤ c.num_reduce_tasks
unfolding requeue_reduces
requeue_reduces-fits c now i zero channel h fits = ground arith
requeue_reduces-fits c now i (suc n) channel h fits =
    let (channel₁, e, rest) = >>=-eq-ok (requeue_reduce c now i channel) _ h in
    requeue_reduces-fits c now (suc i) n channel₁ rest (requeue_reduce-fits c now i channel e fits)

pub time_tick-IsValid :
    (c : Coordinator) (now : ℕ) {c' : Coordinator}
    → time_tick c now ≡ Run.ok c'
    → IsValid c
    → IsValid c'
unfolding time_tick
time_tick-IsValid c now {c'} h v = elim (Bool-cases (c.state == 0)) [
  | inl mapping ↦
      let (channel, e, rest) =
        >>=-eq-ok (requeue_maps c now 0 c.num_map_tasks c.map_task) _ (rw mapping at h) in
      let (fits, names) =
        requeue_maps-Fitting c now 0 c.num_map_tasks c.map_task e
          (omega (arith, v.maps_fit, v.sized), v.names) in
      let same : c' ≡ record c { map_task = channel } = ground arith in
      rw same (record {
        sized = v.sized;
        has_reduces = v.has_reduces;
        phase = v.phase;
        maps_fit = omega (arith, fits, v.sized);
        reduces_fit = v.reduces_fit;
        names = names;
      })
  | inr other ↦ elim (Bool-cases (c.state == 1)) [
    | inl reducing ↦
        let (channel, e, rest) =
          >>=-eq-ok (requeue_reduces c now 0 c.num_reduce_tasks c.reduce_task) _
            (rw (other, reducing) at h) in
        let fits = requeue_reduces-fits c now 0 c.num_reduce_tasks c.reduce_task e v.reduces_fit in
        let same : c' ≡ record c { reduce_task = channel } = ground arith in
        rw same (record {
          sized = v.sized;
          has_reduces = v.has_reduces;
          phase = ground (arith, v.phase);
          maps_fit = v.maps_fit;
          reduces_fit = fits;
          names = v.names;
        })
    | inr ended ↦ let same : c' ≡ c = ground arith in rw same v
  ]
]
