-- ===== src/Tasks/Dependencies/Decides.antt =====
-- The answer of the search in `add_dependency`.
use kolyan.Prelude.{◌≡◌, refl, ◌↔◌, String, Bool, true, false, some, List, []}
use kolyan.Tasks.Types.{TaskSnapshot}
use kolyan.Tasks.Topology.{topology, Reaches}
use kolyan.Tasks.Dependencies.{Search, reaches, search_fuel}
use kolyan.Tasks.Dependencies.Search.{reaches_sound, reaches_complete}
use kolyan.Tasks.Dependencies.Fuel.{search-Returns}

module _ {V : Type 0} (state : TaskSnapshot V) (from target : String) where
  abbrev pub search : Search
  search = reaches (search_fuel state.invocations) state.invocations from target []

  pub hit_iff :
      (hit : Bool) (seen : List String)
      → search ≡ some (hit, seen)
      → (hit ≡ true) ↔ Reaches (topology state) from target
  hit_iff true seen e = (
    λ _.
        reaches_sound state.invocations (topology state) (λ _. refl) target
          (search_fuel state.invocations) from [] seen e,
    λ _. refl,
  )
  hit_iff false seen e = (
    λ h. cc,
    λ path. absurd (
        reaches_complete state.invocations (topology state) (λ _. refl) target
          (search_fuel state.invocations) from seen e path),
  )

  -- The search of `reaches` ends with an answer, and the answer is "yes" exactly where a path along
  -- dependencies leads from the first invocation to the second.
  pub search-Reaches :
      (hit : Bool) × (seen : List String) × (search ≡ some (hit, seen))
      × ((hit ≡ true) ↔ Reaches (topology state) from target)
  search-Reaches =
      let r = search-Returns state.invocations target from in
      (r.hit, r.after, r.result, hit_iff r.hit r.after r.result)
