-- ===== src/DataPlane/Refinement.antt =====
-- Runs of the data plane against runs of its storage engine.
use Prim.Native.Nat.{Ordering}
use hyperdex_rs.Prelude.{ℕ, ◌≡◌, ◌≢◌, refl, List, [], ◌∷◌, All, none, inl, inr, Option-cases, map}
use hyperdex_rs.Prelude.{Result, ok, err, panic}
use hyperdex_rs.MemoryEngine
use hyperdex_rs.MemoryEngine.{
  WriteResult, StorageError, Spaces, get_record, new_record, or_insert, apply_mutations, written,
}
use hyperdex_rs.Placement.Rendezvous.{locate_rendezvous_places}
use hyperdex_rs.ControlPlane.{InMemoryCatalog, get_space, layout}
use hyperdex_rs.DataPlane.{
  StorageEngine, DataError, no_space, storage_error, map_err, ensure_space_exists, route, admit,
  guarded, data_put, data_get, data_delete, data_conditional_put, data_search, data_count,
  data_delete_matching,
}
use hyperdex_rs.DataPlane.Run.{
  Command, Output, space_of, output, run_on_engine, run_on_plane, run_all, plane_of,
}

module _ {S : Type 0} (c : InMemoryCatalog) (engine : StorageEngine S) where
  ensure-ok :
      (space : List ℕ)
      → get_space c space ≢ none
      → ensure_space_exists (plane_of c engine) space ≡ ok tt
  unfolding ensure_space_exists
  ensure-ok space h = elim (Option-cases (get_space c space)) [
    | inl e ↦ absurd (h e)
    | inr (found, e) ↦ rw e
  ]

  ensure-fails :
      (space : List ℕ)
      → get_space c space ≡ none
      → ensure_space_exists (plane_of c engine) space ≡ err (no_space space)
  unfolding ensure_space_exists
  ensure-fails space e = rw e

  route-ok :
      (key : List ℕ)
      → (layout c).nodes ≢ []
      → (primary : ℕ) × (route (plane_of c engine) key ≡ ok primary)
  unfolding route
  route-ok key h = elim (locate_rendezvous_places key (layout c).replicas (layout c).nodes) [
    | inl (e, _) ↦ absurd (h e)
    | inr (d, e, _, _, _) ↦ (d.primary, rw e)
  ]

  admit-ok :
      (space key : List ℕ)
      → get_space c space ≢ none
      → (layout c).nodes ≢ []
      → admit (plane_of c engine) space key ≡ ok tt
  unfolding admit
  admit-ok space key h k = rw (ensure-ok space h, (route-ok key k).1)

  admit-fails :
      (space key : List ℕ)
      → get_space c space ≡ none
      → admit (plane_of c engine) space key ≡ err (no_space space)
  unfolding admit
  admit-fails space key e = rw (ensure-fails space e)

  -- An output of the engine, as the plane passes it on.
  abbrev pub passed_on : Result Output StorageError × S → Result Output DataError × S
  passed_on (r, s) = (map_err storage_error r, s)

  output-guarded :
      {A : Type 0} (f : A → Output) (s : S) (step : Result A StorageError × S)
      → output f (guarded (ok tt) s step) ≡ passed_on (output f step)
  output-guarded f s (ok a, s') = refl
  output-guarded f s (err e, s') = refl
  output-guarded f s (panic, s') = refl

  output-read :
      {A : Type 0} (f : A → Output) (s : S) (r : Result A StorageError)
      → output f (map_err storage_error r, s) ≡ passed_on (output f (r, s))
  output-read f s (ok a) = refl
  output-read f s (err e) = refl
  output-read f s panic = refl

  -- A command on a space of the catalog
  run_on_plane-engine :
      (s : S) (command : Command)
      → (layout c).nodes ≢ []
      → get_space c (space_of command) ≢ none
      → run_on_plane (plane_of c engine) s command ≡ passed_on (run_on_engine engine s command)
  unfolding run_on_plane run_on_engine data_put data_get data_delete data_conditional_put
      data_search data_count data_delete_matching
  run_on_plane-engine s (Command.put space key mutations) h k =
      rw (admit-ok space key k h) (output-guarded Output.write s (engine.put s space key mutations))
  run_on_plane-engine s (Command.get space key) h k =
      rw (admit-ok space key k h) (output-read Output.one s (engine.get s space key))
  run_on_plane-engine s (Command.delete space key) h k =
      rw (admit-ok space key k h) (output-guarded Output.write s (engine.delete s space key))
  run_on_plane-engine s (Command.conditional_put space key checks mutations) h k =
      rw (admit-ok space key k h)
        (output-guarded Output.write s (engine.conditional_put s space key checks mutations))
  run_on_plane-engine s (Command.search space checks) h k =
      rw (ensure-ok space k) (output-read Output.many s (engine.search s space checks))
  run_on_plane-engine s (Command.count space checks) h k =
      rw (ensure-ok space k) (output-read Output.number s (engine.count s space checks))
  run_on_plane-engine s (Command.delete_matching space checks) h k =
      rw (ensure-ok space k)
        (output-guarded Output.number s (engine.delete_matching s space checks))

  -- Behind a catalog that has a node and all the spaces that the commands name, the data plane with
  -- rendezvous placement is its storage engine, whatever engine that is: each command has the output
  -- that it has on the engine alone, with storage errors passed on, and the run leaves the same
  -- state.
  pub run_all-engine :
      (s : S) (commands : List Command)
      → (layout c).nodes ≢ []
      → All (λ command. get_space c (space_of command) ≢ none) commands
      → run_all (run_on_plane (plane_of c engine)) s commands ≡ (
        map (map_err storage_error) (run_all (run_on_engine engine) s commands).0,
        (run_all (run_on_engine engine) s commands).1,
      )
  unfolding run_all
  run_all-engine s [] h k = refl
  run_all-engine s (command ∷ commands) h k =
      let step = run_on_engine engine s command in
      rw (run_on_plane-engine s command h k.0, run_all-engine step.1 commands h k.1)

  -- A command on a space that the catalog does not have is refused with an error, and the storage
  -- engine's state stays as it was, whatever the command and the engine.
  pub run_on_plane_refuses :
      (s : S) (command : Command)
      → get_space c (space_of command) ≡ none
      → run_on_plane (plane_of c engine) s command ≡ (err (no_space (space_of command)), s)
  unfolding run_on_plane data_put data_get data_delete data_conditional_put data_search data_count
      data_delete_matching
  run_on_plane_refuses s (Command.put space key mutations) e = rw (admit-fails space key e)
  run_on_plane_refuses s (Command.get space key) e = rw (admit-fails space key e)
  run_on_plane_refuses s (Command.delete space key) e = rw (admit-fails space key e)
  run_on_plane_refuses s (Command.conditional_put space key checks mutations) e =
      rw (admit-fails space key e)
  run_on_plane_refuses s (Command.search space checks) e = rw (ensure-fails space e)
  run_on_plane_refuses s (Command.count space checks) e = rw (ensure-fails space e)
  run_on_plane_refuses s (Command.delete_matching space checks) e = rw (ensure-fails space e)

-- The memory engine fills the storage interface.
abbrev pub memory_engine : (ℕ → ℕ → Ordering) → StorageEngine Spaces
memory_engine compare_float = record {
  put = MemoryEngine.put compare_float;
  get = λ spaces space key. ok (get_record spaces space key);
  delete = MemoryEngine.delete;
  conditional_put = MemoryEngine.conditional_put compare_float;
  search = MemoryEngine.search compare_float;
  count = MemoryEngine.count compare_float;
  delete_matching = MemoryEngine.delete_matching compare_float;
}
