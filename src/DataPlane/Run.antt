-- ===== src/DataPlane/Run.antt =====
-- Commands to the data plane, run on it and on its storage engine alone.
use hyperdex_rs.Prelude.{ℕ, List, [], ◌∷◌, Option}
use hyperdex_rs.Prelude.{Result, ok, ◌>>=◌}
use hyperdex_rs.DataModel.{Record, Check, Mutation}
use hyperdex_rs.MemoryEngine.{WriteResult, StorageError}
use hyperdex_rs.Placement.{locate_rendezvous}
use hyperdex_rs.ControlPlane.{InMemoryCatalog, get_space, layout}
use hyperdex_rs.DataPlane.{
  Catalog, StorageEngine, PlacementStrategy, DataError, DataPlane, data_put, data_get, data_delete,
  data_conditional_put, data_search, data_count, data_delete_matching,
}

-- The catalog in memory and rendezvous placement, as the traits ask for them.
abbrev pub in_memory : InMemoryCatalog → Catalog
in_memory c = record { get_space = λ name. ok (get_space c name); layout = ok (layout c) }

abbrev pub rendezvous : PlacementStrategy
rendezvous = record { locate = locate_rendezvous }

pub data Command : Type 0 where
  put : (space key : List ℕ) (mutations : List Mutation) → Command
  get delete : (space key : List ℕ) → Command
  conditional_put : (space key : List ℕ) (checks : List Check) (mutations : List Mutation) → Command
  search count delete_matching : (space : List ℕ) (checks : List Check) → Command

pub data Output : Type 0 where
  write : WriteResult → Output
  one : Option Record → Output
  many : List Record → Output
  number : ℕ → Output

abbrev pub space_of : Command → List ℕ
space_of (Command.put space key mutations) = space
space_of (Command.get space key) = space
space_of (Command.delete space key) = space
space_of (Command.conditional_put space key checks mutations) = space
space_of (Command.search space checks) = space
space_of (Command.count space checks) = space
space_of (Command.delete_matching space checks) = space

abbrev pub output {ℓ} :
    {A : Type ℓ} {E S : Type 0} → (A → Output) → Result A E × S → Result Output E × S
output f (r, s) = (r >>= λ a. ok (f a), s)

module _ {S : Type 0} where
  unfoldable pub run_on_engine : StorageEngine S → S → Command → Result Output StorageError × S
  run_on_engine e s (Command.put space key mutations) =
      output Output.write (e.put s space key mutations)
  run_on_engine e s (Command.get space key) = output Output.one (e.get s space key, s)
  run_on_engine e s (Command.delete space key) = output Output.write (e.delete s space key)
  run_on_engine e s (Command.conditional_put space key checks mutations) =
      output Output.write (e.conditional_put s space key checks mutations)
  run_on_engine e s (Command.search space checks) = output Output.many (e.search s space checks, s)
  run_on_engine e s (Command.count space checks) = output Output.number (e.count s space checks, s)
  run_on_engine e s (Command.delete_matching space checks) =
      output Output.number (e.delete_matching s space checks)

  unfoldable pub run_on_plane : DataPlane S → S → Command → Result Output DataError × S
  run_on_plane p s (Command.put space key mutations) =
      output Output.write (data_put p s space key mutations)
  run_on_plane p s (Command.get space key) = output Output.one (data_get p s space key, s)
  run_on_plane p s (Command.delete space key) = output Output.write (data_delete p s space key)
  run_on_plane p s (Command.conditional_put space key checks mutations) =
      output Output.write (data_conditional_put p s space key checks mutations)
  run_on_plane p s (Command.search space checks) =
      output Output.many (data_search p s space checks, s)
  run_on_plane p s (Command.count space checks) =
      output Output.number (data_count p s space checks, s)
  run_on_plane p s (Command.delete_matching space checks) =
      output Output.number (data_delete_matching p s space checks)

  -- The outputs of a run of commands, one after the other, and the state that they leave
  unfoldable pub run_all :
      {E : Type 0}
      → (S → Command → Result Output E × S)
      → S
      → List Command
      → List (Result Output E) × S
  run_all step s [] = ([], s)
  run_all step s (command ∷ commands) =
      let first = step s command in
      let rest = run_all step first.1 commands in (first.0 ∷ rest.0, rest.1)

  -- A plane in front of an engine
  abbrev pub plane_of : InMemoryCatalog → StorageEngine S → DataPlane S
  plane_of c engine = record { catalog = in_memory c; storage = engine; placement = rendezvous }
