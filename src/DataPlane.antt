-- ===== src/DataPlane.antt =====
-- crates/data-plane/src/lib.rs: the operations on records behind the checks that the space exists and
-- that a node is responsible for the key. The catalog, the storage engine and the placement are the
-- traits of crates/control-plane, crates/storage-core and crates/placement-core.
pub mod Run
pub mod Refinement
mod Examples
use hyperdex_rs.Prelude.{ℕ, List, [], ◌∷◌, Option, none, some}
use hyperdex_rs.Prelude.{Result, ok, err, panic, ◌>>=◌, ◌>>◌}
use hyperdex_rs.DataModel.{Record, Check, Mutation}
use hyperdex_rs.DataModel.Space.{Space}
use hyperdex_rs.MemoryEngine.{WriteResult, StorageError}
use hyperdex_rs.Placement.{ClusterLayout, PlacementDecision, PlacementError}
use hyperdex_rs.ControlPlane.{CatalogError}

-- What the data plane asks of a catalog.
pub record Catalog : Type 0 where
  pub get_space : List ℕ → Result (Option Space) CatalogError
  pub layout : Result ClusterLayout CatalogError

pub record PlacementStrategy : Type 0 where
  pub locate : List ℕ → ClusterLayout → Result PlacementDecision PlacementError

-- What it asks of a storage engine whose state is an `S`.
pub record StorageEngine (S : Type 0) : Type 0 where
  pub put : S → List ℕ → List ℕ → List Mutation → Result WriteResult StorageError × S
  pub get : S → List ℕ → List ℕ → Result (Option Record) StorageError
  pub delete : S → List ℕ → List ℕ → Result WriteResult StorageError × S
  pub conditional_put :
      S → List ℕ → List ℕ → List Check → List Mutation → Result WriteResult StorageError × S
  pub search : S → List ℕ → List Check → Result (List Record) StorageError
  pub count : S → List ℕ → List Check → Result ℕ StorageError
  pub delete_matching : S → List ℕ → List Check → Result ℕ StorageError × S

pub data DataError : Type 0 where
  no_space : List ℕ → DataError
  catalog_error : CatalogError → DataError
  placement_error : PlacementError → DataError
  storage_error : StorageError → DataError

-- The conversion of `?`
abbrev pub map_err {ℓ} : {A : Type ℓ} {E F : Type 0} → (E → F) → Result A E → Result A F
map_err f (ok a) = ok a
map_err f (err e) = err (f e)
map_err f panic = panic

pub record DataPlane (S : Type 0) : Type 0 where
  pub catalog : Catalog
  pub storage : StorageEngine S
  pub placement : PlacementStrategy

module _ {S : Type 0} (plane : DataPlane S) where
  unfoldable pub ensure_space_exists : List ℕ → Result (Unit {0}) DataError
  ensure_space_exists space = do
    found ← map_err catalog_error (plane.catalog.get_space space)
    elim found [ none ↦ err (no_space space) | some s ↦ ok tt ]

  unfoldable pub route : List ℕ → Result ℕ DataError
  route key = do
    layout ← map_err catalog_error plane.catalog.layout
    decision ← map_err placement_error (plane.placement.locate key layout)
    ok decision.primary

  -- The checks before an operation on one record
  unfoldable pub admit : List ℕ → List ℕ → Result (Unit {0}) DataError
  admit space key = do ensure_space_exists space; primary ← route key; ok tt

-- An operation that changes the state runs only behind checks that pass.
abbrev pub guarded :
    {S A : Type 0}
    → Result (Unit {0}) DataError
    → S
    → Result A StorageError × S
    → Result A DataError × S
guarded (ok _) s step = (map_err storage_error step.0, step.1)
guarded (err e) s step = (err e, s)
guarded panic s step = (panic, s)

module _ {S : Type 0} (plane : DataPlane S) (s : S) where
  unfoldable pub data_put : List ℕ → List ℕ → List Mutation → Result WriteResult DataError × S
  data_put space key mutations =
      guarded (admit plane space key) s (plane.storage.put s space key mutations)

  unfoldable pub data_get : List ℕ → List ℕ → Result (Option Record) DataError
  data_get space key = do
    admit plane space key
    map_err storage_error (plane.storage.get s space key)

  unfoldable pub data_delete : List ℕ → List ℕ → Result WriteResult DataError × S
  data_delete space key = guarded (admit plane space key) s (plane.storage.delete s space key)

  unfoldable pub data_conditional_put :
      List ℕ → List ℕ → List Check → List Mutation → Result WriteResult DataError × S
  data_conditional_put space key checks mutations =
      guarded (admit plane space key) s (plane.storage.conditional_put s space key checks mutations)

  unfoldable pub data_search : List ℕ → List Check → Result (List Record) DataError
  data_search space checks = do
    ensure_space_exists plane space
    map_err storage_error (plane.storage.search s space checks)

  unfoldable pub data_count : List ℕ → List Check → Result ℕ DataError
  data_count space checks = do
    ensure_space_exists plane space
    map_err storage_error (plane.storage.count s space checks)

  unfoldable pub data_delete_matching : List ℕ → List Check → Result ℕ DataError × S
  data_delete_matching space checks =
      guarded (ensure_space_exists plane space) s (plane.storage.delete_matching s space checks)
