-- ===== src/Datastore/Artifact.antt =====
-- datastore/datastore.go: the name, the group and the provides of the installed artifact.
pub mod Laws
use ota_pulse.Prelude.{
  String, Bool, false, Option, none, some, List, [], ◌∷◌, map, ◌=ₛ◌, if◌then◌else◌, lookup, insert,
  delete,
}
use ota_pulse.Datastore.Db.{
  Entry, text_entry, provides_entry, Db, TxnFaults, artifact_name_key, artifact_group_key,
  artifact_type_info_provides_key, Read, missing, undecodable, found, read_provides,
}

abbrev pub Provides : Type 0
Provides = List (String × String)

abbrev pub keys : Provides → List String
keys = map (λ p. p.0)

unfoldable pub delete_all : List String → Provides → Provides
delete_all [] m = m
delete_all (k ∷ ks) m = delete k (delete_all ks m)

-- The loop that overrides the provides of the store by those of the artifact.
unfoldable pub insert_all : Provides → Provides → Provides
insert_all [] m = m
insert_all ((k, v) ∷ new) m = insert k v (insert_all new m)

infixl 5 ◌>>=◌
abbrev ◌>>=◌ {ℓ κ} : {A : Type ℓ} {B : Type κ} → Option A → (A → Option B) → Option B
none >>= f = none
some a >>= f = f a

-- `matching` is `utils.StringsMatchingWildcards` of mender-artifact: the names, out of the first
-- list, that a pattern of the second matches; `none` is its error.
module _ (matching : List String → List String → Option (List String)) where
  preserved : List String → Read Provides → Option Provides
  preserved clears missing = some []
  preserved clears undecodable = none
  preserved clears (found p) = do entries ← matching (keys p) clears; some (delete_all entries p)

  unfoldable pub get_provides_to_preserve : Db → List String → Option Provides
  unfolding preserved
  get_provides_to_preserve db clears =
      preserved clears (read_provides (lookup artifact_type_info_provides_key db))

  unfoldable pub provides_to_commit : Db → Provides → Option (List String) → Option Provides
  unfolding get_provides_to_preserve
  provides_to_commit db provides none = some provides
  provides_to_commit db provides (some clears) = do
    old ← get_provides_to_preserve db clears
    some (insert_all provides old)

  drop_group : Db → Option (List String) → Option Db
  drop_group db none = some (delete artifact_group_key db)
  drop_group db (some clears) = do
    entries ← matching ("artifact_group" ∷ []) clears
    some (elim entries [ [] ↦ db | _ ∷ _ ↦ delete artifact_group_key db ])

  unfoldable pub commit_group : Db → String → Option (List String) → Option Db
  unfolding drop_group
  commit_group db group clears =
      if group =ₛ ""
      then drop_group db clears
      else some (insert artifact_group_key (text_entry group) db)

  -- `CommitArtifactData`, inside a transaction; `none` is an error, which aborts it.
  unfoldable pub commit_artifact_data :
      String → String → Provides → Option (List String) → Db → Option Db
  unfolding provides_to_commit commit_group
  commit_artifact_data name group provides clears db = do
    let named = insert artifact_name_key (text_entry name) db
    committed ← provides_to_commit named provides clears
    let stored = insert artifact_type_info_provides_key (provides_entry committed) named
    commit_group stored group clears

abbrev read_text : Option Entry → Read String
read_text none = missing
read_text (some (text_entry s)) = found s
read_text (some _) = undecodable

-- Adds a text of the store to the provides under a key, if it is there. (JSON data is never stored
-- under the keys of these texts, and is an error here.)
abbrev with_text : String → Read String → Provides → Option Provides
with_text key missing p = some p
with_text key undecodable p = none
with_text key (found s) p = some (insert key s p)

-- The type-info provides are decoded into the map that holds the other two.
abbrev with_provides : Read Provides → Provides → Option Provides
with_provides missing p = some p
with_provides undecodable p = none
with_provides (found new) p = some (insert_all new p)

-- `LoadProvides`; `none` is an error.
unfoldable pub load_provides : TxnFaults → Db → Option Provides
load_provides f db = if f.open_fails then none else if f.read_fails then none else do
  named ← with_text "artifact_name" (read_text (lookup artifact_name_key db)) []
  grouped ← with_text "artifact_group" (read_text (lookup artifact_group_key db)) named
  with_provides (read_provides (lookup artifact_type_info_provides_key db)) grouped
