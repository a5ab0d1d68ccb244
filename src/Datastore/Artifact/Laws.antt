-- ===== src/Datastore/Artifact/Laws.antt =====
-- What committing an artifact leaves in the store.
use ota_pulse.Prelude.{
  String, ◌≡◌, refl, Bool, true, false, Option, none, some, List, [], ◌∷◌, arith, ◌=ₛ◌,
  Option-cases, inl, inr, if◌then◌else◌, contains, lookup, insert, lookup-insert, lookup-delete,
}
use ota_pulse.Datastore.Db.{
  text_entry, provides_entry, Db, artifact_name_key, artifact_group_key,
  artifact_type_info_provides_key, found, read_provides,
}
use ota_pulse.Datastore.Artifact.{
  Provides, keys, delete_all, insert_all, provides_to_commit, commit_group, commit_artifact_data,
}

-- The first value, if there is one.
abbrev pub or_else : Option String → Option String → Option String
or_else (some v) _ = some v
or_else none w = w

pub lookup-insert_all :
    (j : String) (new m : Provides)
    → lookup j (insert_all new m) ≡ or_else (lookup j new) (lookup j m)
unfolding insert_all lookup
lookup-insert_all j [] m = refl
lookup-insert_all j ((k, v) ∷ new) m =
    rw (lookup-insert k j v (insert_all new m)) (ground (arith, lookup-insert_all j new m))

pub lookup-delete_all :
    (j : String) (ks : List String) (m : Provides)
    → lookup j (delete_all ks m) ≡ (if contains ks j then none else lookup j m)
unfolding delete_all contains lookup
lookup-delete_all j [] m = refl
lookup-delete_all j (k ∷ ks) m =
    rw (lookup-delete k j (delete_all ks m)) (ground (arith, lookup-delete_all j ks m))

module _ (matching : List String → List String → Option (List String)) where
  -- Writing or dropping the group leaves the other entries.
  lookup-commit_group :
      (j group : String) (clears : Option (List String)) (db : Db) {db' : Db}
      → commit_group matching db group clears ≡ some db'
      → artifact_group_key =ₛ j ≡ false
      → lookup j db' ≡ lookup j db
  unfolding commit_group
  lookup-commit_group j group clears db h ne = ground (
    arith,
    lookup-insert artifact_group_key j (text_entry group) db,
    lookup-delete artifact_group_key j db,
  )

  abbrev matched : Option (List String) → String → Bool
  matched none k = true
  matched (some cleared) k = contains cleared k

  -- What a key of the old provides keeps: all is dropped if the artifact has no list of patterns,
  -- and else what a pattern matches.
  abbrev pub surviving : Provides → Option (List String) → String → Option String
  surviving old none k = none
  surviving old (some clears) k =
      if matched (matching (keys old) clears) k then none else lookup k old

  lookup-provides_to_commit :
      (new old : Provides) (clears : Option (List String)) (db : Db) {p : Provides}
      → read_provides (lookup artifact_type_info_provides_key db) ≡ found old
      → provides_to_commit matching db new clears ≡ some p
      → (k : String) → lookup k p ≡ or_else (lookup k new) (surviving old clears k)
  unfolding provides_to_commit
  lookup-provides_to_commit new old none db o h k = ground arith
  lookup-provides_to_commit new old (some clears) db {p} o h k =
      elim (Option-cases (matching (keys old) clears)) [
        | inl e ↦ absurd (ground arith)
        | inr (es, e) ↦
            let kept : insert_all new (delete_all es old) ≡ p = ground arith in
            rw (← kept) (rw lookup-insert_all (rw lookup-delete_all (rw e refl)))
      ]

  pub commit_artifact_data-name :
      (name group : String) (new : Provides) (clears : Option (List String)) (db : Db) {db' : Db}
      → commit_artifact_data matching name group new clears db ≡ some db'
      → lookup artifact_name_key db' ≡ some (text_entry name)
  unfolding commit_artifact_data
  commit_artifact_data-name name group new clears db {db'} h =
      let named : Db = insert artifact_name_key (text_entry name) db in
      elim (Option-cases (provides_to_commit matching named new clears)) [
        | inl e ↦ absurd (ground arith)
        | inr (p, e) ↦
            let stored = insert artifact_type_info_provides_key (provides_entry p) named in
            let grouped : commit_group matching stored group clears ≡ some db' = ground arith in
            rw (lookup-commit_group artifact_name_key group clears stored grouped refl)
              (simp lookup-insert)
      ]

  pub commit_artifact_data-keeps :
      (j name group : String) (new : Provides) (clears : Option (List String)) (db : Db) {db' : Db}
      → artifact_name_key =ₛ j ≡ false
      → artifact_group_key =ₛ j ≡ false
      → artifact_type_info_provides_key =ₛ j ≡ false
      → commit_artifact_data matching name group new clears db ≡ some db'
      → lookup j db' ≡ lookup j db
  unfolding commit_artifact_data
  commit_artifact_data-keeps j name group new clears db {db'} n g t h =
      let named : Db = insert artifact_name_key (text_entry name) db in
      elim (Option-cases (provides_to_commit matching named new clears)) [
        | inl e ↦ absurd (ground arith)
        | inr (p, e) ↦
            let stored = insert artifact_type_info_provides_key (provides_entry p) named in
            let grouped : commit_group matching stored group clears ≡ some db' = ground arith in
            rw (lookup-commit_group j group clears stored grouped g) (simp (lookup-insert, n, t))
      ]

  -- A commit that succeeds leaves the name of the artifact, and provides in which each key has the
  -- value of the artifact, if it sets one, and else what survives of the old provides.
  pub commit_artifact_data-provides :
      (name group : String) (new old : Provides) (clears : Option (List String)) (db : Db)
      {db' : Db}
      → read_provides (lookup artifact_type_info_provides_key db) ≡ found old
      → commit_artifact_data matching name group new clears db ≡ some db'
      → (lookup artifact_name_key db' ≡ some (text_entry name))
        × ((p : Provides) × (lookup artifact_type_info_provides_key db' ≡ some (provides_entry p))
            × ((k : String) → lookup k p ≡ or_else (lookup k new) (surviving old clears k)))
  unfolding commit_artifact_data
  commit_artifact_data-provides name group new old clears db {db'} o h =
      elim (Option-cases (provides_to_commit matching named new clears)) [
        | inl e ↦ absurd (ground arith)
        | inr (p, e) ↦
            let stored = insert artifact_type_info_provides_key (provides_entry p) named in
            let grouped : commit_group matching stored group clears ≡ some db' = ground arith in
            (
              rw (lookup-commit_group artifact_name_key group clears stored grouped refl)
                  (simp lookup-insert),
              (
                p,
                rw
                    (lookup-commit_group artifact_type_info_provides_key group clears stored grouped
                      refl)
                    (simp lookup-insert),
                lookup-provides_to_commit new old clears named (simp lookup-insert o) e,
              ),
            )
      ]
    where
      named : Db
      named = insert artifact_name_key (text_entry name) db
