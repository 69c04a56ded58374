-- ===== src/Router/Names.antt =====
-- The name tables of src/client/src/router.rs: names of databases, and of collections in them.
use engula.HashMap
use mathlib.Core.Path.{ap₂}
use text.Mathlib.Text.{◌==◌ as str_eq}
use text.Mathlib.TextEquality.{eq_iff}
use Prim.Native.String.{String}
use engula.Prelude.{
  ==_iff, not, ◌==◌, Bool-cases, Option, ap, if◌then◌else◌, inl, inr, none, some, some_injective,
  sym, ℕ, ◌∙◌, ◌≡◌, ◌≢◌, ◌⊎◌,
}
use engula.Router.{
  forget_collection, apply_collection, apply_database, apply_delete_event, renamed_database, State,
  renamed_collection,
}
use engula.Meta.{CollectionDesc, DatabaseDesc, delete_collection}
use engula.HashMap.{nat_key, string_key, pair_key, Map}

-- Every name leads to a collection that has it.
unfoldable pub AreCollectionNamesCurrent : State → Type 0
AreCollectionNamesCurrent s =
    (db : ℕ) (name : String) (id : ℕ)
    → HashMap.get (db, name) s.co_name_lookup ≡ some id
    → (desc : CollectionDesc) × (HashMap.get id s.co_id_lookup ≡ some desc)
      × (desc.db ≡ db)
      × (desc.name ≡ name)

renamed :
    (db : ℕ) (name : String) (old : Option CollectionDesc) (m : Map (ℕ × String) ℕ) (j : ℕ × String)
    {id : ℕ}
    → HashMap.get j (renamed_collection db name old m) ≡ some id
    → (HashMap.get j m ≡ some id)
      × ((d : CollectionDesc) → old ≡ some d → (d.name ≡ name) ⊎ ((db, d.name) ≢ j))
unfolding renamed_collection
renamed db name none m j h = (h, λ d e. cc)
renamed db name (some old) m j h = elim (Bool-cases (str_eq old.name name)) [
  | inl same ↦ (
    sym (ap (λ b. HashMap.get j (if not b then HashMap.remove (db, old.name) m else m)) same) ∙ h,
    λ d e. inl (ap (λ o. o.name) (sym (some_injective e)) ∙ (eq_iff old.name name).0 same),
  )
  | inr changed ↦
      let gone =
        HashMap.removed j (db, old.name) m
          (sym (
              ap (λ b. HashMap.get j (if not b then HashMap.remove (db, old.name) m else m))
                changed)
            ∙ h) in
      (gone.1, λ d e. inr (λ same. gone.0 (ap (λ o. (db, o.name)) (some_injective e) ∙ same)))
]

-- Where every name leads to a collection that has it, this stays so when a collection is created
-- or renamed in its database.
pub apply_collection-AreCollectionNamesCurrent :
    (desc : CollectionDesc) (s : State)
    → AreCollectionNamesCurrent s
    → ((old : CollectionDesc) → HashMap.get desc.id s.co_id_lookup ≡ some old → old.db ≡ desc.db)
    → AreCollectionNamesCurrent (apply_collection desc s)
unfolding AreCollectionNamesCurrent apply_collection
apply_collection-AreCollectionNamesCurrent desc s current same_db db name id at =
    elim (HashMap.inserted {K = ℕ × String} (db, name) (desc.db, desc.name) desc.id
      (renamed_collection desc.db desc.name (HashMap.get desc.id s.co_id_lookup) s.co_name_lookup)
      at) [
        | inl here ↦ (
          desc,
          ap (λ i. HashMap.get i (HashMap.insert desc.id desc s.co_id_lookup)) (sym here.1)
              ∙ HashMap.put_in desc.id desc s.co_id_lookup,
          ap (λ p. p.0) here.0,
          ap (λ p. p.1) here.0,
        )
        | inr elsewhere ↦
            let before =
              renamed desc.db desc.name (HashMap.get desc.id s.co_id_lookup) s.co_name_lookup
                (db, name) elsewhere.1 in
            let was = current db name id before.0 in
            elim (Bool-cases (desc.id == id)) [
              | inl same ↦
                  let old_is =
                    ap (λ i. HashMap.get i s.co_id_lookup) ((==_iff desc.id id).0 same) ∙ was.1 in
                  let in_db = same_db was.0 old_is in
                  elim (before.1 was.0 old_is) [
                    | inl unchanged ↦ absurd (
                        elsewhere.0
                          (ap₂ (λ a b. (a, b)) (sym in_db ∙ was.2) (sym unchanged ∙ was.3)))
                    | inr changed ↦ absurd (changed (ap₂ (λ a b. (a, b)) (sym in_db ∙ was.2) was.3))
                  ]
              | inr unlike ↦ (
                was.0,
                HashMap.kept id desc.id desc s.co_id_lookup
                      (λ e. cc (unlike, (==_iff desc.id id).1 e))
                    ∙ was.1,
                was.2,
                was.3,
              )
            ]
      ]

forgot :
    (old : Option CollectionDesc) (m : Map (ℕ × String) ℕ) (j : ℕ × String) {id : ℕ}
    → HashMap.get j (forget_collection old m) ≡ some id
    → (HashMap.get j m ≡ some id) × ((d : CollectionDesc) → old ≡ some d → (d.db, d.name) ≢ j)
unfolding forget_collection
forgot none m j h = (h, λ d e. cc)
forgot (some old) m j h =
    let gone = HashMap.removed j (old.db, old.name) m h in
    (gone.1, λ d e same. gone.0 (ap (λ o. (o.db, o.name)) (some_injective e) ∙ same))

-- Where every name leads to a collection that has it, this stays so when a collection is deleted.
pub delete_collection-AreCollectionNamesCurrent :
    (co : ℕ) (s : State) {t : State}
    → AreCollectionNamesCurrent s
    → apply_delete_event (delete_collection co) s ≡ some t
    → AreCollectionNamesCurrent t
unfolding AreCollectionNamesCurrent apply_delete_event
delete_collection-AreCollectionNamesCurrent co s current done db name id at =
    let t_is = some_injective done in
    let gone =
      forgot (HashMap.get co s.co_id_lookup) s.co_name_lookup (db, name)
        (ap (λ u. HashMap.get (db, name) u.co_name_lookup) t_is ∙ at) in
    let was = current db name id gone.0 in
    (
      was.0,
      ap (λ u. HashMap.get id u.co_id_lookup) (sym t_is)
          ∙ HashMap.left_in id co s.co_id_lookup (λ same.
            gone.1 was.0 (ap (λ i. HashMap.get i s.co_id_lookup) same ∙ was.1)
              (ap₂ (λ a b. (a, b)) was.2 was.3))
          ∙ was.1,
      was.2,
      was.3,
    )

old_name :
    (name : String) (old : DatabaseDesc) (m : Map String ℕ)
    → old.name ≢ name
    → HashMap.get old.name (renamed_database name (some old) m) ≡ HashMap.get old.name m
unfolding renamed_database
old_name name old m changed = elim (Bool-cases (str_eq old.name name)) [
  | inl same ↦ absurd (changed ((eq_iff old.name name).0 same))
  | inr unlike ↦
      ap (λ b. HashMap.get old.name (if not b then HashMap.remove name m else m)) unlike
      ∙ HashMap.left_in old.name name m (λ e. changed (sym e))
]

-- After a database is renamed its old name still leads to it, as it did before.
pub apply_database-renamed :
    (desc old : DatabaseDesc) (s : State)
    → HashMap.get desc.id s.db_id_lookup ≡ some old
    → old.name ≢ desc.name
    → HashMap.get old.name s.db_name_lookup ≡ some desc.id
    → HashMap.get old.name (apply_database desc s).db_name_lookup ≡ some desc.id
unfolding apply_database renamed_database
apply_database-renamed desc old s known changed led =
    HashMap.kept old.name desc.name desc.id
      (renamed_database desc.name (HashMap.get desc.id s.db_id_lookup) s.db_name_lookup)
      (λ e. changed (sym e))
    ∙ ap (λ o. HashMap.get old.name (renamed_database desc.name o s.db_name_lookup)) known
    ∙ old_name desc.name old s.db_name_lookup changed
    ∙ led
