-- ===== src/Insertion/Strong.antt =====
-- Strong entities: posts and comments that users create.
use tenjin.Common.{Bool, true, false, ◌≡◌, refl, ap, ◌∙◌, List, ◌∷◌, none}
use tenjin.Common.Action.{Action, Error, ok, err, key_error, bind-ok}
use tenjin.Events.{StreamedEvent}
use tenjin.Events.Names.{EventName}
use tenjin.Insertion.{
  Connection, transaction, leave_transaction, batch_insert_strong_entities, strong_entities_of,
  insert_batch,
}
use tenjin.Insertion.Payloads.{Builtins, payload_fields, association_db_metadata}

-- the events that create, or delete, an entity with a table of its own
abbrev pub is_strong : EventName → Bool
is_strong EventName.post_create = true
is_strong EventName.comment_create = true
is_strong EventName.comment_delete = true
is_strong _ = false

module _ {W : Type 0} (conn : Connection W) (builtins : Builtins) where
  -- a transaction whose body raises is rolled back, and it raises the same
  transaction_raises :
      {A : Type 0} (body : Action W A) (w w₁ w₂ w₃ : W) (e : Error)
      → conn.begin w ≡ (ok tt, w₁)
      → body w₁ ≡ (err e, w₂)
      → conn.rollback w₂ ≡ (ok tt, w₃)
      → transaction conn body w ≡ (err e, w₃)
  unfolding transaction leave_transaction
  transaction_raises body w w₁ w₂ w₃ e begun raised rolled =
      bind-ok conn.begin (λ _ v. leave_transaction conn (body v)) w tt w₁ begun
      ∙ ap (leave_transaction conn) raised
      ∙ bind-ok conn.rollback (λ _ v. (err e, v)) w₂ tt w₃ rolled

  strong_raises :
      (first : StreamedEvent) (events : List StreamedEvent) (w : W)
      → (name : EventName) → first.name ≡ name
      → is_strong name ≡ true
      → batch_insert_strong_entities conn builtins (first ∷ events) w ≡ (err key_error, w)
  unfolding batch_insert_strong_entities strong_entities_of payload_fields association_db_metadata
  strong_raises first events w EventName.post_create e h = rw e refl
  strong_raises first events w EventName.comment_create e h = rw e refl
  strong_raises first events w EventName.comment_delete e h = rw e refl
  strong_raises first events w _ e h = cc

  -- A batch that begins with the creation of a post or a comment is never inserted: no table is
  -- known for it, so the transaction that was begun is rolled back and a KeyError is raised, with
  -- no statement executed.
  pub insert_batch_strong_raises :
      (first : StreamedEvent) (events : List StreamedEvent) (w w₁ w₂ : W)
      → is_strong first.name ≡ true
      → conn.begin w ≡ (ok tt, w₁)
      → conn.rollback w₁ ≡ (ok tt, w₂)
      → insert_batch conn builtins none (first ∷ events) w ≡ (err key_error, w₂)
  unfolding insert_batch
  insert_batch_strong_raises first events w w₁ w₂ strong begun rolled =
      transaction_raises (batch_insert_strong_entities conn builtins (first ∷ events)) w w₁ w₁ w₂
        key_error begun (strong_raises first events w₁ first.name refl strong) rolled
