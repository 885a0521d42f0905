-- ===== src/Insertion/Association.antt =====
-- The insertion of associations, whose last statement cannot be formatted.
use tenjin.Common.{ℕ, ◌≡◌, ◌≢◌, refl, String, List, [], ◌∷◌, map, some}
use tenjin.Common.Action.{
  Action, Result, ok, err, key_error, value_error, lift, bind-returns, ◌>>=◌, ◌>>◌,
}
use tenjin.Common.Dict.{member}
use tenjin.Common.Result.{or_raise}
use tenjin.Events.{StreamedEvent}
use tenjin.Insertion.{
  Connection, RowAction, Statement, temp_table, weak_insertion_copy, format,
  prepare_weak_insertion_sql, copy_events, insert_association, transaction, leave_transaction,
  batch_insert_association_entities, insert_batch, batch_insert_with_isolation,
}
use tenjin.Insertion.Payloads.{FieldType, Builtins, payload_fields, association_db_metadata}
use tenjin.Insertion.Bisection.{bisection-Unchanged}

-- No world makes the action return.
abbrev pub Fails : {W A : Type 0} → Action W A → Type 0
Fails {W} {A} m = (w v : W) (a : A) → m w ≢ (ok a, v)

bind-Fails :
    {W A B : Type 0} (m : Action W B) (k : B → Action W A)
    → ((b : B) → Fails (k b))
    → Fails (m >>= k)
bind-Fails m k fails w v a h = let (b, u, e, g) = bind-returns m k w a v h in fails b u v a g

module _ {W : Type 0} (conn : Connection W) (builtins : Builtins) (action : RowAction) where
  statement-Fails :
      (table staging : String) (columns pk_columns : List String)
      (k : Statement → Action W (List ℕ))
      → Fails (lift (prepare_weak_insertion_sql table staging columns pk_columns action) >>= k)
  unfolding prepare_weak_insertion_sql format member
  statement-Fails table staging columns pk_columns k w v a h = cc

  insert_association-Fails :
      (fields : List (String × FieldType)) (metadata : String × List String)
      (events : List StreamedEvent)
      → Fails (insert_association conn builtins fields metadata events action)
  unfolding insert_association
  insert_association-Fails fields (table, pk_columns) events w v a h =
      let staged = conn.staging_table table w in
      let (staging, start) = staged in
      bind-Fails (conn.execute (temp_table staging table)) _
        (λ _. bind-Fails (conn.copy (weak_insertion_copy staging (map (λ f. f.0) fields))) _ (λ _.
          bind-Fails (copy_events conn builtins fields events) _ (λ _.
            statement-Fails table staging (map (λ f. f.0) fields) pk_columns
              (λ statement. conn.execute statement >> conn.fetch_ids))))
        start v a h

  entities-Fails :
      (events : List StreamedEvent)
      → Fails (batch_insert_association_entities conn builtins events action)
  unfolding batch_insert_association_entities
  entities-Fails [] w v a h = cc
  entities-Fails (first ∷ events) w v a h =
      bind-Fails (lift (or_raise (payload_fields first.name) value_error)) _
        (λ fields.
          bind-Fails (lift (or_raise (association_db_metadata first.name) key_error)) _
            (λ metadata. insert_association-Fails fields metadata (first ∷ events)))
        w v a h

  left :
      {A : Type 0} (o : Result A × W) (v : W) (a : A)
      → ((b : A) (u : W) → o ≢ (ok b, u))
      → leave_transaction conn o ≢ (ok a, v)
  unfolding leave_transaction
  left (ok b, u) v a never h = absurd (never b u refl)
  left (err e, u) v a never h =
      let (x, y, f, k) = bind-returns conn.rollback (λ _ w. (err e, w)) u a v h in cc

  insert_batch-Fails :
      (events : List StreamedEvent) → Fails (insert_batch conn builtins (some action) events)
  unfolding insert_batch transaction
  insert_batch-Fails events w v a h =
      let (x, y, f, k) =
        bind-returns conn.begin
          (λ _ u.
            leave_transaction conn
              (batch_insert_association_entities conn builtins events action u))
          w a v h in
      left (batch_insert_association_entities conn builtins events action y) v a
        (λ b u. entities-Fails events y u b) k

  -- Whatever the connection does: inserting a batch of associations with the bisection adds no ID to
  -- the inserted ones, at any depth.
  pub association_inserts_none :
      (depth : ℕ) (events : List StreamedEvent) (inserted : List ℕ) (w : W)
      → (batch_insert_with_isolation
          (insert_batch conn builtins (some action))
          depth
          events
          inserted
          w).1
        ≡ inserted
  association_inserts_none =
      bisection-Unchanged (insert_batch conn builtins (some action))
        (λ es w v ids. insert_batch-Fails es w v ids)
