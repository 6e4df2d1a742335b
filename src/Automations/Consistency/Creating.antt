-- ===== src/Automations/Consistency/Creating.antt =====
-- The creation of automations keeps them consistent.
use plomio.Core.Result.{
  Error, Result, ok, err, duplicated_object, integrity_error, duplicate_automation,
  invalid_check_frequency,
}
use plomio.Database.{Database, pure, raise_if, modify, fresh_id, ◌>>◌}
use plomio.Database.Preserves.{
  Preserves, >>=-Preserves, transaction-Preserves, pure-Preserves, gets-Preserves, if-Preserves,
  raise_if-Preserves, Option-Preserves,
}
use plomio.Database.AutomationTables.{Automation}
use plomio.Billing.Wallets.{BillingConfig}
use plomio.Automations.{
  find_automation, ℕ, Bool, Option, List, ltb, find_where, ◌∷◌, not, filter_where,
}
use plomio.Automations.Untouched.{charge-Preserves, guard-Preserves}
use plomio.Automations.Creation.{
  Articles, AutomationCreateData, create_row, translated, insert_automation, create_automation,
  automation_charge, collides, is_threshold, is_duplicate_of, new_automation,
}
use plomio.Automations.Creation.Batch.{
  caught, Slot, Key, classify, candidates, insert_rows, bulk_create, find_duplicates, settle,
  BulkCreateResult, bulk_create_automations, insert_row, is_key, key_of,
}
use plomio.Automations.Creation.Unique.{append-IsUnique}
use plomio.Automations.Consistency.{IsConsistent, AreConsistent, is_some}
use plomio.Prelude.{
  true, false, ℕ, Bool, any_where, Option, ◌≡◌, find_where, ltb, List, ◌||◌, is_some, not, [], ◌++◌,
  arith, filter_where, if◌then◌else◌, refl,
}
use plomio.Tasks.{ensure_can_spend}

fresh-Preserves : Preserves IsConsistent fresh_id
fresh-Preserves = record { kept = λ db h. h }

create_row-Preserves :
    (a : Automation) → Preserves IsConsistent (λ db. translated (create_row a db))
unfolding create_row
create_row-Preserves a = record {
  kept = λ db h.
      by_test db h (any_where (collides a) db.automations) refl
        (is_threshold a.price_drop_threshold_percent);
}
  where
    by_test :
        (db : Database)
        → IsConsistent db
        → (taken : Bool) → any_where (collides a) db.automations ≡ taken
        → (fits : Bool)
        → IsConsistent
            (translated (
              (raise_if (taken || not fits) duplicated_object
                  >> (modify (λ d. record d { automations = d.automations ++ a ∷ [] }) >> pure a))
                db)).1
    by_test db h true e fits = h
    by_test db h false e true = (append-IsUnique db.automations a h.0 e, h.1)
    by_test db h false e false = h

insert-Preserves :
    (articles : Articles) (now u : ℕ) (k : Option ℕ) (item : AutomationCreateData)
    → Preserves IsConsistent (insert_automation articles now u k item)
unfolding insert_automation
insert-Preserves articles now u k item = >>=-Preserves IsConsistent fresh-Preserves (λ id.
    >>=-Preserves IsConsistent
      (gets-Preserves IsConsistent (λ db.
        find_where (is_duplicate_of (new_automation articles now u k item id)) db.automations))
      (λ d.
        >>=-Preserves IsConsistent
          (raise_if-Preserves IsConsistent (is_some d) duplicate_automation)
          (λ _. create_row-Preserves (new_automation articles now u k item id))))

pub create-Preserves :
    (articles : Articles) (config : BillingConfig) (now u : ℕ) (item : AutomationCreateData)
    (min_frequency : ℕ) (k : Option ℕ)
    → Preserves IsConsistent (create_automation articles config now u item min_frequency k)
unfolding create_automation
create-Preserves articles config now u item min_frequency k =
    >>=-Preserves IsConsistent
      (raise_if-Preserves IsConsistent (ltb item.check_frequency_minutes min_frequency)
        invalid_check_frequency)
      (λ _. >>=-Preserves IsConsistent (guard-Preserves AreConsistent now u k) (λ _.
        >>=-Preserves IsConsistent
          (transaction-Preserves IsConsistent (insert-Preserves articles now u k item))
          (λ a.
            >>=-Preserves IsConsistent
              (charge-Preserves AreConsistent config now (automation_charge u k a.id))
              (λ _. pure-Preserves IsConsistent a))))

classify-Preserves :
    (articles : Articles) (now u : ℕ) (k : Option ℕ) (min_frequency : ℕ) (block : Option Error)
    (items : List AutomationCreateData) (seen : List Key)
    → Preserves IsConsistent (classify articles now u k min_frequency block items seen)
unfolding classify
classify-Preserves articles now u k min_frequency block [] seen = pure-Preserves IsConsistent []
classify-Preserves articles now u k min_frequency block (item ∷ items) seen =
    let again = classify-Preserves articles now u k min_frequency block items in
    if-Preserves IsConsistent (ltb item.check_frequency_minutes min_frequency)
      (>>=-Preserves IsConsistent (again seen)
        (λ slots. pure-Preserves IsConsistent (Slot.rejected invalid_check_frequency ∷ slots)))
      (Option-Preserves IsConsistent block
        (if-Preserves IsConsistent (any_where (is_key (key_of articles item)) seen)
          (>>=-Preserves IsConsistent (again seen)
            (λ slots. pure-Preserves IsConsistent (Slot.rejected duplicate_automation ∷ slots)))
          (>>=-Preserves IsConsistent fresh-Preserves (λ id.
            >>=-Preserves IsConsistent (again (key_of articles item ∷ seen)) (λ slots.
              pure-Preserves IsConsistent
                (Slot.candidate (new_automation articles now u k item id) ∷ slots)))))
        (λ e.
          >>=-Preserves IsConsistent (again seen)
            (λ slots. pure-Preserves IsConsistent (Slot.rejected e ∷ slots))))

-- A row joins the table only where the index accepts it.
insert_row-IsUnique :
    (e : Automation) (db : Database) (taken : Bool)
    → IsConsistent db
    → any_where (collides e) db.automations ≡ taken
    → IsConsistent
        (record db { automations = if taken then db.automations else db.automations ++ e ∷ [] })
insert_row-IsUnique e db true h t = h
insert_row-IsUnique e db false h t = (append-IsUnique db.automations e h.0 t, h.1)

insert_row-Preserves : (e : Automation) → Preserves IsConsistent (modify (insert_row e))
insert_row-Preserves e = record {
  kept = λ db h. insert_row-IsUnique e db (any_where (collides e) db.automations) h refl;
}

insert_rows-Preserves : (es : List Automation) → Preserves IsConsistent (insert_rows es)
unfolding insert_rows
insert_rows-Preserves [] = pure-Preserves IsConsistent tt
insert_rows-Preserves (e ∷ es) =
    >>=-Preserves IsConsistent
      (raise_if-Preserves IsConsistent (not (is_threshold e.price_drop_threshold_percent))
        integrity_error)
      (λ _. >>=-Preserves IsConsistent (insert_row-Preserves e) (λ _. insert_rows-Preserves es))

bulk-Preserves : (u : ℕ) (es : List Automation) → Preserves IsConsistent (bulk_create u es)
unfolding bulk_create
bulk-Preserves u es = record {
  kept = λ db h.
      (insert_rows-Preserves
          (filter_where (λ e. not (find_duplicates u es db.automations e)) es)).kept
        db h;
}

settle-Preserves :
    (config : BillingConfig) (now u : ℕ) (k : Option ℕ) (slots : List Slot)
    → Preserves IsConsistent (settle config now u k slots)
unfolding settle
settle-Preserves config now u k [] = pure-Preserves IsConsistent []
settle-Preserves config now u k (Slot.rejected e ∷ slots) =
    >>=-Preserves IsConsistent (settle-Preserves config now u k slots)
      (λ rest. pure-Preserves IsConsistent (BulkCreateResult.refused e ∷ rest))
settle-Preserves config now u k (Slot.candidate a ∷ slots) =
    >>=-Preserves IsConsistent
      (gets-Preserves IsConsistent (λ db. find_automation a.id db.automations))
      (λ o.
        >>=-Preserves IsConsistent
          (Option-Preserves IsConsistent o
            (pure-Preserves IsConsistent (BulkCreateResult.refused duplicate_automation))
            (λ row.
              >>=-Preserves IsConsistent
                (charge-Preserves AreConsistent config now (automation_charge u k row.id))
                (λ _. pure-Preserves IsConsistent (BulkCreateResult.created row))))
          (λ result.
            >>=-Preserves IsConsistent (settle-Preserves config now u k slots)
              (λ rest. pure-Preserves IsConsistent (result ∷ rest))))

caught-reads : (r : Result (Unit {0}) × Database) → (caught r).1 ≡ r.1
caught-reads (ok x, db) = refl
caught-reads (err e, db) = ground arith

caught-Preserves :
    (now u : ℕ) (k : Option ℕ) → Preserves IsConsistent (λ db. caught (ensure_can_spend now u k db))
caught-Preserves now u k = record {
  kept = λ db h.
      rw (caught-reads (ensure_can_spend now u k db))
        ((guard-Preserves AreConsistent now u k).kept db h);
}

pub create_many-Preserves :
    (articles : Articles) (config : BillingConfig) (now u : ℕ) (items : List AutomationCreateData)
    (min_frequency : ℕ) (k : Option ℕ)
    → Preserves IsConsistent (bulk_create_automations articles config now u items min_frequency k)
unfolding bulk_create_automations
create_many-Preserves articles config now u items min_frequency k =
    >>=-Preserves IsConsistent (caught-Preserves now u k) (λ block.
      >>=-Preserves IsConsistent (classify-Preserves articles now u k min_frequency block items [])
        (λ slots.
          >>=-Preserves IsConsistent
            (transaction-Preserves IsConsistent (bulk-Preserves u (candidates slots)))
            (λ _. settle-Preserves config now u k slots)))
