-- ===== src/Acl/Laws.antt =====
-- What the gate relies on in its store, and a store that has it.
use yaad_grove.Base.{
  Bool-cases, ◌∙◌, ap, String, Option, none, some, Map, lookup, insert, lookup-insert,
  if◌then◌else◌, same_text, same_text_iff, Result, ok, err, ◌≡◌, refl, arith, inl, inr,
}
use yaad_grove.Acl.{Record, zero_record, Store}

-- `view s id` is the record of `id`. A call that reports an error has changed no record.
pub record IsStore {E S : Type 0} (store : Store E S) (view : S → String → Record) : Type 0 where
  pub user_id-view : (s : S) (id : String) → (view s id).user_id ≡ id
  pub get_view : (s : S) (id : String) {r : Record} → store.get id s ≡ ok r → r ≡ view s id
  pub put_view :
      (s : S) (r : Record) (id : String)
      → (store.put r s).0 ≡ none
      → view (store.put r s).1 id ≡ (if same_text r.user_id id then r else view s id)
  pub put_failed :
      (s : S) (r : Record) (id : String) {e : E}
      → (store.put r s).0 ≡ some e
      → view (store.put r s).1 id ≡ view s id
  pub update_view :
      (s : S) (f : Record → Result E Record) (k id : String) (r : Record)
      → f (view s k) ≡ ok r
      → r.user_id ≡ k
      → (store.update k f s).0 ≡ none
      → view (store.update k f s).1 id ≡ (if same_text k id then r else view s id)
  pub update_failed :
      (s : S) (f : Record → Result E Record) (k id : String) {e : E}
      → (store.update k f s).0 ≡ some e
      → view (store.update k f s).1 id ≡ view s id

-- A table of records that never fails.
abbrev pub record_or : String → Option Record → Record
record_or id none = zero_record id
record_or id (some r) = record r { user_id = id }

abbrev pub table_view : Map Record → String → Record
table_view m id = record_or id (lookup id m)

updated : {E : Type 0} → String → Map Record → Result E Record → Option E × Map Record
updated id m (err e) = (some e, m)
updated id m (ok r) = (none, insert id r m)

record_or-user_id : (id : String) (o : Option Record) → (record_or id o).user_id ≡ id
record_or-user_id id none = refl
record_or-user_id id (some r) = refl

unfoldable pub table_store : {E : Type 0} → Store E (Map Record)
unfolding updated
table_store = record {
  get = λ id m. ok (table_view m id);
  put = λ r m. (none, insert r.user_id r m);
  update = λ id f m. updated id m (f (table_view m id));
}

record_or-insert :
    (k id : String) (r : Record) (m : Map Record)
    → r.user_id ≡ k
    → table_view (insert k r m) id ≡ (if same_text k id then r else table_view m id)
record_or-insert k id r m e = elim (Bool-cases (same_text k id)) [
  | inl same ↦
      rw (lookup-insert k id r m, same) (let e' = e ∙ (same_text_iff k id).0 same in rw (← e') refl)
  | inr other ↦ rw (lookup-insert k id r m, other)
]

updated-err :
    {E : Type 0} (k : String) (m : Map Record) (o : Result E Record) {e : E}
    → (updated k m o).0 ≡ some e
    → (updated k m o).1 ≡ m
unfolding updated
updated-err k m (err e) h = refl
updated-err k m (ok r) h = cc

pub table_store-IsStore : {E : Type 0} → IsStore (table_store {E = E}) table_view
unfolding table_store
table_store-IsStore {E} = record {
  user_id-view = λ s id. record_or-user_id id (lookup id s);
  get_view = λ s id e. ground arith;
  put_view = λ s r id e. record_or-insert r.user_id id r s refl;
  put_failed = λ s r id e. cc;
  update_view = λ s f k id r e keyed written. rw e (record_or-insert k id r s keyed);
  update_failed = λ s f k id e. ap (λ m. table_view m id) (updated-err k s (f (table_view s k)) e);
}
