-- ===== src/Query/Modify/Changes.antt =====
-- `DeleteExecutor` of src/execution and the table's file.
use dbgenerality_rucbase.Base.{
  ℕ, ◌≡◌, refl, sym, ◌∙◌, ap, Bool, true, false, ◌&&◌, ◌||◌, List, [], ◌∷◌, ◌==◌, if◌then◌else◌,
}
use dbgenerality_rucbase.Record.File.{RmFile, is_record, delete_record, delete_record-is_record}
use dbgenerality_rucbase.Query.Result.{Result, ok, throws, bind_ok}
use dbgenerality_rucbase.Query.Cursor.{Row}
use dbgenerality_rucbase.Query.Modify.{IndexHandle, Store, on_indexes, delete_all, delete_next}

-- A place is on a list.
unfoldable pub is_in : ℕ → ℕ → List (ℕ × ℕ) → Bool
is_in q t [] = false
is_in q t ((p, s) ∷ rids) = (p == q && t == s) || is_in q t rids

either :
    (a b x : Bool) {y z : Bool}
    → y ≡ (if b then false else z)
    → z ≡ (if a then false else x)
    → y ≡ (if a || b then false else x)
either true true x e f = e
either true false x e f = e ∙ f
either false true x e f = e
either false false x e f = e ∙ f

is_record-delete_all :
    (q t : ℕ) (rids : List (ℕ × ℕ)) (file : RmFile)
    → is_record q t (delete_all rids file) ≡ (if is_in q t rids then false else is_record q t file)
unfolding is_in delete_all
is_record-delete_all q t [] file = refl
is_record-delete_all q t ((p, s) ∷ rids) file =
    either (p == q && t == s) (is_in q t rids) (is_record q t file)
      (is_record-delete_all q t rids (delete_record p s file))
      (delete_record-is_record p q s t [] file).0

-- After a delete that ends, just the places that it was given hold no record any more; all other
-- places hold one as before.
pub delete_next-is_record :
    {I : Type 0} (handle : IndexHandle I) (blank : Row) (rids : List (ℕ × ℕ))
    (store store' : Store I) (q t : ℕ)
    → delete_next handle blank rids store ≡ ok store'
    → is_record q t store'.file ≡ (if is_in q t rids then false else is_record q t store.file)
unfolding delete_next
delete_next-is_record {I} handle blank rids store store' q t e =
    bind_ok (on_indexes handle.delete_entry blank store.indexes) e λ indexes k e1.
      let file_is : delete_all rids store.file ≡ store'.file =
        ap (λ (x : Result (Store I)). elim x [ ok y ↦ y.file | throws z ↦ store'.file ]) e1 in
      ap (is_record q t) (sym file_is) ∙ is_record-delete_all q t rids store.file
