-- ===== src/Query/Modify/Updates.antt =====
-- `UpdateExecutor` of src/execution/executor_update.h and the tree of an index on one INT column.
use dbgenerality_rucbase.Base.{
  ℕ, ◌+◌, ◌<◌, ◌≡◌, ◌≢◌, refl, ◌∙◌, ap, true, false, none, some, [], ◌∷◌, ◌==◌, ℤ, pos, Bool-cases,
  inl, inr, arith, List,
}
use dbgenerality_rucbase.System.Meta.{TabMeta}
use dbgenerality_rucbase.Record.File.{get_record, update_record}
use dbgenerality_rucbase.Index.Order.{is_same}
use dbgenerality_rucbase.Index.Compare.{int_order, compare_int}
use dbgenerality_rucbase.Index.Node.{IxNodeHandle, leaf_lookup, lower_bound, remove}
use dbgenerality_rucbase.Index.Tree.{NodePage, asserted, get_value, find_leaf_page, get_max_size}
use dbgenerality_rucbase.Index.Tree.Remove.{delete_entry}
use dbgenerality_rucbase.Index.Tree.Shape.{Stored, IsTree}
use dbgenerality_rucbase.Index.Tree.Find.{get_value-Stored}
use dbgenerality_rucbase.Index.Tree.Inserted.{insert_entry-Added}
use dbgenerality_rucbase.Query.Result.{Result, ok, ◌>>=◌}
use dbgenerality_rucbase.Query.Cursor.{Row}
use dbgenerality_rucbase.Query.Value.{SetClause}
use dbgenerality_rucbase.Query.Value.Bytes.{int_of_bytes}
use dbgenerality_rucbase.Query.Modify.{
  Indexed, Store, key_of, on_indexes, apply_sets, update_at, rid_of, IntIndex, int_index,
}

-- A key that the node does not have is not removed.
remove-absent :
    (node : IxNodeHandle int_order) (k : ℤ)
    → leaf_lookup int_order node k ≡ none
    → remove int_order k node ≡ some (node.num_key, node)
unfolding leaf_lookup remove
remove-absent node k e =
    let at = lower_bound int_order node k in
    elim (Bool-cases (is_same (compare_int (node.keys at) k))) [
      | inr c ↦ elim (Bool-cases (at == node.num_key)) [
        | inl d ↦ rw (c, d) refl
        | inr d ↦ rw (c, d) refl
      ]
      | inl c ↦ elim (Bool-cases (at == node.num_key)) [
        | inl d ↦ rw (c, d) refl
        | inr d ↦ absurd (cc (rw (leaf_lookup, c, d) at e))
      ]
    ]

-- `delete_entry` of a key that the tree does not have changes nothing.
delete_entry-absent :
    (t : IntIndex) (fuel : ℕ) (k q : ℤ) (n : NodePage int_order (pos 0))
    → get_value int_order (pos 0) fuel k t ≡ ok none
    → find_leaf_page int_order (pos 0) fuel k t ≡ ok q
    → t.pages q ≡ some n
    → delete_entry int_order (pos 0) fuel k t ≡ ok (false, t)
unfolding get_value delete_entry
delete_entry-absent t fuel k q n e finds reads =
    let looked : get_value int_order (pos 0) fuel k t ≡ ok (leaf_lookup int_order n.node k) =
      rw (finds, reads) refl in
    let absent : leaf_lookup int_order n.node k ≡ none = cc (looked, e) in
    let kept : (n.node.num_key == n.node.num_key) ≡ true = ground arith in
    rw (finds, reads, remove-absent n.node k absent, asserted, ◌>>=◌, kept) refl

on_indexes-one :
    {I : Type 0} (call : Row → I → Result I) (rec key : Row) (x : Indexed I) (ih : I)
    → key_of x rec ≡ ok key
    → call key x.ih ≡ ok ih
    → on_indexes call rec (x ∷ []) ≡ ok (record x { ih = ih } ∷ [])
unfolding on_indexes
on_indexes-one call rec key x ih k e = rw (k, ◌>>=◌, e) refl

-- An update that changes the key of a record leaves the entry of the old key in the index. Let the
-- index of the table, on one INT column, be a tree in which the old key has the record's place and
-- `get_value` finds no rid for the new key, whose leaf does not become full by one more key. Then the
-- update of the record ends, the file holds the new record, the index is a tree, and `get_value`
-- gives the record's place for the new key and still for the old one.
pub update_at-get_value :
    (fuel h : ℕ) (tab : TabMeta) (sets : List SetClause) (p s : ℕ) (store : Store IntIndex)
    (x : Indexed IntIndex) (rec old new : Row) (a b q : ℤ) (n : NodePage int_order (pos 0))
    → store.indexes ≡ x ∷ []
    → apply_sets tab sets (get_record p s store.file) ≡ ok rec
    → key_of x (get_record p s store.file) ≡ ok old
    → key_of x rec ≡ ok new
    → int_of_bytes old ≡ ok a
    → int_of_bytes new ≡ ok b
    → IsTree int_order (pos 0) x.ih h
    → h < fuel
    → get_value int_order (pos 0) fuel a x.ih ≡ ok (some (rid_of (p, s)))
    → get_value int_order (pos 0) fuel b x.ih ≡ ok none
    → find_leaf_page int_order (pos 0) fuel b x.ih ≡ ok q
    → x.ih.pages q ≡ some n
    → n.node.num_key + 1 ≢ get_max_size int_order (pos 0) x.ih
    → (t : IntIndex) × (update_at (int_index fuel) tab sets (p, s) store
        ≡ ok (record {
          file = update_record p s rec store.file;
          indexes = record x { ih = t } ∷ [];
        }))
      × IsTree int_order (pos 0) t h
      × (get_value int_order (pos 0) fuel b t ≡ ok (some (rid_of (p, s))))
      × (get_value int_order (pos 0) fuel a t ≡ ok (some (rid_of (p, s))))
unfolding update_at
update_at-get_value fuel h tab sets p s store x rec old new a b q n one sets_ok k_old k_new i_old
      i_new tree levels has absent finds reads room =
    let place = rid_of (p, s) in
    let (t, inserts, tree', adds) =
      insert_entry-Added int_order (pos 0) x.ih h fuel b place q n tree levels absent finds reads
        room in
    let (r, look_a, is_a) = get_value-Stored int_order (pos 0) x.ih h fuel a tree levels in
    let stored_a = (is_a place).0 (cc (look_a, has)) in
    let gives : (k : ℤ)
        → Stored int_order (pos 0) t.pages h t.root_page k place
        → get_value int_order (pos 0) fuel k t ≡ ok (some place) =
      λ k st.
        let (r', look, is) = get_value-Stored int_order (pos 0) t h fuel k tree' levels in
        look ∙ ap ok ((is place).1 st) in
    let gone : (int_index fuel).delete_entry new x.ih ≡ ok x.ih =
      rw (i_new, ◌>>=◌, delete_entry-absent x.ih fuel b q n absent finds reads) refl in
    let put : (int_index fuel).insert_entry new (p, s) x.ih ≡ ok t =
      rw (i_new, ◌>>=◌, inserts) refl in
    (
      t,
      rw
          (
            one,
            sets_ok,
            ◌>>=◌,
            on_indexes-one (int_index fuel).delete_entry rec new x x.ih k_new gone,
            on_indexes-one (λ key. (int_index fuel).insert_entry key (p, s)) rec new x t k_new put,
          )
          refl,
      tree',
      gives b ((adds b place).1 (inr (refl, refl))),
      gives a ((adds a place).1 (inl stored_a)),
    )
