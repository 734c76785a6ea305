-- ===== src/Query/Modify/Created.antt =====
-- The tables of `create_table` in src/system/sm_manager.cpp as src/execution uses them.
use Prim.Native.String.{String}
use text.Mathlib.Text.{◌==◌ as str_eq}
use text.Mathlib.TextEquality.{eq_iff}
use dbgenerality_rucbase.Base.{
  ℕ, ◌+◌, ◌≡◌, ◌≢◌, ◌<◌, refl, sym, ◌∙◌, ap, subst, true, false, List, [], ◌∷◌, some, ltb, ◌||◌, ℤ,
  pos, arith, Bool-cases, Option-cases, inl, inr,
}
use dbgenerality_rucbase.Record.Layout.{RmFileHdr, new_header, create_file}
use dbgenerality_rucbase.System.Meta.{ColMeta, TabMeta}
use dbgenerality_rucbase.Query.Value.Bytes.{int-word, small}
use dbgenerality_rucbase.System.Catalogue.{get_table, is_table}
use dbgenerality_rucbase.System.Tables.{
  ColDef, SmManager, place_cols, add_int, Creation, created, table_exists, invalid_record_size,
  flush_meta, new_file, create_table,
}
use dbgenerality_rucbase.Query.Analyze.Checked.{All, ColFits}
use dbgenerality_rucbase.Query.Modify.Inserts.{LaidFrom, LaidFrom-le}

-- Lengths that are not negative, with offsets from `at` on that an `int` holds.
abbrev pub LensFit : ℕ → List ColDef → Type 0
LensFit at [] = Unit
LensFit at (d ∷ defs) = (n : ℕ) × (d.len ≡ pos n) × (at + n < 2147483648) × LensFit (at + n) defs

add_int-fits : (a n : ℕ) → a + n < 2147483648 → add_int (pos a) (pos n) ≡ pos (a + n)
unfolding add_int
add_int-fits a n h = int-word (pos (a + n)) (small h)

-- The columns from an offset on, up to an end.
abbrev Placed : String → ℕ → ℕ → List ColMeta → Type 0
Placed tab_name at size cols = LaidFrom at cols size × All (ColFits tab_name size) cols

place_cols-Placed :
    (tab_name : String) (at : ℕ) (defs : List ColDef)
    → LensFit at defs
    → (size : ℕ) × ((place_cols tab_name (pos at) defs).1 ≡ pos size)
      × Placed tab_name at size (place_cols tab_name (pos at) defs).0
unfolding place_cols LaidFrom
place_cols-Placed tab_name at [] h = (at, refl, (refl, tt))
place_cols-Placed tab_name at (d ∷ defs) (n, l, b, hs) =
    let sum : add_int (pos at) d.len ≡ pos (at + n) =
      ap (add_int (pos at)) l ∙ add_int-fits at n b in
    subst
      (λ (next : ℤ).
        (size : ℕ) × ((place_cols tab_name next defs).1 ≡ pos size)
        × Placed tab_name at size (
            record {
              tab_name = tab_name;
              name = d.name;
              type = d.type;
              len = d.len;
              offset = pos at;
              index = false;
            }
            ∷ (place_cols tab_name next defs).0))
      (sym sum) (by_rest (place_cols-Placed tab_name (at + n) defs hs))
  where
    by_rest :
        ((size : ℕ) × ((place_cols tab_name (pos (at + n)) defs).1 ≡ pos size)
          × Placed tab_name (at + n) size (place_cols tab_name (pos (at + n)) defs).0)
        → (size : ℕ) × ((place_cols tab_name (pos (at + n)) defs).1 ≡ pos size)
          × Placed tab_name at size (
              record {
                tab_name = tab_name;
                name = d.name;
                type = d.type;
                len = d.len;
                offset = pos at;
                index = false;
              }
              ∷ (place_cols tab_name (pos (at + n)) defs).0)
    by_rest (size, e, (laid, fit)) = (
      size,
      e,
      (
        (n, refl, l, laid),
        (
          record {
            named = refl;
            at = at;
            width = n;
            offset_at = refl;
            len_width = l;
            fits = LaidFrom-le (at + n) (place_cols tab_name (pos (at + n)) defs).0 size laid;
          },
          fit,
        ),
      ),
    )

-- What is said of the catalogue after a new table.
abbrev pub Created : String → SmManager → SmManager → Type 0
Created tab_name sm sm' =
    (tab : TabMeta) × (hdr : RmFileHdr) × (get_table sm'.db tab_name ≡ some tab)
    × (sm'.fhs ≡ (tab_name, hdr) ∷ sm.fhs)
    × LaidFrom 0 tab.cols hdr.record_size
    × All (ColFits tab_name hdr.record_size) tab.cols
    × ((other : String) → other ≢ tab_name → get_table sm'.db other ≡ get_table sm.db other)
    × (sm'.meta_file ≡ sm'.db)

record_size-create_file :
    (size : ℕ) (hdr : RmFileHdr) → create_file size ≡ some hdr → hdr.record_size ≡ size
unfolding create_file
record_size-create_file size hdr e = elim (Bool-cases (ltb size 1 || ltb 512 size)) [
  | inl c ↦ absurd (ground arith)
  | inr c ↦
      let made : new_header size ≡ hdr = ground arith in
      sym (ap (λ (x : RmFileHdr). x.record_size) made)
]

abbrev with_table : String → List ColMeta → RmFileHdr → SmManager → SmManager
with_table tab_name cols hdr sm = flush_meta (record sm {
  db = record sm.db {
    tabs = (tab_name, record { name = tab_name; cols = cols; indexes = [] }) ∷ sm.db.tabs;
  };
  fhs = (tab_name, hdr) ∷ sm.fhs;
})

Created-with_table :
    (tab_name : String) (cols : List ColMeta) (hdr : RmFileHdr) (size : ℕ) (sm : SmManager)
    → hdr.record_size ≡ size
    → LaidFrom 0 cols size
    → All (ColFits tab_name size) cols
    → Created tab_name sm (with_table tab_name cols hdr sm)
unfolding get_table
Created-with_table tab_name cols hdr size sm q laid fit =
    let own : str_eq tab_name tab_name ≡ true = (eq_iff tab_name tab_name).1 refl in
    (
      record { name = tab_name; cols = cols; indexes = [] },
      hdr,
      rw (own),
      refl,
      subst (LaidFrom 0 cols) (sym q) laid,
      subst (λ (n : ℕ). All (ColFits tab_name n) cols) (sym q) fit,
      others,
      refl,
    )
  where
    others :
        (other : String)
        → other ≢ tab_name
        → get_table (with_table tab_name cols hdr sm).db other ≡ get_table sm.db other
    others other ne = elim (Bool-cases (str_eq tab_name other)) [
      | inl e ↦ absurd (ne (sym ((eq_iff tab_name other).0 e)))
      | inr e ↦ rw (e)
    ]

-- A table that `create_table` makes is in the catalogue under its name, with columns that carry its
-- name and lie one after the other up to the record size of its new file, all of them within a
-- record; all other tables are as before, and the metadata file holds the new catalogue. This holds
-- where the lengths of the columns are not negative, an `int` holds their sum, and `create_table`
-- throws no exception.
pub create_table-LaidFrom :
    (tab_name : String) (defs : List ColDef) (sm sm' : SmManager)
    → LensFit 0 defs
    → create_table tab_name defs sm ≡ created sm'
    → Created tab_name sm sm'
unfolding create_table new_file
create_table-LaidFrom tab_name defs sm sm' h e =
    let (size, ends, (laid, fit)) = place_cols-Placed tab_name 0 defs h in
    let cols = (place_cols tab_name (pos 0) defs).0 in
    elim (Bool-cases (is_table sm.db tab_name)) [
      | inl c ↦ absurd (cc (rw (create_table, c) at e))
      | inr c ↦
          let went = rw (create_table, c, ends) at e in
          elim (Option-cases (create_file size)) [
            | inl made ↦ absurd (cc (rw (made) at went))
            | inr (hdr, made) ↦
                let is_new : created (with_table tab_name cols hdr sm) ≡ created sm' =
                  rw (made) at went in
                let same : with_table tab_name cols hdr sm ≡ sm' =
                  ap
                    (λ (x : Creation). elim x [
                      | created y ↦ y
                      | table_exists ↦ sm
                      | invalid_record_size ↦ sm
                    ])
                    is_new in
                subst (Created tab_name sm) same (
                  Created-with_table tab_name cols hdr size sm
                    (record_size-create_file size hdr made) laid fit)
          ]
    ]
