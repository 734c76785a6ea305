-- ===== src/Query/Projection/Columns.antt =====
-- `ProjectionExecutor` of src/execution/executor_projection.h against the list of the columns that
-- were asked for.
use mathlib.Core.List.{append_assoc}
use dbgenerality_rucbase.Base.{
  ℕ, suc, ◌+◌, ◌≤◌, ◌≡◌, refl, sym, ◌∙◌, ap, subst, true, List, [], ◌∷◌, ◌++◌, length, leb, drop,
  pos, arith, length-append, length-drop, Bool-cases, inl, inr,
}
use dbgenerality_rucbase.System.Meta.{ColMeta}
use dbgenerality_rucbase.Query.Result.{Result, ok, bind_ok, ◌>>=◌}
use dbgenerality_rucbase.Query.Cursor.{Row, Executor, Yields, ended, gives, Restarts}
use dbgenerality_rucbase.Query.Value.{TabCol}
use dbgenerality_rucbase.Query.Value.Bytes.{from, length-first, take_append, drop_past}
use dbgenerality_rucbase.Query.Eval.{get_col, is_target, nat_of}
use dbgenerality_rucbase.Query.Projection.{
  Chosen, position, col_at, choose, write_at, column, copy_cols, projection,
}

-- The specification: the bytes of the columns with these names, one after the other.
unfoldable pub columns : List ColMeta → List TabCol → Row → Result Row
unfolding get_col column
columns prev_cols [] rec = ok []
columns prev_cols (sel_col ∷ sel_cols) rec = do
  col ← get_col prev_cols sel_col
  bytes ← column col rec
  rest ← columns prev_cols sel_cols rec
  ok (bytes ++ rest)

-- The same for each of some records.
unfoldable pub each : (Row → Result Row) → List Row → Result (List Row)
each f [] = ok []
each f (r ∷ rs) = do x ← f r; xs ← each f rs; ok (x ∷ xs)

-- The place that the constructor keeps is that of the column it found.
col_at-position :
    (cols : List ColMeta) (target : TabCol) (i k : ℕ) (col : ColMeta)
    → position cols target i ≡ ok k
    → get_col cols target ≡ ok col
    → (d : ℕ) × (i + d ≡ k) × (col_at cols d ≡ ok col)
unfolding position col_at get_col
col_at-position [] target i k col e f = absurd (cc e)
col_at-position (c ∷ cols) target i k col e f = elim (Bool-cases (is_target target c)) [
  | inl t ↦ let here : i ≡ k = ground arith in (0, omega arith, ground arith)
  | inr t ↦
      let (d, a, b) = col_at-position cols target (i + 1) k col (ground arith) (ground arith) in
      (suc d, omega arith, b)
]

-- A write at the end of what is done.
pub write_at-append :
    (done bytes left : Row)
    → length bytes ≤ length left
    → write_at (pos (length done)) bytes (done ++ left)
      ≡ ok ((done ++ bytes) ++ drop (length bytes) left)
unfolding write_at
write_at-append done bytes left h =
    let long = length-append done left in
    let inside : leb (length done + length bytes) (length (done ++ left)) ≡ true = ground arith in
    rw (
      inside,
      take_append done left,
      drop_past done left (length bytes),
      append_assoc done bytes (drop (length bytes) left),
    )

length-column :
    (col : ColMeta) (rec bytes : Row) (n : ℕ)
    → nat_of col.len ≡ ok n
    → column col rec ≡ ok bytes
    → length bytes ≡ n
unfolding column
length-column col rec bytes n e f = bind_ok (nat_of col.len) f λ k a f1.
    bind_ok (from col.offset rec) f1
      λ src b f2. let same : n ≡ k = cc (e, a) in length-first k src bytes f2 ∙ sym same

-- One column of the constructor.
choose_back :
    {C : Type 0} (prev_cols : List ColMeta) (curr len : ℕ) (sel_col : TabCol)
    (sel_cols : List TabCol) (chosen : List Chosen)
    → choose prev_cols curr (sel_col ∷ sel_cols) ≡ ok (chosen, len)
    → ((i n : ℕ) (col : ColMeta) (rest : List Chosen)
        → position prev_cols sel_col 0 ≡ ok i
        → get_col prev_cols sel_col ≡ ok col
        → nat_of col.len ≡ ok n
        → choose prev_cols (curr + n) sel_cols ≡ ok (rest, len)
        → record { prev_idx = i; col = record col { offset = pos curr } } ∷ rest ≡ chosen
        → C)
    → C
unfolding choose
choose_back prev_cols curr len sel_col sel_cols chosen e k =
    bind_ok (position prev_cols sel_col 0) e λ i p e1.
      bind_ok (get_col prev_cols sel_col) e1 λ col g e2. bind_ok (nat_of col.len) e2 λ n l e3.
        bind_ok (choose prev_cols (curr + n) sel_cols) e3
          λ rest c e4. k i n col rest.0 p g l (c ∙ cc e4) (cc e4)

choose_grows :
    (prev_cols : List ColMeta) (curr len : ℕ) (sel_cols : List TabCol) (chosen : List Chosen)
    → choose prev_cols curr sel_cols ≡ ok (chosen, len)
    → curr ≤ len
unfolding choose
choose_grows prev_cols curr len [] chosen e = let same : curr ≡ len = cc e in omega arith
choose_grows prev_cols curr len (sel_col ∷ sel_cols) chosen e =
    choose_back prev_cols curr len sel_col sel_cols chosen e λ i n col rest p g l c q.
      let further = choose_grows prev_cols (curr + n) len sel_cols rest c in omega arith

copy_cols_step :
    (prev_cols : List ColMeta) (rest : List Chosen) (rec done bytes left : Row) (i : ℕ)
    (col : ColMeta)
    → col_at prev_cols i ≡ ok col
    → column col rec ≡ ok bytes
    → length bytes ≤ length left
    → copy_cols prev_cols rec
        (record { prev_idx = i; col = record col { offset = pos (length done) } } ∷ rest)
        (done ++ left)
      ≡ copy_cols prev_cols rec rest ((done ++ bytes) ++ drop (length bytes) left)
unfolding copy_cols
copy_cols_step prev_cols rest rec done bytes left i col at b h =
    rw (at, b, write_at-append done bytes left h)

no_length : (xs : Row) → length xs ≡ 0 → [] ≡ xs
no_length [] e = refl
no_length (x ∷ xs) e = absurd (omega arith)

copy_cols-columns :
    (prev_cols : List ColMeta) (sel_cols : List TabCol) (chosen : List Chosen) (len : ℕ)
    (rec done left out : Row)
    → choose prev_cols (length done) sel_cols ≡ ok (chosen, len)
    → length done + length left ≡ len
    → columns prev_cols sel_cols rec ≡ ok out
    → copy_cols prev_cols rec chosen (done ++ left) ≡ ok (done ++ out)
unfolding choose columns copy_cols
copy_cols-columns prev_cols [] chosen len rec done left out e f g =
    let empty : [] ≡ chosen = cc e in
    let all : length done ≡ len = cc e in
    let no_out : [] ≡ out = cc g in
    subst (λ (c : List Chosen). copy_cols prev_cols rec c (done ++ left) ≡ ok (done ++ out)) empty
      (ap (λ (l : Row). ok (done ++ l)) (sym (no_length left (omega arith)) ∙ no_out))
copy_cols-columns prev_cols (sel_col ∷ sel_cols) chosen len rec done left out e f g =
    choose_back prev_cols (length done) len sel_col sel_cols chosen e λ i n col rest p got l c q.
      bind_ok (get_col prev_cols sel_col) g λ col' got' g1.
        bind_ok (column col' rec) g1 λ bytes b g2.
          bind_ok (columns prev_cols sel_cols rec) g2 λ out' o g3.
            let same : col' ≡ col = cc (got, got') in
            let (d, a, at) = col_at-position prev_cols sel_col 0 i col p got in
            let idx : i ≡ d = omega arith in
            let width =
              length-column col rec bytes n l (ap (λ (x : ColMeta). column x rec) (sym same) ∙ b) in
            let room = choose_grows prev_cols (length done + n) len sel_cols rest c in
            let longer = length-append done bytes in
            let shorter = length-drop (length bytes) left in
            let onward =
              copy_cols-columns prev_cols sel_cols rest len rec (done ++ bytes)
                (drop (length bytes) left) out'
                (subst (λ (k : ℕ). choose prev_cols k sel_cols ≡ ok (rest, len)) (omega arith) c)
                (omega arith) o in
            let joined : bytes ++ out' ≡ out = cc g3 in
            subst
              (λ (cs : List Chosen). copy_cols prev_cols rec cs (done ++ left) ≡ ok (done ++ out)) q
              (copy_cols_step prev_cols rest rec done bytes left i col
                  (subst (λ (k : ℕ). col_at prev_cols k ≡ ok col) (sym idx) at)
                  (ap (λ (x : ColMeta). column x rec) (sym same) ∙ b) (omega arith)
                ∙ onward
                ∙ ap ok (append_assoc done bytes out' ∙ ap (λ (x : Row). done ++ x) joined))

-- The loop of `Next`, on the columns that the constructor chose and a buffer of their length with
-- whatever it holds, gives the bytes of the columns that were asked for, one after the other.
pub copy_cols-choose :
    (prev_cols : List ColMeta) (sel_cols : List TabCol) (chosen : List Chosen) (len : ℕ)
    (blank rec out : Row)
    → choose prev_cols 0 sel_cols ≡ ok (chosen, len)
    → length blank ≡ len
    → columns prev_cols sel_cols rec ≡ ok out
    → copy_cols prev_cols rec chosen blank ≡ ok out
copy_cols-choose prev_cols sel_cols chosen len blank rec out c h e =
    copy_cols-columns prev_cols sel_cols chosen len rec [] blank out c (omega arith) e

module _ {S : Type 0} (prev : Executor S) (prev_cols : List ColMeta) (chosen : List Chosen)
    (blank : Row) where
  Yields-projection :
      (f : Row → Result Row) (s : S) (rows out : List Row)
      → ((r x : Row) → f r ≡ ok x → copy_cols prev_cols r chosen blank ≡ ok x)
      → Yields prev s rows
      → each f rows ≡ ok out
      → Yields (projection prev prev_cols chosen blank) s out
  unfolding each projection
  Yields-projection f s [] out k (ended v) e =
      subst (λ (l : List Row). Yields (projection prev prev_cols chosen blank) s l) (cc e) (ended v)
  Yields-projection f s (r ∷ rows) out k (gives {s' = s'} v g n y) e = bind_ok (f r) e λ x a e1.
      bind_ok (each f rows) e1 λ xs b e2.
        let joined : x ∷ xs ≡ out = cc e2 in
        subst (λ (l : List Row). Yields (projection prev prev_cols chosen blank) s l) joined
          (gives v (rw (v, g) (k r x a)) (rw (v) n) (Yields-projection f s' rows xs k y b))

-- Where the input yields some records from each start, the projection on columns with some names
-- yields from each start, for each record, the bytes of these columns one after the other, provided
-- that the constructor finds the columns and that each of them lies within each record.
pub projection-columns :
    {S : Type 0} (prev : Executor S) (prev_cols : List ColMeta) (sel_cols : List TabCol)
    (chosen : List Chosen) (len : ℕ) (blank : Row) (rows out : List Row)
    → Restarts prev rows
    → choose prev_cols 0 sel_cols ≡ ok (chosen, len)
    → length blank ≡ len
    → each (columns prev_cols sel_cols) rows ≡ ok out
    → Restarts (projection prev prev_cols chosen blank) out
unfolding projection
projection-columns prev prev_cols sel_cols chosen len blank rows out again c h e s =
    let (s', b, y) = again s in
    (
      s',
      b,
      Yields-projection prev prev_cols chosen blank (columns prev_cols sel_cols) s' rows out
          (λ r x. copy_cols-choose prev_cols sel_cols chosen len blank r x c h) y e,
    )
