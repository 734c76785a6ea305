-- ===== src/Tests/System.antt =====
-- A table of src/system with one column and one index.
use dbgenerality_rucbase.Base.{
  ℕ, zero, suc, ℤ, negsuc, Option, none, ◌++◌, ◌==◌, if◌then◌else◌, true, arith, ◌≡◌, refl, false,
  [], ◌∷◌, some, pos,
}
use dbgenerality_rucbase.System.Meta.{type_int, ColMeta, TabMeta, read_tab, write_tab, newline}
use dbgenerality_rucbase.System.RoundTrip.{read_tab-write_tab, ColPlain, TabPlain}
use dbgenerality_rucbase.System.Stream.{Text, NumberFormat, is_blank, skip_blanks}
use dbgenerality_rucbase.Query.Value.Bytes.{small}
use Prim.Native.Char.{Char, code}

abbrev id_col : ColMeta
id_col = record {
  tab_name = "warehouse";
  name = "id";
  type = type_int;
  len = pos 4;
  offset = pos 0;
  index = false;
}

abbrev warehouse : TabMeta
warehouse = record {
  name = "warehouse";
  cols = id_col ∷ [];
  indexes =
      record { tab_name = "warehouse"; col_tot_len = pos 4; col_num = 1; cols = id_col ∷ [] } ∷ [];
}

-- Numbers in strokes after a sign.
abbrev strokes : ℕ → Text
strokes zero = []
strokes (suc n) = "1" ∷ strokes n

abbrev show_strokes : ℤ → Text
show_strokes (pos n) = "+" ∷ strokes n
show_strokes (negsuc n) = "-" ∷ strokes n

abbrev count_strokes : Text → ℕ × Text
count_strokes [] = (0, [])
count_strokes (c ∷ cs) =
    if code c == 49 then (let (n, rest) = count_strokes cs in (suc n, rest)) else (0, c ∷ cs)

abbrev after_sign : Text → Option (ℤ × Text)
after_sign [] = none
after_sign (c ∷ cs) =
    let (n, rest) = count_strokes cs in
    if code c == 43
    then some (pos n, rest)
    else if code c == 45
    then some (negsuc n, rest)
    else none

count_strokes-strokes :
    (n : ℕ) (b : Char) (rest : Text)
    → (code b == 49) ≡ false
    → count_strokes (strokes n ++ b ∷ rest) ≡ (n, b ∷ rest)
count_strokes-strokes zero b rest e = rw (e) refl
count_strokes-strokes (suc n) b rest e = rw (count_strokes-strokes n b rest e) refl

blank_ne_stroke : (b : Char) → is_blank b ≡ true → (code b == 49) ≡ false
blank_ne_stroke b e = ground arith

abbrev in_strokes : NumberFormat
in_strokes = record {
  show = show_strokes;
  read = λ text. after_sign (skip_blanks text);
  read-show = λ i b rest h e. shown i b rest e;
  read-blank = λ b rest e. rw (e) refl;
}
  where
    shown :
        (i : ℤ) (b : Char) (rest : Text)
        → is_blank b ≡ true
        → after_sign (skip_blanks (show_strokes i ++ b ∷ rest)) ≡ some (i, b ∷ rest)
    shown (pos n) b rest e = rw (count_strokes-strokes n b rest (blank_ne_stroke b e)) refl
    shown (negsuc n) b rest e = rw (count_strokes-strokes n b rest (blank_ne_stroke b e)) refl

id_col-ColPlain : ColPlain id_col
id_col-ColPlain = record {
  tab_name = (tt, (refl, (refl, (refl, (refl, (refl, (refl, (refl, (refl, (refl, tt))))))))));
  name = (tt, (refl, (refl, tt)));
  len = small (omega arith);
  offset = small (omega arith);
}

warehouse-TabPlain : TabPlain warehouse
warehouse-TabPlain = record {
  name = id_col-ColPlain.tab_name;
  few_cols = omega arith;
  few_indexes = omega arith;
  cols = (id_col-ColPlain, tt);
  indexes = (
    record {
      tab_name = id_col-ColPlain.tab_name;
      tot_len = small (omega arith);
      counted = refl;
      few = omega arith;
      cols = (id_col-ColPlain, tt);
    },
    tt,
  );
}

read_tab-write_tab_example :
    read_tab in_strokes (write_tab in_strokes warehouse []) ≡ some (warehouse, newline ∷ [])
read_tab-write_tab_example = read_tab-write_tab in_strokes warehouse [] warehouse-TabPlain
