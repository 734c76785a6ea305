-- ===== src/System/RoundTrip.antt =====
-- The catalogue that `operator>>` of src/system/sm_meta.h reads is the one that `operator<<` wrote.
use Prim.Native.Char.{Char}
use Prim.Native.String.{String}
use dbgenerality_rucbase.Base.{
  ℕ, ◌<◌, ◌≡◌, refl, sym, ◌∙◌, subst, Bool, true, false, List, [], ◌∷◌, ◌++◌, some, length, ℤ, pos,
  arith,
}
use dbgenerality_rucbase.Query.Value.Bytes.{IsInt, small}
use dbgenerality_rucbase.System.Stream.{
  Text, chars_of, NumberFormat, is_blank, read_string, IsWord, read_string-IsWord,
  read_string-blank,
}
use dbgenerality_rucbase.System.Meta.{
  ColType, type_int, type_float, type_string, type_number, bool_number, read_type, read_bool,
  ColMeta, IndexMeta, TabMeta, ◌then_read◌, blank, newline, write_col, read_col, read_type_number,
  read_bool_number, read_count, write_cols, write_index_cols, read_cols, write_index, read_index,
  write_indexes, read_indexes, write_tab, read_tab, read_tab_indexes,
}

-- The names of a column are words, and its numbers fit an `int`.
pub record ColPlain (c : ColMeta) : Type 0 where
  pub tab_name : IsWord c.tab_name
  pub name : IsWord c.name
  pub len : IsInt c.len
  pub offset : IsInt c.offset

abbrev pub ColsPlain : List ColMeta → Type 0
ColsPlain [] = Unit
ColsPlain (c ∷ cs) = ColPlain c × ColsPlain cs

-- Also, the number of columns of an index is what its list has.
pub record IndexPlain (x : IndexMeta) : Type 0 where
  pub tab_name : IsWord x.tab_name
  pub tot_len : IsInt x.col_tot_len
  pub counted : x.col_num ≡ length x.cols
  pub few : x.col_num < 2147483648
  pub cols : ColsPlain x.cols

abbrev pub IndexesPlain : List IndexMeta → Type 0
IndexesPlain [] = Unit
IndexesPlain (x ∷ xs) = IndexPlain x × IndexesPlain xs

pub record TabPlain (tab : TabMeta) : Type 0 where
  pub name : IsWord tab.name
  pub few_cols : length tab.cols < 2147483648
  pub few_indexes : length tab.indexes < 2147483648
  pub cols : ColsPlain tab.cols
  pub indexes : IndexesPlain tab.indexes

type_small : (t : ColType) → IsInt (type_number t)
type_small type_int = small (omega arith)
type_small type_float = small (omega arith)
type_small type_string = small (omega arith)

type_back : (t : ColType) → read_type (type_number t) ≡ some t
type_back type_int = refl
type_back type_float = refl
type_back type_string = refl

bool_small : (b : Bool) → IsInt (bool_number b)
bool_small false = small (omega arith)
bool_small true = small (omega arith)

bool_back : (b : Bool) → read_bool (bool_number b) ≡ some b
bool_back false = refl
bool_back true = refl

module _ (fmt : NumberFormat) where
  open fmt use {show, read}

  -- A number between two blanks.
  number_back :
      (a b : Char) (i : ℤ) (rest : Text)
      → is_blank a ≡ true
      → is_blank b ≡ true
      → IsInt i
      → read (a ∷ (show i ++ b ∷ rest)) ≡ some (i, b ∷ rest)
  number_back a b i rest e f h =
      fmt.read-blank a (show i ++ b ∷ rest) e ∙ fmt.read-show i b rest h f

  type_number_back :
      (t : ColType) (rest : Text)
      → read_type_number fmt (blank ∷ (show (type_number t) ++ blank ∷ rest))
        ≡ some (t, blank ∷ rest)
  unfolding read_type_number
  type_number_back t rest =
      rw
        (
          number_back blank blank (type_number t) rest refl refl (type_small t),
          ◌then_read◌,
          type_back t,
        )
        refl

  bool_number_back :
      (i : Bool) (b : Char) (rest : Text)
      → is_blank b ≡ true
      → read_bool_number fmt (blank ∷ (show (bool_number i) ++ b ∷ rest)) ≡ some (i, b ∷ rest)
  unfolding read_bool_number
  bool_number_back i b rest e =
      rw (number_back blank b (bool_number i) rest refl e (bool_small i), ◌then_read◌, bool_back i)
        refl

  count_back :
      (a b : Char) (n : ℕ) (rest : Text)
      → is_blank a ≡ true
      → is_blank b ≡ true
      → n < 2147483648
      → read_count fmt (a ∷ (show (pos n) ++ b ∷ rest)) ≡ some (n, b ∷ rest)
  unfolding read_count
  count_back a b n rest e f h = rw (number_back a b (pos n) rest e f (small h)) refl

  word_after :
      (a b : Char) (name : String) (rest : Text)
      → is_blank a ≡ true
      → is_blank b ≡ true
      → IsWord name
      → read_string (a ∷ (chars_of name ++ b ∷ rest)) ≡ some (name, b ∷ rest)
  word_after a b name rest e f w =
      read_string-blank a (chars_of name ++ b ∷ rest) e ∙ read_string-IsWord name b rest w f

  -- A column before a blank.
  read_col-write_col :
      (c : ColMeta) (b : Char) (rest : Text)
      → ColPlain c
      → is_blank b ≡ true
      → read_col fmt (write_col fmt c (b ∷ rest)) ≡ some (c, b ∷ rest)
  unfolding read_col write_col
  read_col-write_col c b rest p e =
      let t6 = show (bool_number c.index) ++ b ∷ rest in
      let t5 = show c.offset ++ blank ∷ t6 in
      let t4 = show c.len ++ blank ∷ t5 in
      let t3 = show (type_number c.type) ++ blank ∷ t4 in
      let t2 = chars_of c.name ++ blank ∷ t3 in
      rw
        (
          read_string-IsWord c.tab_name blank t2 p.tab_name refl,
          ◌then_read◌,
          word_after blank blank c.name t3 refl refl p.name,
          ◌then_read◌,
          type_number_back c.type t4,
          ◌then_read◌,
          number_back blank blank c.len t5 refl refl p.len,
          ◌then_read◌,
          number_back blank blank c.offset t6 refl refl p.offset,
          ◌then_read◌,
          bool_number_back c.index b rest e,
        )
        refl

  -- Blanks before a column are skipped.
  read_col-blank : (rest : Text) → read_col fmt (newline ∷ rest) ≡ read_col fmt rest
  unfolding read_col
  read_col-blank rest = rw (read_string-blank newline rest refl) refl

  read_cols-write_cols :
      (cs : List ColMeta) (rest : Text)
      → ColsPlain cs
      → read_cols fmt (length cs) (newline ∷ write_cols fmt cs rest) ≡ some (cs, newline ∷ rest)
  unfolding read_cols write_cols
  read_cols-write_cols [] rest p = refl
  read_cols-write_cols (c ∷ cs) rest p =
      rw
        (
          read_cols,
          read_col-blank (write_col fmt c (newline ∷ write_cols fmt cs rest)),
          read_col-write_col c newline (write_cols fmt cs rest) p.0 refl,
          ◌then_read◌,
          read_cols-write_cols cs rest p.1,
        )
        refl

  -- The columns of an index, written before a newline, start with one.
  index_cols_start :
      (cs : List ColMeta) (rest : Text)
      → (r : Text) × (write_index_cols fmt cs (newline ∷ rest) ≡ newline ∷ r)
  unfolding write_index_cols
  index_cols_start [] rest = (rest, refl)
  index_cols_start (c ∷ cs) rest =
      (write_col fmt c (write_index_cols fmt cs (newline ∷ rest)), refl)

  read_cols-write_index_cols :
      (cs : List ColMeta) (rest : Text)
      → ColsPlain cs
      → read_cols fmt (length cs) (write_index_cols fmt cs (newline ∷ rest))
        ≡ some (cs, newline ∷ rest)
  unfolding read_cols write_index_cols
  read_cols-write_index_cols [] rest p = refl
  read_cols-write_index_cols (c ∷ cs) rest p =
      let tail = write_index_cols fmt cs (newline ∷ rest) in
      let (r, e) = index_cols_start cs rest in
      let here : read_col fmt (write_col fmt c tail) ≡ some (c, tail) =
        subst (λ (t : Text). read_col fmt (write_col fmt c t) ≡ some (c, t)) (sym e)
          (read_col-write_col c newline r p.0 refl) in
      rw
        (
          read_cols,
          read_col-blank (write_col fmt c tail),
          here,
          ◌then_read◌,
          read_cols-write_index_cols cs rest p.1,
        )
        refl

  index_back :
      (x : IndexMeta) (rest : Text)
      → IndexPlain x
      → read_index fmt (newline ∷ write_index fmt x (newline ∷ rest)) ≡ some (x, newline ∷ rest)
  unfolding read_index write_index
  index_back x rest p =
      let tail = write_index_cols fmt x.cols (newline ∷ rest) in
      let (r, e) = index_cols_start x.cols rest in
      let counts : read_count fmt (blank ∷ (show (pos x.col_num) ++ tail))
          ≡ some (x.col_num, tail) =
        subst
          (λ (t : Text). read_count fmt (blank ∷ (show (pos x.col_num) ++ t)) ≡ some (x.col_num, t))
          (sym e) (count_back blank newline x.col_num r refl refl p.few) in
      let all : read_cols fmt x.col_num tail ≡ some (x.cols, newline ∷ rest) =
        subst (λ (n : ℕ). read_cols fmt n tail ≡ some (x.cols, newline ∷ rest)) (sym p.counted)
          (read_cols-write_index_cols x.cols rest p.cols) in
      let t3 = show (pos x.col_num) ++ tail in
      rw
        (
          word_after newline blank x.tab_name (show x.col_tot_len ++ blank ∷ t3) refl refl
              p.tab_name,
          ◌then_read◌,
          number_back blank blank x.col_tot_len t3 refl refl p.tot_len,
          ◌then_read◌,
          counts,
          ◌then_read◌,
          all,
        )
        refl

  read_indexes-write_indexes :
      (xs : List IndexMeta) (rest : Text)
      → IndexesPlain xs
      → read_indexes fmt (length xs) (newline ∷ write_indexes fmt xs rest)
        ≡ some (xs, newline ∷ rest)
  unfolding read_indexes write_indexes
  read_indexes-write_indexes [] rest p = refl
  read_indexes-write_indexes (x ∷ xs) rest p =
      rw
        (
          read_indexes,
          index_back x (write_indexes fmt xs rest) p.0,
          ◌then_read◌,
          read_indexes-write_indexes xs rest p.1,
        )
        refl

  -- The catalogue entry of a table, with its columns and indexes, is read back from the text that was
  -- written, and the last newline and what was written after it are left in the stream. Here each
  -- name is a word, not empty and without blanks, each number and count fits an `int`, each index
  -- counts its columns right, and the standard streams read a number back up to the next blank.
  pub read_tab-write_tab :
      (tab : TabMeta) (rest : Text)
      → TabPlain tab
      → read_tab fmt (write_tab fmt tab rest) ≡ some (tab, newline ∷ rest)
  unfolding read_tab write_tab read_tab_indexes
  read_tab-write_tab tab rest p =
      let t4 = write_indexes fmt tab.indexes rest in
      let t3 = show (pos (length tab.indexes)) ++ newline ∷ t4 in
      let t2 = write_cols fmt tab.cols t3 in
      let t1 = show (pos (length tab.cols)) ++ newline ∷ t2 in
      rw
        (
          read_string-IsWord tab.name newline t1 p.name refl,
          ◌then_read◌,
          count_back newline newline (length tab.cols) t2 refl refl p.few_cols,
          ◌then_read◌,
          read_cols-write_cols tab.cols t3 p.cols,
          ◌then_read◌,
          count_back newline newline (length tab.indexes) t4 refl refl p.few_indexes,
          ◌then_read◌,
          read_indexes-write_indexes tab.indexes rest p.indexes,
        )
        refl
