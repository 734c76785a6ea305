-- ===== src/System/Meta.antt =====
-- `ColMeta`, `IndexMeta` and `TabMeta` of src/system/sm_meta.h, with their `<<` and `>>`.
use Prim.Native.String.{String}
use Prim.Native.Char.{Char}
use dbgenerality_rucbase.Base.{
  ◌++◌, negsuc, ℕ, zero, suc, Bool, true, false, List, [], ◌∷◌, Option, none, some, if◌then◌else◌,
  length, ℤ, pos, eqb_ℤ,
}
use dbgenerality_rucbase.System.Stream.{Text, chars_of, NumberFormat, read_string}

pub data ColType : Type 0 where
  type_int type_float type_string : ColType

pub record ColMeta : Type 0 where
  pub tab_name : String
  pub name : String
  pub type : ColType
  pub len : ℤ
  pub offset : ℤ
  pub index : Bool

pub record IndexMeta : Type 0 where
  pub tab_name : String
  pub col_tot_len : ℤ
  pub col_num : ℕ
  pub cols : List ColMeta

pub record TabMeta : Type 0 where
  pub name : String
  pub cols : List ColMeta
  pub indexes : List IndexMeta

-- The copy constructor.
abbrev pub copy : TabMeta → TabMeta
copy other = record { name = other.name; cols = other.cols; indexes = [] }

-- An enum is written as its number.
abbrev pub type_number : ColType → ℤ
type_number type_int = pos 0
type_number type_float = pos 1
type_number type_string = pos 2

abbrev pub bool_number : Bool → ℤ
bool_number false = pos 0
bool_number true = pos 1

abbrev pub read_type : ℤ → Option ColType
read_type n =
    if eqb_ℤ n (pos 0)
    then some type_int
    else if eqb_ℤ n (pos 1)
    then some type_float
    else if eqb_ℤ n (pos 2)
    then some type_string
    else none

abbrev pub read_bool : ℤ → Option Bool
read_bool n = if eqb_ℤ n (pos 0) then some false else if eqb_ℤ n (pos 1) then some true else none

-- A reader gives a value and the text that is left, or the stream fails.
abbrev pub Reads {ℓ} : Type ℓ → Type ℓ
Reads A = Option (A × Text)

module _ {ℓ κ} {A : Type ℓ} {B : Type κ} where
  infixl 5 ◌then_read◌
  -- One `>>` after the other.
  abbrev pub ◌then_read◌ : Reads A → (A → Text → Reads B) → Reads B
  none then_read next = none
  some (v, text) then_read next = next v text

-- The blanks between what is written.
abbrev pub blank : Char
blank = " "

abbrev pub newline : Char
newline = "\n"

-- A value that a number stands for, or the stream fails.
abbrev pub decoded {ℓ} : {A : Type ℓ} → Option A → Text → Reads A
decoded none text = none
decoded (some v) text = some (v, text)

-- `>>` on a count.
abbrev pub count_of : ℤ → Text → Reads ℕ
count_of (pos n) text = some (n, text)
count_of (negsuc n) text = none

module _ (fmt : NumberFormat) where
  open fmt use {show, read}

  -- `operator<<` of `ColMeta`, before what is written next.
  unfoldable pub write_col : ColMeta → Text → Text
  write_col c rest =
      chars_of c.tab_name
      ++ blank
        ∷ (chars_of c.name
            ++ blank
              ∷ (show (type_number c.type)
                  ++ blank
                    ∷ (show c.len
                        ++ blank
                          ∷ (show c.offset ++ blank ∷ (show (bool_number c.index) ++ rest)))))

  unfoldable pub read_type_number : Text → Reads ColType
  read_type_number text = read text then_read λ n rest. decoded (read_type n) rest

  unfoldable pub read_bool_number : Text → Reads Bool
  read_bool_number text = read text then_read λ n rest. decoded (read_bool n) rest

  unfoldable pub read_count : Text → Reads ℕ
  read_count text = read text then_read λ n rest. count_of n rest

  -- `operator>>` of `ColMeta`
  unfoldable pub read_col : Text → Reads ColMeta
  unfolding read_string read_type_number read_bool_number
  read_col text = read_string text then_read λ tab_name text1.
      read_string text1 then_read λ name text2. read_type_number text2 then_read λ type text3.
      read text3 then_read λ len text4. read text4 then_read λ offset text5.
      read_bool_number text5 then_read λ index text6. some (
        record {
          tab_name = tab_name;
          name = name;
          type = type;
          len = len;
          offset = offset;
          index = index;
        },
        text6,
      )

  -- The loops over columns: in a table each ends with a newline, in an index each starts with one.
  unfoldable pub write_cols : List ColMeta → Text → Text
  unfolding write_col
  write_cols [] rest = rest
  write_cols (c ∷ cs) rest = write_col c (newline ∷ write_cols cs rest)

  unfoldable pub write_index_cols : List ColMeta → Text → Text
  unfolding write_col
  write_index_cols [] rest = rest
  write_index_cols (c ∷ cs) rest = newline ∷ write_col c (write_index_cols cs rest)

  unfoldable pub read_cols : ℕ → Text → Reads (List ColMeta)
  unfolding read_col
  read_cols zero text = some ([], text)
  read_cols (suc n) text =
      read_col text then_read λ c text1. read_cols n text1 then_read λ cs rest. some (c ∷ cs, rest)

  unfoldable pub write_index : IndexMeta → Text → Text
  unfolding write_index_cols
  write_index x rest =
      chars_of x.tab_name
      ++ blank
        ∷ (show x.col_tot_len ++ blank ∷ (show (pos x.col_num) ++ write_index_cols x.cols rest))

  unfoldable pub read_index : Text → Reads IndexMeta
  unfolding read_string read_count read_cols
  read_index text = read_string text then_read λ tab_name text1.
      read text1 then_read λ col_tot_len text2. read_count text2 then_read λ col_num text3.
      read_cols col_num text3 then_read λ cols rest. some (
        record { tab_name = tab_name; col_tot_len = col_tot_len; col_num = col_num; cols = cols },
        rest,
      )

  unfoldable pub write_indexes : List IndexMeta → Text → Text
  unfolding write_index
  write_indexes [] rest = rest
  write_indexes (x ∷ xs) rest = write_index x (newline ∷ write_indexes xs rest)

  unfoldable pub read_indexes : ℕ → Text → Reads (List IndexMeta)
  unfolding read_index
  read_indexes zero text = some ([], text)
  read_indexes (suc n) text = read_index text then_read λ x text1.
      read_indexes n text1 then_read λ xs rest. some (x ∷ xs, rest)

  unfoldable pub write_tab : TabMeta → Text → Text
  unfolding write_cols write_indexes
  write_tab tab rest =
      chars_of tab.name
      ++ newline
        ∷ (show (pos (length tab.cols))
            ++ newline
              ∷ write_cols tab.cols
                  (show (pos (length tab.indexes)) ++ newline ∷ write_indexes tab.indexes rest))

  unfoldable pub read_tab_indexes : String → List ColMeta → Text → Reads TabMeta
  unfolding read_count read_indexes
  read_tab_indexes name cols text = read_count text then_read λ n text1.
      read_indexes n text1 then_read λ xs rest.
      some (record { name = name; cols = cols; indexes = xs }, rest)

  unfoldable pub read_tab : Text → Reads TabMeta
  unfolding read_string read_count read_cols read_tab_indexes
  read_tab text = read_string text then_read λ name text1. read_count text1 then_read λ n text2.
      read_cols n text2 then_read λ cols text3. read_tab_indexes name cols text3
