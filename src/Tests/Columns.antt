-- ===== src/Tests/Columns.antt =====
-- `ix_compare` of src/index/ix_index_handle.h on keys of an INT and a STRING column.
use dbgenerality_rucbase.Base.{◌≡◌, ◌↔◌, List, [], ◌∷◌, minus_one, arith}
use dbgenerality_rucbase.Index.Order.{same}
use dbgenerality_rucbase.Index.Columns.{
  KeyColumn, int_column, string_column, columns_order, types_of, lens_of, bytes_of_key,
  compare_columns, compare_columns-order,
}
use dbgenerality_rucbase.Query.Result.{ok}
use dbgenerality_rucbase.Query.Value.Bytes.{minus}

abbrev two_columns : List KeyColumn
two_columns = int_column ∷ string_column 2 ∷ []

abbrev low_key : (columns_order two_columns).Key
low_key = (minus_one, ((97, (98, tt)), tt))

abbrev high_key : (columns_order two_columns).Key
high_key = (minus_one, ((97, (99, tt)), tt))

compare_columns-order_example :
    (compare_columns
        (λ a b. same)
        (types_of two_columns)
        (lens_of two_columns)
        (bytes_of_key two_columns low_key)
        (bytes_of_key two_columns high_key)
      ≡ ok ((columns_order two_columns).ix_compare low_key high_key))
    × ((compare_columns
            (λ a b. same)
            (types_of two_columns)
            (lens_of two_columns)
            (bytes_of_key two_columns low_key)
            (bytes_of_key two_columns high_key)
          ≡ ok same)
        ↔ (low_key ≡ high_key))
compare_columns-order_example =
    compare_columns-order (λ a b. same) two_columns low_key high_key (minus (omega arith), tt)
      (minus (omega arith), tt)
