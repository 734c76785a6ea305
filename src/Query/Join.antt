-- ===== src/Query/Join.antt =====
-- `NestedLoopJoinExecutor` of src/execution/executor_nestedloop_join.h, over any two executors and
-- a test on two records.
pub mod Product
use dbgenerality_rucbase.Base.{
  ℕ, zero, suc, ◌+◌, ◌-◌, ◌≡◌, ltb, ℤ, pos, negsuc, map, Bool, true, false, List, [], ◌∷◌, ◌++◌,
  not, if◌then◌else◌,
}
use dbgenerality_rucbase.System.Meta.{ColMeta}
use dbgenerality_rucbase.Query.Result.{
  Result, ok, throws, assertion_failed, out_of_fuel, require, ◌>>=◌, ◌>>◌,
}
use dbgenerality_rucbase.Query.Cursor.{Row, Executor}

-- `a + b` for a length `b`.
abbrev plus_len : ℤ → ℕ → ℤ
plus_len (pos a) b = pos (a + b)
plus_len (negsuc a) b = if ltb a b then pos (b - a - 1) else negsuc (a - b)

-- `cols_` of the constructor: the columns on the right start after the records on the left.
unfoldable pub join_cols : ℕ → List ColMeta → List ColMeta → List ColMeta
join_cols left_len left_cols right_cols =
    left_cols ++ map (λ (c : ColMeta). record c { offset = plus_len c.offset left_len }) right_cols

module _ {L R : Type 0} (left : Executor L) (right : Executor R)
    (matches : Row → Row → Result Bool) where
  -- `right_->nextTuple()`, and the next record on the left with a new start on the right.
  unfoldable pub advance : L × R → Result (L × R)
  advance (l, r) = do
    r' ← right.next_tuple r
    elim (right.is_end r') [
      | false ↦ ok (l, r')
      | true ↦ do l' ← left.next_tuple l; r'' ← right.begin_tuple r'; ok (l', r'')
    ]

  -- `eval_conds(cols_, fed_conds_, left_->Next().get(), right_->Next().get())`
  unfoldable pub eval_pair : L × R → Result Bool
  eval_pair (l, r) = do rrec ← right.fetch r; lrec ← left.fetch l; matches lrec rrec

  -- The loop of `beginTuple` and `nextTuple`, with a bound on its rounds.
  unfoldable pub settle : ℕ → L × R → Result (L × R)
  unfolding advance eval_pair
  settle zero s = throws out_of_fuel
  settle (suc fuel) s = elim (left.is_end s.0) [
    | true ↦ ok s
    | false ↦ do
      found ← eval_pair s
      elim found [ true ↦ ok s | false ↦ do s' ← advance s; settle fuel s' ]
  ]

  -- The executor. `rounds` bounds each loop.
  unfoldable pub join : ℕ → Executor (L × R)
  unfolding settle
  join rounds = record {
    begin_tuple = λ s. do
      l ← left.begin_tuple s.0
      elim (left.is_end l) [
        | true ↦ ok (l, s.1)
        | false ↦ do r ← right.begin_tuple s.1; settle rounds (l, r)
      ];
    next_tuple = λ s. do
      require (not (left.is_end s.0)) assertion_failed
      s' ← advance s
      settle rounds s';
    is_end = λ s. left.is_end s.0;
    fetch = λ s. do
      require (not (left.is_end s.0)) assertion_failed
      lrec ← left.fetch s.0
      rrec ← right.fetch s.1
      ok (lrec ++ rrec);
  }
