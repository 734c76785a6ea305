-- ===== src/Query/Join/Product.antt =====
-- `NestedLoopJoinExecutor` of src/execution/executor_nestedloop_join.h against the product of its two
-- inputs.
use dbgenerality_rucbase.Base.{
  ℕ, zero, suc, ◌+◌, ◌*◌, ◌<◌, ◌≤◌, ◌≡◌, ◌≢◌, refl, sym, ap, subst, Bool, true, false, List, [],
  ◌∷◌, ◌++◌, if◌then◌else◌, length, arith,
}
use dbgenerality_rucbase.Query.Result.{Result, ok, throws, assertion_failed, ◌>>=◌}
use dbgenerality_rucbase.Query.Cursor.{Row, Executor, Yields, ended, gives, Restarts}
use dbgenerality_rucbase.Query.Join.{advance, eval_pair, settle, join}

-- The specification: the records of the pairs that match, those of the first record on the left
-- first. A test that fails fails the whole.
unfoldable pub pairs_with : (Row → Row → Result Bool) → Row → List Row → Result (List Row)
pairs_with matches l [] = ok []
pairs_with matches l (r ∷ rs) = do
  found ← matches l r
  rest ← pairs_with matches l rs
  ok (if found then (l ++ r) ∷ rest else rest)

unfoldable pub product : (Row → Row → Result Bool) → List Row → List Row → Result (List Row)
unfolding pairs_with
product matches [] rs = ok []
product matches (l ∷ ls) rs = do
  here ← pairs_with matches l rs
  rest ← product matches ls rs
  ok (here ++ rest)

-- The first pair of what is left: whether it matches, and the rest.
abbrev Stepped : Result Bool → Result (List Row) → Row → List Row → Type 0
Stepped m rest p out =
    (b : Bool) × (out' : List Row) × (m ≡ ok b)
    × (rest ≡ ok out')
    × (out ≡ (if b then p ∷ out' else out'))

step_back :
    (m : Result Bool) (tail prod : Result (List Row)) (p : Row) (out : List Row)
    → ((do found ← m; rest ← tail; ok (if found then p ∷ rest else rest)) >>= λ here.
        prod >>= λ rest. ok (here ++ rest))
      ≡ ok out
    → Stepped m (tail >>= λ here. prod >>= λ rest. ok (here ++ rest)) p out
step_back (throws x) tail prod p out e = absurd (cc e)
step_back (ok b) (throws x) prod p out e = absurd (cc e)
step_back (ok true) (ok t) (throws x) p out e = absurd (cc e)
step_back (ok false) (ok t) (throws x) p out e = absurd (cc e)
step_back (ok true) (ok t) (ok q) p out e = (true, t ++ q, refl, refl, cc e)
step_back (ok false) (ok t) (ok q) p out e = (false, t ++ q, refl, refl, cc e)

-- Nothing is left of the inner list.
row_back :
    (prod : Result (List Row)) (out : List Row)
    → (prod >>= λ rest. ok rest) ≡ ok out
    → prod ≡ ok out
row_back (ok q) out e = e
row_back (throws x) out e = e

module _ {L R : Type 0} (left : Executor L) (right : Executor R) (matches : Row → Row → Result Bool)
    (inner : List Row) (again : Restarts right inner) (nonempty : inner ≢ []) (rounds : ℕ) where
  -- What is left of the product: the rest of the inner list for this record, and the records after.
  abbrev remaining : Row → List Row → List Row → Result (List Row)
  remaining l rs ls = do
    here ← pairs_with matches l rs
    rest ← product matches ls inner
    ok (here ++ rest)

  remaining_step :
      (l r : Row) (rs ls out : List Row)
      → remaining l (r ∷ rs) ls ≡ ok out
      → Stepped (matches l r) (remaining l rs ls) (l ++ r) out
  unfolding pairs_with
  remaining_step l r rs ls out =
      step_back (matches l r) (pairs_with matches l rs) (product matches ls inner) (l ++ r) out

  -- The loop from a state where both inputs have a record ends where the join goes on to yield what
  -- is left.
  abbrev Settles : ℕ → L × R → List Row → Type 0
  Settles fuel s out =
      (s' : L × R) × (settle left right matches fuel s ≡ ok s')
      × Yields (join left right matches rounds) s' out

  -- The same after a step of the inner input.
  abbrev Goes : ℕ → L × R → List Row → Type 0
  Goes fuel s out = (s' : L × R) × (advance left right matches s ≡ ok s') × Settles fuel s' out

  abbrev SettlesWithin : ℕ → Type 0
  SettlesWithin n =
      (ls rs : List Row) (l r : Row) (sl : L) (sr : R) (fuel : ℕ) (out : List Row)
      → Yields left sl (l ∷ ls)
      → Yields right sr (r ∷ rs)
      → suc (length rs) + length ls * length inner ≤ n
      → n < fuel
      → n < rounds
      → remaining l (r ∷ rs) ls ≡ ok out
      → Settles fuel (sl, sr) out

  Settles-at_end :
      (fuel : ℕ) (sl : L) (sr : R) → 0 < fuel → Yields left sl [] → Settles fuel (sl, sr) []
  unfolding settle join
  Settles-at_end zero sl sr h v = absurd (omega arith)
  Settles-at_end (suc fuel) sl sr h (ended v) = ((sl, sr), rw (settle, v), ended v)

  -- The next record on the left, with a fresh start on the right.
  goes_row :
      (n : ℕ) (ih : SettlesWithin n) (ls : List Row) (sl : L) (sr : R) (fuel : ℕ) (out : List Row)
      → Yields left sl ls
      → Yields right sr inner
      → length ls * length inner ≤ n
      → n < fuel
      → n < rounds
      → product matches ls inner ≡ ok out
      → Settles fuel (sl, sr) out
  unfolding product
  goes_row n ih [] sl sr fuel out vl vr h f g e =
      subst (λ (o : List Row). Settles fuel (sl, sr) o) (cc e)
        (Settles-at_end fuel sl sr (omega arith) vl)
  goes_row n ih (l ∷ ls) sl sr fuel out vl vr h f g e = by_inner inner refl vr
    where
      by_inner : (xs : List Row) → xs ≡ inner → Yields right sr xs → Settles fuel (sl, sr) out
      by_inner [] q v = absurd (nonempty (sym q))
      by_inner (r ∷ rs) q v =
          let size = ap length q in
          ih ls rs l r sl sr fuel out vl v (omega arith) f g
            (subst (λ (ys : List Row). remaining l ys ls ≡ ok out) (sym q) e)

  goes :
      (n : ℕ) (ih : SettlesWithin n) (ls rs : List Row) (l r : Row) (sl : L) (sr : R) (fuel : ℕ)
      (out : List Row)
      → Yields left sl (l ∷ ls)
      → Yields right sr (r ∷ rs)
      → length rs + length ls * length inner ≤ n
      → n < fuel
      → n < rounds
      → remaining l rs ls ≡ ok out
      → Goes fuel (sl, sr) out
  unfolding advance pairs_with
  goes n ih ls (r' ∷ rs) l r sl sr fuel out vl (gives re rf rn (gives re' rf' rn' rv)) h f g e =
      (_, rw (advance, rn, re'), ih ls rs l r' sl _ fuel out vl (gives re' rf' rn' rv) h f g e)
  goes n ih ls [] l r sl sr fuel out (gives le lf ln lv) (gives {s' = sr'} re rf rn (ended re')) h f
        g e =
      let (sr'', b, v) = again sr' in
      (
        _,
        rw (advance, rn, re', ln, b),
        goes_row n ih ls _ sr'' fuel out lv v (omega arith) f g
            (row_back (product matches ls inner) out e),
      )

  -- One round of the loop, by what the test says.
  settle_round_lem :
      (n : ℕ) (ih : SettlesWithin n) (b : Bool) (ls rs : List Row) (l r : Row) (sl : L) (sr : R)
      (fuel : ℕ) (out' : List Row)
      → Yields left sl (l ∷ ls)
      → Yields right sr (r ∷ rs)
      → length rs + length ls * length inner ≤ n
      → n < fuel
      → n < rounds
      → matches l r ≡ ok b
      → remaining l rs ls ≡ ok out'
      → Settles (suc fuel) (sl, sr) (if b then (l ++ r) ∷ out' else out')
  unfolding settle join eval_pair
  settle_round_lem n ih true ls rs l r sl sr fuel out' (gives le lf ln lv) (gives re rf rn rv) h f g
        m rest =
      let (sa, a, (s', b, y)) =
        goes n ih ls rs l r sl sr rounds out' (gives le lf ln lv) (gives re rf rn rv) h g g rest in
      ((sl, sr), rw (settle, le, eval_pair, rf, lf, m), gives le (rw (le, lf, rf)) (rw (le, a) b) y)
  settle_round_lem n ih false ls rs l r sl sr fuel out' (gives le lf ln lv) (gives re rf rn rv) h f
        g m rest =
      let (sa, a, (s', b, y)) =
        goes n ih ls rs l r sl sr fuel out' (gives le lf ln lv) (gives re rf rn rv) h f g rest in
      (s', rw (settle, le, eval_pair, rf, lf, m, a) b, y)

  settles : (n : ℕ) → SettlesWithin n
  settles zero ls rs l r sl sr fuel out vl vr h f g e = absurd (omega arith)
  settles (suc n) ls rs l r sl sr zero out vl vr h f g e = absurd (omega arith)
  settles (suc n) ls rs l r sl sr (suc fuel) out vl vr h f g e =
      let (b, out', m, rest, o) = remaining_step l r rs ls out e in
      subst (λ (x : List Row). Settles (suc fuel) (sl, sr) x) (sym o)
        (settle_round_lem n (settles n) b ls rs l r sl sr fuel out' vl vr (omega arith)
          (omega arith) (omega arith) m rest)

  -- Where the input on the left yields the records `outer` from its start, the input on the right
  -- yields `inner` from every start and `inner` is not empty, and no test of a pair fails, the join
  -- yields from its start just the joined records of the pairs that match, in the order of the
  -- product of the two lists, as soon as its loops may take more rounds than there are pairs.
  pub join-product :
      (outer out : List Row)
      → Restarts left outer
      → length outer * length inner < rounds
      → product matches outer inner ≡ ok out
      → Restarts (join left right matches rounds) out
  unfolding join product
  join-product outer out start h e (l, r) =
      let (l', b, v) = start l in from_start outer out h e l r l' b v
    where
      from_start :
          (outer out : List Row)
          → length outer * length inner < rounds
          → product matches outer inner ≡ ok out
          → (l : L) (r : R) (l' : L) → left.begin_tuple l ≡ ok l'
          → Yields left l' outer
          → (s' : L × R) × ((join left right matches rounds).begin_tuple (l, r) ≡ ok s')
            × Yields (join left right matches rounds) s' out
      from_start [] out h e l r l' b (ended v) = (
        (l', r),
        rw (b, v),
        subst (λ (x : List Row). Yields (join left right matches rounds) (l', r) x) (cc e)
            (ended v),
      )
      from_start (x ∷ xs) out h e l r l' b (gives le lf ln lv) =
          let (r', c, vr) = again r in
          let n = length (x ∷ xs) * length inner in
          let (s', a, y) =
            goes_row n (settles n) (x ∷ xs) l' r' rounds out (gives le lf ln lv) vr (omega arith) h
              h e in
          (s', rw (b, le, c) a, y)

-- A join whose left input has a record from its start and whose right input has none, and asserts
-- as the executors do that no record is asked for at the end, does not find that its result is
-- empty: its `beginTuple` fails an assertion.
pub join-assertion_failed :
    {L R : Type 0} (left : Executor L) (right : Executor R) (matches : Row → Row → Result Bool)
    (rounds : ℕ) (l l' : L) (r r' : R)
    → left.begin_tuple l ≡ ok l'
    → left.is_end l' ≡ false
    → right.begin_tuple r ≡ ok r'
    → right.is_end r' ≡ true
    → ((s : R) → right.is_end s ≡ true → right.fetch s ≡ throws assertion_failed)
    → 0 < rounds
    → (join left right matches rounds).begin_tuple (l, r) ≡ throws assertion_failed
unfolding join settle eval_pair
join-assertion_failed left right matches zero l l' r r' bl el br er asserts h = absurd (omega arith)
join-assertion_failed left right matches (suc rounds) l l' r r' bl el br er asserts h =
    rw (bl, el, br, settle, el, eval_pair, asserts r' er)
