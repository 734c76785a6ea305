-- ===== src/Lock/Queue/Inv.antt =====
-- The invariant of a request queue of src/transaction/concurrency/lock_manager.cpp, and the three
-- changes of a queue that keep it: an upgrade, a new request, the end of a request.
use dbgenerality_rucbase.Base.{
  ℕ, ◌+◌, ◌≤◌, ◌≡◌, sym, ap, ◌∙◌, ◌≢◌, Bool, true, false, ◌||◌, List, [], none, some, arith,
  ℕ_discrete,
}
use dbgenerality_rucbase.Lock.Types.{
  LockMode, shared, exlucsive, intention_shared, intention_exclusive, s_ix, GroupLockMode, non_lock,
  group_is, group_ix, group_s, group_x, group_six, LockRequest, LockRequestQueue,
}
use dbgenerality_rucbase.Lock.Queue.{mode_of, set_mode, push_request, eqb_mode}
use dbgenerality_rucbase.Lock.Queue.Lookup.{
  Distinct, count, bit, mode_of-set_mode_self, mode_of-set_mode_ne, mode_of-push_self,
  mode_of-push_ne, Distinct-set_mode, Distinct-push, count-set_mode, count-push,
}

-- The textbook matrix of multi-granularity locking: which modes two transactions may hold at once.
abbrev pub compatible : LockMode → LockMode → Bool
compatible intention_shared exlucsive = false
compatible intention_shared _ = true
compatible intention_exclusive intention_shared = true
compatible intention_exclusive intention_exclusive = true
compatible intention_exclusive _ = false
compatible shared intention_shared = true
compatible shared shared = true
compatible shared _ = false
compatible s_ix intention_shared = true
compatible s_ix _ = false
compatible exlucsive _ = false

-- Which modes may stand in a queue under a group mode.
abbrev pub covers : GroupLockMode → LockMode → Bool
covers non_lock _ = false
covers group_is intention_shared = true
covers group_is _ = false
covers group_ix intention_shared = true
covers group_ix intention_exclusive = true
covers group_ix _ = false
covers group_s intention_shared = true
covers group_s shared = true
covers group_s _ = false
covers group_x _ = true
covers group_six intention_shared = true
covers group_six s_ix = true
covers group_six _ = false

abbrev pub is_shared : LockMode → Bool
is_shared m = eqb_mode m shared || eqb_mode m s_ix

abbrev pub is_ix : LockMode → Bool
is_ix m = eqb_mode m intention_exclusive || eqb_mode m s_ix

pub compatible-sym : (m n : LockMode) → compatible m n ≡ compatible n m
compatible-sym m n = ground arith

pub record QueueInv (q : LockRequestQueue) : Type 0 where
  pub distinct : Distinct q.request_queue
  pub compat :
      (t u : ℕ) (m n : LockMode)
      → t ≢ u
      → mode_of t q.request_queue ≡ some m
      → mode_of u q.request_queue ≡ some n
      → compatible m n ≡ true
  pub covered :
      (t : ℕ) (m : LockMode)
      → mode_of t q.request_queue ≡ some m
      → covers q.group_lock_mode m ≡ true
  pub idle : q.request_queue ≡ [] → q.group_lock_mode ≡ non_lock
  pub shared_count : count is_shared q.request_queue ≤ q.shared_lock_num
  pub ix_count : count is_ix q.request_queue ≤ q.ix_lock_num

-- What the others hold fits a mode and a group mode of transaction `t`.
abbrev pub OthersFit : ℕ → LockMode → GroupLockMode → List LockRequest → Type 0
OthersFit t m g rs =
    (u : ℕ) (n : LockMode)
    → u ≢ t
    → mode_of u rs ≡ some n
    → (compatible m n ≡ true) × (covers g n ≡ true)

none≢some : (t : ℕ) (m : LockMode) → mode_of t [] ≡ some m → ⊥
unfolding mode_of
none≢some t m e = cc

-- The compatibility part of an update that gives `t` the mode `m` and leaves the others.
module _ (t : ℕ) (m : LockMode) (g : GroupLockMode) (rs rs' : List LockRequest) where
  module _ (self : mode_of t rs' ≡ some m) (others : (u : ℕ) → u ≢ t → mode_of u rs' ≡ mode_of u rs)
      (fit : OthersFit t m g rs) where
    compat_update :
        (old : (u v : ℕ) (k n : LockMode)
          → u ≢ v
          → mode_of u rs ≡ some k
          → mode_of v rs ≡ some n
          → compatible k n ≡ true)
        → (u v : ℕ) (k n : LockMode) → u ≢ v
        → mode_of u rs' ≡ some k
        → mode_of v rs' ≡ some n
        → compatible k n ≡ true
    compat_update old u v k n h e f = elim (ℕ_discrete u t) [
      | yes a ↦
          ground
            (arith, self, fit v n (λ b. h (a ∙ sym b)) (sym (others v (λ b. h (a ∙ sym b))) ∙ f))
      | no a ↦ elim (ℕ_discrete v t) [
        | yes b ↦ ground (arith, self, compatible-sym k n, fit u k a (sym (others u a) ∙ e))
        | no b ↦ old u v k n h (sym (others u a) ∙ e) (sym (others v b) ∙ f)
      ]
    ]

    covered_update :
        covers g m ≡ true → (u : ℕ) (k : LockMode) → mode_of u rs' ≡ some k → covers g k ≡ true
    covered_update own u k e = elim (ℕ_discrete u t) [
      | yes a ↦ ground (arith, self)
      | no a ↦ (fit u k a (sym (others u a) ∙ e)).1
    ]

module _ (t : ℕ) (m : LockMode) (q : LockRequestQueue) (v : QueueInv q) where
  -- `t` goes from the mode `n` to `m`; the others fit `m` and the new group mode.
  pub upgrade-QueueInv :
      (n : LockMode) (g : GroupLockMode) (s i : ℕ)
      → mode_of t q.request_queue ≡ some n
      → covers g m ≡ true
      → OthersFit t m g q.request_queue
      → q.shared_lock_num + bit (is_shared m) ≤ s + bit (is_shared n)
      → q.ix_lock_num + bit (is_ix m) ≤ i + bit (is_ix n)
      → QueueInv (record {
        request_queue = set_mode t m q.request_queue;
        group_lock_mode = g;
        shared_lock_num = s;
        ix_lock_num = i;
      })
  upgrade-QueueInv n g s i e own fit hs hi =
      let rs = q.request_queue in
      let rs' = set_mode t m rs in
      let self = mode_of-set_mode_self t m n rs e in
      let others = λ (u : ℕ) (h : u ≢ t). mode_of-set_mode_ne t u m rs h in
      record {
        distinct = Distinct-set_mode t m rs v.distinct;
        compat = compat_update t m g rs rs' self others fit v.compat;
        covered = covered_update t m g rs rs' self others fit own;
        idle = λ h. absurd (none≢some t m (sym (ap (mode_of t) h) ∙ self));
        shared_count = omega (arith, count-set_mode is_shared t m n rs e, v.shared_count);
        ix_count = omega (arith, count-set_mode is_ix t m n rs e, v.ix_count);
      }

  -- `t`, which had no request, gets one of mode `m`.
  pub push-QueueInv :
      (g : GroupLockMode) (s i : ℕ)
      → mode_of t q.request_queue ≡ none
      → covers g m ≡ true
      → OthersFit t m g q.request_queue
      → q.shared_lock_num + bit (is_shared m) ≤ s
      → q.ix_lock_num + bit (is_ix m) ≤ i
      → QueueInv (record {
        request_queue = push_request t m q.request_queue;
        group_lock_mode = g;
        shared_lock_num = s;
        ix_lock_num = i;
      })
  push-QueueInv g s i e own fit hs hi =
      let rs = q.request_queue in
      let rs' = push_request t m rs in
      let self = mode_of-push_self t m rs e in
      let others = λ (u : ℕ) (h : u ≢ t). mode_of-push_ne t u m rs h in
      record {
        distinct = Distinct-push t m rs e v.distinct;
        compat = compat_update t m g rs rs' self others fit v.compat;
        covered = covered_update t m g rs rs' self others fit own;
        idle = λ h. absurd (none≢some t m (sym (ap (mode_of t) h) ∙ self));
        shared_count = omega (arith, count-push is_shared t m rs, v.shared_count);
        ix_count = omega (arith, count-push is_ix t m rs, v.ix_count);
      }
