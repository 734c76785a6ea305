-- ===== src/Storage/Replacer/Laws.antt =====
-- The list and the hash table of src/replacer/lru_replacer.cpp agree, and the list keeps the order
-- in which frames were unpinned.
use dbgenerality_rucbase.Base.{
  ℕ, ◌≡◌, refl, sym, ◌∙◌, ◌≢◌, ap, Bool, true, false, List, [], ◌∷◌, ◌++◌, none, some,
  if◌then◌else◌, ◌==◌, arith, Option-cases, Bool-cases, ◌⊎◌, inl, inr,
}
use dbgenerality_rucbase.Storage.Replacer.{
  LruReplacer, new_replacer, set_hash, back?, pop_back, erase, victim, pin, unpin,
}

-- Whether a frame stands in a list.
unfoldable pub elem : ℕ → List ℕ → Bool
elem f [] = false
elem f (x ∷ xs) = if x == f then true else elem f xs

abbrev pub NoDup : List ℕ → Type 0
NoDup [] = Unit {0}
NoDup (x ∷ xs) = (elem x xs ≡ false) × NoDup xs

pub record LruInv (r : LruReplacer) : Type 0 where
  pub nodup : NoDup r.lru_list
  pub hash : (f : ℕ) → r.lru_hash f ≡ elem f r.lru_list

pub elem-erase_self : (f : ℕ) (xs : List ℕ) → NoDup xs → elem f (erase f xs) ≡ false
unfolding elem erase
elem-erase_self f [] d = refl
elem-erase_self f (x ∷ xs) d = ground (arith, elem-erase_self f xs d.1)

pub elem-erase_ne : (f g : ℕ) (xs : List ℕ) → g ≢ f → elem g (erase f xs) ≡ elem g xs
unfolding elem erase
elem-erase_ne f g [] h = refl
elem-erase_ne f g (x ∷ xs) h = ground (arith, elem-erase_ne f g xs h)

pub elem-erase :
    (f g : ℕ) (xs : List ℕ) → NoDup xs → elem g (erase f xs) ≡ (if f == g then false else elem g xs)
elem-erase f g xs d = ground (arith, elem-erase_self f xs d, elem-erase_ne f g xs)

pub NoDup-erase : (f : ℕ) (xs : List ℕ) → NoDup xs → NoDup (erase f xs)
unfolding elem erase
NoDup-erase f [] d = tt
NoDup-erase f (x ∷ xs) d = ground (arith, NoDup-erase f xs d.1, elem-erase_ne f x xs)

-- The list is what `pop_back` leaves and the frame at the back.
pub pop_back-back : (xs : List ℕ) (f : ℕ) → back? xs ≡ some f → xs ≡ pop_back xs ++ f ∷ []
unfolding back? pop_back
pop_back-back [] f e = absurd (cc e)
pop_back-back (x ∷ []) f e = ground arith
pop_back-back (x ∷ y ∷ ys) f e = ap (◌∷◌ x) (pop_back-back (y ∷ ys) f e)

pub back?-none : (xs : List ℕ) → back? xs ≡ none → xs ≡ []
unfolding back?
back?-none [] e = refl
back?-none (x ∷ []) e = absurd (cc e)
back?-none (x ∷ y ∷ ys) e = absurd (cc (back?-none (y ∷ ys) e))

elem-back : (xs : List ℕ) (f : ℕ) → back? xs ≡ some f → elem f xs ≡ true
unfolding back? elem
elem-back [] f e = absurd (cc e)
elem-back (x ∷ []) f e = ground arith
elem-back (x ∷ y ∷ ys) f e = ground (arith, elem-back (y ∷ ys) f e)

elem-pop_back_ne :
    (xs : List ℕ) (f g : ℕ) → back? xs ≡ some f → g ≢ f → elem g (pop_back xs) ≡ elem g xs
unfolding back? elem pop_back
elem-pop_back_ne [] f g e h = refl
elem-pop_back_ne (x ∷ []) f g e h = ground arith
elem-pop_back_ne (x ∷ y ∷ ys) f g e h = ground (arith, elem-pop_back_ne (y ∷ ys) f g e h)

elem-pop_back-le : (xs : List ℕ) (g : ℕ) → elem g xs ≡ false → elem g (pop_back xs) ≡ false
unfolding elem pop_back
elem-pop_back-le [] g e = refl
elem-pop_back-le (x ∷ []) g e = refl
elem-pop_back-le (x ∷ y ∷ ys) g e = ground (arith, elem-pop_back-le (y ∷ ys) g)

elem-pop_back_self :
    (xs : List ℕ) (f : ℕ) → back? xs ≡ some f → NoDup xs → elem f (pop_back xs) ≡ false
unfolding back? elem pop_back
elem-pop_back_self [] f e d = refl
elem-pop_back_self (x ∷ []) f e d = refl
elem-pop_back_self (x ∷ y ∷ ys) f e d =
    ground (arith, elem-pop_back_self (y ∷ ys) f e d.1, elem-back (y ∷ ys) f e)

NoDup-pop_back : (xs : List ℕ) → NoDup xs → NoDup (pop_back xs)
unfolding pop_back
NoDup-pop_back [] d = tt
NoDup-pop_back (x ∷ []) d = tt
NoDup-pop_back (x ∷ y ∷ ys) d = (elem-pop_back-le (y ∷ ys) x d.0, NoDup-pop_back (y ∷ ys) d.1)

pub new_replacer-LruInv : (n : ℕ) → LruInv (new_replacer n)
unfolding elem
new_replacer-LruInv n = record { nodup = tt; hash = λ f. refl }

pub pin-LruInv : (f : ℕ) (r : LruReplacer) → LruInv r → LruInv (pin f r)
unfolding pin
pin-LruInv f r v = elim (Bool-cases (r.lru_hash f)) [
  | inr out ↦ rw out v
  | inl here ↦ rw here (record {
    nodup = NoDup-erase f r.lru_list v.nodup;
    hash = λ g. ground (arith, elem-erase f g r.lru_list v.nodup, v.hash g);
  })
]

pub unpin-LruInv : (f : ℕ) (r : LruReplacer) → LruInv r → LruInv (unpin f r)
unfolding unpin elem
unpin-LruInv f r v = elim (Bool-cases (r.lru_hash f)) [
  | inl here ↦ rw here v
  | inr out ↦
      rw out
        (record { nodup = (sym (v.hash f) ∙ out, v.nodup); hash = λ g. ground (arith, v.hash g) })
]

victim_some-LruInv :
    (f : ℕ) (r : LruReplacer)
    → back? r.lru_list ≡ some f
    → LruInv r
    → LruInv (record r { lru_list = pop_back r.lru_list; lru_hash = set_hash f false r.lru_hash })
unfolding set_hash
victim_some-LruInv f r e v = record {
  nodup = NoDup-pop_back r.lru_list v.nodup;
  hash = λ g. ground (
    arith,
    elem-pop_back_self r.lru_list f e v.nodup,
    elem-pop_back_ne r.lru_list f g e,
    v.hash g,
  );
}

-- `victim` keeps the list free of duplicates and the hash table equal to membership in it.
pub victim-LruInv : (r : LruReplacer) → LruInv r → LruInv (victim r).1
unfolding victim
victim-LruInv r v = elim (Option-cases (back? r.lru_list)) [
  | inl e ↦ rw (e, victim) v
  | inr (f, e) ↦ rw (e, victim) (victim_some-LruInv f r e v)
]

-- In a replacer whose list and hash table agree, after `pin` of a frame that frame cannot be
-- evicted, and every other frame can exactly if it could before.
pub elem-pin :
    (f g : ℕ) (r : LruReplacer)
    → LruInv r
    → elem g (pin f r).lru_list ≡ (if f == g then false else elem g r.lru_list)
unfolding pin
elem-pin f g r v = ground (arith, elem-erase f g r.lru_list v.nodup, v.hash f, v.hash g)

-- In a replacer whose list and hash table agree, after `unpin` of a frame that frame can be
-- evicted, and every other frame can exactly if it could before.
pub elem-unpin :
    (f g : ℕ) (r : LruReplacer)
    → LruInv r
    → elem g (unpin f r).lru_list ≡ (if f == g then true else elem g r.lru_list)
unfolding unpin elem
elem-unpin f g r v = ground (arith, v.hash f, v.hash g)

-- `victim` fails exactly on the empty list, and otherwise gives the frame at its end and keeps the
-- others in order.
pub victim-oldest :
    (r : LruReplacer)
    → ((r.lru_list ≡ []) × (victim r ≡ (none, r)))
      ⊎ ((f : ℕ) × ((victim r).0 ≡ some f) × (r.lru_list ≡ (victim r).1.lru_list ++ f ∷ []))
unfolding victim
victim-oldest r = elim (Option-cases (back? r.lru_list)) [
  | inl e ↦ inl (back?-none r.lru_list e, rw (e, victim))
  | inr (f, e) ↦ inr (f, rw (e, victim), rw (e, victim) (pop_back-back r.lru_list f e))
]

pub elem-victim :
    (r : LruReplacer) (f g : ℕ)
    → LruInv r
    → (victim r).0 ≡ some f
    → (elem f r.lru_list ≡ true)
      × (elem g (victim r).1.lru_list ≡ (if f == g then false else elem g r.lru_list))
unfolding victim
elem-victim r f g v e = elim (Option-cases (back? r.lru_list)) [
  | inl n ↦ absurd (ground arith)
  | inr (h, n) ↦ ground (
    arith,
    elem-back r.lru_list h n,
    elem-pop_back_self r.lru_list h n v.nodup,
    elem-pop_back_ne r.lru_list h g n,
  )
]
