-- ===== src/Storage/Replacer/Turns.antt =====
-- No frame waits for ever in `LRUReplacer` of src/replacer/lru_replacer.cpp.
use dbgenerality_rucbase.Base.{
  ℕ, suc, ◌≤◌, ◌<◌, ◌≡◌, ◌≢◌, refl, sym, ◌∙◌, ap, Bool, true, false, ◌||◌, List, [], ◌∷◌, Option,
  none, some, if◌then◌else◌, ◌==◌, ==_iff, length, arith, ◌⊎◌, inl, inr, Bool-cases, Option-cases,
}
use dbgenerality_rucbase.Storage.Replacer.{LruReplacer, victim, pin, unpin, back?, pop_back, erase}
use dbgenerality_rucbase.Storage.Replacer.Laws.{
  LruInv, elem, elem-pin, pin-LruInv, unpin-LruInv, victim-LruInv, back?-none,
}

pub data Call : Type 0 where
  call_victim : Call
  call_pin call_unpin : ℕ → Call

-- The frame that a call evicts, and the replacer after it.
abbrev pub perform : Call → LruReplacer → Option ℕ × LruReplacer
perform call_victim r = victim r
perform (call_pin g) r = (none, pin g r)
perform (call_unpin g) r = (none, unpin g r)

abbrev pub is_frame : ℕ → Option ℕ → Bool
is_frame f none = false
is_frame f (some g) = g == f

-- Whether one of the calls evicts the frame.
abbrev pub evicts : ℕ → List Call → LruReplacer → Bool
evicts f [] r = false
evicts f (c ∷ cs) r = is_frame f (perform c r).0 || evicts f cs (perform c r).1

abbrev pub victims : List Call → ℕ
victims [] = 0
victims (call_victim ∷ cs) = suc (victims cs)
victims (call_pin g ∷ cs) = victims cs
victims (call_unpin g ∷ cs) = victims cs

abbrev pub NeverPins : ℕ → List Call → Type 0
NeverPins f [] = Unit {0}
NeverPins f (call_victim ∷ cs) = NeverPins f cs
NeverPins f (call_pin g ∷ cs) = (g ≢ f) × NeverPins f cs
NeverPins f (call_unpin g ∷ cs) = NeverPins f cs

-- The number of frames that go before the frame.
abbrev pub behind : ℕ → List ℕ → ℕ
behind f [] = 0
behind f (x ∷ xs) = if x == f then length xs else behind f xs

length-erase : (g : ℕ) (xs : List ℕ) → length (erase g xs) ≤ length xs
unfolding erase
length-erase g [] = omega arith
length-erase g (x ∷ xs) = ground (arith, length-erase g xs)

behind-erase : (f g : ℕ) (xs : List ℕ) → g ≢ f → behind f (erase g xs) ≤ behind f xs
unfolding erase
behind-erase f g [] h = omega arith
behind-erase f g (x ∷ xs) h = ground (arith, behind-erase f g xs h, length-erase g xs)

length-pop_back : (x : ℕ) (xs : List ℕ) → suc (length (pop_back (x ∷ xs))) ≡ suc (length xs)
unfolding pop_back
length-pop_back x [] = refl
length-pop_back x (y ∷ ys) = ap suc (length-pop_back y ys)

-- The frame at the back is another one: then it is one less that goes before.
behind-pop_back :
    (f g : ℕ) (xs : List ℕ)
    → back? xs ≡ some g
    → g ≢ f
    → elem f xs ≡ true
    → (elem f (pop_back xs) ≡ true) × (suc (behind f (pop_back xs)) ≡ behind f xs)
unfolding back? pop_back elem
behind-pop_back f g [] b h e = absurd (cc b)
behind-pop_back f g (x ∷ []) b h e = absurd (ground arith)
behind-pop_back f g (x ∷ y ∷ ys) b h e = elim (Bool-cases (x == f)) [
  | inl i ↦ (rw i refl, rw i (length-pop_back y ys))
  | inr o ↦ let (a, c) = behind-pop_back f g (y ∷ ys) b h (rw o at e) in (rw o a, rw o c)
]

behind-pin :
    (f g : ℕ) (r : LruReplacer)
    → g ≢ f
    → elem f r.lru_list ≡ true
    → LruInv r
    → (elem f (pin g r).lru_list ≡ true) × (behind f (pin g r).lru_list ≤ behind f r.lru_list)
unfolding pin
behind-pin f g r h e v =
    let other : (g == f) ≡ false = ground arith in
    (
      elem-pin g f r v ∙ rw other e,
      elim (Bool-cases (r.lru_hash g)) [
        | inl a ↦ rw a (behind-erase f g r.lru_list h)
        | inr a ↦ rw a (omega arith)
      ],
    )

behind-unpin :
    (f g : ℕ) (r : LruReplacer)
    → elem f r.lru_list ≡ true
    → LruInv r
    → (elem f (unpin g r).lru_list ≡ true) × (behind f (unpin g r).lru_list ≡ behind f r.lru_list)
unfolding unpin elem
behind-unpin f g r e v = elim (Bool-cases (r.lru_hash g)) [
  | inl a ↦ rw a (e, refl)
  | inr a ↦
      let out : elem g r.lru_list ≡ false = sym (v.hash g) ∙ a in
      elim (Bool-cases (g == f)) [
        | inl same ↦ absurd (cc (e, out, ap (λ (x : ℕ). elem x r.lru_list) ((==_iff g f).0 same)))
        | inr other ↦ rw (a, other) (e, refl)
      ]
]

-- One call of `victim`: it evicts the frame, or one less goes before it.
behind-victim :
    (f : ℕ) (r : LruReplacer)
    → elem f r.lru_list ≡ true
    → (is_frame f (victim r).0 ≡ true)
      ⊎ ((elem f (victim r).1.lru_list ≡ true)
          × (suc (behind f (victim r).1.lru_list) ≡ behind f r.lru_list))
unfolding victim elem
behind-victim f r e = elim (Option-cases (back? r.lru_list)) [
  | inl b ↦ absurd (cc (rw (back?-none r.lru_list b) at e))
  | inr (g, b) ↦ elim (Bool-cases (g == f)) [
    | inl same ↦ inl (rw (b, victim) same)
    | inr other ↦ inr (rw (b, victim) (behind-pop_back f g r.lru_list b (ground arith) e))
  ]
]

-- A frame that can be evicted is evicted, whatever calls are made, as long as none pins it and there
-- are more calls of `victim` than there are frames that went before it at the start: `unpin` puts no
-- frame before another one.
pub evicts-behind :
    (f : ℕ) (cs : List Call) (r : LruReplacer)
    → LruInv r
    → elem f r.lru_list ≡ true
    → NeverPins f cs
    → behind f r.lru_list < victims cs
    → evicts f cs r ≡ true
evicts-behind f [] r v e n m = absurd (omega arith)
evicts-behind f (call_pin g ∷ cs) r v e (ne, n) m =
    let (e', b) = behind-pin f g r ne e v in
    evicts-behind f cs (pin g r) (pin-LruInv g r v) e' n (omega arith)
evicts-behind f (call_unpin g ∷ cs) r v e n m =
    let (e', b) = behind-unpin f g r e v in
    evicts-behind f cs (unpin g r) (unpin-LruInv g r v) e' n (omega arith)
evicts-behind f (call_victim ∷ cs) r v e n m =
    let later =
      λ (e' : elem f (victim r).1.lru_list ≡ true)
          (k : behind f (victim r).1.lru_list < victims cs).
        evicts-behind f cs (victim r).1 (victim-LruInv r v) e' n k in
    elim (behind-victim f r e) [
      | inl now ↦ rw now refl
      | inr (e', b) ↦ ground (arith, later e' (omega arith))
    ]
