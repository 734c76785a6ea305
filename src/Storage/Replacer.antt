-- ===== src/Storage/Replacer.antt =====
-- `LRUReplacer` of src/replacer/lru_replacer.{h,cpp}. The front of the list is the most recently
-- unpinned frame. Of `LRUhash_`, which maps a frame to its place in the list, the model keeps
-- which frames have an entry; the place is where the frame stands, once in the list.
pub mod Laws
pub mod Turns
use dbgenerality_rucbase.Base.{
  ℕ, ◌≡◌, Bool, true, false, List, [], ◌∷◌, Option, none, some, if◌then◌else◌, ◌==◌, length,
}

pub record LruReplacer : Type 0 where
  pub lru_list : List ℕ
  pub lru_hash : ℕ → Bool
  pub max_size : ℕ

abbrev pub new_replacer : ℕ → LruReplacer
new_replacer num_pages = record { lru_list = []; lru_hash = λ f. false; max_size = num_pages }

-- One entry of the hash table written.
unfoldable pub set_hash : ℕ → Bool → (ℕ → Bool) → ℕ → Bool
set_hash f b h g = if f == g then b else h g

-- `back()`
unfoldable pub back? : List ℕ → Option ℕ
back? [] = none
back? (x ∷ []) = some x
back? (x ∷ y ∷ ys) = back? (y ∷ ys)

-- `pop_back()`
unfoldable pub pop_back : List ℕ → List ℕ
pop_back [] = []
pop_back (x ∷ []) = []
pop_back (x ∷ y ∷ ys) = x ∷ pop_back (y ∷ ys)

-- `LRUlist_.erase(it)` at the place of the frame
unfoldable pub erase : ℕ → List ℕ → List ℕ
erase f [] = []
erase f (x ∷ xs) = if x == f then xs else x ∷ erase f xs

-- `victim`: the frame if there is one (`return true`), and the replacer after it.
unfoldable pub victim : LruReplacer → Option ℕ × LruReplacer
unfolding back? pop_back set_hash
victim r = elim (back? r.lru_list) [
  | none ↦ (none, r)
  | some f ↦
      (some f, record r { lru_list = pop_back r.lru_list; lru_hash = set_hash f false r.lru_hash })
]

unfoldable pub pin : ℕ → LruReplacer → LruReplacer
unfolding erase set_hash
pin f r =
    if r.lru_hash f
    then record r { lru_list = erase f r.lru_list; lru_hash = set_hash f false r.lru_hash }
    else r

unfoldable pub unpin : ℕ → LruReplacer → LruReplacer
unfolding set_hash
unpin f r =
    if r.lru_hash f
    then r
    else record r { lru_list = f ∷ r.lru_list; lru_hash = set_hash f true r.lru_hash }

-- `Size`
unfoldable pub size : LruReplacer → ℕ
size r = length r.lru_list
