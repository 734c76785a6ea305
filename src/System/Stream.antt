-- ===== src/System/Stream.antt =====
-- The text streams that `<<` and `>>` of src/system/sm_meta.h and src/defs.h work on: lists of
-- characters. How a number is written and read is a parameter.
use Prim.Native.Char.{Char, code}
use Prim.Native.String.{String, [] as empty, ◌∷◌ as ◌∷ₛ◌}
use text.Mathlib.TextBridge.{of_list}
use dbgenerality_rucbase.Base.{
  ◌≡◌, refl, ◌∙◌, ap, Bool, true, false, ◌&&◌, ◌||◌, List, [], ◌∷◌, ◌++◌, Option, none, some, ℤ,
  if◌then◌else◌, ◌==◌, leb,
}
use dbgenerality_rucbase.Query.Value.Bytes.{IsInt}

abbrev pub Text : Type 0
Text = List Char

abbrev pub chars_of : String → Text
chars_of empty = []
chars_of (c ∷ₛ s) = c ∷ chars_of s

of_list-chars_of : (s : String) → of_list (chars_of s) ≡ s
of_list-chars_of empty = refl
of_list-chars_of (c ∷ₛ s) = ap (λ (t : String). c ∷ₛ t) (of_list-chars_of s)

-- `isspace`
abbrev pub is_blank : Char → Bool
is_blank c = code c == 32 || (leb 9 (code c) && leb (code c) 13)

-- `<<` and `>>` of the standard library on numbers. A number that an `int` holds is read back up to
-- the next blank, and blanks before a number are skipped.
pub record NumberFormat : Type 0 where
  pub show : ℤ → Text
  pub read : Text → Option (ℤ × Text)
  pub read-show :
      (i : ℤ) (b : Char) (rest : Text)
      → IsInt i
      → is_blank b ≡ true
      → read (show i ++ b ∷ rest) ≡ some (i, b ∷ rest)
  pub read-blank : (b : Char) (rest : Text) → is_blank b ≡ true → read (b ∷ rest) ≡ read rest

-- The characters up to the next blank, and the rest.
abbrev pub take_word : Text → Text × Text
take_word [] = ([], [])
take_word (c ∷ cs) =
    if is_blank c then ([], c ∷ cs) else (let (w, rest) = take_word cs in (c ∷ w, rest))

abbrev pub skip_blanks : Text → Text
skip_blanks [] = []
skip_blanks (c ∷ cs) = if is_blank c then skip_blanks cs else c ∷ cs

-- `>>` on a string that fails where there is no word.
abbrev pub word_of : Text × Text → Option (String × Text)
word_of ([], rest) = none
word_of (c ∷ cs, rest) = some (of_list (c ∷ cs), rest)

unfoldable pub read_string : Text → Option (String × Text)
read_string text = word_of (take_word (skip_blanks text))

-- Characters without a blank, and a name that is one word.
abbrev pub NoBlank : Text → Type 0
NoBlank [] = Unit
NoBlank (c ∷ cs) = (is_blank c ≡ false) × NoBlank cs

abbrev pub Starts : Text → Type 0
Starts [] = ⊥
Starts (c ∷ cs) = Unit

abbrev pub IsWord : String → Type 0
IsWord name = Starts (chars_of name) × NoBlank (chars_of name)

take_word-NoBlank :
    (w : Text) (b : Char) (rest : Text)
    → NoBlank w
    → is_blank b ≡ true
    → take_word (w ++ b ∷ rest) ≡ (w, b ∷ rest)
take_word-NoBlank [] b rest n e = rw (e) refl
take_word-NoBlank (c ∷ cs) b rest n e = rw (n.0, take_word-NoBlank cs b rest n.1 e) refl

word_back :
    (w : Text) (b : Char) (rest : Text)
    → Starts w
    → NoBlank w
    → is_blank b ≡ true
    → read_string (w ++ b ∷ rest) ≡ some (of_list w, b ∷ rest)
unfolding read_string
word_back [] b rest s n e = absurd s
word_back (c ∷ cs) b rest s n e =
    let no_skip : skip_blanks (c ∷ (cs ++ b ∷ rest)) ≡ c ∷ (cs ++ b ∷ rest) = rw (n.0) refl in
    ap (λ (t : Text). word_of (take_word t)) no_skip
    ∙ ap word_of (take_word-NoBlank (c ∷ cs) b rest n e)

-- A word that stands before a blank is read, whatever follows.
pub read_string-IsWord :
    (name : String) (b : Char) (rest : Text)
    → IsWord name
    → is_blank b ≡ true
    → read_string (chars_of name ++ b ∷ rest) ≡ some (name, b ∷ rest)
read_string-IsWord name b rest w e =
    word_back (chars_of name) b rest w.0 w.1 e
    ∙ ap (λ (s : String). some (s, b ∷ rest)) (of_list-chars_of name)

pub read_string-blank :
    (b : Char) (rest : Text) → is_blank b ≡ true → read_string (b ∷ rest) ≡ read_string rest
unfolding read_string
read_string-blank b rest e = rw (e) refl
