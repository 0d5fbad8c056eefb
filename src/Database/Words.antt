-- ===== src/Database/Words.antt =====
-- The words of a statement of SQL.
use mathlib.Core.List.{reverse}
use scaffolding.Base.{ℕ, Bytes, ◌||◌, ◌&&◌, List, [], ◌∷◌, ◌++◌, codes, eqb, leb, if◌then◌else◌}

-- What a byte is for the words of a statement.
pub data Class : Type 0 where
  letter space line_end mark quote dash other : Class

class : ℕ → Class
class c =
    if (leb b'a' c && leb c b'z')
      || (leb b'A' c && leb c b'Z')
      || (leb b'0' c && leb c b'9')
      || eqb c b'_'
    then letter
    else if eqb c 32 || eqb c 9
    then space
    else if eqb c 10
    then line_end
    else if eqb c b'(' || eqb c b')' || eqb c b',' || eqb c b';'
    then mark
    else if eqb c 39
    then quote
    else if eqb c b'-'
    then dash
    else other

-- Where the reader is: between words, in a word or a quoted text with its bytes, the last one first,
-- after one dash or two, or in a comment.
pub data Mode : Type 0 where
  outside after_dash after_dashes in_comment : Mode
  in_word in_text : Bytes → Mode

-- A word that no statement has.
abbrev refused : Bytes
refused = codes "?"

-- One byte: the words that end with it, and where the reader is afterwards.
from_outside : ℕ → Class → List Bytes × Mode
from_outside c letter = ([], in_word (c ∷ []))
from_outside c space = ([], outside)
from_outside c line_end = ([], outside)
from_outside c mark = ((c ∷ []) ∷ [], outside)
from_outside c quote = ([], in_text [])
from_outside c dash = ([], after_dash)
from_outside c other = (refused ∷ [], outside)

next : Mode → ℕ → Class → List Bytes × Mode
unfolding from_outside
next outside c k = from_outside c k
next (in_word w) c letter = ([], in_word (c ∷ w))
next (in_word w) c k = let (ws, m) = from_outside c k in (reverse w ∷ ws, m)
next (in_text w) c quote = ((39 ∷ reverse w) ∷ [], outside)
next (in_text w) c line_end = (refused ∷ [], outside)
next (in_text w) c k = ([], in_text (c ∷ w))
next after_dash c dash = ([], after_dashes)
next after_dash c k = (refused ∷ [], outside)
next after_dashes c space = ([], in_comment)
next after_dashes c line_end = ([], outside)
next after_dashes c k = (refused ∷ [], outside)
next in_comment c line_end = ([], outside)
next in_comment c k = ([], in_comment)

at_end : Mode → List Bytes
at_end (in_word w) = reverse w ∷ []
at_end (in_text w) = refused ∷ []
at_end after_dash = refused ∷ []
at_end m = []

-- The words of a text, without its comments; a quoted text keeps its first quote.
unfoldable pub words_from : Mode → Bytes → List Bytes
unfolding class next at_end
words_from m [] = at_end m
words_from m (c ∷ s) = let (ws, m') = next m c (class c) in ws ++ words_from m' s
