-- ===== src/Access/Pattern.antt =====
-- Tests on paths: `starts_with` of the language, and `LIKE`, `RIGHT` and `RTRIM` of the database.
use Prim.Native.Char.{Char, code}
use Prim.Native.String.{[], ◌∷◌, ◌++◌ as text_append}
use cqwu_achievement_system.Prelude.{String, Bool, true, false, ◌&&◌, ◌||◌, ◌==◌, if◌then◌else◌}

abbrev pub same_char : Char → Char → Bool
same_char c d = code c == code d

-- `text.starts_with(prefix)`, the prefix first
unfoldable pub starts_with : String → String → Bool
starts_with [] text = true
starts_with (p ∷ ps) [] = false
starts_with (p ∷ ps) (c ∷ text) = same_char p c && starts_with ps text

-- Some rest of the text passes the test.
unfoldable pub any_rest : (String → Bool) → String → Bool
any_rest test [] = test []
any_rest test (c ∷ text) = test (c ∷ text) || any_rest test text

-- The first character of the text passes the first test, the rest the second.
abbrev pub step : (Char → Bool) → (String → Bool) → String → Bool
step first rest [] = false
step first rest (c ∷ text) = first c && rest text

abbrev pub is_empty : String → Bool
is_empty [] = true
is_empty (c ∷ text) = false

-- The part of a pattern that begins with `p`; `rest` matches what follows, where the flag says
-- whether an escape came just before.
abbrev pub like_char : Char → (Bool → String → Bool) → String → Bool
like_char p rest text =
    if same_char p "%"
    then any_rest (rest false) text
    else if same_char p "_"
    then step (λ c. true) (rest false) text
    else if same_char p "\\"
    then rest true text
    else step (same_char p) (rest false) text

unfoldable pub like_after : Bool → String → String → Bool
like_after escaped [] text = is_empty text
like_after true (p ∷ ps) text = step (same_char p) (like_after false ps) text
like_after false (p ∷ ps) text = like_char p (λ escaped. like_after escaped ps) text

-- `text LIKE pattern`, the pattern first: `%` stands for any text, `_` for any character, and `\`
-- takes the next one as it is. (A pattern that ends in the escape is an error of the database; none
-- does here, since each has `%` appended.)
unfoldable pub like : String → String → Bool
unfolding like_after any_rest
like pattern text = like_after false pattern text

-- `text LIKE (pattern || '%')`
unfoldable pub like_prefix : String → String → Bool
like_prefix pattern text = like (text_append pattern "%") text

-- `RIGHT(text, 1) = '/'`
unfoldable pub ends_in_slash : String → Bool
ends_in_slash [] = false
ends_in_slash (c ∷ text) = if is_empty text then same_char c "/" else ends_in_slash text

-- `RTRIM(text, '/')`
abbrev pub trim_cons : Char → String → String
trim_cons c [] = if same_char c "/" then [] else c ∷ []
trim_cons c (d ∷ text) = c ∷ d ∷ text

unfoldable pub rtrim : String → String
rtrim [] = []
rtrim (c ∷ text) = trim_cons c (rtrim text)
