-- ===== src/GoText.antt =====
-- Go strings and the functions of the standard packages `strings` and `unicode` that the source
-- calls. A string that holds valid UTF-8 is the list of its code points.
pub mod Laws
pub mod Splitting
pub mod Trimming
use Prim.Native.Char.{code}
use Prim.Native.String.{String}
use fluxplane_system.Prelude.{
  ℕ, suc, Bool, true, false, ◌&&◌, ◌||◌, List, [], ◌∷◌, ◌++◌, leb, ltb, ◌==◌, if◌then◌else◌, length,
  drop,
}

abbrev pub Text : Type 0
Text = List ℕ

-- The code points of a literal.
abbrev pub codes : String → Text
codes String.[] = []
codes (String.◌∷◌ c s) = code c ∷ codes s

abbrev pub slash : ℕ
slash = 47

abbrev pub backslash : ℕ
backslash = 92

abbrev pub newline : ℕ
newline = 10

unfoldable pub text_eq : Text → Text → Bool
text_eq [] [] = true
text_eq [] (_ ∷ _) = false
text_eq (_ ∷ _) [] = false
text_eq (a ∷ s) (b ∷ t) = a == b && text_eq s t

-- `s == ""`
unfoldable pub is_empty : Text → Bool
is_empty [] = true
is_empty (_ ∷ _) = false

-- `strings.HasPrefix(s, p)`, the prefix first.
unfoldable pub has_prefix : Text → Text → Bool
has_prefix [] s = true
has_prefix (_ ∷ _) [] = false
has_prefix (a ∷ p) (b ∷ s) = a == b && has_prefix p s

-- `strings.TrimPrefix(s, p)`, the prefix first.
unfoldable pub trim_prefix : Text → Text → Text
unfolding has_prefix
trim_prefix p s = if has_prefix p s then drop (length p) s else s

-- `strings.Contains(s, c)` for one code point.
unfoldable pub contains_char : ℕ → Text → Bool
contains_char c [] = false
contains_char c (x ∷ s) = x == c || contains_char c s

-- `strings.ContainsAny(s, chars)`
unfoldable pub contains_any : Text → Text → Bool
unfolding contains_char
contains_any chars [] = false
contains_any chars (x ∷ s) = contains_char x chars || contains_any chars s

-- `strings.ReplaceAll(s, old, new)` for one code point by another.
unfoldable pub replace_all : ℕ → ℕ → Text → Text
replace_all old new [] = []
replace_all old new (x ∷ s) = (if x == old then new else x) ∷ replace_all old new s

-- `unicode.IsSpace`
unfoldable pub is_space : ℕ → Bool
is_space c =
    (leb 9 c && leb c 13)
    || (c == 32 || c == 0x85 || c == 0xa0 || c == 0x1680)
    || (leb 0x2000 c && leb c 0x200a)
    || (c == 0x2028 || c == 0x2029 || c == 0x202f || c == 0x205f || c == 0x3000)

unfoldable pub trim_left : Text → Text
unfolding is_space
trim_left [] = []
trim_left (c ∷ s) = if is_space c then trim_left s else c ∷ s

-- A space at the end falls if nothing but spaces follows it.
unfoldable pub trim_right : Text → Text
unfolding is_space is_empty
trim_right [] = []
trim_right (c ∷ s) = let rest = trim_right s in if is_space c && is_empty rest then [] else c ∷ rest

-- `strings.TrimSpace`
unfoldable pub trim_space : Text → Text
unfolding trim_left trim_right
trim_space s = trim_right (trim_left s)

push_front : ℕ → List Text → List Text
push_front x [] = (x ∷ []) ∷ []
push_front x (p ∷ ps) = (x ∷ p) ∷ ps

-- `strings.Split(s, c)` at one code point.
unfoldable pub split_on : ℕ → Text → List Text
unfolding push_front
split_on c [] = [] ∷ []
split_on c (x ∷ s) = let rest = split_on c s in if x == c then [] ∷ rest else push_front x rest

-- `strings.Join(parts, c)`
unfoldable pub join_with : ℕ → List Text → Text
join_with c [] = []
join_with c (p ∷ []) = p
join_with c (p ∷ q ∷ ps) = p ++ (c ∷ join_with c (q ∷ ps))

pub record CutResult : Type 0 where
  pub before : Text
  pub after : Text
  pub found : Bool

-- `strings.Cut(s, c)` at one code point.
unfoldable pub cut : ℕ → Text → CutResult
cut c [] = record { before = []; after = []; found = false }
cut c (x ∷ s) =
    let rest = cut c s in
    if x == c
    then record { before = []; after = s; found = true }
    else record { before = x ∷ rest.before; after = rest.after; found = rest.found }

-- `strings.Count(s, c)` of one code point.
unfoldable pub count_char : ℕ → Text → ℕ
count_char c [] = 0
count_char c (x ∷ s) = let rest = count_char c s in if x == c then suc rest else rest

-- `unicode.IsLetter` and `unicode.IsDigit`, whose tables are not part of the model.
pub record Unicode : Type 0 where
  pub is_letter : ℕ → Bool
  pub is_digit : ℕ → Bool

-- `strings.TrimSuffix(s, c)` for one code point.
unfoldable pub trim_suffix_char : ℕ → Text → Text
trim_suffix_char c [] = []
trim_suffix_char c (x ∷ []) = if x == c then [] else x ∷ []
trim_suffix_char c (x ∷ y ∷ s) = x ∷ trim_suffix_char c (y ∷ s)

-- Whether a text stands before another in the order of `sort.Strings`; the bytes of UTF-8 order as
-- the code points do.
unfoldable pub text_less : Text → Text → Bool
text_less [] [] = false
text_less [] (_ ∷ _) = true
text_less (_ ∷ _) [] = false
text_less (a ∷ s) (b ∷ t) = ltb a b || (a == b && text_less s t)

unfoldable pub insert_sorted : Text → List Text → List Text
unfolding text_less
insert_sorted s [] = s ∷ []
insert_sorted s (t ∷ ts) = if text_less t s then t ∷ insert_sorted s ts else s ∷ t ∷ ts

-- `sort.Strings`
unfoldable pub sort_texts : List Text → List Text
unfolding insert_sorted
sort_texts [] = []
sort_texts (s ∷ ss) = insert_sorted s (sort_texts ss)
