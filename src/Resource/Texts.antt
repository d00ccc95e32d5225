-- ===== src/Resource/Texts.antt =====
-- src/resource_protocol.rs: the shape of an identifier. A text is read by the codes of its
-- characters. That is what its UTF-8 bytes show here, since every test is on ASCII and the bytes
-- of other characters are all above it.
use Prim.Native.Char.{code}
use casegraphen.Prelude.{
  ℕ, String, Bool, true, false, not, ◌&&◌, ◌||◌, Option, none, some, List, [], ◌∷◌, if◌then◌else◌,
  all, any, leb, ltb, ◌==◌,
}

abbrev pub codes : String → List ℕ
codes String.[] = []
codes (String.◌∷◌ c s) = code c ∷ codes s

abbrev pub is_empty_text : String → Bool
is_empty_text String.[] = true
is_empty_text (String.◌∷◌ _ _) = false

-- `split_once(mark)`
unfoldable pub split_once : ℕ → List ℕ → Option (List ℕ × List ℕ)
split_once mark [] = none
split_once mark (c ∷ cs) =
    if c == mark
    then some ([], cs)
    else elim (split_once mark cs) [ none ↦ none | some (before, after) ↦ some (c ∷ before, after) ]

abbrev is_ascii_alphanumeric : ℕ → Bool
is_ascii_alphanumeric c =
    (leb b'0' c && leb c b'9') || (leb b'A' c && leb c b'Z') || (leb b'a' c && leb c b'z')

abbrev is_ascii_whitespace : ℕ → Bool
is_ascii_whitespace c = c == 32 || c == 9 || c == 10 || c == 12 || c == 13

abbrev is_ascii_control : ℕ → Bool
is_ascii_control c = ltb c 32 || c == 127

abbrev non_empty : List ℕ → Bool
non_empty [] = false
non_empty (_ ∷ _) = true

unfoldable pub is_canonical_id : String → Bool
unfolding split_once
is_canonical_id value = elim (split_once b':' (codes value)) [
  | none ↦ false
  | some (namespace, identity) ↦
      non_empty namespace
      && non_empty identity
      && all (λ c. is_ascii_alphanumeric c || c == b'_' || c == b'-' || c == b'.') namespace
      && all (λ c. not (is_ascii_whitespace c) && not (is_ascii_control c)) identity
]

-- `scope.contains('=')`
unfoldable pub contains_equals : String → Bool
contains_equals scope = any (λ c. c == b'=') (codes scope)
