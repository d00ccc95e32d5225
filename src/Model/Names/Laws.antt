-- ===== src/Model/Names/Laws.antt =====
-- A name is read as what it names, and nothing else is read.
use Prim.Native.Char.{Char}
use Prim.Native.String.{◌++◌ as join}
use Prim.Native.String.append
use casegraphen.Prelude.{
  String, Bool, true, false, none, some, List, [], ◌∷◌, ok, ◌≡◌, ◌↔◌, ◌⊎◌, inl, inr, refl, sym, ap,
  ◌∙◌, subst, arith, all, str_eq, eq_iff, Bool-cases, Option-cases, ok-injective,
}
use casegraphen.Model.Names.{
  CustomEnum, custom_prefix, strip, named, is_blank, from_str, extended, same_char,
}

same_char_self : (c : Char) → same_char c c ≡ true
same_char_self c = (eq_iff _ _).1 refl

same_char-eq : (c d : Char) → same_char c d ≡ true → c ≡ d
same_char-eq c d e = let p = (eq_iff _ _).0 e in cc

strip-join : (p s : String) → strip p (join p s) ≡ some s
unfolding strip
strip-join String.[] s = ap (strip String.[]) (append.nil s)
strip-join (String.◌∷◌ c p) s =
    ap (strip (String.◌∷◌ c p)) (append.cons c p s) ∙ rw (same_char_self c) (strip-join p s)

some-injective : {A : Type 0} {a b : A} → some a ≡ some b → a ≡ b
some-injective e = cc

strip_sound : (p v s : String) → strip p v ≡ some s → v ≡ join p s
unfolding strip
strip_sound String.[] v s e = some-injective e ∙ sym (append.nil s)
strip_sound (String.◌∷◌ c p) String.[] s e = cc
strip_sound (String.◌∷◌ c p) (String.◌∷◌ d v) s e = elim (Bool-cases (same_char c d)) [
  | inl yes_same ↦
      ap (λ x. String.◌∷◌ x v) (sym (same_char-eq c d yes_same))
      ∙ ap (String.◌∷◌ c) (strip_sound p v s (rw yes_same at e))
      ∙ sym (append.cons c p s)
  | inr other ↦ let f = rw other at e in cc
]

abbrev is_plain : {A : Type 0} → String × A → Bool
is_plain (name, t) = elim (strip custom_prefix name) [ none ↦ true | some _ ↦ false ]

abbrev is_valued : {A : Type 0} → (A → String) → String × A → Bool
is_valued f (name, t) = str_eq (f t) name

-- The names of a type are written as such, none looks like an extension, and every variant is named
-- or an extension.
pub record IsFaithful {A : Type 0} (E : CustomEnum A) : Type 0 where
  pub plain : all is_plain E.names ≡ true
  pub values : all (is_valued E.serialized_value) E.names ≡ true
  pub extensions : (e : String) → E.serialized_value (E.custom e) ≡ join custom_prefix e
  pub covers :
      (t : A) → (named E.names (E.serialized_value t) ≡ some t) ⊎ ((e : String) × (t ≡ E.custom e))

plain-named :
    {A : Type 0} (n : String) (t : A) (names : List (String × A))
    → all is_plain ((n, t) ∷ names) ≡ true
    → (strip custom_prefix n ≡ none) × (all is_plain names ≡ true)
plain-named n t names e = ground arith

valued-named :
    {A : Type 0} (f : A → String) (n : String) (t : A) (names : List (String × A))
    → all (is_valued f) ((n, t) ∷ names) ≡ true
    → (f t ≡ n) × (all (is_valued f) names ≡ true)
valued-named f n t names e = ground (arith, eq_iff (f t) n)

named-extension :
    {A : Type 0} (names : List (String × A)) (e : String)
    → all is_plain names ≡ true
    → named names (join custom_prefix e) ≡ none
named-extension [] e a = refl
named-extension ((n, t) ∷ names) e a =
    let (first, rest) = plain-named n t names a in
    elim (Bool-cases (str_eq n (join custom_prefix e))) [
      | inl same_text ↦
          let p = ap (strip custom_prefix) ((eq_iff _ _).0 same_text) in
          let q = strip-join custom_prefix e in cc
      | inr other ↦ rw other (named-extension names e rest)
    ]

named_sound :
    {A : Type 0} (f : A → String) (names : List (String × A)) (value : String) (t : A)
    → all (is_valued f) names ≡ true
    → all is_plain names ≡ true
    → named names value ≡ some t
    → (f t ≡ value) × (strip custom_prefix value ≡ none)
named_sound f [] value t a b e = cc
named_sound f ((n, u) ∷ names) value t v p e =
    let (a, valued) = valued-named f n u names v in
    let (b, plain) = plain-named n u names p in
    elim (Bool-cases (str_eq n value)) [
      | inl same_text ↦
          let n_eq = (eq_iff n value).0 same_text in
          let q = some-injective (rw same_text at e) in
          (ap f (sym q) ∙ a ∙ n_eq, subst (λ x. strip custom_prefix x ≡ none) n_eq b)
      | inr other ↦ named_sound f names value t valued plain (rw other at e)
    ]

module _ (is_whitespace : Char → Bool) {A : Type 0} (E : CustomEnum A) (F : IsFaithful E) where
  -- No extension of the variant is blank.
  abbrev pub IsSpoken : A → Type 0
  IsSpoken t = (e : String) → t ≡ E.custom e → is_blank is_whitespace e ≡ false

  extension-eq :
      (e value : String) → E.serialized_value (E.custom e) ≡ value → value ≡ join custom_prefix e
  extension-eq e value p = sym p ∙ F.extensions e

  extended_iff :
      (value : String) (t : A)
      → named E.names value ≡ none
      → extended is_whitespace E value (strip custom_prefix value) ≡ ok t
      → (E.serialized_value t ≡ value) × IsSpoken t
  extended_iff value t new e = elim (Option-cases (strip custom_prefix value)) [
    | inl no_prefix ↦ let f = rw no_prefix at e in cc
    | inr (x, found) ↦ elim (Bool-cases (is_blank is_whitespace x)) [
      | inl blank ↦ let f = rw (found, blank) at e in cc
      | inr spoken ↦
          let t_eq = ok-injective (rw (found, spoken) at e) in
          let written =
            ap E.serialized_value (sym t_eq)
            ∙ F.extensions x
            ∙ sym (strip_sound custom_prefix value x found) in
          (
            written,
            λ y t_is_y.
                let y_eq = some-injective (
                  sym (strip-join custom_prefix y)
                  ∙ ap (strip custom_prefix)
                      (sym (F.extensions y) ∙ ap E.serialized_value (sym t_is_y) ∙ written)
                  ∙ found) in
                subst (λ z. is_blank is_whitespace z ≡ false) (sym y_eq) spoken,
          )
    ]
  ]

  named_iff :
      (value : String) (t : A)
      → named E.names value ≡ some t
      → (E.serialized_value t ≡ value) × IsSpoken t
  named_iff value t e =
      let (written, no_prefix) =
        named_sound E.serialized_value E.names value t F.values F.plain e in
      (
        written,
        λ y t_is_y.
            let p =
              ap (strip custom_prefix)
                (sym written ∙ ap E.serialized_value t_is_y ∙ F.extensions y) in
            let q = strip-join custom_prefix y in cc,
      )

  -- A text is read as a variant exactly where it is what the variant is written as, and the variant
  -- is no extension by a blank text.
  pub from_str_iff :
      (value : String) (t : A)
      → (from_str is_whitespace E value ≡ ok t) ↔ ((E.serialized_value t ≡ value) × IsSpoken t)
  unfolding from_str
  from_str_iff value t = (
    λ e. elim (Option-cases (named E.names value)) [
      | inl new ↦ extended_iff value t new (rw new at e)
      | inr (u, found) ↦
          let u_eq = ok-injective (rw found at e) in named_iff value t (found ∙ ap some u_eq)
    ],
    λ (written, spoken). elim (F.covers t) [
      | inl found ↦ rw (subst (λ v. named E.names v ≡ some t) written found) refl
      | inr (e, t_is_e) ↦
          let is_join = extension-eq e value (ap E.serialized_value (sym t_is_e) ∙ written) in
          let new =
            subst (λ v. named E.names v ≡ none) (sym is_join) (named-extension E.names e F.plain) in
          let found = ap (strip custom_prefix) is_join ∙ strip-join custom_prefix e in
          rw (new, found, spoken e t_is_e) (ap ok (sym t_is_e))
    ],
  )
