-- ===== src/Input/Typing.antt =====
-- What a desktop with the US layout makes of the keyboard's events.
use titan_share.Prelude.{
  ℕ, zero, suc, ◌-◌, ◌<◌, ltb, leb, ◌==◌, ◌≡◌, refl, sym, ap, ◌∙◌, Bool, true, false, ◌&&◌, ◌||◌,
  if◌then◌else◌, Option, none, some, List, [], ◌∷◌, ◌++◌, Bytes, eqb, eqb_iff, arith, Bool-cases,
  Option-cases, inl, inr, not, ltb→lt,
}
use titan_share.Input.{
  KeyCode, char_key, key_space, key_enter, key_tab, key_leftshift, InputEvent, key, VirtualInput,
  type_key_code, ascii_map, type_char, type_chars, type_text,
}

-- The upper characters of the keys that are not letters.
abbrev upper : List (ℕ × ℕ)
upper =
    (b'1', b'!')
    ∷ (b'2', b'@')
    ∷ (b'3', b'#')
    ∷ (b'4', b'$')
    ∷ (b'5', b'%')
    ∷ (b'6', b'^')
    ∷ (b'7', b'&')
    ∷ (b'8', b'*')
    ∷ (b'9', b'(')
    ∷ (b'0', b')')
    ∷ (b'-', b'_')
    ∷ (b'=', b'+')
    ∷ (b'[', b'{')
    ∷ (b']', b'}')
    ∷ (92, b'|')
    ∷ (b';', b':')
    ∷ (39, 34)
    ∷ (b',', b'<')
    ∷ (b'.', b'>')
    ∷ (b'/', b'?')
    ∷ (b'`', b'~')
    ∷ []

upper_of : ℕ → List (ℕ × ℕ) → ℕ
upper_of c [] = c
upper_of c ((k, u) ∷ rest) = let later = upper_of c rest in if c == k then u else later

-- The character of a key press, with shift held or not.
layout : KeyCode → Bool → Bytes
unfolding upper_of
layout (char_key c) shift =
    (if shift then (if leb b'a' c && leb c b'z' then c - 32 else upper_of c upper) else c) ∷ []
layout key_space shift = b' ' ∷ []
layout key_enter shift = b'\n' ∷ []
layout key_tab shift = b'\t' ∷ []
layout _ shift = []

is_shift : KeyCode → Bool
is_shift key_leftshift = true
is_shift _ = false

-- The text of a run of events, from a state of the shift key.
unfoldable pub shown : Bool → List InputEvent → Bytes
unfolding layout is_shift
shown shift [] = []
shown shift (key k true ∷ es) =
    if is_shift k then shown true es else layout k shift ++ shown shift es
shown shift (key k false ∷ es) = shown (if is_shift k then false else shift) es
shown shift (_ ∷ es) = shown shift es

-- The keys of the layout that show a character, and whether one of them shows `c`, with shift or
-- without.
among : ℕ → List (ℕ × ℕ) → Bool
among c [] = false
among c ((k, u) ∷ rest) = let later = among c rest in if c == k || c == u then true else later

unfoldable pub is_typable : ℕ → Bool
unfolding among
is_typable c =
    leb b'a' c && leb c b'z'
    || leb b'A' c && leb c b'Z'
    || c == b' '
    || c == b'\n'
    || c == b'\t'
    || among c upper

unfoldable pub typable : Bytes → Bytes
typable [] = []
typable (c ∷ cs) = let rest = typable cs in if is_typable c then c ∷ rest else rest

-- Whether each of the first `count` codes passes.
each_passes : (ℕ → Bool) → ℕ → Bool
each_passes passes zero = true
each_passes passes (suc code) =
    let rest = each_passes passes code in if passes code then rest else false

passes_of :
    (passes : ℕ → Bool) (count code : ℕ)
    → each_passes passes count ≡ true
    → code < count
    → passes code ≡ true
unfolding each_passes
passes_of passes zero code h k = absurd (omega arith)
passes_of passes (suc last) code h k = ground (arith, passes_of passes last code)

abbrev same : Bool → Bool → Bool
same true b = b
same false b = not b

same→≡ : (a b : Bool) → same a b ≡ true → a ≡ b
same→≡ true true h = refl
same→≡ true false h = sym h
same→≡ false true h = h
same→≡ false false h = refl

-- An entry of the map is the key that shows its character.
is_right : ℕ → Option (KeyCode × Bool) → Bool
is_right c none = true
is_right c (some (code, shift)) = eqb (layout code shift) (c ∷ []) && not (is_shift code)

-- The map has an entry for just the characters of the layout.
is_mapped : ℕ → Bool
is_mapped c = elim (ascii_map c) [ none ↦ false | some _ ↦ true ]

every_character : each_passes (λ c. same (is_mapped c) (is_typable c)) 128 ≡ true
unfolding each_passes is_mapped ascii_map is_typable
every_character = refl

high_among : (c : ℕ) → ltb c 128 ≡ false → is_typable c ≡ false
unfolding is_typable
high_among c h = ground arith

mapped-is_typable : (c : ℕ) → c < 128 → is_mapped c ≡ is_typable c
mapped-is_typable c h =
    same→≡ (is_mapped c) (is_typable c)
      (passes_of (λ c. same (is_mapped c) (is_typable c)) 128 c every_character h)

every_entry : each_passes (λ c. is_right c (ascii_map c)) 128 ≡ true
unfolding each_passes is_right ascii_map layout is_shift eqb
every_entry = refl

entry_lem :
    (c : ℕ) (code : KeyCode) (shift : Bool)
    → c < 128
    → ascii_map c ≡ some (code, shift)
    → (layout code shift ≡ c ∷ []) × (is_shift code ≡ false)
unfolding is_right
entry_lem c code shift h e = ground (
  arith,
  passes_of (λ c. is_right c (ascii_map c)) 128 c every_entry h,
  eqb_iff (layout code shift) (c ∷ []),
)

shown-type_key_code :
    (code : KeyCode) (shift : Bool) (rest : List InputEvent)
    → is_shift code ≡ false
    → shown false (type_key_code code shift ++ rest) ≡ layout code shift ++ shown false rest
unfolding shown type_key_code
shown-type_key_code code true rest h = rw h
shown-type_key_code code false rest h = rw h

shown-type_char :
    (c : ℕ) (rest : List InputEvent)
    → shown false (type_char c ++ rest)
      ≡ (if is_typable c then c ∷ shown false rest else shown false rest)
unfolding type_char is_mapped
shown-type_char c rest = elim (Bool-cases (ltb c 128)) [
  | inr high ↦ rw (high, high_among c high) refl
  | inl low ↦ elim (Option-cases (ascii_map c)) [
    | inl unmapped ↦
        let typable_not : is_typable c ≡ false =
          sym (mapped-is_typable c (ltb→lt c 128 low)) ∙ rw (is_mapped, unmapped) refl in
        rw (low, unmapped, typable_not) refl
    | inr ((code, shift), e) ↦
        let entry = entry_lem c code shift (ltb→lt c 128 low) e in
        let typed : is_typable c ≡ true =
          sym (mapped-is_typable c (ltb→lt c 128 low)) ∙ rw (is_mapped, e) refl in
        rw (low, e, typed)
          (shown-type_key_code code shift rest entry.1 ∙ ap (λ s. s ++ shown false rest) entry.0)
  ]
]

shown-type_chars : (text : Bytes) → shown false (type_chars text) ≡ typable text
unfolding type_chars typable
shown-type_chars [] = unfold shown in refl
shown-type_chars (c ∷ cs) =
    shown-type_char c (type_chars cs)
    ∙ ap (λ s. if is_typable c then c ∷ s else s) (shown-type_chars cs)

-- On an initialized device the desktop shows the text that was sent, without the bytes that are no
-- character of a key of the layout, be it with shift or without.
pub shown-type_text :
    (v : VirtualInput) (text : Bytes)
    → v.initialized ≡ true
    → shown false (type_text v text) ≡ typable text
unfolding type_text
shown-type_text v text h = ground (arith, shown-type_chars text)
