-- ===== src/Parser/Token/Keywords.antt =====
-- Which identifiers are keywords.
use can_do.Base.{
  ℕ, ◌-◌, ◌≡◌, ◌≢◌, ◌↔◌, ◌⊎◌, inl, inr, refl, sym, ap, ◌∙◌, ◌==◌, if◌then◌else◌, Bool, true, false,
  ◌&&◌, ◌||◌, List, [], ◌∷◌, map, arith, Bool-cases,
}
use mathlib.Core.Path.{subst}
use can_do.Parser.Token.{
  CandoTokenType, tok_ident, KeywordEntry, keywords, is_upper, is_lower, to_lower, some_char,
  same_text, find_keyword, cando_keyword_type,
}

unfoldable pub to_upper : ℕ → ℕ
unfolding is_lower
to_upper c = if is_lower c then c - 32 else c

-- An entry that stands in a table.
abbrev pub Holds : KeywordEntry → List KeywordEntry → Type 0
Holds e [] = ⊥
Holds e (f ∷ es) = (e ≡ f) ⊎ Holds e es

-- `ident` is a keyword of type `t`, all in lower case or all in upper case.
abbrev pub Spells : List ℕ → CandoTokenType → Type 0
Spells ident t =
    (e : KeywordEntry) × Holds e keywords
    × (e.meaning ≡ t)
    × ((ident ≡ map to_lower e.text) ⊎ (ident ≡ map to_upper e.text))

and_true : (a b : Bool) → (a && b) ≡ true → (a ≡ true) × (b ≡ true)
and_true true b e = (refl, e)
and_true false b e = absurd (ground (arith, e))

or_false : (a b : Bool) → (a || b) ≡ false → (a ≡ false) × (b ≡ false)
or_false true b e = absurd (ground (arith, e))
or_false false b e = (refl, e)

and_false : (a b : Bool) → (a && b) ≡ false → (a ≡ false) ⊎ (b ≡ false)
and_false true b e = inr e
and_false false b e = inl refl

lower_char : (c d : ℕ) → (to_lower c == to_lower d) ≡ true → is_upper d ≡ false → d ≡ to_lower c
unfolding to_lower is_upper
lower_char c d e no_upper = ground arith

upper_char : (c d : ℕ) → (to_lower c == to_lower d) ≡ true → is_lower d ≡ false → d ≡ to_upper c
unfolding to_lower is_upper is_lower to_upper
upper_char c d e no_lower = ground arith

same_text-lower :
    (text ident : List ℕ)
    → same_text text ident ≡ true
    → some_char is_upper ident ≡ false
    → ident ≡ map to_lower text
unfolding same_text some_char
same_text-lower [] [] e no_upper = refl
same_text-lower [] (d ∷ ds) e no_upper = absurd (ground (arith, e))
same_text-lower (c ∷ cs) [] e no_upper = absurd (ground (arith, e))
same_text-lower (c ∷ cs) (d ∷ ds) e no_upper =
    let (here, later) = and_true (to_lower c == to_lower d) (same_text cs ds) e in
    let (u, us) = or_false (is_upper d) (some_char is_upper ds) no_upper in
    cc (lower_char c d here u, same_text-lower cs ds later us)

same_text-upper :
    (text ident : List ℕ)
    → same_text text ident ≡ true
    → some_char is_lower ident ≡ false
    → ident ≡ map to_upper text
unfolding same_text some_char
same_text-upper [] [] e no_lower = refl
same_text-upper [] (d ∷ ds) e no_lower = absurd (ground (arith, e))
same_text-upper (c ∷ cs) [] e no_lower = absurd (ground (arith, e))
same_text-upper (c ∷ cs) (d ∷ ds) e no_lower =
    let (here, later) = and_true (to_lower c == to_lower d) (same_text cs ds) e in
    let (u, us) = or_false (is_lower d) (some_char is_lower ds) no_lower in
    cc (upper_char c d here u, same_text-upper cs ds later us)

find_keyword_found :
    (table : List KeywordEntry) (ident : List ℕ)
    → find_keyword table ident ≢ tok_ident
    → (e : KeywordEntry) × Holds e table
      × (e.meaning ≡ find_keyword table ident)
      × (same_text e.text ident ≡ true)
unfolding find_keyword
find_keyword_found [] ident ne = absurd (ne refl)
find_keyword_found (f ∷ es) ident ne = elim (Bool-cases (same_text f.text ident)) [
  | inl hit ↦ (f, inl refl, rw hit, hit)
  | inr miss ↦
      let same : find_keyword (f ∷ es) ident ≡ find_keyword es ident = rw miss in
      let (e, h, m, s) = find_keyword_found es ident (λ q. ne (same ∙ q)) in
      (e, inr h, m ∙ sym same, s)
]

-- A type that is found is that of an entry which the identifier spells.
keyword_sound :
    (ident : List ℕ) (t : CandoTokenType)
    → t ≢ tok_ident
    → cando_keyword_type ident ≡ t
    → Spells ident t
unfolding cando_keyword_type
keyword_sound ident t ne e =
    elim (Bool-cases (some_char is_upper ident && some_char is_lower ident)) [
      | inl mixed ↦ absurd (ne (sym e ∙ rw mixed))
      | inr plain ↦
          let same : find_keyword keywords ident ≡ t = sym (rw plain) ∙ e in
          let (f, h, m, s) = find_keyword_found keywords ident (λ q. ne (sym same ∙ q)) in
          (
            f,
            h,
            m ∙ same,
            elim (and_false (some_char is_upper ident) (some_char is_lower ident) plain) [
              | inl no_upper ↦ inl (same_text-lower f.text ident s no_upper)
              | inr no_lower ↦ inr (same_text-upper f.text ident s no_lower)
            ],
          )
    ]

-- An entry is found by both of its spellings.
abbrev IsFound : KeywordEntry → Type 0
IsFound e =
    (cando_keyword_type (map to_lower e.text) ≡ e.meaning)
    × (cando_keyword_type (map to_upper e.text) ≡ e.meaning)

abbrev AllFound : List KeywordEntry → Type 0
AllFound [] = Unit
AllFound (e ∷ es) = IsFound e × AllFound es

all_found : AllFound keywords
unfolding cando_keyword_type to_upper keywords
all_found = (
  (refl, refl),
  (
    (refl, refl),
    (
      (refl, refl),
      (
        (refl, refl),
        (
          (refl, refl),
          (
            (refl, refl),
            (
              (refl, refl),
              (
                (refl, refl),
                (
                  (refl, refl),
                  (
                    (refl, refl),
                    (
                      (refl, refl),
                      (
                        (refl, refl),
                        (
                          (refl, refl),
                          (
                            (refl, refl),
                            (
                              (refl, refl),
                              (
                                (refl, refl),
                                (
                                  (refl, refl),
                                  (
                                    (refl, refl),
                                    (
                                      (refl, refl),
                                      (
                                        (refl, refl),
                                        (
                                          (refl, refl),
                                          (
                                            (refl, refl),
                                            (
                                              (refl, refl),
                                              (
                                                (refl, refl),
                                                (
                                                  (refl, refl),
                                                  (
                                                    (refl, refl),
                                                    ((refl, refl), ((refl, refl), tt)),
                                                  ),
                                                ),
                                              ),
                                            ),
                                          ),
                                        ),
                                      ),
                                    ),
                                  ),
                                ),
                              ),
                            ),
                          ),
                        ),
                      ),
                    ),
                  ),
                ),
              ),
            ),
          ),
        ),
      ),
    ),
  ),
)

entry-IsFound : (es : List KeywordEntry) → AllFound es → (e : KeywordEntry) → Holds e es → IsFound e
entry-IsFound [] all e h = elim h [ ]
entry-IsFound (f ∷ es) all e (inl q) = subst IsFound (sym q) all.0
entry-IsFound (f ∷ es) all e (inr h) = entry-IsFound es all.1 e h

-- An identifier has a keyword's type exactly if it is that keyword all in lower case or all in upper
-- case.
pub keyword_type-Spells :
    (ident : List ℕ) (t : CandoTokenType)
    → t ≢ tok_ident
    → (cando_keyword_type ident ≡ t) ↔ Spells ident t
keyword_type-Spells ident t ne = (
  keyword_sound ident t ne,
  λ (e, h, m, s).
      (let (low, up) = entry-IsFound keywords all_found e h in
        elim s [
          | inl q ↦ ap cando_keyword_type q ∙ low ∙ m
          | inr q ↦ ap cando_keyword_type q ∙ up ∙ m
        ]),
)
