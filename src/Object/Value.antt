-- ===== src/Object/Value.antt =====
-- source/object/value.h and value.c: the tagged value of the object layer, and what copying and
-- releasing one does to the reference counts.
use can_do.Base.{ℕ, ◌+◌, ◌==◌, if◌then◌else◌, Bool, List, [], ◌∷◌, ◌++◌, ◌≡◌, refl, arith}

-- A pointer is an address, 0 for NULL. A double is its 64 bits: these operations only move it.
pub data CdoValue : Type 0 where
  null : CdoValue
  boolean : Bool → CdoValue
  number : ℕ → CdoValue
  string : ℕ → CdoValue
  object : ℕ → CdoValue
  array : ℕ → CdoValue
  function : ℕ → CdoValue
  native : ℕ → CdoValue

-- One change of the reference count of the string at an address.
pub data RefEvent : Type 0 where
  retained : ℕ → RefEvent
  released : ℕ → RefEvent

-- `cdo_value_copy` returns its argument; this is its effect.
unfoldable pub cdo_value_copy : CdoValue → List RefEvent
cdo_value_copy (string s) = if s == 0 then [] else retained s ∷ []
cdo_value_copy _ = []

-- `cdo_string_release` ignores NULL.
unfoldable pub cdo_value_release : CdoValue → List RefEvent
cdo_value_release (string s) = if s == 0 then [] else released s ∷ []
cdo_value_release _ = []

-- How often a value, a list of values or a list of events counts for the string at `s`.
unfoldable pub refs : ℕ → CdoValue → ℕ
refs s (string t) = if t == 0 then 0 else if t == s then 1 else 0
refs s _ = 0

unfoldable pub total_refs : ℕ → List CdoValue → ℕ
unfolding refs
total_refs s [] = 0
total_refs s (v ∷ vs) = refs s v + total_refs s vs

unfoldable pub retains : ℕ → List RefEvent → ℕ
retains s [] = 0
retains s (retained t ∷ es) = (if t == s then 1 else 0) + retains s es
retains s (released t ∷ es) = retains s es

unfoldable pub releases : ℕ → List RefEvent → ℕ
releases s [] = 0
releases s (retained t ∷ es) = releases s es
releases s (released t ∷ es) = (if t == s then 1 else 0) + releases s es

module _ (s : ℕ) where
  pub retains-copy : (v : CdoValue) → retains s (cdo_value_copy v) ≡ refs s v
  unfolding retains cdo_value_copy refs
  retains-copy (string t) = ground arith
  retains-copy _ = refl

  pub releases-copy : (v : CdoValue) → releases s (cdo_value_copy v) ≡ 0
  unfolding releases cdo_value_copy
  releases-copy (string t) = ground arith
  releases-copy _ = refl

  pub retains-release : (v : CdoValue) → retains s (cdo_value_release v) ≡ 0
  unfolding retains cdo_value_release
  retains-release (string t) = ground arith
  retains-release _ = refl

  pub releases-release : (v : CdoValue) → releases s (cdo_value_release v) ≡ refs s v
  unfolding releases cdo_value_release refs
  releases-release (string t) = ground arith
  releases-release _ = refl

  pub retains-append : (d e : List RefEvent) → retains s (d ++ e) ≡ retains s d + retains s e
  unfolding retains
  retains-append [] e = omega arith
  retains-append (retained t ∷ d) e = omega (arith, retains-append d e)
  retains-append (released t ∷ d) e = omega (arith, retains-append d e)

  pub releases-append : (d e : List RefEvent) → releases s (d ++ e) ≡ releases s d + releases s e
  unfolding releases
  releases-append [] e = omega arith
  releases-append (retained t ∷ d) e = omega (arith, releases-append d e)
  releases-append (released t ∷ d) e = omega (arith, releases-append d e)

  pub total_refs-append :
      (u v : List CdoValue) → total_refs s (u ++ v) ≡ total_refs s u + total_refs s v
  unfolding total_refs
  total_refs-append [] v = omega arith
  total_refs-append (x ∷ u) v = omega (arith, total_refs-append u v)
