-- ===== src/Core/Value.antt =====
-- source/core/value.h: the tagged value that scripts work on. A double is its 64 bits, a string the list
-- of its bytes, which never change, and an object its handle. The reference counts of strings are not
-- part of this model.
use can_do.Base.{ℕ, ◌==◌, List, [], ◌∷◌, Bool, true, false, ◌&&◌, ◌||◌, not}

pub data CandoValue : Type 0 where
  null : CandoValue
  bool : Bool → CandoValue
  number : ℕ → CandoValue
  string : List ℕ → CandoValue
  object : ℕ → CandoValue

-- memcmp of two strings, their lengths first. The hashes that the code compares in between are those of the
-- bytes, so they differ only for different strings.
unfoldable pub same_string : List ℕ → List ℕ → Bool
same_string [] [] = true
same_string [] (b ∷ bs) = false
same_string (a ∷ xs) [] = false
same_string (a ∷ xs) (b ∷ bs) = (a == b) && same_string xs bs

-- The equality of doubles is a parameter.
unfoldable pub cando_value_equal : (ℕ → ℕ → Bool) → CandoValue → CandoValue → Bool
unfolding same_string
cando_value_equal num_eq null null = true
cando_value_equal num_eq (bool a) (bool b) = (a && b) || (not a && not b)
cando_value_equal num_eq (number a) (number b) = num_eq a b
cando_value_equal num_eq (string a) (string b) = same_string a b
cando_value_equal num_eq (object a) (object b) = a == b
cando_value_equal num_eq _ _ = false
