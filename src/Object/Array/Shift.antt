-- ===== src/Object/Array/Shift.antt =====
-- What the loops of array.c leave in each cell.
use can_do.Base.{
  ℕ, zero, suc, ◌+◌, ◌-◌, ◌≤◌, ◌<◌, ◌≡◌, refl, ltb, leb, if◌then◌else◌, ◌&&◌, List, [], ◌∷◌, arith,
  length, get_or, set, length-set,
}
use can_do.Base.Cells.{get_or-set}
use can_do.Object.Value.{CdoValue, null}
use can_do.Object.Array.{realloc, fill_null, shift_right, shift_left}

pub length-realloc :
    (junk : ℕ → CdoValue) (vs : List CdoValue) (n : ℕ) → length (realloc junk vs n) ≡ n
unfolding realloc
length-realloc junk [] zero = refl
length-realloc junk [] (suc n) = omega (arith, length-realloc junk [] n)
length-realloc junk (v ∷ vs) zero = refl
length-realloc junk (v ∷ vs) (suc n) = omega (arith, length-realloc junk vs n)

-- Cells that existed keep their contents.
pub get_or-realloc :
    (junk : ℕ → CdoValue) (vs : List CdoValue) (n i : ℕ)
    → i < length vs
    → i < n
    → get_or (realloc junk vs n) i null ≡ get_or vs i null
unfolding realloc
get_or-realloc junk [] n i h l = absurd (omega arith)
get_or-realloc junk (v ∷ vs) zero i h l = absurd (omega arith)
get_or-realloc junk (v ∷ vs) (suc n) zero h l = refl
get_or-realloc junk (v ∷ vs) (suc n) (suc i) h l =
    get_or-realloc junk vs n i (omega arith) (omega arith)

pub length-fill_null : (n from : ℕ) (xs : List CdoValue) → length (fill_null n from xs) ≡ length xs
unfolding fill_null
length-fill_null zero from xs = refl
length-fill_null (suc n) from xs =
    omega (arith, length-fill_null n (from + 1) (set xs from null), length-set xs from null)

pub get_or-fill_null :
    (n from : ℕ) (xs : List CdoValue) (i : ℕ)
    → from + n ≤ length xs
    → get_or (fill_null n from xs) i null
      ≡ (if leb from i && ltb i (from + n) then null else get_or xs i null)
unfolding fill_null
get_or-fill_null zero from xs i h = ground arith
get_or-fill_null (suc n) from xs i h =
    let len = length-set xs from null in
    ground (
      arith,
      get_or-fill_null n (from + 1) (set xs from null) i (omega (arith, len)),
      get_or-set xs from i null null (omega arith),
    )

pub length-shift_right : (n i : ℕ) (xs : List CdoValue) → length (shift_right n i xs) ≡ length xs
unfolding shift_right
length-shift_right zero i xs = refl
length-shift_right (suc n) i xs =
    let v = get_or xs (i - 1) null in
    omega (arith, length-shift_right n (i - 1) (set xs i v), length-set xs i v)

-- The cells above `i - n`, up to `i`, hold what stood one below.
pub get_or-shift_right :
    (n i : ℕ) (xs : List CdoValue) (j : ℕ)
    → n ≤ i
    → i < length xs
    → get_or (shift_right n i xs) j null
      ≡ (if ltb (i - n) j && leb j i then get_or xs (j - 1) null else get_or xs j null)
unfolding shift_right
get_or-shift_right zero i xs j h l = ground arith
get_or-shift_right (suc n) i xs j h l =
    let v = get_or xs (i - 1) null in
    let len = length-set xs i v in
    ground (
      arith,
      get_or-shift_right n (i - 1) (set xs i v) j (omega arith) (omega (arith, len)),
      get_or-set xs i j v null l,
      get_or-set xs i (j - 1) v null l,
    )

pub length-shift_left : (n i : ℕ) (xs : List CdoValue) → length (shift_left n i xs) ≡ length xs
unfolding shift_left
length-shift_left zero i xs = refl
length-shift_left (suc n) i xs =
    let v = get_or xs (i + 1) null in
    omega (arith, length-shift_left n (i + 1) (set xs i v), length-set xs i v)

-- The cells from `i` on, `n` of them, hold what stood one above.
pub get_or-shift_left :
    (n i : ℕ) (xs : List CdoValue) (j : ℕ)
    → i + n ≤ length xs
    → get_or (shift_left n i xs) j null
      ≡ (if leb i j && ltb j (i + n) then get_or xs (j + 1) null else get_or xs j null)
unfolding shift_left
get_or-shift_left zero i xs j h = ground arith
get_or-shift_left (suc n) i xs j h =
    let v = get_or xs (i + 1) null in
    let len = length-set xs i v in
    ground (
      arith,
      get_or-shift_left n (i + 1) (set xs i v) j (omega (arith, len)),
      get_or-set xs i j v null (omega arith),
      get_or-set xs i (j + 1) v null (omega arith),
    )
