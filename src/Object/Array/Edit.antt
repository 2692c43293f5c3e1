-- ===== src/Object/Array/Edit.antt =====
-- cdo_array_push, and the outcome that the writing operations share.
use can_do.Base.{
  ℕ, ◌+◌, ◌^◌, ◌<◌, ◌≡◌, if◌then◌else◌, Bool, not, List, [], ◌∷◌, ◌++◌, arith, length, get_or, set,
  length-append, length-set,
}
use can_do.Base.Cells.{get_or-take, get_or-append, get_or-set, eq_of_cells}
use can_do.Object.Value.{CdoValue, null}
use can_do.Object.Array.{CdoArray, ensure_one, cdo_array_push}
use can_do.Object.Array.Contents.{IsValid, contents, length-contents, ensure_one-Grown}

-- A valid array with the elements `c`, in terms of its cells.
pub holds :
    (a : CdoArray) (c : List CdoValue)
    → IsValid a
    → length c ≡ a.items_len
    → ((i : ℕ) → i < length c → get_or a.items i null ≡ get_or c i null)
    → contents a ≡ c
holds a c v len cells =
    eq_of_cells (contents a) c null (omega (arith, length-contents a v))
      (λ i h. ground (arith, get_or-take a.items_len a.items i null, cells i h))

pub get_or-contents :
    (a : CdoArray) (i : ℕ) → i < a.items_len → get_or (contents a) i null ≡ get_or a.items i null
get_or-contents a i h = ground (arith, get_or-take a.items_len a.items i null)

-- The outcome that the three writing operations share.
pub record Edits (a : CdoArray) (done : Bool) (c : List CdoValue) (arr : CdoArray) : Type 0 where
  pub valid : IsValid arr
  pub flag : arr.readonly ≡ a.readonly
  pub view : contents arr ≡ (if done then c else contents a)

module _ (junk : ℕ → CdoValue) (a : CdoArray) (v : IsValid a) where
  module _ (val : CdoValue) (small : a.items_len < 2 ^ 31) where
    appended : CdoArray
    appended =
        let b = ensure_one junk a in
        record b { items = set b.items b.items_len val; items_len = b.items_len + 1 }

    appended-IsValid : IsValid appended
    unfolding appended
    appended-IsValid =
        let b = ensure_one junk a in
        let g = ensure_one-Grown junk a v small in
        let len = length-set b.items b.items_len val in
        record {
          cells = omega (arith, len, g.valid);
          fits = omega (arith, g.room, g.len);
          word = g.valid.word;
        }

    appended-contents : contents appended ≡ contents a ++ (val ∷ [])
    unfolding appended
    appended-contents =
        let b = ensure_one junk a in
        let g = ensure_one-Grown junk a v small in
        let n = length-contents a v in
        holds appended (contents a ++ (val ∷ [])) appended-IsValid
          (omega (arith, length-append (contents a) (val ∷ []), n, g.len))
          (λ i h.
            let inside : i < a.items_len + 1 =
              omega (arith, length-append (contents a) (val ∷ []), n) in
            ground (
              arith,
              inside,
              n,
              g.len,
              g.room,
              g.valid,
              g.keeps i,
              get_or-set b.items b.items_len i val null,
              get_or-append (contents a) (val ∷ []) i null,
              get_or-contents a i,
            ))

    -- A push appends the value, unless the array is readonly.
    pub push-Edits :
        ((cdo_array_push junk a val).result ≡ not a.readonly)
        × Edits a (not a.readonly) (contents a ++ (val ∷ [])) (cdo_array_push junk a val).arr
    unfolding cdo_array_push appended
    push-Edits =
        let g = ensure_one-Grown junk a v small in
        (
          ground arith,
          record {
            valid = ground (arith, appended-IsValid, v);
            flag = ground (arith, g.flag);
            view = ground (arith, appended-contents);
          },
        )
