-- ===== src/Core/Handle/Laws.antt =====
-- The handle operations keep a table well formed, and a handle keeps naming what it was given.
use can_do.Base.{
  ℕ, ◌+◌, ◌-◌, ◌*◌, ◌%◌, ◌^◌, ◌≤◌, ◌<◌, ◌≡◌, ◌≢◌, refl, sym, ap, ◌∙◌, ltb, ◌==◌, if◌then◌else◌,
  true, false, List, [], ◌∷◌, ◌++◌, Option, none, some, arith, dec_lt, ℕ_discrete, length, set,
  length-set, length-append,
}
use mathlib.Core.Path.{subst}
use can_do.Base.Cells.{get_or-set, get_or-append}
use can_do.Core.Handle.{
  invalid_handle, CandoHandleSlot, CandoHandleTable, no_handle_slot, handle_at, slot_next_free,
  chain_slots, cando_handle_table_init, handle_table_grow, table_init_cap, cando_handle_alloc,
  cando_handle_get, cando_handle_free, is_live,
}
use can_do.Core.Handle.FreeList.{
  In, IsChain, IsTable, count_live-set, count_live-append, IsChain-set, In-free, range,
  length-range, length-chain_slots, count_live-chain_slots, new_slot, handle_at-chain_slots,
  IsChain-range,
}

-- A new table of fewer than 2^32 slots is well formed and holds no handle.
pub init-IsTable :
    (initial_cap : ℕ) → initial_cap < 2 ^ 32 → IsTable (cando_handle_table_init initial_cap)
unfolding cando_handle_table_init
init-IsTable initial_cap word =
    let n = if initial_cap == 0 then table_init_cap else initial_cap in
    let pos : 0 < n = ground arith in
    let small : n < 2 ^ 32 = ground (arith, word) in
    let len = length-chain_slots 0 n invalid_handle in
    record {
      free = range 0 n;
      chain =
          IsChain-range (chain_slots 0 n invalid_handle) 0 n pos (omega (arith, len))
            (omega (arith, small))
            (λ k l.
              ap (handle_at (chain_slots 0 n invalid_handle)) (omega arith)
              ∙ handle_at-chain_slots 0 n invalid_handle k l);
      len = len;
      some_slots = pos;
      word = small;
      counted = omega (arith, count_live-chain_slots 0 n invalid_handle);
      all_free = omega (arith, length-range 0 n);
    }

-- A table on which the free list has run out has no free slot.
empty_free :
    (slots : List CandoHandleSlot) (L : List ℕ)
    → length slots < 2 ^ 32
    → IsChain slots invalid_handle L
    → L ≡ []
unfolding IsChain
empty_free slots [] small c = refl
empty_free slots (i ∷ r) small (e, il, dead, once, rest) = absurd (omega (arith, e, il, small))

-- A table's slots, doubled, with `last` behind the new ones.
abbrev doubled : CandoHandleTable → ℕ → List CandoHandleSlot
doubled t last = t.slots ++ chain_slots t.capacity (t.capacity * 2 % 2 ^ 32 - t.capacity) last

abbrev with_doubled : CandoHandleTable → ℕ → CandoHandleTable
with_doubled t last = record t {
  slots = doubled t last;
  free_head = t.capacity;
  capacity = t.capacity * 2 % 2 ^ 32;
}

module _ (t : CandoHandleTable) (w : IsTable t) (room : t.capacity ≤ 2 ^ 30) where
  fresh : ℕ
  fresh = t.capacity * 2 % 2 ^ 32 - t.capacity

  old_slot : (last j : ℕ) → j < t.capacity → handle_at (doubled t last) j ≡ handle_at t.slots j
  old_slot last j l =
      let g =
        get_or-append t.slots (chain_slots t.capacity (t.capacity * 2 % 2 ^ 32 - t.capacity) last) j
          no_handle_slot in
      let len = w.len in ground (arith, g, len, l)

  added_slot :
      (last k : ℕ)
      → k < t.capacity
      → handle_at (doubled t last) (t.capacity + k) ≡ new_slot t.capacity t.capacity last k
  added_slot last k l =
      let n = t.capacity * 2 % 2 ^ 32 - t.capacity in
      let count : n ≡ t.capacity = omega (arith, room) in
      let g =
        get_or-append t.slots (chain_slots t.capacity n last) (t.capacity + k) no_handle_slot in
      let past : ltb (t.capacity + k) (length t.slots) ≡ false = ground (arith, w.len) in
      let at : t.capacity + k - length t.slots ≡ k = omega (arith, w.len) in
      g
      ∙ rw past (
          ap (handle_at (chain_slots t.capacity n last)) at
          ∙ handle_at-chain_slots t.capacity n last k (omega (arith, l, count))
          ∙ ap (λ (m : ℕ). new_slot t.capacity m last k) count)

  doubled-length : (last : ℕ) → length (doubled t last) ≡ t.capacity * 2
  doubled-length last =
      let n = t.capacity * 2 % 2 ^ 32 - t.capacity in
      omega (
        arith,
        length-append t.slots (chain_slots t.capacity n last),
        length-chain_slots t.capacity n last,
        w.len,
        room,
      )

  grow-IsTable_spent : t.free_head ≡ invalid_handle → IsTable (with_doubled t invalid_handle)
  grow-IsTable_spent spent =
      let n = t.capacity * 2 % 2 ^ 32 - t.capacity in
      let none_left =
        empty_free t.slots w.free (omega (arith, w.len, w.word))
          (subst (λ (h : ℕ). IsChain t.slots h w.free) spent w.chain) in
      record {
        free = range t.capacity t.capacity;
        chain =
            IsChain-range (doubled t invalid_handle) t.capacity t.capacity w.some_slots
              (omega (arith, doubled-length invalid_handle)) (omega (arith, room))
              (added_slot invalid_handle);
        len = omega (arith, doubled-length invalid_handle, room);
        some_slots = omega (arith, room, w.some_slots);
        word = omega arith;
        counted = omega (
          arith,
          count_live-append t.slots (chain_slots t.capacity n invalid_handle),
          count_live-chain_slots t.capacity n invalid_handle,
          w.counted,
        );
        all_free =
            omega
              (arith, length-range t.capacity t.capacity, w.all_free, ap length none_left, room);
      }

  grow-IsTable : t.free_head ≡ invalid_handle → IsTable (handle_table_grow t)
  unfolding handle_table_grow
  grow-IsTable spent =
      subst (λ (h : ℕ). IsTable (with_doubled t h)) (sym spent) (grow-IsTable_spent spent)

  grow_get : (j : ℕ) → cando_handle_get (handle_table_grow t) j ≡ cando_handle_get t j
  unfolding handle_table_grow cando_handle_get is_live
  grow_get j = elim (dec_lt j t.capacity) [
    | yes l ↦ let same = old_slot t.free_head j l in ground (arith, same, l, room)
    | no ge ↦ elim (dec_lt j (t.capacity * 2)) [
      | yes l ↦
          let k = j - t.capacity in
          let at : t.capacity + k ≡ j = omega (arith, ge) in
          let cell =
            ap (handle_at (doubled t t.free_head)) (sym at)
            ∙ added_slot t.free_head k (omega arith) in
          ground (arith, cell, ge)
      | no far ↦ ground (arith, far, ge, room)
    ]
  ]

-- The first free slot of a table is taken.
abbrev taken : CandoHandleTable → ℕ → CandoHandleTable
taken b ptr = record b {
  free_head = slot_next_free (handle_at b.slots b.free_head);
  slots = set b.slots b.free_head (record { ptr = ptr; live = true; marked = false });
  count = (b.count + 1) % 2 ^ 32;
}

-- A handle of a table is new and names `ptr` in the next, where all others name what they did.
pub record Names (t : CandoHandleTable) (ptr idx : ℕ) (o : CandoHandleTable) : Type 0 where
  pub valid : IsTable o
  pub legal : idx < invalid_handle
  pub unused : cando_handle_get t idx ≡ none
  pub reads : (j : ℕ) → cando_handle_get o j ≡ (if j == idx then some ptr else cando_handle_get t j)

module _ (b : CandoHandleTable) (w : IsTable b) (ptr : ℕ) where
  get_taken :
      (i : ℕ)
      → i < length b.slots
      → b.free_head ≡ i
      → (j : ℕ)
      → cando_handle_get (taken b ptr) j ≡ (if j == i then some ptr else cando_handle_get b j)
  unfolding cando_handle_get is_live
  get_taken i il e j =
      let s : CandoHandleSlot = record { ptr = ptr; live = true; marked = false } in
      subst
        (λ (h : ℕ).
          cando_handle_get
            (record b {
              slots = set b.slots h s;
              free_head = slot_next_free (handle_at b.slots h);
              count = (b.count + 1) % 2 ^ 32;
            })
            j
          ≡ (if j == i then some ptr else cando_handle_get b j))
        (sym e)
        (let g = get_or-set b.slots i j s no_handle_slot il in
          let len = w.len in ground (arith, g, len, il))

  take_Names :
      (L : List ℕ)
      → IsChain b.slots b.free_head L
      → length L + b.count ≡ b.capacity
      → b.free_head ≢ invalid_handle
      → Names b ptr b.free_head (taken b ptr)
  unfolding IsChain cando_handle_get is_live slot_next_free
  take_Names [] c total open_to = absurd (open_to c)
  take_Names (i ∷ r) (e, il, dead, once, rest) total open_to =
      let s : CandoHandleSlot = record { ptr = ptr; live = true; marked = false } in
      let hl : b.free_head < length b.slots = omega (arith, e, il) in
      let dead' : (handle_at b.slots b.free_head).live ≡ false =
        ap (λ (n : ℕ). (handle_at b.slots n).live) e ∙ dead in
      let cl = count_live-set b.slots b.free_head s hl in
      let dead_count : ◌≡◌ {A = ℕ} (if (handle_at b.slots b.free_head).live then 1 else 0) 0 =
        rw dead' in
      record {
        valid = record {
          free = r;
          chain =
              IsChain-set b.slots b.free_head ((handle_at b.slots b.free_head).ptr % 2 ^ 32) s r hl
                (λ m. once (subst (λ (n : ℕ). In n r) e m))
                (subst (λ (n : ℕ). IsChain b.slots ((handle_at b.slots n).ptr % 2 ^ 32) r) (sym e)
                  rest);
          len = length-set b.slots b.free_head s ∙ w.len;
          some_slots = w.some_slots;
          word = w.word;
          counted = omega (arith, cl, dead_count, w.counted, total, w.word);
          all_free = omega (arith, total, w.word);
        };
        legal = omega (arith, hl, w.len, w.word);
        unused = ground (arith, dead');
        reads = get_taken b.free_head hl refl;
      }

grown_open :
    (t : CandoHandleTable) → t.capacity ≤ 2 ^ 30 → (handle_table_grow t).free_head ≢ invalid_handle
unfolding handle_table_grow
grown_open t room e = absurd (omega (arith, e, room))

-- Allocation in a well-formed table of at most 2^30 slots keeps it well formed and gives a handle that
-- was not in use and now names the pointer; every other handle names what it did.
pub alloc-Names :
    (t : CandoHandleTable)
    → IsTable t
    → t.capacity ≤ 2 ^ 30
    → (ptr : ℕ) → Names t ptr (cando_handle_alloc t ptr).1 (cando_handle_alloc t ptr).0
unfolding cando_handle_alloc
alloc-Names t w room ptr = elim (ℕ_discrete t.free_head invalid_handle) [
  | yes e ↦
      let spent : (t.free_head == invalid_handle) ≡ true = ground (arith, e) in
      let v = grow-IsTable t w room e in
      let n =
        take_Names (handle_table_grow t) v ptr v.free v.chain v.all_free (grown_open t room) in
      rw spent (record {
        valid = n.valid;
        legal = n.legal;
        unused = sym (grow_get t w room (handle_table_grow t).free_head) ∙ n.unused;
        reads = λ j.
            n.reads j
            ∙ ap (λ (x : Option ℕ). if j == (handle_table_grow t).free_head then some ptr else x)
                (grow_get t w room j);
      })
  | no ne ↦
      let open_to : (t.free_head == invalid_handle) ≡ false = ground (arith, ne) in
      rw open_to (take_Names t w ptr w.free w.chain w.all_free ne)
]

head_word :
    (slots : List CandoHandleSlot) (head : ℕ) (L : List ℕ)
    → length slots < 2 ^ 32
    → IsChain slots head L
    → head % 2 ^ 32 ≡ head
unfolding IsChain
head_word slots head [] small c = omega (arith, c)
head_word slots head (i ∷ r) small (e, il, dead, once, rest) = omega (arith, e, il, small)

-- A live handle goes back to the free list, and all others name what they did.
pub record Frees (t : CandoHandleTable) (idx : ℕ) (o : CandoHandleTable) : Type 0 where
  pub valid : IsTable o
  pub reads : (j : ℕ) → cando_handle_get o j ≡ (if j == idx then none else cando_handle_get t j)

module _ (t : CandoHandleTable) (w : IsTable t) (idx : ℕ) (live : is_live t idx ≡ true) where
  live_in : (idx < t.capacity) × ((handle_at t.slots idx).live ≡ true)
  unfolding is_live
  live_in = ground (arith, live)

  abbrev dead_slot : CandoHandleSlot
  dead_slot = record { ptr = t.free_head; live = false; marked = false }

  IsChain-cons :
      idx < length t.slots
      → handle_at (set t.slots idx dead_slot) idx ≡ dead_slot
      → ¬ In idx w.free
      → (handle_at (set t.slots idx dead_slot) idx).ptr % 2 ^ 32 ≡ t.free_head
      → IsChain (set t.slots idx dead_slot) idx (idx ∷ w.free)
  unfolding IsChain
  IsChain-cons ll here out next = (
    refl,
    omega (arith, ll, length-set t.slots idx dead_slot),
    ap (λ (x : CandoHandleSlot). x.live) here,
    out,
    subst (λ (h : ℕ). IsChain (set t.slots idx dead_slot) h w.free) (sym next)
        (IsChain-set t.slots idx t.free_head dead_slot w.free ll out w.chain),
  )

  get_freed :
      idx < length t.slots
      → (j : ℕ)
      → cando_handle_get
          (record t {
            slots = set t.slots idx dead_slot;
            free_head = idx;
            count = (t.count + 2 ^ 32 - 1) % 2 ^ 32;
          })
          j
        ≡ (if j == idx then none else cando_handle_get t j)
  unfolding cando_handle_get is_live
  get_freed ll j =
      let g = get_or-set t.slots idx j dead_slot no_handle_slot ll in
      let len = w.len in ground (arith, g, len, ll)

  -- Freeing a live handle of a well-formed table succeeds and keeps it well formed; the handle is then
  -- no longer in use.
  pub free-Frees : (o : CandoHandleTable) × (cando_handle_free t idx ≡ some o) × Frees t idx o
  unfolding cando_handle_free
  free-Frees =
      let (il, alive) = live_in in
      let s : CandoHandleSlot = record { ptr = t.free_head; live = false; marked = false } in
      let o : CandoHandleTable = record t {
        slots = set t.slots idx s;
        free_head = idx;
        count = (t.count + 2 ^ 32 - 1) % 2 ^ 32;
      } in
      let ll : idx < length t.slots = omega (arith, il, w.len) in
      let here : handle_at (set t.slots idx s) idx ≡ s =
        let g = get_or-set t.slots idx idx s no_handle_slot ll in ground (arith, g) in
      let out : ¬ In idx w.free = λ m.
        let dead = (In-free t.slots t.free_head w.free w.chain idx m).1 in
        ground (arith, alive, dead) in
      let next : (handle_at (set t.slots idx s) idx).ptr % 2 ^ 32 ≡ t.free_head =
        ap (λ (x : CandoHandleSlot). x.ptr % 2 ^ 32) here
        ∙ head_word t.slots t.free_head w.free (omega (arith, w.len, w.word)) w.chain in
      let cl = count_live-set t.slots idx s ll in
      let one : ◌≡◌ {A = ℕ} (if (handle_at t.slots idx).live then 1 else 0) 1 = rw alive in
      (
        o,
        rw live,
        record {
          valid = record {
            free = idx ∷ w.free;
            chain = IsChain-cons ll here out next;
            len = length-set t.slots idx s ∙ w.len;
            some_slots = w.some_slots;
            word = w.word;
            counted = omega (arith, cl, one, w.counted, w.all_free, w.word);
            all_free = omega (arith, cl, one, w.counted, w.all_free, w.word);
          };
          reads = get_freed ll;
        },
      )
