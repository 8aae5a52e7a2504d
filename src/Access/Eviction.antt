-- ===== src/Access/Eviction.antt =====
-- What one address may do while the limiter has room, and whom it forgets when it is full
-- (packages/auth/src/identifier-limit.ts).
use gundam_tcg_hub.Base.{
  ℕ, suc, ◌+◌, ◌-◌, min, ◌≤◌, ◌<◌, ◌≡◌, refl, ap, ◌&&◌, leb, ◌==◌, if◌then◌else◌, List, [], ◌∷◌,
  length, All, Option, none, some, arith, Bool-cases, inl, inr, ==_iff, ==_refl, ◌≢◌, ◌∙◌,
}
use gundam_tcg_hub.Base.Table.{find, insert, write, select_rows, find-write, find-insert}
use gundam_tcg_hub.Access.Limiter.{
  Entry, Seen, LimitOptions, sweep, put, make_room, again, take, alone_step, taken, refused,
  counted, opened, find-put, length-put, length-write, length-insert,
}

-- One request: a key and the time.
abbrev pub Request : Type 0
Request = ℕ × ℕ

-- How many of the requests for `k` are let through.
unfoldable pub let_through : LimitOptions → ℕ → List Request → Seen → ℕ
let_through o k [] seen = 0
let_through o k ((key, at) ∷ rs) seen =
    let r = take o at key seen in (if (key == k) && r.0 then 1 else 0) + let_through o k rs r.1

-- The times of the requests for `k`.
unfoldable pub times_of : ℕ → List Request → List ℕ
times_of k [] = []
times_of k ((key, at) ∷ rs) = let rest = times_of k rs in if key == k then at ∷ rest else rest

-- How many requests at these times one key is let through, by its own entry.
unfoldable pub alone : LimitOptions → List ℕ → Option Entry → ℕ
unfolding alone_step
alone o [] e = 0
alone o (at ∷ ats) e = let r = alone_step o at e in (if r.0 then 1 else 0) + alone o ats (some r.1)

make_room-free :
    (o : LimitOptions) (at : ℕ) (seen : Seen)
    → length seen < o.max_entries
    → make_room o.max_entries at seen ≡ seen
unfolding make_room
make_room-free o at seen room = ground arith

-- With room, a request does to the entries what its key alone would have it do.
take-alone :
    (o : LimitOptions) (at key k : ℕ) (seen : Seen)
    → length seen < o.max_entries
    → ((take o at key seen).0 ≡ (alone_step o at (find key seen)).0)
      × (find k (take o at key seen).1
          ≡ (if key == k then some (alone_step o at (find key seen)).1 else find k seen))
      × (length (take o at key seen).1 ≤ suc (length seen))
take-alone o at key k seen room = elim (taken o at key seen) [
  | refused e f t a ↦ rw (t, f, a) (refl, ground (arith, ==_iff key k), omega arith)
  | counted e f t a ↦
      rw (t, f, a)
        (
          refl,
          ground (arith, find-write k key (again e) seen),
          omega (arith, length-write key (again e) seen),
        )
  | opened t a ↦
      rw (t, a, make_room-free o at seen room) (refl, find-put k key _ seen, length-put key _ seen)
]

-- While the map has room for every request, what one key is let through depends on its own requests
-- alone, whatever the other keys ask in between: it is what the key's own entry gives.
pub let_through-eq-alone :
    (o : LimitOptions) (k : ℕ) (rs : List Request) (seen : Seen)
    → length seen + length rs ≤ o.max_entries
    → let_through o k rs seen ≡ alone o (times_of k rs) (find k seen)
unfolding let_through times_of alone
let_through-eq-alone o k [] seen room = refl
let_through-eq-alone o k ((key, at) ∷ rs) seen room =
    let t = take-alone o at key k seen (omega arith) in
    let rest = let_through-eq-alone o k rs (take o at key seen).1 (omega (arith, t.2)) in
    elim (Bool-cases (key == k)) [
      | inl same ↦ ground (arith, t.0, t.1, rest, ==_iff key k)
      | inr other ↦ ground (arith, t.1, rest)
    ]

-- Within one window an address is let through as often as its allowance has left, and no oftener.
alone_window :
    (o : LimitOptions) (e : Entry) (ats : List ℕ)
    → All (λ at. at < e.reset_at) ats
    → e.count ≤ o.max
    → alone o ats (some e) ≡ min (length ats) (o.max - e.count)
unfolding alone
alone_window o e [] a h = omega arith
alone_window o e (at ∷ ats) (now, a) h = elim (Bool-cases (leb o.max e.count)) [
  | inl used ↦ ground (arith, alone_window o e ats a h)
  | inr free ↦ ground (arith, alone_window o (again e) ats a (ground arith))
]

alone_first :
    (o : LimitOptions) (at : ℕ) (ats : List ℕ)
    → alone o (at ∷ ats) none
      ≡ suc (alone o ats (some (record { count = 1; reset_at = at + o.window_ms })))
unfolding alone
alone_first o at ats = omega arith

-- While the map has room for every request, an address that is new to it is let through the first
-- `max` times within the window that its first request opens, and no more, whatever the others
-- ask in between.
pub window_allowance :
    (o : LimitOptions) (k at : ℕ) (ats : List ℕ) (rs : List Request) (seen : Seen)
    → 0 < o.max
    → length seen + length rs ≤ o.max_entries
    → find k seen ≡ none
    → times_of k rs ≡ at ∷ ats
    → All (λ t. t < at + o.window_ms) ats
    → let_through o k rs seen ≡ min (suc (length ats)) o.max
window_allowance o k at ats rs seen pos room new times soon =
    let e : Entry = record { count = 1; reset_at = at + o.window_ms } in
    let first = alone_first o at ats in
    omega (
      arith,
      let_through-eq-alone o k rs seen room,
      ap (λ ts. alone o ts (find k seen)) times,
      ap (alone o (at ∷ ats)) new,
      first,
      alone_window o e ats soon (omega arith),
    )

still_live : (at : ℕ) (t : Seen) → All (λ (r : ℕ × Entry). at < r.1.reset_at) t → sweep at t ≡ t
unfolding sweep select_rows
still_live at [] a = refl
still_live at ((k, e) ∷ t) (l, a) = ground (arith, still_live at t a)

-- A request that opens a window while there is room.
take_fresh :
    (o : LimitOptions) (at k : ℕ) (seen : Seen)
    → find k seen ≡ none
    → length seen < o.max_entries
    → (take o at k seen).1 ≡ insert k (record { count = 1; reset_at = at + o.window_ms }) seen
unfolding take put
take_fresh o at k seen n room = ground (arith, make_room-free o at seen room)

-- A request that opens a window anew keeps the first place.
take_renewed :
    (o : LimitOptions) (at k : ℕ) (e : Entry) (rest : Seen)
    → e.reset_at ≤ at
    → suc (length rest) < o.max_entries
    → (take o at k ((k, e) ∷ rest)).1
      ≡ (k, record { count = 1; reset_at = at + o.window_ms }) ∷ rest
unfolding take put find write
take_renewed o at k e rest old room =
    ground (arith, make_room-free o at ((k, e) ∷ rest) room, ==_refl k)

-- In a full map without expired entries the first one goes.
take_full :
    (o : LimitOptions) (at j k : ℕ) (e : Entry) (rest : Seen)
    → find j ((k, e) ∷ rest) ≡ none
    → length ((k, e) ∷ rest) ≡ o.max_entries
    → All (λ (r : ℕ × Entry). at < r.1.reset_at) ((k, e) ∷ rest)
    → (take o at j ((k, e) ∷ rest)).1
      ≡ insert j (record { count = 1; reset_at = at + o.window_ms }) rest
unfolding take put make_room find
take_full o at j k e rest n full live = ground (arith, still_live at ((k, e) ∷ rest) live)

other_head :
    (i k : ℕ) (e x : Entry) (rest : Seen)
    → find i ((k, e) ∷ rest) ≡ none
    → find i ((k, x) ∷ rest) ≡ none
unfolding find
other_head i k e x rest n = ground arith

absent_later :
    (i k : ℕ) (e : Entry) (rest : Seen)
    → find i ((k, e) ∷ rest) ≡ none
    → (find i rest ≡ none) × (k ≢ i)
unfolding find
absent_later i k e rest n =
    (ground (arith, ==_iff k i), λ same. ground (arith, n, ==_iff k i, same))

-- Two new keys behind the entries that are there.
module _ (i j k : ℕ) (e y : Entry) (rest : Seen) (ni : find i ((k, e) ∷ rest) ≡ none)
    (nj : find j ((k, e) ∷ rest) ≡ none) where
  both_new :
      (m : ℕ)
      → i ≢ j
      → find m (insert j y (insert i y rest))
        ≡ (if j == m then some y else if i == m then some y else find m rest)
  both_new m ij =
      let a = absent_later i k e rest ni in
      let b = absent_later j k e rest nj in
      ground (
        arith,
        a.0,
        b.0,
        find-insert m i y rest,
        find-insert j i y rest,
        find-insert m j y (insert i y rest),
        ==_iff i j,
      )

  other_insert : (x : Entry) → i ≢ j → find j ((k, x) ∷ insert i y rest) ≡ none
  unfolding find
  other_insert x ij =
      let a = absent_later i k e rest ni in
      let b = absent_later j k e rest nj in
      ground (arith, a.0, b.0, b.1, find-insert j i y rest, ==_iff i j, ==_iff k j)

insert_head :
    (i : ℕ) (y : Entry) (k : ℕ) (x : Entry) (rest : Seen)
    → insert i y ((k, x) ∷ rest) ≡ (k, x) ∷ insert i y rest
unfolding insert
insert_head i y k x rest = refl

find_head : (k : ℕ) (x : Entry) (rest : Seen) → find k ((k, x) ∷ rest) ≡ some x
unfolding find
find_head k x rest = ground (arith, ==_refl k)

insert-All :
    (P : ℕ × Entry → Type 0) (k : ℕ) (e : Entry) (t : Seen)
    → All P t
    → P (k, e)
    → All P (insert k e t)
unfolding insert
insert-All P k e [] a p = (p, tt)
insert-All P k e (r ∷ t) (q, a) p = (q, insert-All P k e t a p)

-- An entry whose window is open and ends before `until`.
abbrev pub Open : ℕ → ℕ → ℕ × Entry → Type 0
Open later until r = (later < r.1.reset_at) × (r.1.reset_at < until)

Open-live :
    (later until : ℕ) (t : Seen)
    → All (Open later until) t
    → All (λ (r : ℕ × Entry). later < r.1.reset_at) t
Open-live later until [] a = tt
Open-live later until (r ∷ t) ((l, b), a) = (l, Open-live later until t a)

find-Open :
    (later until m : ℕ) (f : Entry) (t : Seen)
    → All (Open later until) t
    → find m t ≡ some f
    → f.reset_at < until
unfolding find
find-Open later until m f [] a e = ground arith
find-Open later until m f ((k, x) ∷ t) ((l, b), a) e = elim (Bool-cases (k == m)) [
  | inl same ↦ ground arith
  | inr other ↦ find-Open later until m f t a (ground arith)
]

-- An address whose expired entry stands first keeps that place when it opens a new window while there
-- is room. When two new addresses have then filled the map, it is forgotten, although its window is
-- open, and every entry behind it stays, although all their windows end before its own.
pub renewed_is_evicted :
    (o : LimitOptions) (k i j at later : ℕ) (e : Entry) (rest : Seen)
    → o.max_entries ≡ length rest + 2
    → e.reset_at ≤ at
    → at ≤ later
    → later < at + o.window_ms
    → All (Open later (at + o.window_ms)) rest
    → find i ((k, e) ∷ rest) ≡ none
    → find j ((k, e) ∷ rest) ≡ none
    → i ≢ j
    → find k rest ≡ none
    → let renewed = (take o at k ((k, e) ∷ rest)).1 in
      let filled = (take o later i renewed).1 in
      let left = (take o later j filled).1 in
      (find k renewed ≡ some (record { count = 1; reset_at = at + o.window_ms }))
      × (find k left ≡ none)
      × ((m : ℕ) (f : Entry)
          → find m rest ≡ some f
          → (find m left ≡ some f) × (f.reset_at < at + o.window_ms))
renewed_is_evicted o k i j at later e rest cap old after soon open_rest ni nj ij nk =
    let x : Entry = record { count = 1; reset_at = at + o.window_ms } in
    let y : Entry = record { count = 1; reset_at = later + o.window_ms } in
    let live = Open-live later (at + o.window_ms) rest open_rest in
    let a = take_renewed o at k e rest old (omega arith) in
    let b = take_fresh o later i ((k, x) ∷ rest) (other_head i k e x rest ni) (omega arith) in
    let c =
      take_full o later j k x (insert i y rest) (other_insert i j k e y rest ni nj x ij)
        (omega (arith, length-insert i y rest)) (soon, insert-All _ i y rest live (omega arith)) in
    let left =
      ap (λ t. (take o later j (take o later i t).1).1) a
      ∙ ap (λ t. (take o later j t).1) (b ∙ insert_head i y k x rest)
      ∙ c in
    let both = both_new i j k e y rest ni nj in
    let new_i = absent_later i k e rest ni in
    let new_j = absent_later j k e rest nj in
    (
      ap (find k) a ∙ find_head k x rest,
      ap (find k) left ∙ ground (arith, both k ij, nk, new_i.1, new_j.1, ==_iff i k, ==_iff j k),
      λ m f h. (
        ap (find m) left ∙ ground (arith, both m ij, h, new_i.0, new_j.0, ==_iff i m, ==_iff j m),
        find-Open later (at + o.window_ms) m f rest open_rest h,
      ),
    )
