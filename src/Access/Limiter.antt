-- ===== src/Access/Limiter.antt =====
-- How often one address may be asked for a sign-in link (packages/auth/src/identifier-limit.ts). A key is what
-- `keyFor` makes of the address, a SHA-256 digest, and stands here as a number. A JavaScript `Map` is a table in the
-- order of insertion: `set` on a key that is there keeps its place.
use gundam_tcg_hub.Base.{
  ℕ, suc, ◌+◌, ◌≤◌, ◌<◌, ◌≡◌, refl, Bool, true, false, ltb, leb, ◌==◌, if◌then◌else◌, [], ◌∷◌,
  length, drop, Option, none, some, is_some, arith, Option-cases, Bool-cases, inl, inr, ==_iff,
  length-drop,
}
use gundam_tcg_hub.Base.Table.{Table, find, insert, write, select_rows, find-write, find-insert}

pub record Entry : Type 0 where
  pub count : ℕ
  pub reset_at : ℕ

abbrev pub Seen : Type 0
Seen = Table Entry

pub record LimitOptions : Type 0 where
  pub max : ℕ
  pub window_ms : ℕ
  pub max_entries : ℕ

abbrev pub default_options : LimitOptions
default_options = record { max = 5; window_ms = 60000; max_entries = 10000 }

abbrev pub is_live : ℕ → Entry → Bool
is_live at e = ltb at e.reset_at

-- The expired entries go.
unfoldable pub sweep : ℕ → Seen → Seen
sweep at seen = select_rows (λ (k : ℕ) (e : Entry). is_live at e) seen

-- `Map.set`
unfoldable pub put : ℕ → Entry → Seen → Seen
put key e seen = if is_some (find key seen) then write key e seen else insert key e seen

-- What happens before a key is added: a full map is swept, and if that frees nothing the first key goes.
unfoldable pub make_room : ℕ → ℕ → Seen → Seen
unfolding sweep
make_room max_entries at seen =
    if leb max_entries (length seen)
    then (if leb max_entries (length (sweep at seen))
        then drop 1 (sweep at seen)
        else sweep at seen)
    else seen

abbrev pub open_window : LimitOptions → ℕ → ℕ → Seen → Seen
open_window o at key seen =
    put key (record { count = 1; reset_at = at + o.window_ms }) (make_room o.max_entries at seen)

abbrev pub again : Entry → Entry
again e = record e { count = e.count + 1 }

-- The answer, and the map after it.
unfoldable pub take : LimitOptions → ℕ → ℕ → Seen → Bool × Seen
unfolding put make_room
take o at key seen = elim (find key seen) [
  | none ↦ (true, open_window o at key seen)
  | some e ↦
      if is_live at e
      then (if leb o.max e.count then (false, seen) else (true, write key (again e) seen))
      else (true, open_window o at key seen)
]

pub length-write : (k : ℕ) (e : Entry) (t : Seen) → length (write k e t) ≡ length t
unfolding write
length-write k e [] = refl
length-write k e ((j, f) ∷ t) = ground (arith, length-write k e t)

pub length-insert : (k : ℕ) (e : Entry) (t : Seen) → length (insert k e t) ≡ suc (length t)
unfolding insert
length-insert k e [] = refl
length-insert k e ((j, f) ∷ t) = ground (arith, length-insert k e t)

length-select_rows : (p : ℕ → Entry → Bool) (t : Seen) → length (select_rows p t) ≤ length t
unfolding select_rows
length-select_rows p [] = omega arith
length-select_rows p ((j, f) ∷ t) = ground (arith, length-select_rows p t)

pub length-put : (k : ℕ) (e : Entry) (t : Seen) → length (put k e t) ≤ suc (length t)
unfolding put
length-put k e t = ground (arith, length-write k e t, length-insert k e t)

length-make_room :
    (max_entries at : ℕ) (seen : Seen)
    → 0 < max_entries
    → length seen ≤ max_entries
    → length (make_room max_entries at seen) < max_entries
unfolding make_room sweep
length-make_room max_entries at seen pos full = ground (
  arith,
  length-select_rows (λ (k : ℕ) (e : Entry). is_live at e) seen,
  length-drop 1 (select_rows (λ (k : ℕ) (e : Entry). is_live at e) seen),
)

-- What the limiter would do with the entry of one key alone.
unfoldable pub alone_step : LimitOptions → ℕ → Option Entry → Bool × Entry
alone_step o at none = (true, record { count = 1; reset_at = at + o.window_ms })
alone_step o at (some e) =
    if is_live at e
    then (if leb o.max e.count then (false, e) else (true, again e))
    else (true, record { count = 1; reset_at = at + o.window_ms })

-- A request leaves the map alone, writes to a key that is there, or opens a window.
pub data Taken (o : LimitOptions) (at key : ℕ) (seen : Seen) : Type 0 where
  refused :
      (e : Entry)
      → find key seen ≡ some e
      → take o at key seen ≡ (false, seen)
      → alone_step o at (some e) ≡ (false, e)
      → Taken o at key seen
  counted :
      (e : Entry)
      → find key seen ≡ some e
      → take o at key seen ≡ (true, write key (again e) seen)
      → alone_step o at (some e) ≡ (true, again e)
      → Taken o at key seen
  opened :
      take o at key seen ≡ (true, open_window o at key seen)
      → alone_step o at (find key seen) ≡ (true, record { count = 1; reset_at = at + o.window_ms })
      → Taken o at key seen

taken_entry :
    (o : LimitOptions) (at key : ℕ) (seen : Seen) (e : Entry)
    → find key seen ≡ some e
    → Taken o at key seen
unfolding take alone_step
taken_entry o at key seen e f = elim (Bool-cases (is_live at e)) [
  | inr old ↦ opened (ground arith) (ground arith)
  | inl live ↦ elim (Bool-cases (leb o.max e.count)) [
    | inl used ↦ refused e f (ground arith) (ground arith)
    | inr free ↦ counted e f (ground arith) (ground arith)
  ]
]

pub taken : (o : LimitOptions) (at key : ℕ) (seen : Seen) → Taken o at key seen
unfolding take alone_step
taken o at key seen = elim (Option-cases (find key seen)) [
  | inl f ↦ opened (ground arith) (ground arith)
  | inr (e, f) ↦ taken_entry o at key seen e f
]

-- Whoever asks, the map never holds more than its cap, which is at least one.
pub take-le-max_entries :
    (o : LimitOptions) (at key : ℕ) (seen : Seen)
    → 0 < o.max_entries
    → length seen ≤ o.max_entries
    → length (take o at key seen).1 ≤ o.max_entries
take-le-max_entries o at key seen pos full = elim (taken o at key seen) [
  | refused e f t a ↦ rw t full
  | counted e f t a ↦ rw t (omega (arith, length-write key (again e) seen))
  | opened t a ↦ rw t (
      omega (
        arith,
        length-make_room o.max_entries at seen pos full,
        length-put key (record { count = 1; reset_at = at + o.window_ms })
            (make_room o.max_entries at seen),
      ))
]

pub find-put :
    (j k : ℕ) (e : Entry) (t : Seen) → find j (put k e t) ≡ (if k == j then some e else find j t)
unfolding put
find-put j k e t = ground (arith, find-write j k e t, find-insert j k e t, ==_iff k j)
