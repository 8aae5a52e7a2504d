-- ===== src/Images/Bytes.antt =====
-- Reading bytes (`Uint8Array` and `DataView` in packages/security/src/images.ts). A `DataView` that is asked past the end
-- throws a `RangeError`: that is `none`.
use gundam_tcg_hub.Base.{
  ℕ, zero, suc, ◌+◌, ◌-◌, ◌*◌, ◌<◌, ◌≡◌, refl, Bool, true, false, ◌&&◌, ◌==◌, ltb, if◌then◌else◌,
  List, [], ◌∷◌, length, drop, get_elem?, Option, none, some, arith, length-drop, ap, sym, ◌∙◌,
}

abbrev pub Bytes : Type 0
Bytes = List ℕ

-- The first two and the first four bytes, big-endian.
abbrev pub word16 : Bytes → Option ℕ
word16 (a ∷ b ∷ bs) = some (a * 256 + b)
word16 _ = none

abbrev pub word32 : Bytes → Option ℕ
word32 (a ∷ b ∷ c ∷ d ∷ bs) = some (((a * 256 + b) * 256 + c) * 256 + d)
word32 _ = none

-- `view.getUint16(offset)` and `view.getUint32(offset)`
unfoldable pub get_uint16 : Bytes → ℕ → Option ℕ
get_uint16 bytes offset = word16 (drop offset bytes)

unfoldable pub get_uint32 : Bytes → ℕ → Option ℕ
get_uint32 bytes offset = word32 (drop offset bytes)

unfoldable pub starts_with : Bytes → Bytes → Bool
starts_with bytes [] = true
starts_with [] (p ∷ prefix) = false
starts_with (b ∷ bytes) (p ∷ prefix) = (b == p) && starts_with bytes prefix

-- The comparison starts where the suffix fits.
unfoldable pub ends_with : Bytes → Bytes → Bool
unfolding starts_with
ends_with bytes suffix =
    if ltb (length bytes) (length suffix)
    then false
    else starts_with (drop (length bytes - length suffix) bytes) suffix

drop-nil : (n : ℕ) → drop {A = ℕ} n [] ≡ []
drop-nil zero = refl
drop-nil (suc n) = refl

pub drop-drop : (m n : ℕ) (bs : Bytes) → drop (m + n) bs ≡ drop n (drop m bs)
drop-drop zero n bs = let e : 0 + n ≡ n = omega arith in ap (λ k. drop k bs) e
drop-drop (suc m) n [] = drop-nil (suc m + n) ∙ sym (drop-nil n)
drop-drop (suc m) n (b ∷ bs) =
    let e : suc m + n ≡ suc (m + n) = omega arith in ap (λ k. drop k (b ∷ bs)) e ∙ drop-drop m n bs

pub word16-some : (bs : Bytes) → 1 < length bs → (v : ℕ) × (word16 bs ≡ some v)
word16-some [] h = absurd (omega arith)
word16-some (a ∷ []) h = absurd (omega arith)
word16-some (a ∷ b ∷ bs) h = (a * 256 + b, refl)

pub get_uint16-some :
    (bytes : Bytes) (offset : ℕ)
    → offset + 1 < length bytes
    → (v : ℕ) × (get_uint16 bytes offset ≡ some v)
unfolding get_uint16
get_uint16-some bytes offset h =
    word16-some (drop offset bytes) (omega (arith, length-drop offset bytes))

pub word32-some : (bs : Bytes) → 3 < length bs → (v : ℕ) × (word32 bs ≡ some v)
word32-some [] h = absurd (omega arith)
word32-some (a ∷ []) h = absurd (omega arith)
word32-some (a ∷ b ∷ []) h = absurd (omega arith)
word32-some (a ∷ b ∷ c ∷ []) h = absurd (omega arith)
word32-some (a ∷ b ∷ c ∷ d ∷ bs) h = (((a * 256 + b) * 256 + c) * 256 + d, refl)

pub get_uint32-some :
    (bytes : Bytes) (offset : ℕ)
    → offset + 3 < length bytes
    → (v : ℕ) × (get_uint32 bytes offset ≡ some v)
unfolding get_uint32
get_uint32-some bytes offset h =
    word32-some (drop offset bytes) (omega (arith, length-drop offset bytes))

-- `bytes.at(offset)`, for the offsets that the walks use: none of them is negative.
abbrev pub at : Bytes → ℕ → Option ℕ
at bytes offset = get_elem? bytes offset

pub at-drop : (offset : ℕ) (bytes : Bytes) → at bytes offset ≡ at (drop offset bytes) 0
at-drop zero bytes = refl
at-drop (suc n) [] = refl
at-drop (suc n) (b ∷ bs) = at-drop n bs
