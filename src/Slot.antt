-- ===== src/Slot.antt =====
-- `Slot` of profiledata.h: 64-bit words, and the bytes that stand for them in the buffer.
use javaprofiler.Base.{
  ℕ, zero, suc, ◌*◌, ◌/◌, ◌%◌, ◌<◌, ◌≡◌, refl, sym, ap, ◌∙◌, word_mod, List, [], ◌∷◌, ◌++◌, length,
  length-append, append_assoc, arith,
}

-- The `n` low bytes of a word, the lowest first.
unfoldable pub le_bytes : ℕ → ℕ → List ℕ
le_bytes zero s = []
le_bytes (suc n) s = s % 256 ∷ le_bytes n (s / 256)

-- `reinterpret_cast<char*>` of an array of slots, on a little-endian machine.
unfoldable pub encode : List ℕ → List ℕ
unfolding le_bytes
encode [] = []
encode (s ∷ ss) = le_bytes 8 s ++ encode ss

-- The value is one that a slot can hold.
abbrev pub IsSlot : ℕ → Type 0
IsSlot s = s < word_mod

pub encode-append : (xs ys : List ℕ) → encode (xs ++ ys) ≡ encode xs ++ encode ys
unfolding encode
encode-append [] ys = refl
encode-append (x ∷ xs) ys =
    ap (◌++◌ (le_bytes 8 x)) (encode-append xs ys)
    ∙ sym (append_assoc (le_bytes 8 x) (encode xs) (encode ys))

le_bytes-length : (n s : ℕ) → length (le_bytes n s) ≡ n
unfolding le_bytes
le_bytes-length zero s = refl
le_bytes-length (suc n) s = ap suc (le_bytes-length n (s / 256))

-- Each slot takes eight bytes: `sizeof(evict_[0]) * num_evicted_`.
pub length-encode : (xs : List ℕ) → length (encode xs) ≡ 8 * length xs
unfolding encode
length-encode [] = refl
length-encode (x ∷ xs) =
    omega (arith, length-append (le_bytes 8 x) (encode xs), le_bytes-length 8 x, length-encode xs)
