-- ===== src/Metrics/Bytes.antt =====
-- internal/metrics/store.go: numbers and texts as bytes. `v / 256` and `v % 256` are the shift by
-- eight bits and the lowest byte; the byte order is big-endian.
use cmdshape.Base.{
  ℕ, zero, suc, ◌+◌, ◌*◌, ◌/◌, ◌%◌, ◌<◌, [], ◌∷◌, ◌++◌, ◌≡◌, refl, Text, length, length-append,
  arith,
}

abbrev pub IsByte : ℕ → Type 0
IsByte b = b < 256

-- The `k` lowest bytes of a number, the highest first: `binary.BigEndian`'s `PutUint32` and
-- `PutUint64`.
abbrev pub put_be : ℕ → ℕ → Text
put_be zero v = []
put_be (suc k) v = put_be k (v / 256) ++ (v % 256 ∷ [])

-- Its `Uint32` and `Uint64`; `acc` is what the bytes read so far stand for.
abbrev pub get_be : ℕ → Text → ℕ
get_be acc [] = acc
get_be acc (b ∷ s) = get_be (acc * 256 + b) s

abbrev pub byte_range : ℕ → ℕ
byte_range zero = 1
byte_range (suc k) = byte_range k * 256

pub length-put_be : (k v : ℕ) → length (put_be k v) ≡ k
length-put_be zero v = refl
length-put_be (suc k) v =
    omega (arith, length-append (put_be k (v / 256)) (v % 256 ∷ []), length-put_be k (v / 256))

get_be-snoc : (acc b : ℕ) (s : Text) → get_be acc (s ++ b ∷ []) ≡ get_be acc s * 256 + b
get_be-snoc acc b [] = refl
get_be-snoc acc b (c ∷ s) = get_be-snoc (acc * 256 + c) b s

pub get_be-put_be : (k v : ℕ) → v < byte_range k → get_be 0 (put_be k v) ≡ v
get_be-put_be zero v h = omega (arith, h)
get_be-put_be (suc k) v h =
    let shifted = get_be-put_be k (v / 256) (omega (arith, h)) in
    omega (arith, get_be-snoc 0 (v % 256) (put_be k (v / 256)), shifted)
