-- ===== src/Base/Text.antt =====
-- Strings as sequences of code points. Go compares strings byte by byte, which for UTF-8 is the
-- order of the code points.
use Prim.Native.Char.{code}
use text.Mathlib.TextEquality.{Char-path}
use transmogr.Base.{ℕ, String, ◌≡◌, refl, List, [], ◌∷◌, arith, All}
use transmogr.Base.Order.{
  Ordering, Lawful, Lawful-on, Lawful-weaken, Any, cmp_ℕ, cmp_ℕ-Lawful, cmp_ℕ-eq, cmp_lists,
  cmp_lists-Lawful,
}

abbrev pub codes : String → List ℕ
codes String.[] = []
codes (String.◌∷◌ c s) = code c ∷ codes s

pub codes-injective : (s t : String) → codes s ≡ codes t → s ≡ t
codes-injective String.[] String.[] e = refl
codes-injective String.[] (String.◌∷◌ d t) e = cc
codes-injective (String.◌∷◌ c s) String.[] e = cc
codes-injective (String.◌∷◌ c s) (String.◌∷◌ d t) e =
    let same_char : c ≡ d = Char-path c d (cc) in
    let same_rest : s ≡ t = codes-injective s t (cc) in λ i. String.◌∷◌ (same_char i) (same_rest i)

-- bytes.Compare
unfoldable pub compare_bytes : List ℕ → List ℕ → Ordering
unfolding cmp_lists
compare_bytes = cmp_lists cmp_ℕ

All-Any {ℓ} : {A : Type ℓ} (xs : List A) → All Any xs
All-Any [] = tt
All-Any (x ∷ xs) = (tt, All-Any xs)

pub compare_bytes-Lawful : Lawful Any compare_bytes
unfolding compare_bytes
compare_bytes-Lawful =
    Lawful-weaken (All Any) Any (cmp_lists cmp_ℕ) (λ xs _. All-Any xs)
      (cmp_lists-Lawful Any cmp_ℕ cmp_ℕ-Lawful)

pub compare_bytes-eq : (xs ys : List ℕ) → compare_bytes xs ys ≡ Ordering.eq → xs ≡ ys
unfolding compare_bytes
compare_bytes-eq [] [] h = refl
compare_bytes-eq [] (y ∷ ys) h = cc
compare_bytes-eq (x ∷ xs) [] h = cc
compare_bytes-eq (x ∷ xs) (y ∷ ys) h = ground (arith, cmp_ℕ-eq x y, compare_bytes-eq xs ys)

-- Go's `<` on strings, as a comparison
unfoldable pub cmp_str : String → String → Ordering
unfolding compare_bytes
cmp_str s t = compare_bytes (codes s) (codes t)

pub cmp_str-Lawful : Lawful Any cmp_str
unfolding cmp_str
cmp_str-Lawful = Lawful-on Any compare_bytes codes compare_bytes-Lawful

pub cmp_str-eq : (s t : String) → cmp_str s t ≡ Ordering.eq → s ≡ t
unfolding cmp_str
cmp_str-eq s t h = codes-injective s t (compare_bytes-eq (codes s) (codes t) h)
