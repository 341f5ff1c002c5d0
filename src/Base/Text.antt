-- ===== src/Base/Text.antt =====
-- Texts read character by character, as `str` is by the source.
use Prim.Native.Nat.{ℕ, compare, Ordering}
use Prim.Native.Char.{Char, code}
use Prim.Native.String.{String, [], ◌∷◌, ◌++◌}
use mathlib.Core.Bool.{Bool, true, false, ◌&&◌, ◌||◌}
use mathlib.Core.List.{List}
use mathlib.Core.Logic.{◌≢◌, inl, inr}
use nexuspouch.Base.Tests.{Bool-cases}
use mathlib.Core.Path.{◌≡◌, refl, ◌∙◌, ap}
use native.Mathlib.Omega.{arith}
use text.Mathlib.TextLemmas.{nil-append, cons-append}

-- `s.is_empty()`
abbrev pub is_empty : String → Bool
is_empty [] = true
is_empty (_ ∷ _) = false

abbrev pub is_code : ℕ → Char → Bool
is_code n c = elim (compare (code c) n) [ Ordering.eq ↦ true | _ ↦ false ]

-- `s.chars().all(p)`
abbrev pub all_chars : (ℕ → Bool) → String → Bool
all_chars p [] = true
all_chars p (c ∷ s) = p (code c) && all_chars p s

-- `s.contains(c)`
abbrev pub contains_char : ℕ → String → Bool
contains_char n [] = false
contains_char n (c ∷ s) = is_code n c || contains_char n s

-- `s.starts_with(c)`
abbrev pub starts_with_char : ℕ → String → Bool
starts_with_char n [] = false
starts_with_char n (c ∷ s) = is_code n c

-- `s.starts_with(p)`
unfoldable pub starts_with : String → String → Bool
starts_with [] s = true
starts_with (c ∷ p) [] = false
starts_with (c ∷ p) (d ∷ s) = is_code (code c) d && starts_with p s

-- `s.trim_start_matches(c)`
unfoldable pub trim_start : ℕ → String → String
trim_start n [] = []
trim_start n (c ∷ s) =
    let rest = trim_start n s in elim (is_code n c) [ true ↦ rest | false ↦ c ∷ s ]

-- `s.replace(from, to)` for single characters
unfoldable pub replace_char : ℕ → Char → String → String
replace_char from to [] = []
replace_char from to (c ∷ s) =
    elim (is_code from c) [ true ↦ to | false ↦ c ] ∷ replace_char from to s

abbrev pub extend_first : Char → List String → List String
extend_first c List.[] = List.◌∷◌ (c ∷ []) List.[]
extend_first c (List.◌∷◌ p ps) = List.◌∷◌ (c ∷ p) ps

-- `s.split(c)`: one part more than there are separators
unfoldable pub split_char : ℕ → String → List String
split_char n [] = List.◌∷◌ [] List.[]
split_char n (c ∷ s) =
    let parts = split_char n s in
    elim (is_code n c) [ true ↦ List.◌∷◌ [] parts | false ↦ extend_first c parts ]

-- `parts.join(sep)`
unfoldable pub join : Char → List String → String
join sep List.[] = []
join sep (List.◌∷◌ p List.[]) = p
join sep (List.◌∷◌ p (List.◌∷◌ q ps)) = p ++ (sep ∷ join sep (List.◌∷◌ q ps))

abbrev pub Lacks : ℕ → String → Type 0
Lacks n [] = Unit
Lacks n (c ∷ s) = (code c ≢ n) × Lacks n s

pub split_char-part : (n : ℕ) (p : String) → Lacks n p → split_char n p ≡ List.◌∷◌ p List.[]
unfolding split_char
split_char-part n [] h = refl
split_char-part n (c ∷ p) (hc, h) = ground (arith, split_char-part n p h)

pub split_char-append :
    (sep : Char) (p s : String)
    → Lacks (code sep) p
    → split_char (code sep) (p ++ (sep ∷ s)) ≡ List.◌∷◌ p (split_char (code sep) s)
unfolding split_char
split_char-append sep [] s h = rw nil-append (ground arith)
split_char-append sep (c ∷ p) s (hc, h) =
    rw cons-append (ground (arith, split_char-append sep p s h))

abbrev pub AllLack : ℕ → List String → Type 0
AllLack n List.[] = Unit
AllLack n (List.◌∷◌ p ps) = Lacks n p × AllLack n ps

-- Splitting at the separator takes a join of separator-free parts apart again.
pub split_char-join :
    (sep : Char) (p : String) (ps : List String)
    → Lacks (code sep) p
    → AllLack (code sep) ps
    → split_char (code sep) (join sep (List.◌∷◌ p ps)) ≡ List.◌∷◌ p ps
unfolding join
split_char-join sep p List.[] h _ = split_char-part (code sep) p h
split_char-join sep p (List.◌∷◌ q ps) h (hq, hs) =
    split_char-append sep p (join sep (List.◌∷◌ q ps)) h
    ∙ ap (List.◌∷◌ p) (split_char-join sep q ps hq hs)

extend_first-AllLack :
    (n : ℕ) (c : Char) (ps : List String)
    → code c ≢ n
    → AllLack n ps
    → AllLack n (extend_first c ps)
extend_first-AllLack n c List.[] h _ = ((h, tt), tt)
extend_first-AllLack n c (List.◌∷◌ p ps) h (hp, hs) = ((h, hp), hs)

-- The parts of a split hold no separator.
pub split_char-AllLack : (n : ℕ) (s : String) → AllLack n (split_char n s)
unfolding split_char
split_char-AllLack n [] = (tt, tt)
split_char-AllLack n (c ∷ s) =
    ground (arith, split_char-AllLack n s, extend_first-AllLack n c (split_char n s))

extend_first-AllLack_other :
    (n : ℕ) (c : Char) (ps : List String)
    → code c ≢ n
    → AllLack n ps
    → AllLack n (extend_first c ps)
extend_first-AllLack_other = extend_first-AllLack

-- A text that lacks a character is split into parts that lack it.
pub split_char-AllLack_of_Lacks : (n m : ℕ) (s : String) → Lacks m s → AllLack m (split_char n s)
unfolding split_char
split_char-AllLack_of_Lacks n m [] h = (tt, tt)
split_char-AllLack_of_Lacks n m (c ∷ s) (hc, h) =
    ground
      (arith, split_char-AllLack_of_Lacks n m s h, extend_first-AllLack m c (split_char n s) hc)

pub replace_char-Lacks :
    (from : ℕ) (to : Char) (s : String) → code to ≢ from → Lacks from (replace_char from to s)
unfolding replace_char
replace_char-Lacks from to [] h = tt
replace_char-Lacks from to (c ∷ s) h = ground (arith, replace_char-Lacks from to s h)

pub replace_char-Lacks_other :
    (from n : ℕ) (to : Char) (s : String)
    → code to ≢ n
    → Lacks n s
    → Lacks n (replace_char from to s)
unfolding replace_char
replace_char-Lacks_other from n to [] h _ = tt
replace_char-Lacks_other from n to (c ∷ s) h (hc, hs) =
    ground (arith, replace_char-Lacks_other from n to s h hs)

-- A text that lacks the replaced character is left as it is.
pub replace_char_of_Lacks :
    (from : ℕ) (to : Char) (s : String) → Lacks from s → replace_char from to s ≡ s
unfolding replace_char
replace_char_of_Lacks from to [] h = refl
replace_char_of_Lacks from to (c ∷ s) (hc, h) = ground (arith, replace_char_of_Lacks from to s h)

pub Lacks-of_contains_char : (n : ℕ) (s : String) → contains_char n s ≡ false → Lacks n s
Lacks-of_contains_char n [] h = tt
Lacks-of_contains_char n (c ∷ s) h = ground (arith, Lacks-of_contains_char n s)

pub contains_char_of_Lacks : (n : ℕ) (s : String) → Lacks n s → contains_char n s ≡ false
contains_char_of_Lacks n [] h = refl
contains_char_of_Lacks n (c ∷ s) (hc, h) = ground (arith, contains_char_of_Lacks n s h)

pub Lacks-append : (n : ℕ) (s t : String) → Lacks n s → Lacks n t → Lacks n (s ++ t)
Lacks-append n [] t h k = rw nil-append k
Lacks-append n (c ∷ s) t (hc, h) k = rw cons-append (hc, Lacks-append n s t h k)

pub join-Lacks :
    (sep : Char) (n : ℕ) (ps : List String) → code sep ≢ n → AllLack n ps → Lacks n (join sep ps)
unfolding join
join-Lacks sep n List.[] h _ = tt
join-Lacks sep n (List.◌∷◌ p List.[]) h (hp, _) = hp
join-Lacks sep n (List.◌∷◌ p (List.◌∷◌ q ps)) h (hp, hs) =
    Lacks-append n p (sep ∷ join sep (List.◌∷◌ q ps)) hp (h, join-Lacks sep n (List.◌∷◌ q ps) h hs)

-- A split has a first part.
pub split_char-cons :
    (n : ℕ) (s : String) → (x : String) × (r : List String) × (split_char n s ≡ List.◌∷◌ x r)
unfolding split_char
split_char-cons n [] = ([], List.[], refl)
split_char-cons n (c ∷ s) =
    let (x, r, e) = split_char-cons n s in
    elim (Bool-cases (is_code n c)) [
      | inl h ↦ ([], split_char n s, rw (split_char, h) refl)
      | inr h ↦ (c ∷ x, r, rw (split_char, h, e) refl)
    ]
