-- ===== src/Store/Browse/Recycle/Suffix.antt =====
-- The time that `move_to_recycle` may put behind a name, and its removal.
use text.Mathlib.TextLemmas.{nil-append, cons-append}
use Prim.Native.String.{◌++◌ as ◌<>◌}
use Prim.Native.Char.{Char}
use nexuspouch.Base.{String, ℕ, true, none, some, all_chars, Lacks, ◌≡◌, refl, ◌∙◌, ap, arith}
use nexuspouch.Store.Browse.Recycle.{split_last, is_time, is_digit, strip_recycle_suffix}

split_last_of_Lacks : (n : ℕ) (s : String) → Lacks n s → split_last n s ≡ none
unfolding split_last
split_last_of_Lacks n String.[] h = refl
split_last_of_Lacks n (String.◌∷◌ c s) (hc, h) = ground (arith, split_last_of_Lacks n s h)

digits-Lacks : (s : String) → all_chars is_digit s ≡ true → Lacks b'~' s
digits-Lacks String.[] h = tt
digits-Lacks (String.◌∷◌ c s) h = ground (arith, digits-Lacks s)

tilde : (t : String) → ("~" <> t) ≡ String.◌∷◌ "~" t
tilde t = cons-append "~" String.[] t ∙ ap (String.◌∷◌ "~") (nil-append t)

split_last-tilde :
    (t : String) → Lacks b'~' t → split_last b'~' (String.◌∷◌ "~" t) ≡ some (String.[], t)
unfolding split_last
split_last-tilde t h = rw (split_last_of_Lacks b'~' t h) refl

split_last-cons :
    (c : Char) (s a b : String)
    → split_last b'~' s ≡ some (a, b)
    → split_last b'~' (String.◌∷◌ c s) ≡ some (String.◌∷◌ c a, b)
unfolding split_last
split_last-cons c s a b h = rw (split_last, h, h) refl

split_last-append :
    (s t : String) → Lacks b'~' t → split_last b'~' (s <> String.◌∷◌ "~" t) ≡ some (s, t)
split_last-append String.[] t h = rw nil-append (split_last-tilde t h)
split_last-append (String.◌∷◌ c s) t h =
    rw cons-append (split_last-cons c _ s t (split_last-append s t h))

time-Lacks : (t : String) → is_time t ≡ true → Lacks b'~' t
time-Lacks t h = digits-Lacks t (ground arith)

-- Behind a name that another deletion has taken, the time is put and is taken off again.
pub strip_recycle_suffix-append :
    (name t : String) → is_time t ≡ true → strip_recycle_suffix (name <> ("~" <> t)) ≡ name
unfolding strip_recycle_suffix
strip_recycle_suffix-append name t h =
    rw (tilde t, split_last-append name t (time-Lacks t h), h) refl

-- A name without a tilde is left as it is.
pub strip_recycle_suffix_of_Lacks :
    (name : String) → Lacks b'~' name → strip_recycle_suffix name ≡ name
unfolding strip_recycle_suffix
strip_recycle_suffix_of_Lacks name h = rw (split_last_of_Lacks b'~' name h) refl
