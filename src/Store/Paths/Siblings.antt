-- ===== src/Store/Paths/Siblings.antt =====
-- Paths that part at one name.
use nexuspouch.Base.{String, [], ◌∷◌, ◌++◌, ◌≡◌, ◌≢◌, inl, inr, refl, ap, ◌∙◌}
use nexuspouch.Files.{FilePath}
use nexuspouch.Files.Laws.{Apart, IsOff}
use nexuspouch.Store.Paths.{parent}

pub Apart-under : (b p q : FilePath) → Apart p q → Apart (b ++ p) (b ++ q)
Apart-under [] p q a = a
Apart-under (x ∷ b) p q a = inr (Apart-under b p q a)

pub IsOff-under : (b p q : FilePath) → IsOff p q → IsOff (b ++ p) (b ++ q)
IsOff-under [] p q a = a
IsOff-under (x ∷ b) p q a = inr (IsOff-under b p q a)

pub parent-append :
    (b : FilePath) (x : String) (r : FilePath) → parent (b ++ x ∷ r) ≡ b ++ parent (x ∷ r)
parent-append [] x r = refl
parent-append (y ∷ []) x r = refl
parent-append (y ∷ (z ∷ b)) x r = ap (λ p. y ∷ p) (parent-append (z ∷ b) x r)

sibling_IsOff-parent : (y x : String) (p r : FilePath) → y ≢ x → IsOff (y ∷ p) (parent (x ∷ r))
sibling_IsOff-parent y x p [] h = tt
sibling_IsOff-parent y x p (z ∷ r) h = inl h

module _ (base : FilePath) (y x : String) (p r : FilePath) (other : y ≢ x) where
  pub sibling-Apart : Apart (base ++ y ∷ p) (base ++ x ∷ r)
  sibling-Apart = Apart-under base (y ∷ p) (x ∷ r) (inl other)

  pub sibling-IsOff : IsOff (base ++ y ∷ p) (parent (base ++ x ∷ r))
  sibling-IsOff =
      rw (parent-append base x r)
        (IsOff-under base (y ∷ p) (parent (x ∷ r)) (sibling_IsOff-parent y x p r other))

IsOff-parent : (x : String) (r : FilePath) → IsOff (x ∷ r) (parent (x ∷ r))
IsOff-parent x [] = tt
IsOff-parent x (y ∷ r) = inr (IsOff-parent y r)

pub dest_IsOff :
    (base : FilePath) (x : String) (r : FilePath) → IsOff (base ++ x ∷ r) (parent (base ++ x ∷ r))
dest_IsOff base x r =
    rw (parent-append base x r) (IsOff-under base (x ∷ r) (parent (x ∷ r)) (IsOff-parent x r))

-- A path of the recycle bin and one of a device's space, given by their names.
module _ (root : FilePath) (device space : String) (segs r abs full : FilePath)
    (ne : ".recycle" ≢ device) (abs_shape : abs ≡ root ++ ".recycle" ∷ r)
    (full_shape : full ≡ root ++ device ∷ (space ∷ segs)) where
  parent_shape : parent full ≡ root ++ device ∷ parent (space ∷ segs)
  parent_shape = ap parent full_shape ∙ parent-append root device (space ∷ segs)

  pub bin-Apart : Apart abs full
  bin-Apart = rw (abs_shape, full_shape) (sibling-Apart root ".recycle" device r (space ∷ segs) ne)

  pub bin-Apart_above : Apart abs (parent full)
  bin-Apart_above =
      rw (abs_shape, parent_shape)
        (sibling-Apart root ".recycle" device r (parent (space ∷ segs)) ne)

  pub bin-IsOff : IsOff abs (parent full)
  bin-IsOff = rw (abs_shape, full_shape) (sibling-IsOff root ".recycle" device r (space ∷ segs) ne)

  pub full-IsOff : IsOff full (parent full)
  full-IsOff = rw full_shape (dest_IsOff root device (space ∷ segs))
