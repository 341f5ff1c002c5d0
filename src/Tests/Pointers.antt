-- ===== src/Tests/Pointers.antt =====
-- Master pointers and cursors.
use nexuspouch.Base.{ℤ, pos, i64_max, ◌<ℤ◌, [], ◌∷◌, true, ◌≡◌, ◌⊎◌, inl, inr, refl, arith}
use nexuspouch.Base.Dict.{Dict}
use nexuspouch.Base.Json.{end, field, int, any_to_i64}
use nexuspouch.Result.{ok}
use nexuspouch.Protocol.{is_valid_device_id}
use nexuspouch.Store.Stored.{absent, holds}
use nexuspouch.Store.Cursors.{CursorFile, load_locked, decode}
use nexuspouch.Store.Master.{
  MasterPointer, load_pointer, require_master, apply_pointer, migrate, is_acceptable,
}
use nexuspouch.Store.Master.Laws.{
  newer, load_pointer-apply_pointer, migrate_takes_over, migrate_overflow,
}
use nexuspouch.Store.Master.Convergence.{apply_all, In, HasNoConflict, load_pointer_converges}
use nexuspouch.Tests.World.{laptop, phone}

abbrev own : MasterPointer
own = record { master = laptop; epoch = pos 0 }

abbrev third : MasterPointer
third = record { master = phone; epoch = pos 3 }

abbrev last : MasterPointer
last = record { master = laptop; epoch = i64_max }

starts : load_pointer laptop absent ≡ ok own
unfolding load_pointer
starts = refl

holds_last : load_pointer laptop (holds last) ≡ ok last
unfolding load_pointer is_valid_device_id
holds_last = refl

accepted : is_acceptable third ≡ true
unfolding is_valid_device_id
accepted = refl

load_pointer-apply_pointer_example :
    load_pointer laptop (apply_pointer laptop third absent).1 ≡ ok (newer own third)
load_pointer-apply_pointer_example = load_pointer-apply_pointer laptop third absent own starts

migrate_takes_over_example :
    (q : MasterPointer) × (load_pointer laptop (migrate laptop absent absent).1 ≡ ok q)
    × (q.master ≡ laptop)
    × (pos 0 <ℤ q.epoch)
    × (require_master laptop (migrate laptop absent absent).1 ≡ ok tt)
migrate_takes_over_example = migrate_takes_over laptop absent absent own starts refl (omega arith)

migrate_overflow_example :
    (q : MasterPointer) × (load_pointer laptop (migrate laptop absent (holds last)).1 ≡ ok q)
    × (q.epoch ≡ pos 1)
    × ((apply_pointer phone q (holds last)).1 ≡ holds last)
unfolding is_valid_device_id load_pointer
migrate_overflow_example =
    migrate_overflow laptop absent (holds last) last holds_last phone (holds last) refl refl

swap : (p : MasterPointer) → In p (third ∷ own ∷ []) → In p (own ∷ third ∷ [])
swap p (inl e) = inr (inl e)
swap p (inr (inl e)) = inl e
swap p (inr (inr m)) = absurd m

swap_back : (p : MasterPointer) → In p (own ∷ third ∷ []) → In p (third ∷ own ∷ [])
swap_back p (inl e) = inr (inl e)
swap_back p (inr (inl e)) = inl e
swap_back p (inr (inr m)) = absurd m

one_of : (p : MasterPointer) → (p ≡ own) ⊎ In p (third ∷ own ∷ []) → (p ≡ own) ⊎ (p ≡ third)
one_of p (inl e) = inl e
one_of p (inr (inl e)) = inr e
one_of p (inr (inr (inl e))) = inl e
one_of p (inr (inr (inr m))) = absurd m

no_conflict : HasNoConflict own (third ∷ own ∷ [])
no_conflict a b h k e = agree (one_of a h) (one_of b k) e
  where
    agree : (a ≡ own) ⊎ (a ≡ third) → (b ≡ own) ⊎ (b ≡ third) → a.epoch ≡ b.epoch → a ≡ b
    agree (inl x) (inl y) e = cc
    agree (inr x) (inr y) e = cc
    agree (inl x) (inr y) e = absurd (ground arith)
    agree (inr x) (inl y) e = absurd (ground arith)

load_pointer_converges_example :
    load_pointer laptop (apply_all laptop (third ∷ own ∷ []) absent)
    ≡ load_pointer laptop (apply_all laptop (own ∷ third ∷ []) absent)
load_pointer_converges_example =
    load_pointer_converges laptop laptop (third ∷ own ∷ []) (own ∷ third ∷ []) absent absent own
      starts starts swap swap_back no_conflict

abbrev cursors : CursorFile
cursors = holds (field phone (int (pos 7)) end)

abbrev read_cursors : Dict ℤ
read_cursors = (phone, pos 7) ∷ []

readable : load_locked cursors ≡ ok read_cursors
unfolding load_locked decode any_to_i64
readable = refl
