-- ===== src/Store/Write/Chunk/Append.antt =====
-- Writing behind the end of a file appends to it.
use nexuspouch.Base.{
  String, ℕ, suc, zero, pos, List, [], ◌∷◌, ◌++◌, Option, none, some, length, append_nil, take,
  drop, ◌≡◌, refl, ap, ◌∙◌, arith, ◌+◌, ◌-◌,
}
use nexuspouch.Files.{Node, file, dir, symlink, FilePath, find, read_file, write_at, content}
use nexuspouch.Files.Laws.{find-alter_self}
use nexuspouch.Files.Alter.{alter_of_find}
use nexuspouch.Store.Write.Chunk.{write_part}

take_all : (xs : List ℕ) → take (length xs) xs ≡ xs
take_all [] = refl
take_all (x ∷ xs) = ap (λ ys. x ∷ ys) (take_all xs)

drop_nil : (n : ℕ) → drop {A = ℕ} n [] ≡ []
drop_nil zero = refl
drop_nil (suc n) = refl

suc_plus : (m n : ℕ) → suc m + n ≡ suc (m + n)
suc_plus m n = omega arith

drop_past : (n : ℕ) (xs : List ℕ) → drop (length xs + n) xs ≡ []
drop_past n [] = drop_nil (0 + n)
drop_past n (x ∷ xs) = rw (suc_plus (length xs) n) (drop_past n xs)

no_gap : (n : ℕ) → n - n ≡ 0
no_gap n = omega arith

-- Writing at the end appends.
write_at-append : (bytes raw : List ℕ) → write_at (length bytes) raw bytes ≡ bytes ++ raw
unfolding write_at
write_at-append bytes raw =
    rw (take_all bytes, no_gap (length bytes), drop_past (length raw) bytes, append_nil raw) refl

content_file :
    (o : Option Node) (bytes : List ℕ)
    → content o ≡ some bytes
    → (mtime : ℕ) × (o ≡ some (file bytes mtime))
content_file (some (file b m)) bytes h = (m, ground arith)
content_file (some (dir es)) bytes h = cc
content_file (some symlink) bytes h = cc
content_file none bytes h = cc

-- What stands where a file can be read.
file_of_read :
    (path : FilePath) (fs : Node) (bytes : List ℕ)
    → read_file path fs ≡ some bytes
    → (mtime : ℕ) × (find path fs ≡ some (file bytes mtime))
file_of_read path fs bytes h = content_file (find path fs) bytes h

-- An append to a file that is not the root.
pub write_part_appends :
    (x : String) (p : FilePath) (fs : Node) (bytes raw : List ℕ) (now : ℕ)
    → read_file (x ∷ p) fs ≡ some bytes
    → (fs' : Node) × (write_part (x ∷ p) (pos (length bytes)) raw now fs ≡ some fs')
      × (read_file (x ∷ p) fs' ≡ some (bytes ++ raw))
unfolding write_part
write_part_appends x p fs bytes raw now h =
    let (mtime, e) = file_of_read (x ∷ p) fs bytes h in
    let (fs', d) = alter_of_find x p (some (file (write_at (length bytes) raw bytes) now)) fs _ e in
    (
      fs',
      rw e d,
      ap content (find-alter_self (x ∷ p) _ fs fs' d) ∙ ap some (write_at-append bytes raw),
    )
