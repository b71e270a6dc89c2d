-- ===== src/Database/Files/Lookup.antt =====
-- Reads of the table `files` after its statements, and the uniqueness that the schema promises.
use mathlib.Core.Option.{or_else}
use openbookfs.Prelude.{
  ℕ, suc, ◌≤◌, ◌<◌, String, str_eq, eq_iff, ◌≡◌, refl, ◌≢◌, Bool, true, false, if◌then◌else◌, ◌==◌,
  List, [], ◌∷◌, ◌++◌, none, some, arith, inl, inr, Bool-cases,
}
use openbookfs.Database.{FilePath, FileRow, VersionRow, Db}
use openbookfs.Database.Files.{
  select_id, select_child, select_subscribed, clashes, insert_or_ignore, set_subscribed,
}

-- A row differs from each of the others in its id, its path and its place in the tree.
abbrev pub Apart : FileRow → List FileRow → Type 0
Apart f [] = Unit {0}
Apart f (g ∷ gs) =
    (f.id ≢ g.id) × (f.path ≢ g.path) × (f.parent ≡ g.parent → f.node ≡ g.node → ⊥) × Apart f gs

abbrev pub AreDistinct : List FileRow → Type 0
AreDistinct [] = Unit {0}
AreDistinct (f ∷ fs) = Apart f fs × AreDistinct fs

abbrev pub Below : ℕ → List FileRow → Type 0
Below n [] = Unit {0}
Below n (f ∷ fs) = (f.id < n) × Below n fs

abbrev pub VersionsBelow : ℕ → List VersionRow → Type 0
VersionsBelow n [] = Unit {0}
VersionsBelow n (r ∷ rs) = (r.file_id < n) × VersionsBelow n rs

-- What `Database::init` asks of the table: the three keys are unique, and the ids lie below the
-- counter of the AUTOINCREMENT column. Versions belong to ids that have been given out.
pub record IsValid (db : Db) : Type 0 where
  pub distinct : AreDistinct db.files
  pub below : Below db.next_file_id db.files
  pub owned : VersionsBelow db.next_file_id db.version

pub select_id-append :
    (p : FilePath) (xs ys : List FileRow)
    → select_id p (xs ++ ys) ≡ or_else (select_id p xs) (select_id p ys)
unfolding select_id or_else
select_id-append p [] ys = refl
select_id-append p (x ∷ xs) ys = ground (arith, select_id-append p xs ys)

pub select_subscribed-append :
    (p : FilePath) (xs ys : List FileRow)
    → select_subscribed p (xs ++ ys) ≡ or_else (select_subscribed p xs) (select_subscribed p ys)
unfolding select_subscribed or_else
select_subscribed-append p [] ys = refl
select_subscribed-append p (x ∷ xs) ys = ground (arith, select_subscribed-append p xs ys)

pub select_id-set_subscribed :
    (p : FilePath) (s : Bool) (id : ℕ) (fs : List FileRow)
    → select_id p (set_subscribed s id fs) ≡ select_id p fs
unfolding select_id set_subscribed
select_id-set_subscribed p s id [] = refl
select_id-set_subscribed p s id (f ∷ fs) = ground (arith, select_id-set_subscribed p s id fs)

pub select_subscribed-set_subscribed :
    (p : FilePath) (s : Bool) (id j : ℕ) (fs : List FileRow)
    → select_id p fs ≡ some j
    → select_subscribed p (set_subscribed s id fs)
      ≡ (if j == id then some s else select_subscribed p fs)
unfolding select_id select_subscribed set_subscribed
select_subscribed-set_subscribed p s id j [] h = cc
select_subscribed-set_subscribed p s id j (f ∷ fs) h =
    ground (arith, select_subscribed-set_subscribed p s id j fs)

pub select_subscribed-unknown :
    (p : FilePath) (fs : List FileRow) → select_id p fs ≡ none → select_subscribed p fs ≡ none
unfolding select_id select_subscribed
select_subscribed-unknown p [] h = refl
select_subscribed-unknown p (f ∷ fs) h = ground (arith, select_subscribed-unknown p fs)

pub select_subscribed-known :
    (p : FilePath) (j : ℕ) (fs : List FileRow)
    → select_id p fs ≡ some j
    → select_subscribed p fs ≢ none
unfolding select_id select_subscribed
select_subscribed-known p j [] h = cc
select_subscribed-known p j (f ∷ fs) h = ground (arith, select_subscribed-known p j fs)

pub select_id_bound :
    (p : FilePath) (n j : ℕ) (fs : List FileRow) → Below n fs → select_id p fs ≡ some j → j < n
unfolding select_id
select_id_bound p n j [] b h = cc
select_id_bound p n j (f ∷ fs) b h = ground (arith, select_id_bound p n j fs b.1)

select_id-Apart :
    (f : FileRow) (p : FilePath) (j : ℕ) (fs : List FileRow)
    → Apart f fs
    → select_id p fs ≡ some j
    → f.id ≢ j
unfolding select_id
select_id-Apart f p j [] a h e = cc
select_id-Apart f p j (g ∷ gs) a h e = elim (Bool-cases (str_eq g.path p)) [
  | inl hit ↦ a.0 (ground arith)
  | inr miss ↦ select_id-Apart f p j gs a.3 (ground arith) e
]

-- In a valid table two paths with one id are one path.
pub select_id-injective :
    (p q : FilePath) (j : ℕ) (fs : List FileRow)
    → AreDistinct fs
    → select_id p fs ≡ some j
    → select_id q fs ≡ some j
    → p ≡ q
unfolding select_id
select_id-injective p q j [] d hp hq = cc
select_id-injective p q j (f ∷ fs) d hp hq = ground (
  arith,
  select_id-injective p q j fs d.1,
  select_id-Apart f p j fs d.0,
  select_id-Apart f q j fs d.0,
  eq_iff f.path p,
  eq_iff f.path q,
)

pub set_subscribed-Below :
    (s : Bool) (id n : ℕ) (fs : List FileRow) → Below n fs → Below n (set_subscribed s id fs)
unfolding set_subscribed
set_subscribed-Below s id n [] b = tt
set_subscribed-Below s id n (f ∷ fs) b = ground (arith, set_subscribed-Below s id n fs b.1)

set_subscribed-Apart :
    (s t : Bool) (id : ℕ) (f : FileRow) (fs : List FileRow)
    → Apart f fs
    → Apart (if t then record f { subscribed = s } else f) (set_subscribed s id fs)
unfolding set_subscribed
set_subscribed-Apart s true id f [] a = tt
set_subscribed-Apart s false id f [] a = tt
set_subscribed-Apart s true id f (g ∷ gs) a = elim (Bool-cases (g.id == id)) [
  | inl e ↦ rw e (a.0, a.1, a.2, set_subscribed-Apart s true id f gs a.3)
  | inr e ↦ rw e (a.0, a.1, a.2, set_subscribed-Apart s true id f gs a.3)
]
set_subscribed-Apart s false id f (g ∷ gs) a = elim (Bool-cases (g.id == id)) [
  | inl e ↦ rw e (a.0, a.1, a.2, set_subscribed-Apart s false id f gs a.3)
  | inr e ↦ rw e (a.0, a.1, a.2, set_subscribed-Apart s false id f gs a.3)
]

pub set_subscribed-AreDistinct :
    (s : Bool) (id : ℕ) (fs : List FileRow) → AreDistinct fs → AreDistinct (set_subscribed s id fs)
unfolding set_subscribed
set_subscribed-AreDistinct s id [] d = tt
set_subscribed-AreDistinct s id (f ∷ fs) d =
    (set_subscribed-Apart s (f.id == id) id f fs d.0, set_subscribed-AreDistinct s id fs d.1)

Below-append :
    (n : ℕ) (fs : List FileRow) (f : FileRow) → Below n fs → f.id ≡ n → Below (suc n) (fs ++ f ∷ [])
Below-append n [] f b e = (omega arith, tt)
Below-append n (g ∷ gs) f b e = (omega arith, Below-append n gs f b.1 e)

Apart-append :
    (f g : FileRow) (fs : List FileRow) → Apart f fs → Apart f (g ∷ []) → Apart f (fs ++ g ∷ [])
Apart-append f g [] a b = b
Apart-append f g (h ∷ hs) a b = (a.0, a.1, a.2, Apart-append f g hs a.3 b)

AreDistinct-append :
    (n : ℕ) (fs : List FileRow) (g : FileRow)
    → AreDistinct fs
    → Below n fs
    → g.id ≡ n
    → clashes g.parent g.node g.path fs ≡ false
    → AreDistinct (fs ++ g ∷ [])
unfolding clashes
AreDistinct-append n [] g d b e c = (tt, tt)
AreDistinct-append n (f ∷ fs) g d b e c = (
  Apart-append f g fs d.0 (
    λ same. absurd (omega arith),
    λ same. ground (arith, (eq_iff f.path g.path).1 same),
    λ same_parent same_node. ground (arith, (eq_iff f.node g.node).1 same_node),
    tt,
  ),
  AreDistinct-append n fs g d.1 b.1 e (ground arith),
)

pub VersionsBelow-mono :
    (m n : ℕ) (rs : List VersionRow) → m ≤ n → VersionsBelow m rs → VersionsBelow n rs
VersionsBelow-mono m n [] h b = tt
VersionsBelow-mono m n (r ∷ rs) h b = (omega arith, VersionsBelow-mono m n rs h b.1)

-- An insertion that the constraints allow, or that they make the engine ignore, keeps the table valid.
pub insert_or_ignore-IsValid :
    (parent : ℕ) (node : String) (path : FilePath) (s : Bool) (db : Db)
    → IsValid db
    → IsValid (insert_or_ignore parent node path s db)
unfolding insert_or_ignore
insert_or_ignore-IsValid parent node path s db v =
    elim (Bool-cases (clashes parent node path db.files)) [
      | inl clash ↦ rw (clash, insert_or_ignore) v
      | inr free ↦
          rw (free, insert_or_ignore)
            (record {
              distinct = AreDistinct-append db.next_file_id db.files _ v.distinct v.below refl free;
              below = Below-append db.next_file_id db.files _ v.below refl;
              owned =
                  VersionsBelow-mono db.next_file_id (suc db.next_file_id) db.version (omega arith)
                    v.owned;
            })
    ]

set_subscribed_absent :
    (s : Bool) (f : FileRow) (fs : List FileRow) → Apart f fs → set_subscribed s f.id fs ≡ fs
unfolding set_subscribed
set_subscribed_absent s f [] a = refl
set_subscribed_absent s f (g ∷ gs) a = ground (arith, set_subscribed_absent s f gs a.3, a.0)

-- Setting the mark of one file and taking it back leaves the table as it was.
pub set_subscribed_undo :
    (p : FilePath) (id : ℕ) (fs : List FileRow)
    → AreDistinct fs
    → select_id p fs ≡ some id
    → select_subscribed p fs ≡ some false
    → set_subscribed false id (set_subscribed true id fs) ≡ fs
unfolding select_id select_subscribed set_subscribed
set_subscribed_undo p id [] d h k = cc
set_subscribed_undo p id (f ∷ fs) d h k = elim (Bool-cases (str_eq f.path p)) [
  | inl hit ↦
      ground (arith, set_subscribed_absent true f fs d.0, set_subscribed_absent false f fs d.0)
  | inr miss ↦ ground (arith, set_subscribed_undo p id fs d.1, select_id-Apart f p id fs d.0)
]

pub select_id-clashes :
    (parent : ℕ) (node : String) (p : FilePath) (id : ℕ) (fs : List FileRow)
    → select_id p fs ≡ some id
    → clashes parent node p fs ≡ true
unfolding select_id clashes
select_id-clashes parent node p id [] h = cc
select_id-clashes parent node p id (f ∷ fs) h =
    ground (arith, select_id-clashes parent node p id fs)

pub clashes-select :
    (parent : ℕ) (node : String) (p : FilePath) (fs : List FileRow)
    → clashes parent node p fs ≡ false
    → (select_id p fs ≡ none) × (select_child parent node fs ≡ none)
unfolding select_id select_child clashes
clashes-select parent node p [] h = (refl, refl)
clashes-select parent node p (f ∷ fs) h = ground (arith, clashes-select parent node p fs)

pub select_child-append :
    (parent : ℕ) (node : String) (xs ys : List FileRow)
    → select_child parent node (xs ++ ys)
      ≡ or_else (select_child parent node xs) (select_child parent node ys)
unfolding select_child or_else
select_child-append parent node [] ys = refl
select_child-append parent node (x ∷ xs) ys = ground (arith, select_child-append parent node xs ys)
