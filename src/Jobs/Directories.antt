-- ===== src/Jobs/Directories.antt =====
-- jobs/SendTree.cpp: the directories of a tree, and how many they are.
use openbookfs.Prelude.{ℕ, suc, ◌+◌, ◌≤◌, List, [], ◌∷◌, ◌++◌, Elem, arith}
use openbookfs.Database.{FilePath}
use openbookfs.Jobs.Tree.{Tree, listing, subdirectories}

module _ (t : Tree) where
  -- From a directory a directory below it, or itself, is reached.
  pub data Reaches : FilePath → FilePath → Type 0 where
    itself : (d : FilePath) → Reaches d d
    deeper :
        (d e f : FilePath) → Elem e (subdirectories t d (listing t d)) → Reaches e f → Reaches d f

  -- A list of directories with at most so many below them, themselves included.
  mutual
    pub data Holds : FilePath → ℕ → Type 0 where
      directory :
          (d : FilePath) (n : ℕ) → AllHold (subdirectories t d (listing t d)) n → Holds d (suc n)

    pub data AllHold : List FilePath → ℕ → Type 0 where
      no_directory : (n : ℕ) → AllHold [] n
      one_more :
          (d : FilePath) (ds : List FilePath) (a b n : ℕ)
          → Holds d a
          → AllHold ds b
          → a + b ≤ n
          → AllHold (d ∷ ds) n

  AllHold-weaken : (xs : List FilePath) (a n : ℕ) → AllHold xs a → a ≤ n → AllHold xs n
  AllHold-weaken [] a n (no_directory _) le = no_directory n
  AllHold-weaken (x ∷ xs) a n (one_more _ _ c d _ h hs le') le =
      one_more x xs c d n h hs (omega arith)

  pub AllHold-append :
      (xs ys : List FilePath) (a b n : ℕ)
      → AllHold xs a
      → AllHold ys b
      → a + b ≤ n
      → AllHold (xs ++ ys) n
  AllHold-append [] ys a b n h k le = AllHold-weaken ys b n k (omega arith)
  AllHold-append (x ∷ xs) ys a b n (one_more _ _ c d _ h hs le') k le =
      one_more x (xs ++ ys) c (d + b) n h (AllHold-append xs ys d b (d + b) hs k (omega arith))
        (omega arith)
