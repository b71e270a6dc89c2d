-- ===== src/Database.antt =====
-- backend/Database.h and Database.cpp: the tables of the SQLite file, and what a statement can do.
-- Each method runs its statements one after another, each committed by itself, and catches the
-- exception of the first that fails: what was written before it stays.
pub mod Files
pub mod Versions
pub mod Downloads
pub mod Peers
pub mod View
pub mod Lifecycle
pub mod Making
pub mod Merging
use openbookfs.Prelude.{ℕ, ℤ, String, Bool, true, false, List, [], ◌∷◌, Option, none, some}

-- A path as text. Its operations are boost's, and stand in `Paths`.
abbrev pub FilePath : Type 0
FilePath = String

-- `parent_path`, `filename` and `operator/` of boost::filesystem::path, which the program calls.
pub record Paths : Type 0 where
  pub parent_path : FilePath → FilePath
  pub filename : FilePath → String
  pub join : FilePath → FilePath → FilePath

-- table `files`
pub record FileRow : Type 0 where
  pub id : ℕ
  pub parent : ℕ
  pub node : String
  pub path : FilePath
  pub subscribed : Bool

-- table `version`
pub record VersionRow : Type 0 where
  pub file_id : ℕ
  pub peer : ℤ
  pub version : ℤ

-- table `downloads`
pub record DownloadRow : Type 0 where
  pub path : FilePath
  pub peer : ℤ
  pub tx : ℤ
  pub temp : String
  pub recd : ℤ
  pub size : ℤ

-- table `downloads_v`
pub record DownloadVersionRow : Type 0 where
  pub path : FilePath
  pub peer : ℤ
  pub v_peer : ℤ
  pub v_version : ℤ

-- table `known_clients`
pub record ClientRow : Type 0 where
  pub client_id : ℕ
  pub client_key : String
  pub client_name : String

-- The database file. The two counters are those of the AUTOINCREMENT columns. The tables `conflicts`
-- and `conflict_v` are created by `init`, and no statement of the program names them again.
pub record Db : Type 0 where
  pub files : List FileRow
  pub next_file_id : ℕ
  pub version : List VersionRow
  pub downloads : List DownloadRow
  pub downloads_v : List DownloadVersionRow
  pub known_clients : List ClientRow
  pub next_client_id : ℕ

-- What makes a method throw; the text of the exception is not kept.
pub data Failure : Type 0 where
  parent_missing not_entered constraint already_subscribed not_subscribed os_error : Failure

-- Both outcomes carry the database as the statements so far have left it.
pub data Outcome (A : Type 0) : Type 0 where
  ok : A → Db → Outcome A
  threw : Failure → Db → Outcome A

abbrev pub M : Type 0 → Type 0
M A = Db → Outcome A

abbrev pub pure : {A : Type 0} → A → M A
pure a db = ok a db

infixl 5 ◌>>=◌ ◌>>◌
abbrev pub ◌>>=◌ : {A B : Type 0} → M A → (A → M B) → M B
◌>>=◌ m f db = elim (m db) [ ok a db' ↦ f a db' | threw e db' ↦ threw e db' ]

abbrev pub ◌>>◌ : {B : Type 0} → M (Unit {0}) → M B → M B
m >> k = m >>= λ _. k

-- A query that reads, a statement that writes, and `ex()()` or a refused statement.
abbrev pub gets : {A : Type 0} → (Db → A) → M A
gets f db = ok (f db) db

abbrev pub execute : (Db → Db) → M (Unit {0})
execute f db = ok tt (f db)

abbrev pub throw : {A : Type 0} → Failure → M A
throw e db = threw e db

abbrev pub throw_if : Bool → Failure → M (Unit {0})
throw_if true e = throw e
throw_if false e = pure tt

-- `catch( const std::exception& ex )`, which only logs.
abbrev pub caught : Outcome (Unit {0}) → Db
caught (ok _ db) = db
caught (threw _ db) = db

-- `int64_t x; sql << …, into(x)`: `x` keeps what it held where the query has no row.
abbrev pub into : {A : Type 0} → A → Option A → A
into junk none = junk
into junk (some a) = a
