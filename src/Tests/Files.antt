-- ===== src/Tests/Files.antt =====
-- Files in memory, for the tests of what is written by way of a temporary file.
use exnode.Base.{
  String, true, false, ◌≡◌, ◌≢◌, refl, ◌∙◌, Option, none, some, if◌then◌else◌, ◌==◌, string_eq,
  beq_false, beq_refl,
}
use exnode.Storage.{Storage, Documented}

abbrev pub FilesOf : Type 0 → Type 0
FilesOf B = String → Option B

module _ {B : Type 0} where
  abbrev pub set : String → Option B → FilesOf B → FilesOf B
  set path file s = λ p. if p == path then file else s p

  pub others :
      (path : String) (file : Option B) (s : FilesOf B) (other : String)
      → other ≢ path
      → set path file s other ≡ s other
  others path file s other ne = rw (beq_false other path ne)

  pub there : (path : String) (file : Option B) (s : FilesOf B) → set path file s path ≡ file
  there path file s = rw (beq_refl path)

pub never : {A : Type 0} → true ≡ false → A
never h = cc

module _ (dir : String) (B : Type 0) where
  -- Every call succeeds, and all files are in one directory.
  abbrev pub storage : Storage (FilesOf B) B
  storage = record {
    dir = λ path. dir;
    mkdir_all = λ dir s. (true, s);
    write_file = λ path b s. (true, set path (some b) s);
    rename = λ from to s. (true, set to (s from) (set from none s));
    remove = λ path s. set path none s;
  }

  abbrev pub documented : Documented storage
  documented = record {
    content = λ s path. s path;
    mkdir_same = λ dir s path. refl;
    written = λ path b s h. there path (some b) s;
    write_others = λ path b s other ne. others path (some b) s other ne;
    renamed = λ from to s h. there to (s from) (set from none s);
    rename_fails = λ from to s other h. never h;
    rename_others = λ from to s other ne ne'.
        others to (s from) (set from none s) other ne' ∙ others from none s other ne;
    remove_others = λ path s other ne. others path none s other ne;
  }
