-- ===== src/SelfUpdate/Swap/Safe.antt =====
-- What an upgrade may put in the place of the binary.
use exnode.Base.{
  ℕ, ◌*◌, ◌≤◌, String, Bool, true, false, ◌&&◌, not, ◌≡◌, ◌≢◌, refl, ap, ◌∙◌, Option, none, some,
  ◌⊎◌, inl, inr, if◌then◌else◌, ◌==◌, string_eq, nat_eq, list_eq, ltb, Bool-cases, Option-cases,
  not-true, not-false, ltb→le,
}
use exnode.SelfUpdate.Platform.{Platform}
use exnode.SelfUpdate.Swap.Files.{Files}
use exnode.SelfUpdate.Swap.{
  Order, Failure, min_binary_size, elf, check_executable, checked_file, save, answered, download,
  swap, fetched, located, self_upgrade,
}

module _ (P : Platform) (F : Files P) (exe : String) (old : F.File) where
  -- Fit to take the binary's place: not truncated, a program of the platform, and one that runs.
  abbrev Fit : F.File → Type 0
  Fit file =
      (min_binary_size ≤ F.size file) × ((P.goos == "linux" && not (F.magic file == elf)) ≡ false)

  -- The old binary is in its place, or one that was checked and runs is.
  abbrev pub Safe : P.State → Type 0
  Safe s =
      (F.content s exe ≡ some old)
      ⊎ ((new : F.File) × (F.content s exe ≡ some new)
          × F.Runs new
          × (min_binary_size ≤ F.size new)
          × ((P.goos == "linux" && not (F.magic new == elf)) ≡ false))

  abbrev Downloaded : (Failure ⊎ String) × P.State → Type 0
  Downloaded (inl failure, s) = F.content s exe ≡ some old
  Downloaded (inr tmp, s) =
      (F.content s exe ≡ some old)
      × (exe ≢ tmp)
      × ((file : F.File) × (F.content s tmp ≡ some file) × Fit file)

  apart :
      (s : P.State) (tmp : String) → F.content s exe ≡ some old → F.content s tmp ≡ none → exe ≢ tmp
  apart s tmp here new same = cc (ap (F.content s) same, here, new)

  checked_file-Downloaded :
      (tmp : String) (written : Option ℕ) (s : P.State)
      → F.content s exe ≡ some old
      → exe ≢ tmp
      → ((n : ℕ)
          → written ≡ some n
          → (file : F.File) × (F.content s tmp ≡ some file) × (F.size file ≡ n))
      → Downloaded (checked_file P tmp written s)
  unfolding checked_file check_executable
  checked_file-Downloaded tmp none s here ne file = F.remove_others tmp s exe ne ∙ here
  checked_file-Downloaded tmp (some n) s here ne file =
      let gone : F.content (P.remove tmp s) exe ≡ some old = F.remove_others tmp s exe ne ∙ here in
      elim (Bool-cases (ltb n min_binary_size)) [
        | inl short ↦ rw short gone
        | inr full ↦ rw full (elim (Option-cases (P.read_magic tmp s)) [
          | inl unread ↦ rw unread gone
          | inr (magic, read) ↦
              rw read (elim (Bool-cases (P.goos == "linux" && not (magic == elf))) [
                | inl alien ↦ rw alien gone
                | inr native ↦ rw native (
                    let (f, there, size) = file n refl in
                    (
                      here,
                      ne,
                      (
                        f,
                        there,
                        (
                          rw size (ltb→le n min_binary_size full),
                          rw (F.magic_read tmp s read there) native,
                        ),
                      ),
                    ))
              ])
        ])
      ]

  branch :
      (b : Bool) (x y : Option Failure × P.State)
      → (b ≡ true → Safe x.1)
      → (b ≡ false → Safe y.1)
      → Safe (if b then x else y).1
  branch true x y h k = h refl
  branch false x y h k = k refl

  swap-Safe :
      (tmp : String) (s : P.State) (file : F.File)
      → F.content s exe ≡ some old
      → exe ≢ tmp
      → F.content s tmp ≡ some file
      → Fit file
      → Safe (swap P exe tmp s).1
  unfolding swap
  swap-Safe tmp s file here ne there fit =
      let s₁ = (P.chmod tmp s).1 in
      let s₂ = (P.version_of tmp s₁).1 in
      let s₃ = (P.rename tmp exe s₂).1 in
      let here₁ = F.chmod_same tmp s exe ∙ here in
      let here₂ = F.version_same tmp s₁ exe ∙ here₁ in
      let there₁ = F.chmod_same tmp s tmp ∙ there in
      let there₂ = F.version_same tmp s₁ tmp ∙ there₁ in
      branch (not (P.chmod tmp s).0) _ _ (λ _. inl (F.remove_others tmp s₁ exe ne ∙ here₁))
        (λ _. elim (Option-cases (P.version_of tmp s₁).0) [
          | inl silent ↦ rw silent (inl (F.remove_others tmp s₂ exe ne ∙ here₂))
          | inr (out, says) ↦ rw says (
              branch (not (P.rename tmp exe s₂).0) _ _
                (λ stuck. inl (
                  F.remove_others tmp s₃ exe ne
                  ∙ F.rename_fails tmp exe s₂ exe (not-true _ stuck)
                  ∙ here₂))
                (λ moved.
                  let new =
                    F.exec_same exe s₃ exe ∙ F.renamed tmp exe s₂ (not-false _ moved) ∙ there₂ in
                  let runs = F.version_runs tmp s₁ says there₁ in
                  branch (not (P.exec exe s₃).0) _ _
                    (λ _. inr (
                      file,
                      F.remove_others tmp (P.exec exe s₃).1 exe ne ∙ new,
                      runs,
                      fit.0,
                      fit.1,
                    ))
                    (λ _. inr (file, new, runs, fit.0, fit.1))))
        ])

  saved :
      (body : P.Body) (temp : Option String) (s : P.State)
      → F.content s exe ≡ some old
      → ((tmp : String) → temp ≡ some tmp → exe ≢ tmp)
      → Downloaded (save P body temp s)
  unfolding save
  saved body none s here new = here
  saved body (some tmp) s here new =
      let ne = new tmp refl in
      checked_file-Downloaded tmp _ _
        (F.copy_others (min_binary_size * 200) body tmp s exe ne ∙ here) ne
        (λ n wrote. F.copied (min_binary_size * 200) body tmp s wrote)

  fresh :
      (dir : String) (s : P.State)
      → F.content s exe ≡ some old
      → (tmp : String) → (P.create_temp dir s).0 ≡ some tmp
      → exe ≢ tmp
  fresh dir s here tmp made = apart s tmp here (F.temp_new dir s made)

  answered-Downloaded :
      (dir : String) (answer : Option (ℕ × P.Body)) (s : P.State)
      → F.content s exe ≡ some old
      → Downloaded (answered P dir answer s)
  unfolding answered
  answered-Downloaded dir none s here = here
  answered-Downloaded dir (some (status, body)) s here = elim (Bool-cases (status == 200)) [
    | inl good ↦ rw good (
        saved body (P.create_temp dir s).0 (P.create_temp dir s).1 (F.temp_others dir s exe here)
          (fresh dir s here))
    | inr bad ↦ rw bad here
  ]

  download-Downloaded :
      (url dir : String) (s : P.State)
      → F.content s exe ≡ some old
      → Downloaded (download P url dir s)
  unfolding download
  download-Downloaded url dir s here =
      answered-Downloaded dir (P.get url s).0 _ (F.get_same url s exe ∙ here)

  fetched-Safe :
      (result : (Failure ⊎ String) × P.State) → Downloaded result → Safe (fetched P exe result).1
  unfolding fetched
  fetched-Safe (inl failure, s) here = inl here
  fetched-Safe (inr tmp, s) (here, ne, (file, there, fit)) = swap-Safe tmp s file here ne there fit

  -- Whatever the panel orders and the network delivers, the upgrade leaves the old binary in its place
  -- or puts one there that has at least min_binary_size bytes, answers to -version and, on Linux, is
  -- an ELF file. This holds where each call of the platform changes the files that it is documented
  -- to change and a temporary file is new.
  pub self_upgrade-Safe :
      (order : Order) (s : P.State)
      → P.executable s ≡ some exe
      → F.content s exe ≡ some old
      → Safe (self_upgrade P order s).1
  unfolding self_upgrade located
  self_upgrade-Safe order s found here =
      rw found (fetched-Safe _ (download-Downloaded _ (P.dir exe) s here))
