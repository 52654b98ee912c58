-- ===== src/Engine/Singbox/Written/Kept.antt =====
-- A configuration is replaced as a whole or not at all.
use exnode.Base.{
  ◌≡◌, ◌≢◌, refl, ◌∙◌, String, true, some, ◌⊎◌, inl, inr, ◌==◌, string_eq, beq→eq, beq_true,
  Bool-cases,
}
use exnode.Base.Action.{◌>>◌, Ends, >>=-Ends, try_call-Ends}
use exnode.Text.{◌<>◌, is_nil}
use exnode.Storage.{Storage, Documented}
use exnode.Engine.Singbox.Written.{
  WriteError, no_directory, not_written, not_moved, made, make_dir, write, move, write_file_atomic,
}

module _ {S : Type 0} (D : Storage S String) (F : Documented D) (path text other : String)
    (apart : other ≢ path <> ".tmp") (s₀ : S) where
  abbrev Same : S → Type 0
  Same s = F.content s other ≡ F.content s₀ other

  abbrev pub Failed : WriteError → S → Type 0
  Failed e s = Same s

  abbrev Beside : Unit {0} → S → Type 0
  Beside _ s = Same s × (F.content s (path <> ".tmp") ≡ some text)

  abbrev pub Done : Unit {0} → S → Type 0
  Done _ s = (F.content s path ≡ some text) × ((other ≡ path) ⊎ Same s)

  made-Same : (dir : String) (s : S) → Same s → Same (made D dir s).1
  unfolding made
  made-Same dir s h = elim (Bool-cases (is_nil dir)) [
    | inl here ↦ rw (made, here) h
    | inr named ↦ rw (made, named) (F.mkdir_same dir s other ∙ h)
  ]

  renamed-Done :
      (s : S)
      → Beside tt s
      → (D.rename (path <> ".tmp") path s).0 ≡ true
      → Done tt (D.rename (path <> ".tmp") path s).1
  renamed-Done s (h, new) done = (
    F.renamed (path <> ".tmp") path s done ∙ new,
    elim (Bool-cases (other == path)) [
      | inl same ↦ inl (beq→eq other path same)
      | inr ne ↦
          inr (F.rename_others (path <> ".tmp") path s other apart (beq_true other path ne) ∙ h)
    ],
  )

  -- After writeFileAtomic the file has its new text, or an error is reported and it is as it was
  -- before; but for the temporary one, no other file changes. This holds where each call of os
  -- changes the files that it is documented to change.
  pub write_file_atomic_keeps : Ends Failed Done (write_file_atomic D path text s₀)
  unfolding write_file_atomic make_dir write move
  write_file_atomic_keeps =
      let tmp = path <> ".tmp" in
      >>=-Ends Failed (λ _. Same) Done (make_dir D path) (λ _. write D tmp text >> move D tmp path)
        s₀
        (try_call-Ends Failed (λ _. Same) (made D (D.dir path)) no_directory s₀
          (λ _. made-Same (D.dir path) s₀ refl) (λ _. made-Same (D.dir path) s₀ refl))
        (λ _ s₁ h₁.
          let there = F.write_others tmp text s₁ other apart ∙ h₁ in
          >>=-Ends Failed Beside Done (write D tmp text) (λ _. move D tmp path) s₁
            (try_call-Ends Failed Beside (D.write_file tmp text) not_written s₁ (λ _. there)
              (λ wrote. (there, F.written tmp text s₁ wrote)))
            (λ _ s₂ h₂.
              try_call-Ends Failed Done (D.rename tmp path) not_moved s₂
                (λ stuck. F.rename_fails tmp path s₂ other stuck ∙ h₂.0) (renamed-Done s₂ h₂)))
