-- ===== src/Installer/Install/Kept.antt =====
-- What an installation of sing-box leaves on the disk, however it ends.
use mathlib.Core.Path.{subst}
use exnode.Base.{
  [], ℕ, ◌≤◌, ◌≡◌, ◌≢◌, refl, sym, ◌∙◌, String, true, false, not, List, some, ◌⊎◌, inl, inr, ltb,
  nat_beq, ltb→le, Bool-cases, ◌==◌, string_eq, beq→eq, beq_true,
}
use exnode.Base.Action.{
  Action, pure, raise_if, or_raise, ◌>>◌, Ends, >>=-Ends, try_call-Ends, raise_if-Ends,
  raise_if-Same, or_raise-Same, or_raise_same, call_looked_at,
}
use exnode.Text.{◌<>◌, is_nil, trim_space, trim_right_of}
use exnode.Storage.{Documented}
use exnode.Installer.{
  Options, or_default, not_extracted, asset_name, no_version, min_size, Failure, refused,
  bad_release, no_tag, no_answer, no_download, http_status, cut_off, too_small, max_asset_size,
  no_directory, not_written, not_moved, ArchiveError,
}
use exnode.Installer.Platform.{Platform}
use exnode.Installer.Archive.{extract_binary}
use exnode.Installer.Install.{
  tag_of, released, lifted, asked_headers, fetch, chosen_repo, unpack_to, release_url,
  latest_version, chosen_version, downloaded, download_blob, move, made, make_dir, write, renamed,
  put_program, unpack, install,
}

module _ {S : Type 0} (P : Platform S) (D : Documented P.storage)
    (request_same : (url : String) (headers : List (String × String)) (s : S) (path : String)
      → D.content (P.request url headers s).1 path ≡ D.content s path)
    (target path : String) (apart : path ≢ target <> ".new") (s₀ : S) where
  abbrev Same : S → Type 0
  Same s = D.content s path ≡ D.content s₀ path

  -- What is installed is the program of some archive and not too small.
  abbrev pub Program : P.Binary → Type 0
  Program bin = (min_size ≤ P.size bin) × ((blob : P.Blob) × (extract_binary P blob ≡ inr bin))

  abbrev pub Installed : S → Type 0
  Installed s =
      ((bin : P.Binary) × (D.content s target ≡ some bin) × Program bin)
      × ((path ≡ target) ⊎ (D.content s path ≡ D.content s₀ path))

  abbrev tmp : String
  tmp = target <> ".new"

  abbrev pub Failed : Failure → S → Type 0
  Failed e s = Same s

  abbrev Wrote : P.Binary → Unit {0} → S → Type 0
  Wrote bin _ s = Same s × (D.content s tmp ≡ some bin)

  abbrev pub Done : Unit {0} → S → Type 0
  Done _ s = Installed s

  made-Same : (dir : String) (s : S) → Same s → Same (made P dir s).1
  unfolding made
  made-Same dir s h = elim (Bool-cases (is_nil dir)) [
    | inl here ↦ rw (made, here) h
    | inr named ↦ rw (made, named) (D.mkdir_same dir s path ∙ h)
  ]

  renamed_fails :
      (s : S) → Same s → (renamed P tmp target s).0 ≡ false → Same (renamed P tmp target s).1
  unfolding renamed
  renamed_fails s h stuck = rw stuck (
      D.remove_others tmp (P.storage.rename tmp target s).1 path apart
      ∙ D.rename_fails tmp target s path stuck
      ∙ h)

  renamed-Installed :
      (bin : P.Binary) (s : S)
      → Program bin
      → Wrote bin tt s
      → (renamed P tmp target s).0 ≡ true
      → Installed (renamed P tmp target s).1
  unfolding renamed
  renamed-Installed bin s program (h, new) done = rw done (
    (bin, D.renamed tmp target s done ∙ new, program),
    elim (Bool-cases (path == target)) [
      | inl same ↦ inl (beq→eq path target same)
      | inr other ↦ inr (D.rename_others tmp target s path apart (beq_true path target other) ∙ h)
    ],
  )

  put_program-Installed :
      (bin : P.Binary) (s : S)
      → Program bin
      → Same s
      → Ends Failed Done (put_program P target bin s)
  unfolding put_program make_dir write move
  put_program-Installed bin s program h =
      let dir = P.storage.dir target in
      >>=-Ends Failed (λ _. Same) Done (make_dir P target)
        (λ _. write P tmp bin >> move P tmp target) s
        (try_call-Ends Failed (λ _. Same) (made P dir) no_directory s (λ _. made-Same dir s h)
          (λ _. made-Same dir s h))
        (λ _ s₁ h₁.
          let there = D.write_others tmp bin s₁ path apart ∙ h₁ in
          >>=-Ends Failed (Wrote bin) Done (write P tmp bin) (λ _. move P tmp target) s₁
            (try_call-Ends Failed (Wrote bin) (P.storage.write_file tmp bin) not_written s₁
              (λ _. there) (λ wrote. (there, D.written tmp bin s₁ wrote)))
            (λ _ s₂ h₂.
              try_call-Ends Failed Done (renamed P tmp target) not_moved s₂ (renamed_fails s₂ h₂.0)
                (renamed-Installed bin s₂ program h₂)))

  tag_of_same : (body : P.Body) (s : S) → (tag_of P body s).1 ≡ s
  unfolding tag_of
  tag_of_same body s =
      or_raise-Same (P.decode_tag 1048576 body) bad_release
        (λ tag. raise_if (is_nil (trim_space tag)) no_tag >> pure tag) s
        (λ tag. raise_if-Same (is_nil (trim_space tag)) no_tag (pure tag) s refl)

  released_same : (answer : ℕ × P.Body) (s : S) → (released P answer s).1 ≡ s
  unfolding released
  released_same (status, body) s =
      raise_if-Same (not (nat_beq status 200)) (refused status) (tag_of P body) s
        (tag_of_same body s)

  downloaded_same : (answer : ℕ × P.Body) (s : S) → (downloaded P answer s).1 ≡ s
  unfolding downloaded
  downloaded_same (status, body) s =
      raise_if-Same (not (nat_beq status 200)) (http_status status)
        (or_raise (P.read_all max_asset_size body) cut_off) s
        (or_raise_same (P.read_all max_asset_size body) cut_off s)

  latest_version-Same :
      (api_base repo : String) (s : S) → Same s → Same (latest_version P api_base repo s).1
  unfolding latest_version
  latest_version-Same api_base repo s h =
      let url = trim_right_of b'/' api_base <> "/repos/" <> repo <> "/releases/latest" in
      subst Same
        (sym
          (call_looked_at (P.request url (asked_headers P)) no_answer (released P) s released_same))
        (request_same url (asked_headers P) s path ∙ h)

  download_blob-Same : (url : String) (s : S) → Same s → Same (download_blob P url s).1
  unfolding download_blob
  download_blob-Same url s h =
      subst Same
        (sym (call_looked_at (P.request url []) no_download (downloaded P) s downloaded_same))
        (request_same url [] s path ∙ h)

  lifted-Same :
      {E A : Type 0} (wrap : E → Failure) (r : (E ⊎ A) × S) → Same r.1 → Same (lifted P wrap r).1
  lifted-Same wrap (inl e, s) h = h
  lifted-Same wrap (inr a, s) h = h

  chosen_version-Same :
      (api_base repo : String) (s : S) → Same s → Same (chosen_version P api_base repo s).1
  unfolding chosen_version
  chosen_version-Same api_base repo s h =
      elim (Bool-cases (is_nil (trim_space (P.env "SINGBOX_VERSION" s)))) [
        | inl unset ↦ rw unset (
            lifted-Same no_version (latest_version P api_base repo s)
              (latest_version-Same api_base repo s h))
        | inr set ↦ rw set h
      ]

  both : {A : Type 0} (r : (Failure ⊎ A) × S) → Same r.1 → Ends Failed (λ _. Same) r
  both (inl e, s) h = h
  both (inr a, s) h = h

  fetch-Same :
      (api_base download_base repo : String) (s : S)
      → Same s
      → Ends Failed (λ _. Same) (fetch P api_base download_base repo s)
  unfolding fetch
  fetch-Same api_base download_base repo s h =
      >>=-Ends Failed (λ _. Same) (λ _. Same) (chosen_version P api_base repo)
        (λ version.
          download_blob P
            (release_url P download_base repo version (asset_name version P.goos P.goarch)))
        s (both _ (chosen_version-Same api_base repo s h))
        (λ version s' h'. both _ (download_blob-Same _ s' h'))

  abbrev Unpacked : P.Blob → P.Binary → S → Type 0
  Unpacked blob bin s = Same s × (extract_binary P blob ≡ inr bin)

  unpack-Unpacked : (blob : P.Blob) (s : S) → Same s → Ends Failed (Unpacked blob) (unpack P blob s)
  unfolding unpack
  unpack-Unpacked blob s h = split (extract_binary P blob) (λ _ e. e)
    where
      split :
          (r : ArchiveError ⊎ P.Binary)
          → ((bin : P.Binary) → r ≡ inr bin → extract_binary P blob ≡ inr bin)
          → Ends Failed (Unpacked blob) (lifted P not_extracted (r, s))
      split (inl e) k = h
      split (inr bin) k = (h, k bin refl)

  unpack_to-Installed :
      (blob : P.Blob) (s : S) → Same s → Ends Failed Done (unpack_to P target blob s)
  unfolding unpack_to
  unpack_to-Installed blob s h =
      let checked : P.Binary → Action S Failure (Unit {0}) = λ bin.
        raise_if (ltb (P.size bin) min_size) (too_small (P.size bin)) >> put_program P target bin in
      >>=-Ends Failed (Unpacked blob) Done (unpack P blob) checked s (unpack-Unpacked blob s h)
        (λ bin s₁ (h₁, from).
          let small = ltb (P.size bin) min_size in
          let Large : Unit {0} → S → Type 0 = λ _ s'. (small ≡ false) × Same s' in
          >>=-Ends Failed Large Done (raise_if small (too_small (P.size bin)))
            (λ _. put_program P target bin) s₁
            (raise_if-Ends Failed Large small (too_small (P.size bin)) s₁ (λ _. h₁) (λ b. (b, h₁)))
            (λ _ s₂ (large, h₂).
              put_program-Installed bin s₂ (ltb→le (P.size bin) min_size large, (blob, from)) h₂))

  -- However an installation ends, a file other than the temporary one and the target is as it was
  -- before. Where it fails, the target is, too; where it succeeds, the target is the program that
  -- extractBinary found in some archive, of at least one MiB. This holds where each call of os
  -- changes the files that it is documented to change.
  pub install_keeps : (opts : Options) → Ends Failed Done (install P target opts s₀)
  unfolding install trim_space chosen_repo
  install_keeps opts =
      let api_base = or_default (trim_space opts.api_base) "https://api.github.com" in
      let download_base = or_default (trim_space opts.download_base) "https://github.com" in
      >>=-Ends Failed (λ _. Same) Done (fetch P api_base download_base (chosen_repo P opts.repo s₀))
        (unpack_to P target) s₀
        (fetch-Same api_base download_base (chosen_repo P opts.repo s₀) s₀ refl)
        (λ blob. unpack_to-Installed blob)
