-- ===== src/Installer/Archive/First.antt =====
-- The member of a release's archive that becomes the program.
use exnode.Base.{
  ◌≡◌, refl, Bool, true, false, ◌&&◌, ◌||◌, not, List, [], ◌∷◌, Option, none, some, ◌⊎◌, inl,
  if◌then◌else◌, ◌==◌, string_eq, keep,
}
use exnode.Installer.{ArchiveError, not_gzip, bad_tar, no_member, base}
use exnode.Installer.Platform.{Member, Stream, eof, broken, next, Platform}
use exnode.Installer.Archive.{read_member, scan, extract_binary}

module _ {Binary : Type 0} where
  abbrev pub members : Stream Binary → List (Member Binary)
  members eof = []
  members broken = []
  members (next m rest) = m ∷ members rest

  -- The archive can be read to its end.
  abbrev pub is_whole : Stream Binary → Bool
  is_whole eof = true
  is_whole broken = false
  is_whole (next m rest) = is_whole rest

  -- A regular file of the program's name, in whatever directory.
  abbrev pub is_program : Member Binary → Bool
  is_program m = m.regular && base m.name == "sing-box"

  -- The first of the programs, or what is wrong with an archive without one.
  abbrev pub first_of : List (Member Binary) → Bool → ArchiveError ⊎ Binary
  first_of [] whole = inl (if whole then no_member else bad_tar)
  first_of (m ∷ programs) whole = read_member m

  chosen :
      (r b whole : Bool) (m : Member Binary) (found : ArchiveError ⊎ Binary)
      (programs : List (Member Binary))
      → found ≡ first_of programs whole
      → (if not r || not b then found else read_member m)
        ≡ first_of (if r && b then m ∷ programs else programs) whole
  chosen true true whole m found programs h = refl
  chosen true false whole m found programs h = h
  chosen false b whole m found programs h = h

  scan_first :
      (stream : Stream Binary)
      → scan stream ≡ first_of (keep is_program (members stream)) (is_whole stream)
  unfolding scan keep
  scan_first eof = refl
  scan_first broken = refl
  scan_first (next m rest) =
      chosen m.regular (base m.name == "sing-box") (is_whole rest) m (scan rest)
        (keep is_program (members rest)) (scan_first rest)

module _ {S : Type 0} (P : Platform S) where
  abbrev reference : Option (Stream P.Binary) → ArchiveError ⊎ P.Binary
  reference none = inl not_gzip
  reference (some stream) = first_of (keep is_program (members stream)) (is_whole stream)

  opened :
      (archive : Option (Stream P.Binary))
      → (elim archive [ none ↦ inl not_gzip | some stream ↦ scan stream ]) ≡ reference archive
  opened none = refl
  opened (some stream) = scan_first stream

  -- extractBinary gives the contents of the first of the archive's regular members whose base name is
  -- sing-box, whatever stands behind it; without such a member it tells an archive that was read to
  -- its end from a broken one.
  pub extract_binary_first :
      (blob : P.Blob) → extract_binary P blob ≡ reference (P.open_archive blob)
  unfolding extract_binary
  extract_binary_first blob = opened (P.open_archive blob)
