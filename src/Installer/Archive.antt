-- ===== src/Installer/Archive.antt =====
-- singbox/singbox.go, extractBinary: the program is looked for in the release's archive.
pub mod First
use exnode.Base.{
  ℕ, ◌++◌, ◌≡◌, refl, String, Bool, true, false, ◌&&◌, ◌||◌, not, List, [], ◌∷◌, Option, none, some,
  ◌⊎◌, inl, inr, if◌then◌else◌, ◌==◌, string_eq, keep, Bool-cases,
}
use exnode.Installer.{ArchiveError, not_gzip, bad_tar, unread, no_member, base, max_asset_size}
use exnode.Installer.Platform.{Member, Stream, eof, broken, next, Platform}

module _ {Binary : Type 0} where
  abbrev pub read_member : Member Binary → ArchiveError ⊎ Binary
  read_member m = elim (m.read max_asset_size) [ none ↦ inl unread | some bin ↦ inr bin ]

  -- The loop over the members.
  unfoldable pub scan : Stream Binary → ArchiveError ⊎ Binary
  scan eof = inl no_member
  scan broken = inl bad_tar
  scan (next m rest) =
      let later = scan rest in
      if not m.regular || not (base m.name == "sing-box") then later else read_member m

module _ {S : Type 0} (P : Platform S) where
  unfoldable pub extract_binary : P.Blob → ArchiveError ⊎ P.Binary
  unfolding scan
  extract_binary blob = elim (P.open_archive blob) [
    | none ↦ inl not_gzip
    | some stream ↦ scan stream
  ]
